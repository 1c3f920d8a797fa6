-- ===== src/Examples/Peers.antt =====
-- A Peer that is built, and the data that the peers compare, on small buffers.
use aws_efa_examples.Common.{
  ℕ, ◌+◌, ◌*◌, ◌≡◌, ◌≤◌, ◌<◌, ◌↔◌, Bool, true, refl, ok, arith, [], ◌∷◌, none, Exception, throw,
  assertion, ◌≢◌,
}
use aws_efa_examples.Peer.{write_bytes, fill_words, verify, fill_writer, place_rank}
use aws_efa_examples.Peer.Filling.{verify-fill_writer}
use aws_efa_examples.Peer.Verifying.{byte_of, verify_iff}
use aws_efa_examples.Net.{given}
use aws_efa_examples.Peer.Building.{PeerAnswers, new_peer}
use aws_efa_examples.Peer.Building.Returning.{new_peer-eq-ok}
use aws_efa_examples.Peer.Building.Unwinding.{objects, new_peer-throw}
use aws_efa_examples.Examples.{idle}
use aws_efa_examples.Examples.Messages.{connection}

-- A generator that counts on from its seed.
abbrev counting : ℕ → ℕ → ℕ
counting seed i = seed + i

abbrev zeros : ℕ → ℕ
zeros q = 0

abbrev filled : ℕ → ℕ
filled = write_bytes 4096 (fill_words (counting 770) 0 2) zeros

filled_16 : fill_writer counting 0 770 16 4096 zeros ≡ ok filled
unfolding fill_writer
filled_16 = refl

verify-fill_writer_example : verify counting 0 filled 4096 770 16 ≡ ok true
verify-fill_writer_example = verify-fill_writer counting 0 770 16 4096 zeros filled filled_16

verify_iff_example :
    (same : Bool) × (verify counting 0 filled 4096 770 16 ≡ ok same)
    × ((same ≡ true) ↔ ((i : ℕ) → i < 16 → byte_of (counting 770) i ≡ filled (4096 + i)))
verify_iff_example = verify_iff counting filled 4096 770 16 refl

-- Rank 0 with one GPU; its connection is at 500, with buffers of one page of 4096 bytes.
abbrev answers : PeerAnswers
answers = record {
  logical_index = λ core. core + 4;
  affinities = record { gpu = 5; numanode = 2; cores = 3 ∷ []; efas = (6, 70) ∷ [] } ∷ [];
  set_affinity = λ cpu. none;
  opens = λ info. record {
    fabric = given 1;
    domain = given 2;
    cq = given 3;
    av = given 4;
    ep = given 5;
    bind_cq = 0;
    bind_av = 0;
    enable = 0;
    getname = 0;
    name = [];
  };
  inserted = 1;
  key = 61 ∷ [];
  made = ok 500;
  conn_at = λ c. connection;
}

built : (new_peer answers 0 1024 4 idle).0 ≡ ok 500
unfolding new_peer
built = refl

new_peer-eq-ok_example :
    (◌≢◌ {A = ℕ} 500 0)
    × (2 * 1024 + 1024 ≤ connection.read_buffer.size)
    × (2 * 1024 + 1024 ≤ connection.write_buffer.size)
new_peer-eq-ok_example =
    new_peer-eq-ok answers 0 1024 4 idle 500 2 built (omega arith) (omega arith)

-- Two pages do not fit.
abbrev too_large : Exception
too_large = assertion "(page_size_ * num_pages_) <= conn_->GetReadBuffer().GetSize()"

not_built : (new_peer answers 0 4096 2 idle).0 ≡ throw too_large
unfolding new_peer
not_built = refl

placed : place_rank (answers.logical_index) (answers.affinities) 0 ≡ ok (7, 70)
unfolding place_rank
placed = refl

new_peer-throw_example : objects (new_peer answers 0 4096 2 idle).2 ≡ 3 ∷ 4 ∷ 5 ∷ 2 ∷ 1 ∷ []
new_peer-throw_example = new_peer-throw answers 0 4096 2 7 70 idle too_large placed refl not_built
