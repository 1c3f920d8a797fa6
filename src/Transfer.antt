-- ===== src/Transfer.antt =====
-- src/batch/main.cc: a Writer and a Reader together, from the handshake to the end of Reader::Read.
use aws_efa_examples.Common.{
  ne→==, if◌then◌else◌, ensure, ◌==◌, ℕ, suc, ◌+◌, ◌≡◌, ◌≢◌, ◌∙◌, refl, sym, ap, subst, List, [],
  ◌∷◌, map, length, All, concat_map, Outcome, ok, >>=-eq-ok, ok-injective, arith, outcome_of,
}
use aws_efa_examples.Loop.Defs.{Entry}
use aws_efa_examples.Conn.{Fabric, Conn, Posted}
use aws_efa_examples.Writer.{k_imm_data, CudaRegion, Batch, Pages, write_one}
use aws_efa_examples.Writer.Requests.{requests}
use aws_efa_examples.Writer.Outcomes.{outcome_of-write_one, await_upto}
use aws_efa_examples.Writer.Targets.{notifies-append, notifies, notifies-requests}
use aws_efa_examples.Session.{Message, alloc, msgsize, writer_handshake}
use aws_efa_examples.Reader.{Process, read_from}
use aws_efa_examples.Reader.States.{IsDeaf, IsFinished}
use aws_efa_examples.Reader.Hearing.{heard_in, AllNotify, loop}
use aws_efa_examples.Reader.Losses.{spaced, read_from-spaced}

-- A call of WriteOne that returns, and what it has posted.
abbrev pub IsPass : Pages → List CudaRegion → Batch → Type 0
IsPass p regions b =
    (await : ℕ → Outcome ℕ) × (ops : ℕ) × (sent : ℕ) × (outcome_of
        (write_one await p regions ops sent)
      ≡ ok b)

IsPass-notifies :
    (p : Pages) (region : CudaRegion) (b : Batch)
    → p.num_pages ≢ 0
    → IsPass p (region ∷ []) b
    → notifies (b.posted) ≡ 1
IsPass-notifies p region b some_page (await, ops, sent, e) =
    let count = length (requests p (region ∷ [])) in
    let (_, _, settles) =
      >>=-eq-ok (await_upto await 0 count) _
        (sym (outcome_of-write_one await p (region ∷ []) ops sent) ∙ e) in
    ap (λ (b : Batch). notifies (b.posted)) (sym (ok-injective settles))
    ∙ notifies-requests p (region ∷ [])
    ∙ ap (λ z. if z then 0 else 1) (ne→== (p.num_pages) 0 some_page)

one_region :
    (rank peer seed addr key size seed' : ℕ) (old : Message) (regions : List CudaRegion)
    → writer_handshake peer (alloc rank seed addr key old) size ≡ ok (seed', regions)
    → (region : CudaRegion) × (regions ≡ region ∷ [])
unfolding writer_handshake alloc
one_region rank peer seed addr key size seed' old regions e =
    let (_, _, e1) = >>=-eq-ok (ensure (msgsize (alloc rank seed addr key old) == size) _) _ e in
    let (_, _, e2) = >>=-eq-ok (ensure (rank == peer) _) _ e1 in
    (_, sym (ap (λ (r : ℕ × List CudaRegion). r.1) (ok-injective e2)))

passes-notify :
    (p : Pages) (region : CudaRegion) (bs : List Batch)
    → p.num_pages ≢ 0
    → All (IsPass p (region ∷ [])) bs
    → notifies (concat_map (λ b. b.posted) bs) ≡ length bs
passes-notify p region [] some_page ts = refl
passes-notify p region (b ∷ bs) some_page (t, ts) =
    notifies-append (b.posted) (concat_map (λ b. b.posted) bs)
    ∙ ap (λ k. k + notifies (concat_map (λ b. b.posted) bs))
        (IsPass-notifies p region b some_page t)
    ∙ ap (λ k. 1 + k) (passes-notify p region bs some_page ts)
    ∙ one_more (length bs)
  where
    one_more : (n : ℕ) → 1 + n ≡ suc n
    one_more n = omega arith

-- The writer and the reader agree on the number of notifications. If the writer's handshake accepts the
-- message that the reader allocates, there is a page at all, and the writer's passes return, as many as
-- the reader has reads, then each write with immediate data that they post being notified once, alone in
-- its poll and with at least one poll without a notification of its own before it and one after it,
-- Reader::Read returns. The reader's process polls one queue and has nothing else to do, and its handles
-- and frames are not null and not mixed up.
pub passes-IsFinished :
    (fi : Fabric) (post : Posted → ℕ) (conn : Conn) (main boss cq : ℕ) (frame context : ℕ → ℕ)
    → main ≢ 0
    → boss ≢ 0
    → ((k : ℕ) → frame k ≢ 0)
    → ((k : ℕ) → frame k ≢ main)
    → (rank peer seed addr key size seed' : ℕ) (old : Message) (regions : List CudaRegion)
    → writer_handshake peer (alloc rank seed addr key old) size ≡ ok (seed', regions)
    → (p : Pages) (bs : List Batch) → p.num_pages ≢ 0
    → All (IsPass p regions) bs
    → (gaps : List ℕ) (rounds : List (ℕ × List Entry)) (process : Process)
    → length gaps ≡ notifies (concat_map (λ b. b.posted) bs)
    → IsDeaf main boss cq process
    → AllNotify fi k_imm_data rounds
    → map heard_in rounds ≡ spaced gaps
    → (process' : Process) × (loop fi post conn k_imm_data main frame context rounds
          (read_from fi post conn k_imm_data main frame context (length bs) 0 process)
        ≡ ok process')
      × IsFinished main boss process'
passes-IsFinished fi post conn main boss cq frame context main_real boss_real frames_real apart rank
      peer seed addr key size seed' old regions accepted p bs some_page passes gaps rounds process
      as_many deaf told apart_in_time =
    let (region, one) = one_region rank peer seed addr key size seed' old regions accepted in
    let total : length gaps ≡ length bs =
      as_many
      ∙ passes-notify p region bs some_page (subst (λ rs. All (IsPass p rs) bs) one passes) in
    subst
      (λ n.
        (process' : Process) × (loop fi post conn k_imm_data main frame context rounds
            (read_from fi post conn k_imm_data main frame context n 0 process)
          ≡ ok process')
        × IsFinished main boss process')
      total
      (read_from-spaced fi post conn k_imm_data main boss cq frame context (omega arith) main_real
        boss_real frames_real apart gaps rounds process deaf told apart_in_time)
