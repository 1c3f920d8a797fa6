-- ===== src/Sender/Sending.antt =====
-- Writer::WriteOne of src/batch/main.cc in IO::Run: when it returns, one write is posted for each page.
use aws_efa_examples.Common.{
  ℕ, zero, suc, ◌+◌, ◌*◌, ◌≤◌, ◌<◌, ◌≡◌, ◌∙◌, refl, ap, List, map, ◌++◌, length, Bool, true, arith,
  ok, ◌>>=◌,
}
use aws_efa_examples.Loop.Defs.{Entry}
use aws_efa_examples.Writer.{CudaRegion}
use aws_efa_examples.Sender.{Sender}
use aws_efa_examples.Sender.Calls.{pages_in}
use aws_efa_examples.Sender.Windows.{Setting, IsSound}
use aws_efa_examples.Sender.Steps.{IsReturned}
use aws_efa_examples.Sender.Serving.{round_of, loop, Serves, IsStarting}
use aws_efa_examples.Sender.Finishing.{starts, loop-IsReturned}
use aws_efa_examples.Sender.Tally.{begun_of}
use aws_efa_examples.Sender.Counting.{fill_regions-begun_of}

begun_of-all : (f : ℕ → Bool) (n : ℕ) → ((k : ℕ) → k < n → f k ≡ true) → begun_of f n ≡ n
begun_of-all f zero all = refl
begun_of-all f (suc n) all =
    rw (all n (omega arith)) (omega (arith, begun_of-all f n (λ k l. all k (omega arith))))

-- WriteOne over any regions, in a process with nothing else to do, where libfabric takes each write, the
-- pages are not empty, and the handles, frames and contexts are not null and not mixed up: if each poll brings completions only of writes in flight, each once, and
-- at least one where no handle is queued, then within five rounds of IO::Run for each page to write
-- WriteOne returns, with its awaiter queued; `ops` and `sent` have grown by one for each page, and one
-- write has been posted for each.
pub fill_regions-IsReturned :
    (s : Setting) (sound : IsSound s) (regions : List CudaRegion) (p : Sender)
    (rounds : List (ℕ × List Entry))
    → IsStarting s p
    → s.total ≡ pages_in s.pages regions
    → 5 * s.total ≤ length rounds
    → ((p' : Sender) → starts s sound regions p ≡ ok p' → Serves s rounds p')
    → (front : List (ℕ × List Entry)) × (back : List (ℕ × List Entry)) × (p' : Sender) × (rounds
        ≡ front ++ back)
      × ((starts s sound regions p >>= loop s front) ≡ ok p')
      × IsReturned s p'
      × (p'.sent ≡ p.sent + s.total)
      × (length p'.posted ≡ length p.posted + s.total)
fill_regions-IsReturned s sound regions p rounds i all enough serves =
    let (front, back, p', split, ran, returned) =
      loop-IsReturned s sound regions p rounds i all enough serves in
    let (_, sent, posted, _) =
      fill_regions-begun_of s regions (map (round_of s) front) p p' i.no_futs i.none_made ran in
    (
      front,
      back,
      p',
      split,
      ran,
      returned,
      omega (arith, sent, returned.all_made),
      posted
          ∙ ap (λ n. length p.posted + n)
              (ap (begun_of p'.begun) returned.all_made
                ∙ begun_of-all p'.begun s.total returned.all_begun),
    )
