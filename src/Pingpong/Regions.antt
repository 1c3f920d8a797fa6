-- ===== src/Pingpong/Regions.antt =====
-- The regions of a buffer of src/efa.
use aws_efa_examples.Common.{ℕ, ◌≡◌, ◌≢◌, refl, inl, inr, none, Option-cases, ok, lookup, arith}
use aws_efa_examples.Buffer.{RegAnswer, registered, refused, bind}
use aws_efa_examples.Common.{lookup-emplace_fresh}
use aws_efa_examples.Pingpong.{DomainBuffer, register_domain, get_mr}

-- After Register has succeeded for a domain that is not null, GetMR has a region for it, and to
-- register again changes nothing, whatever libfabric would answer.
pub register_domain_twice :
    (regattr later : ℕ → ℕ → ℕ → RegAnswer) (domain : ℕ) (b b' : DomainBuffer)
    → domain ≢ 0
    → register_domain regattr domain b ≡ ok b'
    → ((mr : ℕ) × (get_mr domain b' ≡ ok mr)) × (register_domain later domain b' ≡ ok b')
unfolding register_domain get_mr bind
register_domain_twice regattr later domain b b' n r = elim (Option-cases (lookup domain b.mrs)) [
  | inr (mr, old) ↦ ((mr, ground (arith, old)), ground (arith, old))
  | inl new ↦ go new (regattr domain b.start b.size) refl
]
  where
    go :
        lookup domain b.mrs ≡ none
        → (r : RegAnswer) → regattr domain b.start b.size ≡ r
        → ((mr : ℕ) × (get_mr domain b' ≡ ok mr)) × (register_domain later domain b' ≡ ok b')
    go new (registered mr) a =
        let there = lookup-emplace_fresh domain mr b.mrs new in
        ((mr, ground (arith, there)), ground (arith, there))
    go new (refused rc) a = ground arith
