-- ===== src/Efa.antt =====
-- src/batch/include/common/efa.h: the class EFA, and the same functions in src/info/main.cc. What
-- fi_allocinfo and fi_getinfo answer is an argument; fi_freeinfo is listed with what it frees.
use aws_efa_examples.Common.{
  ℕ, ◌≡◌, List, [], ◌∷◌, ◌++◌, ◌==◌, if◌then◌else◌, count, count-append, Outcome, ok, throw,
  undefined, assertion, arith,
}

-- What fi_getinfo returns and writes.
pub record InfoAnswer : Type 0 where
  pub rc : ℕ
  pub info : ℕ

-- `if (p) { fi_freeinfo(p); p = nullptr; }`, by what it frees.
abbrev pub frees : ℕ → List ℕ
frees p = if p == 0 then [] else p ∷ []

-- EFA::GetInfo with its labels `error` and `end`: what it returns and what it frees.
unfoldable pub end_label : (hints info : ℕ) → List ℕ → ℕ × List ℕ
end_label hints info freed = (info, freed ++ frees hints)

unfoldable pub error_label : (hints info : ℕ) → ℕ × List ℕ
unfolding end_label
error_label hints info = end_label hints 0 (frees info)

unfoldable pub get_info : (hints : ℕ) → InfoAnswer → ℕ × List ℕ
unfolding error_label
get_info hints a =
    if hints == 0
    then end_label hints 0 []
    else if a.rc == 0
    then end_label hints a.info []
    else error_label hints a.info

-- EFA(), which asserts that there is a list, and ~EFA: what is freed over the life of the object.
unfoldable pub new_efa : (hints : ℕ) → InfoAnswer → Outcome ℕ × List ℕ
unfolding get_info
new_efa hints a =
    let (info, freed) = get_info hints a in
    (if info == 0 then throw (assertion "info_") else ok info, freed)

unfoldable pub destroy_efa : ℕ → List ℕ
destroy_efa info = frees info

abbrev pub efa_life : Outcome ℕ × List ℕ → List ℕ
efa_life (ok info, freed) = freed ++ destroy_efa info
efa_life (throw e, freed) = freed
efa_life (undefined, freed) = freed

-- Over the life of an EFA object, its constructor's exception included, the hints and the list that
-- fi_getinfo wrote are each freed once, whatever the two calls answer, and nothing else is freed.
pub new_efa-destroy_efa :
    (hints : ℕ) (a : InfoAnswer) (p : ℕ)
    → count p (efa_life (new_efa hints a))
      ≡ (if hints == 0 then 0 else count p (frees a.info ++ frees hints))
unfolding new_efa destroy_efa
new_efa-destroy_efa hints a p = ground (arith, count-append p (frees a.info) (frees hints))
