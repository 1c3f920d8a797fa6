-- ===== src/Examples/Pingpongs.antt =====
-- The program of src/efa.
use aws_efa_examples.Common.{ℕ, ◌≡◌, refl, [], ◌∷◌, ok}
use aws_efa_examples.Loop.Selector.{CqRead, entries, select}
use aws_efa_examples.Buffer.{RegAnswer, registered}
use aws_efa_examples.Pingpong.{DomainBuffer, register_domain, bare_select}
use aws_efa_examples.Pingpong.Selecting.{bare_select-eq-select}
use aws_efa_examples.Examples.{entry, idle, idle_memory}

abbrev fresh_buffer : DomainBuffer
fresh_buffer = record { raw = 1024; start = 1024; size = 8129; mrs = [] }

abbrev with_region : DomainBuffer
with_region = record { raw = 1024; start = 1024; size = 8129; mrs = (2, 40) ∷ [] }

abbrev regattr : ℕ → ℕ → ℕ → RegAnswer
regattr domain start size = registered 40

register_2 : register_domain regattr 2 fresh_buffer ≡ ok with_region
unfolding register_domain
register_2 = refl

abbrev one_receive : ℕ → CqRead
one_receive q = entries (entry 9 1 64 0 ∷ [])

bare_select-eq-select_example :
    bare_select one_receive (7 ∷ []) idle_memory ≡ select 8 one_receive idle.selector idle_memory
bare_select-eq-select_example =
    bare_select-eq-select 8 one_receive idle.selector idle_memory ((refl, tt), tt)
