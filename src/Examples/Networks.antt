-- ===== src/Examples/Networks.antt =====
-- A Net that connects twice, and an address as text.
use aws_efa_examples.Common.{
  ℕ, zero, suc, ◌/◌, ◌%◌, ◌<◌, ◌≡◌, ◌↔◌, refl, true, false, none, List, [], ◌∷◌, ◌++◌, All, take,
  drop, ok, contains, arith,
}
use aws_efa_examples.Net.{Net, new_net, find_conn, connect}
use aws_efa_examples.Net.Connect.{owned, connect-owned}
use aws_efa_examples.Net.Address.{hex_digit, addr_to_str, str_to_addr, str_to_addr-addr_to_str}

-- A Net that has a connection, at 500, to the address with the text 61.
abbrev connected : Net
connected = record new_net { conns = (61 ∷ [], 500) ∷ [] }

connect_again : connect 1 (61 ∷ []) (ok 600) connected ≡ (connected, ok 600)
unfolding connect
connect_again = refl

fresh_600 : owned 600 connected.conns ≡ false
unfolding contains
fresh_600 = refl

connect-owned_example :
    (◌≡◌ {A = ℕ} 600 600)
    × ((owned 600 connected.conns ≡ true) ↔ (find_conn (61 ∷ []) connected.conns ≡ none))
connect-owned_example = connect-owned (61 ∷ []) 600 600 connected connected fresh_600 connect_again

abbrev fmt_02x : ℕ → List ℕ
fmt_02x b = hex_digit (b / 16) ∷ hex_digit (b % 16) ∷ []

abbrev repeat : ℕ → ℕ → List ℕ
repeat zero b = []
repeat (suc n) b = b ∷ repeat n b

repeat_small : (n : ℕ) → All (λ b. b < 256) (repeat n 0xfe)
repeat_small zero = tt
repeat_small (suc n) = (omega arith, repeat_small n)

str_to_addr-addr_to_str_example :
    str_to_addr (addr_to_str fmt_02x (repeat 32 0xfe)) (repeat 64 0)
    ≡ take 32 (repeat 32 0xfe) ++ drop 32 (repeat 64 0)
str_to_addr-addr_to_str_example =
    str_to_addr-addr_to_str fmt_02x (repeat 32 0xfe) (repeat 64 0) (λ b h. refl) (repeat_small 32)
      (omega arith) (omega arith)
