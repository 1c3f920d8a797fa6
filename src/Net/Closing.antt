-- ===== src/Net/Closing.antt =====
-- The end of a Net with its connections: ~Net, and then its members, of which conns_ has a destructor.
-- libfabric asks that what was made in a domain is closed before the domain.
use mathlib.Core.Logic.Or
use mathlib.Core.List.{
  Mem, Mem-prop, not-mem-nil, eq-or-mem_of_mem-cons, mem-append_left, mem-append_right,
  mem-map_of_mem,
}
use aws_efa_examples.Common.{
  subst, map-append, ℕ, ◌≡◌, ◌≢◌, refl, List, [], ◌∷◌, ◌++◌, map, append_assoc, concat_map, arith,
}
use aws_efa_examples.Loop.Io.{Io}
use aws_efa_examples.Buffer.{Release}
use aws_efa_examples.Conn.{Conn}
use aws_efa_examples.Conn.Lifetime.{destroy_conn}
use aws_efa_examples.Net.{Net, destroy_net, closes}

-- fi_close of an object of Net, and what a buffer gives back.
pub data Closed : Type 0 where
  object : ℕ → Closed
  buffer : Release → Closed

-- `delete` of each Conn that the map owns.
abbrev pub close_conns : (ℕ → Conn) → List (List ℕ × ℕ) → List Closed
close_conns conn_at = concat_map (λ (c : List ℕ × ℕ). map buffer (destroy_conn (conn_at c.1)))

-- The destruction of a Net, where `conn_at` has the connections at their addresses.
unfoldable pub end_net : (ℕ → Conn) → Net × Io → List Closed
unfolding destroy_net destroy_conn
end_net conn_at (net, io) = map object (destroy_net (net, io)).1 ++ close_conns conn_at (net.conns)

-- Something is closed, and something else after it.
abbrev pub IsClosedBefore : Closed → Closed → List Closed → Type 0
IsClosedBefore a b closed =
    (first : List Closed) × (last : List Closed) × (closed ≡ first ++ a ∷ last) × Mem b last

mem-concat_map :
    {A B : Type 0} (f : A → List B) (l : List A) (a : A) (b : B)
    → Mem a l
    → Mem b (f a)
    → Mem b (concat_map f l)
mem-concat_map f [] a b m n = absurd (not-mem-nil m)
mem-concat_map f (c ∷ l) a b m n =
    Or.elim Mem-prop (eq-or-mem_of_mem-cons m)
      (λ e. mem-append_left (concat_map f l) (subst (λ x. Mem b (f x)) e n))
      (λ m. mem-append_right (f c) (mem-concat_map f l a b m n))

closes-object : (p : ℕ) → p ≢ 0 → closes p ≡ p ∷ []
closes-object p n = ground arith

-- When a Net ends, what its connections have made in its domain is closed after the domain: each
-- release of each connection, so each region, comes after the call that closes the domain, if the Net
-- has one.
pub end_net-domain :
    (conn_at : ℕ → Conn) (net : Net) (io : Io) (key : List ℕ) (c : ℕ) (r : Release)
    → net.domain ≢ 0
    → Mem (key, c) (net.conns)
    → Mem r (destroy_conn (conn_at c))
    → IsClosedBefore (object (net.domain)) (buffer r) (end_net conn_at (net, io))
unfolding end_net destroy_net
end_net-domain conn_at net io key c r d m n =
    let before = map object (closes (net.cq) ++ closes (net.av) ++ closes (net.ep)) in
    let conns = close_conns conn_at (net.conns) in
    (
      before,
      map object (closes (net.fabric)) ++ conns,
      rw (closes-object (net.domain) d) (simp (map-append, append_assoc) refl),
      mem-append_right (map object (closes (net.fabric))) (
          mem-concat_map (λ (c : List ℕ × ℕ). map buffer (destroy_conn (conn_at c.1))) (net.conns)
            (key, c) (buffer r) m (mem-map_of_mem buffer n)),
    )
