-- ===== src/Net.antt =====
-- src/batch/net.cc and include/common/net.h: the class Net. What libfabric answers is an argument;
-- opening changes the object also where it ends in an exception.
pub mod Address
pub mod Closing
pub mod Connect
pub mod Teardown
use Prim.Native.String.{String}
use aws_efa_examples.Common.{
  ℕ, Bool, true, false, ◌&&◌, Option, none, some, List, [], ◌∷◌, ◌++◌, ◌==◌, if◌then◌else◌, Outcome,
  ok, throw, undefined, check_failed,
}
use aws_efa_examples.Loop.Io.{
  Io, state_of, call, call_after, schedule_handle, cancel_handle, stopped, register_cq,
  unregister_cq, register_context, unregister_context, call_events, select_events, take_front,
  run_ready, runone, Round, run_loop,
}
use aws_efa_examples.Loop.Io

-- The handles that a Net holds; 0 is the null pointer. `addr` is its endpoint's name, and the map of
-- connections takes an address in hexadecimal to the address of a Conn.
pub record Net : Type 0 where
  pub fabric : ℕ
  pub domain : ℕ
  pub ep : ℕ
  pub cq : ℕ
  pub av : ℕ
  pub addr : List ℕ
  pub conns : List (List ℕ × ℕ)

abbrev pub new_net : Net
new_net = record { fabric = 0; domain = 0; ep = 0; cq = 0; av = 0; addr = []; conns = [] }

-- A libfabric call that makes an object writes its address or returns a code that is not zero.
pub data Answer : Type 0 where
  given refused : ℕ → Answer

-- The answers to the calls of Open, the codes of the last five included.
pub record OpenAnswers : Type 0 where
  pub fabric : Answer
  pub domain : Answer
  pub cq : Answer
  pub av : Answer
  pub ep : Answer
  pub bind_cq : ℕ
  pub bind_av : ℕ
  pub enable : ℕ
  pub getname : ℕ
  pub name : List ℕ

-- A part of Open: the object and the event loop afterwards, and the exception if there is one.
abbrev pub Step : Type 0
Step = Net × Io → (Net × Io) × Outcome (Unit {0})

-- One statement after another.
infixr 6 ◌then_do◌
abbrev pub ◌then_do◌ : Step → Step → Step
◌then_do◌ first second s = next (first s)
  where
    next : (Net × Io) × Outcome (Unit {0}) → (Net × Io) × Outcome (Unit {0})
    next (s', ok _) = second s'
    next (s', throw e) = (s', throw e)
    next (s', undefined) = (s', undefined)

-- CHECK of a call that makes an object, and of one that does not.
abbrev pub make : String → Answer → (ℕ → Net → Net) → Step
make name (given p) put (net, io) = ((put p net, io), ok tt)
make name (refused rc) put s = (s, throw (check_failed name rc))

abbrev pub check : String → ℕ → Step
check name rc s = if rc == 0 then (s, ok tt) else (s, throw (check_failed name rc))

-- Net::Register and UnRegister.
unfoldable pub register : Step
unfolding Io.register_cq
register (net, io) = ((net, if net.cq == 0 then io else Io.register_cq net.cq io), ok tt)

unfoldable pub unregister : Net → Io → Io
unfolding Io.unregister_cq
unregister net io = if net.cq == 0 then io else Io.unregister_cq net.cq io

-- Net::Open.
unfoldable pub open_net : OpenAnswers → Step
unfolding register
open_net a =
    make "fi_fabric" a.fabric (λ p n. record n { fabric = p })
    then_do make "fi_domain" a.domain (λ p n. record n { domain = p })
    then_do make "fi_cq_open" a.cq (λ p n. record n { cq = p })
    then_do make "fi_av_open" a.av (λ p n. record n { av = p })
    then_do make "fi_endpoint" a.ep (λ p n. record n { ep = p })
    then_do check "fi_ep_bind" a.bind_cq
    then_do check "fi_ep_bind" a.bind_av
    then_do check "fi_enable" a.enable
    then_do check "fi_getname" a.getname
    then_do (λ s. ((record (s.0) { addr = a.name }, s.1), ok tt))
    then_do register

-- `if (p) { fi_close(p); p = nullptr; }`, by what it closes.
abbrev pub closes : ℕ → List ℕ
closes p = if p == 0 then [] else p ∷ []

-- ~Net: the object, the event loop, and what is closed.
unfoldable pub destroy_net : Net × Io → (Net × Io) × List ℕ
unfolding unregister
destroy_net (net, io) = (
  (record net { cq = 0; av = 0; ep = 0; domain = 0; fabric = 0 }, unregister net io),
  closes net.cq ++ closes net.av ++ closes net.ep ++ closes net.domain ++ closes net.fabric,
)

-- Equality of std::string.
unfoldable pub same_text : List ℕ → List ℕ → Bool
same_text [] [] = true
same_text [] (y ∷ ys) = false
same_text (x ∷ xs) [] = false
same_text (x ∷ xs) (y ∷ ys) = (x == y) && same_text xs ys

unfoldable pub find_conn : List ℕ → List (List ℕ × ℕ) → Option ℕ
unfolding same_text
find_conn k [] = none
find_conn k ((j, c) ∷ m) = if same_text j k then some c else find_conn k m

-- conns_.emplace(key, conn): where the key is there the new connection is destroyed.
unfoldable pub emplace_conn : List ℕ → ℕ → List (List ℕ × ℕ) → List (List ℕ × ℕ)
unfolding same_text
emplace_conn k c [] = (k, c) ∷ []
emplace_conn k c ((j, d) ∷ m) = if same_text j k then (j, d) ∷ m else (j, d) ∷ emplace_conn k c m

-- Net::Connect, where `inserted` is what fi_av_insert returns, `key` the text of the address, and
-- `made` what the constructor of Conn does, with the new object's address.
unfoldable pub connect : (inserted : ℕ) (key : List ℕ) (made : Outcome ℕ) → Net → Net × Outcome ℕ
unfolding emplace_conn
connect inserted key (ok conn) net =
    if inserted == 1
    then (record net { conns = emplace_conn key conn net.conns }, ok conn)
    else (net, throw (check_failed "fi_av_insert" inserted))
connect inserted key (throw e) net =
    if inserted == 1 then (net, throw e) else (net, throw (check_failed "fi_av_insert" inserted))
connect inserted key undefined net =
    if inserted == 1 then (net, undefined) else (net, throw (check_failed "fi_av_insert" inserted))
