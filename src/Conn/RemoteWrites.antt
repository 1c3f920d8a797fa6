-- ===== src/Conn/RemoteWrites.antt =====
-- Read: which remote writes wake the coroutine that waits for one.
use aws_efa_examples.Common.{
  lookup-erase, ℕ, ◌%◌, ◌^◌, ◌≡◌, Bool, true, false, ◌&&◌, Option, none, some, List, [], ◌∷◌, ◌==◌,
  if◌then◌else◌, ok, lookup, emplace, arith,
}
use aws_efa_examples.Loop.Defs.{suspend, Entry, Event}
use aws_efa_examples.Loop.Io.{state_of}
use aws_efa_examples.Loop.Selector.{has}
use aws_efa_examples.Loop.Selector.Wakes.{context_of, event_of, handle_of}
use aws_efa_examples.Conn.{Fabric, Conn, World, Posted, read, remote_write_resume}

-- What the selector makes of an entry in the state of a world.
abbrev pub wakes : Fabric → World → Entry → Option Event
wakes fi w e = event_of fi.remote_write w.io.selector.imm_data_contexts (handle_of w.io.memory) e

abbrev pub is_none : Option ℕ → Bool
is_none none = true
is_none (some _) = false

lookup-emplace :
    (k j c : ℕ) (m : List (ℕ × ℕ))
    → lookup j (emplace k c m) ≡ (if (j == k) && is_none (lookup k m) then some c else lookup j m)
unfolding lookup emplace
lookup-emplace k j c [] = ground arith
lookup-emplace k j c ((i, d) ∷ m) = ground (arith, lookup-emplace k j c m)

-- After Read(imm_data) the contexts of all entries are what they were, but for the remote writes
-- whose immediate data, cut to 32 bits, is imm_data: those are for the context of this Read if no
-- other was registered for that number. Above 32 bits there is no such entry.
pub context_of-read :
    (fi : Fabric) (post : Posted → ℕ) (conn : Conn) (c co imm_data : ℕ) (w w' : World) (p : Posted)
    (e : Entry)
    → read fi post conn c co imm_data w ≡ (w', ok p)
    → context_of fi.remote_write w'.io.selector.imm_data_contexts e ≡ (
        if has e.flags fi.remote_write
          && (((e.imm % 2 ^ 32) == imm_data)
              && is_none (lookup imm_data w.io.selector.imm_data_contexts))
        then some c
        else context_of fi.remote_write w.io.selector.imm_data_contexts e)
unfolding read context_of
context_of-read fi post conn c co imm_data w w' p e r =
    ground (arith, lookup-emplace imm_data (e.imm % 2 ^ 32) c w.io.selector.imm_data_contexts)

resume-wakes :
    (fi : Fabric) (conn : Conn) (imm_data : ℕ) (w : World) (e later : Entry)
    → has e.flags fi.remote_write ≡ true
    → has later.flags fi.remote_write ≡ true
    → later.imm % 2 ^ 32 ≡ imm_data
    → wakes fi (remote_write_resume fi conn e imm_data w).0 later ≡ none
unfolding remote_write_resume event_of context_of
resume-wakes fi conn imm_data w e later f f' i' =
    ground (arith, lookup-erase imm_data (later.imm % 2 ^ 32) w.io.selector.imm_data_contexts)

-- A remote write with the immediate data of a Read, up to 32 bits wide and not in use, wakes the
-- coroutine that reads and gives it the read buffer; from then on a remote write with that data
-- wakes nobody until it is read for again.
pub read-finish :
    (fi : Fabric) (post : Posted → ℕ) (conn : Conn) (c co imm_data : ℕ) (w w' : World) (p : Posted)
    (e later : Entry)
    → read fi post conn c co imm_data w ≡ (w', ok p)
    → lookup imm_data w.io.selector.imm_data_contexts ≡ none
    → has e.flags fi.remote_write ≡ true
    → e.imm % 2 ^ 32 ≡ imm_data
    → has later.flags fi.remote_write ≡ true
    → later.imm % 2 ^ 32 ≡ imm_data
    → (wakes fi w' e ≡ some (record { flags = e.flags; handle = co }))
      × (state_of w'.io co ≡ suspend)
      × ((remote_write_resume fi conn e imm_data w').1 ≡ ok conn.read_buffer.start)
      × (wakes fi (remote_write_resume fi conn e imm_data w').0 later ≡ none)
unfolding read remote_write_resume event_of
read-finish fi post conn c co imm_data w w' p e later r fresh f i f' i' = (
  ground (arith, context_of-read fi post conn c co imm_data w w' p e r),
  ground arith,
  ground arith,
  resume-wakes fi conn imm_data w' e later f f' i',
)
