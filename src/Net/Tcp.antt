-- ===== src/Net/Tcp.antt =====
-- `TcpHandler` of include/net/transport/protocol_handler.hpp.
pub mod Reading
pub mod Delivery
pub mod Bursts
pub mod Segments
pub mod Returning
mod Tests
use nebula_toolkit.Net.{Kernel, Received, got, would_block, failed, Event}
use nebula_toolkit.Prelude.{
  ℕ, zero, suc, ◌+◌, Bool, true, false, not, ◌&&◌, Option, none, some, List, [], ◌∷◌, Bytes, length,
  memcpy, ◌==◌, if◌then◌else◌, ◌>>=◌,
}
use nebula_toolkit.RingBuffer.{get_linear_write_space, commit_write_size}
use nebula_toolkit.UnPacker.{UnPacker, get}

-- The callback is opaque: whether it is set. `scheduled` counts the tasks given to the timer scheduler,
-- each of which calls the callback with what `packs` holds when it runs.
pub record TcpHandler : Type 0 where
  pub fd : ℕ
  pub should_close : Bool
  pub has_cb : Bool
  pub unpacker : UnPacker
  pub packs : List Bytes
  pub scheduled : ℕ

abbrev pub no_packs : List Bytes → Bool
no_packs [] = true
no_packs (p ∷ ps) = false

unfoldable pub create : ℕ → UnPacker → TcpHandler
create fd unpacker = record {
  fd = fd;
  should_close = false;
  has_cb = false;
  unpacker = unpacker;
  packs = [];
  scheduled = 0;
}

unfoldable pub set_callback : TcpHandler → Bool → TcpHandler
set_callback h cb = record h { has_cb = cb }

-- `CommitWriteSize(n)` and `Get(packs_)`, when `read` has put the bytes at `at`
unfoldable pub take_in : ℕ → ℕ → UnPacker → ℕ → Bytes → Option (List Bytes × UnPacker)
take_in scan_fuel rounds u at bs = do
  b ← memcpy u.ring.buffer at bs 0 (length bs)
  (_, r') ← commit_write_size (record u.ring { buffer = b }) (length bs)
  (_, packs, u') ← get scan_fuel rounds (record u { ring = r' })
  some (packs, u')

module _ (K : Kernel) (scan_fuel rounds : ℕ) where
  -- what a round of the loop does with what `read` returned; `true` goes on
  unfoldable pub handle_read :
      ℕ → Received → K.State → TcpHandler → Option (Bool × K.State × TcpHandler)
  handle_read at (got []) k h = some (false, k, record h { should_close = true })
  handle_read at (got (b ∷ bs)) k h = do
    (packs, u') ← take_in scan_fuel rounds h.unpacker at (b ∷ bs)
    let scheduled = if not (no_packs packs) && h.has_cb then h.scheduled + 1 else h.scheduled
    some (true, k, record h { unpacker = u'; packs = packs; scheduled = scheduled })
  handle_read at would_block k h = some (false, k, h)
  handle_read at failed k h = some (false, k, record h { should_close = true })

  -- the body of the loop of `ProcessReadableEvent`
  unfoldable pub read_round : K.State → TcpHandler → Option (Bool × K.State × TcpHandler)
  read_round k h =
      let (at, room) = get_linear_write_space h.unpacker.ring in
      let (received, k') = K.receive k h.fd room in
      if room == 0 then some (false, k, h) else handle_read at received k' h

  unfoldable pub process_readable_event : ℕ → K.State → TcpHandler → Option (K.State × TcpHandler)
  process_readable_event zero k h = none
  process_readable_event (suc n) k h = elim (read_round k h) [
    | none ↦ none
    | some (false, k', h') ↦ some (k', h')
    | some (true, k', h') ↦ process_readable_event n k' h'
  ]

  unfoldable pub handle_event : ℕ → K.State → TcpHandler → Event → Option (K.State × TcpHandler)
  handle_event n k h event =
      let closing = record h { should_close = true } in
      let reading = process_readable_event n k h in
      if not (event.fd == h.fd)
      then some (k, h)
      else if event.event_flags.error
      then some (k, closing)
      else if event.event_flags.hang_up
      then some (k, closing)
      else if event.event_flags.readable
      then reading
      else some (k, h)
