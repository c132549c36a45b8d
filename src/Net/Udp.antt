-- ===== src/Net/Udp.antt =====
-- `UdpHandler` of include/net/transport/protocol_handler.hpp.
pub mod Reading
pub mod Spinning
use nebula_toolkit.Net.{Kernel, Received, got, would_block, failed, Event}
use nebula_toolkit.Prelude.{
  ℕ, zero, suc, ◌+◌, ◌-◌, ◌^◌, Bool, true, false, Option, none, some, List, [], ◌∷◌, Bytes, length,
  memcpy, ◌==◌, if◌then◌else◌, ◌>>=◌,
}
use nebula_toolkit.RingBuffer.{RingBuffer, get_linear_write_space, commit_write_size}
use nebula_toolkit.UnPacker.{UnPacker, get}

-- As `TcpHandler`; `scheduled` counts the tasks, each of which calls the callback, set or not.
pub record UdpHandler : Type 0 where
  pub fd : ℕ
  pub should_close : Bool
  pub has_cb : Bool
  pub unpacker : UnPacker
  pub packs : List Bytes
  pub scheduled : ℕ

unfoldable pub create : ℕ → UnPacker → UdpHandler
create fd unpacker = record {
  fd = fd;
  should_close = false;
  has_cb = false;
  unpacker = unpacker;
  packs = [];
  scheduled = 0;
}

unfoldable pub set_callback : UdpHandler → Bool → UdpHandler
set_callback h cb = record h { has_cb = cb }

module _ (K : Kernel) (scan_fuel rounds : ℕ) where
  -- the end of a round, when the buffer is `r`: `CommitWriteSize(len)`, `Get(packs_)`, and the task
  unfoldable pub commit_and_get :
      RingBuffer → ℕ → K.State → UdpHandler → Option (Bool × K.State × UdpHandler)
  commit_and_get r len k h = do
    (_, r') ← commit_write_size r len
    (_, packs, u') ← get scan_fuel rounds (record h.unpacker { ring = r' })
    some (true, k, record h { unpacker = u'; packs = packs; scheduled = h.scheduled + 1 })

  -- An error other than EAGAIN does not end the round: `len`, still -1, is committed as a `size_t`.
  unfoldable pub handle_datagram :
      ℕ → Received → K.State → UdpHandler → Option (Bool × K.State × UdpHandler)
  unfolding commit_and_get
  handle_datagram at (got bs) k h = do
    b ← memcpy h.unpacker.ring.buffer at bs 0 (length bs)
    commit_and_get (record h.unpacker.ring { buffer = b }) (length bs) k h
  handle_datagram at would_block k h = some (false, k, h)
  handle_datagram at failed k h =
      commit_and_get h.unpacker.ring (2 ^ 64 - 1) k (record h { should_close = true })

  unfoldable pub datagram_round : K.State → UdpHandler → ℕ → Option (Bool × K.State × UdpHandler)
  datagram_round k h fd =
      let (at, room) = get_linear_write_space h.unpacker.ring in
      let (received, k') = K.receive k fd room in
      if room == 0 then some (false, k, h) else handle_datagram at received k' h

  -- the loop of `HandleEvent`
  unfoldable pub receive_all : ℕ → K.State → UdpHandler → ℕ → Option (K.State × UdpHandler)
  receive_all zero k h fd = none
  receive_all (suc n) k h fd = elim (datagram_round k h fd) [
    | none ↦ none
    | some (false, k', h') ↦ some (k', h')
    | some (true, k', h') ↦ receive_all n k' h' fd
  ]

  unfoldable pub handle_event : ℕ → K.State → UdpHandler → Event → Option (K.State × UdpHandler)
  handle_event n k h event =
      let received = receive_all n k h event.fd in
      if event.event_flags.error
      then some (k, record h { should_close = true })
      else if event.event_flags.readable
      then received
      else some (k, h)
