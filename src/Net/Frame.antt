-- ===== src/Net/Frame.antt =====
-- What reads leave as it is, the handlers of include/net/transport/protocol_handler.hpp leave as it is: of the
-- calls that `Net` and `Net.Reactor` ask of the system they make only `read` and `recvfrom`.
use nebula_toolkit.Net.{Kernel, Event, Received, got, would_block, failed}
use nebula_toolkit.Net.Streams.{Keeps, keeps, Keeps-bind, after_round}
use nebula_toolkit.Net.Tcp
use nebula_toolkit.Net.Tcp.{TcpHandler, take_in, handle_read, read_round, process_readable_event}
use nebula_toolkit.Net.Udp
use nebula_toolkit.Net.Udp.{
  UdpHandler, commit_and_get, handle_datagram, datagram_round, receive_all,
}
use nebula_toolkit.Prelude.{
  ℕ, zero, suc, ◌-◌, ◌^◌, ◌≡◌, Option, some, [], ◌∷◌, length, memcpy, ◌==◌, Bool, true, false, not,
  Bool-cases, inl, inr, if◌then◌else◌,
}
use nebula_toolkit.RingBuffer.{RingBuffer, get_linear_write_space, commit_write_size}
use nebula_toolkit.UnPacker.{get}

module _ (K : Kernel) (P : K.State → Type 0)
    (kept : (s : K.State) (fd room : ℕ) → P s → P (K.receive s fd room).1)
    (scan_fuel rounds : ℕ) where
  handle_read-Left :
      (at : ℕ) (received : Received) (k : K.State) (h : TcpHandler)
      → P k
      → Keeps (λ s g. P s) (handle_read K scan_fuel rounds at received k h)
  unfolding handle_read
  handle_read-Left at (got []) k h p = keeps p
  handle_read-Left at (got (b ∷ bs)) k h p =
      Keeps-bind (λ s g. P s) (take_in scan_fuel rounds h.unpacker at (b ∷ bs)) _ λ a e. keeps p
  handle_read-Left at would_block k h p = keeps p
  handle_read-Left at failed k h p = keeps p

  read_round-Left :
      (k : K.State) (h : TcpHandler) → P k → Keeps (λ s g. P s) (read_round K scan_fuel rounds k h)
  unfolding read_round
  read_round-Left k h p =
      let (at, room) = get_linear_write_space h.unpacker.ring in
      elim (Bool-cases (room == 0)) [
        | inl full ↦ rw full (keeps p)
        | inr free ↦ rw free (
            handle_read-Left at (K.receive k h.fd room).0 (K.receive k h.fd room).1 h
              (kept k h.fd room p))
      ]

  process_readable_event-Left :
      (n : ℕ) (k : K.State) (h : TcpHandler) {k' : K.State} {h' : TcpHandler}
      → P k
      → process_readable_event K scan_fuel rounds n k h ≡ some (k', h')
      → P k'
  unfolding process_readable_event
  process_readable_event-Left zero k h p e = cc
  process_readable_event-Left (suc n) k h p e =
      after_round (λ s g. P s) (process_readable_event K scan_fuel rounds n) (read_round-Left k h p)
        e λ k1 h1 q e'. process_readable_event-Left n k1 h1 q e'

  same_state :
      {H : Type 0} {k k' : K.State} {h h' : H}
      → ◌≡◌ {A = Option (K.State × H)} (some (k, h)) (some (k', h'))
      → P k
      → P k'
  same_state {H} {k} {k'} e p = let eq : k ≡ k' = cc in rw eq at p

  -- a result of one branch or of the other
  either_branch :
      {H : Type 0} (b : Bool) {x y : Option (K.State × H)} {k' : K.State} {h' : H}
      → (x ≡ some (k', h') → P k')
      → (y ≡ some (k', h') → P k')
      → (if b then x else y) ≡ some (k', h')
      → P k'
  either_branch true f g e = f e
  either_branch false f g e = g e

  pub Tcp-handle_event :
      (n : ℕ) (k : K.State) (h : TcpHandler) (event : Event) {k' : K.State} {h' : TcpHandler}
      → P k
      → Tcp.handle_event K scan_fuel rounds n k h event ≡ some (k', h')
      → P k'
  unfolding Tcp.handle_event
  Tcp-handle_event n k h event p e =
      either_branch (not (event.fd == h.fd)) (λ q. same_state q p)
        (either_branch event.event_flags.error (λ q. same_state q p)
          (either_branch event.event_flags.hang_up (λ q. same_state q p)
            (either_branch event.event_flags.readable (process_readable_event-Left n k h p)
              λ q. same_state q p)))
        e

  commit_and_get-Left :
      (r : RingBuffer) (len : ℕ) (k : K.State) (h : UdpHandler)
      → P k
      → Keeps (λ s g. P s) (commit_and_get K scan_fuel rounds r len k h)
  unfolding commit_and_get
  commit_and_get-Left r len k h p =
      Keeps-bind (λ s g. P s) (commit_write_size r len) _
        λ (code, r') e.
          Keeps-bind (λ s g. P s) (get scan_fuel rounds (record h.unpacker { ring = r' })) _
            λ a e'. keeps p

  handle_datagram-Left :
      (at : ℕ) (received : Received) (k : K.State) (h : UdpHandler)
      → P k
      → Keeps (λ s g. P s) (handle_datagram K scan_fuel rounds at received k h)
  unfolding handle_datagram
  handle_datagram-Left at (got bs) k h p =
      Keeps-bind (λ s g. P s) (memcpy h.unpacker.ring.buffer at bs 0 (length bs)) _
        λ b e. commit_and_get-Left (record h.unpacker.ring { buffer = b }) (length bs) k h p
  handle_datagram-Left at would_block k h p = keeps p
  handle_datagram-Left at failed k h p =
      commit_and_get-Left h.unpacker.ring (2 ^ 64 - 1) k (record h { should_close = true }) p

  datagram_round-Left :
      (k : K.State) (h : UdpHandler) (fd : ℕ)
      → P k
      → Keeps (λ s g. P s) (datagram_round K scan_fuel rounds k h fd)
  unfolding datagram_round
  datagram_round-Left k h fd p =
      let (at, room) = get_linear_write_space h.unpacker.ring in
      elim (Bool-cases (room == 0)) [
        | inl full ↦ rw full (keeps p)
        | inr free ↦ rw free (
            handle_datagram-Left at (K.receive k fd room).0 (K.receive k fd room).1 h
              (kept k fd room p))
      ]

  receive_all-Left :
      (n : ℕ) (k : K.State) (h : UdpHandler) (fd : ℕ) {k' : K.State} {h' : UdpHandler}
      → P k
      → receive_all K scan_fuel rounds n k h fd ≡ some (k', h')
      → P k'
  unfolding receive_all
  receive_all-Left zero k h fd p e = cc
  receive_all-Left (suc n) k h fd p e =
      after_round (λ s g. P s) (λ s g. receive_all K scan_fuel rounds n s g fd)
        (datagram_round-Left k h fd p) e λ k1 h1 q e'. receive_all-Left n k1 h1 fd q e'

  pub Udp-handle_event :
      (n : ℕ) (k : K.State) (h : UdpHandler) (event : Event) {k' : K.State} {h' : UdpHandler}
      → P k
      → Udp.handle_event K scan_fuel rounds n k h event ≡ some (k', h')
      → P k'
  unfolding Udp.handle_event
  Udp-handle_event n k h event p e =
      either_branch event.event_flags.error (λ q. same_state q p)
        (either_branch event.event_flags.readable (receive_all-Left n k h event.fd p)
          λ q. same_state q p)
        e
