-- ===== src/Net/Reactor/Serving.antt =====
-- A connection from its arrival to the task for its first packet: the event loop, `HandleNewConnections`,
-- `CreateConnHandler`, the handler and its unpacker together.
use nebula_toolkit.Net.{Kernel, IsLawful, Event, got, would_block}
use nebula_toolkit.Net.Reactor.Connections.{create_conn_handler-done}
use nebula_toolkit.Net.Reactor.Tables.{find-store}
use nebula_toolkit.Net.Reactor.{
  tcp, Epoll, connection, none_waiting, Reactor, done, events, find, store, contains,
  create_conn_handler, handle_new_connections, handle_event, handle_ready, process_event,
  process_events, run,
}
use nebula_toolkit.Net.Tcp
use nebula_toolkit.UnPacker.Contiguous.{IsPacket}
use nebula_toolkit.Net.Tcp.Delivery.{process_readable_event-delivers}
use nebula_toolkit.Net.Tcp.{TcpHandler, process_readable_event}
use nebula_toolkit.Prelude.{
  ℕ, suc, ◌<◌, ◌≡◌, ◌∙◌, refl, ap, true, false, Option, none, some, [], ◌∷◌, Bytes, length, arith,
  ==_refl, length-replicate,
}
use nebula_toolkit.RingBuffer
use nebula_toolkit.RingBuffer.Contents.{IsValid, contents}
use nebula_toolkit.RingBuffer.{RingBuffer, capacity, get_linear_write_space}
use nebula_toolkit.UnPacker.{DataSzCb, CheckValidCb, create_with_callbacks, check_model, head_tail}

create-IsValid : (n : ℕ) → 0 < n → n < 2000 → IsValid (RingBuffer.create n)
unfolding RingBuffer.create
create-IsValid n pos small = let whole = length-replicate {A = ℕ} n 0 in ground (arith, whole)

capacity-create : (n : ℕ) → capacity (RingBuffer.create n) ≡ n
unfolding RingBuffer.create
capacity-create n = length-replicate {A = ℕ} n 0

contents-create : (n : ℕ) → contents (RingBuffer.create n) ≡ []
unfolding RingBuffer.create
contents-create n = refl

room-create : (get_linear_write_space (RingBuffer.create 1024)).1 ≡ 1024
unfolding RingBuffer.create get_linear_write_space
room-create = refl

-- two keys and no callback for the sizes
check_model-head_tail :
    (head tail : Bytes) (cc : Option CheckValidCb)
    → 0 < length head
    → 0 < length tail
    → check_model head tail none cc ≡ head_tail
unfolding check_model
check_model-head_tail head tail cc p q = ground arith

-- A readable event, and nothing but that.
pub record IsReadable (event : Event) : Type 0 where
  pub readable : event.event_flags.readable ≡ true
  pub no_error : event.event_flags.error ≡ false
  pub no_hang_up : event.event_flags.hang_up ≡ false

module _ (K : Kernel) (E : Epoll K) (left_dc : Option DataSzCb → Option DataSzCb)
    (left_cc : Option CheckValidCb → Option CheckValidCb) (scan_fuel rounds : ℕ) where
  -- the handler that `CreateConnHandler` makes
  abbrev new_handler : Reactor → ℕ → TcpHandler
  new_handler r fd =
      Tcp.set_callback
        (Tcp.create fd
          (create_with_callbacks r.head_key r.tail_key r.data_sz_cb r.check_sz_cb 1024))
        r.exec_cb

  handle_tcp :
      (n : ℕ) (k k' : K.State) (h h' : TcpHandler) (event : Event)
      → event.fd ≡ h.fd
      → IsReadable event
      → process_readable_event K scan_fuel rounds n k h ≡ some (k', h')
      → Tcp.handle_event K scan_fuel rounds n k h event ≡ some (k', h')
  unfolding Tcp.handle_event
  handle_tcp n k k' h h' event same q ran =
      rw (same, ==_refl h.fd, q.no_error, q.no_hang_up, q.readable) ran

  -- one connection arrives
  accept_one :
      (n : ℕ) (k k1 k2 k3 : K.State) (r r1 : Reactor) (listen_fd fd : ℕ)
      → E.accept k listen_fd ≡ (connection fd, k1)
      → create_conn_handler K E left_dc left_cc scan_fuel rounds k1 r fd ≡ done k2 r1
      → E.accept k2 listen_fd ≡ (none_waiting, k3)
      → handle_new_connections K E left_dc left_cc scan_fuel rounds (suc (suc n)) k r listen_fd
        ≡ some (done k3 r1)
  unfolding handle_new_connections
  accept_one n k k1 k2 k3 r r1 listen_fd fd came made no_more =
      let came_fd : (E.accept k listen_fd).0 ≡ connection fd = rw came refl in
      let came_to : (E.accept k listen_fd).1 ≡ k1 = rw came refl in
      let no_fd : (E.accept k2 listen_fd).0 ≡ none_waiting = rw no_more refl in
      let no_to : (E.accept k2 listen_fd).1 ≡ k3 = rw no_more refl in
      rw (handle_new_connections, came_fd, came_to, made, no_fd, no_to) refl

  -- an event of a handler that stays
  handle_staying :
      (n : ℕ) (k k' : K.State) (r : Reactor) (h h' : TcpHandler) (event : Event)
      → contains event.fd r.listeners ≡ false
      → find event.fd r.protocol_handlers ≡ some (tcp h)
      → Tcp.handle_event K scan_fuel rounds n k h event ≡ some (k', h')
      → h'.should_close ≡ false
      → process_event K E left_dc left_cc scan_fuel rounds n k r event
        ≡ some
            (done k' (record r { protocol_handlers = store event.fd (tcp h') r.protocol_handlers }))
  unfolding process_event handle_ready handle_event
  handle_staying n k k' r h h' event no_listener found ran stays =
      rw (process_event, no_listener, found, handle_ready, ran, stays) refl

  listening_event :
      (n : ℕ) (k : K.State) (r : Reactor) (event : Event)
      → contains event.fd r.listeners ≡ true
      → process_event K E left_dc left_cc scan_fuel rounds n k r event
        ≡ handle_new_connections K E left_dc left_cc scan_fuel rounds n k r event.fd
  unfolding process_event
  listening_event n k r event listens = rw (process_event, listens) refl

  -- two calls of `epoll_wait`, with an event each
  run_two :
      (n : ℕ) (k k1 k2 : K.State) (r r1 r2 : Reactor) (e e' : Event)
      → process_event K E left_dc left_cc scan_fuel rounds n k r e ≡ some (done k1 r1)
      → process_event K E left_dc left_cc scan_fuel rounds n k1 r1 e' ≡ some (done k2 r2)
      → run K E left_dc left_cc scan_fuel rounds n k r (events (e ∷ []) ∷ events (e' ∷ []) ∷ [])
        ≡ some (done k2 r2)
  unfolding run process_events
  run_two n k k1 k2 r r1 r2 e e' first second = rw (run, process_events, first, second) refl

module _ (K : Kernel) (law : IsLawful K) (E : Epoll K) (left_dc : Option DataSzCb → Option DataSzCb)
    (left_cc : Option CheckValidCb → Option CheckValidCb) (scan_fuel rounds : ℕ) where
  -- the first read of a new handler
  new_handler-delivers :
      (n : ℕ) (k3 k4 k5 : K.State) (r : Reactor) (fd : ℕ) (bs : Bytes) (t : ℕ)
      → r.data_sz_cb ≡ none
      → r.exec_cb ≡ true
      → IsPacket r.head_key r.tail_key bs t
      → 1024 < scan_fuel
      → K.receive k3 fd 1024 ≡ (got bs, k4)
      → ((room : ℕ) → K.receive k4 fd room ≡ (would_block, k5))
      → let h = new_handler K E left_dc left_cc scan_fuel rounds r fd in
        (h' : TcpHandler) × (process_readable_event K scan_fuel
            (suc (suc rounds))
            (suc (suc n))
            k3
            h
          ≡ some (k5, h'))
        × (h'.packs ≡ bs ∷ [])
        × (h'.scheduled ≡ 1)
        × (h'.should_close ≡ false)
  unfolding Tcp.set_callback Tcp.create create_with_callbacks
  new_handler-delivers n k3 k4 k5 r fd bs t no_dc cb p enough came then_none =
      let h = new_handler K E left_dc left_cc scan_fuel rounds r fd in
      let mode : h.unpacker.model ≡ head_tail =
        rw no_dc
          (check_model-head_tail r.head_key r.tail_key r.check_sz_cb p.head_pos p.tail_pos) in
      let whole : capacity (RingBuffer.create 1024) < scan_fuel =
        omega (arith, capacity-create 1024, enough) in
      let (h', ran, packs, scheduled, stays, left) =
        process_readable_event-delivers K law scan_fuel rounds n k3 k4 k5 h bs t
          (create-IsValid 1024 (omega arith) (omega arith)) (contents-create 1024) mode cb p whole
          (rw (room-create) came) then_none in
      (h', ran, packs, scheduled, stays)

  -- A connection arrives at a listener and is accepted, as the only one, and then its first bytes are a packet
  -- between the keys of the reactor, which one read brings: after the two events, `Run` has the handler of
  -- the connection in its table, with the packet alone in `packs_` and one task scheduled for it. The
  -- reactor has its first keys, a callback for the packets, and none for their sizes.
  pub run-serves :
      (n : ℕ) (k k1 k2 k3 k4 k5 : K.State) (r r1 : Reactor) (arrival readable : Event) (bs : Bytes)
      (t : ℕ)
      → contains arrival.fd r.listeners ≡ true
      → contains readable.fd r.listeners ≡ false
      → r.data_sz_cb ≡ none
      → r.exec_cb ≡ true
      → IsPacket r.head_key r.tail_key bs t
      → 1024 < scan_fuel
      → IsReadable readable
      → E.accept k arrival.fd ≡ (connection readable.fd, k1)
      → create_conn_handler K E left_dc left_cc scan_fuel (suc (suc rounds)) k1 r readable.fd
        ≡ done k2 r1
      → E.accept k2 arrival.fd ≡ (none_waiting, k3)
      → K.receive k3 readable.fd 1024 ≡ (got bs, k4)
      → ((room : ℕ) → K.receive k4 readable.fd room ≡ (would_block, k5))
      → (r' : Reactor) × (h : TcpHandler) × (run K E left_dc left_cc scan_fuel
            (suc (suc rounds))
            (suc (suc n))
            k
            r
            (events (arrival ∷ []) ∷ events (readable ∷ []) ∷ [])
          ≡ some (done k5 r'))
        × (find readable.fd r'.protocol_handlers ≡ some (tcp h))
        × (h.packs ≡ bs ∷ [])
        × (h.scheduled ≡ 1)
  run-serves n k k1 k2 k3 k4 k5 r r1 arrival readable bs t listens connects no_dc cb p enough q came
        made no_more bytes then_none =
      let (h', ran, packs, scheduled, stays) =
        new_handler-delivers n k3 k4 k5 r readable.fd bs t no_dc cb p enough bytes then_none in
      let h = new_handler K E left_dc left_cc scan_fuel (suc (suc rounds)) r readable.fd in
      let stored =
        create_conn_handler-done K E left_dc left_cc scan_fuel (suc (suc rounds)) k1 r readable.fd
          made in
      let found : find readable.fd r1.protocol_handlers ≡ some (tcp h) =
        ap (λ (x : Reactor). find readable.fd x.protocol_handlers) stored
        ∙ find-store readable.fd readable.fd (tcp h) r.protocol_handlers
        ∙ rw (==_refl readable.fd) refl in
      let still : contains readable.fd r1.listeners ≡ false =
        ap (λ (x : Reactor). contains readable.fd x.listeners) stored ∙ connects in
      (
        record r1 { protocol_handlers = store readable.fd (tcp h') r1.protocol_handlers },
        h',
        run_two K E left_dc left_cc scan_fuel (suc (suc rounds)) (suc (suc n)) k k3 k5 r r1 _
            arrival readable
            (listening_event K E left_dc left_cc scan_fuel (suc (suc rounds)) (suc (suc n)) k r
                arrival listens
              ∙ accept_one K E left_dc left_cc scan_fuel (suc (suc rounds)) n k k1 k2 k3 r r1
                  arrival.fd readable.fd came made no_more)
            (handle_staying K E left_dc left_cc scan_fuel (suc (suc rounds)) (suc (suc n)) k3 k5 r1
              h h' readable still found
              (handle_tcp K E left_dc left_cc scan_fuel (suc (suc rounds)) (suc (suc n)) k3 k5 h h'
                readable (unfold Tcp.set_callback Tcp.create in refl) q ran)
              stays),
        find-store readable.fd readable.fd (tcp h') r1.protocol_handlers
            ∙ rw (==_refl readable.fd) refl,
        packs,
        scheduled,
      )
