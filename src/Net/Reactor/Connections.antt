-- ===== src/Net/Reactor/Connections.antt =====
-- The handlers that the reactor makes for new connections.
use nebula_toolkit.Net.{Kernel}
use nebula_toolkit.Net.Reactor.Tables.{find-store}
use nebula_toolkit.Net.Reactor.Upkeep.{after}
use nebula_toolkit.Net.Reactor.Running.{Ends, returns, throws, run-Ends}
use nebula_toolkit.Net.Reactor.{
  Handler, tcp, Epoll, accept_failed, Reactor, done, find, store, register_protocol,
  create_conn_handler, handle_new_connections, unregister_fd, stop, thrown, Outcome, should_close,
  Waited, run,
}
use nebula_toolkit.Net.Tcp
use nebula_toolkit.Net.Tcp.{TcpHandler}
use nebula_toolkit.Prelude.{
  ℕ, zero, suc, ◌≡◌, refl, false, Option, none, some, [], Bytes, ==_refl, Bool-cases, inl, inr, ◌∙◌,
  Bool, sym, ap, if◌then◌else◌, List,
}
use nebula_toolkit.RingBuffer.{RingBuffer}
use nebula_toolkit.UnPacker.{
  DataSzCb, CheckValidCb, create_with_callbacks, check_model, k_none, k_error, get, get_pack,
  run_mode,
}

-- Without a head key there is nothing to look for.
check_model-nil :
    (tail : Bytes) (dc : Option DataSzCb) (cb : Option CheckValidCb)
    → check_model [] tail dc cb ≡ k_none
unfolding check_model
check_model-nil tail none cb = refl
check_model-nil tail (some dc) none = refl
check_model-nil tail (some dc) (some cb) = refl

module _ (K : Kernel) (E : Epoll K) (left_dc : Option DataSzCb → Option DataSzCb)
    (left_cc : Option CheckValidCb → Option CheckValidCb) (scan_fuel rounds : ℕ) where
  -- what `CreateConnHandler` stores for a descriptor, and what it leaves, if nothing throws
  abbrev Made : Reactor → ℕ → Reactor → Type 0
  Made r fd r' =
      (find fd r'.protocol_handlers
        ≡ some (
            tcp (
              Tcp.set_callback
                (Tcp.create fd
                  (create_with_callbacks r.head_key r.tail_key r.data_sz_cb r.check_sz_cb 1024))
                r.exec_cb)))
      × (r'.head_key ≡ [])

  register_protocol-done :
      (k : K.State) (r : Reactor) (fd : ℕ) (h : Handler) {k' : K.State} {r' : Reactor}
      → register_protocol K E left_dc left_cc scan_fuel rounds k r fd h false ≡ done k' r'
      → r' ≡ record r { protocol_handlers = store fd h r.protocol_handlers }
  unfolding register_protocol
  register_protocol-done k r fd h e = elim (Bool-cases (E.get_flags k fd)) [
    | inr bad ↦ absurd (let e' = rw bad at e in cc)
    | inl flags ↦ elim (Bool-cases (E.set_flags k fd).0) [
      | inr bad ↦ absurd (let e' = rw (flags, bad) at e in cc)
      | inl set ↦ elim (Bool-cases (E.add (E.set_flags k fd).1 fd).0) [
        | inr bad ↦ absurd (let e' = rw (flags, set, bad) at e in cc)
        | inl added ↦ let e' = rw (flags, set, added) at e in cc
      ]
    ]
  ]

  -- the reactor after `CreateConnHandler`, if nothing throws
  abbrev pub with_connection : Reactor → ℕ → Reactor
  with_connection r fd = record r {
    head_key = [];
    tail_key = [];
    data_sz_cb = left_dc r.data_sz_cb;
    check_sz_cb = left_cc r.check_sz_cb;
    protocol_handlers =
        store fd
          (tcp (
            Tcp.set_callback
              (Tcp.create fd
                (create_with_callbacks r.head_key r.tail_key r.data_sz_cb r.check_sz_cb 1024))
              r.exec_cb))
          r.protocol_handlers;
  }

  pub create_conn_handler-done :
      (k : K.State) (r : Reactor) (fd : ℕ) {k' : K.State} {r' : Reactor}
      → create_conn_handler K E left_dc left_cc scan_fuel rounds k r fd ≡ done k' r'
      → r' ≡ with_connection r fd
  unfolding create_conn_handler
  create_conn_handler-done k r fd e = register_protocol-done k _ fd _ e

  create_conn_handler-Made :
      (k : K.State) (r : Reactor) (fd : ℕ) {k' : K.State} {r' : Reactor}
      → create_conn_handler K E left_dc left_cc scan_fuel rounds k r fd ≡ done k' r'
      → Made r fd r'
  create_conn_handler-Made k r fd e =
      let h = tcp (
        Tcp.set_callback
          (Tcp.create fd
            (create_with_callbacks r.head_key r.tail_key r.data_sz_cb r.check_sz_cb 1024))
          r.exec_cb) in
      rw (create_conn_handler-done k r fd e)
        (rw (find-store fd fd h r.protocol_handlers, ==_refl fd) refl, refl)

  register_protocol-head_key :
      (k : K.State) (r : Reactor) (fd : ℕ) (h : Handler) (listens : Bool)
      → (after (register_protocol K E left_dc left_cc scan_fuel rounds k r fd h listens)).head_key
        ≡ r.head_key
  unfolding register_protocol
  register_protocol-head_key k r fd h listens = elim (Bool-cases (E.get_flags k fd)) [
    | inr bad ↦ rw bad refl
    | inl flags ↦ elim (Bool-cases (E.set_flags k fd).0) [
      | inr bad ↦ rw (flags, bad) refl
      | inl set ↦ elim (Bool-cases (E.add (E.set_flags k fd).1 fd).0) [
        | inr bad ↦ rw (flags, set, bad) refl
        | inl added ↦ rw (flags, set, added) refl
      ]
    ]
  ]

  create_conn_handler-head_key :
      (k : K.State) (r : Reactor) (fd : ℕ)
      → (after (create_conn_handler K E left_dc left_cc scan_fuel rounds k r fd)).head_key ≡ []
  unfolding create_conn_handler
  create_conn_handler-head_key k r fd = register_protocol-head_key k _ fd _ false

  -- What may happen to the reactor from one state to a later one, whatever the system has done in between:
  -- connections are made, or fail with an exception, descriptors are registered and unregistered, and handlers change
  -- in the table.
  pub data Leads (r : Reactor) : Reactor → Type 0 where
    at_once : Leads r r
    connects :
        (k : K.State) (fd : ℕ) {r1 : Reactor}
        → Leads r r1
        → Leads r (after (create_conn_handler K E left_dc left_cc scan_fuel rounds k r1 fd))
    registers :
        (k : K.State) (fd : ℕ) (h : Handler) (listens : Bool) {r1 : Reactor}
        → Leads r r1
        → Leads r (after (register_protocol K E left_dc left_cc scan_fuel rounds k r1 fd h listens))
    unregisters :
        (k : K.State) (fd : ℕ) {r1 : Reactor}
        → Leads r r1
        → Leads r (unregister_fd K E left_dc left_cc scan_fuel rounds k r1 fd).1
    handles :
        (fd : ℕ) (h : Handler) {r1 : Reactor}
        → Leads r r1
        → Leads r (record r1 { protocol_handlers = store fd h r1.protocol_handlers })
    stops : {r1 : Reactor} → Leads r r1 → Leads r (stop r1)

  Leads-head_key : {r r' : Reactor} → Leads r r' → r.head_key ≡ [] → r'.head_key ≡ []
  unfolding unregister_fd stop
  Leads-head_key at_once none_left = none_left
  Leads-head_key (connects k fd l) none_left = create_conn_handler-head_key k _ fd
  Leads-head_key (registers k fd h listens l) none_left =
      register_protocol-head_key k _ fd h listens ∙ Leads-head_key l none_left
  Leads-head_key (unregisters k fd l) none_left = Leads-head_key l none_left
  Leads-head_key (handles fd h l) none_left = Leads-head_key l none_left
  Leads-head_key (stops l) none_left = Leads-head_key l none_left

  ends-Leads :
      {r0 : Reactor} (o : Outcome K.State)
      → Leads r0 (after o)
      → Ends K E left_dc left_cc scan_fuel rounds (λ k r. Leads r0 r) (λ k r. Leads r0 r) o
  ends-Leads (done k r) l = returns l
  ends-Leads (thrown k r) l = throws l

  handled-Leads :
      {r0 r : Reactor} (k : K.State) (h : Handler) (fd : ℕ)
      → Leads r0 r
      → let r1 = record r { protocol_handlers = store fd h r.protocol_handlers } in
        let gone = unregister_fd K E left_dc left_cc scan_fuel rounds k r1 fd in
        if should_close h then Leads r0 gone.1 else Leads r0 r1
  handled-Leads k h fd l = elim (Bool-cases (should_close h)) [
    | inl closing ↦ rw closing (unregisters k fd (handles fd h l))
    | inr stays ↦ rw stays (handles fd h l)
  ]

  -- What `Run` does is such a sequence.
  pub run-Leads :
      (n : ℕ) (k : K.State) (r0 r : Reactor) (ws : List Waited) {k' : K.State} {r' : Reactor}
      → Leads r0 r
      → run K E left_dc left_cc scan_fuel rounds n k r ws ≡ some (done k' r')
      → Leads r0 r'
  run-Leads n k r0 r ws l e =
      elim (run-Ends K E left_dc left_cc scan_fuel rounds (λ k1 r1. Leads r0 r1)
        (λ k1 r1. Leads r0 r1)
        (record {
          connects = λ k1 r1 fd conn p came. ends-Leads _ (connects (E.accept k1 fd).1 conn p);
          accepts_none = λ k1 r1 fd p came. p;
          handles = λ m k1 k2 r1 h h1 event p known ran. handled-Leads k2 h1 event.fd p;
        })
        n k r ws l e) [ returns p ↦ p ]

  -- The first connection takes the keys away: whatever connections, registrations, events and ends of
  -- connections come in between, and as long as the parameters are not set again, `CreateConnHandler` makes for each
  -- later connection a handler whose unpacker looks for nothing, and on which `Get`, whatever bytes
  -- are read, gives the error code and no packet.
  pub later_connection :
      (k k2 : K.State) (r r1 r2 : Reactor) (fd fd' : ℕ) {k1 k' : K.State} {r' : Reactor}
      (ring : RingBuffer)
      → create_conn_handler K E left_dc left_cc scan_fuel rounds k r fd ≡ done k1 r1
      → Leads r1 r2
      → create_conn_handler K E left_dc left_cc scan_fuel rounds k2 r2 fd' ≡ done k' r'
      → (h : TcpHandler) × (find fd' r'.protocol_handlers ≡ some (tcp h))
        × (h.unpacker.model ≡ k_none)
        × (get scan_fuel rounds (record h.unpacker { ring = ring })
            ≡ some (k_error, [], record h.unpacker { ring = ring }))
  later_connection k k2 r r1 r2 fd fd' ring e l e' =
      let no_key =
        Leads-head_key l
          (ap (λ o. (after o).head_key) (sym e) ∙ create_conn_handler-head_key k r fd) in
      let second = create_conn_handler-Made k2 r2 fd' e' in
      let mode = check_model-nil r2.tail_key r2.data_sz_cb r2.check_sz_cb in
      let u = create_with_callbacks r2.head_key r2.tail_key r2.data_sz_cb r2.check_sz_cb 1024 in
      (
        Tcp.set_callback (Tcp.create fd' u) r2.exec_cb,
        second.0,
        unfold Tcp.set_callback Tcp.create create_with_callbacks in rw (no_key, mode) refl,
        unfold Tcp.set_callback Tcp.create create_with_callbacks get get_pack run_mode in
            rw (no_key, mode) refl,
      )

  -- Where `accept4` goes on failing with an error other than EAGAIN, as it does while no descriptors are
  -- left, `HandleNewConnections` never returns, whatever fuel it has.
  pub handle_new_connections_spins :
      (n : ℕ) (k : K.State) (r : Reactor) (fd : ℕ)
      → ((k1 : K.State) → (E.accept k1 fd).0 ≡ accept_failed)
      → handle_new_connections K E left_dc left_cc scan_fuel rounds n k r fd ≡ none
  unfolding handle_new_connections
  handle_new_connections_spins zero k r fd fails = refl
  handle_new_connections_spins (suc n) k r fd fails =
      rw (handle_new_connections, fails k)
        (handle_new_connections_spins n (E.accept k fd).1 r fd fails)
