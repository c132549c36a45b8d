-- ===== src/Net/Reactor/Running.antt =====
-- What `Run` keeps of the tables.
use nebula_toolkit.Net.{Kernel, Event}
use nebula_toolkit.Net.Reactor.{
  Handler, should_close, Epoll, Accepted, connection, none_waiting, accept_failed, Reactor, Outcome,
  done, thrown, Waited, events, interrupted, wait_failed, find, store, contains, unregister_fd,
  create_conn_handler, handle_new_connections, handle_event, handle_ready, process_event,
  process_events, run,
}
use nebula_toolkit.Prelude.{
  ℕ, zero, suc, ◌≡◌, refl, ◌⊎◌, if◌then◌else◌, Option, none, some, List, [], ◌∷◌, Bool-cases,
  Option-cases, inl, inr,
}
use nebula_toolkit.UnPacker.{DataSzCb, CheckValidCb}
use nebula_toolkit.Net.Reactor.Upkeep.{
  IsKept, after, gone-IsKept, stored-IsKept, create_conn_handler-IsKept,
}

module _ (K : Kernel) (E : Epoll K) (left_dc : Option DataSzCb → Option DataSzCb)
    (left_cc : Option CheckValidCb → Option CheckValidCb) (scan_fuel rounds : ℕ)
    (P Q : K.State → Reactor → Type 0) where
  -- A call returns in a state with `P`, or an exception leaves it in one with `Q`.
  pub data Ends : Outcome K.State → Type 0 where
    returns : {k : K.State} {r : Reactor} → P k r → Ends (done k r)
    throws : {k : K.State} {r : Reactor} → Q k r → Ends (thrown k r)

  -- `P` is kept by a connection that is accepted, by an `accept4` that gives none, and by an event that
  -- a handler has handled.
  pub record IsPreserved : Type 0 where
    pub connects :
        (k : K.State) (r : Reactor) (fd conn : ℕ)
        → P k r
        → (E.accept k fd).0 ≡ connection conn
        → Ends (create_conn_handler K E left_dc left_cc scan_fuel rounds (E.accept k fd).1 r conn)
    pub accepts_none :
        (k : K.State) (r : Reactor) (fd : ℕ)
        → P k r
        → ((E.accept k fd).0 ≡ none_waiting) ⊎ ((E.accept k fd).0 ≡ accept_failed)
        → P (E.accept k fd).1 r
    pub handles :
        (n : ℕ) (k k1 : K.State) (r : Reactor) (h h1 : Handler) (event : Event)
        → P k r
        → find event.fd r.protocol_handlers ≡ some h
        → handle_event K E left_dc left_cc scan_fuel rounds n k h event ≡ some (k1, h1)
        → let r1 = record r { protocol_handlers = store event.fd h1 r.protocol_handlers } in
          let gone = unregister_fd K E left_dc left_cc scan_fuel rounds k1 r1 event.fd in
          if should_close h1 then P gone.0 gone.1 else P k1 r1

  -- what does not return, or ends so
  abbrev Sound : Option (Outcome K.State) → Type 0
  Sound none = Unit {0}
  Sound (some o) = Ends o

  -- A call and the rest of the loop behind it, which an exception passes over.
  then_rest :
      (o : Option (Outcome K.State)) (rest : K.State → Reactor → Option (Outcome K.State))
      → Sound o
      → ((k : K.State) (r : Reactor) → P k r → Sound (rest k r))
      → Sound (elim o [
        | none ↦ none
        | some (thrown k r) ↦ some (thrown k r)
        | some (done k r) ↦ rest k r
      ])
  then_rest none rest h go = tt
  then_rest (some (done k r)) rest (returns p) go = go k r p
  then_rest (some (thrown k r)) rest (throws q) go = throws q

  module _ (keeps : IsPreserved) where
    -- What `accept4` gives, and the rest of the loop behind it.
    accepted_rest :
        (k : K.State) (r : Reactor) (fd : ℕ) (rest : K.State → Reactor → Option (Outcome K.State))
        (a : Accepted)
        → P k r
        → (E.accept k fd).0 ≡ a
        → ((k1 : K.State) (r1 : Reactor) → P k1 r1 → Sound (rest k1 r1))
        → Sound (elim a [
          | connection conn ↦
              elim (create_conn_handler K E left_dc left_cc scan_fuel rounds
                (E.accept k fd).1
                r
                conn) [ done k2 r2 ↦ rest k2 r2 | thrown k2 r2 ↦ some (thrown k2 r2) ]
          | none_waiting ↦ some (done (E.accept k fd).1 r)
          | accept_failed ↦ rest (E.accept k fd).1 r
        ])
    accepted_rest k r fd rest (connection conn) p e go =
        by_outcome
          (create_conn_handler K E left_dc left_cc scan_fuel rounds (E.accept k fd).1 r conn)
          (keeps.connects k r fd conn p e)
      where
        by_outcome :
            (o : Outcome K.State)
            → Ends o
            → Sound (elim o [ done k2 r2 ↦ rest k2 r2 | thrown k2 r2 ↦ some (thrown k2 r2) ])
        by_outcome (done k2 r2) (returns q) = go k2 r2 q
        by_outcome (thrown k2 r2) (throws q) = throws q
    accepted_rest k r fd rest none_waiting p e go = returns (keeps.accepts_none k r fd p (inl e))
    accepted_rest k r fd rest accept_failed p e go =
        go (E.accept k fd).1 r (keeps.accepts_none k r fd p (inr e))

    handle_new_connections-Sound :
        (n : ℕ) (k : K.State) (r : Reactor) (fd : ℕ)
        → P k r
        → Sound (handle_new_connections K E left_dc left_cc scan_fuel rounds n k r fd)
    unfolding handle_new_connections
    handle_new_connections-Sound zero k r fd p = tt
    handle_new_connections-Sound (suc n) k r fd p =
        accepted_rest k r fd
          (λ k1 r1. handle_new_connections K E left_dc left_cc scan_fuel rounds n k1 r1 fd)
          (E.accept k fd).0 p refl λ k1 r1 q. handle_new_connections-Sound n k1 r1 fd q

    handle_ready-Sound :
        (n : ℕ) (k : K.State) (r : Reactor) (h : Handler) (event : Event)
        → P k r
        → find event.fd r.protocol_handlers ≡ some h
        → Sound (handle_ready K E left_dc left_cc scan_fuel rounds n k r h event)
    unfolding handle_ready
    handle_ready-Sound n k r h event p known =
        elim (Option-cases (handle_event K E left_dc left_cc scan_fuel rounds n k h event)) [
          | inl stuck ↦ rw stuck tt
          | inr ((k1, h1), ran) ↦
              let next = keeps.handles n k k1 r h h1 event p known ran in
              elim (Bool-cases (should_close h1)) [
                | inl closing ↦ rw (ran, closing) (returns (rw closing at next))
                | inr stays ↦ rw (ran, stays) (returns (rw stays at next))
              ]
        ]

    process_event-Sound :
        (n : ℕ) (k : K.State) (r : Reactor) (event : Event)
        → P k r
        → Sound (process_event K E left_dc left_cc scan_fuel rounds n k r event)
    unfolding process_event
    process_event-Sound n k r event p = elim (Bool-cases (contains event.fd r.listeners)) [
      | inl listens ↦ rw (process_event, listens) (handle_new_connections-Sound n k r event.fd p)
      | inr other ↦ elim (Option-cases (find event.fd r.protocol_handlers)) [
        | inl unknown ↦ rw (process_event, other, unknown) (returns p)
        | inr (h, known) ↦
            rw (process_event, other, known) (handle_ready-Sound n k r h event p known)
      ]
    ]

    process_events-Sound :
        (n : ℕ) (k : K.State) (r : Reactor) (es : List Event)
        → P k r
        → Sound (process_events K E left_dc left_cc scan_fuel rounds n k r es)
    unfolding process_events
    process_events-Sound n k r [] p = returns p
    process_events-Sound n k r (e ∷ es) p =
        then_rest (process_event K E left_dc left_cc scan_fuel rounds n k r e)
          (λ k1 r1. process_events K E left_dc left_cc scan_fuel rounds n k1 r1 es)
          (process_event-Sound n k r e p) λ k1 r1 q. process_events-Sound n k1 r1 es q

    run-Sound :
        (n : ℕ) (k : K.State) (r : Reactor) (ws : List Waited)
        → P k r
        → Sound (run K E left_dc left_cc scan_fuel rounds n k r ws)
    unfolding run
    run-Sound n k r [] p = returns p
    run-Sound n k r (interrupted ∷ ws) p = run-Sound n k r ws p
    run-Sound n k r (wait_failed ∷ ws) p = returns p
    run-Sound n k r (events es ∷ ws) p =
        then_rest (process_events K E left_dc left_cc scan_fuel rounds n k r es)
          (λ k1 r1. run K E left_dc left_cc scan_fuel rounds n k1 r1 ws)
          (process_events-Sound n k r es p) λ k1 r1 q. run-Sound n k1 r1 ws q

    -- What the three kinds of step keep holds when `Run` returns.
    pub run-Ends :
        (n : ℕ) (k : K.State) (r : Reactor) (ws : List Waited) {o : Outcome K.State}
        → P k r
        → run K E left_dc left_cc scan_fuel rounds n k r ws ≡ some o
        → Ends o
    run-Ends n k r ws p e = rw e at (run-Sound n k r ws p)

module _ (K : Kernel) (E : Epoll K) (left_dc : Option DataSzCb → Option DataSzCb)
    (left_cc : Option CheckValidCb → Option CheckValidCb) (scan_fuel rounds : ℕ) where
  abbrev Kept : K.State → Reactor → Type 0
  Kept k r = IsKept r

  Kept-after :
      (o : Outcome K.State)
      → Ends K E left_dc left_cc scan_fuel rounds Kept Kept o
      → IsKept (after o)
  Kept-after (done k r) (returns p) = p
  Kept-after (thrown k r) (throws p) = p

  ends-Kept :
      (o : Outcome K.State)
      → IsKept (after o)
      → Ends K E left_dc left_cc scan_fuel rounds Kept Kept o
  ends-Kept (done k r) p = returns p
  ends-Kept (thrown k r) p = throws p

  handled-IsKept :
      (k1 : K.State) (r : Reactor) (h1 : Handler) (fd : ℕ)
      → IsKept r
      → let r1 = record r { protocol_handlers = store fd h1 r.protocol_handlers } in
        let gone = unregister_fd K E left_dc left_cc scan_fuel rounds k1 r1 fd in
        if should_close h1 then IsKept gone.1 else IsKept r1
  unfolding unregister_fd
  handled-IsKept k1 r h1 fd kept = elim (Bool-cases (should_close h1)) [
    | inl closing ↦ rw closing (gone-IsKept r fd h1 kept)
    | inr stays ↦ rw stays (stored-IsKept r fd h1 kept stays)
  ]

  Kept-IsPreserved : IsPreserved K E left_dc left_cc scan_fuel rounds Kept Kept
  Kept-IsPreserved = record {
    connects = λ k r fd conn p e. ends-Kept _ (
        create_conn_handler-IsKept K E left_dc left_cc scan_fuel rounds (E.accept k fd).1 r conn p);
    accepts_none = λ k r fd p e. p;
    handles = λ n k k1 r h h1 event p known ran. handled-IsKept k1 r h1 event.fd p;
  }

  -- Whatever events the system reports, whatever its calls return and whatever is read, when `Run`
  -- returns, or an exception leaves it, no handler that wants to close is left in the table, and every
  -- listener has its entry there.
  pub run-IsKept :
      (n : ℕ) (k : K.State) (r : Reactor) (ws : List Waited) {o : Outcome K.State}
      → IsKept r
      → run K E left_dc left_cc scan_fuel rounds n k r ws ≡ some o
      → IsKept (after o)
  run-IsKept n k r ws kept e =
      Kept-after _
        (run-Ends K E left_dc left_cc scan_fuel rounds Kept Kept Kept-IsPreserved n k r ws kept e)
