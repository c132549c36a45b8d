-- ===== src/Net/Reactor/Upkeep.antt =====
-- What the reactor keeps of its tables.
use nebula_toolkit.Net.{Kernel}
use nebula_toolkit.Net.Reactor.Tables.{find-store, find-erase, contains-insert, contains-erase_all}
use nebula_toolkit.Net.Reactor.{
  Handler, should_close, Epoll, Reactor, Outcome, done, thrown, find, store, erase, contains,
  insert, erase_all, register_protocol, create_conn_handler,
}
use nebula_toolkit.Net.Tcp
use nebula_toolkit.Prelude.{
  ℕ, ◌≡◌, refl, Bool, true, false, Option, none, some, [], arith, ◌==◌, if◌then◌else◌, Bool-cases,
  inl, inr,
}
use nebula_toolkit.UnPacker.{DataSzCb, CheckValidCb}

-- No handler in the table wants to close, and every listener is in the table.
pub record IsKept (r : Reactor) : Type 0 where
  pub open_handlers :
      (fd : ℕ) (h : Handler) → find fd r.protocol_handlers ≡ some h → should_close h ≡ false
  pub known_listeners :
      (fd : ℕ)
      → contains fd r.listeners ≡ true
      → (h : Handler) × (find fd r.protocol_handlers ≡ some h)

abbrev pub after : {S : Type 0} → Outcome S → Reactor
after (done s r) = r
after (thrown s r) = r

-- a handler that does not close is stored
pub stored-IsKept :
    (r : Reactor) (fd : ℕ) (h : Handler)
    → IsKept r
    → should_close h ≡ false
    → IsKept (record r { protocol_handlers = store fd h r.protocol_handlers })
stored-IsKept r fd h kept stays = record {
  open_handlers = λ j g e. elim (Bool-cases (j == fd)) [
    | inl same ↦
        let e' : some h ≡ some g = rw (find-store fd j h r.protocol_handlers, same) at e in
        let eq : h ≡ g = cc in rw eq at stays
    | inr other ↦ kept.open_handlers j g (rw (find-store fd j h r.protocol_handlers, other) at e)
  ];
  known_listeners = λ j e. elim (Bool-cases (j == fd)) [
    | inl same ↦ (h, rw (find-store fd j h r.protocol_handlers, same) refl)
    | inr other ↦ rw (find-store fd j h r.protocol_handlers, other) (kept.known_listeners j e)
  ];
}

-- a descriptor is stored with any handler, and erased
pub gone-IsKept :
    (r : Reactor) (fd : ℕ) (h : Handler)
    → IsKept r
    → IsKept (record r {
      protocol_handlers = erase fd (store fd h r.protocol_handlers);
      listeners = erase_all fd r.listeners;
    })
gone-IsKept r fd h kept = record {
  open_handlers = λ j g e.
      let found = find-erase fd j (store fd h r.protocol_handlers) in
      elim (Bool-cases (j == fd)) [
        | inl same ↦ absurd (let e' : none ≡ some g = rw (found, same) at e in cc)
        | inr other ↦
            kept.open_handlers j g
              (rw (found, other, find-store fd j h r.protocol_handlers, other) at e)
      ];
  known_listeners = λ j e.
      let still = contains-erase_all fd j r.listeners in
      elim (Bool-cases (j == fd)) [
        | inl same ↦ absurd (let e' : false ≡ true = rw (still, same) at e in cc)
        | inr other ↦
            rw
              (
                find-erase fd j (store fd h r.protocol_handlers),
                other,
                find-store fd j h r.protocol_handlers,
                other,
              )
              (kept.known_listeners j (rw (still, other) at e))
      ];
}

-- a listener is added, and it is in the table
listening-IsKept :
    (r : Reactor) (fd : ℕ) (h : Handler)
    → IsKept r
    → should_close h ≡ false
    → IsKept (record r {
      protocol_handlers = store fd h r.protocol_handlers;
      listeners = insert fd r.listeners;
    })
listening-IsKept r fd h kept stays =
    let stored = stored-IsKept r fd h kept stays in
    record {
      open_handlers = stored.open_handlers;
      known_listeners = λ j e. elim (Bool-cases (fd == j)) [
        | inl same ↦
            let eq : fd ≡ j = ground (arith, same) in
            (h, rw eq (rw (find-store j j h r.protocol_handlers) (ground arith)))
        | inr other ↦ stored.known_listeners j (rw (contains-insert fd j r.listeners, other) at e)
      ];
    }

-- the table stays, and so do the listeners
same_tables :
    (r r' : Reactor)
    → r'.protocol_handlers ≡ r.protocol_handlers
    → r'.listeners ≡ r.listeners
    → IsKept r
    → IsKept r'
same_tables r r' e f kept = record {
  open_handlers = λ j g q. kept.open_handlers j g (rw e at q);
  known_listeners = λ j q. rw e (kept.known_listeners j (rw f at q));
}

module _ (K : Kernel) (E : Epoll K) (left_dc : Option DataSzCb → Option DataSzCb)
    (left_cc : Option CheckValidCb → Option CheckValidCb) (scan_fuel rounds : ℕ) where
  -- Registering a handler that does not want to close, as a listener or not, keeps the tables in order,
  -- whichever of the system's calls fails.
  pub register_protocol-IsKept :
      (k : K.State) (r : Reactor) (fd : ℕ) (h : Handler) (is_listener : Bool)
      → IsKept r
      → should_close h ≡ false
      → IsKept (after (register_protocol K E left_dc left_cc scan_fuel rounds k r fd h is_listener))
  unfolding register_protocol
  register_protocol-IsKept k r fd h is_listener kept stays = elim (Bool-cases (E.get_flags k fd)) [
    | inr bad ↦ rw bad kept
    | inl flags ↦ elim (Bool-cases (E.set_flags k fd).0) [
      | inr bad ↦ rw (flags, bad) kept
      | inl set ↦ elim (Bool-cases (E.add (E.set_flags k fd).1 fd).0) [
        | inr bad ↦ rw (flags, set, bad) kept
        | inl added ↦ rw (flags, set, added) (by_kind is_listener)
      ]
    ]
  ]
    where
      by_kind :
          (b : Bool)
          → IsKept (record r {
            protocol_handlers = store fd h r.protocol_handlers;
            listeners = if b then insert fd r.listeners else r.listeners;
          })
      by_kind true = listening-IsKept r fd h kept stays
      by_kind false = stored-IsKept r fd h kept stays

  pub create_conn_handler-IsKept :
      (k : K.State) (r : Reactor) (fd : ℕ)
      → IsKept r
      → IsKept (after (create_conn_handler K E left_dc left_cc scan_fuel rounds k r fd))
  unfolding create_conn_handler
  create_conn_handler-IsKept k r fd kept =
      let r1 = record r {
        head_key = [];
        tail_key = [];
        data_sz_cb = left_dc r.data_sz_cb;
        check_sz_cb = left_cc r.check_sz_cb;
      } in
      register_protocol-IsKept k r1 fd _ false (same_tables r r1 refl refl kept)
        (unfold Tcp.set_callback Tcp.create in refl)
