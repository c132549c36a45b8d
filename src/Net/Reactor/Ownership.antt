-- ===== src/Net/Reactor/Ownership.antt =====
-- The descriptors that `ReactorCore` owns, from `Run` to the destructor.
use nebula_toolkit.Net.{Kernel, Event}
use nebula_toolkit.Net.Frame.{Tcp-handle_event, Udp-handle_event}
use nebula_toolkit.Net.Reactor.Running.{Ends, returns, throws, IsPreserved, run-Ends}
use nebula_toolkit.Net.Tcp
use nebula_toolkit.Net.Udp
use nebula_toolkit.Net.Reactor.Tables.{find-store, find-erase}
use nebula_toolkit.Net.Reactor.{
  Handler, no_handler, tcp, udp, should_close, Epoll, connection, none_waiting, accept_failed,
  Reactor, done, Waited, find, store, erase, register_protocol, unregister_fd, create_conn_handler,
  handle_event, run,
}
use nebula_toolkit.Prelude.{
  ℕ, ◌≡◌, refl, sym, ◌∙◌, ap, ◌⊎◌, inl, inr, Bool, true, false, not, ◌&&◌, ◌||◌, Option, some, List,
  [], ◌∷◌, arith, ◌==◌, Bool-cases, ==_refl, >>=-eq-some,
}
use nebula_toolkit.UnPacker.{DataSzCb, CheckValidCb, is_set}
use nebula_toolkit.Net.Reactor.Lifetime.{in_table, IsTracked, close_all, destroy}

in_table-store :
    (fd j : ℕ) (h : Handler) (t : List (ℕ × Handler))
    → in_table j (store fd h t) ≡ (j == fd || in_table j t)
in_table-store fd j h t = ap is_set (find-store fd j h t) ∙ ground arith

in_table-erase :
    (fd j : ℕ) (t : List (ℕ × Handler)) → in_table j (erase fd t) ≡ (not (j == fd) && in_table j t)
in_table-erase fd j t = ap is_set (find-erase fd j t) ∙ ground arith

module _ (K : Kernel) (E : Epoll K) (is_open : K.State → ℕ → Bool) (law : IsTracked K E is_open)
    (base : ℕ → Bool) where
  -- The descriptors that are open are those in the table and, apart from them, those of `base`.
  record Owns (k : K.State) (r : Reactor) : Type 0 where
    opened : (j : ℕ) → is_open k j ≡ (in_table j r.protocol_handlers || base j)
    apart : (j : ℕ) → in_table j r.protocol_handlers ≡ true → base j ≡ false

  open-close_all :
      (k : K.State) (t : List (ℕ × Handler)) (j : ℕ)
      → is_open (close_all K E k t) j ≡ (not (in_table j t) && is_open k j)
  open-close_all k [] j = refl
  open-close_all k ((fd, h) ∷ t) j =
      open-close_all (E.close k fd) t j ∙ ground (arith, law.open-close k fd j)

  open-destroy :
      (k : K.State) (epoll_fd : ℕ) (r : Reactor) (j : ℕ)
      → Owns k r
      → is_open (destroy K E k epoll_fd r) j ≡ (not (j == epoll_fd) && base j)
  unfolding destroy
  open-destroy k epoll_fd r j o =
      open-close_all (E.close k epoll_fd) r.protocol_handlers j
      ∙ ground (arith, law.open-close k epoll_fd j, o.opened j, o.apart j)

  module _ (left_dc : Option DataSzCb → Option DataSzCb)
      (left_cc : Option CheckValidCb → Option CheckValidCb) (scan_fuel rounds : ℕ) where
    -- an exception may leave a descriptor open
    abbrev Anything : K.State → Reactor → Type 0
    Anything k r = Unit {0}

    -- a handler is stored for a descriptor that is not one of `base`
    store-Owns :
        (k k' : K.State) (r : Reactor) (fd : ℕ) (h : Handler)
        → Owns k r
        → base fd ≡ false
        → ((j : ℕ) → is_open k' j ≡ (j == fd || is_open k j))
        → (r' : Reactor) → r'.protocol_handlers ≡ store fd h r.protocol_handlers
        → Owns k' r'
    store-Owns k k' r fd h o free now r' table = record {
      opened = λ j.
          let stored = in_table-store fd j h r.protocol_handlers in
          rw table (rw stored (now j ∙ ground (arith, o.opened j)));
      apart = λ j q.
          let stored : (j == fd || in_table j r.protocol_handlers) ≡ true =
            sym (in_table-store fd j h r.protocol_handlers) ∙ (rw table at q) in
          elim (Bool-cases (j == fd)) [
            | inl same ↦ let eq : j ≡ fd = ground (arith, same) in rw eq free
            | inr other ↦ o.apart j (rw other at stored)
          ];
    }

    connects-Owns :
        (k : K.State) (r : Reactor) (fd conn : ℕ)
        → Owns k r
        → (E.accept k fd).0 ≡ connection conn
        → Ends K E left_dc left_cc scan_fuel rounds Owns Anything
            (create_conn_handler K E left_dc left_cc scan_fuel rounds (E.accept k fd).1 r conn)
    unfolding create_conn_handler register_protocol
    connects-Owns k r fd conn o e =
        let k1 = (E.accept k fd).1 in
        let free : base conn ≡ false =
          ground (arith, o.opened conn, law.accept-fresh k fd conn e) in
        let now : (j : ℕ)
            → is_open (E.add (E.set_flags k1 conn).1 conn).1 j ≡ (j == conn || is_open k j) =
          λ j.
            law.open-add (E.set_flags k1 conn).1 conn j
            ∙ law.open-set_flags k1 conn j
            ∙ (rw e at (law.open-accept k fd j)) in
        elim (Bool-cases (E.get_flags k1 conn)) [
          | inr bad ↦ rw bad (throws tt)
          | inl flags ↦ elim (Bool-cases (E.set_flags k1 conn).0) [
            | inr bad ↦ rw (flags, bad) (throws tt)
            | inl set ↦ elim (Bool-cases (E.add (E.set_flags k1 conn).1 conn).0) [
              | inr bad ↦ rw (flags, set, bad) (throws tt)
              | inl added ↦
                  rw (flags, set, added)
                    (returns (
                      store-Owns k (E.add (E.set_flags k1 conn).1 conn).1 r conn _ o free now _
                        refl))
            ]
          ]
        ]

    accepts_none-Owns :
        (k : K.State) (r : Reactor) (fd : ℕ)
        → Owns k r
        → ((E.accept k fd).0 ≡ none_waiting) ⊎ ((E.accept k fd).0 ≡ accept_failed)
        → Owns (E.accept k fd).1 r
    accepts_none-Owns k r fd o e = record {
      opened = λ j. elim e [
        | inl none_there ↦ (rw none_there at (law.open-accept k fd j)) ∙ o.opened j
        | inr fails ↦ (rw fails at (law.open-accept k fd j)) ∙ o.opened j
      ];
      apart = o.apart;
    }

    -- the handlers neither open nor close
    handled-open :
        (n : ℕ) (k k1 : K.State) (h h1 : Handler) (event : Event) (j : ℕ)
        → handle_event K E left_dc left_cc scan_fuel rounds n k h event ≡ some (k1, h1)
        → is_open k1 j ≡ is_open k j
    unfolding handle_event
    handled-open n k k1 no_handler h1 event j e = cc
    handled-open n k k1 (tcp h) h1 event j e =
        let ((s, g), ran, eq) = >>=-eq-some (Tcp.handle_event K scan_fuel rounds n k h event) _ e in
        let same : s ≡ k1 = cc in
        rw same at (
          Tcp-handle_event K (λ s. is_open s j ≡ is_open k j)
            (λ s fd room p. law.open-receive s fd room j ∙ p) scan_fuel rounds n k h event refl ran)
    handled-open n k k1 (udp h) h1 event j e =
        let ((s, g), ran, eq) = >>=-eq-some (Udp.handle_event K scan_fuel rounds n k h event) _ e in
        let same : s ≡ k1 = cc in
        rw same at (
          Udp-handle_event K (λ s. is_open s j ≡ is_open k j)
            (λ s fd room p. law.open-receive s fd room j ∙ p) scan_fuel rounds n k h event refl ran)

    -- a known descriptor is given another handler, and the calls in between leave it open
    handled-Owns :
        (k k1 : K.State) (r : Reactor) (fd : ℕ) (h h1 : Handler)
        → Owns k r
        → find fd r.protocol_handlers ≡ some h
        → ((j : ℕ) → is_open k1 j ≡ is_open k j)
        → Owns k1 (record r { protocol_handlers = store fd h1 r.protocol_handlers })
    handled-Owns k k1 r fd h h1 o known same =
        let there : in_table fd r.protocol_handlers ≡ true = ap is_set known in
        store-Owns k k1 r fd h1 o (o.apart fd there)
          (λ j. elim (Bool-cases (j == fd)) [
            | inl it ↦
                let eq : j ≡ fd = ground (arith, it) in
                rw it (rw eq (same fd ∙ ground (arith, o.opened fd, there)))
            | inr other ↦ rw other (same j)
          ])
          _ refl

    gone-Owns :
        (k : K.State) (r : Reactor) (fd : ℕ)
        → Owns k r
        → in_table fd r.protocol_handlers ≡ true
        → let gone = unregister_fd K E left_dc left_cc scan_fuel rounds k r fd in Owns gone.0 gone.1
    unfolding unregister_fd
    gone-Owns k r fd o there = record {
      opened = λ j.
          let removed = in_table-erase fd j r.protocol_handlers in
          let closed = law.open-close (E.remove k fd).1 fd j in
          elim (Bool-cases (j == fd)) [
            | inl it ↦
                let eq : j ≡ fd = ground (arith, it) in
                let free : base j ≡ false = rw eq (o.apart fd there) in
                rw (removed, it) (ground (arith, closed, it, free))
            | inr other ↦
                rw (removed, other)
                  (ground (arith, closed, other, law.open-remove k fd j, o.opened j))
          ];
      apart = λ j q. o.apart j (
          let removed : (not (j == fd) && in_table j r.protocol_handlers) ≡ true =
            sym (in_table-erase fd j r.protocol_handlers) ∙ q in
          ground arith);
    }

    Owns-IsPreserved : IsPreserved K E left_dc left_cc scan_fuel rounds Owns Anything
    Owns-IsPreserved = record {
      connects = connects-Owns;
      accepts_none = accepts_none-Owns;
      handles = λ n k k1 r h h1 event o known ran.
          let same : (j : ℕ) → is_open k1 j ≡ is_open k j =
            λ j. handled-open n k k1 h h1 event j ran in
          let o1 = handled-Owns k k1 r event.fd h h1 o known same in
          let there = in_table-store event.fd event.fd h1 r.protocol_handlers in
          elim (Bool-cases (should_close h1)) [
            | inl closing ↦
                rw closing (gone-Owns k1 _ event.fd o1 (there ∙ (rw (==_refl event.fd) refl)))
            | inr stays ↦ rw stays o1
          ];
    }

-- Whatever events come, connections arrive and bytes are read: when `Run` returns and the destructor has
-- run, the descriptors of the table before `Run`, if all of them were open, and of the connections that
-- were accepted since are closed, the one of `epoll` with them, and all others are as they were.
pub destroy-run :
    (K : Kernel) (E : Epoll K) (is_open : K.State → ℕ → Bool)
    (left_dc : Option DataSzCb → Option DataSzCb)
    (left_cc : Option CheckValidCb → Option CheckValidCb) (scan_fuel rounds n : ℕ) (k : K.State)
    (epoll_fd : ℕ) (r : Reactor) (ws : List Waited) {k' : K.State} {r' : Reactor}
    → IsTracked K E is_open
    → ((j : ℕ) → in_table j r.protocol_handlers ≡ true → is_open k j ≡ true)
    → run K E left_dc left_cc scan_fuel rounds n k r ws ≡ some (done k' r')
    → (j : ℕ)
    → is_open (destroy K E k' epoll_fd r') j
      ≡ (not (j == epoll_fd) && (not (in_table j r.protocol_handlers) && is_open k j))
destroy-run K E is_open left_dc left_cc scan_fuel rounds n k epoll_fd r ws {k'} {r'} law all_open
      ran j =
    let base : ℕ → Bool = λ i. not (in_table i r.protocol_handlers) && is_open k i in
    let owns : Owns K E is_open law base k r = record {
      opened = λ i. let held = all_open i in ground arith;
      apart = λ i q. ground arith;
    } in
    elim (run-Ends K E left_dc left_cc scan_fuel rounds (Owns K E is_open law base)
      (Anything K E is_open law base left_dc left_cc scan_fuel rounds)
      (Owns-IsPreserved K E is_open law base left_dc left_cc scan_fuel rounds) n k r ws owns ran) [
        | returns o ↦ open-destroy K E is_open law base k' epoll_fd r' j o
      ]
