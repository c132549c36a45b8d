-- ===== src/Net/Sockets.antt =====
-- `SocketCreator` of include/net/transport/socket_creator.hpp. The system's calls are a parameter; a
-- backlog below 0 is as one of 0.
use nebula_toolkit.Prelude.{
  ℕ, ◌≡◌, ◌∙◌, refl, sym, Bool, true, false, not, ◌&&◌, ◌||◌, Option, none, some, Bytes, length,
  arith, ltb, ◌==◌, if◌then◌else◌, Bool-cases, Option-cases, inl, inr,
}

pub data SocketType : Type 0 where
  stream datagram : SocketType

-- `socket(AF_INET, type, 0)` (the flag is SOCK_NONBLOCK), `setsockopt` for SO_REUSEADDR, `bind` to an
-- address and a port, `listen`, `close` and `inet_addr`; `is_open` is whether a descriptor is open.
pub record Sockets : Type 1 where
  pub State : Type 0
  pub socket : State → SocketType → Bool → Option ℕ × State
  pub set_reuse : State → ℕ → State
  pub bind : State → ℕ → ℕ → ℕ → Bool × State
  pub listen : State → ℕ → ℕ → Bool × State
  pub close : State → ℕ → State
  pub inet_addr : Bytes → ℕ
  pub is_open : State → ℕ → Bool

-- the descriptor is the one returned
abbrev pub returned : Option ℕ → ℕ → Bool
returned none fd = false
returned (some new) fd = fd == new

pub record IsLawful (S : Sockets) : Type 0 where
  pub open-socket :
      (s : S.State) (t : SocketType) (b : Bool) (fd : ℕ)
      → S.is_open (S.socket s t b).1 fd ≡ (returned (S.socket s t b).0 fd || S.is_open s fd)
  pub socket-fresh :
      (s : S.State) (t : SocketType) (b : Bool) (fd : ℕ)
      → (S.socket s t b).0 ≡ some fd
      → S.is_open s fd ≡ false
  pub open-set_reuse : (s : S.State) (i fd : ℕ) → S.is_open (S.set_reuse s i) fd ≡ S.is_open s fd
  pub open-bind :
      (s : S.State) (i address port fd : ℕ)
      → S.is_open (S.bind s i address port).1 fd ≡ S.is_open s fd
  pub open-listen : (s : S.State) (i n fd : ℕ) → S.is_open (S.listen s i n).1 fd ≡ S.is_open s fd
  pub open-close :
      (s : S.State) (i fd : ℕ) → S.is_open (S.close s i) fd ≡ (not (fd == i) && S.is_open s fd)

module _ (S : Sockets) where
  abbrev pub address : Bytes → ℕ
  address ip = if length ip == 0 then 0 else S.inet_addr ip

  -- the new socket with its option set, then bound; `true` is success
  abbrev pub bound : S.State → ℕ → Bytes → ℕ → Bool × S.State
  bound s fd ip port = S.bind (S.set_reuse s fd) fd (address ip) port

  -- the end of `CreateTcpSocket` and of `CreateUdpSocket`, when `socket` has returned
  abbrev pub finish_tcp : Option ℕ → S.State → Bytes → ℕ → ℕ → Option ℕ × S.State
  finish_tcp none s ip port listen_backlog = (none, s)
  finish_tcp (some fd) s ip port listen_backlog =
      let (is_bound, s1) = bound s fd ip port in
      let (listens, s2) = S.listen s1 fd listen_backlog in
      if not is_bound
      then (none, S.close s1 fd)
      else if ltb 0 listen_backlog
      then (if not listens then (none, S.close s2 fd) else (some fd, s2))
      else (some fd, s1)

  abbrev pub finish_udp : Option ℕ → S.State → Bytes → ℕ → Option ℕ × S.State
  finish_udp none s ip port = (none, s)
  finish_udp (some fd) s ip port =
      let (is_bound, s1) = bound s fd ip port in
      if not is_bound then (none, S.close s1 fd) else (some fd, s1)

  unfoldable pub create_tcp_socket : S.State → Bytes → ℕ → Bool → ℕ → Option ℕ × S.State
  create_tcp_socket s ip port non_block listen_backlog =
      let (fd, s1) = S.socket s stream non_block in finish_tcp fd s1 ip port listen_backlog

  unfoldable pub create_udp_socket : S.State → Bytes → ℕ → Bool → Option ℕ × S.State
  create_udp_socket s ip port non_block =
      let (fd, s1) = S.socket s datagram non_block in finish_udp fd s1 ip port

-- a socket that is new, and closed again, leaves what was open
closed_again :
    (is_new was now : Bool)
    → (is_new ≡ true → was ≡ false)
    → now ≡ (is_new || was)
    → (not is_new && now) ≡ was
closed_again true was now h e = sym (h refl)
closed_again false was now h e = e

module _ (S : Sockets) (law : IsLawful S) where
  -- The descriptor `new` was not open in `s0`, and in `s` it is, beside those of `s0`.
  record Opened (s0 : S.State) (new fd : ℕ) (s : S.State) : Type 0 where
    fresh : (fd == new) ≡ true → S.is_open s0 fd ≡ false
    now : S.is_open s fd ≡ (fd == new || S.is_open s0 fd)

  open-close_new :
      (s0 : S.State) (new fd : ℕ) (s : S.State)
      → Opened s0 new fd s
      → S.is_open (S.close s new) fd ≡ S.is_open s0 fd
  open-close_new s0 new fd s o =
      law.open-close s new fd
      ∙ closed_again (fd == new) (S.is_open s0 fd) (S.is_open s fd) o.fresh o.now

  bound-Opened :
      (s0 : S.State) (new fd : ℕ) (s : S.State) (ip : Bytes) (port : ℕ)
      → Opened s0 new fd s
      → Opened s0 new fd (bound S s new ip port).1
  bound-Opened s0 new fd s ip port o = record {
    fresh = o.fresh;
    now =
        law.open-bind (S.set_reuse s new) new (address S ip) port fd
        ∙ law.open-set_reuse s new fd
        ∙ o.now;
  }

  socket-Opened :
      (s0 : S.State) (t : SocketType) (b : Bool) (new fd : ℕ)
      → (S.socket s0 t b).0 ≡ some new
      → Opened s0 new fd (S.socket s0 t b).1
  socket-Opened s0 t b new fd e = record {
    fresh =
        λ same. let eq : fd ≡ new = ground (arith, same) in rw eq (law.socket-fresh s0 t b new e);
    now = law.open-socket s0 t b fd ∙ (rw e refl);
  }

  open-finish_tcp :
      (s0 : S.State) (new fd : ℕ) (s : S.State) (ip : Bytes) (port backlog : ℕ)
      → Opened s0 new fd s
      → S.is_open (finish_tcp S (some new) s ip port backlog).1 fd
        ≡ (returned (finish_tcp S (some new) s ip port backlog).0 fd || S.is_open s0 fd)
  open-finish_tcp s0 new fd s ip port backlog o =
      let s1 = (bound S s new ip port).1 in
      let o1 = bound-Opened s0 new fd s ip port o in
      let o2 : Opened s0 new fd (S.listen s1 new backlog).1 = record {
        fresh = o1.fresh;
        now = law.open-listen s1 new backlog fd ∙ o1.now;
      } in
      elim (Bool-cases (bound S s new ip port).0) [
        | inr bad ↦ rw bad (open-close_new s0 new fd s1 o1)
        | inl ok ↦ elim (Bool-cases (ltb 0 backlog)) [
          | inr quiet ↦ rw (ok, quiet) o1.now
          | inl listening ↦ elim (Bool-cases (S.listen s1 new backlog).0) [
            | inr bad ↦
                rw (ok, listening, bad) (open-close_new s0 new fd (S.listen s1 new backlog).1 o2)
            | inl listens ↦ rw (ok, listening, listens) o2.now
          ]
        ]
      ]

  open-finish_udp :
      (s0 : S.State) (new fd : ℕ) (s : S.State) (ip : Bytes) (port : ℕ)
      → Opened s0 new fd s
      → S.is_open (finish_udp S (some new) s ip port).1 fd
        ≡ (returned (finish_udp S (some new) s ip port).0 fd || S.is_open s0 fd)
  open-finish_udp s0 new fd s ip port o =
      let s1 = (bound S s new ip port).1 in
      let o1 = bound-Opened s0 new fd s ip port o in
      elim (Bool-cases (bound S s new ip port).0) [
        | inr bad ↦ rw bad (open-close_new s0 new fd s1 o1)
        | inl ok ↦ rw ok o1.now
      ]

  -- `CreateTcpSocket` and `CreateUdpSocket` leave open what was open before and the socket that they
  -- return, and nothing else, on every path: where a call fails, the socket is closed again.
  pub create_sockets-open :
      (s : S.State) (ip : Bytes) (port : ℕ) (non_block : Bool) (backlog fd : ℕ)
      → let (tcp, s1) = create_tcp_socket S s ip port non_block backlog in
        let (udp, s2) = create_udp_socket S s ip port non_block in
        (S.is_open s1 fd ≡ (returned tcp fd || S.is_open s fd))
        × (S.is_open s2 fd ≡ (returned udp fd || S.is_open s fd))
  unfolding create_tcp_socket create_udp_socket
  create_sockets-open s ip port non_block backlog fd = (
    elim (Option-cases (S.socket s stream non_block).0) [
      | inl failed ↦ rw failed (law.open-socket s stream non_block fd ∙ (rw failed refl))
      | inr (new, e) ↦ rw e (
          open-finish_tcp s new fd (S.socket s stream non_block).1 ip port backlog
            (socket-Opened s stream non_block new fd e))
    ],
    elim (Option-cases (S.socket s datagram non_block).0) [
      | inl failed ↦ rw failed (law.open-socket s datagram non_block fd ∙ (rw failed refl))
      | inr (new, e) ↦ rw e (
          open-finish_udp s new fd (S.socket s datagram non_block).1 ip port
            (socket-Opened s datagram non_block new fd e))
    ],
  )
