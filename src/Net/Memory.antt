-- ===== src/Net/Memory.antt =====
-- A system in memory, which meets what `Net` and `Net.Sockets` ask of one.
use nebula_toolkit.Net.{Kernel, IsLawful, IsQuiet, Received, got, would_block, failed, bytes_of}
use nebula_toolkit.Net.Reactor.Lifetime.{accepted_fd, IsTracked}
use nebula_toolkit.Net.Reactor.Tables.{contains-erase_all}
use nebula_toolkit.Net.Reactor.{
  contains, erase_all, Epoll, Accepted, connection, none_waiting, accept_failed,
}
use nebula_toolkit.Net.Sockets
use nebula_toolkit.Net.Sockets.{Sockets, SocketType, returned}
use nebula_toolkit.Prelude.{
  ℕ, ◌+◌, ◌≤◌, ◌<◌, ◌≡◌, refl, sym, ap, zero, suc, Bool, true, false, not, ◌&&◌, ◌||◌, Option, none,
  some, List, [], ◌∷◌, ◌++◌, Bytes, length, take, drop, arith, length-take, length-drop, ◌==◌,
  if◌then◌else◌, Bool-cases, inl, inr, ◌∙◌,
}
use mathlib.Core.List.{append-nil}

-- the segments that wait to be read, all that was read, and the connections that wait
pub record Wire : Type 0 where
  pub segments : List Bytes
  pub log : Bytes
  pub arriving : List ℕ

-- the front of the first segment, as much as there is room for
abbrev receive_from : List Bytes → Wire → ℕ → Received × Wire
receive_from [] w room = (would_block, w)
receive_from (s ∷ rest) w room =
    (got (take room s), record w { segments = drop room s ∷ rest; log = w.log ++ take room s })

-- A segment that is used up goes.
abbrev trimmed : List Bytes → List Bytes
trimmed [] = []
trimmed ([] ∷ rest) = trimmed rest
trimmed ((b ∷ s) ∷ rest) = (b ∷ s) ∷ rest

abbrev pub wire : Kernel
wire = record {
  State = Wire;
  receive = λ w fd room. receive_from (trimmed w.segments) w room;
  taken = λ w fd. w.log;
}

receive_from-fits :
    (ss : List Bytes) (w : Wire) (room : ℕ) → length (bytes_of (receive_from ss w room).0) ≤ room
receive_from-fits [] w room = omega arith
receive_from-fits (s ∷ rest) w room = omega (arith, length-take room s)

receive_from-log :
    (ss : List Bytes) (w : Wire) (room : ℕ)
    → (receive_from ss w room).1.log ≡ w.log ++ bytes_of (receive_from ss w room).0
receive_from-log [] w room = sym (append-nil w.log)
receive_from-log (s ∷ rest) w room = refl

pub wire-IsLawful : IsLawful wire
wire-IsLawful = record {
  receive-fits = λ w fd room. receive_from-fits (trimmed w.segments) w room;
  taken-receive = λ w fd room. receive_from-log (trimmed w.segments) w room;
}

take-short : (n : ℕ) (xs : Bytes) → length xs ≤ n → take n xs ≡ xs
take-short zero [] p = refl
take-short zero (x ∷ xs) p = absurd (omega arith)
take-short (suc n) [] p = refl
take-short (suc n) (x ∷ xs) p = ap (λ q. x ∷ q) (take-short n xs (omega arith))

drop-short : (n : ℕ) (xs : Bytes) → length xs ≤ n → drop n xs ≡ []
drop-short zero [] p = refl
drop-short zero (x ∷ xs) p = absurd (omega arith)
drop-short (suc n) [] p = refl
drop-short (suc n) (x ∷ xs) p = drop-short n xs (omega arith)

-- A segment for which there is room is read in one piece.
pub receive-whole :
    (b : ℕ) (s : Bytes) (rest : List Bytes) (w : Wire) (fd room : ℕ)
    → trimmed w.segments ≡ (b ∷ s) ∷ rest
    → length (b ∷ s) ≤ room
    → wire.receive w fd room
      ≡ (got (b ∷ s), record w { segments = [] ∷ rest; log = w.log ++ b ∷ s })
receive-whole b s rest w fd room first fits =
    rw (first, take-short room (b ∷ s) fits, drop-short room (b ∷ s) fits) refl

-- how many bytes wait
abbrev pub total : List Bytes → ℕ
total [] = 0
total (s ∷ rest) = length s + total rest

total-trimmed : (ss : List Bytes) → total (trimmed ss) ≡ total ss
total-trimmed [] = refl
total-trimmed ([] ∷ rest) = omega (arith, total-trimmed rest)
total-trimmed ((b ∷ s) ∷ rest) = refl

receive_from-less :
    (ss : List Bytes) (w : Wire) (room : ℕ)
    → 0 < length (bytes_of (receive_from ss w room).0)
    → total (receive_from ss w room).1.segments < total ss
receive_from-less [] w room p = absurd (omega arith)
receive_from-less (s ∷ rest) w room p = omega (arith, length-take room s, length-drop room s)

pub wire-IsQuiet : (fd : ℕ) → IsQuiet wire fd (λ w. total w.segments)
wire-IsQuiet fd = record {
  waiting-receive = λ w room p.
      omega (arith, receive_from-less (trimmed w.segments) w room p, total-trimmed w.segments);
}

-- a system whose reads all fail
abbrev pub broken : Kernel
broken = record { State = Unit {0}; receive = λ k fd room. (failed, k); taken = λ k fd. [] }

abbrev accept_from : List ℕ → Wire → Accepted × Wire
accept_from [] w = (none_waiting, w)
accept_from (fd ∷ rest) w = (connection fd, record w { arriving = rest })

-- all calls succeed
abbrev pub wire_epoll : Epoll wire
wire_epoll = record {
  get_flags = λ w fd. true;
  set_flags = λ w fd. (true, w);
  add = λ w fd. (true, w);
  remove = λ w fd. (true, w);
  close = λ w fd. w;
  accept = λ w fd. accept_from w.arriving w;
}

-- all but `accept4` do
abbrev pub full_epoll : Epoll wire
full_epoll = record wire_epoll { accept = λ w fd. (accept_failed, w) }

-- A system that has nothing to read, and keeps a list of the descriptors that are open. A connection
-- with the number of one of them does not arrive.
pub record Desk : Type 0 where
  pub opened : List ℕ
  pub arriving : List ℕ

abbrev pub desk : Kernel
desk = record { State = Desk; receive = λ s fd room. (would_block, s); taken = λ s fd. [] }

abbrev desk_accept : List ℕ → Desk → Accepted × Desk
desk_accept [] s = (none_waiting, s)
desk_accept (fd ∷ rest) s =
    if contains fd s.opened
    then (none_waiting, record s { arriving = rest })
    else (connection fd, record { opened = fd ∷ s.opened; arriving = rest })

abbrev pub desk_epoll : Epoll desk
desk_epoll = record {
  get_flags = λ s fd. true;
  set_flags = λ s fd. (true, s);
  add = λ s fd. (true, s);
  remove = λ s fd. (true, s);
  close = λ s fd. record s { opened = erase_all fd s.opened };
  accept = λ s fd. desk_accept s.arriving s;
}

abbrev pub desk_open : Desk → ℕ → Bool
desk_open s j = contains j s.opened

desk_accept-open :
    (arriving : List ℕ) (s : Desk) (j : ℕ)
    → desk_open (desk_accept arriving s).1 j
      ≡ (accepted_fd (desk_accept arriving s).0 j || desk_open s j)
desk_accept-open [] s j = refl
desk_accept-open (fd ∷ rest) s j = elim (Bool-cases (contains fd s.opened)) [
  | inl taken ↦ rw taken refl
  | inr fresh ↦ rw fresh (ground arith)
]

desk_accept-fresh :
    (arriving : List ℕ) (s : Desk) (conn : ℕ)
    → (desk_accept arriving s).0 ≡ connection conn
    → desk_open s conn ≡ false
desk_accept-fresh [] s conn e = cc
desk_accept-fresh (fd ∷ rest) s conn e = elim (Bool-cases (contains fd s.opened)) [
  | inl taken ↦ let e' = rw taken at e in cc
  | inr fresh ↦
      let e' : connection fd ≡ connection conn = rw fresh at e in
      let same : fd ≡ conn = cc in rw same at fresh
]

pub desk-IsTracked : IsTracked desk desk_epoll desk_open
desk-IsTracked = record {
  open-receive = λ s fd room j. refl;
  open-set_flags = λ s fd j. refl;
  open-add = λ s fd j. refl;
  open-remove = λ s fd j. refl;
  open-close = λ s fd j. contains-erase_all fd j s.opened ∙ ground arith;
  open-accept = λ s fd j. desk_accept-open s.arriving s j;
  accept-fresh = λ s fd conn e. desk_accept-fresh s.arriving s conn e;
}

-- A system with the one descriptor 3, whose state is whether it is open. A bind to port 0 fails, and
-- `listen` does.
abbrev open_three : Bool → Option ℕ × Bool
open_three true = (none, true)
open_three false = (some 3, true)

abbrev pub one_socket : Sockets
one_socket = record {
  State = Bool;
  socket = λ s t b. open_three s;
  set_reuse = λ s fd. s;
  bind = λ s fd address port. (not (port == 0), s);
  listen = λ s fd n. (false, s);
  close = λ s fd. not (fd == 3) && s;
  inet_addr = λ ip. 0;
  is_open = λ s fd. fd == 3 && s;
}

open-open_three :
    (s : Bool) (fd : ℕ)
    → (fd == 3 && (open_three s).1) ≡ (returned (open_three s).0 fd || (fd == 3 && s))
open-open_three true fd = refl
open-open_three false fd = ground arith

fresh-open_three : (s : Bool) (fd : ℕ) → (open_three s).0 ≡ some fd → (fd == 3 && s) ≡ false
fresh-open_three true fd e = cc
fresh-open_three false fd e = ground arith

open-close_three :
    (s : Bool) (i fd : ℕ) → (fd == 3 && (not (i == 3) && s)) ≡ (not (fd == i) && (fd == 3 && s))
open-close_three s i fd = ground arith

pub one_socket-IsLawful : Sockets.IsLawful one_socket
one_socket-IsLawful = record {
  open-socket = λ s t b fd. open-open_three s fd;
  socket-fresh = λ s t b fd. fresh-open_three s fd;
  open-set_reuse = λ s i fd. refl;
  open-bind = λ s i address port fd. refl;
  open-listen = λ s i n fd. refl;
  open-close = λ s i fd. open-close_three s i fd;
}
