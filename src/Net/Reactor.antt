-- ===== src/Net/Reactor.antt =====
-- `ReactorCore` of include/net/core/reactor_core.hpp. The calls of the operating system are a parameter,
-- as in `Net`. A null handler, as the listening sockets have it, is `no_handler`.
pub mod Tables
pub mod Upkeep
pub mod Running
pub mod Connections
pub mod Serving
mod Tests
pub mod Lifetime
pub mod Ownership
unfoldable pub use Tables.{find, store, erase, contains, insert, erase_all}
use nebula_toolkit.Net.{Kernel, Event, EventFlags}
use nebula_toolkit.Net.Tcp
use nebula_toolkit.Net.Tcp.{TcpHandler}
use nebula_toolkit.Net.Udp
use nebula_toolkit.Net.Udp.{UdpHandler}
use nebula_toolkit.Prelude.{
  ℕ, zero, suc, Bool, true, false, not, Option, none, some, List, [], ◌∷◌, Bytes, ◌==◌,
  if◌then◌else◌, ◌>>=◌,
}
use nebula_toolkit.UnPacker.{UnPacker, DataSzCb, CheckValidCb, create_with_callbacks}

pub data Handler : Type 0 where
  no_handler : Handler
  tcp : TcpHandler → Handler
  udp : UdpHandler → Handler

-- `ShouldClose`
abbrev pub should_close : Handler → Bool
should_close no_handler = false
should_close (tcp h) = h.should_close
should_close (udp h) = h.should_close

-- what `accept4` returns: a descriptor, -1 with EAGAIN or EWOULDBLOCK, or -1 with another error
pub data Accepted : Type 0 where
  connection : ℕ → Accepted
  none_waiting accept_failed : Accepted

-- `fcntl` (F_GETFL, then F_SETFL), `epoll_ctl` (ADD, DEL), `close` and `accept4`; `true` is success
pub record Epoll (K : Kernel) : Type 0 where
  pub get_flags : K.State → ℕ → Bool
  pub set_flags : K.State → ℕ → Bool × K.State
  pub add : K.State → ℕ → Bool × K.State
  pub remove : K.State → ℕ → Bool × K.State
  pub close : K.State → ℕ → K.State
  pub accept : K.State → ℕ → Accepted × K.State

pub record Reactor : Type 0 where
  pub protocol_handlers : List (ℕ × Handler)
  pub listeners : List ℕ
  pub running : Bool
  pub head_key : Bytes
  pub tail_key : Bytes
  pub data_sz_cb : Option DataSzCb
  pub check_sz_cb : Option CheckValidCb
  pub buffer_size : ℕ
  pub exec_cb : Bool

abbrev pub new_reactor : Reactor
new_reactor = record {
  protocol_handlers = [];
  listeners = [];
  running = true;
  head_key = [];
  tail_key = [];
  data_sz_cb = none;
  check_sz_cb = none;
  buffer_size = 1024;
  exec_cb = false;
}

unfoldable pub set_conn_handler_params :
    Reactor → Bytes → Bytes → Option DataSzCb → Option CheckValidCb → Bool → ℕ → Reactor
set_conn_handler_params r head tail dc cc exec size = record r {
  head_key = head;
  tail_key = tail;
  data_sz_cb = dc;
  check_sz_cb = cc;
  exec_cb = exec;
  buffer_size = size;
}

unfoldable pub stop : Reactor → Reactor
stop r = record r { running = false }

-- a call that returns, and one that an exception leaves
pub data Outcome (S : Type 0) : Type 0 where
  done thrown : S → Reactor → Outcome S

-- `epoll_wait`: events, EINTR, or another error
pub data Waited : Type 0 where
  events : List Event → Waited
  interrupted wait_failed : Waited

-- `left_dc` and `left_cc` are what moving a `std::function` leaves in it, which is not specified; a
-- vector is left empty.
module _ (K : Kernel) (E : Epoll K) (left_dc : Option DataSzCb → Option DataSzCb)
    (left_cc : Option CheckValidCb → Option CheckValidCb) (scan_fuel rounds : ℕ) where
  unfoldable pub register_protocol : K.State → Reactor → ℕ → Handler → Bool → Outcome K.State
  register_protocol k r fd h is_listener =
      let (set, k1) = E.set_flags k fd in
      let (added, k2) = E.add k1 fd in
      if not (E.get_flags k fd)
      then thrown k r
      else if not set
      then thrown k1 r
      else if not added
      then thrown k2 r
      else done k2 (record r {
        protocol_handlers = store fd h r.protocol_handlers;
        listeners = if is_listener then insert fd r.listeners else r.listeners;
      })

  unfoldable pub unregister_fd : K.State → Reactor → ℕ → K.State × Reactor
  unregister_fd k r fd =
      let (deleted, k1) = E.remove k fd in
      (
        E.close k1 fd,
        record r {
          protocol_handlers = erase fd r.protocol_handlers;
          listeners = erase_all fd r.listeners;
        },
      )

  -- The keys and callbacks are moved into the new unpacker, and its buffer has 1024 bytes.
  unfoldable pub create_conn_handler : K.State → Reactor → ℕ → Outcome K.State
  unfolding register_protocol
  create_conn_handler k r conn_fd =
      let unpacker = create_with_callbacks r.head_key r.tail_key r.data_sz_cb r.check_sz_cb 1024 in
      let handler = Tcp.set_callback (Tcp.create conn_fd unpacker) r.exec_cb in
      register_protocol k
        (record r {
          head_key = [];
          tail_key = [];
          data_sz_cb = left_dc r.data_sz_cb;
          check_sz_cb = left_cc r.check_sz_cb;
        })
        conn_fd (tcp handler) false

  unfoldable pub handle_new_connections : ℕ → K.State → Reactor → ℕ → Option (Outcome K.State)
  handle_new_connections zero k r listen_fd = none
  handle_new_connections (suc n) k r listen_fd =
      let (accepted, k1) = E.accept k listen_fd in
      elim accepted [
        | connection conn_fd ↦ elim (create_conn_handler k1 r conn_fd) [
          | done k2 r2 ↦ handle_new_connections n k2 r2 listen_fd
          | thrown k2 r2 ↦ some (thrown k2 r2)
        ]
        | none_waiting ↦ some (done k1 r)
        | accept_failed ↦ handle_new_connections n k1 r listen_fd
      ]

  -- `HandleEvent` of a handler; a call of a null handler is undefined
  unfoldable pub handle_event : ℕ → K.State → Handler → Event → Option (K.State × Handler)
  handle_event n k no_handler event = none
  handle_event n k (tcp h) event = do
    (k', h') ← Tcp.handle_event K scan_fuel rounds n k h event
    some (k', tcp h')
  handle_event n k (udp h) event = do
    (k', h') ← Udp.handle_event K scan_fuel rounds n k h event
    some (k', udp h')

  -- an event of a descriptor with a handler; no exception leaves the handlers
  unfoldable pub handle_ready : ℕ → K.State → Reactor → Handler → Event → Option (Outcome K.State)
  unfolding unregister_fd
  handle_ready n k r h event = do
    (k1, h1) ← handle_event n k h event
    let r1 = record r { protocol_handlers = store event.fd h1 r.protocol_handlers }
    let (k2, r2) = unregister_fd k1 r1 event.fd
    some (if should_close h1 then done k2 r2 else done k1 r1)

  -- the body of the loop over the events in `Run`
  unfoldable pub process_event : ℕ → K.State → Reactor → Event → Option (Outcome K.State)
  process_event n k r event = elim (contains event.fd r.listeners) [
    | true ↦ handle_new_connections n k r event.fd
    | false ↦ elim (find event.fd r.protocol_handlers) [
      | none ↦ some (done k r)
      | some h ↦ handle_ready n k r h event
    ]
  ]

  unfoldable pub process_events : ℕ → K.State → Reactor → List Event → Option (Outcome K.State)
  process_events n k r [] = some (done k r)
  process_events n k r (e ∷ es) = elim (process_event n k r e) [
    | none ↦ none
    | some (thrown k1 r1) ↦ some (thrown k1 r1)
    | some (done k1 r1) ↦ process_events n k1 r1 es
  ]

  -- `Run`, as far as `epoll_wait` has returned; `running_` stays as it is
  unfoldable pub run : ℕ → K.State → Reactor → List Waited → Option (Outcome K.State)
  run n k r [] = some (done k r)
  run n k r (interrupted ∷ ws) = run n k r ws
  run n k r (wait_failed ∷ ws) = some (done k r)
  run n k r (events es ∷ ws) = elim (process_events n k r es) [
    | none ↦ none
    | some (thrown k1 r1) ↦ some (thrown k1 r1)
    | some (done k1 r1) ↦ run n k1 r1 ws
  ]
