-- ===== src/Net/Reactor/Tests.antt =====
-- Runs of the reactor on systems in memory, and the theorems about it there.
use nebula_toolkit.Net.Samples.{one_segment, segment_read, one_segment-IsPacket}
use nebula_toolkit.Net.{EventFlags}
use nebula_toolkit.RingBuffer.{RingBuffer}
use nebula_toolkit.Net.Reactor.Ownership.{destroy-run}
use nebula_toolkit.Net.Reactor.Lifetime.{destroy}
use nebula_toolkit.Net.Memory.{
  Desk, desk, desk_epoll, desk_open, desk-IsTracked, Wire, wire, wire-IsLawful, wire_epoll,
}
use nebula_toolkit.Net.Reactor.Connections.{later_connection, unregisters, at_once}
use nebula_toolkit.Net.Reactor.Serving.{run-serves}
use nebula_toolkit.Net.Reactor.Running.{run-IsKept}
use nebula_toolkit.Net.Reactor.Upkeep.{IsKept, register_protocol-IsKept}
use nebula_toolkit.Net.Reactor.{
  tcp, no_handler, Reactor, new_reactor, done, Waited, events, interrupted, find, store, erase,
  erase_all, register_protocol, unregister_fd, create_conn_handler, handle_new_connections,
  handle_event, handle_ready, process_event, process_events, run,
}
use nebula_toolkit.Net.Tcp
use nebula_toolkit.Net.Tcp.{TcpHandler, process_readable_event, read_round, handle_read, take_in}
use nebula_toolkit.Prelude.{ℕ, ◌≡◌, refl, true, false, Option, none, some, List, [], ◌∷◌, arith}
use nebula_toolkit.UnPacker.{get, create_with_callbacks, k_none, k_error}

abbrev left_empty : {A : Type 0} → Option A → Option A
left_empty f = none

-- a listener with the descriptor 3, and the parameters of the connections
abbrev listening : Reactor
listening = record new_reactor {
  protocol_handlers = (3, no_handler) ∷ [];
  listeners = 3 ∷ [];
  head_key = 9 ∷ [];
  tail_key = 8 ∷ [];
}

abbrev idle : Wire
idle = record { segments = []; log = []; arriving = [] }

listening-IsKept : IsKept listening
unfolding register_protocol store
listening-IsKept =
    register_protocol-IsKept wire wire_epoll left_empty left_empty 9 9 idle
      (record new_reactor { head_key = 9 ∷ []; tail_key = 8 ∷ [] }) 3 no_handler true
      (record { open_handlers = λ fd h e. cc; known_listeners = λ fd e. cc }) refl

abbrev no_flags : EventFlags
no_flags = record { readable = false; writable = false; error = false; hang_up = false }

-- connection 5 is accepted, and hung up
abbrev waited : List Waited
waited =
    events (record { fd = 3; event_flags = record no_flags { readable = true } } ∷ [])
    ∷ interrupted
    ∷ events (record { fd = 5; event_flags = record no_flags { hang_up = true } } ∷ [])
    ∷ []

run-waited :
    run wire wire_epoll left_empty left_empty 9 9 9
      (record idle { arriving = 5 ∷ [] })
      listening
      waited
    ≡ some (done idle (record listening { head_key = []; tail_key = [] }))
unfolding run process_events process_event handle_new_connections create_conn_handler
    register_protocol handle_ready handle_event unregister_fd store erase erase_all Tcp.handle_event
    Tcp.create Tcp.set_callback
run-waited = refl

run-IsKept_example : IsKept (record listening { head_key = []; tail_key = [] })
run-IsKept_example =
    run-IsKept wire wire_epoll left_empty left_empty 9 9 9 (record idle { arriving = 5 ∷ [] })
      listening waited listening-IsKept run-waited

-- the reactor with one connection more
abbrev connected : ℕ → Reactor → Reactor
connected fd r = record r {
  head_key = [];
  tail_key = [];
  data_sz_cb = none;
  check_sz_cb = none;
  protocol_handlers =
      store fd
        (tcp (
          Tcp.set_callback
            (Tcp.create fd
              (create_with_callbacks r.head_key r.tail_key r.data_sz_cb r.check_sz_cb 1024))
            r.exec_cb))
        r.protocol_handlers;
}

create-connected :
    (r : Reactor) (fd : ℕ)
    → create_conn_handler wire wire_epoll left_empty left_empty 9 9 idle r fd
      ≡ done idle (connected fd r)
unfolding create_conn_handler register_protocol
create-connected r fd = refl

-- an empty buffer
abbrev empty_ring : RingBuffer
empty_ring = record {
  read_index = 6;
  write_index = 6;
  len = 0;
  buffer = 0 ∷ 0 ∷ 0 ∷ 0 ∷ 0 ∷ 0 ∷ 0 ∷ 0 ∷ [];
}

-- 5 is connected, closed again, and 6 is connected.
later_connection_example :
    (h : TcpHandler) × (find 6
        (connected 6
          (unregister_fd wire wire_epoll left_empty left_empty 9 9 idle
            (connected 5 listening)
            5).1).protocol_handlers
      ≡ some (tcp h))
    × (h.unpacker.model ≡ k_none)
    × (get 9 9 (record h.unpacker { ring = empty_ring })
        ≡ some (k_error, [], record h.unpacker { ring = empty_ring }))
later_connection_example =
    later_connection wire wire_epoll left_empty left_empty 9 9 idle idle listening
      (connected 5 listening) _ 5 6 empty_ring (create-connected listening 5)
      (unregisters idle 5 at_once) (create-connected _ 6)

-- A connection waits, and its first packet behind it.
abbrev arriving : Wire
arriving = record one_segment { arriving = 5 ∷ [] }

abbrev configured : Reactor
configured = record listening { exec_cb = true }

create-configured :
    create_conn_handler wire wire_epoll left_empty left_empty 1025 2 one_segment configured 5
    ≡ done one_segment (connected 5 configured)
unfolding create_conn_handler register_protocol
create-configured = refl

run-serves_example :
    (r' : Reactor) × (h : TcpHandler) × (run wire wire_epoll left_empty left_empty 1025 2 2 arriving
        configured
        (events (record { fd = 3; event_flags = record no_flags { readable = true } } ∷ [])
          ∷ events (record { fd = 5; event_flags = record no_flags { readable = true } } ∷ [])
          ∷ [])
      ≡ some (done segment_read r'))
    × (find 5 r'.protocol_handlers ≡ some (tcp h))
    × (h.packs ≡ (9 ∷ 1 ∷ 8 ∷ []) ∷ [])
    × (h.scheduled ≡ 1)
run-serves_example =
    run-serves wire wire-IsLawful wire_epoll left_empty left_empty 1025 0 0 arriving one_segment
      one_segment one_segment segment_read segment_read configured (connected 5 configured)
      (record { fd = 3; event_flags = record no_flags { readable = true } })
      (record { fd = 5; event_flags = record no_flags { readable = true } }) (9 ∷ 1 ∷ 8 ∷ []) 2 refl
      refl refl refl one_segment-IsPacket (omega arith)
      (record { readable = refl; no_error = refl; no_hang_up = refl }) refl create-configured refl
      refl (λ room. refl)

-- the connections 5 and 6 arrive, and 5 hangs up; 0 is open all the time
abbrev waited_desk : List Waited
waited_desk =
    events (record { fd = 3; event_flags = record no_flags { readable = true } } ∷ [])
    ∷ events (record { fd = 5; event_flags = record no_flags { hang_up = true } } ∷ [])
    ∷ []

abbrev listening_desk : Desk
listening_desk = record { opened = 4 ∷ 3 ∷ 0 ∷ []; arriving = 5 ∷ 6 ∷ [] }

abbrev after_desk : Desk
after_desk = record { opened = 6 ∷ 4 ∷ 3 ∷ 0 ∷ []; arriving = [] }

run-desk :
    run desk desk_epoll left_empty left_empty 9 9 9 listening_desk listening waited_desk
    ≡ some (done after_desk (connected 6 (record listening { head_key = []; tail_key = [] })))
unfolding run process_events process_event handle_new_connections create_conn_handler
    register_protocol handle_ready handle_event unregister_fd store erase erase_all Tcp.handle_event
    Tcp.create Tcp.set_callback create_with_callbacks
run-desk = refl

destroy-run_example :
    desk_open
      (destroy desk desk_epoll after_desk 4
        (connected 6 (record listening { head_key = []; tail_key = [] })))
      6
    ≡ false
unfolding store
destroy-run_example =
    destroy-run desk desk_epoll desk_open left_empty left_empty 9 9 9 listening_desk 4 listening
      waited_desk desk-IsTracked (λ j q. ground (arith, q)) run-desk 6
