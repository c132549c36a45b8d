-- ===== src/Net/Tests.antt =====
-- Runs of the socket functions on a system in memory, and the theorem about them there.
use nebula_toolkit.Net.Memory.{one_socket, one_socket-IsLawful}
use nebula_toolkit.Net.Sockets.{create_tcp_socket, create_udp_socket, create_sockets-open}
use nebula_toolkit.Prelude.{◌≡◌, true, false, []}

-- `listen` fails, and the socket is closed again; the datagram socket is returned
create_sockets-open_example :
    (one_socket.is_open (create_tcp_socket one_socket false [] 80 true 5).1 3 ≡ false)
    × (one_socket.is_open (create_udp_socket one_socket false [] 80 true).1 3 ≡ true)
unfolding create_tcp_socket create_udp_socket
create_sockets-open_example =
    create_sockets-open one_socket one_socket-IsLawful false [] 80 true 5 3
