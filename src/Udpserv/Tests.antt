-- ===== src/Udpserv/Tests.antt =====
-- udpserv/serv.go at concrete inputs.
use my_cluster.Common.{length, true, ◌≡◌, ◌++◌, refl, [], ◌∷◌, none, some, take, arith}
use my_cluster.Strings.{codes}
use my_cluster.Udpserv.{UdpServ, SendReq, new_udp_serv, datagram, read_turn, receive, close}
use my_cluster.Udpserv.Datagrams.{receive-overwritten}

abbrev server : UdpServ
server = new_udp_serv none

abbrev request : SendReq
request = record { addr = 5; data_out = codes "late" }

-- The server after `Close`, with a request that still waits.
abbrev closed_server : UdpServ
closed_server = record (close server) { send_chan = request ∷ [] }

idle : server.data_chan ≡ []
unfolding new_udp_serv
idle = refl

is_running : server.running ≡ true
unfolding new_udp_serv
is_running = refl

receive-overwritten_example :
    (receive (
      receive (
        read_turn
          (datagram 2 (codes "xyz"))
          (read_turn (datagram 1 (codes "abc")) server)))).received
    ≡ (server.received
        ++ (some 1, take (length (take 1024 (codes "abc"))) (take 1024 (codes "xyz"))) ∷ [])
      ++ (some 2, take 1024 (codes "xyz")) ∷ []
receive-overwritten_example =
    receive-overwritten 1 2 (codes "abc") (codes "xyz") server idle is_running (omega arith)
