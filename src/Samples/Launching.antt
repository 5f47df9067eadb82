-- ===== src/Samples/Launching.antt =====
-- Processes that the master starts (master.go, main of server/server.go and of client/client.go).
use psk_db.Prelude.{ℕ, String, pos, true, ◌≡◌, refl, some, [], ◌∷◌, arith, ◌+ℤ◌}
use psk_db.Dict.{lookup}
use psk_db.Timestamp.{get_lamport_timestamp_from_seqnum}
use psk_db.Common.Listening.{Net, serving}
use psk_db.Server.State.{Server}
use psk_db.Server.Startup.{Attempt, joined}
use psk_db.Server.Startup.Joins.{OmitsOwn}
use psk_db.Server.Startup.Main.{main}
use psk_db.Server.Invariant.Defs.{IsValid}
use psk_db.Client.{new_server_info_heap}
use psk_db.Client.Main.{ClientInfo, main as client_main}
use psk_db.Master.State.{Master, local_address}
use psk_db.Master.Waiting.{ping_answered, wait_for_start}
use psk_db.Master.Nodes.{World, join_server, join_client}
use psk_db.Master.Launch.{started_server, started_client, server_args, client_args}
use psk_db.Master.Launch.Serving.{server_serves, client_serves}
use psk_db.Samples.{member_of}

abbrev net : Net String ℕ
net = record { resolve = λ text. some text; listen = λ address. some 5 }

abbrev one_server : Master
one_server = record {
  server_node_map = ("1", 9000) ∷ [];
  server_next_port = 9001;
  client_node_map = [];
  client_next_port = 10000;
}

abbrev world : World
world = record {
  starts = true;
  pings = λ i. ping_answered;
  patience = 9;
  reachable = λ address. true;
  received = [];
}

abbrev attempts : ℕ → String → ℕ → Attempt
attempts j address k = joined (member_of "1" "9000" ∷ [])

started_two : started_server (join_server world "2" one_server) ≡ some (server_args "2" one_server)
unfolding join_server wait_for_start
started_two = refl

number_two : get_lamport_timestamp_from_seqnum (pos 1) "2" ≡ some (pos 1_200_000)
unfolding get_lamport_timestamp_from_seqnum ◌+ℤ◌
number_two = refl

not_two : OmitsOwn "2" (joined (member_of "1" "9000" ∷ []))
not_two = (refl, tt)

server_serves_example :
    (s : Server) × (main net 9 attempts 4 (server_args "2" one_server) ≡ serving s 5)
    × IsValid s
    × (s.curr_server_info.id ≡ "2")
    × (s.curr_server_info.address ≡ local_address 9001)
server_serves_example =
    server_serves net 9 attempts 4 world "2" one_server (server_args "2" one_server) (pos 1_200_000)
      (local_address 9001) 5 started_two number_two ((λ j k e. cc), tt) (λ j address k. not_two)
      (omega arith) refl refl

started_client_seven :
    started_client (join_client world "7" "1" one_server)
    ≡ some (client_args "7" "1" 9000 one_server)
unfolding join_client wait_for_start lookup
started_client_seven = refl

client_serves_example :
    (c : ClientInfo) × (client_main net (client_args "7" "1" 9000 one_server) ≡ serving c 5)
    × (c.id ≡ "7")
    × (c.address ≡ local_address 10000)
    × (server_port : ℕ) × (lookup "1" one_server.server_node_map ≡ some server_port)
    × (c.state.serv_map ≡ ("1", new_server_info_heap "1" (local_address server_port)) ∷ [])
client_serves_example =
    client_serves net world "7" "1" one_server (client_args "7" "1" 9000 one_server)
      (local_address 10000) 5 started_client_seven refl refl
