-- ===== src/Samples/Console.antt =====
-- Sample runs of the master (master.go).
use psk_db.Prelude.{true, false, some, List, String, [], ◌∷◌, refl, arith, ◌≡◌, ◌==◌, inl, inr}
use psk_db.Dict.{lookup, insert}
use psk_db.Master.State.{
  Master, init, split, itoa, itoa_loop, local_address, Action, spawned_server, spawned_client, next,
  waiting,
}
use psk_db.Master.Waiting.{ping_answered, wait_for_start, acked, timer}
use psk_db.Master.Commands.{
  World, execute, join_server, join_client, stabilize_command, stabilize_calls,
}
use psk_db.Master.Progress.{acks, calls_made, stabilize_command_hangs}
use psk_db.Master.Script.{run_lines}
use psk_db.Master.Script.Addresses.{server, address_of_node, addresses_apart}

-- Two servers, and a client.
abbrev console : Master
console = record {
  server_node_map = ("1", 9000) ∷ ("2", 9001) ∷ [];
  server_next_port = 9002;
  client_node_map = ("7", 10000) ∷ [];
  client_next_port = 10001;
}

-- Only the server at port 9000 answers; its call ends, and then the timer fires.
abbrev world : World
world = record {
  starts = true;
  pings = λ i. ping_answered;
  patience = 9;
  reachable = λ address. address == "localhost:9000";
  received = acked false ∷ timer ∷ [];
}

stabilize_command_hangs_example :
    stabilize_command world console ≡ waiting (stabilize_calls world.reachable 1 (9000 ∷ 9001 ∷ []))
unfolding local_address itoa acks calls_made stabilize_calls
stabilize_command_hangs_example =
    stabilize_command_hangs world console (inr (inl refl)) (omega arith)

-- Two lines that start a server and a client of it.
abbrev lines : List (World × String)
lines = (world, "joinServer 3") ∷ (world, "joinClient 7 3") ∷ []

abbrev after_lines : Master
after_lines = record {
  server_node_map = ("3", 9000) ∷ [];
  server_next_port = 9001;
  client_node_map = ("7", 10000) ∷ [];
  client_next_port = 10001;
}

abbrev started_nodes : List Action
started_nodes =
    spawned_server ("3" ∷ "9000" ∷ [])
    ∷ spawned_client ("7" ∷ "10000" ∷ "3" ∷ "localhost:9000" ∷ [])
    ∷ []

run_lines_test : run_lines lines init ≡ next after_lines started_nodes
unfolding run_lines execute join_server join_client lookup insert wait_for_start split itoa
    local_address itoa_loop
run_lines_test = refl

address_test : address_of_node after_lines (server "3") ≡ some "localhost:9000"
unfolding lookup local_address itoa itoa_loop
address_test = refl

addresses_apart_example : server "3" ≡ server "3"
unfolding split
addresses_apart_example =
    addresses_apart lines after_lines started_nodes (server "3") (server "3") "localhost:9000"
      (omega arith) run_lines_test address_test address_test
