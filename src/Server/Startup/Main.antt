-- ===== src/Server/Startup/Main.antt =====
-- main of server/server.go, from the arguments to the listener, and PingServer of server/rpc.go.
use psk_db.Prelude.{ℕ, String, Bool, Option, none, some, List, [], ◌∷◌}
use psk_db.Common.{address_of}
use psk_db.Common.Listening.{
  Net, Started, panicked, still_joining, no_log, out_of_range, bad_id, serve,
}
use psk_db.Server.State.{Time, JoinClusterAsServerRequest, Server}
use psk_db.Server.Startup.{Attempt, start, join_ports}

-- The request that the server sends to each server of the cluster.
abbrev pub join_request : Server → JoinClusterAsServerRequest
join_request s = record {
  id = s.curr_server_info.id;
  ip_address = s.curr_server_info.ip_address;
  port_num = s.curr_server_info.port_num;
}

-- From the joined cluster on.
abbrev pub listen :
    {Addr Inbound : Type 0}
    → Net Addr Inbound
    → Option (Server × List Bool)
    → Started Server Inbound
listen net none = still_joining
listen net (some (s, connected)) =
    serve net (address_of s.curr_server_info.ip_address s.curr_server_info.port_num) s

-- main, with os.Args without the name of the program. The heartbeat thread runs once it listens.
unfoldable pub main :
    {Addr Inbound : Type 0}
    → Net Addr Inbound
    → Time
    → (ℕ → String → ℕ → Attempt)
    → ℕ
    → List String
    → Started Server Inbound
unfolding start join_ports serve
main net now attempts fuel [] = panicked no_log
main net now attempts fuel (id ∷ []) = panicked out_of_range
main net now attempts fuel (id ∷ port_num ∷ ports) = elim (start id port_num now) [
  | none ↦ panicked bad_id
  | some s ↦ listen net (join_ports now attempts fuel ports 0 s)
]

-- PingServer
abbrev pub ping_server : Server → Server
ping_server s = s
