-- ===== src/Master/Nodes.antt =====
-- joinServer, killServer and joinClient of master.go, in a world that says what they meet.
use psk_db.Prelude.{
  ℕ, ◌+◌, String, Bool, true, false, Option, none, some, List, [], ◌∷◌, map, get_elem?,
  if◌then◌else◌,
}
use psk_db.Dict.{Dict, lookup, insert, delete, contains}
use psk_db.Server.Membership.{values}
use psk_db.Master.Waiting.{Ping, Received, wait_for_start}
use psk_db.Master.State.{
  Master, itoa, local_address, kill_server, killed, waiting, Action, spawned_server, spawned_client,
  called, warned, Outcome, next, panicked,
}

-- What a command meets: whether a dial succeeds, whether a process starts, what the looks at it find
-- (of which the master takes as many as `patience`), what `stabilize` receives.
pub record World : Type 0 where
  pub reachable : String → Bool
  pub starts : Bool
  pub pings : ℕ → Ping
  pub patience : ℕ
  pub received : List Received

-- commandSplit[i]
abbrev pub with_arg : List String → ℕ → (String → Outcome) → Outcome
with_arg command_split i f = elim (get_elem? command_split i) [
  | none ↦ panicked []
  | some word ↦ f word
]

-- m[id] of a map to ports: the zero value where there is none.
abbrev pub port_of : String → Dict ℕ → ℕ
port_of id ports = elim (lookup id ports) [ none ↦ 0 | some port ↦ port ]

-- The end of the loop that waits for a new process: one that does not answer is killed.
abbrev pub after_start : Master → Action → Option Bool → Outcome
after_start m spawned none = waiting (spawned ∷ [])
after_start m spawned (some true) = next m (spawned ∷ [])
after_start m spawned (some false) = next m (spawned ∷ killed ∷ [])

-- joinServer
unfoldable pub join_server : World → String → Master → Outcome
join_server w node_id m =
    let args = node_id ∷ itoa m.server_next_port ∷ map itoa (values m.server_node_map) in
    let m' = record m {
      server_node_map = insert node_id m.server_next_port m.server_node_map;
      server_next_port = m.server_next_port + 1;
    } in
    if w.starts
    then after_start m' (spawned_server args) (wait_for_start w.pings w.patience 0)
    else panicked []

-- killServer
unfoldable pub kill_server_command : (String → Bool) → String → Master → Outcome
kill_server_command reachable node_id m = elim (lookup node_id m.server_node_map) [
  | none ↦ next m (warned ∷ [])
  | some server_port ↦
      if reachable (local_address server_port)
      then next (record m { server_node_map = delete node_id m.server_node_map })
          (called (local_address server_port) kill_server ∷ [])
      else next m (warned ∷ [])
]

-- joinClient
unfoldable pub join_client : World → String → String → Master → Outcome
join_client w client_node_id server_node_id m =
    if contains client_node_id m.server_node_map
    then next m (warned ∷ [])
    else if contains server_node_id m.client_node_map
    then next m (warned ∷ [])
    else if contains client_node_id m.client_node_map
    then next m (warned ∷ [])
    else elim (lookup server_node_id m.server_node_map) [
      | none ↦ next m (warned ∷ [])
      | some server_port ↦
          let args =
            client_node_id
            ∷ itoa m.client_next_port
            ∷ server_node_id
            ∷ local_address server_port
            ∷ [] in
          let m' = record m {
            client_node_map = insert client_node_id m.client_next_port m.client_node_map;
            client_next_port = m.client_next_port + 1;
          } in
          if w.starts
          then after_start m' (spawned_client args) (wait_for_start w.pings w.patience 0)
          else panicked []
    ]
