-- ===== src/Master/Requests.antt =====
-- put, get, stabilize, printStore and printMemberList of master.go. The error of a call has no effect
-- but a warning.
use psk_db.Prelude.{ℕ, String, Bool, Option, none, some, List, [], ◌∷◌, length, if◌then◌else◌}
use psk_db.Dict.{lookup}
use psk_db.Server.Membership.{values}
use psk_db.Master.Waiting.{Received, wait_for_acks, rounds}
use psk_db.Master.State.{
  Master, local_address, Call, put_kv_client, get_kv_client, stabilize, waiting, Action, called,
  warned, Outcome, next,
}
use psk_db.Master.Nodes.{World, with_arg}

-- printStore and printMemberList
unfoldable pub ask_server : Call → (String → Bool) → String → Master → Outcome
ask_server call reachable server_id m = elim (lookup server_id m.server_node_map) [
  | none ↦ next m (warned ∷ [])
  | some server_port ↦
      if reachable (local_address server_port)
      then next m (called (local_address server_port) call ∷ [])
      else next m (warned ∷ [])
]

-- put and get: the rest of the words is read only when the client can be reached.
unfoldable pub ask_client :
    ((Call → Outcome) → Outcome) → (String → Bool) → String → Master → Outcome
ask_client with_call reachable client_id m = elim (lookup client_id m.client_node_map) [
  | none ↦ next m (warned ∷ [])
  | some client_port ↦
      let address = local_address client_port in
      if reachable address
      then with_call (λ call. next m (called address call ∷ []))
      else next m (warned ∷ [])
]

abbrev pub put_words : List String → (Call → Outcome) → Outcome
put_words words f =
    with_arg words 2
      (λ key. with_arg words 3 (λ value. f (put_kv_client (record { key = key; value = value }))))

abbrev pub get_words : List String → (Call → Outcome) → Outcome
get_words words f = with_arg words 2 (λ key. f (get_kv_client (record { key = key })))

-- The calls of `stabilize`: one for each server that can be reached.
unfoldable pub stabilize_calls : (String → Bool) → ℕ → List ℕ → List Action
stabilize_calls reachable num_rounds [] = []
stabilize_calls reachable num_rounds (port ∷ ports) =
    let rest = stabilize_calls reachable num_rounds ports in
    if reachable (local_address port)
    then called (local_address port) (stabilize (record { rounds = num_rounds })) ∷ rest
    else warned ∷ rest

abbrev pub after_wait : Master → List Action → Option (List Received) → Outcome
after_wait m calls none = waiting calls
after_wait m calls (some later) = next m calls

-- stabilize
unfoldable pub stabilize_command : World → Master → Outcome
stabilize_command w m =
    let num_nodes = length m.server_node_map in
    after_wait m (stabilize_calls w.reachable (rounds num_nodes) (values m.server_node_map))
      (wait_for_acks num_nodes 0 w.received)
