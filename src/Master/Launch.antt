-- ===== src/Master/Launch.antt =====
-- The processes that joinServer and joinClient of master.go start, with the arguments that main of
-- server/server.go and of client/client.go read.
pub mod Serving
use Prim.Native.String.{◌++◌}
use text.Mathlib.TextLemmas.{append_assoc}
use psk_db.Prelude.{
  if◌then◌else◌, ℕ, ◌+◌, ◌<◌, ◌≤◌, pos, String, Bool, true, false, ◌≡◌, ◌≢◌, refl, sym, ap, ◌∙◌,
  subst, Option, none, some, List, [], ◌∷◌, All, map, arith, inl, inr, Option-cases, Bool-cases,
  if_rule,
}
use psk_db.Dict.{Dict, lookup, insert, contains}
use psk_db.Timestamp.{Timestamp, get_lamport_timestamp_from_seqnum}
use psk_db.Common.{address_of}
use psk_db.Common.Listening.{Net, Started, serving, serve}
use psk_db.Server.State.{Time, ServerInfo, Server}
use psk_db.Server.Membership.{values}
use psk_db.Server.Startup.{num_retries, Attempt, not_dialed, start, join_ports}
use psk_db.Server.Startup.Attempts.{join_ports_ends}
use psk_db.Server.Startup.Joins.{OmitsOwn, start-IsValid, join_ports-IsValid}
use psk_db.Server.Startup.Main.{main, listen}
use psk_db.Server.Invariant.Defs.{IsValid}
use psk_db.Client.{Client, new_server_info_heap, start as start_client}
use psk_db.Client.Main.{ClientInfo, client_info, main as client_main}
use psk_db.Master.State.{
  Master, Action, spawned_server, spawned_client, Outcome, next, finished, panicked, waiting, itoa,
  local_address,
}
use psk_db.Master.Waiting.{wait_for_start}
use psk_db.Master.Nodes.{World, after_start, join_server, join_client}

pub some-injective : {A : Type 0} {x y : A} → some x ≡ some y → x ≡ y
some-injective e = cc

pub local_address-itoa : (port : ℕ) → "localhost:" ++ itoa port ≡ local_address port
unfolding local_address
local_address-itoa port = refl

pub address_of-itoa : (port : ℕ) → address_of "localhost" (itoa port) ≡ local_address port
address_of-itoa port = sym (append_assoc "localhost" ":" (itoa port)) ∙ local_address-itoa port

-- The arguments of the process that the command has started, if it has.
abbrev pub started_server : Outcome → Option (List String)
started_server (next m (spawned_server args ∷ actions)) = some args
started_server (waiting (spawned_server args ∷ actions)) = some args
started_server _ = none

abbrev pub started_client : Outcome → Option (List String)
started_client (next m (spawned_client args ∷ actions)) = some args
started_client (waiting (spawned_client args ∷ actions)) = some args
started_client _ = none

abbrev pub server_args : String → Master → List String
server_args node_id m = node_id ∷ itoa m.server_next_port ∷ map itoa (values m.server_node_map)

started_server-after_start :
    (m : Master) (args : List String) (answered : Option Bool)
    → started_server (after_start m (spawned_server args) answered) ≡ some args
started_server-after_start m args none = refl
started_server-after_start m args (some true) = refl
started_server-after_start m args (some false) = refl

pub started_server-join_server :
    (w : World) (node_id : String) (m : Master) (args : List String)
    → started_server (join_server w node_id m) ≡ some args
    → args ≡ server_args node_id m
unfolding join_server
started_server-join_server w node_id m args h =
    if_rule (λ o. started_server o ≡ some args → args ≡ server_args node_id m) w.starts _ _
      (λ e h'. some-injective (sym h' ∙ started_server-after_start _ (server_args node_id m) _))
      (λ e h'. cc) h

abbrev pub client_args : String → String → ℕ → Master → List String
client_args client_node_id server_node_id server_port m =
    client_node_id ∷ itoa m.client_next_port ∷ server_node_id ∷ local_address server_port ∷ []

started_client-after_start :
    (m : Master) (args : List String) (answered : Option Bool)
    → started_client (after_start m (spawned_client args) answered) ≡ some args
started_client-after_start m args none = refl
started_client-after_start m args (some true) = refl
started_client-after_start m args (some false) = refl

started_client-starts :
    (starts : Bool) (m : Master) (args other : List String) (answered : Option Bool)
    → started_client (if starts then after_start m (spawned_client args) answered else panicked [])
      ≡ some other
    → other ≡ args
started_client-starts true m args other answered e =
    some-injective (sym e ∙ started_client-after_start m args answered)
started_client-starts false m args other answered e = absurd cc

pub started_client-join_client :
    (w : World) (client_node_id server_node_id : String) (m : Master) (args : List String)
    → started_client (join_client w client_node_id server_node_id m) ≡ some args
    → (server_port : ℕ) × (lookup server_node_id m.server_node_map ≡ some server_port)
      × (args ≡ client_args client_node_id server_node_id server_port m)
unfolding join_client
started_client-join_client w client_node_id server_node_id m args h =
    let found =
      (server_port : ℕ) × (lookup server_node_id m.server_node_map ≡ some server_port)
      × (args ≡ client_args client_node_id server_node_id server_port m) in
    let rule = λ (o : Outcome). started_client o ≡ some args → found in
    if_rule rule (contains client_node_id m.server_node_map) _ _ (λ _ e. absurd cc)
      (λ _.
        if_rule rule (contains server_node_id m.client_node_map) _ _ (λ _ e. absurd cc)
          (λ _.
            if_rule rule (contains client_node_id m.client_node_map) _ _ (λ _ e. absurd cc)
              (λ _ e. elim (Option-cases (lookup server_node_id m.server_node_map)) [
                | inl n ↦ absurd (ground (arith, n, e))
                | inr (port, n) ↦ (port, n, started_client-starts w.starts _ _ args _ (rw n at e))
              ])))
      h

pub ports-dialed :
    (attempts : ℕ → String → ℕ → Attempt) (ports : List ℕ)
    → All (λ port. (j k : ℕ) → attempts j (local_address port) k ≢ not_dialed) ports
    → All (λ port. (j k : ℕ) → attempts j ("localhost:" ++ port) k ≢ not_dialed) (map itoa ports)
ports-dialed attempts [] h = tt
ports-dialed attempts (port ∷ ports) h = (
  λ j k. subst (λ a. attempts j a k ≢ not_dialed) (sym (local_address-itoa port)) (h.0 j k),
  ports-dialed attempts ports h.1,
)
