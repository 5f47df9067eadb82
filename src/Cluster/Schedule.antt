-- ===== src/Cluster/Schedule.antt =====
-- Stabilize at several servers at once (server/rpc.go): the iterations of the loops over the
-- membership lists, in any interleaving, each with the call that it makes.
pub mod Reach
pub mod Simulation
pub mod Rounds
pub mod Convergence
pub mod Reads
pub mod Greatest
use psk_db.Prelude.{String, Bool, true, Option, none, some, List, [], ◌∷◌, ◌==◌, if◌then◌else◌}
use mathlib.Core.Option
use psk_db.Dict.{Dict, lookup}
use psk_db.Common.{CallError, net_rpc}
use psk_db.Server.State.{Server, Action, sent, send_kv_data as send_kv_data_call, ServerInfo}
use psk_db.Server.Connect.{Dial, connect}
use psk_db.Server.Store.{send_kv_data}
use psk_db.Server.Stabilize.{stabilize_send}
use psk_db.Cluster.{Cluster}

abbrev pub with_state : String → Server → Cluster → Cluster
with_state id s cluster other = if id == other then s else cluster other

-- A call is handled by the server that it is meant for.
abbrev pub handle : Action → Cluster → Cluster
handle (sent to c (send_kv_data_call req)) cluster =
    with_state to (send_kv_data req (cluster to)) cluster
handle _ cluster = cluster

abbrev pub handle_all : List Action → Cluster → Cluster
handle_all [] cluster = cluster
handle_all (action ∷ actions) cluster = handle_all actions (handle action cluster)

-- How the call of an iteration ends: answered, or with an error that net/rpc makes, when the receiver
-- may have handled it.
pub data Ending : Type 0 where
  answered : Ending
  failed : Bool → String → Ending

abbrev pub error_of : Ending → Option CallError
error_of answered = none
error_of (failed handled text) = some (net_rpc text)

abbrev pub arrives : Ending → Bool
arrives answered = true
arrives (failed handled text) = handled

-- The iteration for a member of the loop at a server: the two ids, and the end of the call, if there
-- is one.
abbrev pub Iteration : Type 0
Iteration = (String × String) × Ending

unfoldable pub iteration : (String → Dial) → Iteration → Cluster → Cluster
unfolding stabilize_send
iteration dials ((from, id), ending) cluster =
    let told = stabilize_send (dials from) (λ member. error_of ending) id (cluster from) in
    let sender = with_state from told.0 cluster in
    if arrives ending then handle_all told.1 sender else sender

-- The iterations of a round, of all servers, in the order in which they happen.
unfoldable pub run_round : (String → Dial) → List Iteration → Cluster → Cluster
unfolding iteration
run_round dials [] cluster = cluster
run_round dials (first ∷ round) cluster = run_round dials round (iteration dials first cluster)

unfoldable pub run_rounds : (String → Dial) → List (List Iteration) → Cluster → Cluster
unfolding run_round
run_rounds dials [] cluster = cluster
run_rounds dials (round ∷ rounds) cluster = run_rounds dials rounds (run_round dials round cluster)

-- The iterations whose calls are handled.
unfoldable pub arrived : List Iteration → List (String × String)
arrived [] = []
arrived ((pair, ending) ∷ round) =
    let rest = arrived round in if arrives ending then pair ∷ rest else rest

-- Whom a loop calls that finds this member under an id, if it has a handle or gets one.
unfoldable pub reach : Dial → Dict Bool → Option ServerInfo → Option String
unfolding connect
reach dial blacklist none = none
reach dial blacklist (some member) =
    Option.map (λ c. member.id) (connect dial blacklist member).rpc_client

-- Whom the iteration for `id` calls.
abbrev pub target : Dial → String → Server → Option String
target dial id s = reach dial s.blacklist_map (lookup id s.server_map)

abbrev pub message_to : String → Option String → List (String × String) → List (String × String)
message_to from none later = later
message_to from (some to) later = (from, to) ∷ later

-- The messages of a round, as far as the servers reach one another in `cluster`.
unfoldable pub messages_of :
    (String → Dial) → Cluster → List (String × String) → List (String × String)
unfolding reach
messages_of dials cluster [] = []
messages_of dials cluster ((from, id) ∷ pairs) =
    message_to from (target (dials from) id (cluster from)) (messages_of dials cluster pairs)

-- The messages of a round that are handled.
abbrev pub arrivals : (String → Dial) → Cluster → List Iteration → List (String × String)
arrivals dials cluster round = messages_of dials cluster (arrived round)
