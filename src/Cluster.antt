-- ===== src/Cluster.antt =====
-- Several servers of server/: what each holds, and the messages SendKVData of Stabilize (server/rpc.go)
-- between them, in the order in which they arrive.
pub mod Copies
pub mod Sending
pub mod Flood
pub mod Convergence
pub mod Walks
pub mod Rounds
pub mod Transfer
pub mod Mutexes
pub mod Schedule
pub mod Writes
pub mod Joining
pub mod Network
use psk_db.Prelude.{ℕ, String, List, [], ◌∷◌, ◌==◌, if◌then◌else◌}
use psk_db.Server.State.{Server}
use psk_db.Server.Store.{send_kv_data}
use psk_db.Server.Stabilize.{kv_data_request}

-- The servers by their ids.
abbrev pub Cluster : Type 0
Cluster = String → Server

-- The server `from` sends its data to the server `to`, which handles it.
unfoldable pub deliver : String × String → Cluster → Cluster
unfolding send_kv_data
deliver (from, to) cluster id =
    if to == id then send_kv_data (kv_data_request (cluster from)) (cluster to) else cluster id

-- The messages of a round.
unfoldable pub flood_round : List (String × String) → Cluster → Cluster
unfolding deliver
flood_round [] cluster = cluster
flood_round (message ∷ messages) cluster = flood_round messages (deliver message cluster)

unfoldable pub flood : List (List (String × String)) → Cluster → Cluster
unfolding flood_round
flood [] cluster = cluster
flood (messages ∷ rounds) cluster = flood rounds (flood_round messages cluster)
