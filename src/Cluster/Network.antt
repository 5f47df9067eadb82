-- ===== src/Cluster/Network.antt =====
-- All servers of server/ with the calls that they make of one another: everything of Server.Step and
-- the joins of main, in any order, each taken as one step. A call is handled at any time after it was
-- made, or never; also more than once, which net/rpc does not do.
pub mod Written
pub mod Carried
pub mod Stores
pub mod Entering
pub mod Sound
pub mod Origin
use psk_db.Prelude.{String, Bool, true, false, ◌≡◌, Option, none, some, List, [], ◌∷◌, ◌++◌, In}
use psk_db.Dict.{lookup}
use psk_db.Common.{Conn}
use psk_db.Server.State.{
  Time, KeyValueInfo, Call, Action, sent, Server,
  new_server_notification as new_server_notification_call,
  heartbeat_notification as heartbeat_notification_call,
  kill_server_notification as kill_server_notification_call,
  process_remote_write as process_remote_write_call, send_kv_data as send_kv_data_call,
}
use psk_db.Server.Store.{put_entry, put_kv_server}
use psk_db.Server.Membership.{join_cluster_as_server, kill_server_notification}
use psk_db.Server.Links.{create_connection, break_connection, kill_server}
use psk_db.Server.Heartbeat.{heartbeat_round}
use psk_db.Server.Stabilize.{stabilize_send}
use psk_db.Server.Step.{
  Event, joins, new_server, heartbeat, killed, create, break, kill, put, get, remote_write, kv_data,
  stabilizes, round, call_done, step,
}
use psk_db.Server.Invariant.Defs.{IsValid}
use psk_db.Server.Invariant.Events.{IsValidEvent}
use psk_db.Server.Connect.{Dial}
use psk_db.Server.Startup.Main.{join_request}
use psk_db.Cluster.{Cluster}
use psk_db.Cluster.Joining.{joins_at, join_step}
use psk_db.Cluster.Schedule.{with_state}

-- The servers, and what they have done outside their processes, the last first.
pub record Network : Type 0 where
  pub servers : Cluster
  pub actions : List Action

-- The handler of a call, at the time `now`.
abbrev pub receipt : Time → Call → Event
receipt now (new_server_notification_call req) = new_server now req
receipt now (heartbeat_notification_call req) = heartbeat now req
receipt now (kill_server_notification_call req) = killed req
receipt now (process_remote_write_call req) = remote_write req
receipt now (send_kv_data_call req) = kv_data req

abbrev pub is_receipt : Event → Bool
is_receipt (new_server now req) = true
is_receipt (heartbeat now req) = true
is_receipt (killed req) = true
is_receipt (remote_write req) = true
is_receipt (kv_data req) = true
is_receipt _ = false

abbrev pub round_actions {ℓ} : {A : Type ℓ} → Option (A × List Action) → List Action
round_actions none = []
round_actions (some (a, actions)) = actions

-- What the server does outside its process in an event.
unfoldable pub actions_of : Event → Server → List Action
actions_of (joins dial now req) s = (join_cluster_as_server dial now req s).2
actions_of (killed req) s = (kill_server_notification req s).1
actions_of (create dial now req) s = (create_connection dial now req s).1
actions_of (break req) s = (break_connection req s).1
actions_of (kill dial) s = (kill_server dial s).1
actions_of (put dial req) s = (put_kv_server dial req s).2
actions_of (stabilizes dial answer id) s = (stabilize_send dial answer id s).1
actions_of (round dial now perm) s = round_actions (heartbeat_round dial now perm s)
actions_of _ s = []

-- The writes of PutKVServer: the id of the server, and the entry that it made.
abbrev pub Puts : Type 0
Puts = List (String × KeyValueInfo)

abbrev pub wrote : Event → Server → Puts
wrote (put dial req) s = (s.curr_server_info.id, (put_entry req s).0) ∷ []
wrote _ s = []

abbrev pub after : String → Event → Server → Network → Network
after id event s' net = record {
  servers = with_state id s' net.servers;
  actions = actions_of event (net.servers id) ++ net.actions;
}

-- A server calls JoinClusterAsServer at another one and adds the members of the reply.
abbrev pub entered : (String → Dial) → Time → String → String → Network → Network
entered dials now id at net = record {
  servers = join_step dials now id (joins_at at) net.servers;
  actions =
      (join_cluster_as_server (dials at) now (join_request (net.servers id)) (net.servers at)).2
      ++ net.actions;
}

-- Well-formed servers without entries.
abbrev pub AreNew : Cluster → Type 0
AreNew start = (id : String) → IsValid (start id) × ((start id).key_value_map ≡ [])

-- The networks that can come of `start`, with the writes on the way. Of the events, those that another
-- server's call brings about have had that call made; `rand.Perm(n)` has n numbers.
pub data Reached (start : Cluster) : Puts → Network → Type 0 where
  at_start : Reached start [] (record { servers = start; actions = [] })
  starts :
      {puts : Puts} {net : Network} (id : String) (event : Event) (s' : Server)
      → Reached start puts net
      → is_receipt event ≡ false
      → IsValidEvent event
      → step event (net.servers id) ≡ some s'
      → Reached start (wrote event (net.servers id) ++ puts) (after id event s' net)
  enters :
      {puts : Puts} {net : Network} (dials : String → Dial) (now : Time) (id at : String)
      → Reached start puts net
      → Reached start puts (entered dials now id at net)
  arrives :
      {puts : Puts} {net : Network} (id : String) (c : Conn) (now : Time) (call : Call)
      (s' : Server)
      → Reached start puts net
      → In (sent id c call) net.actions
      → step (receipt now call) (net.servers id) ≡ some s'
      → Reached start puts (after id (receipt now call) s' net)
