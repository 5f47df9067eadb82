-- ===== src/Server/Step.antt =====
-- Everything that changes a server of server/: its RPC handlers, a round of the heartbeat thread, the
-- end of an asynchronous call, and one sending of Stabilize. Each is
-- taken as one step.
use psk_db.Prelude.{ℕ, String, Option, none, some, List, [], ◌∷◌}
use psk_db.Common.{CallError, ConnectionRequest, PutKvServerRequest, GetKvServerRequest}
use psk_db.Server.State.{
  Time, JoinClusterAsServerRequest, NewServerNotificationRequest, HeartbeatNotificationRequest,
  KillServerNotificationRequest, SendKvDataRequest, ProcessRemoteWriteRequest, Server,
}
use psk_db.Server.Connect.{Dial, async_call_handler}
use psk_db.Server.Store.{put_kv_server, get_kv_server, process_remote_write, send_kv_data}
use psk_db.Server.Membership.{
  join_cluster_as_server, new_server_notification, heartbeat_notification, kill_server_notification,
}
use psk_db.Server.Links.{create_connection, break_connection, kill_server}
use psk_db.Server.Heartbeat.{heartbeat_round}
use psk_db.Server.Stabilize.{stabilize_send}

pub data Event : Type 0 where
  joins : Dial → Time → JoinClusterAsServerRequest → Event
  new_server : Time → NewServerNotificationRequest → Event
  heartbeat : Time → HeartbeatNotificationRequest → Event
  killed : KillServerNotificationRequest → Event
  create : Dial → Time → ConnectionRequest → Event
  break : ConnectionRequest → Event
  kill : Dial → Event
  put : Dial → PutKvServerRequest → Event
  get : GetKvServerRequest → Event
  remote_write : ProcessRemoteWriteRequest → Event
  kv_data : SendKvDataRequest → Event
  stabilizes : Dial → (String → Option CallError) → String → Event
  round : Dial → Time → (ℕ → List ℕ) → Event
  call_done : Option CallError → String → Event

abbrev pub after_round {ℓ} : {A : Type ℓ} → Option (Server × A) → Option Server
after_round none = none
after_round (some (s, a)) = some s

-- The server after an event; `none` is a panic, which ends the process.
unfoldable pub step : Event → Server → Option Server
step (joins dial now req) s = some (join_cluster_as_server dial now req s).0
step (new_server now req) s = some (new_server_notification now req s)
step (heartbeat now req) s = heartbeat_notification now req s
step (killed req) s = some (kill_server_notification req s).0
step (create dial now req) s = some (create_connection dial now req s).0
step (break req) s = some (break_connection req s).0
step (kill dial) s = some (kill_server dial s).0
step (put dial req) s = some (put_kv_server dial req s).0
step (get req) s = some (get_kv_server req s).0
step (remote_write req) s = some (process_remote_write req s)
step (kv_data req) s = some (send_kv_data req s)
step (stabilizes dial answer id) s = some (stabilize_send dial answer id s).0
step (round dial now perm) s = after_round (heartbeat_round dial now perm s)
step (call_done err id) s = some (async_call_handler err id s)

unfoldable pub run : List Event → Server → Option Server
unfolding step
run [] s = some s
run (event ∷ events) s = elim (step event s) [ none ↦ none | some s' ↦ run events s' ]
