-- ===== src/Cluster/Joining.antt =====
-- A server that joins a cluster at all of its servers (main of server/server.go, JoinClusterAsServer
-- and NewServerNotification of server/rpc.go).
pub mod Known
pub mod Mesh
use psk_db.Prelude.{String, List, [], ◌∷◌}
use psk_db.Server.State.{Time, NewServerNotificationRequest, Server}
use psk_db.Server.Connect.{Dial}
use psk_db.Server.Membership.{
  JoinReply, ok, duplicate_id, joining, join_cluster_as_server, new_server_notification,
}
use psk_db.Server.Startup.{add_members}
use psk_db.Server.Startup.Main.{join_request}
use psk_db.Cluster.{Cluster}
use psk_db.Cluster.Schedule.{with_state}

-- The server that joins calls JoinClusterAsServer at another one and adds the members of the reply, or
-- a server gets the NewServerNotification that another one broadcast.
pub data JoinEvent : Type 0 where
  joins_at : String → JoinEvent
  notified : String → String → JoinEvent

-- An error is a reply without a list.
abbrev pub add_reply : Time → JoinReply → Server → Server
add_reply now (ok list) s = add_members now list s
add_reply now duplicate_id s = s

-- `id` is the server that joins.
unfoldable pub join_step : (String → Dial) → Time → String → JoinEvent → Cluster → Cluster
join_step dials now id (joins_at at) cluster =
    let joined = join_cluster_as_server (dials at) now (join_request (cluster id)) (cluster at) in
    with_state id (add_reply now joined.1 (cluster id)) (with_state at joined.0 cluster)
join_step dials now id (notified from to) cluster =
    let req : NewServerNotificationRequest = record {
      id = (cluster from).curr_server_info.id;
      new_server_info = joining now (join_request (cluster id));
    } in
    with_state to (new_server_notification now req (cluster to)) cluster

unfoldable pub join_run : (String → Dial) → Time → String → List JoinEvent → Cluster → Cluster
unfolding join_step
join_run dials now id [] cluster = cluster
join_run dials now id (event ∷ events) cluster =
    join_run dials now id events (join_step dials now id event cluster)
