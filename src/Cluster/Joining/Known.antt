-- ===== src/Cluster/Joining/Known.antt =====
-- Who is still known after the calls of a server that joins (server/rpc.go).
use psk_db.Prelude.{
  String, Bool, false, ◌≡◌, ◌≢◌, refl, ap, ◌∙◌, List, [], ◌∷◌, inl, inr, ◌==◌, eq_iff, arith,
  Option-cases, if_rule, is_some,
}
use psk_db.Dict.{Dict, lookup, contains, lookup-insert_same}
use psk_db.Server.State.{
  new_server_notification as new_server_notification_call, new_server_info_heap, Time, ServerInfo,
  NewServerNotificationRequest, JoinClusterAsServerRequest, Call, Server, Action,
}
use psk_db.Server.Connect.{Dial, broadcast}
use psk_db.Server.Membership.{
  JoinReply, ok, duplicate_id, joining, join_cluster_as_server, new_server_notification,
}
use psk_db.Server.Startup.Joins.{curr_server_info-add_members}
use psk_db.Server.Startup.Handshake.{Knows, Knows-insert, add_members-Knows}
use psk_db.Cluster.Joining.{add_reply}

contains-broadcast :
    (dial : Dial) (blacklist : Dict Bool) (call : Call) (id : String) (members : Dict ServerInfo)
    → contains id (broadcast dial blacklist call members).0 ≡ contains id members
unfolding broadcast lookup
contains-broadcast dial blacklist call id [] = refl
contains-broadcast dial blacklist call id ((i, m) ∷ members) =
    ground (arith, contains-broadcast dial blacklist call id members)

abbrev join_call : Time → JoinClusterAsServerRequest → Server → Call
join_call now req s =
    new_server_notification_call
      (record { id = s.curr_server_info.id; new_server_info = joining now req })

-- No one is forgotten by JoinClusterAsServer, and the server itself stays the same.
pub join_cluster_as_server-Knows :
    (dial : Dial) (now : Time) (req : JoinClusterAsServerRequest) (s : Server) (id : String)
    → Knows id s
    → Knows id (join_cluster_as_server dial now req s).0
unfolding join_cluster_as_server
join_cluster_as_server-Knows dial now req s id h =
    elim (Option-cases (lookup req.id s.server_map)) [
      | inr (member, e) ↦ rw (e, join_cluster_as_server) h
      | inl e ↦
          rw (e, join_cluster_as_server)
            (if_rule {A = Server × JoinReply × List Action} (λ r. Knows id r.0)
              (s.curr_server_info.id == req.id) _ _ (λ _. h)
              (λ _.
                Knows-insert req.id id (joining now req)
                  (record s {
                    server_map =
                        (broadcast dial s.blacklist_map (join_call now req s) s.server_map).0;
                  })
                  (contains-broadcast dial s.blacklist_map (join_call now req s) id s.server_map
                    ∙ h)))
    ]

pub join_cluster_as_server-Knows_joined :
    (dial : Dial) (now : Time) (req : JoinClusterAsServerRequest) (s : Server)
    → s.curr_server_info.id ≢ req.id
    → Knows req.id (join_cluster_as_server dial now req s).0
unfolding join_cluster_as_server
join_cluster_as_server-Knows_joined dial now req s other =
    elim (Option-cases (lookup req.id s.server_map)) [
      | inr (member, e) ↦ rw (e, join_cluster_as_server) (ap is_some e)
      | inl e ↦
          let apart : (s.curr_server_info.id == req.id) ≡ false =
            ground (arith, eq_iff s.curr_server_info.id req.id) in
          rw (e, join_cluster_as_server, apart) (ap is_some (lookup-insert_same req.id _ _))
    ]

pub info-join_cluster_as_server :
    (dial : Dial) (now : Time) (req : JoinClusterAsServerRequest) (s : Server)
    → (join_cluster_as_server dial now req s).0.curr_server_info ≡ s.curr_server_info
unfolding join_cluster_as_server
info-join_cluster_as_server dial now req s = ground arith

pub new_server_notification-Knows :
    (now : Time) (req : NewServerNotificationRequest) (s : Server) (id : String)
    → Knows id s
    → Knows id (new_server_notification now req s)
unfolding new_server_notification
new_server_notification-Knows now req s id h =
    elim (Option-cases (lookup req.new_server_info.id s.server_map)) [
      | inr (member, e) ↦ rw (e, new_server_notification) h
      | inl e ↦
          rw (e, new_server_notification)
            (if_rule {A = Server} (Knows id) (s.curr_server_info.id == req.new_server_info.id) _ _
              (λ _. h)
              (λ _.
                Knows-insert req.new_server_info.id id
                  (new_server_info_heap now req.new_server_info) s h))
    ]

pub info-new_server_notification :
    (now : Time) (req : NewServerNotificationRequest) (s : Server)
    → (new_server_notification now req s).curr_server_info ≡ s.curr_server_info
unfolding new_server_notification
info-new_server_notification now req s = ground arith

pub add_reply-Knows :
    (now : Time) (reply : JoinReply) (s : Server) (id : String)
    → Knows id s
    → Knows id (add_reply now reply s)
add_reply-Knows now (ok list) s id h = add_members-Knows now list s id h
add_reply-Knows now duplicate_id s id h = h

pub info-add_reply :
    (now : Time) (reply : JoinReply) (s : Server)
    → (add_reply now reply s).curr_server_info ≡ s.curr_server_info
info-add_reply now (ok list) s = curr_server_info-add_members now list s
info-add_reply now duplicate_id s = refl
