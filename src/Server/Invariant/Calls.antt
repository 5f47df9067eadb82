-- ===== src/Server/Invariant/Calls.antt =====
-- The well-formedness of a server under the other handlers of server/rpc.go and server/server.go.
use psk_db.Prelude.{
  String, ◌≡◌, refl, ◌∙◌, Option, none, some, List, arith, inl, inr, Option-cases, if_rule, ◌==◌,
}
use psk_db.Dict.{Dict, lookup}
use psk_db.Common.{CallError, is_err_shutdown, PutKvServerRequest, GetKvServerRequest}
use psk_db.Server.State.{
  Time, ServerInfo, KeyValueInfo, JoinClusterAsServerRequest, NewServerNotificationRequest,
  ProcessRemoteWriteRequest, Server, Action,
}
use psk_db.Server.Connect.{Dial, connect, async_call_handler}
use psk_db.Server.Store.{put_kv_server, get_kv_server, process_remote_write}
use psk_db.Server.Store.Exchange.{process_remote_write-merge}
use psk_db.Server.Membership.{JoinReply, join_cluster_as_server, new_server_notification}
use psk_db.Server.Stabilize.{after_call, stabilize_send}
use psk_db.Server.Invariant.MemberList.{insert-Members, lookup-id, broadcast-Members, id-connect}
use psk_db.Server.Invariant.StoreEntries.{Entries, merge-Entries}
use psk_db.Server.Invariant.Defs.{IsValid, with_list-IsValid, get_and_increment-IsValid}
use psk_db.Server.Invariant.Handlers.{put_entry-IsValid}

pub join_cluster_as_server-IsValid :
    (dial : Dial) (now : Time) (req : JoinClusterAsServerRequest) (s : Server)
    → IsValid s
    → IsValid (join_cluster_as_server dial now req s).0
unfolding join_cluster_as_server
join_cluster_as_server-IsValid dial now req s v = elim (Option-cases (lookup req.id s.server_map)) [
  | inl e ↦
      rw (e, join_cluster_as_server)
        (if_rule {A = Server × JoinReply × List Action} (λ r. IsValid r.0)
          (s.curr_server_info.id == req.id) _ _ (λ _. v)
          (λ other.
            with_list-IsValid _ s
              (insert-Members _ req.id _ _ refl other
                (broadcast-Members dial s.blacklist_map _ _ s.server_map v.members))
              v))
  | inr (member, e) ↦ rw (e, join_cluster_as_server) v
]

pub new_server_notification-IsValid :
    (now : Time) (req : NewServerNotificationRequest) (s : Server)
    → IsValid s
    → IsValid (new_server_notification now req s)
unfolding new_server_notification
new_server_notification-IsValid now req s v =
    elim (Option-cases (lookup req.new_server_info.id s.server_map)) [
      | inl e ↦
          rw (e, new_server_notification)
            (if_rule IsValid (s.curr_server_info.id == req.new_server_info.id) _ _ (λ _. v)
              (λ other.
                with_list-IsValid _ s (insert-Members _ _ _ s.server_map refl other v.members) v))
      | inr (member, e) ↦ rw (e, new_server_notification) v
    ]

pub put_kv_server-IsValid :
    (dial : Dial) (req : PutKvServerRequest) (s : Server)
    → IsValid s
    → IsValid (put_kv_server dial req s).0
unfolding put_kv_server
put_kv_server-IsValid dial req s v =
    let w = put_entry-IsValid req s v in
    with_list-IsValid _ _ (broadcast-Members dial _ _ _ _ w.members) w

pub get_kv_server-IsValid :
    (req : GetKvServerRequest) (s : Server) → IsValid s → IsValid (get_kv_server req s).0
unfolding get_kv_server
get_kv_server-IsValid req s v = elim (Option-cases (lookup req.key s.key_value_map)) [
  | inl e ↦ rw (e, get_kv_server) (get_and_increment-IsValid s v)
  | inr (val, e) ↦ rw (e, get_kv_server) (get_and_increment-IsValid s v)
]

pub with_store-IsValid :
    (store : Dict KeyValueInfo) (s : Server)
    → Entries store
    → IsValid s
    → IsValid (record s { key_value_map = store })
with_store-IsValid store s e v = record { members = v.members; entries = e; clock = v.clock }

curr_server_info-process_remote_write :
    (req : ProcessRemoteWriteRequest) (s : Server)
    → ((process_remote_write req s).curr_server_info ≡ s.curr_server_info)
      × ((process_remote_write req s).server_map ≡ s.server_map)
unfolding process_remote_write
curr_server_info-process_remote_write req s = ground arith

pub process_remote_write-IsValid :
    (req : ProcessRemoteWriteRequest) (s : Server)
    → IsValid s
    → IsValid (process_remote_write req s)
unfolding lookup
process_remote_write-IsValid req s v =
    let same = curr_server_info-process_remote_write req s in
    record {
      members = rw (same.0, same.1) v.members;
      entries =
          rw process_remote_write-merge
            (merge-Entries _ s.key_value_map (refl, refl, tt) v.entries);
      clock = rw same.0 v.clock;
    }

id-after_call :
    (err : Option CallError) (member : ServerInfo) → (after_call err member).id ≡ member.id
id-after_call none member = refl
id-after_call (some err) member =
    if_rule (λ (m : ServerInfo). m.id ≡ member.id) (is_err_shutdown err) _ _ (λ _. refl) (λ _. refl)

pub stabilize_send-IsValid :
    (dial : Dial) (answer : String → Option CallError) (id : String) (s : Server)
    → IsValid s
    → IsValid (stabilize_send dial answer id s).0
unfolding stabilize_send
stabilize_send-IsValid dial answer id s v = elim (Option-cases (lookup id s.server_map)) [
  | inl e ↦ rw (e, stabilize_send) v
  | inr (member, e) ↦
      let k = lookup-id _ id s.server_map member v.members e in
      let connected = connect dial s.blacklist_map member in
      let same : connected.id ≡ id = id-connect dial s.blacklist_map member ∙ k.0 in
      elim (Option-cases connected.rpc_client) [
        | inl c ↦
            rw (e, stabilize_send, c)
              (with_list-IsValid _ s (insert-Members _ id _ _ same k.1 v.members) v)
        | inr (c, d) ↦
            rw (e, stabilize_send, d)
              (with_list-IsValid _ s
                (insert-Members _ id _ _ (id-after_call (answer id) connected ∙ same) k.1 v.members)
                v)
      ]
]

pub async_call_handler-IsValid :
    (err : Option CallError) (id : String) (s : Server)
    → IsValid s
    → IsValid (async_call_handler err id s)
unfolding async_call_handler
async_call_handler-IsValid none id s v = v
async_call_handler-IsValid (some err) id s v = elim (Option-cases (lookup id s.server_map)) [
  | inl e ↦ rw (e, async_call_handler) (if_rule IsValid (is_err_shutdown err) _ _ (λ _. v) (λ _. v))
  | inr (member, e) ↦
      let k = lookup-id _ id s.server_map member v.members e in
      rw (e, async_call_handler)
        (if_rule IsValid (is_err_shutdown err) _ _
          (λ _. with_list-IsValid _ s (insert-Members _ id _ _ k.0 k.1 v.members) v) (λ _. v))
]
