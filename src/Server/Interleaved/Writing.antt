-- ===== src/Server/Interleaved/Writing.antt =====
-- A put with other handlers in its loop (PutKVServer of server/rpc.go): what it sends and leaves.
use psk_db.Prelude.{
  String, ◌≡◌, refl, ap, ◌∙◌, subst, Option, some, List, [], ◌∷◌, ◌++◌, All, All-append, inl, inr,
  Option-cases,
}
use psk_db.Dict.{Dict, lookup, insert, lookup-insert_same}
use psk_db.Common.{Conn, PutKvServerRequest}
use psk_db.Server.State.{KeyValueInfo, Action, sent, Server}
use psk_db.Server.Connect.{Dial, connect}
use psk_db.Server.Store.{put_entry, put_kv_server}
use psk_db.Server.Store.Writes.{key_value_map-put_entry}
use psk_db.Server.Membership.{heartbeat_notification, kill_server_notification}
use psk_db.Server.Links.{create_connection, break_connection, kill_server}
use psk_db.Server.Step.{
  Event, joins, new_server, heartbeat, killed, create, break, kill, put, get, remote_write, kv_data,
  stabilizes, round, call_done, step, run,
}
use psk_db.Server.Invariant.MemberList.{insert-Members, lookup-id, id-connect}
use psk_db.Server.Invariant.Defs.{IsValid, with_list-IsValid}
use psk_db.Server.Invariant.Handlers.{put_entry-IsValid}
use psk_db.Server.Invariant.Events.{IsValidEvent, run-IsValid}
use psk_db.Server.Replica.Silent.{
  kept, Leaves, kept-join_cluster_as_server, kept-new_server_notification, kept-async_call_handler,
  heartbeat_entries-Leaves, heartbeat_round-Leaves,
}
use psk_db.Server.Interleaved.{
  WithoutStore, write_call, put_send, put_range, interleaved_put, with_reply,
}

step-Leaves : (event : Event) (s : Server) → WithoutStore event → Leaves (kept s) (step event s)
unfolding step heartbeat_notification kill_server_notification create_connection break_connection
    kill_server
step-Leaves (joins dial now req) s w = kept-join_cluster_as_server dial now req s
step-Leaves (new_server now req) s w = kept-new_server_notification now req s
step-Leaves (heartbeat now req) s w = heartbeat_entries-Leaves now req.server_info_list s
step-Leaves (killed req) s w = refl
step-Leaves (create dial now req) s w = refl
step-Leaves (break req) s w = refl
step-Leaves (kill dial) s w = refl
step-Leaves (put dial req) s w = absurd w
step-Leaves (get req) s w = absurd w
step-Leaves (remote_write req) s w = absurd w
step-Leaves (kv_data req) s w = absurd w
step-Leaves (stabilizes dial answer id) s w = absurd w
step-Leaves (round dial now perm) s w = heartbeat_round-Leaves dial now perm s
step-Leaves (call_done err id) s w = kept-async_call_handler err id s

run-Leaves :
    (events : List Event) (s : Server) → All WithoutStore events → Leaves (kept s) (run events s)
unfolding run
run-Leaves [] s w = refl
run-Leaves (event ∷ events) s w = elim (Option-cases (step event s)) [
  | inl e ↦ rw (e, run) tt
  | inr (t, e) ↦
      rw (e, run)
        (subst (λ k. Leaves k (run events t)) (subst (Leaves (kept s)) e (step-Leaves event s w.0))
          (run-Leaves events t w.1))
]

-- The action sends the entry.
abbrev pub Writes : KeyValueInfo → Action → Type 0
Writes info action = (member : String) × (c : Conn) × (action ≡ sent member c (write_call info))

-- A part of the put that goes on with a well-formed server, the same store, and such actions only.
abbrev Goes : KeyValueInfo → Dict KeyValueInfo → Option (Server × List Action) → Type 0
Goes info store result =
    (t : Server) × (actions : List Action) × (result ≡ some (t, actions))
    × IsValid t
    × (t.key_value_map ≡ store)
    × All (Writes info) actions

put_send-Goes :
    (dial : Dial) (key id : String) (s : Server) (info : KeyValueInfo)
    → IsValid s
    → lookup key s.key_value_map ≡ some info
    → Goes info s.key_value_map (put_send dial key id s)
unfolding put_send
put_send-Goes dial key id s info v h = elim (Option-cases (lookup id s.server_map)) [
  | inl e ↦ (s, [], rw (e, put_send) refl, v, refl, tt)
  | inr (member, e) ↦
      let connected = connect dial s.blacklist_map member in
      let own = lookup-id _ id s.server_map member v.members e in
      let valid =
        with_list-IsValid (insert id connected s.server_map) s
          (insert-Members _ id connected s.server_map
            (id-connect dial s.blacklist_map member ∙ own.0) own.1 v.members)
          v in
      let next = record s { server_map = insert id connected s.server_map } in
      elim (Option-cases connected.rpc_client) [
        | inl n ↦ (next, [], rw (e, put_send, n) refl, valid, refl, tt)
        | inr (c, n) ↦ (
          next,
          sent member.id c (write_call info) ∷ [],
          rw (e, put_send, n, h) refl,
          valid,
          refl,
          ((member.id, c, refl), tt),
        )
      ]
]

put_range-Goes :
    (dial : Dial) (key : String) (between : String → List Event) (ids : List String) (s : Server)
    (info : KeyValueInfo)
    → ((id : String) → All IsValidEvent (between id))
    → ((id : String) → All WithoutStore (between id))
    → IsValid s
    → lookup key s.key_value_map ≡ some info
    → Goes info s.key_value_map (put_range dial key between ids s)
unfolding put_range
put_range-Goes dial key between [] s info valid w v h = (s, [], refl, v, refl, tt)
put_range-Goes dial key between (id ∷ ids) s info valid w v h =
    let (t, ran, v_t) = run-IsValid (between id) s (valid id) v in
    let same_t = ap (λ k. k.0) (subst (Leaves (kept s)) ran (run-Leaves (between id) s (w id))) in
    let (t', told, sent_t, v_t', same_t', writes) =
      put_send-Goes dial key id t info v_t (ap (lookup key) same_t ∙ h) in
    let (u, more, rest, v_u, same_u, writes_u) =
      put_range-Goes dial key between ids t' info valid w v_t'
        (ap (lookup key) (same_t' ∙ same_t) ∙ h) in
    (
      u,
      told ++ more,
      rw (ran, put_range, sent_t, rest) refl,
      v_u,
      same_u ∙ same_t' ∙ same_t,
      All-append (Writes info) told more writes writes_u,
    )

-- At a well-formed server, let any handlers that do not lock the mutex of the store run before each
-- iteration of the loop of a put, over any ids, the data that they carry well formed and
-- rand.Perm(n) of n numbers. Then the put does not panic, returns the reply and leaves the store of
-- the put in one step, each of its actions sends the entry that it has stored as a remote write,
-- and the server is well formed.
pub interleaved_put-Writes :
    (dial : Dial) (between : String → List Event) (ids : List String) (req : PutKvServerRequest)
    (s : Server)
    → IsValid s
    → ((id : String) → All IsValidEvent (between id))
    → ((id : String) → All WithoutStore (between id))
    → (t : Server) × (actions : List Action) × (interleaved_put dial between ids req s
        ≡ some (t, (put_kv_server dial req s).1, actions))
      × IsValid t
      × (t.key_value_map ≡ (put_kv_server dial req s).0.key_value_map)
      × All (Writes (put_entry req s).0) actions
unfolding interleaved_put put_kv_server
interleaved_put-Writes dial between ids req s v valid w =
    let entry = (put_entry req s).0 in
    let stored =
      ap (lookup req.key) (key_value_map-put_entry req s)
      ∙ lookup-insert_same req.key entry s.key_value_map in
    let (t, actions, ran, v_t, same, writes) =
      put_range-Goes dial req.key between ids (put_entry req s).1 entry valid w
        (put_entry-IsValid req s v) stored in
    (t, actions, ap (with_reply entry) ran, v_t, same, writes)
