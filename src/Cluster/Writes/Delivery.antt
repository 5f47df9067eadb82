-- ===== src/Cluster/Writes/Delivery.antt =====
-- Whom the loop of PutKVServer (server/rpc.go) sends the write, and what they answer to a get.
use psk_db.Prelude.{
  String, Bool, ◌≡◌, refl, sym, ap, ◌∙◌, subst, some, List, [], ◌∷◌, In, inl, inr, ◌≤ℤ◌, ◌==◌,
  arith, if◌then◌else◌, Option-cases, Bool-cases,
}
use psk_db.Dict.{Dict, lookup}
use psk_db.Common.{Conn, PutKvServerRequest, GetKvServerRequest}
use psk_db.Server.State.{
  KeyValueInfo, ServerInfo, Call, Action, sent, ProcessRemoteWriteRequest,
  process_remote_write as process_remote_write_call,
}
use psk_db.Server.Connect.{Dial, connect, send, broadcast}
use psk_db.Server.Store.{put_entry, put_kv_server, get_kv_server}
use psk_db.Server.Store.Order.{VersionLe}
use psk_db.Server.Blacklist.{put_entry-links}
use psk_db.Server.Invariant.Defs.{IsValid}
use psk_db.Server.Invariant.MemberList.{id-connect}
use psk_db.Cluster.{Cluster}
use psk_db.Cluster.Schedule.{reach, target}
use psk_db.Cluster.Schedule.Reads.{after_put, get_kv_server-VersionLe}
use psk_db.Server.Store.Replies.{key-put_entry}
use psk_db.Cluster.Writes.{receive_all, written, received_all}

send-In :
    (call : Call) (member : ServerInfo) (later : List Action) (c : Conn)
    → member.rpc_client ≡ some c
    → In (sent member.id c call) (send call member later)
send-In call member later c e = rw e (inl refl)

send-In_later :
    (call : Call) (member : ServerInfo) (later : List Action) (a : Action)
    → In a later
    → In a (send call member later)
send-In_later call member later a m = elim (Option-cases member.rpc_client) [
  | inl e ↦ rw e m
  | inr (c, e) ↦ rw e (inr m)
]

reach-some :
    (dial : Dial) (blacklist : Dict Bool) (member : ServerInfo) (j : String)
    → reach dial blacklist (some member) ≡ some j
    → (c : Conn) × ((connect dial blacklist member).rpc_client ≡ some c) × (member.id ≡ j)
unfolding reach
reach-some dial blacklist member j t =
    elim (Option-cases (connect dial blacklist member).rpc_client) [
      | inl e ↦ absurd (ground (arith, e, t))
      | inr (c, e) ↦ (c, e, ground (arith, e, t))
    ]

-- The loop of a put sends to each member that it reaches.
broadcast-In :
    (dial : Dial) (blacklist : Dict Bool) (call : Call) (id j : String) (members : Dict ServerInfo)
    → reach dial blacklist (lookup id members) ≡ some j
    → (c : Conn) × In (sent j c call) (broadcast dial blacklist call members).1
unfolding broadcast reach lookup
broadcast-In dial blacklist call id j [] t = absurd (ground arith)
broadcast-In dial blacklist call id j ((i, m) ∷ members) t =
    let later = (broadcast dial blacklist call members).1 in
    let found =
      λ (b : Bool). reach dial blacklist (if b then some m else lookup id members) ≡ some j in
    elim (Bool-cases (i == id)) [
      | inl e ↦
          let (c, h, named) = reach-some dial blacklist m j (subst found e t) in
          (
            c,
            subst (λ k. In (sent k c call) (send call (connect dial blacklist m) later))
                (id-connect dial blacklist m ∙ named)
                (send-In call (connect dial blacklist m) later c h),
          )
      | inr e ↦
          let (c, m_sent) = broadcast-In dial blacklist call id j members (subst found e t) in
          (c, send-In_later call (connect dial blacklist m) later (sent j c call) m_sent)
    ]

-- After a put at a well-formed server `i`, which returns a version, let servers handle remote
-- writes, in any order, all those that the put has sent among them. If the put reached the server
-- `j`, as it found the member under the id `id` connected or could dial it, then a get of the key
-- at `j`, for a version that is no later, is answered with an entry of a version that is at least
-- that of the put, and with its value.
pub get_kv_server-receive_all :
    (dials : String → Dial) (req : PutKvServerRequest) (get : GetKvServerRequest) (i id j : String)
    (actions : List Action) (cluster : Cluster)
    → IsValid (cluster i)
    → target (dials i) id (cluster i) ≡ some j
    → ((a : Action) → In a (put_kv_server (dials i) req (cluster i)).2 → In a actions)
    → get.key ≡ req.key
    → get.version ≤ℤ (put_kv_server (dials i) req (cluster i)).1.version
    → let reader = receive_all actions (after_put (dials i) req i cluster) j in
      (x : KeyValueInfo) × (lookup get.key reader.key_value_map ≡ some x)
      × ((put_kv_server (dials i) req (cluster i)).1.version ≤ℤ x.version)
      × ((get_kv_server get reader).1.value ≡ x.value)
      × ((get_kv_server get reader).1.version ≡ x.version)
unfolding put_kv_server
get_kv_server-receive_all dials req get i id j actions cluster v t all key h =
    let entry = (put_entry req (cluster i)).0 in
    let write : ProcessRemoteWriteRequest = record {
      key = entry.key;
      value = entry.value;
      version = entry.version;
    } in
    let links = put_entry-links req (cluster i) in
    let (c, m) =
      broadcast-In (dials i) (put_entry req (cluster i)).1.blacklist_map
        (process_remote_write_call write) id j (put_entry req (cluster i)).1.server_map
        (ap (λ b. reach (dials i) b (lookup id (put_entry req (cluster i)).1.server_map)) links.1
          ∙ ap (λ (l : Dict ServerInfo). reach (dials i) (cluster i).blacklist_map (lookup id l))
              links.0
          ∙ t) in
    let reader = receive_all actions (after_put (dials i) req i cluster) j in
    let le =
      subst (λ k. VersionLe (some (written write)) (lookup k reader.key_value_map))
        (key-put_entry req (cluster i) v ∙ sym key)
        (received_all j c write actions (after_put (dials i) req i cluster) (all _ m)) in
    get_kv_server-VersionLe get (written write) reader h le
