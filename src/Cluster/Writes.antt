-- ===== src/Cluster/Writes.antt =====
-- A put at one server and the remote writes that it sends (PutKVServer and ProcessRemoteWrite of
-- server/rpc.go), as the other servers handle them.
pub mod Delivery
use psk_db.Prelude.{
  String, Bool, ◌≡◌, refl, sym, ap, ◌∙◌, subst, some, List, [], ◌∷◌, In, inl, inr, ◌≤ℤ◌, ◌==◌,
  arith, eq_iff, eq_refl, if◌then◌else◌, if_rule, Option-cases, Bool-cases,
}
use psk_db.Dict.{Dict, lookup}
use psk_db.Common.{Conn, PutKvServerRequest, GetKvServerRequest}
use psk_db.Server.State.{
  KeyValueInfo, Server, ServerInfo, Call, Action, sent, ProcessRemoteWriteRequest,
  process_remote_write as process_remote_write_call,
}
use psk_db.Server.Connect.{Dial, connect, send, broadcast}
use psk_db.Server.Store.{put_entry, put_kv_server, get_kv_server, process_remote_write}
use psk_db.Server.Store.Merge.{join, lookup-merge}
use psk_db.Server.Store.Order.{
  VersionLe, VersionLe-refl, VersionLe-trans, VersionLe-join_left, VersionLe-join_right,
}
use psk_db.Server.Store.Exchange.{process_remote_write-merge}
use psk_db.Server.Blacklist.{put_entry-links}
use psk_db.Server.Invariant.Defs.{IsValid}
use psk_db.Server.Invariant.StoreEntries.{lookup-key}
use psk_db.Server.Invariant.MemberList.{id-connect}
use psk_db.Cluster.{Cluster}
use psk_db.Cluster.Flood.{held}
use psk_db.Cluster.Schedule.{with_state, reach, target}
use psk_db.Cluster.Schedule.Reads.{after_put, get_kv_server-VersionLe}

-- A remote write is handled by the server that it is meant for.
unfoldable pub receive : Action → Cluster → Cluster
receive (sent to c (process_remote_write_call req)) cluster =
    with_state to (process_remote_write req (cluster to)) cluster
receive _ cluster = cluster

-- Remote writes, in the order in which they are handled.
unfoldable pub receive_all : List Action → Cluster → Cluster
unfolding receive
receive_all [] cluster = cluster
receive_all (action ∷ actions) cluster = receive_all actions (receive action cluster)

abbrev pub written : ProcessRemoteWriteRequest → KeyValueInfo
written req = record { key = req.key; value = req.value; version = req.version }

lookup-process_remote_write :
    (req : ProcessRemoteWriteRequest) (s : Server) (key : String)
    → lookup key (process_remote_write req s).key_value_map
      ≡ join (lookup key s.key_value_map) (lookup key ((req.key, written req) ∷ []))
unfolding lookup
lookup-process_remote_write req s key =
    ap (lookup key) (process_remote_write-merge req s)
    ∙ lookup-merge ((req.key, written req) ∷ []) s.key_value_map key (refl, tt)

VersionLe-process_remote_write :
    (req : ProcessRemoteWriteRequest) (s : Server) (key : String)
    → VersionLe (lookup key s.key_value_map) (lookup key (process_remote_write req s).key_value_map)
VersionLe-process_remote_write req s key =
    subst (VersionLe (lookup key s.key_value_map)) (sym (lookup-process_remote_write req s key))
      (VersionLe-join_left (lookup key s.key_value_map) (lookup key ((req.key, written req) ∷ [])))

-- No remote write makes a server forget.
VersionLe-receive :
    (action : Action) (cluster : Cluster) (key j : String)
    → VersionLe (held key cluster j) (held key (receive action cluster) j)
unfolding receive
VersionLe-receive (sent to c (process_remote_write_call req)) cluster key j =
    if_rule (λ (s : Server). VersionLe (held key cluster j) (lookup key s.key_value_map)) (to == j)
      _ _
      (λ e.
        subst
          (λ k.
            VersionLe (held key cluster k)
              (lookup key (process_remote_write req (cluster to)).key_value_map))
          ((eq_iff to j).0 e) (VersionLe-process_remote_write req (cluster to) key))
      (λ _. VersionLe-refl (held key cluster j))
VersionLe-receive _ cluster key j = VersionLe-refl (held key cluster j)

VersionLe-receive_all :
    (actions : List Action) (cluster : Cluster) (key j : String)
    → VersionLe (held key cluster j) (held key (receive_all actions cluster) j)
unfolding receive_all
VersionLe-receive_all [] cluster key j = VersionLe-refl (held key cluster j)
VersionLe-receive_all (action ∷ actions) cluster key j =
    VersionLe-trans (held key cluster j) (held key (receive action cluster) j)
      (held key (receive_all actions (receive action cluster)) j)
      (VersionLe-receive action cluster key j)
      (VersionLe-receive_all actions (receive action cluster) key j)

-- The receiver has the write, or a later one.
received :
    (j : String) (c : Conn) (req : ProcessRemoteWriteRequest) (cluster : Cluster)
    → VersionLe
        (some (written req))
        (held req.key (receive (sent j c (process_remote_write_call req)) cluster) j)
unfolding receive lookup
received j c req cluster = rw (eq_refl j) (
    subst (VersionLe (some (written req)))
      (sym (lookup-process_remote_write req (cluster j) req.key ∙ rw (eq_refl req.key) refl))
      (VersionLe-join_right (held req.key cluster j) (some (written req))))

pub received_all :
    (j : String) (c : Conn) (req : ProcessRemoteWriteRequest) (actions : List Action)
    (cluster : Cluster)
    → In (sent j c (process_remote_write_call req)) actions
    → VersionLe (some (written req)) (held req.key (receive_all actions cluster) j)
unfolding receive_all
received_all j c req [] cluster m = absurd (m tt)
received_all j c req (action ∷ actions) cluster (inl e) =
    VersionLe-trans (some (written req)) (held req.key (receive action cluster) j)
      (held req.key (receive_all actions (receive action cluster)) j)
      (subst (λ a. VersionLe (some (written req)) (held req.key (receive a cluster) j)) (sym e)
        (received j c req cluster))
      (VersionLe-receive_all actions (receive action cluster) req.key j)
received_all j c req (action ∷ actions) cluster (inr m) =
    received_all j c req actions (receive action cluster) m
