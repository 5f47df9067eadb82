-- ===== src/Server/Store/Writes.antt =====
-- What a write does (PutKVServer of server/rpc.go): where it is stored, and how its version stands to
-- the version that the client or the store had seen.
use psk_db.Prelude.{
  String, ◌≡◌, refl, ap, Option, none, some, inl, inr, arith, eqb_ℤ, eqb_ℤ_iff, ◌≤ℤ◌, ◌<ℤ◌, ◌+ℤ◌,
  ◌↔◌, eq_refl, Option-cases, Bool-cases, if◌then◌else◌, if_rule, ◌==◌,
}
use psk_db.Dict.{Dict, lookup, insert, lookup-insert, insert-Distinct, Distinct}
use psk_db.Timestamp.{Timestamp, one, minus_one}
use psk_db.Common.{PutKvServerRequest}
use psk_db.Server.State.{KeyValueInfo, Server}
use psk_db.Server.Clock.{
  get_and_increment_lamport_timestamp, conditional_increment_lamport_timestamp,
  conditional_increment,
}
use psk_db.Server.Clock.Order.{conditional_increment-lt_iff, conditional_increment-le}
use psk_db.Server.Connect.{Dial}
use psk_db.Server.Store.{put_entry, put_kv_server, version_of_new, version_of_old, merge}
use psk_db.Server.Store.Merge.{lookup-merge}
use psk_db.Server.Store.Order.{join_stale}

same_store_new :
    (version : Timestamp) (s : Server)
    → (version_of_new version s).1.key_value_map ≡ s.key_value_map
unfolding get_and_increment_lamport_timestamp conditional_increment_lamport_timestamp
same_store_new version s =
    if_rule {A = Timestamp × Server} (λ x. x.1.key_value_map ≡ s.key_value_map)
      (eqb_ℤ version minus_one) _ _ (λ _. refl) (λ _. refl)

same_store_old :
    (version : Timestamp) (old : KeyValueInfo) (s : Server)
    → (version_of_old version old s).1.key_value_map ≡ s.key_value_map
unfolding conditional_increment_lamport_timestamp
same_store_old version old s =
    if_rule {A = Timestamp × Server} (λ x. x.1.key_value_map ≡ s.key_value_map)
      (eqb_ℤ version minus_one) _ _ (λ _. refl) (λ _. refl)

pub key_value_map-put_entry :
    (req : PutKvServerRequest) (s : Server)
    → (put_entry req s).1.key_value_map ≡ insert req.key (put_entry req s).0 s.key_value_map
unfolding put_entry
key_value_map-put_entry req s = elim (Option-cases (lookup req.key s.key_value_map)) [
  | inl e ↦ rw (e, put_entry) (ap (insert req.key _) (same_store_new req.version s))
  | inr (old, e) ↦ rw (e, put_entry) (ap (insert req.key _) (same_store_old req.version old s))
]

-- The store after a write: the written entry at its key, and every other key as before.
pub lookup-put_kv_server :
    (dial : Dial) (req : PutKvServerRequest) (s : Server) (j : String)
    → lookup j (put_kv_server dial req s).0.key_value_map
      ≡ (if req.key == j then some (put_entry req s).0 else lookup j s.key_value_map)
unfolding put_kv_server
lookup-put_kv_server dial req s j =
    rw (key_value_map-put_entry req s) (lookup-insert req.key j (put_entry req s).0 s.key_value_map)

-- The written entry has the value of the request, and the reply is the entry.
pub put_kv_server-reply :
    (dial : Dial) (req : PutKvServerRequest) (s : Server)
    → ((put_kv_server dial req s).1.version ≡ (put_entry req s).0.version)
      × ((put_entry req s).0.value ≡ req.value)
unfolding put_kv_server put_entry
put_kv_server-reply dial req s = elim (Option-cases (lookup req.key s.key_value_map)) [
  | inl e ↦ rw (e, put_entry) (refl, refl)
  | inr (old, e) ↦ rw (e, put_entry) (refl, refl)
]

-- The version above which a write has to be stamped: the client's, or else the store's.
abbrev pub pivot : PutKvServerRequest → Option KeyValueInfo → Option Timestamp
pivot req none = if eqb_ℤ req.version minus_one then none else some req.version
pivot req (some old) = if eqb_ℤ req.version minus_one then some old.version else some req.version

version_of_new-pivot :
    (req : PutKvServerRequest) (s : Server) (p : Timestamp)
    → pivot req none ≡ some p
    → (version_of_new req.version s).0
      ≡ conditional_increment p s.curr_server_info.lamport_timestamp
unfolding conditional_increment_lamport_timestamp
version_of_new-pivot req s p h = elim (Bool-cases (eqb_ℤ req.version minus_one)) [
  | inl e ↦ absurd (ground (arith, e))
  | inr e ↦
      rw e
        (ap (λ t. conditional_increment t s.curr_server_info.lamport_timestamp) (ground (arith, e)))
]

version_of_old-pivot :
    (req : PutKvServerRequest) (old : KeyValueInfo) (s : Server) (p : Timestamp)
    → pivot req (some old) ≡ some p
    → (version_of_old req.version old s).0
      ≡ conditional_increment p s.curr_server_info.lamport_timestamp
unfolding conditional_increment_lamport_timestamp
version_of_old-pivot req old s p h = elim (Bool-cases (eqb_ℤ req.version minus_one)) [
  | inl e ↦
      rw e
        (ap (λ t. conditional_increment t s.curr_server_info.lamport_timestamp) (ground (arith, e)))
  | inr e ↦
      rw e
        (ap (λ t. conditional_increment t s.curr_server_info.lamport_timestamp) (ground (arith, e)))
]

pub version-put_entry :
    (req : PutKvServerRequest) (s : Server) (p : Timestamp)
    → pivot req (lookup req.key s.key_value_map) ≡ some p
    → (put_entry req s).0.version ≡ conditional_increment p s.curr_server_info.lamport_timestamp
unfolding put_entry
version-put_entry req s p h = elim (Option-cases (lookup req.key s.key_value_map)) [
  | inl e ↦ rw (e, put_entry) (version_of_new-pivot req s p (rw e at h))
  | inr (old, e) ↦ rw (e, put_entry) (version_of_old-pivot req old s p (rw e at h))
]

-- Where the client has seen a version of the key or the server holds one, a write is stamped above
-- that version, the client's first, exactly when it lies below the server's clock plus one.
pub put_kv_server-newer_iff :
    (dial : Dial) (req : PutKvServerRequest) (s : Server) (p : Timestamp)
    → pivot req (lookup req.key s.key_value_map) ≡ some p
    → (p <ℤ (put_kv_server dial req s).1.version)
      ↔ (p <ℤ s.curr_server_info.lamport_timestamp +ℤ one)
put_kv_server-newer_iff dial req s p h =
    rw ((put_kv_server-reply dial req s).0, version-put_entry req s p h)
      (conditional_increment-lt_iff p s.curr_server_info.lamport_timestamp)

put_kv_server-Distinct :
    (dial : Dial) (req : PutKvServerRequest) (s : Server)
    → Distinct s.key_value_map
    → Distinct (put_kv_server dial req s).0.key_value_map
unfolding put_kv_server
put_kv_server-Distinct dial req s d =
    rw (key_value_map-put_entry req s)
      (insert-Distinct req.key (put_entry req s).0 s.key_value_map d)

-- A write without a version, at a server without a key twice whose clock plus one has not passed
-- the entry that it holds, is lost: a replica that holds the same entry keeps it when it receives
-- the server's store.
pub put_kv_server_lost :
    (dial : Dial) (req : PutKvServerRequest) (s : Server) (old : KeyValueInfo)
    (replica : Dict KeyValueInfo)
    → Distinct s.key_value_map
    → req.version ≡ minus_one
    → lookup req.key s.key_value_map ≡ some old
    → lookup req.key replica ≡ some old
    → s.curr_server_info.lamport_timestamp +ℤ one ≤ℤ old.version
    → lookup req.key (merge (put_kv_server dial req s).0.key_value_map replica) ≡ some old
put_kv_server_lost dial req s old replica d e h k behind =
    let stamped : (put_entry req s).0.version
        ≡ conditional_increment old.version s.curr_server_info.lamport_timestamp =
      version-put_entry req s old.version (rw (h, (eqb_ℤ_iff req.version minus_one).1 e) refl) in
    rw
      (
        lookup-merge (put_kv_server dial req s).0.key_value_map replica req.key
            (put_kv_server-Distinct dial req s d),
        k,
        lookup-put_kv_server dial req s req.key,
        eq_refl req.key,
      )
      (join_stale old (put_entry req s).0 (
        rw stamped
          (conditional_increment-le old.version s.curr_server_info.lamport_timestamp behind)))
