-- ===== src/Server/Store/Exchange.antt =====
-- Two replicas that send one another their data (SendKVData of server/rpc.go).
use psk_db.Prelude.{String, ◌≡◌, some, [], ◌∷◌, arith, ≤ℤ_refl}
use psk_db.Dict.{Dict, lookup, Distinct}
use psk_db.Server.State.{KeyValueInfo, ProcessRemoteWriteRequest, Server}
use psk_db.Server.Store.{merge, process_remote_write}
use psk_db.Server.Store.Merge.{lookup-merge}
use psk_db.Server.Store.Order.{Agree, join_comm, join_stale}

-- After two replicas, neither with a key twice, have each received what the other held, they hold
-- the same entry of a key, provided that no version of the key stands for two values.
pub merge_exchange :
    (s t : Dict KeyValueInfo) (key : String)
    → Distinct s
    → Distinct t
    → Agree (lookup key s) (lookup key t)
    → lookup key (merge t s) ≡ lookup key (merge s t)
merge_exchange s t key ds dt g =
    rw (lookup-merge t s key dt, lookup-merge s t key ds)
      (join_comm (lookup key s) (lookup key t) g)

-- Two replicas, neither with a key twice, that hold a key under one version keep what they hold:
-- data sent in either direction changes the entry of neither, even if their values differ.
pub merge_tie :
    (s t : Dict KeyValueInfo) (key : String) (a b : KeyValueInfo)
    → Distinct s
    → Distinct t
    → lookup key s ≡ some a
    → lookup key t ≡ some b
    → a.version ≡ b.version
    → (lookup key (merge t s) ≡ some a) × (lookup key (merge s t) ≡ some b)
merge_tie s t key a b ds dt ha hb e = (
  rw (lookup-merge t s key dt, ha, hb) (join_stale a b (rw e (≤ℤ_refl b.version))),
  rw (lookup-merge s t key ds, ha, hb) (join_stale b a (rw e (≤ℤ_refl b.version))),
)

-- Two maps, neither with a key twice, that hold the same entry of a key have the same effect on
-- that key, so the order in which a received map is read does not matter.
pub merge_reordered :
    (received received' store : Dict KeyValueInfo) (key : String)
    → Distinct received
    → Distinct received'
    → lookup key received ≡ lookup key received'
    → lookup key (merge received store) ≡ lookup key (merge received' store)
merge_reordered received received' store key d d' e =
    rw (lookup-merge received store key d, lookup-merge received' store key d', e)

-- A remote write changes the store as the sending of the one entry does.
pub process_remote_write-merge :
    (req : ProcessRemoteWriteRequest) (s : Server)
    → (process_remote_write req s).key_value_map
      ≡ merge
          ((req.key, record { key = req.key; value = req.value; version = req.version }) ∷ [])
          s.key_value_map
unfolding process_remote_write merge
process_remote_write-merge req s = ground arith
