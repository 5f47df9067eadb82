-- ===== src/Server/Store/Replies.antt =====
-- What a client is told: the replies of GetKVServer and PutKVServer of server/rpc.go.
use psk_db.Prelude.{
  ◌≡◌, refl, none, some, ◌<ℤ◌, ltb_ℤ→lt, ◌⊎◌, inl, inr, ltb_ℤ, ◌≤ℤ◌, not-ltb_ℤ→le, Option-cases,
  Bool-cases,
}
use psk_db.Dict.{lookup}
use psk_db.Common.{PutKvServerRequest, GetKvServerRequest, GetKvServerReply}
use psk_db.Server.State.{KeyValueInfo, Server}
use psk_db.Server.Clock.{get_and_increment_lamport_timestamp}
use psk_db.Server.Store.{get_kv_server, put_entry}
use psk_db.Server.Invariant.Defs.{IsValid}
use psk_db.Server.Invariant.StoreEntries.{lookup-key}

-- The key that was asked for, and an error text or a version that is recent enough.
abbrev pub IsFresh : GetKvServerRequest → GetKvServerReply → Type 0
IsFresh req reply =
    (reply.key ≡ req.key)
    × ((reply.value ≡ "ERR_KEY") ⊎ (reply.value ≡ "ERR_DEP") ⊎ (req.version ≤ℤ reply.version))

-- A well-formed server answers a read with the key that was asked for and with "ERR_KEY", "ERR_DEP"
-- or an entry whose version is at least the one in the request.
pub get_kv_server-IsFresh :
    (req : GetKvServerRequest) (s : Server) → IsValid s → IsFresh req (get_kv_server req s).1
unfolding get_kv_server
get_kv_server-IsFresh req s v = elim (Option-cases (lookup req.key s.key_value_map)) [
  | inl e ↦ rw (e, get_kv_server) (refl, inl refl)
  | inr (val, e) ↦ elim (Bool-cases (ltb_ℤ val.version req.version)) [
    | inl old ↦
        rw (e, get_kv_server, old)
          (lookup-key req.key s.key_value_map val v.entries e, inr (inl refl))
    | inr new ↦
        rw (e, get_kv_server, new)
          (
            lookup-key req.key s.key_value_map val v.entries e,
            inr (inr (not-ltb_ℤ→le val.version req.version new)),
          )
  ]
]

-- The reply to a read, by what the server holds of the key: nothing, an entry older than the client
-- has seen, or one that is recent enough, whose value and version are then the reply's.
abbrev pub IsAnswer : GetKvServerRequest → Server → GetKvServerReply → Type 0
IsAnswer req s reply =
    ((lookup req.key s.key_value_map ≡ none)
      × (reply.value ≡ "ERR_KEY")
      × (reply.version ≡ s.curr_server_info.lamport_timestamp))
    ⊎ ((held : KeyValueInfo) × (lookup req.key s.key_value_map ≡ some held)
        × (reply.version ≡ held.version)
        × (((held.version <ℤ req.version) × (reply.value ≡ "ERR_DEP"))
            ⊎ ((req.version ≤ℤ held.version) × (reply.value ≡ held.value))))

-- A well-formed server answers a get under the key that was asked for. If it does not hold the key,
-- the reply is "ERR_KEY" with the reading of its clock. Else the version of the reply is the one
-- that it holds, and the value is "ERR_DEP" if that version is older than the one in the request,
-- and the value that it holds if it is not. The store stays as it is.
pub get_kv_server-IsAnswer :
    (req : GetKvServerRequest) (s : Server)
    → IsValid s
    → ((get_kv_server req s).1.key ≡ req.key)
      × IsAnswer req s (get_kv_server req s).1
      × ((get_kv_server req s).0.key_value_map ≡ s.key_value_map)
unfolding get_kv_server get_and_increment_lamport_timestamp
get_kv_server-IsAnswer req s v = elim (Option-cases (lookup req.key s.key_value_map)) [
  | inl e ↦ rw (e, get_kv_server) (refl, inl (refl, refl, refl), refl)
  | inr (held, e) ↦ elim (Bool-cases (ltb_ℤ held.version req.version)) [
    | inl old ↦
        rw (e, get_kv_server, old)
          (
            lookup-key req.key s.key_value_map held v.entries e,
            inr (held, refl, refl, inl (ltb_ℤ→lt held.version req.version old, refl)),
            refl,
          )
    | inr new ↦
        rw (e, get_kv_server, new)
          (
            lookup-key req.key s.key_value_map held v.entries e,
            inr (held, refl, refl, inr (not-ltb_ℤ→le held.version req.version new, refl)),
            refl,
          )
  ]
]

-- A put stores its entry under its own key.
pub key-put_entry :
    (req : PutKvServerRequest) (s : Server) → IsValid s → (put_entry req s).0.key ≡ req.key
unfolding put_entry
key-put_entry req s v = elim (Option-cases (lookup req.key s.key_value_map)) [
  | inl e ↦ rw (e, put_entry) refl
  | inr (old, e) ↦ rw (e, put_entry) (lookup-key req.key s.key_value_map old v.entries e)
]
