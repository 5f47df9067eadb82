-- ===== src/Cluster/Network/Written.antt =====
-- Where the entries of stores and calls come from: the writes of PutKVServer (server/rpc.go).
use psk_db.Prelude.{String, ◌≡◌, Option, none, some, [], ◌∷◌, ◌++◌, In, inr}
use psk_db.Dict.{Dict}
use psk_db.Timestamp.{Timestamp}
use psk_db.Server.State.{
  KeyValueInfo, Action, sent, process_remote_write as process_remote_write_call,
  send_kv_data as send_kv_data_call,
}
use psk_db.Server.Replica.{view}
use psk_db.Server.Invariant.StoreEntries.{Entries}
use psk_db.Cluster.Network.{Puts}

-- A PutKVServer of this key made an entry with this version and value.
abbrev pub Written : Puts → String → Timestamp × String → Type 0
Written puts key register =
    (id : String) × (info : KeyValueInfo) × In (id, info) puts
    × (info.key ≡ key)
    × ((info.version, info.value) ≡ register)

abbrev pub Holds : Puts → String → Option (Timestamp × String) → Type 0
Holds puts key none = Unit
Holds puts key (some register) = Written puts key register

abbrev pub AllWritten : Puts → Dict KeyValueInfo → Type 0
AllWritten puts store = (key : String) → Holds puts key (view store key)

-- The calls that carry entries carry written ones.
abbrev pub Carries : Puts → Action → Type 0
Carries puts (sent id c (process_remote_write_call req)) =
    Written puts req.key (req.version, req.value)
Carries puts (sent id c (send_kv_data_call req)) =
    Entries req.key_value_map × AllWritten puts req.key_value_map
Carries puts _ = Unit

pub Written-append :
    (new puts : Puts) (key : String) (register : Timestamp × String)
    → Written puts key register
    → Written (new ++ puts) key register
Written-append [] puts key register w = w
Written-append (first ∷ new) puts key register w =
    let (id, info, m, e, h) = Written-append new puts key register w in (id, info, inr m, e, h)

pub Holds-append :
    (new puts : Puts) (key : String) (o : Option (Timestamp × String))
    → Holds puts key o
    → Holds (new ++ puts) key o
Holds-append new puts key none h = tt
Holds-append new puts key (some register) h = Written-append new puts key register h

pub Carries-append :
    (new puts : Puts) (action : Action) → Carries puts action → Carries (new ++ puts) action
Carries-append new puts (sent id c (process_remote_write_call req)) h =
    Written-append new puts req.key (req.version, req.value) h
Carries-append new puts (sent id c (send_kv_data_call req)) (v, h) =
    (v, λ key. Holds-append new puts key (view req.key_value_map key) (h key))
Carries-append new puts _ h = tt
