-- ===== src/Server/Replica.antt =====
-- What a server promises of its store (README.md, Ensuring Consistency), without the order of the
-- entries, the clock and the membership list: a register for each key, where the greater version
-- stays.
pub mod Silent
pub mod Refinement
pub mod Monotone
pub mod Log
use psk_db.Prelude.{String, ◌≡◌, Option, none, some, ltb_ℤ, ◌==◌, if◌then◌else◌}
use psk_db.Dict.{Dict, lookup}
use psk_db.Timestamp.{Timestamp}
use psk_db.Server.State.{KeyValueInfo}
use psk_db.Server.Step.{Event, put, remote_write, kv_data}

-- The version and the value under a key, if there is one.
abbrev pub View : Type 0
View = String → Option (Timestamp × String)

abbrev pub seen : Option KeyValueInfo → Option (Timestamp × String)
seen none = none
seen (some info) = some (info.version, info.value)

abbrev pub view : Dict KeyValueInfo → View
view store key = seen (lookup key store)

-- The register after it has received another one's content: its own on a tie.
abbrev pub later :
    Option (Timestamp × String) → Option (Timestamp × String) → Option (Timestamp × String)
later none received = received
later (some own) none = some own
later (some own) (some received) = if ltb_ℤ own.0 received.0 then some received else some own

-- The registers after a write of one of them.
abbrev pub with_register : String → Option (Timestamp × String) → View → View
with_register key register registers other = if key == other then register else registers other

-- What an event may do to the registers: a put writes its value under some version, the data of
-- others are received, and nothing else changes them.
abbrev pub Allowed : Event → View → View → Type 0
Allowed (put dial req) before after =
    (version : Timestamp) × ((key : String)
      → after key ≡ with_register req.key (some (version, req.value)) before key)
Allowed (remote_write req) before after =
    (key : String)
    → after key
      ≡ with_register req.key (later (before req.key) (some (req.version, req.value))) before key
Allowed (kv_data req) before after =
    (key : String) → after key ≡ later (before key) (view req.key_value_map key)
Allowed _ before after = (key : String) → after key ≡ before key
