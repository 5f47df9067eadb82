-- ===== src/Server/Store.antt =====
-- The key-value store of a server: the handlers of server/rpc.go that read and write it.
pub mod Merge
pub mod Order
pub mod Exchange
pub mod Writes
pub mod Replies
pub mod Repeats
use psk_db.Prelude.{
  ℕ, zero, suc, String, Bool, Option, none, some, List, [], ◌∷◌, ◌++◌, ltb_ℤ, eqb_ℤ, if◌then◌else◌,
}
use psk_db.Dict.{Dict, lookup, insert}
use psk_db.Timestamp.{Timestamp, minus_one}
use psk_db.Common.{
  CallError, is_err_shutdown, PutKvServerRequest, PutKvServerReply, GetKvServerRequest,
  GetKvServerReply,
}
use psk_db.Server.State.{
  ServerInfo, KeyValueInfo, new_key_value_info_heap, SendKvDataRequest, ProcessRemoteWriteRequest,
  process_remote_write as process_remote_write_call, send_kv_data as send_kv_data_call, Call,
  Action, sent, Server,
}
use psk_db.Server.Clock.{
  get_and_increment_lamport_timestamp, conditional_increment_lamport_timestamp,
}
use psk_db.Server.Connect.{Dial, connect, send, broadcast}

-- AddToWriteLog
abbrev pub add_to_write_log : KeyValueInfo → Server → Server
add_to_write_log info s = record s { write_log = s.write_log ++ new_key_value_info_heap info ∷ [] }

-- keyValueMap[info.Key] = info, and AddToWriteLog
abbrev pub store_entry : String → KeyValueInfo → Server → Server
store_entry key info s =
    add_to_write_log info (record s { key_value_map = insert key info s.key_value_map })

-- The version of a key that the store does not hold.
abbrev pub version_of_new : Timestamp → Server → Timestamp × Server
version_of_new version s =
    if eqb_ℤ version minus_one
    then get_and_increment_lamport_timestamp s
    else conditional_increment_lamport_timestamp version s

-- The version of a key that the store holds as `info`.
abbrev pub version_of_old : Timestamp → KeyValueInfo → Server → Timestamp × Server
version_of_old version info s =
    if eqb_ℤ version minus_one
    then conditional_increment_lamport_timestamp info.version s
    else conditional_increment_lamport_timestamp version s

-- The write of PutKVServer: the entry that it stores and the server after it.
unfoldable pub put_entry : PutKvServerRequest → Server → KeyValueInfo × Server
unfolding get_and_increment_lamport_timestamp conditional_increment_lamport_timestamp
put_entry req s = elim (lookup req.key s.key_value_map) [
  | none ↦
      let stamped = version_of_new req.version s in
      let info : KeyValueInfo = record { key = req.key; value = req.value; version = stamped.0 } in
      (info, store_entry req.key info stamped.1)
  | some old ↦
      let stamped = version_of_old req.version old s in
      let info : KeyValueInfo = record old { value = req.value; version = stamped.0 } in
      (info, store_entry req.key info stamped.1)
]

-- PutKVServer
unfoldable pub put_kv_server :
    Dial → PutKvServerRequest → Server → Server × PutKvServerReply × List Action
put_kv_server dial req s =
    let written = put_entry req s in
    let info = written.0 in
    let s' = written.1 in
    let call =
      process_remote_write_call
        (record { key = info.key; value = info.value; version = info.version }) in
    let told = broadcast dial s'.blacklist_map call s'.server_map in
    (
      record s' { server_map = told.0 },
      record { key = info.key; value = info.value; version = info.version },
      told.1,
    )

-- GetKVServer
unfoldable pub get_kv_server : GetKvServerRequest → Server → Server × GetKvServerReply
unfolding get_and_increment_lamport_timestamp
get_kv_server req s =
    let stamped = get_and_increment_lamport_timestamp s in
    elim (lookup req.key s.key_value_map) [
      | none ↦ (stamped.1, record { key = req.key; value = "ERR_KEY"; version = stamped.0 })
      | some val ↦ (
        stamped.1,
        record {
          key = val.key;
          value = if ltb_ℤ val.version req.version then "ERR_DEP" else val.value;
          version = val.version;
        },
      )
    ]

-- ProcessRemoteWrite
unfoldable pub process_remote_write : ProcessRemoteWriteRequest → Server → Server
process_remote_write req s = elim (lookup req.key s.key_value_map) [
  | none ↦
      store_entry req.key (record { key = req.key; value = req.value; version = req.version }) s
  | some old ↦
      if ltb_ℤ old.version req.version
      then store_entry req.key (record old { value = req.value; version = req.version }) s
      else s
]

-- What SendKVData does with one key of the data.
unfoldable pub merge_entry : String → KeyValueInfo → Dict KeyValueInfo → Dict KeyValueInfo
merge_entry key info store = elim (lookup key store) [
  | none ↦ insert key (new_key_value_info_heap info) store
  | some old ↦
      if ltb_ℤ old.version info.version
      then insert key (record old { value = info.value; version = info.version }) store
      else store
]

unfoldable pub merge : Dict KeyValueInfo → Dict KeyValueInfo → Dict KeyValueInfo
unfolding merge_entry
merge [] store = store
merge ((key, info) ∷ received) store = merge received (merge_entry key info store)

-- SendKVData
unfoldable pub send_kv_data : SendKvDataRequest → Server → Server
unfolding merge
send_kv_data req s = record s { key_value_map = merge req.key_value_map s.key_value_map }

-- The copy of keyValueMap that Stabilize sends.
unfoldable pub copy_into : Dict KeyValueInfo → Dict KeyValueInfo → Dict KeyValueInfo
copy_into [] copy = copy
copy_into ((key, value) ∷ store) copy = copy_into store (insert key value copy)
