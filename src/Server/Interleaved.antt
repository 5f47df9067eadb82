-- ===== src/Server/Interleaved.antt =====
-- PutKVServer of server/rpc.go with what other handlers do during its loop over serverMap. It has
-- freed the mutex of the membership list by then and still holds that of the store, so these are
-- the handlers that do not use the store.
pub mod Writing
pub mod Round
use psk_db.Prelude.{String, Option, none, some, List, [], ◌∷◌, ◌++◌}
use psk_db.Dict.{lookup, insert}
use psk_db.Common.{PutKvServerRequest, PutKvServerReply}
use psk_db.Server.State.{
  KeyValueInfo, process_remote_write as process_remote_write_call, Call, Action, sent, Server,
}
use psk_db.Server.Connect.{Dial, connect}
use psk_db.Server.Store.{put_entry}
use psk_db.Server.Step.{
  Event, joins, new_server, heartbeat, killed, create, break, kill, put, get, remote_write, kv_data,
  stabilizes, round, call_done, run,
}

-- The event does not lock the mutex of the store.
abbrev pub WithoutStore : Event → Type 0
WithoutStore (put dial req) = ⊥
WithoutStore (get req) = ⊥
WithoutStore (remote_write req) = ⊥
WithoutStore (kv_data req) = ⊥
WithoutStore (stabilizes dial answer id) = ⊥
WithoutStore _ = Unit

abbrev pub write_call : KeyValueInfo → Call
write_call info =
    process_remote_write_call
      (record { key = info.key; value = info.value; version = info.version })

-- The iteration for the member `id`, if it is still in the list; `none` is the panic on a key that
-- the store does not have.
unfoldable pub put_send : Dial → String → String → Server → Option (Server × List Action)
unfolding connect
put_send dial key id s = elim (lookup id s.server_map) [
  | none ↦ some (s, [])
  | some serv_info ↦
      let connected = connect dial s.blacklist_map serv_info in
      let s' = record s { server_map = insert id connected s.server_map } in
      elim connected.rpc_client [
        | none ↦ some (s', [])
        | some c ↦ elim (lookup key s.key_value_map) [
          | none ↦ none
          | some info ↦ some (s', sent serv_info.id c (write_call info) ∷ [])
        ]
      ]
]

-- The loop over the ids `ids`, with the events before each iteration.
unfoldable pub put_range :
    Dial → String → (String → List Event) → List String → Server → Option (Server × List Action)
unfolding put_send
put_range dial key between [] s = some (s, [])
put_range dial key between (id ∷ ids) s = elim (run (between id) s) [
  | none ↦ none
  | some t ↦ elim (put_send dial key id t) [
    | none ↦ none
    | some (t', told) ↦ elim (put_range dial key between ids t') [
      | none ↦ none
      | some (u, more) ↦ some (u, told ++ more)
    ]
  ]
]

abbrev pub with_reply :
    KeyValueInfo → Option (Server × List Action) → Option (Server × PutKvServerReply × List Action)
with_reply info none = none
with_reply info (some (t, actions)) =
    some (t, record { key = info.key; value = info.value; version = info.version }, actions)

-- PutKVServer
unfoldable pub interleaved_put :
    Dial
    → (String → List Event)
    → List String
    → PutKvServerRequest
    → Server
    → Option (Server × PutKvServerReply × List Action)
unfolding put_range
interleaved_put dial between ids req s =
    let written = put_entry req s in
    with_reply written.0 (put_range dial req.key between ids written.1)
