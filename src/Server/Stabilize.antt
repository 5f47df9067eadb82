-- ===== src/Server/Stabilize.antt =====
-- Stabilize of server/rpc.go. The mutex of the key-value store is free during each call and that of
-- the membership list between rounds, so what other handlers do meanwhile is the parameter `others`.
use psk_db.Prelude.{
  ℕ, zero, suc, ◌+◌, String, Option, none, some, List, [], ◌∷◌, ◌++◌, if◌then◌else◌,
}
use psk_db.Dict.{Dict, lookup, insert}
use psk_db.Common.{CallError, is_err_shutdown}
use psk_db.Server.State.{
  SendKvDataRequest, ServerInfo, send_kv_data as send_kv_data_call, Action, sent, Server,
}
use psk_db.Server.Connect.{Dial, connect}
use psk_db.Server.Store.{copy_into}

abbrev pub keys {ℓ} : {V : Type ℓ} → Dict V → List String
keys [] = []
keys ((key, value) ∷ m) = key ∷ keys m

-- `if err == ErrShutdown { serv_info.rpcClient = nil }`
abbrev pub after_call : Option CallError → ServerInfo → ServerInfo
after_call none serv_info = serv_info
after_call (some err) serv_info =
    if is_err_shutdown err then record serv_info { rpc_client = none } else serv_info

-- A copy of the whole store, under the server's id.
abbrev pub kv_data_request : Server → SendKvDataRequest
kv_data_request s = record {
  key_value_map = copy_into s.key_value_map [];
  server_id = s.curr_server_info.id;
}

-- The data for the member `id`; `answer` is the error of the call, if there is one.
unfoldable pub stabilize_send :
    Dial → (String → Option CallError) → String → Server → Server × List Action
unfolding connect copy_into
stabilize_send dial answer id s = elim (lookup id s.server_map) [
  | none ↦ (s, [])
  | some serv_info ↦
      let connected = connect dial s.blacklist_map serv_info in
      let call = send_kv_data_call (kv_data_request s) in
      elim connected.rpc_client [
        | none ↦ (record s { server_map = insert id connected s.server_map }, [])
        | some c ↦ (
          record s { server_map = insert id (after_call (answer id) connected) s.server_map },
          sent serv_info.id c call ∷ [],
        )
      ]
]

-- The loop over serverMap in one round.
unfoldable pub stabilize_round :
    Dial
    → (String → Option CallError)
    → (String → Server → Server)
    → List String
    → Server
    → Server × List Action
unfolding stabilize_send
stabilize_round dial answer others [] s = (s, [])
stabilize_round dial answer others (id ∷ ids) s =
    let told = stabilize_send dial answer id (others id s) in
    let rest = stabilize_round dial answer others ids told.0 in (rest.0, told.1 ++ rest.1)

-- Stabilize, from the round `i` on; `between` is what other handlers do while it waits.
unfoldable pub stabilize :
    Dial
    → (String → Option CallError)
    → (ℕ → String → Server → Server)
    → (ℕ → Server → Server)
    → ℕ
    → ℕ
    → Server
    → Server × List Action
unfolding stabilize_round
stabilize dial answer others between zero i s = (s, [])
stabilize dial answer others between (suc rounds) i s =
    let round = stabilize_round dial answer (others i) (keys s.server_map) s in
    let rest = stabilize dial answer others between rounds (i + 1) (between i round.0) in
    (rest.0, round.1 ++ rest.1)
