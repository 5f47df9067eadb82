-- ===== src/Server/Connect.antt =====
-- Connections of a server to others (server/server.go): dialing, and the loops that send one call
-- to every member. What `rpc.Dial` does is the parameter `dial`.
use psk_db.Prelude.{String, Bool, Option, none, some, List, [], ◌∷◌, if◌then◌else◌}
use psk_db.Dict.{Dict, lookup, insert}
use psk_db.Common.{Conn, CallError, is_err_shutdown}
use psk_db.Server.State.{ServerInfo, Call, Action, sent, Server}

abbrev pub Dial : Type 0
Dial = String → Option Conn

-- getRPCConnection
unfoldable pub get_rpc_connection : Dial → Dict Bool → String → Option Conn
get_rpc_connection dial blacklist_map address = elim (lookup address blacklist_map) [
  | some _ ↦ none
  | none ↦ dial address
]

-- `if serv_info.rpcClient == nil { serv_info.rpcClient = getRPCConnection(serv_info.Address) }`
unfoldable pub connect : Dial → Dict Bool → ServerInfo → ServerInfo
unfolding get_rpc_connection
connect dial blacklist_map serv_info = elim serv_info.rpc_client [
  | none ↦ record serv_info { rpc_client = get_rpc_connection dial blacklist_map serv_info.address }
  | some c ↦ serv_info
]

-- `if rpc_client == nil { continue }`, then the call.
abbrev pub send : Call → ServerInfo → List Action → List Action
send call serv_info later = elim serv_info.rpc_client [
  | none ↦ later
  | some c ↦ sent serv_info.id c call ∷ later
]

-- The loop over serverMap that sends one call to all: it leaves the map with the new handles.
unfoldable pub broadcast : Dial → Dict Bool → Call → Dict ServerInfo → Dict ServerInfo × List Action
unfolding connect
broadcast dial blacklist_map call [] = ([], [])
broadcast dial blacklist_map call ((id, serv_info) ∷ members) =
    let connected = connect dial blacklist_map serv_info in
    let rest = broadcast dial blacklist_map call members in
    ((id, connected) ∷ rest.0, send call connected rest.1)

-- AsyncCallHandler, once the call is done.
unfoldable pub async_call_handler : Option CallError → String → Server → Server
async_call_handler none id s = s
async_call_handler (some err) id s =
    if is_err_shutdown err
    then elim (lookup id s.server_map) [
      | none ↦ s
      | some serv_info ↦ record s {
        server_map = insert id (record serv_info { rpc_client = none }) s.server_map;
      }
    ]
    else s
