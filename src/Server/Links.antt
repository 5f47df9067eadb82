-- ===== src/Server/Links.antt =====
-- Making and breaking connections, and the end of a server: CreateConnection, BreakConnection and
-- KillServer of server/rpc.go.
pub mod Restore
use psk_db.Prelude.{String, Bool, true, none, some, List, [], ◌∷◌, ◌++◌}
use psk_db.Dict.{Dict, lookup, insert, delete}
use psk_db.Common.{ConnectionRequest}
use psk_db.Server.State.{
  Time, ServerInfo, new_server_info_heap, new_server_notification as new_server_notification_call,
  kill_server_notification as kill_server_notification_call, Call, Action, sent, closed,
  heartbeat_stopped, Server,
}
use psk_db.Server.Connect.{Dial, get_rpc_connection, connect}
use psk_db.Server.Membership.{close}

-- CreateConnection: the address leaves the blacklist, and this server introduces itself there.
-- Whether that call succeeds changes nothing here.
unfoldable pub create_connection : Dial → Time → ConnectionRequest → Server → Server × List Action
unfolding get_rpc_connection
create_connection dial now req s =
    let blacklist_map = delete req.address s.blacklist_map in
    let call = new_server_notification_call (record {
      id = s.curr_server_info.id;
      new_server_info = new_server_info_heap now s.curr_server_info;
    }) in
    (
      record s { blacklist_map = blacklist_map },
      elim (get_rpc_connection dial blacklist_map req.address) [
        | none ↦ []
        | some c ↦ sent req.id c call ∷ closed c ∷ []
      ],
    )

-- The member's handle is closed and forgotten.
abbrev pub disconnect : String → Dict ServerInfo → Dict ServerInfo
disconnect id server_map = elim (lookup id server_map) [
  | none ↦ server_map
  | some member ↦ elim member.rpc_client [
    | none ↦ server_map
    | some c ↦ insert id (record member { rpc_client = none }) server_map
  ]
]

-- BreakConnection
unfoldable pub break_connection : ConnectionRequest → Server → Server × List Action
break_connection req s = (
  record s {
    blacklist_map = insert req.address true s.blacklist_map;
    server_map = disconnect req.id s.server_map;
  },
  elim (lookup req.id s.server_map) [ none ↦ [] | some member ↦ close member.rpc_client ],
)

-- The loop of KillServer: each call is followed by the closing of its handle, which stays in the map.
unfoldable pub say_goodbye :
    Dial → Dict Bool → Call → Dict ServerInfo → Dict ServerInfo × List Action
unfolding connect
say_goodbye dial blacklist_map call [] = ([], [])
say_goodbye dial blacklist_map call ((id, serv_info) ∷ members) =
    let connected = connect dial blacklist_map serv_info in
    let rest = say_goodbye dial blacklist_map call members in
    (
      (id, connected) ∷ rest.0,
      elim connected.rpc_client [
        | none ↦ rest.1
        | some c ↦ sent serv_info.id c call ∷ closed c ∷ rest.1
      ],
    )

-- KillServer
unfoldable pub kill_server : Dial → Server → Server × List Action
unfolding say_goodbye
kill_server dial s =
    let call = kill_server_notification_call (record { id = s.curr_server_info.id }) in
    let told = say_goodbye dial s.blacklist_map call s.server_map in
    (record s { server_map = told.0 }, told.1 ++ heartbeat_stopped ∷ [])
