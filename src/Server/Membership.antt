-- ===== src/Server/Membership.antt =====
-- The membership list of a server: the handlers of server/rpc.go that add and remove members.
use psk_db.Prelude.{
  pos, true, false, Option, none, some, List, [], ◌∷◌, ◌==◌, ltb_ℤ, max_ℤ, ◌+ℤ◌, if◌then◌else◌,
}
use psk_db.Dict.{Dict, lookup, insert, delete}
use psk_db.Timestamp.{one, floor, get_lamport_timestamp_from_seqnum}
use psk_db.Common.{Conn, address_of}
use psk_db.Server.State.{
  Time, ServerInfo, new_server_info_heap, JoinClusterAsServerRequest, NewServerNotificationRequest,
  HeartbeatNotificationRequest, KillServerNotificationRequest, GetServerInfoReply,
  new_server_notification as new_server_notification_call, Action, closed, Server,
}
use psk_db.Server.Clock.{set_lamport_timestamp}
use psk_db.Server.Connect.{Dial, broadcast}

abbrev pub values {ℓ} : {V : Type ℓ} → Dict V → List V
values [] = []
values ((key, value) ∷ m) = value ∷ values m

pub data JoinReply : Type 0 where
  ok : List ServerInfo → JoinReply
  duplicate_id : JoinReply

-- The entry that JoinClusterAsServer makes of a request.
abbrev pub joining : Time → JoinClusterAsServerRequest → ServerInfo
joining now req = record {
  id = req.id;
  ip_address = req.ip_address;
  address = address_of req.ip_address req.port_num;
  port_num = req.port_num;
  heartbeat_seqnum = pos 1;
  timestamp = now;
  alive = true;
  suspicion = false;
  lamport_timestamp = pos 0;
  rpc_client = none;
}

-- JoinClusterAsServer
unfoldable pub join_cluster_as_server :
    Dial → Time → JoinClusterAsServerRequest → Server → Server × JoinReply × List Action
unfolding broadcast
join_cluster_as_server dial now req s = elim (lookup req.id s.server_map) [
  | some _ ↦ (s, ok [], [])
  | none ↦
      if s.curr_server_info.id == req.id
      then (s, duplicate_id, [])
      else (let call =
            new_server_notification_call
              (record { id = s.curr_server_info.id; new_server_info = joining now req }) in
          let told = broadcast dial s.blacklist_map call s.server_map in
          (
            record s { server_map = insert req.id (joining now req) told.0 },
            ok (s.curr_server_info ∷ values s.server_map),
            told.1,
          ))
]

-- NewServerNotification
unfoldable pub new_server_notification : Time → NewServerNotificationRequest → Server → Server
new_server_notification now req s = elim (lookup req.new_server_info.id s.server_map) [
  | some _ ↦ s
  | none ↦ if s.curr_server_info.id == req.new_server_info.id then s else record s {
    server_map =
        insert req.new_server_info.id (new_server_info_heap now req.new_server_info) s.server_map;
  }
]

-- GetServerInfo
unfoldable pub get_server_info : Time → Server → GetServerInfoReply
get_server_info now s = record {
  id = s.curr_server_info.id;
  info = record s.curr_server_info { timestamp = now; rpc_client = none };
}

-- A newer sequence number from a member that the list has.
abbrev pub refreshed : Time → ServerInfo → ServerInfo → ServerInfo
refreshed now serv_info member = record member {
  heartbeat_seqnum = serv_info.heartbeat_seqnum;
  timestamp = now;
  suspicion = false;
  alive = if member.suspicion then true else member.alive;
}

-- The part of the loop in HeartbeatNotification that concerns the membership list.
unfoldable pub update_member : Time → ServerInfo → Server → Server
update_member now serv_info s =
    if serv_info.id == s.curr_server_info.id then s else elim (lookup serv_info.id s.server_map) [
      | none ↦ if serv_info.suspicion then s else record s {
        server_map = insert serv_info.id (new_server_info_heap now serv_info) s.server_map;
      }
      | some member ↦
          if ltb_ℤ member.heartbeat_seqnum serv_info.heartbeat_seqnum
          then record s {
            server_map = insert serv_info.id (refreshed now serv_info member) s.server_map;
          }
          else s
    ]

-- One round of the loop in HeartbeatNotification; `none` is the panic on a non-integer own id.
unfoldable pub heartbeat_entry : Time → ServerInfo → Server → Option Server
unfolding update_member
heartbeat_entry now serv_info s =
    elim (get_lamport_timestamp_from_seqnum (floor serv_info.lamport_timestamp)
      s.curr_server_info.id) [
        | none ↦ none
        | some sender_lamport_time ↦ some (
            update_member now serv_info (
              set_lamport_timestamp
                (max_ℤ sender_lamport_time s.curr_server_info.lamport_timestamp +ℤ one) s))
      ]

unfoldable pub heartbeat_entries : Time → List ServerInfo → Server → Option Server
unfolding heartbeat_entry
heartbeat_entries now [] s = some s
heartbeat_entries now (serv_info ∷ list) s = elim (heartbeat_entry now serv_info s) [
  | none ↦ none
  | some s' ↦ heartbeat_entries now list s'
]

-- HeartbeatNotification
unfoldable pub heartbeat_notification : Time → HeartbeatNotificationRequest → Server → Option Server
unfolding heartbeat_entries
heartbeat_notification now req s = heartbeat_entries now req.server_info_list s

-- `serverMap[id].rpcClient.Close()` where there is a handle.
abbrev pub close : Option Conn → List Action
close none = []
close (some c) = closed c ∷ []

-- KillServerNotification
unfoldable pub kill_server_notification :
    KillServerNotificationRequest → Server → Server × List Action
kill_server_notification req s = (
  record s { server_map = delete req.id s.server_map },
  elim (lookup req.id s.server_map) [ none ↦ [] | some member ↦ close member.rpc_client ],
)
