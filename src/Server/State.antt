-- ===== src/Server/State.antt =====
-- The structs of server/structs.go, and the global variables of server/server.go as one record.
use psk_db.Prelude.{ℕ, ℤ, String, Bool, Option, none, List}
use psk_db.Dict.{Dict}
use psk_db.Timestamp.{Timestamp}
use psk_db.Common.{Conn}

-- A reading of the local clock, in nanoseconds.
abbrev pub Time : Type 0
Time = ℕ

pub record ServerInfo : Type 0 where
  pub id : String
  pub ip_address : String
  pub address : String
  pub port_num : String
  pub heartbeat_seqnum : ℤ
  pub timestamp : Time
  pub alive : Bool
  pub suspicion : Bool
  pub lamport_timestamp : Timestamp
  pub rpc_client : Option Conn

-- NewServerInfoHeap
abbrev pub new_server_info_heap : Time → ServerInfo → ServerInfo
new_server_info_heap now serv_info = record serv_info { timestamp = now; rpc_client = none }

pub record KeyValueInfo : Type 0 where
  pub key : String
  pub value : String
  pub version : Timestamp

-- NewKeyValueInfoHeap
abbrev pub new_key_value_info_heap : KeyValueInfo → KeyValueInfo
new_key_value_info_heap info = record { key = info.key; value = info.value; version = info.version }

pub record JoinClusterAsServerRequest : Type 0 where
  pub id : String
  pub ip_address : String
  pub port_num : String

pub record NewServerNotificationRequest : Type 0 where
  pub id : String
  pub new_server_info : ServerInfo

pub record HeartbeatNotificationRequest : Type 0 where
  pub id : String
  pub server_info_list : List ServerInfo

pub record KillServerNotificationRequest : Type 0 where
  pub id : String

pub record GetServerInfoReply : Type 0 where
  pub id : String
  pub info : ServerInfo

pub record SendKvDataRequest : Type 0 where
  pub key_value_map : Dict KeyValueInfo
  pub server_id : String

pub record ProcessRemoteWriteRequest : Type 0 where
  pub key : String
  pub value : String
  pub version : Timestamp

-- The calls that a server makes of other servers.
pub data Call : Type 0 where
  new_server_notification : NewServerNotificationRequest → Call
  heartbeat_notification : HeartbeatNotificationRequest → Call
  kill_server_notification : KillServerNotificationRequest → Call
  process_remote_write : ProcessRemoteWriteRequest → Call
  send_kv_data : SendKvDataRequest → Call

-- What a handler does outside its process, in order: a call, with the member that it is meant for
-- and the handle that it goes through; the closing of a handle; `doneHeartbeat <- true`.
pub data Action : Type 0 where
  sent : String → Conn → Call → Action
  closed : Conn → Action
  heartbeat_stopped : Action

pub record Server : Type 0 where
  pub server_map : Dict ServerInfo
  pub curr_server_info : ServerInfo
  pub blacklist_map : Dict Bool
  pub key_value_map : Dict KeyValueInfo
  pub write_log : List KeyValueInfo
