-- ===== src/Client.antt =====
-- The client process (client/): the servers that it is connected to, the versions that it has seen,
-- and its handlers. What `rpc.Dial` and the called servers answer are parameters.
pub mod Session
pub mod Writes
pub mod Failures
pub mod Main
use psk_db.Prelude.{String, Bool, not, ◌&&◌, Option, none, some, List, [], ◌∷◌, ◌==◌, if◌then◌else◌}
use psk_db.Dict.{Dict, lookup, insert, delete}
use psk_db.Timestamp.{Timestamp, minus_one}
use psk_db.Prelude.{pos}
use psk_db.Common.{
  Conn, CallError, is_err_shutdown, ConnectionRequest, PutKvClientRequest, PutKvServerRequest,
  PutKvServerReply, GetKvServerRequest, GetKvServerReply,
}

-- ServerInfo of client/structs.go
pub record ServerInfo : Type 0 where
  pub id : String
  pub address : String
  pub rpc_client : Option Conn

-- NewServerInfoHeap of client/structs.go
abbrev pub new_server_info_heap : String → String → ServerInfo
new_server_info_heap id addr = record { id = id; address = addr; rpc_client = none }

-- The maps of clientInfo and of keyVersionInfo.
pub record Client : Type 0 where
  pub serv_map : Dict ServerInfo
  pub key_version_info : Dict Timestamp

-- main: the arguments after the program's name are the own id and port, and the id and address of a
-- server; `none` is the panic where one is missing.
unfoldable pub start : List String → Option Client
start (id ∷ port_num ∷ server_id ∷ server_address ∷ more) = some (record {
  serv_map = (server_id, new_server_info_heap server_id server_address) ∷ [];
  key_version_info = [];
})
start _ = none

-- CreateConnection
unfoldable pub create_connection : ConnectionRequest → Client → Client
create_connection req c = elim (lookup req.id c.serv_map) [
  | some _ ↦ c
  | none ↦ record c {
    serv_map = insert req.id (new_server_info_heap req.id req.address) c.serv_map;
  }
]

-- BreakConnection
unfoldable pub break_connection : ConnectionRequest → Client → Client
break_connection req c = elim (lookup req.id c.serv_map) [
  | none ↦ c
  | some _ ↦ record c { serv_map = delete req.id c.serv_map }
]

-- How a call ends. An error leaves the reply variable at its zero value.
pub data Answer {ℓ} (R : Type ℓ) : Type ℓ where
  replied : R → Answer R
  failed : CallError → Answer R

-- `if … rpcClient == nil { … rpcClient = getRPCConnection(… Address) }`
abbrev pub connect : (String → Option Conn) → ServerInfo → ServerInfo
connect dial serv_info = elim serv_info.rpc_client [
  | none ↦ record serv_info { rpc_client = dial serv_info.address }
  | some c ↦ serv_info
]

-- The loop of PutKVClient and GetKVClient over the servers: the reply at which it returns, if it does.
unfoldable pub first_reply {ℓ} :
    {R : Type ℓ}
    → (String → Option Conn)
    → (String → Answer R)
    → R
    → Dict ServerInfo
    → Dict ServerInfo × Option R
first_reply dial call zero_reply [] = ([], none)
first_reply dial call zero_reply ((sid, serv_info) ∷ servers) =
    let connected = connect dial serv_info in
    let later = first_reply dial call zero_reply servers in
    elim connected.rpc_client [
      | none ↦ ((sid, connected) ∷ later.0, later.1)
      | some c ↦ elim (call sid) [
        | replied reply ↦ ((sid, connected) ∷ servers, some reply)
        | failed err ↦
            if is_err_shutdown err
            then ((sid, record connected { rpc_client = none }) ∷ servers, some zero_reply)
            else ((sid, connected) ∷ later.0, later.1)
      ]
    ]

-- The version that goes with a request: -1 where the client has seen none.
abbrev pub seen_version : String → Dict Timestamp → Timestamp
seen_version key versions = elim (lookup key versions) [ none ↦ minus_one | some version ↦ version ]

abbrev pub put_request : PutKvClientRequest → Client → PutKvServerRequest
put_request req c = record {
  key = req.key;
  value = req.value;
  version = seen_version req.key c.key_version_info;
}

abbrev pub get_request : String → Client → GetKvServerRequest
get_request key c = record { key = key; version = seen_version key c.key_version_info }

abbrev pub zero_put : PutKvServerReply
zero_put = record { key = ""; value = ""; version = pos 0 }

abbrev pub zero_get : GetKvServerReply
zero_get = record { key = ""; value = ""; version = pos 0 }

pub data PutResult : Type 0 where
  done : PutResult
  unable_to_dial : PutResult

abbrev pub finish_put : Client → Dict ServerInfo × Option PutKvServerReply → Client × PutResult
finish_put c (servers, none) = (record c { serv_map = servers }, unable_to_dial)
finish_put c (servers, some reply) = (
  record {
    serv_map = servers;
    key_version_info = insert reply.key reply.version c.key_version_info;
  },
  done,
)

-- PutKVClient
unfoldable pub put_kv_client :
    (String → Option Conn)
    → (String → PutKvServerRequest → Answer PutKvServerReply)
    → PutKvClientRequest
    → Client
    → Client × PutResult
put_kv_client dial call req c =
    finish_put c (first_reply dial (λ sid. call sid (put_request req c)) zero_put c.serv_map)

-- The version is recorded unless the value is one of the two error texts.
abbrev pub record_read : GetKvServerReply → Dict Timestamp → Dict Timestamp
record_read reply versions =
    if not (reply.value == "ERR_DEP") && not (reply.value == "ERR_KEY")
    then insert reply.key reply.version versions
    else versions

abbrev pub finish_get :
    Client → Dict ServerInfo × Option GetKvServerReply → Client × Option GetKvServerReply
finish_get c (servers, none) = (record c { serv_map = servers }, none)
finish_get c (servers, some reply) = (
  record { serv_map = servers; key_version_info = record_read reply c.key_version_info },
  some reply,
)

-- GetKVClient; no reply is the error "Unable to RPC dial server."
unfoldable pub get_kv_client :
    (String → Option Conn)
    → (String → GetKvServerRequest → Answer GetKvServerReply)
    → String
    → Client
    → Client × Option GetKvServerReply
get_kv_client dial call key c =
    finish_get c (first_reply dial (λ sid. call sid (get_request key c)) zero_get c.serv_map)
