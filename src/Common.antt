-- ===== src/Common.antt =====
-- What the processes share: the requests and replies of common/structs.go, and the outcomes of a
-- call by net/rpc.
pub mod Logger
pub mod Listening
use Prim.Native.String.{◌++◌}
use psk_db.Prelude.{ℕ, String, Bool, true, false}
use psk_db.Timestamp.{Timestamp}

-- A handle that `rpc.Dial` returned.
abbrev pub Conn : Type 0
Conn = ℕ

-- IP_address + ":" + Port_num
abbrev pub address_of : String → String → String
address_of ip_address port_num = ip_address ++ ":" ++ port_num

-- An error value as `==` sees it: Go compares `errors.New` values by address. `err_shutdown` is the
-- variable ErrShutdown that the package makes for itself; `net_rpc` is any value that net/rpc makes,
-- its own ErrShutdown of the same text among them.
pub data CallError : Type 0 where
  err_shutdown : CallError
  net_rpc : String → CallError

-- err == ErrShutdown
abbrev pub is_err_shutdown : CallError → Bool
is_err_shutdown err_shutdown = true
is_err_shutdown (net_rpc text) = false

pub record ConnectionRequest : Type 0 where
  pub id : String
  pub address : String

pub record PutKvClientRequest : Type 0 where
  pub key : String
  pub value : String

pub record PutKvServerRequest : Type 0 where
  pub key : String
  pub value : String
  pub version : Timestamp

pub record PutKvServerReply : Type 0 where
  pub key : String
  pub value : String
  pub version : Timestamp

pub record GetKvServerRequest : Type 0 where
  pub key : String
  pub version : Timestamp

pub record GetKvServerReply : Type 0 where
  pub key : String
  pub value : String
  pub version : Timestamp

pub record GetKvClientRequest : Type 0 where
  pub key : String

pub record StabilizeRequest : Type 0 where
  pub rounds : ℕ
