-- ===== src/Common/Listening.antt =====
-- What the processes use of the package net when they start to listen (main of server/server.go and
-- of client/client.go), and how their start can end.
use psk_db.Prelude.{String, Option, none, some}

-- net.ResolveTCPAddr and net.ListenTCP for "tcp"; `none` is an error.
pub record Net (Addr Inbound : Type 0) : Type 0 where
  pub resolve : String → Option Addr
  pub listen : Addr → Option Inbound

-- Why a process ends before it listens. `no_log`: log.Panic is read while `log` is still nil;
-- `out_of_range`: os.Args is read out of range; `bad_id`: the id is not a number.
pub data Reason : Type 0 where
  no_log out_of_range bad_id not_resolved not_listening : Reason

-- A panic, loops that have not ended when the fuel has, or a process that answers at its listener,
-- in its first state.
pub data Started (State Inbound : Type 0) : Type 0 where
  panicked : Reason → Started State Inbound
  still_joining : Started State Inbound
  serving : State → Inbound → Started State Inbound

-- The end of main: resolve, listen, answer.
unfoldable pub serve :
    {Addr Inbound State : Type 0} → Net Addr Inbound → String → State → Started State Inbound
serve net address s = elim (net.resolve address) [
  | none ↦ panicked not_resolved
  | some addr ↦ elim (net.listen addr) [
    | none ↦ panicked not_listening
    | some inbound ↦ serving s inbound
  ]
]
