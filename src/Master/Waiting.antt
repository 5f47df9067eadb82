-- ===== src/Master/Waiting.antt =====
-- The two loops of master.go that wait: for a started process to answer, and for the servers to have
-- stabilized. What they meet is a parameter, a sequence.
use psk_db.Prelude.{
  ℕ, zero, suc, ◌+◌, ◌-◌, Bool, true, false, Option, none, some, List, [], ◌∷◌, ltb, eqb,
  if◌then◌else◌,
}

-- CREATE_SERVER_NUM_RETRIES and CREATE_CLIENT_NUM_RETRIES of common/consts.go
abbrev pub create_num_retries : ℕ
create_num_retries = 5

-- One look at the new process: no connection, a ping that fails, or one that is answered.
pub data Ping : Type 0 where
  no_connection : Ping
  ping_failed : Ping
  ping_answered : Ping

-- The loop after a process is started: whether it answered (or was killed). `none`: out of fuel.
unfoldable pub wait_for_start : (ℕ → Ping) → ℕ → ℕ → Option Bool
wait_for_start pings zero calls = none
wait_for_start pings (suc fuel) calls =
    let calls' = calls + 1 in
    let again = wait_for_start pings fuel calls' in
    elim (pings calls') [
      | ping_answered ↦ some true
      | ping_failed ↦ again
      | no_connection ↦ if ltb create_num_retries calls' then some false else again
    ]

-- What the select statement of `stabilize` receives: the end of a server's call, with its error or
-- without, or the timer.
pub data Received : Type 0 where
  acked : Bool → Received
  timer : Received

-- The loop `for !done`: what is left to receive when it ends; `none` means that it still waits. The
-- `break` under the timer leaves the select statement only.
unfoldable pub wait_for_acks : ℕ → ℕ → List Received → Option (List Received)
wait_for_acks num_nodes acks_recv [] = none
wait_for_acks num_nodes acks_recv (acked err ∷ events) =
    let waiting = wait_for_acks num_nodes (acks_recv + 1) events in
    if eqb (acks_recv + 1) num_nodes then some events else waiting
wait_for_acks num_nodes acks_recv (timer ∷ events) = wait_for_acks num_nodes acks_recv events

-- req.Rounds of the request that each server gets
abbrev pub rounds : ℕ → ℕ
rounds num_nodes = num_nodes - 1
