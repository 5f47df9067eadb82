-- ===== src/Server/Shutdown.antt =====
-- KillServer of server/rpc.go and the heartbeat thread (startHeartbeats of server/server.go), which
-- share the mutex of the membership list and the channel `doneHeartbeat`. What the bodies do to the
-- lists stands in Server.Links and Server.Heartbeat; here is where they wait. The mutex of the own
-- entry is left out: nobody waits at the channel while it holds it.
pub mod Deadlock
pub mod Possible
use psk_db.Prelude.{ℕ, suc, ◌≡◌, ◌≢◌}

-- Where the heartbeat thread is: before `select`; past `default`, before mutex_server_map.Lock();
-- between Lock and Unlock; at time.Sleep; returned.
pub data Beat : Type 0 where
  selecting : Beat
  locking : Beat
  holding : Beat
  sleeping : Beat
  stopped : Beat

-- Who has mutex_server_map: nobody; the heartbeat thread; a call of KillServer that sends its
-- notifications; one that is at `doneHeartbeat <- true`; another handler.
pub data Holder : Type 0 where
  nobody : Holder
  heartbeat : Holder
  notifying : Holder
  sending : Holder
  handler : Holder

-- `calls` counts the calls of KillServer that wait for the mutex.
pub record Threads : Type 0 where
  pub beat : Beat
  pub holder : Holder
  pub calls : ℕ

-- A step of one of the threads. The channel has no buffer, so a value is sent and received in one
-- step; `default` is not taken while a sender waits.
pub data Step (s t : Threads) : Type 0 where
  go_on : s.beat ≡ selecting → s.holder ≢ sending → t ≡ record s { beat = locking } → Step s t
  beat_lock :
      s.beat ≡ locking
      → s.holder ≡ nobody
      → t ≡ record s { beat = holding; holder = heartbeat }
      → Step s t
  beat_unlock :
      s.beat ≡ holding
      → s.holder ≡ heartbeat
      → t ≡ record s { beat = sleeping; holder = nobody }
      → Step s t
  wake : s.beat ≡ sleeping → t ≡ record s { beat = selecting } → Step s t
  call_lock :
      {n : ℕ}
      → s.holder ≡ nobody
      → s.calls ≡ suc n
      → t ≡ record s { holder = notifying; calls = n }
      → Step s t
  notified : s.holder ≡ notifying → t ≡ record s { holder = sending } → Step s t
  received :
      s.beat ≡ selecting
      → s.holder ≡ sending
      → t ≡ record s { beat = stopped; holder = nobody }
      → Step s t
  handler_unlock : s.holder ≡ handler → t ≡ record s { holder = nobody } → Step s t

-- What comes from outside: a call of KillServer, another handler that takes the mutex.
pub data Enter (s t : Threads) : Type 0 where
  kill : t ≡ record s { calls = suc s.calls } → Enter s t
  call : s.holder ≡ nobody → t ≡ record s { holder = handler } → Enter s t

pub data Reach (s : Threads) : Threads → Type 0 where
  here : Reach s s
  step : {t u : Threads} → Reach s t → Step t u → Reach s u
  enter : {t u : Threads} → Reach s t → Enter t u → Reach s u

-- `go startHeartbeats()` at the end of main
abbrev pub launched : Threads
launched = record { beat = selecting; holder = nobody; calls = 0 }
