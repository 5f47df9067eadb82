-- ===== src/Samples/Threads.antt =====
-- Sample runs of KillServer against the heartbeat thread (server/rpc.go, server/server.go).
use psk_db.Prelude.{◌↔◌, ◌⊎◌, refl, arith}
use psk_db.Server.Shutdown.{
  locking, sending, Threads, Step, go_on, call_lock, notified, kill, Reach, here, step, enter,
  launched,
}
use psk_db.Server.Shutdown.Deadlock.{IsDead, IsDone, threads, stuck_iff}
use psk_db.Server.Shutdown.Possible.{may_deadlock}

-- The heartbeat thread goes on to Lock, and a call of KillServer is faster.
abbrev dead : Threads
dead = threads locking sending 0

launched-reaches : Reach launched dead
launched-reaches =
    step
      (step (enter (step here (go_on refl (λ e. ground arith) refl)) (kill refl))
        (call_lock refl refl refl))
      (notified refl refl)

stuck_iff_example : ((t : Threads) → ¬ Step dead t) ↔ (IsDead dead ⊎ IsDone dead)
stuck_iff_example = stuck_iff dead launched-reaches

may_deadlock_example : (t : Threads) × Reach launched t × IsDead t
may_deadlock_example = may_deadlock launched here (λ e. ground arith) (λ e. ground arith)
