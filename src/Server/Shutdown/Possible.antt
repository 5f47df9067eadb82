-- ===== src/Server/Shutdown/Possible.antt =====
-- How KillServer of server/rpc.go and the heartbeat thread of server/server.go get to the deadlock.
use psk_db.Prelude.{ℕ, suc, ◌≢◌, refl, inl, arith}
use psk_db.Server.Shutdown.{
  Beat, selecting, locking, holding, sleeping, stopped, Holder, nobody, heartbeat, notifying,
  sending, handler, Threads, Step, go_on, beat_unlock, wake, call_lock, notified, handler_unlock,
  kill, Reach, here, step, enter, launched,
}
use psk_db.Server.Shutdown.Deadlock.{IsValid, Reach-IsValid, IsDead, threads}

Reach-trans : {s t u : Threads} → Reach s t → Reach t u → Reach s u
Reach-trans r here = r
Reach-trans r (step q m) = step (Reach-trans r q) m
Reach-trans r (enter q m) = enter (Reach-trans r q) m

abbrev MayDie : Threads → Type 0
MayDie s = (t : Threads) × Reach s t × IsDead t

after : {s t : Threads} → Step s t → MayDie t → MayDie s
after m (u, r, d) = (u, Reach-trans (step here m) r, d)

after_kill : (b : Beat) (h : Holder) (c : ℕ) → MayDie (threads b h (suc c)) → MayDie (threads b h c)
after_kill b h c (u, r, d) = (u, Reach-trans (enter here (kill refl)) r, d)

-- The thread waits for the mutex, and a call that arrives is faster.
late : (c : ℕ) → MayDie (threads locking nobody c)
late c =
    after_kill locking nobody c
      (after (call_lock refl refl refl) (after (notified refl refl) (_, here, (refl, inl refl))))

may_die :
    (b : Beat) (h : Holder) (c : ℕ)
    → b ≢ stopped
    → h ≢ sending
    → IsValid (threads b h c)
    → MayDie (threads b h c)
may_die locking nobody c alive free v = late c
may_die selecting nobody c alive free v = after (go_on refl free refl) (late c)
may_die sleeping nobody c alive free v =
    after (wake refl refl) (after (go_on refl (λ e. ground arith) refl) (late c))
may_die holding heartbeat c alive free v =
    after (beat_unlock refl refl refl)
      (after (wake refl refl) (after (go_on refl (λ e. ground arith) refl) (late c)))
may_die selecting handler c alive free v =
    after (handler_unlock refl refl) (after (go_on refl (λ e. ground arith) refl) (late c))
may_die locking handler c alive free v = after (handler_unlock refl refl) (late c)
may_die sleeping handler c alive free v =
    after (handler_unlock refl refl)
      (after (wake refl refl) (after (go_on refl (λ e. ground arith) refl) (late c)))
may_die selecting notifying c alive free v =
    after (go_on refl free refl) (after (notified refl refl) (_, here, (refl, inl refl)))
may_die locking notifying c alive free v = after (notified refl refl) (_, here, (refl, inl refl))
may_die sleeping notifying c alive free v = after (wake refl refl) (
    after (go_on refl (λ e. ground arith) refl)
      (after (notified refl refl) (_, here, (refl, inl refl))))
may_die stopped h c alive free v = absurd (alive refl)
may_die b sending c alive free v = absurd (free refl)
may_die selecting heartbeat c alive free v = absurd (ground arith)
may_die locking heartbeat c alive free v = absurd (ground arith)
may_die sleeping heartbeat c alive free v = absurd (ground arith)
may_die holding nobody c alive free v = absurd (ground arith)
may_die holding notifying c alive free v = absurd (ground arith)
may_die holding handler c alive free v = absurd (ground arith)

-- From every state that the threads can reach, if the heartbeat thread runs and no call of
-- KillServer is at the channel, they can reach one in which such a call holds the mutex at the
-- channel and the heartbeat thread waits for it or is gone.
pub may_deadlock :
    (s : Threads)
    → Reach launched s
    → s.beat ≢ stopped
    → s.holder ≢ sending
    → (t : Threads) × Reach s t × IsDead t
may_deadlock s r alive free =
    may_die s.beat s.holder s.calls alive free (Reach-IsValid (ground arith) r)
