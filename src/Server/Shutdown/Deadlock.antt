-- ===== src/Server/Shutdown/Deadlock.antt =====
-- Where KillServer of server/rpc.go and the heartbeat thread of server/server.go stop one another.
use psk_db.Prelude.{ℕ, zero, suc, ◌≡◌, refl, inl, inr, ◌⊎◌, ◌↔◌, arith}
use psk_db.Server.Shutdown.{
  Beat, selecting, locking, holding, sleeping, stopped, Holder, nobody, heartbeat, notifying,
  sending, handler, Threads, Step, go_on, beat_lock, beat_unlock, wake, call_lock, notified,
  received, handler_unlock, Enter, kill, call, Reach, here, step, enter, launched,
}

-- The heartbeat thread has the mutex exactly between its Lock and its Unlock.
abbrev pub IsValid : Threads → Type 0
IsValid s = (s.beat ≡ holding) ↔ (s.holder ≡ heartbeat)

Step-IsValid : (s t : Threads) → Step s t → IsValid s → IsValid t
Step-IsValid s t (go_on b h e) v = ground arith
Step-IsValid s t (beat_lock b h e) v = ground arith
Step-IsValid s t (beat_unlock b h e) v = ground arith
Step-IsValid s t (wake b e) v = ground arith
Step-IsValid s t (call_lock h c e) v = ground arith
Step-IsValid s t (notified h e) v = ground arith
Step-IsValid s t (received b h e) v = ground arith
Step-IsValid s t (handler_unlock h e) v = ground arith

Enter-IsValid : (s t : Threads) → Enter s t → IsValid s → IsValid t
Enter-IsValid s t (kill e) v = ground arith
Enter-IsValid s t (call h e) v = ground arith

pub Reach-IsValid : {s t : Threads} → IsValid s → Reach s t → IsValid t
Reach-IsValid v here = v
Reach-IsValid v (step {t} {u} r m) = Step-IsValid t u m (Reach-IsValid v r)
Reach-IsValid v (enter {t} {u} r m) = Enter-IsValid t u m (Reach-IsValid v r)

-- A call of KillServer waits at the channel with the mutex in its hand, and the heartbeat thread waits
-- for the mutex or has returned.
abbrev pub IsDead : Threads → Type 0
IsDead s = (s.holder ≡ sending) × ((s.beat ≡ locking) ⊎ (s.beat ≡ stopped))

-- The server is killed and nothing waits.
abbrev pub IsDone : Threads → Type 0
IsDone s = (s.holder ≡ nobody) × (s.beat ≡ stopped) × (s.calls ≡ 0)

abbrev pub IsStuck : Threads → Type 0
IsStuck s = (t : Threads) → ¬ Step s t

dead-IsStuck : (s : Threads) → IsDead s → IsStuck s
dead-IsStuck s d t (go_on b h e) = ground arith
dead-IsStuck s d t (beat_lock b h e) = ground arith
dead-IsStuck s d t (beat_unlock b h e) = ground arith
dead-IsStuck s d t (wake b e) = ground arith
dead-IsStuck s d t (call_lock h c e) = ground arith
dead-IsStuck s d t (notified h e) = ground arith
dead-IsStuck s d t (received b h e) = ground arith
dead-IsStuck s d t (handler_unlock h e) = ground arith

done-IsStuck : (s : Threads) → IsDone s → IsStuck s
done-IsStuck s d t (go_on b h e) = ground arith
done-IsStuck s d t (beat_lock b h e) = ground arith
done-IsStuck s d t (beat_unlock b h e) = ground arith
done-IsStuck s d t (wake b e) = ground arith
done-IsStuck s d t (call_lock h c e) = ground arith
done-IsStuck s d t (notified h e) = ground arith
done-IsStuck s d t (received b h e) = ground arith
done-IsStuck s d t (handler_unlock h e) = ground arith

abbrev Moves : Threads → Type 0
Moves s = (t : Threads) × Step s t

abbrev pub threads : Beat → Holder → ℕ → Threads
threads b h c = record { beat = b; holder = h; calls = c }

-- Elsewhere some thread can move.
progress :
    (b : Beat) (h : Holder) (c : ℕ)
    → IsValid (threads b h c)
    → IsDead (threads b h c) ⊎ IsDone (threads b h c) ⊎ Moves (threads b h c)
progress selecting sending c v = inr (inr (_, received refl refl refl))
progress sleeping h c v = inr (inr (_, wake refl refl))
progress locking nobody c v = inr (inr (_, beat_lock refl refl refl))
progress holding heartbeat c v = inr (inr (_, beat_unlock refl refl refl))
progress b notifying c v = inr (inr (_, notified refl refl))
progress b handler c v = inr (inr (_, handler_unlock refl refl))
progress locking sending c v = inl (refl, inl refl)
progress stopped sending c v = inl (refl, inr refl)
progress stopped nobody zero v = inr (inl (refl, refl, refl))
progress stopped nobody (suc c) v = inr (inr (_, call_lock refl refl refl))
progress selecting nobody c v = inr (inr (_, go_on refl (λ e. ground arith) refl))
progress selecting heartbeat c v = absurd (ground arith)
progress locking heartbeat c v = absurd (ground arith)
progress stopped heartbeat c v = absurd (ground arith)
progress holding nobody c v = absurd (ground arith)
progress holding sending c v = absurd (ground arith)

-- In a state that the threads can reach, none of them can move exactly when a call of KillServer
-- holds the mutex of the membership list at the channel and the heartbeat thread waits for that
-- mutex or is gone, or when the mutex is free, the heartbeat thread is gone and no call waits.
pub stuck_iff :
    (s : Threads) → Reach launched s → ((t : Threads) → ¬ Step s t) ↔ (IsDead s ⊎ IsDone s)
stuck_iff s r = (
  λ stuck. elim (progress s.beat s.holder s.calls (Reach-IsValid (ground arith) r)) [
    | inl d ↦ inl d
    | inr (inl d) ↦ inr d
    | inr (inr m) ↦ absurd (stuck m.0 m.1)
  ],
  λ d. elim d [ inl dead ↦ dead-IsStuck s dead | inr done ↦ done-IsStuck s done ],
)

Enter-IsDead : (s t : Threads) → Enter s t → IsDead s → IsDead t
Enter-IsDead s t (kill e) d = ground arith
Enter-IsDead s t (call h e) d = absurd (ground arith)

-- From a state in which a call of KillServer holds the mutex at the channel and the heartbeat
-- thread waits for it or is gone, only such states can be reached: the call does not return.
Reach-IsDead : {s t : Threads} → IsDead s → Reach s t → IsDead t
Reach-IsDead d here = d
Reach-IsDead d (step {t} {u} r m) = absurd (dead-IsStuck t (Reach-IsDead d r) u m)
Reach-IsDead d (enter {t} {u} r m) = Enter-IsDead t u m (Reach-IsDead d r)
