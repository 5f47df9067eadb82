-- ===== src/Cluster/Mutexes/Races.antt =====
-- PutKVServer (server/rpc.go), which ranges over serverMap after it has freed the mutex.
use psk_db.Prelude.{
  ℕ, suc, String, Bool, true, false, ◌≡◌, refl, ap, subst, List, [], ◌∷◌, ◌++◌, All, In, inl, inr,
  arith, length, ◌<◌,
}
use psk_db.Cluster.Mutexes.{
  blacklist_map, server_map, key_value_map, curr_server_info, Mutex, Op, lock, unlock, access,
  send_done, put_kv_server, join_cluster_as_server, write_ops, program, Thread, thread, Without,
  take, release, touch, Reach,
}
use psk_db.Cluster.Mutexes.Order.{rank, Ordered, All-In, Good, Reach-Good}
use psk_db.Cluster.Mutexes.Progress.{Ended}
use psk_db.Cluster.Mutexes.Runs.{Steps, done, then}
use psk_db.Cluster.Mutexes.Exclusion.{Contended}

-- The handler holds nothing.
abbrev Idle : Thread → Type 0
Idle t = t.held ≡ []

Ordered-nothing : (held : List Mutex) → Ordered [] held → held ≡ []
Ordered-nothing [] o = refl
Ordered-nothing (m ∷ held) o = absurd o

Ended-Idle : (threads : List Thread) → All Good threads → All Ended threads → All Idle threads
Ended-Idle [] g e = tt
Ended-Idle (t ∷ threads) g e =
    (Ordered-nothing t.held (subst (λ ops. Ordered ops t.held) e.0 g.0), Ended-Idle threads g.1 e.1)

Idle-Without : (m : Mutex) (threads : List Thread) → All Idle threads → All (Without m) threads
Idle-Without m [] h = tt
Idle-Without m (t ∷ threads) h = ((λ p. subst (In m) h.0 p tt), Idle-Without m threads h.1)

held_after : List Op → List Mutex → List Mutex
held_after [] held = held
held_after (lock m ∷ ops) held = held_after ops (m ∷ held)
held_after (access m ∷ ops) held = held_after ops held
held_after (send_done s ∷ ops) held = held_after ops held
held_after (unlock m ∷ ops) [] = held_after ops []
held_after (unlock m ∷ ops) (h ∷ held) = held_after ops held

-- The handler does not wait for the heartbeat thread.
abbrev NoChannel : List Op → Type 0
NoChannel [] = Unit
NoChannel (send_done s ∷ ops) = ⊥
NoChannel (lock m ∷ ops) = NoChannel ops
NoChannel (unlock m ∷ ops) = NoChannel ops
NoChannel (access m ∷ ops) = NoChannel ops

-- A handler can go on as long as the others hold nothing.
run_alone :
    (ops later : List Op) (held : List Mutex) (others : List Thread)
    → Ordered (ops ++ later) held
    → All Idle others
    → NoChannel ops
    → Steps
        (length ops)
        (thread held (ops ++ later) ∷ others)
        (thread (held_after ops held) later ∷ others)
unfolding held_after
run_alone [] later held others o idle n = done
run_alone (lock m ∷ ops) later held others o idle n =
    then
      (take [] others held m (ops ++ later) refl
        (
          (λ p. omega (arith, All-In (λ k. rank k < rank m) m held p o.0)),
          Idle-Without m others idle,
        )
        refl)
      (run_alone ops later (m ∷ held) others o.1 idle n)
run_alone (access m ∷ ops) later held others o idle n =
    then (touch [] others held m (ops ++ later) refl refl)
      (run_alone ops later held others o.1 idle n)
run_alone (send_done s ∷ ops) later held others o idle n = absurd n
run_alone (unlock m ∷ ops) later [] others o idle n = absurd o
run_alone (unlock m ∷ ops) later (h ∷ held) others o idle n =
    then
      (release [] others held m (ops ++ later)
        (ap (λ k. thread (k ∷ held) (unlock m ∷ ops ++ later) ∷ others) o.0) refl)
      (run_alone ops later held others o.1 idle n)

-- PutKVServer up to the loop that sends the write, and from there.
abbrev put_start : String → Bool → List Op
put_start s old =
    lock (s, server_map) ∷ unlock (s, server_map) ∷ lock (s, key_value_map) ∷ write_ops s old

abbrev put_rest : String → List Op
put_rest s = access (s, blacklist_map) ∷ access (s, key_value_map) ∷ unlock (s, key_value_map) ∷ []

run_put :
    (s : String) (old : Bool) (others : List Thread)
    → All Idle others
    → Steps
        (length (put_start s old))
        (thread [] (program (put_kv_server s old)) ∷ others)
        (thread ((s, key_value_map) ∷ []) (access (s, server_map) ∷ put_rest s) ∷ others)
unfolding held_after
run_put s true others idle =
    run_alone (put_start s true) (access (s, server_map) ∷ put_rest s) [] others (ground arith) idle
      tt
run_put s false others idle =
    run_alone (put_start s false) (access (s, server_map) ∷ put_rest s) [] others (ground arith)
      idle tt

Steps-append : {n m : ℕ} {a b c : List Thread} → Steps n a b → Steps m b c → (k : ℕ) × Steps k a c
Steps-append {m} done r = (m, r)
Steps-append (then s q) r = let (k, steps) = Steps-append q r in (suc k, then s steps)

-- JoinClusterAsServer from where it looks its caller up.
abbrev join_rest : String → List Op
join_rest s =
    access (s, curr_server_info)
    ∷ access (s, server_map)
    ∷ access (s, blacklist_map)
    ∷ unlock (s, curr_server_info)
    ∷ unlock (s, server_map)
    ∷ []

-- A mutex is not among those of another rank.
other_rank :
    (m n : Mutex) (held : List Mutex)
    → (rank n ≡ rank m → ⊥)
    → Without m (thread held [])
    → Without m (thread (n ∷ held) [])
other_rank m n held d w (inl e) = d (ap rank e)
other_rank m n held d w (inr h) = w h

-- JoinClusterAsServer beside a handler that holds the mutex of the store.
run_join :
    (s : String) (ops : List Op) (others : List Thread)
    → All Idle others
    → Steps 2
        (thread ((s, key_value_map) ∷ []) ops
          ∷ thread [] (program (join_cluster_as_server s))
          ∷ others)
        (thread ((s, key_value_map) ∷ []) ops
          ∷ thread
              ((s, curr_server_info) ∷ (s, server_map) ∷ [])
              (access (s, server_map) ∷ join_rest s)
          ∷ others)
run_join s ops others idle =
    let put = thread ((s, key_value_map) ∷ []) ops in
    let store : (m : Mutex) → (2 ≡ rank m → ⊥) → Without m put =
      λ m d. other_rank m (s, key_value_map) [] d (λ h. h tt) in
    then
      (take (put ∷ []) others [] (s, server_map)
        (lock (s, curr_server_info) ∷ access (s, server_map) ∷ join_rest s) refl
        (
          store (s, server_map) (λ e. omega arith),
          ((λ h. h tt), Idle-Without (s, server_map) others idle),
        )
        refl)
      (then
        (take (put ∷ []) others ((s, server_map) ∷ []) (s, curr_server_info)
          (access (s, server_map) ∷ join_rest s) refl
          (
            store (s, curr_server_info) (λ e. omega arith),
            (
              other_rank (s, curr_server_info) (s, server_map) [] (λ e. omega arith) (λ h. h tt),
              Idle-Without (s, curr_server_info) others idle,
            ),
          )
          refl)
        done)

-- From every state that handlers at any servers can reach and in which all have ended, a
-- PutKVServer, of an old or a new key, and a JoinClusterAsServer that start at one server can come
-- to a state in which both are about to use its serverMap.
pub put_race :
    {threads : List Thread} (s : String) (old : Bool)
    → Reach threads
    → All Ended threads
    → (n : ℕ) × (later : List Thread) × Steps n
        (thread [] (program (put_kv_server s old))
          ∷ thread [] (program (join_cluster_as_server s))
          ∷ threads)
        later
      × Contended (s, server_map) later
put_race {threads} s old r ended =
    let idle = Ended-Idle threads (Reach-Good r) ended in
    let rest = access (s, server_map) ∷ put_rest s in
    let (n, steps) =
      Steps-append
        (run_put s old (thread [] (program (join_cluster_as_server s)) ∷ threads) (refl, idle))
        (run_join s rest threads idle) in
    (
      n,
      thread ((s, key_value_map) ∷ []) rest
          ∷ thread ((s, curr_server_info) ∷ (s, server_map) ∷ [])
              (access (s, server_map) ∷ join_rest s)
          ∷ threads,
      steps,
      (
        [],
        [],
        threads,
        (s, key_value_map) ∷ [],
        (s, curr_server_info) ∷ (s, server_map) ∷ [],
        put_rest s,
        join_rest s,
        refl,
      ),
    )
