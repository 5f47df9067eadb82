-- ===== src/Cluster/Mutexes/Progress.antt =====
-- Why the handlers of server/rpc.go do not wait for one another's mutexes in a circle.
use psk_db.Prelude.{
  ℕ, String, zero, suc, ◌+◌, ◌≤◌, ◌<◌, ◌≡◌, refl, sym, ap, ◌∙◌, subst, List, [], ◌∷◌, ◌++◌, All, In,
  ◌⊎◌, inl, inr, arith, eqb, ◌==◌, eq_iff, Bool-cases,
}
use psk_db.Cluster.Mutexes.{
  Kind, blacklist_map, server_map, key_value_map, curr_server_info, write_log, Mutex, Op, lock,
  unlock, access, send_done, Thread, thread, Without, Step, take, release, touch, Reach,
}
use psk_db.Cluster.Mutexes.Order.{kind_rank, rank, Ordered, All-middle, All-In, Good, Reach-Good}

kind_of : ℕ → Kind
kind_of zero = blacklist_map
kind_of (suc zero) = server_map
kind_of (suc (suc zero)) = key_value_map
kind_of (suc (suc (suc zero))) = curr_server_info
kind_of (suc (suc (suc (suc n)))) = write_log

kind_of-kind_rank : (k : Kind) → kind_of (kind_rank k) ≡ k
unfolding kind_of
kind_of-kind_rank blacklist_map = refl
kind_of-kind_rank server_map = refl
kind_of-kind_rank key_value_map = refl
kind_of-kind_rank curr_server_info = refl
kind_of-kind_rank write_log = refl

kind_rank-injective : (k l : Kind) → kind_rank k ≡ kind_rank l → k ≡ l
kind_rank-injective k l e = sym (kind_of-kind_rank k) ∙ ap kind_of e ∙ kind_of-kind_rank l

same_mutex : (m n : Mutex) → (m ≡ n) ⊎ (m ≡ n → ⊥)
same_mutex m n = elim (Bool-cases (m.0 == n.0)) [
  | inr f ↦ inr (λ e. ground (arith, eq_iff m.0 n.0, ap (λ (x : Mutex). x.0) e))
  | inl s ↦ elim (Bool-cases (eqb (rank m) (rank n))) [
    | inr f ↦ inr (λ e. ground (arith, ap rank e))
    | inl r ↦ inl (λ i. ((eq_iff m.0 n.0).0 s i, kind_rank-injective m.1 n.1 (ground arith) i))
  ]
]

is_held : (m : Mutex) (held : List Mutex) → In m held ⊎ (In m held → ⊥)
is_held m [] = inr (λ h. h tt)
is_held m (n ∷ held) = elim (same_mutex n m) [
  | inl e ↦ inl (inl e)
  | inr d ↦ elim (is_held m held) [
    | inl h ↦ inl (inr h)
    | inr n ↦ inr (λ h. elim h [ inl e ↦ d e | inr h ↦ n h ])
  ]
]

-- A mutex is held by some handler, or by none.
holder :
    (m : Mutex) (threads : List Thread)
    → ((before : List Thread) × (u : Thread) × (after : List Thread) × (threads
          ≡ before ++ u ∷ after)
        × In m u.held)
      ⊎ All (Without m) threads
holder m [] = inr tt
holder m (t ∷ threads) = elim (is_held m t.held) [
  | inl h ↦ inl ([], t, threads, refl, h)
  | inr n ↦ elim (holder m threads) [
    | inl (before, u, after, e, h) ↦ inl (t ∷ before, u, after, ap (◌∷◌ t) e, h)
    | inr all ↦ inr (n, all)
  ]
]

-- The handler goes on, and if it locks a mutex, then one of at least this rank.
abbrev Next : ℕ → List Op → Type 0
Next r [] = ⊥
Next r (lock m ∷ ops) = r ≤ rank m
Next r (unlock m ∷ ops) = Unit
Next r (access m ∷ ops) = Unit
Next r (send_done s ∷ ops) = Unit

Next-held :
    (m : Mutex) (held : List Mutex) (ops : List Op)
    → In m held
    → Ordered ops held
    → Next (suc (rank m)) ops
Next-held m [] [] h o = absurd (h tt)
Next-held m (n ∷ held) [] h o = absurd o
Next-held m held (lock n ∷ ops) h o = omega (arith, All-In (λ k. rank k < rank n) m held h o.0)
Next-held m held (unlock n ∷ ops) h o = tt
Next-held m held (access n ∷ ops) h o = tt
Next-held m held (send_done s ∷ ops) h o = tt

kind_rank-lt : (k : Kind) → kind_rank k < 5
kind_rank-lt blacklist_map = omega arith
kind_rank-lt server_map = omega arith
kind_rank-lt key_value_map = omega arith
kind_rank-lt curr_server_info = omega arith
kind_rank-lt write_log = omega arith

-- A KillServer sends to the heartbeat thread.
abbrev pub AtChannel : List Thread → Type 0
AtChannel threads =
    (before after : List Thread) × (held : List Mutex) × (s : String) × (ops : List Op) × (threads
      ≡ before ++ thread held (send_done s ∷ ops) ∷ after)

abbrev Moves : List Thread → Type 0
Moves threads = ((later : List Thread) × Step threads later) ⊎ AtChannel threads

-- From a handler that goes on, by the holders of what it and they wait for, to one that can.
search_mover :
    (fuel r : ℕ) (threads before after : List Thread) (held : List Mutex) (ops : List Op)
    → threads ≡ before ++ thread held ops ∷ after
    → All Good threads
    → Next r ops
    → 5 ≤ r + fuel
    → Moves threads
search_mover fuel r threads before after held [] e good n h = absurd n
search_mover fuel r threads before after held (access m ∷ ops) e good n h =
    inl (before ++ thread held ops ∷ after, touch before after held m ops e refl)
search_mover fuel r threads before after held (send_done s ∷ ops) e good n h =
    inr (before, after, held, s, ops, e)
search_mover fuel r threads before after [] (unlock m ∷ ops) e good n h =
    absurd (All-middle Good before (thread [] (unlock m ∷ ops)) after (subst (All Good) e good))
search_mover fuel r threads before after (g ∷ held) (unlock m ∷ ops) e good n h =
    let top =
      All-middle Good before (thread (g ∷ held) (unlock m ∷ ops)) after (subst (All Good) e good) in
    inl (
      before ++ thread held ops ∷ after,
      release before after held m ops
          (e ∙ ap (λ x. before ++ thread (x ∷ held) (unlock m ∷ ops) ∷ after) top.0) refl,
    )
search_mover zero r threads before after held (lock m ∷ ops) e good n h =
    absurd (omega (arith, kind_rank-lt m.1))
search_mover (suc fuel) r threads before after held (lock m ∷ ops) e good n h =
    elim (holder m threads) [
      | inr free ↦
          inl (before ++ thread (m ∷ held) ops ∷ after, take before after held m ops e free refl)
      | inl (b, u, a, f, m_held) ↦
          search_mover fuel (suc (rank m)) threads b a u.held u.rest f good
            (Next-held m u.held u.rest m_held (All-middle Good b u a (subst (All Good) f good)))
            (omega arith)
    ]

abbrev pub Ended : Thread → Type 0
Ended t = t.rest ≡ []

goes_on : (ops : List Op) → (ops ≡ []) ⊎ Next 0 ops
goes_on [] = inl refl
goes_on (lock m ∷ ops) = inr (omega arith)
goes_on (unlock m ∷ ops) = inr tt
goes_on (access m ∷ ops) = inr tt
goes_on (send_done s ∷ ops) = inr tt

still_running :
    (threads : List Thread)
    → All Ended threads
      ⊎ ((before : List Thread) × (u : Thread) × (after : List Thread) × (threads
            ≡ before ++ u ∷ after)
          × Next 0 u.rest)
still_running [] = inl tt
still_running (t ∷ threads) = elim (still_running threads) [
  | inr (before, u, after, e, n) ↦ inr (t ∷ before, u, after, ap (◌∷◌ t) e, n)
  | inl all ↦ elim (goes_on t.rest) [ inl e ↦ inl (e, all) | inr n ↦ inr ([], t, threads, refl, n) ]
]

-- In every state that handlers at any servers can reach, whatever the order in which they start and
-- go on, either all have ended, or one of them can lock a mutex that is free, free one that it
-- holds or use a variable, or a KillServer sends on its channel to the heartbeat thread.
pub no_deadlock :
    {threads : List Thread}
    → Reach threads
    → All Ended threads ⊎ ((later : List Thread) × Step threads later) ⊎ AtChannel threads
no_deadlock {threads} r = elim (still_running threads) [
  | inl ended ↦ inl ended
  | inr (before, u, after, e, n) ↦
      inr (search_mover 5 0 threads before after u.held u.rest e (Reach-Good r) n (omega arith))
]
