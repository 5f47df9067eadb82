-- ===== src/Cluster/Mutexes/Exclusion.antt =====
-- What the mutexes of server/server.go protect.
use psk_db.Prelude.{◌≡◌, refl, sym, subst, List, [], ◌∷◌, ◌++◌, All, In, ◌⊎◌, inl, inr}
use psk_db.Cluster.Mutexes.{
  blacklist_map, server_map, key_value_map, curr_server_info, write_log, Mutex, Op, lock, unlock,
  access, send_done, program, Thread, thread, Without, Step, take, release, touch, Receive, receive,
  Reach, idle, step, taken, start,
}
use psk_db.Cluster.Mutexes.Order.{Covered, All-middle, All-replaced, Good, Reach-Good}

-- The two hold no mutex both.
abbrev Apart : Thread → Thread → Type 0
Apart t u = (m : Mutex) → In m t.held → In m u.held → ⊥

-- No mutex is held by two handlers.
abbrev AllApart : List Thread → Type 0
AllApart [] = Unit
AllApart (t ∷ threads) = All (Apart t) threads × AllApart threads

-- What the second holds, the first held, or none of these.
abbrev HeldOrFree : Thread → Thread → List Thread → Type 0
HeldOrFree x y threads = (m : Mutex) → In m y.held → In m x.held ⊎ All (Without m) threads

Apart-swap :
    (x y : Thread) (after : List Thread)
    → HeldOrFree x y after
    → All (Apart x) after
    → All (Apart y) after
Apart-swap x y [] n a = tt
Apart-swap x y (u ∷ after) n a = (
  λ m p q. elim (n m p) [ inl h ↦ a.0 m h q | inr w ↦ w.0 q ],
  Apart-swap x y after (λ m p. elim (n m p) [ inl h ↦ inl h | inr w ↦ inr w.1 ]) a.1,
)

AllApart-replaced :
    (before : List Thread) (x y : Thread) (after : List Thread)
    → HeldOrFree x y (before ++ x ∷ after)
    → AllApart (before ++ x ∷ after)
    → AllApart (before ++ y ∷ after)
AllApart-replaced [] x y after n a =
    (Apart-swap x y after (λ m p. elim (n m p) [ inl h ↦ inl h | inr w ↦ inr w.1 ]) a.0, a.1)
AllApart-replaced (z ∷ before) x y after n a = (
  All-replaced (Apart z) before x y after a.0 (λ m q p. elim (n m p) [
    | inl h ↦ All-middle (Apart z) before x after a.0 m q h
    | inr w ↦ w.0 q
  ]),
  AllApart-replaced before x y after (λ m p. elim (n m p) [ inl h ↦ inl h | inr w ↦ inr w.1 ]) a.1,
)

Step-AllApart :
    {threads later : List Thread} → Step threads later → AllApart threads → AllApart later
Step-AllApart (take before after held m ops e free f) a = subst AllApart (sym f) (
    AllApart-replaced before (thread held (lock m ∷ ops)) (thread (m ∷ held) ops) after
      (λ n p. elim p [
        | inl h ↦ inr (
            subst (λ k. All (Without k) (before ++ thread held (lock m ∷ ops) ∷ after)) h
              (subst (All (Without m)) e free))
        | inr h ↦ inl h
      ])
      (subst AllApart e a))
Step-AllApart (release before after held m ops e f) a = subst AllApart (sym f) (
    AllApart-replaced before (thread (m ∷ held) (unlock m ∷ ops)) (thread held ops) after
      (λ n p. inl (inr p)) (subst AllApart e a))
Step-AllApart (touch before after held m ops e f) a = subst AllApart (sym f) (
    AllApart-replaced before (thread held (access m ∷ ops)) (thread held ops) after (λ n p. inl p)
      (subst AllApart e a))

Receive-AllApart :
    {threads later : List Thread} → Receive threads later → AllApart threads → AllApart later
Receive-AllApart (receive before after held s ops e f) a = subst AllApart (sym f) (
    AllApart-replaced before (thread held (send_done s ∷ ops)) (thread held ops) after
      (λ n p. inl p) (subst AllApart e a))

idle_Apart : (t : Thread) (threads : List Thread) → t.held ≡ [] → All (Apart t) threads
idle_Apart t [] e = tt
idle_Apart t (u ∷ threads) e = (λ m p q. absurd (subst (In m) e p tt), idle_Apart t threads e)

Reach-AllApart : {threads : List Thread} → Reach threads → AllApart threads
Reach-AllApart idle = tt
Reach-AllApart (step r s) = Step-AllApart s (Reach-AllApart r)
Reach-AllApart (taken r s) = Receive-AllApart s (Reach-AllApart r)
Reach-AllApart (start h r) = (idle_Apart (thread [] (program h)) _ refl, Reach-AllApart r)

All-after :
    (P : Thread → Type 0) (before : List Thread) (x : Thread) (after : List Thread)
    → All P (before ++ x ∷ after)
    → All P after
All-after P [] x after h = h.1
All-after P (y ∷ before) x after h = All-after P before x after h.1

AllApart-middle :
    (before : List Thread) (x : Thread) (after : List Thread)
    → AllApart (before ++ x ∷ after)
    → All (Apart x) after
AllApart-middle [] x after a = a.0
AllApart-middle (y ∷ before) x after a = AllApart-middle before x after a.1

Covered-In :
    (m : Mutex) (held : List Mutex)
    → Covered m held
    → In m held ⊎ (m.1 ≡ server_map) ⊎ (m.1 ≡ blacklist_map)
Covered-In (s, blacklist_map) held c = inr (inr refl)
Covered-In (s, server_map) held c = inr (inl refl)
Covered-In (s, key_value_map) held c = inl c
Covered-In (s, curr_server_info) held c = inl c
Covered-In (s, write_log) held c = inl c

-- Two handlers are about to use the variable at once.
abbrev pub Contended : Mutex → List Thread → Type 0
Contended m threads =
    (before middle after : List Thread) × (held other : List Mutex) × (ops rest : List Op)
    × (threads
        ≡ before
          ++ thread held (access m ∷ ops) ∷ (middle ++ thread other (access m ∷ rest) ∷ after))

-- In every state that handlers at any servers can reach, if two of them are about to use one
-- variable that has a mutex, it is the serverMap or the blacklistMap of a server: never the store,
-- the clock or the write log.
pub race_variables :
    {threads : List Thread} (m : Mutex)
    → Reach threads
    → Contended m threads
    → (m.1 ≡ server_map) ⊎ (m.1 ≡ blacklist_map)
race_variables {threads} m r (before, middle, after, held, other, ops, rest, e) =
    let t = thread held (access m ∷ ops) in
    let u = thread other (access m ∷ rest) in
    let good = subst (All Good) e (Reach-Good r) in
    let apart = subst AllApart e (Reach-AllApart r) in
    let first : Good t = All-middle Good before t (middle ++ u ∷ after) good in
    let second : Good u =
      All-middle Good middle u after (All-after Good before t (middle ++ u ∷ after) good) in
    elim (Covered-In m held first.0) [
      | inr v ↦ v
      | inl p ↦ elim (Covered-In m other second.0) [
        | inr v ↦ v
        | inl q ↦ absurd (
            All-middle (Apart t) middle u after
              (AllApart-middle before t (middle ++ u ∷ after) apart) m p q)
      ]
    ]
