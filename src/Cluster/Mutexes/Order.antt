-- ===== src/Cluster/Mutexes/Order.antt =====
-- The order in which the handlers of server/rpc.go lock their mutexes.
use psk_db.Prelude.{
  ℕ, ◌<◌, String, true, false, ◌≡◌, refl, none, some, sym, subst, List, [], ◌∷◌, ◌++◌, All, In, inl,
  inr, arith,
}
use psk_db.Cluster.Mutexes.{
  Kind, blacklist_map, server_map, key_value_map, curr_server_info, write_log, Mutex, Op, lock,
  unlock, access, send_done, Handler, join_cluster_as_server, heartbeat_notification,
  print_membership_list, new_server_notification, kill_server_notification, kill_server,
  async_call_handler, get_server_info, get_kv_server, send_kv_data, break_connection, print_store,
  heartbeat_round, put_kv_server, process_remote_write, join_other, create_connection, stabilize,
  send_ops, stabilize_ops, program, Thread, thread, Step, take, release, touch, Receive, receive,
  Reach, idle, step, taken, start,
}

-- The order in which the mutexes are locked.
abbrev pub kind_rank : Kind → ℕ
kind_rank blacklist_map = 0
kind_rank server_map = 1
kind_rank key_value_map = 2
kind_rank curr_server_info = 3
kind_rank write_log = 4

abbrev pub rank : Mutex → ℕ
rank m = kind_rank m.1

-- The store, the clock and the write log are used with their mutex held.
abbrev pub Covered : Mutex → List Mutex → Type 0
Covered (s, blacklist_map) held = Unit
Covered (s, server_map) held = Unit
Covered (s, key_value_map) held = In (s, key_value_map) held
Covered (s, curr_server_info) held = In (s, curr_server_info) held
Covered (s, write_log) held = In (s, write_log) held

-- Each lock is above all that are held, each is freed, the last one first.
abbrev pub Ordered : List Op → List Mutex → Type 0
Ordered [] [] = Unit
Ordered [] (h ∷ held) = ⊥
Ordered (lock m ∷ ops) held = All (λ h. rank h < rank m) held × Ordered ops (m ∷ held)
Ordered (access m ∷ ops) held = Covered m held × Ordered ops held
Ordered (send_done s ∷ ops) held = Ordered ops held
Ordered (unlock m ∷ ops) [] = ⊥
Ordered (unlock m ∷ ops) (h ∷ held) = (h ≡ m) × Ordered ops held

send_ops-Ordered :
    (s : String) (members : List String) (later : List Op)
    → Ordered later ((s, server_map) ∷ [])
    → Ordered (send_ops s members later) ((s, server_map) ∷ [])
send_ops-Ordered s [] later h = h
send_ops-Ordered s (other ∷ members) later h = ground (arith, send_ops-Ordered s members later h)

stabilize_ops-Ordered :
    (s : String) (rounds : List (List String)) → Ordered (stabilize_ops s rounds) []
stabilize_ops-Ordered s [] = tt
stabilize_ops-Ordered s (members ∷ rounds) =
    (tt, (tt, send_ops-Ordered s members _ (refl, stabilize_ops-Ordered s rounds)))

program-Ordered : (h : Handler) → Ordered (program h) []
program-Ordered (join_cluster_as_server s) = ground arith
program-Ordered (heartbeat_notification s) = ground arith
program-Ordered (print_membership_list s) = ground arith
program-Ordered (new_server_notification s) = ground arith
program-Ordered (kill_server_notification s) = ground arith
program-Ordered (kill_server s) = ground arith
program-Ordered (async_call_handler s) = ground arith
program-Ordered (get_server_info s) = ground arith
program-Ordered (get_kv_server s) = ground arith
program-Ordered (send_kv_data s) = ground arith
program-Ordered (break_connection s) = ground arith
program-Ordered (print_store s) = ground arith
program-Ordered (heartbeat_round s) = ground arith
program-Ordered (put_kv_server s true) = ground arith
program-Ordered (put_kv_server s false) = ground arith
program-Ordered (process_remote_write s true) = ground arith
program-Ordered (process_remote_write s false) = ground arith
program-Ordered (join_other s other) = ground arith
program-Ordered (create_connection s none) = ground arith
program-Ordered (create_connection s (some other)) = ground arith
program-Ordered (stabilize s rounds) = stabilize_ops-Ordered s rounds

module _ {A : Type 0} (P : A → Type 0) where
  pub All-middle : (before : List A) (x : A) (after : List A) → All P (before ++ x ∷ after) → P x
  All-middle [] x after h = h.0
  All-middle (y ∷ before) x after h = All-middle before x after h.1

  pub All-replaced :
      (before : List A) (x y : A) (after : List A)
      → All P (before ++ x ∷ after)
      → P y
      → All P (before ++ y ∷ after)
  All-replaced [] x y after h p = (p, h.1)
  All-replaced (z ∷ before) x y after h p = (h.0, All-replaced before x y after h.1 p)

  pub All-In : (x : A) (xs : List A) → In x xs → All P xs → P x
  All-In x [] m h = absurd (m tt)
  All-In x (y ∷ xs) (inl e) h = subst P e h.0
  All-In x (y ∷ xs) (inr m) h = All-In x xs m h.1

abbrev pub Good : Thread → Type 0
Good t = Ordered t.rest t.held

Step-Good : {threads later : List Thread} → Step threads later → All Good threads → All Good later
Step-Good (take before after held m ops e free f) good =
    let middle : Good (thread held (lock m ∷ ops)) =
      All-middle Good before _ after (subst (All Good) e good) in
    subst (All Good) (sym f) (All-replaced Good before _ _ after (subst (All Good) e good) middle.1)
Step-Good (release before after held m ops e f) good =
    let middle : Good (thread (m ∷ held) (unlock m ∷ ops)) =
      All-middle Good before _ after (subst (All Good) e good) in
    subst (All Good) (sym f) (All-replaced Good before _ _ after (subst (All Good) e good) middle.1)
Step-Good (touch before after held m ops e f) good =
    let middle : Good (thread held (access m ∷ ops)) =
      All-middle Good before _ after (subst (All Good) e good) in
    subst (All Good) (sym f) (All-replaced Good before _ _ after (subst (All Good) e good) middle.1)

Receive-Good :
    {threads later : List Thread} → Receive threads later → All Good threads → All Good later
Receive-Good (receive before after held s ops e f) good =
    let middle : Good (thread held (send_done s ∷ ops)) =
      All-middle Good before _ after (subst (All Good) e good) in
    subst (All Good) (sym f) (All-replaced Good before _ _ after (subst (All Good) e good) middle)

pub Reach-Good : {threads : List Thread} → Reach threads → All Good threads
Reach-Good idle = tt
Reach-Good (step r s) = Step-Good s (Reach-Good r)
Reach-Good (taken r s) = Receive-Good s (Reach-Good r)
Reach-Good (start h r) = (program-Ordered h, Reach-Good r)
