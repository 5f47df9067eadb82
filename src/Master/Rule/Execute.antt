-- ===== src/Master/Rule/Execute.antt =====
-- The loop over the commands of master.go: what holds of the master after each.
use psk_db.Prelude.{
  ℕ, String, Bool, true, false, ◌≡◌, some, List, arith, eq_iff, ◌==◌, Option-cases, inl, inr,
  if_rule, if◌then◌else◌, get_elem?,
}
use psk_db.Dict.{lookup, contains}
use psk_db.Master.State.{Master, Outcome, Call, print_store, print_membership_list}
use psk_db.Master.Waiting.{wait_for_start}
use psk_db.Master.Commands.{
  World, with_arg, join_server, join_client, break_link, create_link, put_words, get_words,
  later_commands, execute,
}
use psk_db.Master.Rule.{
  After, with_server, with_client, without_server, connection-After, ask_server-After,
  ask_client-After, stabilize_command-After, kill_server_command-After, after_start-After,
}

module _ (P : Master → Type 0) where
  with_arg_rule :
      (words : List String) (i : ℕ) (f : String → Outcome)
      → ((word : String) → get_elem? words i ≡ some word → After P (f word))
      → After P (with_arg words i f)
  with_arg_rule words i f keeps = elim (Option-cases (get_elem? words i)) [
    | inl e ↦ rw (e, with_arg) tt
    | inr (word, e) ↦ rw (e, with_arg) (keeps word e)
  ]

  with_arg-After :
      (words : List String) (i : ℕ) (f : String → Outcome)
      → ((word : String) → After P (f word))
      → After P (with_arg words i f)
  with_arg-After words i f keeps = with_arg_rule words i f (λ word e. keeps word)

  put_words-After :
      (words : List String) (f : Call → Outcome)
      → ((call : Call) → After P (f call))
      → After P (put_words words f)
  put_words-After words f keeps =
      with_arg-After words 2 _ (λ key. with_arg-After words 3 _ (λ value. keeps _))

  get_words-After :
      (words : List String) (f : Call → Outcome)
      → ((call : Call) → After P (f call))
      → After P (get_words words f)
  get_words-After words f keeps = with_arg-After words 2 _ (λ key. keeps _)

  two_args-After :
      (words : List String) (f : String → String → Outcome)
      → ((a b : String) → After P (f a b))
      → After P (with_arg words 1 (λ a. with_arg words 2 (λ b. f a b)))
  two_args-After words f keeps =
      with_arg-After words 1 _ (λ a. with_arg-After words 2 _ (λ b. keeps a b))

  choose : (b : Bool) (x y : Outcome) → (After P) x → (After P) y → After P (if b then x else y)
  choose true x y h k = h
  choose false x y h k = k

  join_server-After :
      (w : World) (id : String) (m : Master) → P (with_server id m) → After P (join_server w id m)
  unfolding join_server
  join_server-After w id m p =
      if_rule (After P) w.starts _ _
        (λ _. after_start-After P _ p _ (wait_for_start w.pings w.patience 0)) (λ _. tt)

  join_client-After :
      (w : World) (client server : String) (m : Master)
      → P m
      → P (with_client client m)
      → After P (join_client w client server m)
  unfolding join_client
  join_client-After w client server m v p =
      if_rule (After P) (contains client m.server_node_map) _ _ (λ _. v)
        (λ _.
          if_rule (After P) (contains server m.client_node_map) _ _ (λ _. v)
            (λ _.
              if_rule (After P) (contains client m.client_node_map) _ _ (λ _. v)
                (λ _. elim (Option-cases (lookup server m.server_node_map)) [
                  | inl e ↦ rw e v
                  | inr (port, e) ↦ rw e (
                      if_rule (After P) w.starts _ _
                        (λ _. after_start-After P _ p _ (wait_for_start w.pings w.patience 0))
                        (λ _. tt))
                ])))

  -- The commands that follow joinServer in the switch.
  others_rule :
      (w : World) (words : List String) (m : Master) (c : String)
      → P m
      → ((id : String) → P (with_client id m))
      → ((id : String) → P (without_server id m))
      → After P (later_commands w words m c)
  others_rule w words m c v client gone =
      choose (c == "killServer") _ _
        (with_arg-After words 1 _ (λ id. kill_server_command-After P m v w.reachable id (gone id)))
        (choose (c == "joinClient") _ _
          (two_args-After words _ (λ a b. join_client-After w a b m v (client a)))
          (choose (c == "breakConnection") _ _
            (two_args-After words _ (λ a b. connection-After P m v break_link w.reachable a b))
            (choose (c == "createConnection") _ _
              (two_args-After words _ (λ a b. connection-After P m v create_link w.reachable a b))
              (choose (c == "stabilize") _ _ (stabilize_command-After P m v w) (
                choose (c == "printStore") _ _
                  (with_arg-After words 1 _
                    (λ id. ask_server-After P m v print_store w.reachable id))
                  (choose (c == "put") _ _
                    (with_arg-After words 1 _ (λ id.
                      ask_client-After P m v (put_words words) w.reachable id
                        (put_words-After words)))
                    (choose (c == "get") _ _
                      (with_arg-After words 1 _ (λ id.
                        ask_client-After P m v (get_words words) w.reachable id
                          (get_words-After words)))
                      (choose (c == "printMemberList") _ _
                        (with_arg-After words 1 _
                          (λ id. ask_server-After P m v print_membership_list w.reachable id))
                        v))))))))

  -- A predicate holds after a command if it held before and is kept where the command changes the
  -- ports.
  pub execute_rule :
      (w : World) (words : List String) (m : Master)
      → P m
      → ((id : String) → get_elem? words 0 ≡ some "joinServer" → P (with_server id m))
      → ((id : String) → P (with_client id m))
      → ((id : String) → P (without_server id m))
      → After P (execute w words m)
  unfolding execute
  execute_rule w words m v server client gone = with_arg_rule words 0 _ (λ c e.
      choose (c == "done") _ _ tt (
        if_rule (After P) (c == "joinServer") _ _
          (λ h.
            with_arg-After words 1 _
              (λ id. join_server-After w id m (server id (ground (arith, eq_iff c "joinServer")))))
          (λ _. others_rule w words m c v client gone)))
