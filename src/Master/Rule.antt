-- ===== src/Master/Rule.antt =====
-- What holds of the master after a command of master.go that ends: a rule for all commands.
pub mod Execute
use psk_db.Prelude.{
  ℕ, ◌+◌, String, Bool, true, false, ◌≡◌, Option, none, some, List, arith, eq_iff, ◌==◌,
  Option-cases, inl, inr, if_rule, if◌then◌else◌, length, get_elem?, ◌&&◌, ◌||◌, not,
}
use psk_db.Dict.{Dict, lookup, insert, delete, contains}
use psk_db.Master.State.{
  Master, Outcome, next, Action, Call, local_address, print_store, print_membership_list,
}
use psk_db.Master.Waiting.{wait_for_start, wait_for_acks}
use psk_db.Master.Commands.{
  World, with_arg, after_start, join_server, kill_server_command, join_client, connection, Link,
  break_link, create_link, port_of, link_servers, link_client, ask_server, ask_client, put_words,
  get_words, stabilize_command, later_commands, execute,
}

-- The master that goes on, where one does.
abbrev pub After : (Master → Type 0) → Outcome → Type 0
After P (next m actions) = P m
After P _ = Unit

-- The master that has given out a port to a server.
abbrev pub with_server : String → Master → Master
with_server id m = record m {
  server_node_map = insert id m.server_next_port m.server_node_map;
  server_next_port = m.server_next_port + 1;
}

abbrev pub with_client : String → Master → Master
with_client id m = record m {
  client_node_map = insert id m.client_next_port m.client_node_map;
  client_next_port = m.client_next_port + 1;
}

abbrev pub without_server : String → Master → Master
without_server id m = record m { server_node_map = delete id m.server_node_map }

-- The commands that change no variable: whatever they do, they end with the same master.
module _ (P : Master → Type 0) (m : Master) (v : P m) where
  pub link_servers-After :
      (link : Link) (reachable : String → Bool) (a b : String)
      → After P (link_servers link reachable a b m)
  unfolding link_servers
  link_servers-After link reachable a b =
      if_rule (After P) (reachable (local_address (port_of a m.server_node_map))) _ _
        (λ _.
          if_rule (After P) (reachable (local_address (port_of b m.server_node_map))) _ _ (λ _. v)
            (λ _. tt))
        (λ _. tt)

  pub link_client-After :
      (link : Link) (reachable : String → Bool) (a b : String)
      → After P (link_client link reachable a b m)
  unfolding link_client
  link_client-After link reachable a b =
      if_rule (After P) (reachable (local_address (port_of b m.client_node_map))) _ _ (λ _. v)
        (λ _. tt)

  pub connection-After :
      (link : Link) (reachable : String → Bool) (a b : String)
      → After P (connection link reachable a b m)
  unfolding connection
  connection-After link reachable a b =
      if_rule (After P) (not (contains a m.server_node_map || contains a m.client_node_map)) _ _
        (λ _. v)
        (λ _.
          if_rule (After P) (not (contains b m.server_node_map || contains b m.client_node_map)) _ _
            (λ _. v)
            (λ _.
              if_rule (After P) (contains a m.client_node_map && contains b m.client_node_map) _ _
                (λ _. v)
                (λ _.
                  if_rule (After P) (contains a m.server_node_map && contains b m.server_node_map) _
                    _ (λ _. link_servers-After link reachable a b)
                    (λ _.
                      if_rule (After P)
                        (contains a m.client_node_map && contains b m.server_node_map) _ _
                        (λ _. link_client-After link reachable b a)
                        (λ _. link_client-After link reachable a b)))))

  pub ask_server-After :
      (call : Call) (reachable : String → Bool) (id : String)
      → After P (ask_server call reachable id m)
  unfolding ask_server
  ask_server-After call reachable id = elim (Option-cases (lookup id m.server_node_map)) [
    | inl e ↦ rw (e, ask_server) v
    | inr (port, e) ↦
        rw (e, ask_server)
          (if_rule (After P) (reachable (local_address port)) _ _ (λ _. v) (λ _. v))
  ]

  pub ask_client-After :
      (with_call : (Call → Outcome) → Outcome) (reachable : String → Bool) (id : String)
      → ((f : Call → Outcome) → ((call : Call) → After P (f call)) → After P (with_call f))
      → After P (ask_client with_call reachable id m)
  unfolding ask_client
  ask_client-After with_call reachable id keeps =
      elim (Option-cases (lookup id m.client_node_map)) [
        | inl e ↦ rw (e, ask_client) v
        | inr (port, e) ↦
            rw (e, ask_client)
              (if_rule (After P) (reachable (local_address port)) _ _ (λ _. keeps _ (λ call. v))
                (λ _. v))
      ]

  pub stabilize_command-After : (w : World) → After P (stabilize_command w m)
  unfolding stabilize_command
  stabilize_command-After w =
      elim (Option-cases (wait_for_acks (length m.server_node_map) 0 w.received)) [
        | inl e ↦ rw e tt
        | inr (later, e) ↦ rw e v
      ]

  pub kill_server_command-After :
      (reachable : String → Bool) (id : String)
      → P (without_server id m)
      → After P (kill_server_command reachable id m)
  unfolding kill_server_command
  kill_server_command-After reachable id p = elim (Option-cases (lookup id m.server_node_map)) [
    | inl e ↦ rw (e, kill_server_command) v
    | inr (port, e) ↦
        rw (e, kill_server_command)
          (if_rule (After P) (reachable (local_address port)) _ _ (λ _. p) (λ _. v))
  ]

  pub after_start-After : (a : Action) (started : Option Bool) → After P (after_start m a started)
  after_start-After a none = tt
  after_start-After a (some true) = v
  after_start-After a (some false) = v
