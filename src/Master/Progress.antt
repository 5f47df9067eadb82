-- ===== src/Master/Progress.antt =====
-- When the waits of master.go end.
use psk_db.Prelude.{
  ℕ, zero, suc, ◌+◌, ◌≤◌, ◌<◌, ◌≡◌, ◌≢◌, refl, sym, ap, ◌∙◌, Option-cases, Bool, false, none, some,
  List, [], ◌∷◌, arith, inl, inr, ◌⊎◌, ◌↔◌, eqb, length, String, Bool-cases,
}
use psk_db.Dict.{Dict}
use psk_db.Server.Membership.{values}
use psk_db.Master.State.{Master, waiting, Action, called, local_address}
use psk_db.Master.Waiting.{
  Ping, no_connection, ping_failed, create_num_retries, wait_for_start, Received, acked, timer,
  wait_for_acks, rounds,
}
use psk_db.Master.Commands.{World, stabilize_command, stabilize_calls}

-- How many calls have ended.
unfoldable pub acks : List Received → ℕ
acks [] = 0
acks (acked err ∷ events) = suc (acks events)
acks (timer ∷ events) = acks events

-- With fewer calls ended than there are nodes, the wait ends exactly when enough more calls end,
-- whatever the timer does.
pub wait_for_acks_iff :
    (num_nodes acks_recv : ℕ) (events : List Received)
    → acks_recv < num_nodes
    → (wait_for_acks num_nodes acks_recv events ≢ none) ↔ (num_nodes ≤ acks_recv + acks events)
unfolding wait_for_acks acks
wait_for_acks_iff num_nodes acks_recv [] h = ((λ k. absurd (k refl)), (λ k. absurd (omega arith)))
wait_for_acks_iff num_nodes acks_recv (timer ∷ events) h =
    wait_for_acks_iff num_nodes acks_recv events h
wait_for_acks_iff num_nodes acks_recv (acked err ∷ events) h =
    elim (Bool-cases (eqb (acks_recv + 1) num_nodes)) [
      | inl e ↦ rw e ((λ k. ground (arith, e)), (λ k. λ n. cc))
      | inr e ↦ rw e (
          let (f, g) = wait_for_acks_iff num_nodes (acks_recv + 1) events (ground (arith, e)) in
          ((λ k. omega (arith, f k)), (λ k. g (omega arith))))
    ]

-- Without a node the wait does not end.
wait_for_acks-none :
    (acks_recv : ℕ) (events : List Received) → wait_for_acks 0 acks_recv events ≡ none
unfolding wait_for_acks
wait_for_acks-none acks_recv [] = refl
wait_for_acks-none acks_recv (timer ∷ events) = wait_for_acks-none acks_recv events
wait_for_acks-none acks_recv (acked err ∷ events) =
    ground (arith, wait_for_acks-none (acks_recv + 1) events)

-- A process that cannot be reached is given up after one look more than there are retries, so fuel
-- for that many is enough.
pub wait_for_start_gives_up :
    (pings : ℕ → Ping) (fuel calls : ℕ)
    → ((i : ℕ) → pings i ≡ no_connection)
    → calls ≤ create_num_retries
    → create_num_retries < calls + fuel
    → wait_for_start pings fuel calls ≡ some false
unfolding wait_for_start
wait_for_start_gives_up pings zero calls all h fits = absurd (omega arith)
wait_for_start_gives_up pings (suc fuel) calls all h fits =
    ground (arith, all (calls + 1), wait_for_start_gives_up pings fuel (calls + 1) all)

-- While the pings fail the master looks on without an end, whatever the fuel.
pub wait_for_start_spins :
    (pings : ℕ → Ping) (fuel calls : ℕ)
    → ((i : ℕ) → pings i ≡ ping_failed)
    → wait_for_start pings fuel calls ≡ none
unfolding wait_for_start
wait_for_start_spins pings zero calls all = refl
wait_for_start_spins pings (suc fuel) calls all =
    ground (arith, all (calls + 1), wait_for_start_spins pings fuel (calls + 1) all)

some-ne-none : {later : List Received} → some later ≡ none → ⊥
some-ne-none h = cc

-- Calls among the actions.
unfoldable pub calls_made : List Action → ℕ
calls_made [] = 0
calls_made (called address call ∷ actions) = suc (calls_made actions)
calls_made (_ ∷ actions) = calls_made actions

-- One of the servers cannot be reached.
abbrev pub SomeUnreachable : (String → Bool) → List ℕ → Type 0
SomeUnreachable reachable [] = ⊥
SomeUnreachable reachable (port ∷ ports) =
    (reachable (local_address port) ≡ false) ⊎ SomeUnreachable reachable ports

calls_made-le :
    (reachable : String → Bool) (n : ℕ) (ports : List ℕ)
    → calls_made (stabilize_calls reachable n ports) ≤ length ports
unfolding calls_made stabilize_calls
calls_made-le reachable n [] = omega arith
calls_made-le reachable n (port ∷ ports) = ground (arith, calls_made-le reachable n ports)

calls_made-lt :
    (reachable : String → Bool) (n : ℕ) (ports : List ℕ)
    → SomeUnreachable reachable ports
    → calls_made (stabilize_calls reachable n ports) < length ports
unfolding calls_made stabilize_calls
calls_made-lt reachable n [] u = absurd u
calls_made-lt reachable n (port ∷ ports) (inl u) = ground (arith, calls_made-le reachable n ports)
calls_made-lt reachable n (port ∷ ports) (inr u) = ground (arith, calls_made-lt reachable n ports u)

length-values : (ports : Dict ℕ) → length (values ports) ≡ length ports
length-values [] = refl
length-values (p ∷ ports) = ap suc (length-values ports)

-- `stabilize` does not end if a server of the list cannot be reached: with at most one end for each
-- call that was made, the master waits on, also past the timeout.
pub stabilize_command_hangs :
    (w : World) (m : Master)
    → SomeUnreachable w.reachable (values m.server_node_map)
    → acks w.received
      ≤ calls_made (
          stabilize_calls w.reachable
            (rounds (length m.server_node_map))
            (values m.server_node_map))
    → stabilize_command w m
      ≡ waiting (
          stabilize_calls w.reachable
            (rounds (length m.server_node_map))
            (values m.server_node_map))
unfolding stabilize_command
stabilize_command_hangs w m u fits =
    let n = length m.server_node_map in
    let few = calls_made-lt w.reachable (rounds n) (values m.server_node_map) u in
    elim (Option-cases (wait_for_acks n 0 w.received)) [
      | inl e ↦ rw e
      | inr (later, e) ↦ absurd (
          omega (
            arith,
            few,
            length-values m.server_node_map,
            (wait_for_acks_iff n 0 w.received
                  (omega (arith, few, length-values m.server_node_map))).0
                (λ z. some-ne-none (sym e ∙ z)),
          ))
    ]
