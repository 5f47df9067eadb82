-- ===== src/Master/Script/Addresses.antt =====
-- The addresses that master.go gives to the nodes over a whole input.
use psk_db.Prelude.{
  ℕ, ◌+◌, ◌≤◌, String, ◌≡◌, sym, ◌∙◌, ap, subst, Option, some, List, [], ◌∷◌, arith, get_elem?,
  Option-cases, inl, inr,
}
use mathlib.Core.Option
use psk_db.Dict.{lookup}
use psk_db.Master.State.{
  Master, init, split, local_address, Action, Outcome, next, finished, panicked, waiting,
}
use psk_db.Master.Commands.{World, execute}
use psk_db.Master.Rule.{After}
use psk_db.Master.Rule.Execute.{execute_rule}
use psk_db.Master.Ports.{IsValid, with_server-IsValid, with_client-IsValid, without_server-IsValid}
use psk_db.Master.Addresses.{local_address-injective}
use psk_db.Master.Script.{go_on, after_actions, run_lines, is_join, count_joins}

-- Well formed, with the port for the next server at most `limit`.
abbrev Within : ℕ → Master → Type 0
Within limit m = IsValid m × (m.server_next_port ≤ limit)

after_actions-After :
    (P : Master → Type 0) (actions : List Action) (o : Outcome)
    → After P o
    → After P (after_actions actions o)
after_actions-After P actions (next m later) h = h
after_actions-After P actions (finished later) h = tt
after_actions-After P actions (panicked later) h = tt
after_actions-After P actions (waiting later) h = tt

go_on-After :
    (P Q : Master → Type 0) (o : Outcome) (f : Master → Outcome)
    → After P o
    → ((m : Master) → P m → After Q (f m))
    → After Q (go_on o f)
go_on-After P Q (next m actions) f h k = after_actions-After Q actions (f m) (k m h)
go_on-After P Q (finished actions) f h k = tt
go_on-After P Q (panicked actions) f h k = tt
go_on-After P Q (waiting actions) f h k = tt

execute-Within :
    (w : World) (words : List String) (m : Master) (limit : ℕ)
    → Within limit m
    → After (Within (is_join (get_elem? words 0) + limit)) (execute w words m)
execute-Within w words m limit v =
    execute_rule (Within (is_join (get_elem? words 0) + limit)) w words m (v.0, omega (arith, v.1))
      (λ id e. (with_server-IsValid id m v.0, rw e (omega (arith, v.1))))
      (λ id. (with_client-IsValid id m v.0, omega (arith, v.1)))
      (λ id. (without_server-IsValid id m v.0, omega (arith, v.1)))

run_lines-Within :
    (lines : List (World × String)) (m : Master) (limit : ℕ)
    → Within limit m
    → After (Within (count_joins lines + limit)) (run_lines lines m)
unfolding run_lines
run_lines-Within [] m limit v = (v.0, omega (arith, v.1))
run_lines-Within ((w, line) ∷ lines) m limit v =
    let joined = is_join (get_elem? (split line) 0) in
    subst (λ n. After (Within n) (run_lines ((w, line) ∷ lines) m)) (omega arith)
      (go_on-After (Within (joined + limit)) (Within (count_joins lines + (joined + limit)))
        (execute w (split line) m) (run_lines lines) (execute-Within w (split line) m limit v)
        (λ m' h. run_lines-Within lines m' (joined + limit) h))

init-IsValid : IsValid init
unfolding lookup
init-IsValid = record {
  servers = record {
    within = λ id p h. absurd (ground arith);
    apart = λ id other p h k. absurd (ground arith);
  };
  clients = record {
    within = λ id p h. absurd (ground arith);
    apart = λ id other p h k. absurd (ground arith);
  };
  low = (omega arith, omega arith);
}

-- A node by its kind and its id.
pub data Node : Type 0 where
  server client : String → Node

abbrev pub port_of_node : Master → Node → Option ℕ
port_of_node m (server id) = lookup id m.server_node_map
port_of_node m (client id) = lookup id m.client_node_map

-- The address under which the master calls a node.
abbrev pub address_of_node : Master → Node → Option String
address_of_node m node = Option.map local_address (port_of_node m node)

ports_apart :
    (m : Master) (limit : ℕ) (a b : Node) (p q : ℕ)
    → Within limit m
    → limit ≤ 10000
    → port_of_node m a ≡ some p
    → port_of_node m b ≡ some q
    → p ≡ q
    → a ≡ b
ports_apart m limit (server i) (server j) p q v l h k e =
    ap server (v.0.servers.apart i j p h (k ∙ ap some (sym e)))
ports_apart m limit (client i) (client j) p q v l h k e =
    ap client (v.0.clients.apart i j p h (k ∙ ap some (sym e)))
ports_apart m limit (server i) (client j) p q v l h k e =
    absurd (omega (arith, v.0.servers.within i p h, v.0.clients.within j q k, v.1))
ports_apart m limit (client i) (server j) p q v l h k e =
    absurd (omega (arith, v.0.clients.within i p h, v.0.servers.within j q k, v.1))

-- After any lines of input that end without an error, if at most 1000 of them are joinServer, two
-- nodes that the master calls under one address are the same node.
pub addresses_apart :
    (lines : List (World × String)) (m : Master) (actions : List Action) (a b : Node)
    (address : String)
    → count_joins lines ≤ 1000
    → run_lines lines init ≡ next m actions
    → address_of_node m a ≡ some address
    → address_of_node m b ≡ some address
    → a ≡ b
addresses_apart lines m actions a b address few run h k = elim (Option-cases (port_of_node m a)) [
  | inl e ↦ absurd (ground (arith, e))
  | inr (p, e) ↦ elim (Option-cases (port_of_node m b)) [
    | inl f ↦ absurd (ground (arith, f))
    | inr (q, f) ↦
        let v : Within (count_joins lines + 9000) m =
          subst (After (Within (count_joins lines + 9000))) run
            (run_lines-Within lines init 9000 (init-IsValid, omega arith)) in
        ports_apart m (count_joins lines + 9000) a b p q v (omega arith) e f
          (local_address-injective p q (ground (arith, e, f)))
  ]
]
