-- ===== src/Server/Startup/Attempts.antt =====
-- When the loop that joins the cluster ends (main of server/server.go).
use Prim.Native.String.{◌++◌}
use psk_db.Prelude.{
  String, List, [], ◌∷◌, All, ℕ, zero, suc, ◌+◌, ◌≤◌, ◌<◌, ◌≡◌, ◌≢◌, refl, none, arith,
  Option-cases, inl, inr,
}
use psk_db.Server.State.{Time, Server}
use psk_db.Server.Startup.{num_retries, Attempt, not_dialed, join_port, join_ports}

-- While no dial succeeds and there are retries left, the loop does not end, whatever the fuel: a
-- failed dial is not counted as a retry.
pub join_port_spins :
    (now : Time) (attempts : ℕ → Attempt) (fuel k retries : ℕ) (s : Server)
    → ((i : ℕ) → attempts i ≡ not_dialed)
    → retries < num_retries
    → join_port now attempts fuel k retries s ≡ none
unfolding join_port
join_port_spins now attempts zero k retries s all h = refl
join_port_spins now attempts (suc fuel) k retries s all h =
    ground (arith, all k, join_port_spins now attempts fuel (k + 1) retries s all)

-- With every dial successful it ends after at most one round more than there are retries left.
pub join_port_ends :
    (now : Time) (attempts : ℕ → Attempt) (fuel k retries : ℕ) (s : Server)
    → ((i : ℕ) → attempts i ≢ not_dialed)
    → retries ≤ num_retries
    → num_retries < retries + fuel
    → join_port now attempts fuel k retries s ≢ none
unfolding join_port
join_port_ends now attempts zero k retries s all r h = absurd (omega arith)
join_port_ends now attempts (suc fuel) k retries s all r h =
    ground (arith, all k, join_port_ends now attempts fuel (k + 1) (retries + 1) s all)

-- x
pub join_ports_ends :
    (now : Time) (attempts : ℕ → String → ℕ → Attempt) (fuel : ℕ) (ports : List String) (i : ℕ)
    (s : Server)
    → All (λ port. (j k : ℕ) → attempts j ("localhost:" ++ port) k ≢ not_dialed) ports
    → num_retries < fuel
    → join_ports now attempts fuel ports i s ≢ none
unfolding join_ports
join_ports_ends now attempts fuel [] i s all h = λ e. cc
join_ports_ends now attempts fuel (port ∷ ports) i s all h =
    let tries = attempts i ("localhost:" ++ port) in
    elim (Option-cases (join_port now tries fuel 0 0 s)) [
      | inl e ↦ absurd (join_port_ends now tries fuel 0 0 s (all.0 i) (omega arith) (omega arith) e)
      | inr ((s', connected), e) ↦
          elim (Option-cases (join_ports now attempts fuel ports (i + 1) s')) [
            | inl f ↦ absurd (join_ports_ends now attempts fuel ports (i + 1) s' all.1 h f)
            | inr (r, f) ↦ rw (e, join_ports, f) (λ n. cc)
          ]
    ]
