-- ===== src/Server/Replica/Monotone.antt =====
-- The versions that a server of server/ holds, over a sequence of events.
use psk_db.Prelude.{
  String, ◌≡◌, sym, subst, Option, none, some, List, [], ◌∷◌, All, inl, inr, ltb_ℤ, ltb_ℤ→lt, ◌≤ℤ◌,
  ≤ℤ_refl, ≤ℤ_trans, ◌==◌, eq_iff, if_rule, arith, Option-cases,
}
use psk_db.Timestamp.{Timestamp}
use psk_db.Server.State.{Server}
use psk_db.Server.Step.{
  Event, joins, new_server, heartbeat, killed, create, break, kill, put, get, remote_write, kv_data,
  stabilizes, round, call_done, step, run,
}
use psk_db.Server.Invariant.Events.{IsValidEvent}
use psk_db.Server.Replica.{View, view, later, Allowed}
use psk_db.Server.Replica.Refinement.{step-Allowed}

-- The version of the register, where it has one, is at most the other's.
abbrev pub LaterLe : Option (Timestamp × String) → Option (Timestamp × String) → Type 0
LaterLe none b = Unit
LaterLe (some a) none = ⊥
LaterLe (some a) (some b) = a.0 ≤ℤ b.0

LaterLe-refl : (a : Option (Timestamp × String)) → LaterLe a a
LaterLe-refl none = tt
LaterLe-refl (some a) = ≤ℤ_refl a.0

LaterLe-trans : (a b c : Option (Timestamp × String)) → LaterLe a b → LaterLe b c → LaterLe a c
LaterLe-trans none b c h k = tt
LaterLe-trans (some a) none c h k = absurd h
LaterLe-trans (some a) (some b) none h k = absurd k
LaterLe-trans (some a) (some b) (some c) h k = ≤ℤ_trans a.0 b.0 c.0 h k

LaterLe-later : (a b : Option (Timestamp × String)) → LaterLe a (later a b)
LaterLe-later none b = tt
LaterLe-later (some a) none = ≤ℤ_refl a.0
LaterLe-later (some a) (some b) =
    if_rule (LaterLe (some a)) (ltb_ℤ a.0 b.0) _ _ (λ h. omega (arith, ltb_ℤ→lt a.0 b.0 h))
      (λ _. ≤ℤ_refl a.0)

abbrev pub NoPut : Event → Type 0
NoPut (put dial req) = ⊥
NoPut _ = Unit

same-LaterLe :
    {before after : View}
    → ((key : String) → after key ≡ before key)
    → (key : String) → LaterLe (before key) (after key)
same-LaterLe {before} h key = subst (LaterLe (before key)) (sym (h key)) (LaterLe-refl (before key))

Allowed-LaterLe :
    (event : Event) (before after : View)
    → NoPut event
    → Allowed event before after
    → (key : String) → LaterLe (before key) (after key)
Allowed-LaterLe (joins dial now req) before after n a = same-LaterLe a
Allowed-LaterLe (new_server now req) before after n a = same-LaterLe a
Allowed-LaterLe (heartbeat now req) before after n a = same-LaterLe a
Allowed-LaterLe (killed req) before after n a = same-LaterLe a
Allowed-LaterLe (create dial now req) before after n a = same-LaterLe a
Allowed-LaterLe (break req) before after n a = same-LaterLe a
Allowed-LaterLe (kill dial) before after n a = same-LaterLe a
Allowed-LaterLe (put dial req) before after n a = absurd n
Allowed-LaterLe (get req) before after n a = same-LaterLe a
Allowed-LaterLe (remote_write req) before after n a = λ key.
    subst (LaterLe (before key)) (sym (a key)) (
      if_rule (LaterLe (before key)) (req.key == key) _ _
        (λ e.
          subst (λ k. LaterLe (before k) (later (before req.key) (some (req.version, req.value))))
            ((eq_iff req.key key).0 e) (LaterLe-later (before req.key) _))
        (λ _. LaterLe-refl (before key)))
Allowed-LaterLe (kv_data req) before after n a = λ key.
    subst (LaterLe (before key)) (sym (a key))
      (LaterLe-later (before key) (view req.key_value_map key))
Allowed-LaterLe (stabilizes dial answer id) before after n a = same-LaterLe a
Allowed-LaterLe (round dial now perm) before after n a = same-LaterLe a
Allowed-LaterLe (call_done err id) before after n a = same-LaterLe a

abbrev Holds : String → Option (Timestamp × String) → Option Server → Type 0
Holds key a none = Unit
Holds key a (some s) = LaterLe a (view s.key_value_map key)

-- A sequence of events without a put, in which the data of other servers have no key twice and
-- rand.Perm(n) has n numbers, leaves a server, if it does not panic, with at least the version of
-- every key that it held.
pub run-LaterLe :
    (events : List Event) (s s' : Server) (key : String)
    → All IsValidEvent events
    → All NoPut events
    → run events s ≡ some s'
    → LaterLe (view s.key_value_map key) (view s'.key_value_map key)
unfolding run
run-LaterLe [] s s' key h n e =
    subst (Holds key (view s.key_value_map key)) e (LaterLe-refl (view s.key_value_map key))
run-LaterLe (event ∷ events) s s' key h n e = elim (Option-cases (step event s)) [
  | inl f ↦ absurd (ground (arith, f))
  | inr (t, f) ↦
      LaterLe-trans (view s.key_value_map key) (view t.key_value_map key)
        (view s'.key_value_map key)
        (Allowed-LaterLe event (view s.key_value_map) (view t.key_value_map) n.0
          (step-Allowed event s t h.0 f) key)
        (run-LaterLe events t s' key h.1 n.1 (ground (arith, f)))
]
