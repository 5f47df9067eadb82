-- ===== src/Samples/Partition.antt =====
-- Sample runs of Stabilize in a partition of two servers (server/rpc.go).
use psk_db.Prelude.{
  true, false, All, none, pos, String, some, List, [], ◌∷◌, refl, sym, ◌≡◌, ◌⊎◌, inl, inr, ◌==◌,
  if◌then◌else◌, if_rule, In, subst,
}
use psk_db.Dict.{lookup, insert}
use psk_db.Server.State.{Server, KeyValueInfo}
use psk_db.Server.Store.{merge, copy_into}
use psk_db.Server.Invariant.StoreEntries.{Entries}
use psk_db.Cluster.{Cluster, deliver, flood_round, flood}
use psk_db.Cluster.Flood.{AllEntries, held, Covers}
use psk_db.Cluster.Convergence.{Closed}
use psk_db.Cluster.Walks.{Walk, here, step}
use psk_db.Cluster.Schedule.{Iteration, answered, failed, arrived, run_rounds, messages_of, reach}
use psk_db.Cluster.Schedule.Greatest.{IsGreatest, run_rounds-IsGreatest}
use psk_db.Server.Connect.{Dial, connect}
use psk_db.Cluster.Sending.{targets, Carries, stabilize_round-sends}
use psk_db.Server.Stabilize.{stabilize_round}
use psk_db.Samples.{entry, server_one, server_one-IsValid, server_two, server_two-IsValid, dials}

abbrev pub two : Cluster
two id = if id == "1" then server_one else server_two

abbrev pub messages : List (String × String)
messages = ("1", "2") ∷ ("2", "1") ∷ []

flood_test : held "x" (flood (messages ∷ []) two) "1" ≡ some (entry "x" "new" (pos 4_200_000))
unfolding flood flood_round deliver merge copy_into lookup insert
flood_test = refl

abbrev pub Both : String → Type 0
Both id = (id ≡ "1") ⊎ (id ≡ "2")

abbrev old : KeyValueInfo
old = entry "x" "old" (pos 3_200_000)

abbrev new : KeyValueInfo
new = entry "x" "new" (pos 4_200_000)

abbrev pub names : List String
names = "1" ∷ "2" ∷ []

pub named : (i : String) → Both i → In i names
named i (inl e) = inl (sym e)
named i (inr e) = inr (inl (sym e))

walk_between :
    {i j a b : String} → i ≡ a → j ≡ b → Walk messages names b a → Walk messages names j i
walk_between {i} {b} p q w =
    subst (λ x. Walk messages names x i) (sym q) (subst (Walk messages names b) (sym p) w)

pub messages-Walk : (i j : String) → Both i → Both j → Walk messages names j i
messages-Walk i j (inl p) (inl q) = walk_between p q here
messages-Walk i j (inl p) (inr q) = walk_between p q (step (inl refl) (inr (inl refl)) here)
messages-Walk i j (inr p) (inl q) = walk_between p q (step (inr (inl refl)) (inl refl) here)
messages-Walk i j (inr p) (inr q) = walk_between p q here

-- The iterations of the two loops; each finds its member connected.
abbrev pub pairs : List (String × String)
pairs = ("1", "2") ∷ ("2", "1") ∷ []

abbrev pub two_dials : String → Dial
two_dials id = dials

-- A round: the second call fails, and then fails when it has been handled.
abbrev pub round : List Iteration
round =
    (("1", "2"), answered) ∷ (("2", "1"), failed false "EOF") ∷ (("2", "1"), failed true "EOF") ∷ []

pub arrived-round : arrived round ≡ pairs
unfolding arrived
arrived-round = refl

pub pairs-Covers : Covers pairs (arrived round)
pairs-Covers = subst (Covers pairs) (sym arrived-round) (λ from to m. m)

stabilize_round-sends_example :
    (targets (stabilize_round dials (λ id. none) (λ id s. s) ("2" ∷ []) server_one).1 ≡ "2" ∷ [])
    × All
        (Carries server_one)
        (stabilize_round dials (λ id. none) (λ id s. s) ("2" ∷ []) server_one).1
stabilize_round-sends_example =
    stabilize_round-sends dials (λ address. (1, refl)) (λ id. none) server_one server_one-IsValid
      refl

two-AllEntries : AllEntries two
two-AllEntries id =
    if_rule (λ (s : Server). Entries s.key_value_map) (id == "1") _ _
      (λ _. server_one-IsValid.entries) (λ _. server_two-IsValid.entries)

messages_of-pairs : messages_of two_dials two pairs ≡ messages
unfolding messages_of reach connect lookup
messages_of-pairs = refl

run_rounds-IsGreatest_example :
    IsGreatest Both "x" two (held "x" (run_rounds two_dials (round ∷ []) two) "1")
run_rounds-IsGreatest_example =
    run_rounds-IsGreatest two_dials Both names pairs (round ∷ []) two "x" "1" refl named
      (subst (λ (m : List (String × String)). (i j : String) → Both i → Both j → Walk m names j i)
        (sym messages_of-pairs) messages-Walk)
      two-AllEntries (pairs-Covers, tt)
      (subst
        (λ (p : List (String × String)). All (Closed Both "x") (messages_of two_dials two p ∷ []))
        (sym arrived-round)
        (subst (λ (m : List (String × String)). All (Closed Both "x") (m ∷ []))
          (sym messages_of-pairs) (((λ _. inl refl), ((λ _. inr refl), tt)), tt)))
      (inl refl)
