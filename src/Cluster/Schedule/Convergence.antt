-- ===== src/Cluster/Schedule/Convergence.antt =====
-- The rounds of Stabilize (server/rpc.go) at all servers, as master.go asks for them.
use psk_db.Prelude.{
  suc, String, ◌≡◌, refl, sym, ap, ◌∙◌, subst, Option, none, some, List, [], ◌∷◌, map, All, In, inl,
  inr, length, arith, ◌⊎◌,
}
use psk_db.Server.Connect.{Dial}
use psk_db.Server.Printing.{print_entries}
use psk_db.Cluster.{Cluster}
use psk_db.Cluster.Flood.{AllEntries, Covers}
use psk_db.Cluster.Convergence.{Closed, OneValue}
use psk_db.Cluster.Walks.{Walk}
use psk_db.Cluster.Rounds.{print_entries-flood}
use psk_db.Cluster.Schedule.{
  Iteration, arrived, arrivals, run_rounds, target, message_to, messages_of,
}
use psk_db.Cluster.Schedule.Rounds.{run_rounds-SameData}
use psk_db.Master.Waiting.{rounds}

module _ (from to i : String) where
  In-message_to :
      (found : Option String) (later : List (String × String))
      → In (from, to) (message_to i found later)
      → ((i ≡ from) × (found ≡ some to)) ⊎ In (from, to) later
  In-message_to none later m = inr m
  In-message_to (some j) later (inl e) =
      inl (ap (λ (x : String × String). x.0) e, ap (λ (x : String × String). some x.1) e)
  In-message_to (some j) later (inr m) = inr m

  message_to-In_later :
      (found : Option String) (later : List (String × String))
      → In (from, to) later
      → In (from, to) (message_to i found later)
  message_to-In_later none later m = m
  message_to-In_later (some j) later m = inr m

  message_to-In_first :
      (found : Option String) (later : List (String × String))
      → i ≡ from
      → found ≡ some to
      → In (from, to) (message_to i found later)
  message_to-In_first none later e t = absurd (ground arith)
  message_to-In_first (some j) later e t = inl (ground arith)

module _ (dials : String → Dial) where
  In-messages_of :
      (cluster : Cluster) (from to : String) (pairs : List (String × String))
      → In (from, to) (messages_of dials cluster pairs)
      → (id : String) × In (from, id) pairs × (target (dials from) id (cluster from) ≡ some to)
  unfolding messages_of
  In-messages_of cluster from to [] m = absurd (m tt)
  In-messages_of cluster from to ((i, id) ∷ pairs) m =
      elim (In-message_to from to i (target (dials i) id (cluster i)) _ m) [
        | inl (e, t) ↦ (
          id,
          inl (ap (λ k. (k, id)) e),
          subst (λ k. target (dials k) id (cluster k) ≡ some to) e t,
        )
        | inr later ↦ let (k, p, t) = In-messages_of cluster from to pairs later in (k, inr p, t)
      ]

  messages_of-In :
      (cluster : Cluster) (from to id : String) (pairs : List (String × String))
      → In (from, id) pairs
      → target (dials from) id (cluster from) ≡ some to
      → In (from, to) (messages_of dials cluster pairs)
  unfolding messages_of
  messages_of-In cluster from to id [] m t = absurd (m tt)
  messages_of-In cluster from to id ((i, k) ∷ pairs) (inl e) t =
      message_to-In_first from to i _ _ (ap (λ (x : String × String). x.0) e)
        (ap (λ (x : String × String). target (dials x.0) x.1 (cluster x.0)) e ∙ t)
  messages_of-In cluster from to id ((i, k) ∷ pairs) (inr m) t =
      message_to-In_later from to i (target (dials i) k (cluster i)) _
        (messages_of-In cluster from to id pairs m t)

  pub messages_of-Covers :
      (cluster : Cluster) (pairs : List (String × String)) (rounds : List (List Iteration))
      → All (λ round. Covers pairs (arrived round)) rounds
      → All (Covers (messages_of dials cluster pairs)) (map (arrivals dials cluster) rounds)
  messages_of-Covers cluster pairs [] c = tt
  messages_of-Covers cluster pairs (first ∷ rounds) c = (
    λ from to m.
        let (id, p, t) = In-messages_of cluster from to pairs m in
        messages_of-In cluster from to id (arrived first) (c.0 from id p) t,
    messages_of-Covers cluster pairs rounds c.1,
  )

pub length-map : {A : Type 0} {B : Type 0} (f : A → B) (xs : List A) → length (map f xs) ≡ length xs
length-map f [] = refl
length-map f (x ∷ xs) = ap suc (length-map f xs)

-- Let no server hold a key twice or under another key, no version of a key stand for two values in
-- the partition, and calls fail with errors of net/rpc only. After as many rounds of Stabilize as
-- the master asks for with `ids` servers, any two servers of a partition print the same store, if
-- each of its servers is in `ids` and can be reached from each other one by a walk over the calls
-- that the iterations `pairs` make, in each round the calls of these iterations are handled,
-- answered or not, in any order and with any others, and no call that is handled comes into the
-- partition from outside.
pub print_entries-run_rounds :
    (dials : String → Dial) (Part : String → Type 0) (ids : List String)
    (pairs : List (String × String)) (schedules : List (List Iteration)) (cluster : Cluster)
    → length schedules ≡ rounds (length ids)
    → ((i : String) → Part i → In i ids)
    → ((i j : String) → Part i → Part j → Walk (messages_of dials cluster pairs) ids j i)
    → AllEntries cluster
    → ((key : String) → OneValue Part key cluster)
    → All (λ round. Covers pairs (arrived round)) schedules
    → ((key : String) → All (Closed Part key) (map (arrivals dials cluster) schedules))
    → (i j : String) → Part i
    → Part j
    → print_entries (run_rounds dials schedules cluster i).key_value_map
      ≡ print_entries (run_rounds dials schedules cluster j).key_value_map
print_entries-run_rounds dials Part ids pairs schedules cluster e named connected v one covers
      closed i j p q =
    let same = run_rounds-SameData dials schedules cluster in
    ap print_entries (same i)
    ∙ print_entries-flood Part ids (messages_of dials cluster pairs)
        (map (arrivals dials cluster) schedules) cluster
        (length-map (arrivals dials cluster) schedules ∙ e) named connected v one
        (messages_of-Covers dials cluster pairs schedules covers) closed i j p q
    ∙ ap print_entries (sym (same j))
