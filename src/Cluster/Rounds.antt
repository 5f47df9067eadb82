-- ===== src/Cluster/Rounds.antt =====
-- The rounds that master.go asks for on `stabilize`, against the paths of a partition.
use psk_db.Prelude.{
  String, ◌≡◌, refl, ap, sym, subst, Option, none, some, List, [], ◌∷◌, All, In, length,
}
use mathlib.Core.Option
use psk_db.Server.State.{KeyValueInfo}
use psk_db.Cluster.{Cluster, flood_round, flood}
use psk_db.Server.Invariant.StoreEntries.{Entries-Distinct}
use psk_db.Server.Printing.{print_entries}
use psk_db.Server.Printing.Agreement.{print_entries_agree}
use psk_db.Cluster.Flood.{AllEntries, held, Covers, Route, flood_round-AllEntries}
use psk_db.Cluster.Convergence.{SameContent, Closed, OneValue, flood_converges}
use psk_db.Cluster.Walks.{Walk, Walk-Route_short}
use psk_db.Master.Waiting.{rounds}

-- Let no server hold a key twice or under another key, and no version of the key stand for two
-- values in the partition. After as many rounds of messages as the master asks for with `ids`
-- servers, any two servers of a partition hold the same version and value of the key, or neither
-- holds it, if each of its servers is in `ids` and can be reached from each other one by a walk
-- over the links, every link carries a message in every round, and no message comes into the
-- partition from outside.
pub stabilize_converges :
    (Part : String → Type 0) (key : String) (ids : List String) (links : List (String × String))
    (messages : List (List (String × String))) (cluster : Cluster)
    → length messages ≡ rounds (length ids)
    → ((i : String) → Part i → In i ids)
    → ((i j : String) → Part i → Part j → Walk links ids j i)
    → AllEntries cluster
    → OneValue Part key cluster
    → All (Covers links) messages
    → All (Closed Part key) messages
    → (i j : String) → Part i
    → Part j
    → SameContent (held key (flood messages cluster) i) (held key (flood messages cluster) j)
stabilize_converges Part key ids links messages cluster e named connected v one covers closed =
    flood_converges Part key links messages cluster v one covers closed (λ i j p q.
      subst (λ n. Route links n i j) (sym e)
        (Walk-Route_short links (named i p) (connected i j p q)))

pub flood-AllEntries :
    (messages : List (List (String × String))) (cluster : Cluster)
    → AllEntries cluster
    → AllEntries (flood messages cluster)
unfolding flood
flood-AllEntries [] cluster v = v
flood-AllEntries (first ∷ messages) cluster v =
    flood-AllEntries messages (flood_round first cluster) (flood_round-AllEntries first cluster v)

SameContent-value :
    (a b : Option KeyValueInfo)
    → SameContent a b
    → Option.map (λ (info : KeyValueInfo). info.value) a
      ≡ Option.map (λ (info : KeyValueInfo). info.value) b
SameContent-value none none h = refl
SameContent-value (some a) (some b) h = ap some h.1
SameContent-value none (some b) h = absurd h
SameContent-value (some a) none h = absurd h

-- x
pub print_entries-flood :
    (Part : String → Type 0) (ids : List String) (links : List (String × String))
    (messages : List (List (String × String))) (cluster : Cluster)
    → length messages ≡ rounds (length ids)
    → ((i : String) → Part i → In i ids)
    → ((i j : String) → Part i → Part j → Walk links ids j i)
    → AllEntries cluster
    → ((key : String) → OneValue Part key cluster)
    → All (Covers links) messages
    → ((key : String) → All (Closed Part key) messages)
    → (i j : String) → Part i
    → Part j
    → print_entries (flood messages cluster i).key_value_map
      ≡ print_entries (flood messages cluster j).key_value_map
print_entries-flood Part ids links messages cluster e named connected v one covers closed i j p q =
    let entries = flood-AllEntries messages cluster v in
    print_entries_agree _ _ (Entries-Distinct _ (entries i)) (Entries-Distinct _ (entries j))
      (λ key. SameContent-value _ _ (
        stabilize_converges Part key ids links messages cluster e named connected v (one key) covers
          (closed key) i j p q))
