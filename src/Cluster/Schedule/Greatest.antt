-- ===== src/Cluster/Schedule/Greatest.antt =====
-- What the servers of a partition hold after the rounds of Stabilize (server/rpc.go).
use psk_db.Prelude.{
  String, ◌≡◌, refl, sym, subst, Option, none, some, List, map, All, In, length, ◌≤ℤ◌,
}
use psk_db.Dict.{lookup}
use psk_db.Server.State.{KeyValueInfo}
use psk_db.Server.Connect.{Dial}
use psk_db.Server.Store.Order.{VersionLe}
use psk_db.Cluster.{Cluster}
use psk_db.Cluster.Flood.{AllEntries, held, Covers}
use psk_db.Cluster.Convergence.{Closed, Origin, Origin-flood}
use psk_db.Cluster.Walks.{Walk}
use psk_db.Cluster.Schedule.{Iteration, arrived, arrivals, run_rounds, messages_of}
use psk_db.Cluster.Schedule.Rounds.{run_rounds-SameData}
use psk_db.Cluster.Schedule.Reads.{VersionLe-run_rounds}
use psk_db.Master.Waiting.{rounds}

-- The entry, if there is one, has the greatest version of the key that a server of the partition held,
-- and a value that one held under it; there is none if no server of the partition held the key.
abbrev pub IsGreatest : (String → Type 0) → String → Cluster → Option KeyValueInfo → Type 0
IsGreatest Part key cluster none = (k : String) → Part k → held key cluster k ≡ none
IsGreatest Part key cluster (some info) =
    ((k : String) (other : KeyValueInfo)
      → Part k
      → held key cluster k ≡ some other
      → other.version ≤ℤ info.version)
    × ((k : String) × (first : KeyValueInfo) × Part k
        × (held key cluster k ≡ some first)
        × (first.version ≡ info.version)
        × (first.value ≡ info.value))

VersionLe-none : (o : Option KeyValueInfo) → VersionLe o none → o ≡ none
VersionLe-none none h = refl
VersionLe-none (some info) h = absurd h

IsGreatest-of :
    (Part : String → Type 0) (key : String) (cluster : Cluster) (o : Option KeyValueInfo)
    → ((k : String) → Part k → VersionLe (held key cluster k) o)
    → Origin Part key cluster o
    → IsGreatest Part key cluster o
IsGreatest-of Part key cluster none le origin = λ k p. VersionLe-none (held key cluster k) (le k p)
IsGreatest-of Part key cluster (some info) le origin =
    (λ k other p e. subst (λ o. VersionLe o (some info)) e (le k p), origin)

-- Let no server hold a key twice or under another key, and calls fail with errors of net/rpc only.
-- After as many rounds of Stabilize as the master asks for with `ids` servers, each server of a
-- partition holds of a key the greatest version that a server of the partition held, and a value
-- that one held under that version, or nothing if none of them held the key, if each of its servers
-- is in `ids` and can be reached from each other one by a walk over the calls that the iterations
-- `pairs` make, in each round the calls of these iterations are handled, answered or not, in any
-- order and with any others, and no call that is handled comes into the partition from outside.
pub run_rounds-IsGreatest :
    (dials : String → Dial) (Part : String → Type 0) (ids : List String)
    (pairs : List (String × String)) (schedules : List (List Iteration)) (cluster : Cluster)
    (key j : String)
    → length schedules ≡ rounds (length ids)
    → ((i : String) → Part i → In i ids)
    → ((i j : String) → Part i → Part j → Walk (messages_of dials cluster pairs) ids j i)
    → AllEntries cluster
    → All (λ round. Covers pairs (arrived round)) schedules
    → All (Closed Part key) (map (arrivals dials cluster) schedules)
    → Part j
    → IsGreatest Part key cluster (held key (run_rounds dials schedules cluster) j)
run_rounds-IsGreatest dials Part ids pairs schedules cluster key j e named connected v covers closed
      p =
    IsGreatest-of Part key cluster (held key (run_rounds dials schedules cluster) j)
      (λ k q.
        VersionLe-run_rounds dials ids pairs schedules cluster key k j e (named k q)
          (connected k j q p) v covers)
      (subst (λ m. Origin Part key cluster (lookup key m))
        (sym (run_rounds-SameData dials schedules cluster j))
        (Origin-flood Part key (map (arrivals dials cluster) schedules) cluster j v closed p))
