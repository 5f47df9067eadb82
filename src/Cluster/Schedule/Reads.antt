-- ===== src/Cluster/Schedule/Reads.antt =====
-- A put at one server, the rounds of Stabilize, and a get at another (server/rpc.go).
use psk_db.Prelude.{
  String, ◌≡◌, refl, sym, ap, ◌∙◌, subst, some, List, map, All, In, length, ◌≤ℤ◌, ◌==◌, eq_refl,
  if_rule, arith, Option-cases, inl, inr, le→not-ltb_ℤ,
}
use psk_db.Dict.{lookup}
use psk_db.Common.{PutKvServerRequest, GetKvServerRequest}
use psk_db.Server.State.{KeyValueInfo, Server}
use psk_db.Server.Connect.{Dial}
use psk_db.Server.Store.{put_entry, put_kv_server, get_kv_server}
use psk_db.Server.Store.Order.{VersionLe}
use psk_db.Server.Store.Writes.{lookup-put_kv_server, put_kv_server-reply}
use psk_db.Server.Invariant.Defs.{IsValid}
use psk_db.Server.Invariant.Calls.{put_kv_server-IsValid}
use psk_db.Server.Invariant.StoreEntries.{Entries}
use psk_db.Cluster.{Cluster}
use psk_db.Cluster.Flood.{AllEntries, held, Covers, Route, flood_reaches}
use psk_db.Cluster.Walks.{Walk, Walk-Route_short}
use psk_db.Cluster.Schedule.{Iteration, arrived, arrivals, with_state, run_rounds, messages_of}
use psk_db.Cluster.Schedule.Rounds.{run_rounds-SameData}
use psk_db.Cluster.Schedule.Convergence.{messages_of-Covers, length-map}
use psk_db.Master.Waiting.{rounds}

-- The cluster after the put at the server `i`.
abbrev pub after_put : Dial → PutKvServerRequest → String → Cluster → Cluster
after_put dial req i cluster = with_state i (put_kv_server dial req (cluster i)).0 cluster

pub VersionLe-run_rounds :
    (dials : String → Dial) (ids : List String) (pairs : List (String × String))
    (schedules : List (List Iteration)) (cluster : Cluster) (key i j : String)
    → length schedules ≡ rounds (length ids)
    → In i ids
    → Walk (messages_of dials cluster pairs) ids j i
    → AllEntries cluster
    → All (λ round. Covers pairs (arrived round)) schedules
    → VersionLe (held key cluster i) (held key (run_rounds dials schedules cluster) j)
VersionLe-run_rounds dials ids pairs schedules cluster key i j e named walk v covers =
    let links = messages_of dials cluster pairs in
    let messages = map (arrivals dials cluster) schedules in
    let many = length-map (arrivals dials cluster) schedules ∙ e in
    subst (λ o. VersionLe (held key cluster i) o)
      (ap (lookup key) (sym (run_rounds-SameData dials schedules cluster j)))
      (flood_reaches links messages cluster key i j v
        (messages_of-Covers dials cluster pairs schedules covers)
        (subst (λ n. Route links n i j) (sym many) (Walk-Route_short links named walk)))

pub held-after_put :
    (dial : Dial) (req : PutKvServerRequest) (i : String) (cluster : Cluster)
    → held req.key (after_put dial req i cluster) i ≡ some (put_entry req (cluster i)).0
held-after_put dial req i cluster =
    rw (eq_refl i) (rw lookup-put_kv_server (rw (eq_refl req.key) refl))

after_put-AllEntries :
    (dial : Dial) (req : PutKvServerRequest) (i : String) (cluster : Cluster)
    → ((id : String) → IsValid (cluster id))
    → AllEntries (after_put dial req i cluster)
after_put-AllEntries dial req i cluster v id =
    if_rule (λ (s : Server). Entries s.key_value_map) (i == id) _ _
      (λ _. (put_kv_server-IsValid dial req (cluster i) (v i)).entries) (λ _. (v id).entries)

-- A get for a version that the store has reached is answered with the entry.
pub get_kv_server-VersionLe :
    (req : GetKvServerRequest) (a : KeyValueInfo) (s : Server)
    → req.version ≤ℤ a.version
    → VersionLe (some a) (lookup req.key s.key_value_map)
    → (x : KeyValueInfo) × (lookup req.key s.key_value_map ≡ some x)
      × (a.version ≤ℤ x.version)
      × ((get_kv_server req s).1.value ≡ x.value)
      × ((get_kv_server req s).1.version ≡ x.version)
unfolding get_kv_server
get_kv_server-VersionLe req a s h le = elim (Option-cases (lookup req.key s.key_value_map)) [
  | inl e ↦ absurd (subst (VersionLe (some a)) e le)
  | inr (x, e) ↦
      let newer = subst (VersionLe (some a)) e le in
      let test = le→not-ltb_ℤ x.version req.version (omega (arith, newer)) in
      (x, e, newer, rw (e, get_kv_server, test) refl, rw (e, get_kv_server) refl)
]

-- Let all servers be well formed, and calls fail with errors of net/rpc only. After a put at a
-- server `i`, which returns a version, and then as many rounds of Stabilize as the master asks for
-- with `ids` servers, `i` among them, a get of the key at a server `j`, for a version that is no
-- later, is answered with an entry of a version that is at least that of the put, and with its
-- value, if a walk over the calls that the iterations `pairs` make leads from `i` to `j` and in
-- each round the calls of these iterations are handled, answered or not, in any order and with any
-- others.
pub get_kv_server-run_rounds :
    (dials : String → Dial) (ids : List String) (pairs : List (String × String))
    (schedules : List (List Iteration)) (cluster : Cluster) (req : PutKvServerRequest)
    (get : GetKvServerRequest) (i j : String)
    → ((id : String) → IsValid (cluster id))
    → length schedules ≡ rounds (length ids)
    → In i ids
    → Walk (messages_of dials (after_put (dials i) req i cluster) pairs) ids j i
    → All (λ round. Covers pairs (arrived round)) schedules
    → get.key ≡ req.key
    → get.version ≤ℤ (put_kv_server (dials i) req (cluster i)).1.version
    → (x : KeyValueInfo) × (held get.key
          (run_rounds dials schedules (after_put (dials i) req i cluster))
          j
        ≡ some x)
      × ((put_kv_server (dials i) req (cluster i)).1.version ≤ℤ x.version)
      × ((get_kv_server get
            (run_rounds dials schedules (after_put (dials i) req i cluster) j)).1.value
          ≡ x.value)
      × ((get_kv_server get
            (run_rounds dials schedules (after_put (dials i) req i cluster) j)).1.version
          ≡ x.version)
get_kv_server-run_rounds dials ids pairs schedules cluster req get i j v e named walk covers key h =
    let next = after_put (dials i) req i cluster in
    let entry = (put_entry req (cluster i)).0 in
    let reply = (put_kv_server-reply (dials i) req (cluster i)).0 in
    let reaches =
      VersionLe-run_rounds dials ids pairs schedules next req.key i j e named walk
        (after_put-AllEntries (dials i) req i cluster v) covers in
    let le =
      subst
        (λ k. VersionLe (some entry) (lookup k (run_rounds dials schedules next j).key_value_map))
        (sym key)
        (subst (λ o. VersionLe o (held req.key (run_rounds dials schedules next) j))
          (held-after_put (dials i) req i cluster) reaches) in
    let (x, found, newer, value, version) =
      get_kv_server-VersionLe get entry (run_rounds dials schedules next j)
        (subst (λ t. get.version ≤ℤ t) reply h) le in
    (x, found, subst (λ t. t ≤ℤ x.version) (sym reply) newer, value, version)
