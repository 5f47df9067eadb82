-- ===== src/Cluster/Network/Origin.antt =====
-- Where the values of a cluster come from (server/): what clients read, what two servers can differ
-- in, and when `stabilize` makes the stores one.
use psk_db.Prelude.{
  String, false, ◌≡◌, refl, sym, ap, ◌∙◌, subst, some, List, map, All, All-In, In, ◌⊎◌, inl, inr,
  Option-cases, Bool-cases, ltb_ℤ, length,
}
use psk_db.Dict.{lookup}
use psk_db.Timestamp.Fraction.{frac, signature}
use psk_db.Common.{Conn, GetKvServerRequest}
use psk_db.Server.State.{Time, KeyValueInfo, Server, Call, sent}
use psk_db.Server.Connect.{Dial}
use psk_db.Server.Store.{get_kv_server}
use psk_db.Server.Replica.{seen}
use psk_db.Server.Printing.{print_entries}
use psk_db.Server.Invariant.Defs.{IsValid}
use psk_db.Server.Invariant.Events.{IsValidEvent, step-IsValid}
use psk_db.Server.Step.{Event, step}
use psk_db.Cluster.{Cluster}
use psk_db.Master.Waiting.{rounds}
use psk_db.Cluster.Flood.{Covers}
use psk_db.Cluster.Convergence.{OneValue, Closed}
use psk_db.Cluster.Walks.{Walk}
use psk_db.Cluster.Schedule.{Iteration, messages_of, run_rounds, arrived, arrivals}
use psk_db.Cluster.Schedule.Convergence.{print_entries-run_rounds}
use psk_db.Cluster.Network.{Network, AreNew, receipt, is_receipt, Puts, Reached}
use psk_db.Cluster.Network.Written.{Written, Holds, Carries}
use psk_db.Cluster.Network.Entering.{IsStamped}
use psk_db.Cluster.Network.Sound.{Reached-Sound, receipt-Brings}

handled :
    (event : Event) (s : Server)
    → IsValidEvent event
    → IsValid s
    → (s' : Server) × (step event s ≡ some s')
handled event s f v = let (s', e, _) = step-IsValid event s f v in (s', e)

-- In every network that servers can reach which start well formed and without entries, all servers
-- are well formed, no event of a server itself panics, where rand.Perm(n) has n numbers, and
-- neither does the handler of any call that has been made.
pub Reached-IsValid :
    (start : Cluster) (puts : Puts) (net : Network)
    → AreNew start
    → Reached start puts net
    → ((id : String) → IsValid (net.servers id))
      × ((id : String) (event : Event)
          → is_receipt event ≡ false
          → IsValidEvent event
          → (s' : Server) × (step event (net.servers id) ≡ some s'))
      × ((id : String) (c : Conn) (now : Time) (call : Call)
          → In (sent id c call) net.actions
          → (s' : Server) × (step (receipt now call) (net.servers id) ≡ some s'))
Reached-IsValid start puts net new reached =
    let sound = Reached-Sound start puts net new reached in
    (
      sound.valid,
      λ id event own f. handled event (net.servers id) f (sound.valid id),
      λ id c now call m.
          handled (receipt now call) (net.servers id)
            (receipt-Brings puts id c now call (net.servers id)
              (All-In (Carries puts) net.actions _ sound.carried m)).0
            (sound.valid id),
    )

-- A server holds only what was written.
held-Written :
    (start : Cluster) (puts : Puts) (net : Network) (id key : String) (info : KeyValueInfo)
    → AreNew start
    → Reached start puts net
    → lookup key (net.servers id).key_value_map ≡ some info
    → Written puts key (info.version, info.value)
held-Written start puts net id key info new reached e =
    subst (λ o. Holds puts key (seen o)) e
      ((Reached-Sound start puts net new reached).stores id key)

-- In every network that servers can reach which start well formed and without entries, a get at any
-- server is answered with the value ERR_KEY, with ERR_DEP, or with the value and version of an
-- entry that a PutKVServer for that key has made.
pub get_kv_server-Written :
    (start : Cluster) (puts : Puts) (net : Network) (id : String) (req : GetKvServerRequest)
    → AreNew start
    → Reached start puts net
    → ((get_kv_server req (net.servers id)).1.value ≡ "ERR_KEY")
      ⊎ ((get_kv_server req (net.servers id)).1.value ≡ "ERR_DEP")
      ⊎ Written puts req.key (
        (get_kv_server req (net.servers id)).1.version,
        (get_kv_server req (net.servers id)).1.value,
      )
unfolding get_kv_server
get_kv_server-Written start puts net id req new reached =
    elim (Option-cases (lookup req.key (net.servers id).key_value_map)) [
      | inl e ↦ rw (e, get_kv_server) (inl refl)
      | inr (info, e) ↦ elim (Bool-cases (ltb_ℤ info.version req.version)) [
        | inl old ↦ rw (e, get_kv_server, old) (inr (inl refl))
        | inr fresh ↦
            rw (e, get_kv_server, fresh)
              (inr (inr (held-Written start puts net id req.key info new reached e)))
      ]
    ]

pub tie_writers :
    (start : Cluster) (puts : Puts) (net : Network) (i j key : String) (a b : KeyValueInfo)
    → AreNew start
    → Reached start puts net
    → lookup key (net.servers i).key_value_map ≡ some a
    → lookup key (net.servers j).key_value_map ≡ some b
    → a.version ≡ b.version
    → (u v : String) × (x y : KeyValueInfo) × In (u, x) puts
      × In (v, y) puts
      × (x.key ≡ key)
      × (y.key ≡ key)
      × (x.version ≡ a.version)
      × (y.version ≡ b.version)
      × (x.value ≡ a.value)
      × (y.value ≡ b.value)
      × (signature u ≡ signature v)
tie_writers start puts net i j key a b new reached e f tie =
    let sound = Reached-Sound start puts net new reached in
    let (u, x, m, kx, h) = held-Written start puts net i key a new reached e in
    let (v, y, n, ky, k) = held-Written start puts net j key b new reached f in
    let su : signature u ≡ some (frac x.version) = All-In IsStamped puts (u, x) sound.stamped m in
    let sv : signature v ≡ some (frac y.version) = All-In IsStamped puts (v, y) sound.stamped n in
    (
      u,
      v,
      x,
      y,
      m,
      n,
      kx,
      ky,
      ap (λ r. r.0) h,
      ap (λ r. r.0) k,
      ap (λ r. r.1) h,
      ap (λ r. r.1) k,
      su ∙ ap (λ t. some (frac t)) (ap (λ r. r.0) h ∙ tie ∙ sym (ap (λ r. r.0) k)) ∙ sym sv,
    )

-- No two writes by servers with one signature gave one key two values under one version.
abbrev pub OneValueEach : Puts → Type 0
OneValueEach puts =
    (u v : String) (x y : KeyValueInfo)
    → In (u, x) puts
    → In (v, y) puts
    → signature u ≡ signature v
    → x.key ≡ y.key
    → x.version ≡ y.version
    → x.value ≡ y.value

Reached-OneValue :
    (start : Cluster) (puts : Puts) (net : Network) (Part : String → Type 0) (key : String)
    → AreNew start
    → Reached start puts net
    → OneValueEach puts
    → OneValue Part key net.servers
Reached-OneValue start puts net Part key new reached each i j a b p q e f tie =
    let (u, v, x, y, m, n, kx, ky, vx, vy, h, k, same) =
      tie_writers start puts net i j key a b new reached e f tie in
    sym h ∙ each u v x y m n same (kx ∙ sym ky) (vx ∙ tie ∙ sym vy) ∙ k

-- Take a network that servers can reach which start well formed and without entries, in which no
-- two writes at servers whose ids give one fraction gave one key two values under one version. Let
-- calls of Stabilize fail with errors of net/rpc only. After as many rounds of Stabilize as the
-- master asks for with `ids` servers, all servers of a partition print the same store, if its
-- servers are among `ids`, walks over the calls that the iterations `pairs` make lead from each to
-- each, and in each round the calls of these iterations are handled, answered or not, in any order
-- and with any others that do not reach the partition from outside.
pub print_entries-Reached :
    (start : Cluster) (puts : Puts) (net : Network) (dials : String → Dial) (Part : String → Type 0)
    (ids : List String) (pairs : List (String × String)) (schedules : List (List Iteration))
    → AreNew start
    → Reached start puts net
    → OneValueEach puts
    → length schedules ≡ rounds (length ids)
    → ((i : String) → Part i → In i ids)
    → ((i j : String) → Part i → Part j → Walk (messages_of dials net.servers pairs) ids j i)
    → All (λ round. Covers pairs (arrived round)) schedules
    → ((key : String) → All (Closed Part key) (map (arrivals dials net.servers) schedules))
    → (i j : String) → Part i
    → Part j
    → print_entries (run_rounds dials schedules net.servers i).key_value_map
      ≡ print_entries (run_rounds dials schedules net.servers j).key_value_map
print_entries-Reached start puts net dials Part ids pairs schedules new reached each e named
      connected covers closed =
    print_entries-run_rounds dials Part ids pairs schedules net.servers e named connected
      (λ id. ((Reached-Sound start puts net new reached).valid id).entries)
      (λ key. Reached-OneValue start puts net Part key new reached each) covers closed
