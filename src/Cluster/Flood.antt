-- ===== src/Cluster/Flood.antt =====
-- How far an entry travels in the rounds of Stabilize (server/rpc.go).
use psk_db.Prelude.{
  ℕ, zero, suc, String, ◌≡◌, ◌∙◌, ap, Option, List, [], ◌∷◌, All, In, ◌==◌, eq_iff, eq_refl, inl,
  inr, ◌⊎◌, if◌then◌else◌, if_rule, Bool-cases, length, subst,
}
use psk_db.Dict.{lookup}
use psk_db.Server.State.{KeyValueInfo, Server}
use psk_db.Server.Store.Merge.{join, lookup-merge}
use psk_db.Server.Store.Order.{
  VersionLe, VersionLe-refl, VersionLe-trans, VersionLe-join_left, VersionLe-join_right,
}
use psk_db.Server.Invariant.StoreEntries.{Entries, Entries-Distinct, merge-Entries}
use psk_db.Cluster.{Cluster, deliver, flood_round, flood}
use psk_db.Cluster.Copies.{lookup-copy, copy_into-Distinct, copy-Entries}

abbrev pub AllEntries : Cluster → Type 0
AllEntries cluster = (id : String) → Entries (cluster id).key_value_map

-- What a server holds of a key.
abbrev pub held : String → Cluster → String → Option KeyValueInfo
held key cluster id = lookup key (cluster id).key_value_map

pub deliver-AllEntries :
    (from to : String) (cluster : Cluster)
    → AllEntries cluster
    → AllEntries (deliver (from, to) cluster)
unfolding deliver
deliver-AllEntries from to cluster v id =
    if_rule (λ (s : Server). Entries s.key_value_map) (to == id) _ _
      (λ _. merge-Entries _ (cluster to).key_value_map (copy-Entries _ (v from)) (v to)) (λ _. v id)

pub held-deliver :
    (from to : String) (cluster : Cluster) (key id : String)
    → AllEntries cluster
    → held key (deliver (from, to) cluster) id ≡ (
        if to == id
        then join (held key cluster to) (held key cluster from)
        else held key cluster id)
unfolding deliver
held-deliver from to cluster key id v = elim (Bool-cases (to == id)) [
  | inl e ↦ rw e (
      lookup-merge _ (cluster to).key_value_map key
        (copy_into-Distinct (cluster from).key_value_map [] tt)
      ∙ ap (join (held key cluster to))
          (lookup-copy (cluster from).key_value_map key (Entries-Distinct _ (v from))))
  | inr e ↦ rw e
]

pub flood_round-AllEntries :
    (messages : List (String × String)) (cluster : Cluster)
    → AllEntries cluster
    → AllEntries (flood_round messages cluster)
unfolding flood_round
flood_round-AllEntries [] cluster v = v
flood_round-AllEntries ((from, to) ∷ messages) cluster v =
    flood_round-AllEntries messages (deliver (from, to) cluster)
      (deliver-AllEntries from to cluster v)

-- A message makes no server forget.
VersionLe-deliver :
    (from to : String) (cluster : Cluster) (key id : String)
    → AllEntries cluster
    → VersionLe (held key cluster id) (held key (deliver (from, to) cluster) id)
VersionLe-deliver from to cluster key id v = rw (held-deliver from to cluster key id v) (
    if_rule (VersionLe (held key cluster id)) (to == id) _ _
      (λ e.
        subst
          (λ k. VersionLe (held key cluster k) (join (held key cluster to) (held key cluster from)))
          ((eq_iff to id).0 e) (VersionLe-join_left (held key cluster to) (held key cluster from)))
      (λ _. VersionLe-refl (held key cluster id)))

VersionLe-deliver_to :
    (from to : String) (cluster : Cluster) (key : String)
    → AllEntries cluster
    → VersionLe (held key cluster from) (held key (deliver (from, to) cluster) to)
VersionLe-deliver_to from to cluster key v =
    rw (held-deliver from to cluster key to v, eq_refl to)
      (VersionLe-join_right (held key cluster to) (held key cluster from))

pub VersionLe-flood_round :
    (messages : List (String × String)) (cluster : Cluster) (key id : String)
    → AllEntries cluster
    → VersionLe (held key cluster id) (held key (flood_round messages cluster) id)
unfolding flood_round
VersionLe-flood_round [] cluster key id v = VersionLe-refl (held key cluster id)
VersionLe-flood_round ((from, to) ∷ messages) cluster key id v =
    VersionLe-trans (held key cluster id) (held key (deliver (from, to) cluster) id)
      (held key (flood_round messages (deliver (from, to) cluster)) id)
      (VersionLe-deliver from to cluster key id v)
      (VersionLe-flood_round messages (deliver (from, to) cluster) key id
        (deliver-AllEntries from to cluster v))

-- A message of the round carries what its sender held before the round, at least.
VersionLe-flood_round_to :
    (messages : List (String × String)) (cluster : Cluster) (key from to : String)
    → AllEntries cluster
    → In (from, to) messages
    → VersionLe (held key cluster from) (held key (flood_round messages cluster) to)
unfolding flood_round
VersionLe-flood_round_to [] cluster key from to v m = absurd (m tt)
VersionLe-flood_round_to ((i, j) ∷ messages) cluster key from to v (inl e) =
    subst
      (λ (m : String × String).
        VersionLe (held key cluster m.0)
          (held key (flood_round messages (deliver (i, j) cluster)) m.1))
      e
      (VersionLe-trans (held key cluster i) (held key (deliver (i, j) cluster) j)
        (held key (flood_round messages (deliver (i, j) cluster)) j)
        (VersionLe-deliver_to i j cluster key v)
        (VersionLe-flood_round messages (deliver (i, j) cluster) key j
          (deliver-AllEntries i j cluster v)))
VersionLe-flood_round_to ((i, j) ∷ messages) cluster key from to v (inr m) =
    VersionLe-trans (held key cluster from) (held key (deliver (i, j) cluster) from)
      (held key (flood_round messages (deliver (i, j) cluster)) to)
      (VersionLe-deliver i j cluster key from v)
      (VersionLe-flood_round_to messages (deliver (i, j) cluster) key from to
        (deliver-AllEntries i j cluster v) m)

-- Every link carries a message in the round.
abbrev pub Covers : List (String × String) → List (String × String) → Type 0
Covers links messages = (from to : String) → In (from, to) links → In (from, to) messages

-- A path of at most so many links.
abbrev pub Route : List (String × String) → ℕ → String → String → Type 0
Route links zero i k = i ≡ k
Route links (suc n) i k = Route links n i k ⊎ ((j : String) × In (i, j) links × Route links n j k)

-- If no server holds a key twice or under another key, and every link carries a message in every
-- round: after as many rounds as a path has links, the server at its end holds at least the version
-- that the server at its start held, whatever the order of the messages within each round.
pub flood_reaches :
    (links : List (String × String)) (rounds : List (List (String × String))) (cluster : Cluster)
    (key i k : String)
    → AllEntries cluster
    → All (Covers links) rounds
    → Route links (length rounds) i k
    → VersionLe (held key cluster i) (held key (flood rounds cluster) k)
unfolding flood
flood_reaches links [] cluster key i k v covers route =
    subst (λ j. VersionLe (held key cluster i) (held key cluster j)) route
      (VersionLe-refl (held key cluster i))
flood_reaches links (messages ∷ rounds) cluster key i k v covers (inl route) =
    VersionLe-trans (held key cluster i) (held key (flood_round messages cluster) i)
      (held key (flood rounds (flood_round messages cluster)) k)
      (VersionLe-flood_round messages cluster key i v)
      (flood_reaches links rounds (flood_round messages cluster) key i k
        (flood_round-AllEntries messages cluster v) covers.1 route)
flood_reaches links (messages ∷ rounds) cluster key i k v covers (inr (j, link, route)) =
    VersionLe-trans (held key cluster i) (held key (flood_round messages cluster) j)
      (held key (flood rounds (flood_round messages cluster)) k)
      (VersionLe-flood_round_to messages cluster key i j v (covers.0 i j link))
      (flood_reaches links rounds (flood_round messages cluster) key j k
        (flood_round-AllEntries messages cluster v) covers.1 route)
