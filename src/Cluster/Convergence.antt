-- ===== src/Cluster/Convergence.antt =====
-- The servers of a partition after the rounds of Stabilize (README.md, Stabilize Mechanism).
use psk_db.Prelude.{
  String, ◌≡◌, refl, sym, ◌∙◌, Option, none, some, List, [], ◌∷◌, All, arith, ◌==◌, eq_iff, inl,
  inr, ◌≤ℤ◌, if_rule, Option-cases, length, ltb_ℤ, eq_of_parts, subst,
}
use psk_db.Server.State.{KeyValueInfo}
use psk_db.Server.Store.Merge.{join}
use psk_db.Server.Store.Order.{VersionLe}
use psk_db.Cluster.{Cluster, deliver, flood_round, flood}
use psk_db.Cluster.Flood.{
  AllEntries, held, held-deliver, deliver-AllEntries, flood_round-AllEntries, Covers, Route,
  flood_reaches,
}

-- The same version and value, or nothing on both sides.
abbrev pub SameContent : Option KeyValueInfo → Option KeyValueInfo → Type 0
SameContent none none = Unit
SameContent (some a) (some b) = (a.version ≡ b.version) × (a.value ≡ b.value)
SameContent _ _ = ⊥

-- `Part` is a partition of the servers: no message comes in from outside.
module _ (Part : String → Type 0) (key : String) where
  abbrev pub Closed : List (String × String) → Type 0
  Closed [] = Unit
  Closed ((from, to) ∷ messages) = (Part to → Part from) × Closed messages

  -- Some server of the partition held the version and the value.
  abbrev pub Origin : Cluster → Option KeyValueInfo → Type 0
  Origin cluster none = Unit
  Origin cluster (some info) =
      (k : String) × (first : KeyValueInfo) × Part k
      × (held key cluster k ≡ some first)
      × (first.version ≡ info.version)
      × (first.value ≡ info.value)

  Origin-held : (cluster : Cluster) (id : String) → Part id → Origin cluster (held key cluster id)
  Origin-held cluster id p = elim (Option-cases (held key cluster id)) [
    | inl e ↦ rw e tt
    | inr (info, e) ↦ subst (Origin cluster) (sym e) (id, info, p, e, refl, refl)
  ]

  Origin-join :
      (cluster : Cluster) (a b : Option KeyValueInfo)
      → Origin cluster a
      → Origin cluster b
      → Origin cluster (join a b)
  Origin-join cluster none b o q = q
  Origin-join cluster (some a) none o q = o
  Origin-join cluster (some a) (some b) o q =
      if_rule (Origin cluster) (ltb_ℤ a.version b.version) _ _ (λ _. q) (λ _. o)

  Origin-trans :
      (before after : Cluster) (o : Option KeyValueInfo)
      → ((id : String) → Part id → Origin before (held key after id))
      → Origin after o
      → Origin before o
  Origin-trans before after none all q = tt
  Origin-trans before after (some info) all (k, mid, p, h, version, value) =
      let (j, first, p', h', version', value') = subst (Origin before) h (all k p) in
      (j, first, p', h', version' ∙ version, value' ∙ value)

  Origin-deliver :
      (from to : String) (cluster : Cluster) (id : String)
      → AllEntries cluster
      → (Part to → Part from)
      → Part id
      → Origin cluster (held key (deliver (from, to) cluster) id)
  Origin-deliver from to cluster id v closed p = rw (held-deliver from to cluster key id v) (
      if_rule (Origin cluster) (to == id) _ _
        (λ e.
          let p' = subst Part (sym ((eq_iff to id).0 e)) p in
          Origin-join cluster (held key cluster to) (held key cluster from)
            (Origin-held cluster to p') (Origin-held cluster from (closed p')))
        (λ _. Origin-held cluster id p))

  Origin-flood_round :
      (messages : List (String × String)) (cluster : Cluster) (id : String)
      → AllEntries cluster
      → Closed messages
      → Part id
      → Origin cluster (held key (flood_round messages cluster) id)
  unfolding flood_round
  Origin-flood_round [] cluster id v closed p = Origin-held cluster id p
  Origin-flood_round ((from, to) ∷ messages) cluster id v closed p =
      Origin-trans cluster (deliver (from, to) cluster) _
        (λ k q. Origin-deliver from to cluster k v closed.0 q)
        (Origin-flood_round messages (deliver (from, to) cluster) id
          (deliver-AllEntries from to cluster v) closed.1 p)

  pub Origin-flood :
      (rounds : List (List (String × String))) (cluster : Cluster) (id : String)
      → AllEntries cluster
      → All Closed rounds
      → Part id
      → Origin cluster (held key (flood rounds cluster) id)
  unfolding flood
  Origin-flood [] cluster id v closed p = Origin-held cluster id p
  Origin-flood (messages ∷ rounds) cluster id v closed p =
      Origin-trans cluster (flood_round messages cluster) _
        (λ k q. Origin-flood_round messages cluster k v closed.0 q)
        (Origin-flood rounds (flood_round messages cluster) id
          (flood_round-AllEntries messages cluster v) closed.1 p)

  -- No version of the key stands for two values in the partition.
  abbrev pub OneValue : Cluster → Type 0
  OneValue cluster =
      (i j : String) (a b : KeyValueInfo)
      → Part i
      → Part j
      → held key cluster i ≡ some a
      → held key cluster j ≡ some b
      → a.version ≡ b.version
      → a.value ≡ b.value

  meet :
      (cluster : Cluster) (a b : Option KeyValueInfo)
      → OneValue cluster
      → ((k : String) → Part k → VersionLe (held key cluster k) a)
      → ((k : String) → Part k → VersionLe (held key cluster k) b)
      → Origin cluster a
      → Origin cluster b
      → SameContent a b
  meet cluster none none one la lb oa ob = tt
  meet cluster none (some b) one la lb oa (k, first, p, h, version, value) =
      subst (λ x. VersionLe x none) h (la k p)
  meet cluster (some a) none one la lb (k, first, p, h, version, value) ob =
      subst (λ x. VersionLe x none) h (lb k p)
  meet cluster (some a) (some b) one la lb (k, x, p, h, version, value)
        (l, y, q, g, version', value') =
      let below : a.version ≤ℤ b.version =
        subst (λ t. t ≤ℤ b.version) version (subst (λ o. VersionLe o (some b)) h (lb k p)) in
      let above : b.version ≤ℤ a.version =
        subst (λ t. t ≤ℤ a.version) version' (subst (λ o. VersionLe o (some a)) g (la l q)) in
      let same : a.version ≡ b.version = eq_of_parts a.version b.version (omega arith) in
      (same, sym value ∙ one k l x y p q h g (version ∙ same ∙ sym version') ∙ value')

  -- If no server holds a key twice or under another key, and no version of the key stands for two
  -- values in the partition: after rounds in which every link carries a message and none comes into
  -- the partition from outside, with a path of at most as many links as rounds between any two
  -- servers of the partition, all of them hold the same version and value of the key, or none.
  pub flood_converges :
      (links : List (String × String)) (rounds : List (List (String × String))) (cluster : Cluster)
      → AllEntries cluster
      → OneValue cluster
      → All (Covers links) rounds
      → All Closed rounds
      → ((i j : String) → Part i → Part j → Route links (length rounds) i j)
      → (i j : String) → Part i
      → Part j
      → SameContent (held key (flood rounds cluster) i) (held key (flood rounds cluster) j)
  flood_converges links rounds cluster v one covers closed routes i j p q =
      meet cluster (held key (flood rounds cluster) i) (held key (flood rounds cluster) j) one
        (λ k r. flood_reaches links rounds cluster key k i v covers (routes k i r p))
        (λ k r. flood_reaches links rounds cluster key k j v covers (routes k j r q))
        (Origin-flood rounds cluster i v closed p) (Origin-flood rounds cluster j v closed q)
