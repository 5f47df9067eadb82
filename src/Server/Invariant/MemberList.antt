-- ===== src/Server/Invariant/MemberList.antt =====
-- The well-formedness of the membership list of server/, under the loops over it.
use psk_db.Prelude.{
  ℕ, ◌+◌, String, Bool, false, ◌≡◌, refl, sym, ◌∙◌, Option, none, some, List, [], ◌∷◌, arith, ◌==◌,
  eq_iff, Option-cases, Bool-cases, inl, inr, leb, eqb, get_elem?,
}
use psk_db.Dict.{Dict, lookup, insert, delete, lookup-insert, lookup-delete}
use psk_db.Server.State.{Time, ServerInfo, Call, Action}
use psk_db.Server.Connect.{Dial, connect, broadcast}
use psk_db.Server.Links.{say_goodbye, disconnect}
use psk_db.Server.Heartbeat.{check_members, gossip, prepend, fanout}

-- No member twice, each under its own id, the server itself not among them.
abbrev pub Members : String → Dict ServerInfo → Type 0
Members own [] = Unit
Members own ((id, member) ∷ members) =
    (member.id ≡ id) × ((own == id) ≡ false) × (lookup id members ≡ none) × Members own members

pub insert-Members :
    (own id : String) (member : ServerInfo) (members : Dict ServerInfo)
    → member.id ≡ id
    → (own == id) ≡ false
    → Members own members
    → Members own (insert id member members)
unfolding insert lookup
insert-Members own id member [] e n v = (e, n, refl, tt)
insert-Members own id member ((i, m) ∷ members) e n v = ground (
  arith,
  lookup-insert id i member members,
  eq_iff i id,
  eq_iff id i,
  insert-Members own id member members e n v.3,
)

pub delete-Members :
    (own id : String) (members : Dict ServerInfo)
    → Members own members
    → Members own (delete id members)
unfolding delete
delete-Members own id [] v = tt
delete-Members own id ((i, m) ∷ members) v =
    ground (arith, lookup-delete id i members, delete-Members own id members v.3)

pub lookup-id :
    (own id : String) (members : Dict ServerInfo) (member : ServerInfo)
    → Members own members
    → lookup id members ≡ some member
    → (member.id ≡ id) × ((own == id) ≡ false)
unfolding lookup
lookup-id own id [] member v h = absurd (ground arith)
lookup-id own id ((i, m) ∷ members) member v h =
    ground (arith, eq_iff i id, lookup-id own id members member v.3)

pub id-connect :
    (dial : Dial) (blacklist : Dict Bool) (member : ServerInfo)
    → (connect dial blacklist member).id ≡ member.id
unfolding connect
id-connect dial blacklist member = ground arith

module _ (dial : Dial) (blacklist : Dict Bool) (call : Call) where
  lookup-broadcast-none :
      (id : String) (members : Dict ServerInfo)
      → lookup id members ≡ none
      → lookup id (broadcast dial blacklist call members).0 ≡ none
  unfolding lookup broadcast
  lookup-broadcast-none id [] h = refl
  lookup-broadcast-none id ((i, m) ∷ members) h = ground (arith, lookup-broadcast-none id members)

  pub broadcast-Members :
      (own : String) (members : Dict ServerInfo)
      → Members own members
      → Members own (broadcast dial blacklist call members).0
  unfolding broadcast
  broadcast-Members own [] v = tt
  broadcast-Members own ((i, m) ∷ members) v = (
    id-connect dial blacklist m ∙ v.0,
    v.1,
    lookup-broadcast-none i members v.2,
    broadcast-Members own members v.3,
  )

  lookup-say_goodbye-none :
      (id : String) (members : Dict ServerInfo)
      → lookup id members ≡ none
      → lookup id (say_goodbye dial blacklist call members).0 ≡ none
  unfolding lookup say_goodbye
  lookup-say_goodbye-none id [] h = refl
  lookup-say_goodbye-none id ((i, m) ∷ members) h =
      ground (arith, lookup-say_goodbye-none id members)

  pub say_goodbye-Members :
      (own : String) (members : Dict ServerInfo)
      → Members own members
      → Members own (say_goodbye dial blacklist call members).0
  unfolding say_goodbye
  say_goodbye-Members own [] v = tt
  say_goodbye-Members own ((i, m) ∷ members) v = (
    id-connect dial blacklist m ∙ v.0,
    v.1,
    lookup-say_goodbye-none i members v.2,
    say_goodbye-Members own members v.3,
  )

lookup-check_members-none :
    (now : Time) (id : String) (members : Dict ServerInfo)
    → lookup id members ≡ none
    → lookup id (check_members now members) ≡ none
unfolding lookup check_members
lookup-check_members-none now id [] h = refl
lookup-check_members-none now id ((i, m) ∷ members) h =
    ground (arith, lookup-check_members-none now id members)

pub check_members-Members :
    (now : Time) (own : String) (members : Dict ServerInfo)
    → Members own members
    → Members own (check_members now members)
unfolding check_members
check_members-Members now own [] v = tt
check_members-Members now own ((i, m) ∷ members) v =
    ground (
      arith,
      lookup-check_members-none now i members v.2,
      check_members-Members now own members v.3,
    )

pub disconnect-Members :
    (own id : String) (members : Dict ServerInfo)
    → Members own members
    → Members own (disconnect id members)
disconnect-Members own id members v = elim (Option-cases (lookup id members)) [
  | inl e ↦ rw (e, disconnect) v
  | inr (m, e) ↦ elim (Option-cases m.rpc_client) [
    | inl c ↦ rw (e, disconnect, c) v
    | inr (c, d) ↦
        rw (e, disconnect, d)
          (let k = lookup-id own id members m v e in insert-Members own id _ members k.0 k.1 v)
  ]
]

-- The same members in the same order, with their ids.
abbrev pub SameIds : Dict ServerInfo → Dict ServerInfo → Type 0
SameIds [] [] = Unit
SameIds ((i, m) ∷ members) ((j, n) ∷ others) = (j ≡ i) × (n.id ≡ m.id) × SameIds members others
SameIds _ _ = ⊥

SameIds-refl : (members : Dict ServerInfo) → SameIds members members
SameIds-refl [] = tt
SameIds-refl ((i, m) ∷ members) = (refl, refl, SameIds-refl members)

SameIds-none :
    (id : String) (members others : Dict ServerInfo)
    → SameIds members others
    → lookup id members ≡ none
    → lookup id others ≡ none
unfolding lookup
SameIds-none id [] [] g h = refl
SameIds-none id [] (o ∷ others) g h = absurd g
SameIds-none id (m ∷ members) [] g h = absurd g
SameIds-none id ((i, m) ∷ members) ((j, n) ∷ others) g h =
    ground (arith, SameIds-none id members others g.2)

pub SameIds-Members :
    (own : String) (members others : Dict ServerInfo)
    → SameIds members others
    → Members own members
    → Members own others
SameIds-Members own [] [] g v = tt
SameIds-Members own [] (o ∷ others) g v = absurd g
SameIds-Members own (m ∷ members) [] g v = absurd g
SameIds-Members own ((i, m) ∷ members) ((j, n) ∷ others) g v = (
  g.1 ∙ v.0 ∙ sym g.0,
  rw g.0 v.1,
  rw g.0 (SameIds-none i members others g.2 v.2),
  SameIds-Members own members others g.2 v.3,
)

-- A panic leaves nothing to speak of.
abbrev pub Leaves : (Dict ServerInfo → Type 0) → Option (Dict ServerInfo × List Action) → Type 0
Leaves P none = Unit
Leaves P (some (members, actions)) = P members

prepend-SameIds :
    (i : String) (m n : ServerInfo) (members : Dict ServerInfo) (now : List Action)
    (rest : Option (Dict ServerInfo × List Action))
    → n.id ≡ m.id
    → Leaves (SameIds members) rest
    → Leaves (SameIds ((i, m) ∷ members)) (prepend i n now rest)
prepend-SameIds i m n members now none e g = tt
prepend-SameIds i m n members now (some (others, later)) e g = (refl, e, g)

pub gossip-SameIds :
    (dial : Dial) (blacklist : Dict Bool) (call : Call) (perm : List ℕ) (pidx kidx : ℕ)
    (members : Dict ServerInfo)
    → Leaves (SameIds members) (gossip dial blacklist call perm pidx kidx members)
unfolding gossip
gossip-SameIds dial blacklist call perm pidx kidx [] = tt
gossip-SameIds dial blacklist call perm pidx kidx ((i, m) ∷ members) =
    elim (Bool-cases (leb fanout pidx)) [
      | inl done ↦ rw done (refl, refl, SameIds-refl members)
      | inr more ↦ elim (Option-cases (get_elem? perm pidx)) [
        | inl e ↦ rw (more, e) tt
        | inr (position, e) ↦ elim (Bool-cases (eqb position kidx)) [
          | inl hit ↦
              rw (more, e, hit)
                (prepend-SameIds i m _ members _ _ (id-connect dial blacklist m)
                  (gossip-SameIds dial blacklist call perm (pidx + 1) (kidx + 1) members))
          | inr miss ↦
              rw (more, e, miss)
                (prepend-SameIds i m m members [] _ refl
                  (gossip-SameIds dial blacklist call perm pidx (kidx + 1) members))
        ]
      ]
    ]
