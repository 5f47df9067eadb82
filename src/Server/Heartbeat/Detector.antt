-- ===== src/Server/Heartbeat/Detector.antt =====
-- The failure detector of server/server.go and server/rpc.go: who is suspected, who is removed, and
-- when.
use psk_db.Prelude.{
  ◌<◌, String, true, false, ◌≡◌, ◌≢◌, refl, Option, none, some, [], ◌∷◌, arith, ◌==◌, eq_iff,
  eq_refl, ltb_ℤ, ◌≤ℤ◌, ≤ℤ_refl, ◌<ℤ◌, ltb_ℤ→lt, lt→ltb_ℤ, ◌↔◌, if_rule, Option-cases, Bool-cases,
  inl, inr, subst,
}
use psk_db.Dict.{Dict, lookup, insert, lookup-insert, Distinct}
use psk_db.Server.State.{Time, ServerInfo, Server}
use psk_db.Server.Membership.{update_member}
use psk_db.Server.Heartbeat.{timeout, elapsed, check_member, check_members}

-- What becomes of a member, or of none, in a round.
abbrev checked : Time → Option ServerInfo → Option ServerInfo
checked now none = none
checked now (some member) = check_member now member

lookup-check_members-none :
    (now : Time) (id : String) (members : Dict ServerInfo)
    → lookup id members ≡ none
    → lookup id (check_members now members) ≡ none
unfolding lookup check_members
lookup-check_members-none now id [] h = refl
lookup-check_members-none now id ((i, m) ∷ members) h =
    ground (arith, lookup-check_members-none now id members)

pub lookup-check_members :
    (now : Time) (id : String) (members : Dict ServerInfo)
    → Distinct members
    → lookup id (check_members now members) ≡ checked now (lookup id members)
unfolding lookup check_members
lookup-check_members now id [] d = refl
lookup-check_members now id ((i, m) ∷ members) d = elim (Bool-cases (i == id)) [
  | inl e ↦
      let absent =
        lookup-check_members-none now id members
          (subst (λ j. lookup j members ≡ none) ((eq_iff i id).0 e) d.0) in
      ground (arith, e, absent)
  | inr e ↦ ground (arith, e, lookup-check_members now id members d.1)
]

check_members-Distinct :
    (now : Time) (members : Dict ServerInfo)
    → Distinct members
    → Distinct (check_members now members)
unfolding check_members
check_members-Distinct now [] d = tt
check_members-Distinct now ((i, m) ∷ members) d =
    ground
      (arith, lookup-check_members-none now i members d.0, check_members-Distinct now members d.1)

check_member_twice :
    (now later : Time) (member : ServerInfo)
    → member.alive ≡ true
    → (checked later (check_member now member) ≡ none)
      ↔ ((timeout < elapsed now member.timestamp) × (timeout < elapsed later now))
unfolding check_member
check_member_twice now later member a = ((λ h. ground arith), (λ h. ground arith))

-- In a list without an id twice, a member that is alive is removed by two rounds exactly when the
-- timeout had passed at both: since its last heartbeat at the first, and since the first at the
-- second.
pub check_members_twice :
    (now later : Time) (id : String) (members : Dict ServerInfo) (member : ServerInfo)
    → Distinct members
    → lookup id members ≡ some member
    → member.alive ≡ true
    → (lookup id (check_members later (check_members now members)) ≡ none)
      ↔ ((timeout < elapsed now member.timestamp) × (timeout < elapsed later now))
check_members_twice now later id members member d h a =
    rw
      (
        lookup-check_members later id (check_members now members)
            (check_members-Distinct now members d),
        lookup-check_members now id members d,
        h,
      )
      (check_member_twice now later member a)

-- The member's sequence number, where it has one, is at least the other's.
abbrev pub SeqLe : Option ServerInfo → Option ServerInfo → Type 0
SeqLe none b = Unit
SeqLe (some a) none = ⊥
SeqLe (some a) (some b) = a.heartbeat_seqnum ≤ℤ b.heartbeat_seqnum

SeqLe-refl : (a : Option ServerInfo) → SeqLe a a
SeqLe-refl none = tt
SeqLe-refl (some a) = ≤ℤ_refl a.heartbeat_seqnum

SeqLe-insert :
    (k id : String) (x : ServerInfo) (members : Dict ServerInfo)
    → SeqLe (lookup k members) (some x)
    → SeqLe (lookup id members) (lookup id (insert k x members))
SeqLe-insert k id x members h = rw (lookup-insert k id x members) (
    if_rule (SeqLe (lookup id members)) (k == id) _ _
      (λ e. subst (λ j. SeqLe (lookup j members) (some x)) ((eq_iff k id).0 e) h)
      (λ _. SeqLe-refl (lookup id members)))

-- No entry of a heartbeat lowers the sequence number of a member, or removes it.
pub update_member-SeqLe :
    (now : Time) (info : ServerInfo) (s : Server) (id : String)
    → SeqLe (lookup id s.server_map) (lookup id (update_member now info s).server_map)
unfolding update_member
update_member-SeqLe now info s id = elim (Option-cases (lookup info.id s.server_map)) [
  | inl e ↦
      rw (e, update_member)
        (if_rule same (info.id == s.curr_server_info.id) _ _
          (λ _. SeqLe-refl (lookup id s.server_map))
          (λ _.
            if_rule same info.suspicion _ _ (λ _. SeqLe-refl (lookup id s.server_map))
              (λ _. SeqLe-insert info.id id _ s.server_map (rw e tt))))
  | inr (member, e) ↦
      rw (e, update_member)
        (if_rule same (info.id == s.curr_server_info.id) _ _
          (λ _. SeqLe-refl (lookup id s.server_map))
          (λ _.
            if_rule same (ltb_ℤ member.heartbeat_seqnum info.heartbeat_seqnum) _ _
              (λ n.
                SeqLe-insert info.id id _ s.server_map
                  (rw e (omega (arith, ltb_ℤ→lt member.heartbeat_seqnum info.heartbeat_seqnum n))))
              (λ _. SeqLe-refl (lookup id s.server_map))))
]
  where
    same : Server → Type 0
    same after = SeqLe (lookup id s.server_map) (lookup id after.server_map)

-- A newer sequence number from a suspected member, other than the server itself, makes it alive
-- again, from now on.
pub update_member_revives :
    (now : Time) (info : ServerInfo) (s : Server) (member : ServerInfo)
    → info.id ≢ s.curr_server_info.id
    → lookup info.id s.server_map ≡ some member
    → member.suspicion ≡ true
    → member.heartbeat_seqnum <ℤ info.heartbeat_seqnum
    → lookup info.id (update_member now info s).server_map
      ≡ some (record member {
        heartbeat_seqnum = info.heartbeat_seqnum;
        timestamp = now;
        suspicion = false;
        alive = true;
      })
unfolding update_member lookup
update_member_revives now info s member other h suspected newer =
    let apart : (info.id == s.curr_server_info.id) ≡ false =
      ground (arith, other, eq_iff info.id s.curr_server_info.id) in
    rw (
      h,
      update_member,
      apart,
      lt→ltb_ℤ member.heartbeat_seqnum info.heartbeat_seqnum newer,
      lookup-insert,
      eq_refl info.id,
      suspected,
    )
