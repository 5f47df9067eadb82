-- ===== src/Server/Invariant/Handlers.antt =====
-- The well-formedness of a server under the handlers of server/rpc.go that write the store or read a
-- heartbeat.
use psk_db.Prelude.{
  String, false, ◌≡◌, refl, ◌∙◌, some, List, [], ◌∷◌, arith, ◌==◌, eq_iff, if_rule, Option-cases,
  inl, inr, max_ℤ, ltb_ℤ, eqb_ℤ, ◌+ℤ◌,
}
use psk_db.Dict.{lookup}
use psk_db.Timestamp.{Timestamp, one, minus_one, floor}
use psk_db.Timestamp.Fraction.{frac-one, frac-max, get_lamport_timestamp_from_seqnum-signature}
use psk_db.Common.{PutKvServerRequest}
use psk_db.Server.State.{Time, ServerInfo, Server}
use psk_db.Server.Clock.{set_lamport_timestamp}
use psk_db.Server.Store.{put_entry}
use psk_db.Server.Membership.{update_member, heartbeat_entry, heartbeat_entries}
use psk_db.Server.Invariant.MemberList.{insert-Members, lookup-id}
use psk_db.Server.Invariant.StoreEntries.{lookup-key}
use psk_db.Server.Invariant.Defs.{
  IsValid, set_lamport_timestamp-IsValid, with_list-IsValid, store_entry-IsValid,
  get_and_increment-IsValid, conditional_increment-IsValid,
}

pub put_entry-IsValid :
    (req : PutKvServerRequest) (s : Server) → IsValid s → IsValid (put_entry req s).1
unfolding put_entry
put_entry-IsValid req s v = elim (Option-cases (lookup req.key s.key_value_map)) [
  | inl e ↦
      rw (e, put_entry)
        (store_entry-IsValid req.key _ _ refl (
          if_rule {A = Timestamp × Server} (λ x. IsValid x.1) (eqb_ℤ req.version minus_one) _ _
            (λ _. get_and_increment-IsValid s v)
            (λ _. conditional_increment-IsValid req.version s v)))
  | inr (old, e) ↦
      rw (e, put_entry)
        (store_entry-IsValid req.key _ _ (lookup-key req.key s.key_value_map old v.entries e) (
          if_rule {A = Timestamp × Server} (λ x. IsValid x.1) (eqb_ℤ req.version minus_one) _ _
            (λ _. conditional_increment-IsValid old.version s v)
            (λ _. conditional_increment-IsValid req.version s v)))
]

pub ==_sym_false : (a b : String) → (a == b) ≡ false → (b == a) ≡ false
==_sym_false a b h = ground (arith, eq_iff a b, eq_iff b a)

update_member-IsValid :
    (now : Time) (info : ServerInfo) (s : Server) → IsValid s → IsValid (update_member now info s)
unfolding update_member
update_member-IsValid now info s v = elim (Option-cases (lookup info.id s.server_map)) [
  | inl e ↦
      rw (e, update_member)
        (if_rule IsValid (info.id == s.curr_server_info.id) _ _ (λ _. v)
          (λ other.
            if_rule IsValid info.suspicion _ _ (λ _. v)
              (λ _.
                with_list-IsValid _ s
                  (insert-Members s.curr_server_info.id info.id _ s.server_map refl
                    (==_sym_false info.id s.curr_server_info.id other) v.members)
                  v)))
  | inr (member, e) ↦
      let k = lookup-id s.curr_server_info.id info.id s.server_map member v.members e in
      rw (e, update_member)
        (if_rule IsValid (info.id == s.curr_server_info.id) _ _ (λ _. v)
          (λ _.
            if_rule IsValid (ltb_ℤ member.heartbeat_seqnum info.heartbeat_seqnum) _ _
              (λ _.
                with_list-IsValid _ s
                  (insert-Members s.curr_server_info.id info.id _ s.server_map k.0 k.1 v.members) v)
              (λ _. v)))
]

-- A heartbeat never panics on the own id.
heartbeat_entry-IsValid :
    (now : Time) (info : ServerInfo) (s : Server)
    → IsValid s
    → (s' : Server) × (heartbeat_entry now info s ≡ some s') × IsValid s'
unfolding heartbeat_entry
heartbeat_entry-IsValid now info s v =
    let (t, e, g) =
      get_lamport_timestamp_from_seqnum-signature (floor info.lamport_timestamp)
        s.curr_server_info.id _ v.clock in
    (
      update_member now info
          (set_lamport_timestamp (max_ℤ t s.curr_server_info.lamport_timestamp +ℤ one) s),
      rw (e, heartbeat_entry),
      update_member-IsValid now info _ (
          set_lamport_timestamp-IsValid _ s
            (frac-one _ ∙ frac-max t s.curr_server_info.lamport_timestamp _ g refl) v),
    )

pub heartbeat_entries-IsValid :
    (now : Time) (list : List ServerInfo) (s : Server)
    → IsValid s
    → (s' : Server) × (heartbeat_entries now list s ≡ some s') × IsValid s'
unfolding heartbeat_entries
heartbeat_entries-IsValid now [] s v = (s, refl, v)
heartbeat_entries-IsValid now (info ∷ list) s v =
    let (s', e, w) = heartbeat_entry-IsValid now info s v in
    let (s'', e', w') = heartbeat_entries-IsValid now list s' w in
    (s'', rw (e, heartbeat_entries) e', w')
