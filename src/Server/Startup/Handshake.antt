-- ===== src/Server/Startup/Handshake.antt =====
-- The reply of JoinClusterAsServer (server/rpc.go) at the server that joins (main of
-- server/server.go): who knows whom afterwards.
use psk_db.Prelude.{
  String, true, false, ◌≡◌, ◌≢◌, refl, ap, none, some, List, [], ◌∷◌, In, ◌⊎◌, inl, inr, ◌==◌,
  eq_iff, arith, Option-cases, Bool-cases, subst, sym, is_some,
}
use psk_db.Dict.{Dict, lookup, insert, contains, lookup-insert, lookup-insert_same}
use psk_db.Server.State.{Time, ServerInfo, new_server_info_heap, Server}
use psk_db.Server.Connect.{Dial}
use psk_db.Server.Membership.{ok, joining, values, join_cluster_as_server}
use psk_db.Server.Startup.{add_members}
use psk_db.Server.Startup.Main.{join_request}
use psk_db.Server.Invariant.MemberList.{lookup-id}
use psk_db.Server.Invariant.Defs.{IsValid}

-- The server has the member in its list.
abbrev pub Knows : String → Server → Type 0
Knows id s = contains id s.server_map ≡ true

pub Knows-insert :
    (key id : String) (info : ServerInfo) (s : Server)
    → Knows id s
    → Knows id (record s { server_map = insert key info s.server_map })
Knows-insert key id info s h = ground (arith, lookup-insert key id info s.server_map)

pub add_members-Knows :
    (now : Time) (list : List ServerInfo) (s : Server) (id : String)
    → Knows id s
    → Knows id (add_members now list s)
unfolding add_members
add_members-Knows now [] s id h = h
add_members-Knows now (info ∷ list) s id h = elim (Option-cases (lookup info.id s.server_map)) [
  | inl e ↦
      rw (e, add_members)
        (add_members-Knows now list _ id
          (Knows-insert info.id id (new_server_info_heap now info) s h))
  | inr (member, e) ↦ rw (e, add_members) (add_members-Knows now list s id h)
]

-- Whoever is in the list is known afterwards.
add_members-Knows_listed :
    (now : Time) (list : List ServerInfo) (s : Server) (info : ServerInfo)
    → In info list
    → Knows info.id (add_members now list s)
unfolding add_members
add_members-Knows_listed now [] s info m = absurd (m tt)
add_members-Knows_listed now (first ∷ list) s info (inl same) =
    elim (Option-cases (lookup first.id s.server_map)) [
      | inl e ↦
          rw (e, add_members)
            (add_members-Knows now list _ info.id (
              subst
                (λ (i : ServerInfo).
                  contains i.id (insert first.id (new_server_info_heap now first) s.server_map)
                  ≡ true)
                same
                (ap is_some
                  (lookup-insert_same first.id (new_server_info_heap now first) s.server_map))))
      | inr (member, e) ↦
          rw (e, add_members)
            (add_members-Knows now list s info.id
              (subst (λ (i : ServerInfo). contains i.id s.server_map ≡ true) same (ap is_some e)))
    ]
add_members-Knows_listed now (first ∷ list) s info (inr m) =
    elim (Option-cases (lookup first.id s.server_map)) [
      | inl e ↦ rw (e, add_members) (add_members-Knows_listed now list _ info m)
      | inr (member, e) ↦ rw (e, add_members) (add_members-Knows_listed now list s info m)
    ]

values-In :
    (id : String) (members : Dict ServerInfo) (member : ServerInfo)
    → lookup id members ≡ some member
    → In member (values members)
unfolding lookup
values-In id [] member h = absurd cc
values-In id ((i, m) ∷ members) member h = elim (Bool-cases (i == id)) [
  | inl e ↦ inl (ground arith)
  | inr e ↦ inr (values-In id members member (ground arith))
]

reply-Knows :
    (now : Time) (s t : Server) (id : String)
    → IsValid t
    → (id ≡ t.curr_server_info.id) ⊎ Knows id t
    → Knows id (add_members now (t.curr_server_info ∷ values t.server_map) s)
reply-Knows now s t id v (inl e) =
    subst (λ i. Knows i (add_members now (t.curr_server_info ∷ values t.server_map) s)) (sym e)
      (add_members-Knows_listed now _ s t.curr_server_info (inl refl))
reply-Knows now s t id v (inr k) = elim (Option-cases (lookup id t.server_map)) [
  | inl e ↦ absurd (ground (arith, e, k))
  | inr (member, e) ↦
      subst (λ i. Knows i (add_members now (t.curr_server_info ∷ values t.server_map) s))
        (lookup-id _ id t.server_map member v.members e).0
        (add_members-Knows_listed now _ s member (inr (values-In id t.server_map member e)))
]

-- When a server joins at a well-formed one with another id that does not know it, the reply is a
-- list, the well-formed one then has the entry made of the request, and the server that adds the
-- list knows the well-formed one and every member that this one knew.
pub join_handshake :
    (dial : Dial) (now later : Time) (s t : Server)
    → IsValid t
    → t.curr_server_info.id ≢ s.curr_server_info.id
    → lookup s.curr_server_info.id t.server_map ≡ none
    → let joined = join_cluster_as_server dial now (join_request s) t in
      (list : List ServerInfo) × (joined.1 ≡ ok list)
      × (lookup s.curr_server_info.id joined.0.server_map ≡ some (joining now (join_request s)))
      × ((id : String)
          → (id ≡ t.curr_server_info.id) ⊎ Knows id t
          → Knows id (add_members later list s))
unfolding join_cluster_as_server
join_handshake dial now later s t v other unknown =
    let apart : (t.curr_server_info.id == s.curr_server_info.id) ≡ false =
      ground (arith, eq_iff t.curr_server_info.id s.curr_server_info.id) in
    (
      t.curr_server_info ∷ values t.server_map,
      rw (join_cluster_as_server, unknown, apart) refl,
      rw (join_cluster_as_server, unknown, apart) (lookup-insert_same s.curr_server_info.id _ _),
      λ id k. reply-Knows later s t id v k,
    )
