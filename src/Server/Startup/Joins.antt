-- ===== src/Server/Startup/Joins.antt =====
-- A server that joins (main of server/server.go) with the replies of JoinClusterAsServer of
-- server/rpc.go.
use Prim.Native.String.{◌++◌}
use psk_db.Prelude.{
  ◌∙◌, ℕ, zero, suc, ◌+◌, Bool, true, leb, sym, String, false, ◌≡◌, refl, Option, none, some, List,
  [], ◌∷◌, All, arith, ◌==◌, eq_iff, Option-cases, inl, inr, if_rule, subst, pos,
}
use psk_db.Dict.{Dict, lookup}
use psk_db.Timestamp.{get_lamport_timestamp_from_seqnum}
use psk_db.Timestamp.Fraction.{signature-get_lamport_timestamp_from_seqnum}
use psk_db.Server.State.{Time, ServerInfo, JoinClusterAsServerRequest, Server, Action}
use psk_db.Server.Connect.{Dial}
use psk_db.Server.Membership.{JoinReply, ok, duplicate_id, values, join_cluster_as_server}
use psk_db.Server.Invariant.MemberList.{Members, insert-Members}
use psk_db.Server.Invariant.Handlers.{==_sym_false}
use psk_db.Server.Invariant.Defs.{IsValid, with_list-IsValid}
use psk_db.Server.Startup.{
  num_retries, start, add_members, Attempt, not_dialed, call_failed, joined, join_port, join_ports,
}

-- No entry of the list is the server `id`.
abbrev pub NoneIs : String → List ServerInfo → Type 0
NoneIs id list = All (λ (info : ServerInfo). (id == info.id) ≡ false) list

values-NoneIs :
    (own id : String) (members : Dict ServerInfo)
    → Members own members
    → lookup id members ≡ none
    → NoneIs id (values members)
unfolding lookup
values-NoneIs own id [] v h = tt
values-NoneIs own id ((i, m) ∷ members) v h =
    ground (arith, eq_iff i id, eq_iff id i, eq_iff id m.id, values-NoneIs own id members v.3)

abbrev pub Omits : String → JoinReply → Type 0
Omits id (ok list) = NoneIs id list
Omits id duplicate_id = Unit

-- The reply of a well-formed server to one that joins never lists the server that joins.
pub join_cluster_as_server-Omits :
    (dial : Dial) (now : Time) (req : JoinClusterAsServerRequest) (s : Server)
    → IsValid s
    → Omits req.id (join_cluster_as_server dial now req s).1
unfolding join_cluster_as_server
join_cluster_as_server-Omits dial now req s v = elim (Option-cases (lookup req.id s.server_map)) [
  | inl e ↦
      rw (e, join_cluster_as_server)
        (if_rule {A = Server × JoinReply × List Action} (λ r. Omits req.id r.1)
          (s.curr_server_info.id == req.id) _ _ (λ _. tt)
          (λ other. (
            ==_sym_false s.curr_server_info.id req.id other,
            values-NoneIs s.curr_server_info.id req.id s.server_map v.members e,
          )))
  | inr (member, e) ↦ rw (e, join_cluster_as_server) tt
]

-- A server that adds the members of such a reply stays well formed.
pub add_members-IsValid :
    (now : Time) (list : List ServerInfo) (s : Server)
    → NoneIs s.curr_server_info.id list
    → IsValid s
    → IsValid (add_members now list s)
unfolding add_members
add_members-IsValid now [] s none_is v = v
add_members-IsValid now (info ∷ list) s none_is v =
    elim (Option-cases (lookup info.id s.server_map)) [
      | inl e ↦
          rw (e, add_members)
            (add_members-IsValid now list _ none_is.1 (
              with_list-IsValid _ s
                (insert-Members _ info.id _ s.server_map refl none_is.0 v.members) v))
      | inr (member, e) ↦ rw (e, add_members) (add_members-IsValid now list s none_is.1 v)
    ]

abbrev Started : Option Server → Type 0
Started none = Unit
Started (some s) = IsValid s

start-Started : (id port_num : String) (now : Time) → Started (start id port_num now)
unfolding start
start-Started id port_num now = elim (Option-cases (get_lamport_timestamp_from_seqnum (pos 1) id)) [
  | inl e ↦ rw (e, start) tt
  | inr (t, e) ↦
      rw (e, start)
        (record {
          members = tt;
          entries = tt;
          clock = signature-get_lamport_timestamp_from_seqnum (pos 1) id t e;
        })
]

-- A server that starts without a panic is well formed.
pub start-IsValid :
    (id port_num : String) (now : Time) (s : Server) → start id port_num now ≡ some s → IsValid s
start-IsValid id port_num now s h = subst Started h (start-Started id port_num now)

-- What the attempts list, where they are answered.
abbrev pub OmitsOwn : String → Attempt → Type 0
OmitsOwn id (joined list) = NoneIs id list
OmitsOwn id _ = Unit

abbrev JoinedWell : ServerInfo → Option (Server × Bool) → Type 0
JoinedWell info none = Unit
JoinedWell info (some r) = IsValid r.0 × (r.0.curr_server_info ≡ info)

pub curr_server_info-add_members :
    (now : Time) (list : List ServerInfo) (s : Server)
    → (add_members now list s).curr_server_info ≡ s.curr_server_info
unfolding add_members
curr_server_info-add_members now [] s = refl
curr_server_info-add_members now (info ∷ list) s =
    elim (Option-cases (lookup info.id s.server_map)) [
      | inl e ↦ rw (e, add_members) (curr_server_info-add_members now list _)
      | inr (member, e) ↦ rw (e, add_members) (curr_server_info-add_members now list s)
    ]

attempt-JoinedWell :
    (now : Time) (s : Server) (attempt : Attempt) (again retried : Option (Server × Bool))
    → OmitsOwn s.curr_server_info.id attempt
    → IsValid s
    → JoinedWell s.curr_server_info again
    → JoinedWell s.curr_server_info retried
    → JoinedWell s.curr_server_info (elim attempt [
      | not_dialed ↦ again
      | call_failed ↦ retried
      | joined list ↦ some (add_members now list s, true)
    ])
attempt-JoinedWell now s not_dialed again retried o v a r = a
attempt-JoinedWell now s call_failed again retried o v a r = r
attempt-JoinedWell now s (joined list) again retried o v a r =
    (add_members-IsValid now list s o v, curr_server_info-add_members now list s)

join_port-JoinedWell :
    (now : Time) (attempts : ℕ → Attempt) (fuel k retries : ℕ) (s : Server)
    → ((i : ℕ) → OmitsOwn s.curr_server_info.id (attempts i))
    → IsValid s
    → JoinedWell s.curr_server_info (join_port now attempts fuel k retries s)
unfolding join_port
join_port-JoinedWell now attempts zero k retries s omits v = tt
join_port-JoinedWell now attempts (suc fuel) k retries s omits v =
    if_rule (JoinedWell s.curr_server_info) (leb num_retries retries) _ _ (λ _. (v, refl))
      (λ _.
        attempt-JoinedWell now s (attempts k) _ _ (omits k) v
          (join_port-JoinedWell now attempts fuel (k + 1) retries s omits v)
          (join_port-JoinedWell now attempts fuel (k + 1) (retries + 1) s omits v))

abbrev Joined : ServerInfo → Option (Server × List Bool) → Type 0
Joined info none = Unit
Joined info (some r) = IsValid r.0 × (r.0.curr_server_info ≡ info)

join_ports-Joined :
    (now : Time) (attempts : ℕ → String → ℕ → Attempt) (fuel : ℕ) (ports : List String) (i : ℕ)
    (s : Server)
    → ((j : ℕ) (address : String) (k : ℕ) → OmitsOwn s.curr_server_info.id (attempts j address k))
    → IsValid s
    → Joined s.curr_server_info (join_ports now attempts fuel ports i s)
unfolding join_ports
join_ports-Joined now attempts fuel [] i s omits v = (v, refl)
join_ports-Joined now attempts fuel (port ∷ ports) i s omits v =
    let tries = attempts i ("localhost:" ++ port) in
    elim (Option-cases (join_port now tries fuel 0 0 s)) [
      | inl e ↦ rw (e, join_ports) tt
      | inr ((t, first), e) ↦
          let well =
            subst (JoinedWell s.curr_server_info) e
              (join_port-JoinedWell now tries fuel 0 0 s (omits i ("localhost:" ++ port)) v) in
          let rest =
            join_ports-Joined now attempts fuel ports (i + 1) t
              (λ j a k.
                subst (λ (o : ServerInfo). OmitsOwn o.id (attempts j a k)) (sym well.1)
                  (omits j a k))
              well.0 in
          elim (Option-cases (join_ports now attempts fuel ports (i + 1) t)) [
            | inl f ↦ rw (e, join_ports, f) tt
            | inr (r, f) ↦
                rw (e, join_ports, f)
                  (
                    (subst (Joined t.curr_server_info) f rest).0,
                    (subst (Joined t.curr_server_info) f rest).1 ∙ well.1,
                  )
          ]
    ]

-- A well-formed server that has tried all ports is still well formed, if no list that it was sent
-- had itself in it.
pub join_ports-IsValid :
    (now : Time) (attempts : ℕ → String → ℕ → Attempt) (fuel : ℕ) (ports : List String) (i : ℕ)
    (s s' : Server) (connected : List Bool)
    → ((j : ℕ) (address : String) (k : ℕ) → OmitsOwn s.curr_server_info.id (attempts j address k))
    → IsValid s
    → join_ports now attempts fuel ports i s ≡ some (s', connected)
    → IsValid s' × (s'.curr_server_info ≡ s.curr_server_info)
join_ports-IsValid now attempts fuel ports i s s' connected omits v h =
    subst (Joined s.curr_server_info) h (join_ports-Joined now attempts fuel ports i s omits v)
