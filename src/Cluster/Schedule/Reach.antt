-- ===== src/Cluster/Schedule/Reach.antt =====
-- Whom the loop of Stabilize (server/rpc.go) reaches.
use psk_db.Prelude.{
  String, Bool, ◌≡◌, refl, sym, ap, ◌∙◌, none, some, [], ◌∷◌, inl, inr, arith, eq_iff, ◌==◌, ◌⊎◌,
  Option-cases, if_rule,
}
use psk_db.Common.{Conn}
use mathlib.Core.Option
use psk_db.Dict.{Dict, lookup, insert, lookup-insert}
use psk_db.Server.State.{ServerInfo, Server, sent, send_kv_data as send_kv_data_call}
use psk_db.Server.Connect.{Dial, connect, get_rpc_connection}
use psk_db.Server.Stabilize.{stabilize_send, kv_data_request}
use psk_db.Cluster.Schedule.{Ending, answered, failed, error_of, reach, target}

connect_kept :
    (dial : Dial) (blacklist : Dict Bool) (member : ServerInfo) (c : Conn)
    → member.rpc_client ≡ some c
    → connect dial blacklist member ≡ member
unfolding connect
connect_kept dial blacklist member c e =
    rw (e, connect) (ap (λ o. record member { rpc_client = o }) e)

connect_new :
    (dial : Dial) (blacklist : Dict Bool) (member : ServerInfo)
    → member.rpc_client ≡ none
    → connect dial blacklist member
      ≡ record member { rpc_client = get_rpc_connection dial blacklist member.address }
unfolding connect
connect_new dial blacklist member e = rw (e, connect) refl

-- A second look at a member finds what the first one found.
connect_twice :
    (dial : Dial) (blacklist : Dict Bool) (member : ServerInfo)
    → connect dial blacklist (connect dial blacklist member) ≡ connect dial blacklist member
connect_twice dial blacklist member = elim (Option-cases member.rpc_client) [
  | inr (c, e) ↦ ap (connect dial blacklist) (connect_kept dial blacklist member c e)
  | inl e ↦
      let dialed : ServerInfo = record member {
        rpc_client = get_rpc_connection dial blacklist member.address;
      } in
      let first = connect_new dial blacklist member e in
      let again : connect dial blacklist dialed ≡ dialed =
        elim (Option-cases (get_rpc_connection dial blacklist member.address)) [
          | inr (c, f) ↦ connect_kept dial blacklist dialed c f
          | inl f ↦ connect_new dial blacklist dialed f
        ] in
      ap (connect dial blacklist) first ∙ again ∙ sym first
]

id-connect :
    (dial : Dial) (blacklist : Dict Bool) (member : ServerInfo)
    → (connect dial blacklist member).id ≡ member.id
unfolding connect
id-connect dial blacklist member = ground (arith, Option-cases member.rpc_client)

reach-connect :
    (dial : Dial) (blacklist : Dict Bool) (member : ServerInfo)
    → reach dial blacklist (some (connect dial blacklist member))
      ≡ reach dial blacklist (some member)
unfolding reach
reach-connect dial blacklist member = λ i.
    Option.map (λ (c : Conn). id-connect dial blacklist member i)
      (connect_twice dial blacklist member i).rpc_client

reach-insert :
    (dial : Dial) (blacklist : Dict Bool) (id other : String) (member : ServerInfo)
    (members : Dict ServerInfo)
    → lookup id members ≡ some member
    → reach dial blacklist (lookup other (insert id (connect dial blacklist member) members))
      ≡ reach dial blacklist (lookup other members)
reach-insert dial blacklist id other member members h = rw lookup-insert (
    if_rule (λ o. reach dial blacklist o ≡ reach dial blacklist (lookup other members))
      (id == other) _ _
      (λ e.
        reach-connect dial blacklist member
        ∙ ap (reach dial blacklist) (sym h ∙ ap (λ k. lookup k members) ((eq_iff id other).0 e)))
      (λ _. refl))

-- An iteration changes no one's reach.
pub target-stabilize_send :
    (dial : Dial) (id other : String) (s : Server)
    → target dial other (stabilize_send dial (λ member. none) id s).0 ≡ target dial other s
unfolding stabilize_send
target-stabilize_send dial id other s = elim (Option-cases (lookup id s.server_map)) [
  | inl e ↦ rw (e, stabilize_send) refl
  | inr (member, e) ↦ elim (Option-cases (connect dial s.blacklist_map member).rpc_client) [
    | inl n ↦
        rw (e, stabilize_send, n) (reach-insert dial s.blacklist_map id other member s.server_map e)
    | inr (c, n) ↦
        rw (e, stabilize_send, n) (reach-insert dial s.blacklist_map id other member s.server_map e)
  ]
]

-- What an iteration sends.
pub sent-stabilize_send :
    (dial : Dial) (id : String) (s : Server)
    → ((target dial id s ≡ none) × ((stabilize_send dial (λ member. none) id s).1 ≡ []))
      ⊎ ((to : String) × (c : Conn) × (target dial id s ≡ some to)
          × ((stabilize_send dial (λ member. none) id s).1
              ≡ sent to c (send_kv_data_call (kv_data_request s)) ∷ []))
unfolding stabilize_send reach
sent-stabilize_send dial id s = elim (Option-cases (lookup id s.server_map)) [
  | inl e ↦ rw (e, stabilize_send, reach) (inl (refl, refl))
  | inr (member, e) ↦ elim (Option-cases (connect dial s.blacklist_map member).rpc_client) [
    | inl n ↦ rw (e, stabilize_send, reach, n) (inl (refl, refl))
    | inr (c, n) ↦ rw (e, stabilize_send, reach, n) (inr (member.id, c, refl, refl))
  ]
]

-- An error of net/rpc leaves the sender as an answer does.
pub stabilize_send-error_of :
    (dial : Dial) (ending : Ending) (id : String) (s : Server)
    → stabilize_send dial (λ member. error_of ending) id s
      ≡ stabilize_send dial (λ member. none) id s
unfolding stabilize_send
stabilize_send-error_of dial answered id s = refl
stabilize_send-error_of dial (failed handled text) id s =
    elim (Option-cases (lookup id s.server_map)) [
      | inl e ↦ rw (e, stabilize_send) refl
      | inr (member, e) ↦ elim (Option-cases (connect dial s.blacklist_map member).rpc_client) [
        | inl n ↦ rw (e, stabilize_send, n) refl
        | inr (c, n) ↦ rw (e, stabilize_send, n) refl
      ]
    ]
