-- ===== src/Server/Heartbeat/Sent.antt =====
-- The calls of a heartbeat round (startHeartbeats of server/server.go).
use psk_db.Prelude.{
  ℕ, ◌+◌, String, Bool, ◌≡◌, refl, Option, none, some, List, [], ◌∷◌, All, inl, inr, Option-cases,
  Bool-cases, leb, eqb, get_elem?,
}
use psk_db.Dict.{Dict}
use psk_db.Common.{Conn}
use psk_db.Server.State.{ServerInfo, Call, Action, sent}
use psk_db.Server.Connect.{Dial, connect, send}
use psk_db.Server.Heartbeat.{fanout, gossip, prepend}

-- The action is this call of some member.
abbrev pub Makes : Call → Action → Type 0
Makes call action = (member : String) × (c : Conn) × (action ≡ sent member c call)

abbrev pub AllMake : Call → Option (Dict ServerInfo × List Action) → Type 0
AllMake call none = Unit
AllMake call (some (members, actions)) = All (Makes call) actions

send-AllMake :
    (call : Call) (id : String) (member shown : ServerInfo)
    (result : Option (Dict ServerInfo × List Action))
    → AllMake call result
    → AllMake call (prepend id shown (send call member []) result)
send-AllMake call id member shown none h = tt
send-AllMake call id member shown (some (members, actions)) h =
    elim (Option-cases member.rpc_client) [
      | inl e ↦ rw e h
      | inr (c, e) ↦ rw e ((member.id, c, refl), h)
    ]

skip-AllMake :
    (call : Call) (id : String) (member : ServerInfo)
    (result : Option (Dict ServerInfo × List Action))
    → AllMake call result
    → AllMake call (prepend id member [] result)
skip-AllMake call id member none h = tt
skip-AllMake call id member (some (members, actions)) h = h

pub gossip-AllMake :
    (dial : Dial) (blacklist : Dict Bool) (call : Call) (perm : List ℕ) (pidx kidx : ℕ)
    (members : Dict ServerInfo)
    → AllMake call (gossip dial blacklist call perm pidx kidx members)
unfolding gossip
gossip-AllMake dial blacklist call perm pidx kidx [] = tt
gossip-AllMake dial blacklist call perm pidx kidx ((i, m) ∷ members) =
    elim (Bool-cases (leb fanout pidx)) [
      | inl done ↦ rw done tt
      | inr more ↦ elim (Option-cases (get_elem? perm pidx)) [
        | inl e ↦ rw (more, e) tt
        | inr (position, e) ↦ elim (Bool-cases (eqb position kidx)) [
          | inl hit ↦
              rw (more, e, hit)
                (send-AllMake call i (connect dial blacklist m) _ _
                  (gossip-AllMake dial blacklist call perm (pidx + 1) (kidx + 1) members))
          | inr miss ↦
              rw (more, e, miss)
                (skip-AllMake call i m _
                  (gossip-AllMake dial blacklist call perm pidx (kidx + 1) members))
        ]
      ]
    ]
