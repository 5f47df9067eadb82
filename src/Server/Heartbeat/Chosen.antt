-- ===== src/Server/Heartbeat/Chosen.antt =====
-- Whom a round of the heartbeat thread (startHeartbeats of server/server.go) tells.
use psk_db.Prelude.{
  ℕ, suc, ◌+◌, ◌≤◌, ◌<◌, String, Bool, false, ◌≡◌, ◌≢◌, ◌⊎◌, inl, inr, refl, sym, ap, ◌∙◌, Option,
  none, some, List, [], ◌∷◌, ◌++◌, arith, eqb, length, get_elem?, Bool-cases, Option-cases,
  length-append, if◌then◌else◌, ◌||◌, All, All-map,
}
use mathlib.Core.Option
use mathlib.Core.List.{append_assoc}
use psk_db.Dict.{Dict}
use psk_db.Server.State.{ServerInfo, Call, Action}
use psk_db.Server.Connect.{Dial, connect, send, broadcast}
use psk_db.Server.Heartbeat.{fanout, prepend, gossip}

abbrev pub is_in : ℕ → List ℕ → Bool
is_in k [] = false
is_in k (p ∷ positions) = eqb p k || is_in k positions

-- The members at the positions, counted from `k`.
unfoldable pub chosen : List ℕ → ℕ → Dict ServerInfo → Dict ServerInfo
chosen positions k [] = []
chosen positions k (member ∷ members) =
    let rest = chosen positions (k + 1) members in if is_in k positions then member ∷ rest else rest

-- Ascending numbers, none twice, the first at least `k`.
abbrev pub From : ℕ → List ℕ → Type 0
From k [] = Unit
From k (p ∷ positions) = (k ≤ p) × From (suc p) positions

abbrev pub AllApart : List ℕ → Type 0
AllApart [] = Unit
AllApart (x ∷ list) = All (λ y. x ≢ y) list × AllApart list

From-le : (k l : ℕ) (positions : List ℕ) → k ≤ l → From l positions → From k positions
From-le k l [] h v = tt
From-le k l (p ∷ positions) h v = (omega (arith, v.0), v.1)

is_in-From : (k : ℕ) (positions : List ℕ) → From (suc k) positions → is_in k positions ≡ false
is_in-From k [] v = refl
is_in-From k (p ∷ positions) v =
    ground
      (arith, is_in-From k positions (From-le (suc k) (suc p) positions (omega (arith, v.0)) v.1))

chosen_past :
    (p k : ℕ) (positions : List ℕ) (members : Dict ServerInfo)
    → p < k
    → chosen (p ∷ positions) k members ≡ chosen positions k members
unfolding chosen
chosen_past p k positions [] h = refl
chosen_past p k positions (member ∷ members) h =
    ground (arith, chosen_past p (k + 1) positions members)

chosen_hit :
    (p k : ℕ) (rest : List ℕ) (member : String × ServerInfo) (members : Dict ServerInfo)
    → p ≡ k
    → chosen (p ∷ rest) k (member ∷ members) ≡ member ∷ chosen rest (k + 1) members
unfolding chosen
chosen_hit p k rest member members h = ground (arith, chosen_past p (k + 1) rest members)

chosen_miss :
    (p k : ℕ) (rest : List ℕ) (member : String × ServerInfo) (members : Dict ServerInfo)
    → k < p
    → From (suc p) rest
    → chosen (p ∷ rest) k (member ∷ members) ≡ chosen (p ∷ rest) (k + 1) members
unfolding chosen
chosen_miss p k rest member members h v =
    ground (arith, is_in-From k rest (From-le (suc k) (suc p) rest (omega arith) v))

chosen_none : (k : ℕ) (members : Dict ServerInfo) → chosen [] k members ≡ []
unfolding chosen
chosen_none k [] = refl
chosen_none k (member ∷ members) = chosen_none (k + 1) members

-- Every position is one of a member, so there are as many members as positions.
pub length-chosen :
    (k : ℕ) (positions : List ℕ) (members : Dict ServerInfo)
    → From k positions
    → All (λ p. p < k + length members) positions
    → length (chosen positions k members) ≡ length positions
unfolding chosen
length-chosen k [] members v h = ap length (chosen_none k members)
length-chosen k (p ∷ positions) [] v h = absurd (omega (arith, h.0, v.0))
length-chosen k (p ∷ positions) (member ∷ members) v h = elim (Bool-cases (eqb p k)) [
  | inl hit ↦
      let same : p ≡ k = ground arith in
      ap length (chosen_hit p k positions member members same)
      ∙ ap suc (
          length-chosen (k + 1) positions members
            (From-le (k + 1) (suc p) positions (omega (arith, same)) v.1)
            (All-map _ _ positions (λ q b. omega (arith, b)) h.1))
  | inr miss ↦
      let above : k < p = ground (arith, v.0) in
      ap length (chosen_miss p k positions member members above v.1)
      ∙ length-chosen (k + 1) (p ∷ positions) members (omega (arith, above), v.1)
          (omega (arith, h.0), All-map _ _ positions (λ q b. omega (arith, b)) h.1)
]

get_elem?-append :
    (before : List ℕ) (p : ℕ) (rest : List ℕ)
    → get_elem? (before ++ p ∷ rest) (length before) ≡ some p
get_elem?-append [] p rest = refl
get_elem?-append (x ∷ before) p rest = get_elem?-append before p rest

send-append :
    (call : Call) (member : ServerInfo) (later : List Action)
    → send call member [] ++ later ≡ send call member later
send-append call member later = ground (arith, Option-cases member.rpc_client)

-- What the loop sends.
abbrev pub told : Option (Dict ServerInfo × List Action) → Option (List Action)
told result = Option.map (λ (r : Dict ServerInfo × List Action). r.1) result

prepend-told :
    (id : String) (member : ServerInfo) (rest : Option (Dict ServerInfo × List Action))
    → told (prepend id member [] rest) ≡ told rest
prepend-told id member none = refl
prepend-told id member (some rest) = refl

prepend-send :
    (id : String) (member : ServerInfo) (call : Call)
    (rest : Option (Dict ServerInfo × List Action))
    → told (prepend id member (send call member []) rest)
      ≡ Option.map (send call member) (told rest)
prepend-send id member call none = refl
prepend-send id member call (some rest) = ap some (send-append call member rest.1)

module _ (dial : Dial) (blacklist : Dict Bool) (call : Call) (perm : List ℕ) where
  gossip_done :
      (pidx kidx : ℕ) (members : Dict ServerInfo)
      → fanout ≤ pidx
      → told (gossip dial blacklist call perm pidx kidx members) ≡ some []
  unfolding gossip
  gossip_done pidx kidx [] h = refl
  gossip_done pidx kidx (member ∷ members) h = ground arith

  gossip_hit :
      (pidx k : ℕ) (i : String) (m : ServerInfo) (members : Dict ServerInfo)
      → pidx < fanout
      → get_elem? perm pidx ≡ some k
      → told (gossip dial blacklist call perm pidx k ((i, m) ∷ members))
        ≡ Option.map
            (send call (connect dial blacklist m))
            (told (gossip dial blacklist call perm (pidx + 1) (k + 1) members))
  unfolding gossip
  gossip_hit pidx k i m members few e = ground (
    arith,
    e,
    prepend-send i (connect dial blacklist m) call
        (gossip dial blacklist call perm (pidx + 1) (k + 1) members),
  )

  gossip_miss :
      (pidx k p : ℕ) (i : String) (m : ServerInfo) (members : Dict ServerInfo)
      → pidx < fanout
      → get_elem? perm pidx ≡ some p
      → k < p
      → told (gossip dial blacklist call perm pidx k ((i, m) ∷ members))
        ≡ told (gossip dial blacklist call perm pidx (k + 1) members)
  unfolding gossip
  gossip_miss pidx k p i m members few e h =
      ground (arith, e, prepend-told i m (gossip dial blacklist call perm pidx (k + 1) members))

  -- `rest` are the positions that are left.
  pub gossip_sends :
      (before rest : List ℕ) (k : ℕ) (members : Dict ServerInfo)
      → perm ≡ before ++ rest
      → From k rest
      → length perm ≤ fanout
      → (fanout ≤ length perm) ⊎ (length members ≤ length rest)
      → told (gossip dial blacklist call perm (length before) k members)
        ≡ some (broadcast dial blacklist call (chosen rest k members)).1
  unfolding gossip chosen broadcast
  gossip_sends before rest k [] e v few enough = refl
  gossip_sends before [] k ((i, m) ∷ members) e v few enough = rw (chosen_none (k + 1) members) (
      gossip_done (length before) k ((i, m) ∷ members) (ground (arith, length-append before [], e)))
  gossip_sends before (p ∷ rest) k ((i, m) ∷ members) e v few enough =
      let here : get_elem? perm (length before) ≡ some p =
        ap (λ l. get_elem? l (length before)) e ∙ get_elem?-append before p rest in
      let sum : length perm ≡ length before + suc (length rest) =
        ap length e ∙ length-append before (p ∷ rest) in
      elim (Bool-cases (eqb p k)) [
        | inl hit ↦
            let same : p ≡ k = ground arith in
            gossip_hit (length before) k i m members (omega (arith, sum)) (here ∙ ap some same)
            ∙ ap
                (λ j.
                  Option.map (send call (connect dial blacklist m))
                    (told (gossip dial blacklist call perm j (k + 1) members)))
                (sym (length-append before (p ∷ [])))
            ∙ ap (Option.map (send call (connect dial blacklist m))) (
                gossip_sends (before ++ p ∷ []) rest (k + 1) members
                  (e ∙ sym (append_assoc before (p ∷ []) rest))
                  (From-le (k + 1) (suc p) rest (omega (arith, same)) v.1) few (ground arith))
            ∙ ap (λ l. some (broadcast dial blacklist call l).1)
                (sym (chosen_hit p k rest (i, m) members same))
        | inr miss ↦
            let above : k < p = ground (arith, v.0) in
            gossip_miss (length before) k p i m members (omega (arith, sum)) here above
            ∙ gossip_sends before (p ∷ rest) (k + 1) members e (omega (arith, above), v.1) few
                (ground arith)
            ∙ ap (λ l. some (broadcast dial blacklist call l).1)
                (sym (chosen_miss p k rest (i, m) members above v.1))
      ]
