-- ===== src/Server/Invariant/Rounds.antt =====
-- The recipients of a round of the heartbeat thread (startHeartbeats of server/server.go).
use psk_db.Prelude.{
  ℕ, zero, suc, ◌+◌, ◌≤◌, ◌<◌, String, Bool, ◌≡◌, refl, Option, none, some, List, [], ◌∷◌, arith,
  ap, ◌∙◌, ◌⊎◌, inl, inr, leb, eqb, length, get_elem?, Bool-cases,
}
use psk_db.Dict.{Dict}
use psk_db.Server.State.{ServerInfo, Call, Action}
use psk_db.Server.Connect.{Dial}
use psk_db.Server.Heartbeat.{
  fanout, take, insert_sorted, sort_ints, num_recipients, recipients, prepend, gossip,
}

length-take : (n : ℕ) (list : List ℕ) → n ≤ length list → length (take n list) ≡ n
unfolding take
length-take zero list h = refl
length-take (suc n) [] h = absurd (omega arith)
length-take (suc n) (x ∷ list) h = ap suc (length-take n list (omega arith))

length-insert_sorted : (x : ℕ) (list : List ℕ) → length (insert_sorted x list) ≡ suc (length list)
unfolding insert_sorted
length-insert_sorted x [] = refl
length-insert_sorted x (y ∷ list) = ground (arith, length-insert_sorted x list)

length-sort_ints : (list : List ℕ) → length (sort_ints list) ≡ length list
unfolding sort_ints
length-sort_ints [] = refl
length-sort_ints (x ∷ list) =
    length-insert_sorted x (sort_ints list) ∙ ap suc (length-sort_ints list)

-- If rand.Perm(n) has n numbers, a round has as many recipients as the fanout, or all members where
-- there are fewer.
pub length-recipients :
    (perm : ℕ → List ℕ) (members : ℕ)
    → length (perm members) ≡ members
    → length (recipients perm members) ≡ num_recipients members
unfolding recipients
length-recipients perm members h = length-sort_ints _ ∙ length-take _ (perm members) (ground arith)

get_elem?-some : (list : List ℕ) (i : ℕ) → i < length list → (x : ℕ) × (get_elem? list i ≡ some x)
get_elem?-some [] i h = absurd (omega arith)
get_elem?-some (x ∷ list) zero h = (x, refl)
get_elem?-some (x ∷ list) (suc i) h = get_elem?-some list i (omega arith)

abbrev pub Returns : Option (Dict ServerInfo × List Action) → Type 0
Returns none = ⊥
Returns (some r) = Unit

prepend-Returns :
    (id : String) (member : ServerInfo) (actions : List Action)
    (rest : Option (Dict ServerInfo × List Action))
    → Returns rest
    → Returns (prepend id member actions rest)
prepend-Returns id member actions none r = r
prepend-Returns id member actions (some rest) r = tt

-- The loop over the recipients ends without a panic if there are as many as the fanout, or enough
-- for the members that are left.
pub gossip-Returns :
    (dial : Dial) (blacklist : Dict Bool) (call : Call) (perm : List ℕ) (pidx kidx : ℕ)
    (members : Dict ServerInfo)
    → (fanout ≤ length perm) ⊎ (pidx + length members ≤ length perm)
    → Returns (gossip dial blacklist call perm pidx kidx members)
unfolding gossip
gossip-Returns dial blacklist call perm pidx kidx [] h = tt
gossip-Returns dial blacklist call perm pidx kidx ((i, m) ∷ members) h =
    elim (Bool-cases (leb fanout pidx)) [
      | inl done ↦ rw done tt
      | inr more ↦
          (let (position, e) = get_elem?-some perm pidx (ground arith) in
            elim (Bool-cases (eqb position kidx)) [
              | inl hit ↦
                  rw (more, e, hit)
                    (prepend-Returns i _ _ _ (
                      gossip-Returns dial blacklist call perm (pidx + 1) (kidx + 1) members
                        (ground arith)))
              | inr miss ↦
                  rw (more, e, miss)
                    (prepend-Returns i m [] _ (
                      gossip-Returns dial blacklist call perm pidx (kidx + 1) members
                        (ground arith)))
            ])
    ]
