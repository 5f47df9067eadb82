-- ===== src/Cluster/Schedule/Rounds.antt =====
-- The rounds of Stabilize (server/rpc.go) at all servers against their messages.
use psk_db.Prelude.{
  true, false, String, ◌≡◌, refl, sym, ap, ◌∙◌, Option, none, some, List, [], ◌∷◌, map,
}
use psk_db.Server.Connect.{Dial}
use psk_db.Cluster.{Cluster, flood_round, flood}
use psk_db.Cluster.Schedule.{
  Iteration, answered, failed, iteration, run_round, run_rounds, arrived, arrivals, target,
  message_to, messages_of,
}
use psk_db.Cluster.Schedule.Simulation.{
  SameData, SameReach, flood_round-SameData, iteration-SameData, iteration-SameReach,
}
use psk_db.Master.Waiting.{rounds}

module _ (dials : String → Dial) where
  messages_of-SameReach :
      (cluster other : Cluster) (pairs : List (String × String))
      → SameReach dials cluster other
      → messages_of dials cluster pairs ≡ messages_of dials other pairs
  unfolding messages_of
  messages_of-SameReach cluster other [] same = refl
  messages_of-SameReach cluster other ((from, id) ∷ pairs) same =
      λ i. message_to from (same from id i) (messages_of-SameReach cluster other pairs same i)

  flood_round-message_to :
      (from : String) (to : Option String) (messages : List (String × String)) (cluster : Cluster)
      → flood_round (message_to from to messages) cluster
        ≡ flood_round messages (flood_round (message_to from to []) cluster)
  unfolding flood_round
  flood_round-message_to from none messages cluster = refl
  flood_round-message_to from (some to) messages cluster = refl

  run_round-SameReach :
      (round : List Iteration) (cluster : Cluster)
      → SameReach dials (run_round dials round cluster) cluster
  unfolding run_round
  run_round-SameReach [] cluster i id = refl
  run_round-SameReach (((from, member), ending) ∷ round) cluster i id =
      run_round-SameReach round (iteration dials ((from, member), ending) cluster) i id
      ∙ iteration-SameReach dials from member cluster ending i id

  -- After an iteration whose message is handled, or is not, the rest of the round.
  module _ (round : List (String × String)) (next cluster last : Cluster)
      (reaches : SameReach dials next cluster)
      (rest : SameData last (flood_round (messages_of dials next round) next)) where
    after_lost :
        SameData next cluster
        → SameData last (flood_round (messages_of dials cluster round) cluster)
    after_lost same id =
        rest id
        ∙ ap (λ m. (flood_round m next id).key_value_map)
            (messages_of-SameReach next cluster round reaches)
        ∙ flood_round-SameData (messages_of dials cluster round) next cluster same id

    after_handled :
        (from member : String)
        → SameData next
            (flood_round (message_to from (target (dials from) member (cluster from)) []) cluster)
        → SameData last (flood_round (messages_of dials cluster ((from, member) ∷ round)) cluster)
    unfolding messages_of
    after_handled from member same id =
        let to = target (dials from) member (cluster from) in
        let messages = messages_of dials cluster round in
        rest id
        ∙ ap (λ m. (flood_round m next id).key_value_map)
            (messages_of-SameReach next cluster round reaches)
        ∙ flood_round-SameData messages next (flood_round (message_to from to []) cluster) same id
        ∙ ap (λ (c : Cluster). (c id).key_value_map)
            (sym (flood_round-message_to from to messages cluster))

  -- A round changes the data as those of its messages do that are handled.
  run_round-SameData :
      (round : List Iteration) (cluster : Cluster)
      → SameData
          (run_round dials round cluster)
          (flood_round (arrivals dials cluster round) cluster)
  unfolding run_round flood_round messages_of arrived
  run_round-SameData [] cluster = λ id. refl
  run_round-SameData (((from, member), answered) ∷ round) cluster =
      let next = iteration dials ((from, member), answered) cluster in
      after_handled (arrived round) next cluster (run_round dials round next)
        (iteration-SameReach dials from member cluster answered) (run_round-SameData round next)
        from member (iteration-SameData dials from member cluster answered)
  run_round-SameData (((from, member), failed true text) ∷ round) cluster =
      let next = iteration dials ((from, member), failed true text) cluster in
      after_handled (arrived round) next cluster (run_round dials round next)
        (iteration-SameReach dials from member cluster (failed true text))
        (run_round-SameData round next) from member
        (iteration-SameData dials from member cluster (failed true text))
  run_round-SameData (((from, member), failed false text) ∷ round) cluster =
      let next = iteration dials ((from, member), failed false text) cluster in
      after_lost (arrived round) next cluster (run_round dials round next)
        (iteration-SameReach dials from member cluster (failed false text))
        (run_round-SameData round next)
        (iteration-SameData dials from member cluster (failed false text))

  flood-SameData :
      (messages : List (List (String × String))) (cluster other : Cluster)
      → SameData cluster other
      → SameData (flood messages cluster) (flood messages other)
  unfolding flood
  flood-SameData [] cluster other same = same
  flood-SameData (first ∷ messages) cluster other same =
      flood-SameData messages (flood_round first cluster) (flood_round first other)
        (flood_round-SameData first cluster other same)

  map-SameReach :
      (cluster other : Cluster) (rounds : List (List Iteration))
      → SameReach dials cluster other
      → map (arrivals dials cluster) rounds ≡ map (arrivals dials other) rounds
  map-SameReach cluster other [] same = refl
  map-SameReach cluster other (round ∷ rounds) same = λ i.
      messages_of-SameReach cluster other (arrived round) same i
      ∷ map-SameReach cluster other rounds same i

  pub run_rounds-SameData :
      (rounds : List (List Iteration)) (cluster : Cluster)
      → SameData
          (run_rounds dials rounds cluster)
          (flood (map (arrivals dials cluster) rounds) cluster)
  unfolding run_rounds flood
  run_rounds-SameData [] cluster id = refl
  run_rounds-SameData (round ∷ rounds) cluster id =
      let next = run_round dials round cluster in
      run_rounds-SameData rounds next id
      ∙ ap (λ m. (flood m next id).key_value_map)
          (map-SameReach next cluster rounds (run_round-SameReach round cluster))
      ∙ flood-SameData (map (arrivals dials cluster) rounds) next
          (flood_round (arrivals dials cluster round) cluster) (run_round-SameData round cluster) id
