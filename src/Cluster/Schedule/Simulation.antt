-- ===== src/Cluster/Schedule/Simulation.antt =====
-- The iterations of Stabilize (server/rpc.go) against the messages that they send.
use psk_db.Prelude.{
  true, false, sym, if◌then◌else◌, String, ◌≡◌, refl, ap, ◌∙◌, subst, none, List, [], ◌∷◌, inl, inr,
  eq_iff, ◌==◌, Bool-cases, if_rule,
}
use psk_db.Common.{Conn}
use psk_db.Server.State.{Server, Action, sent, send_kv_data as send_kv_data_call}
use psk_db.Server.Connect.{Dial}
use psk_db.Server.Store.{send_kv_data, merge, copy_into}
use psk_db.Server.Stabilize.{stabilize_send, kv_data_request}
use psk_db.Server.Replica.Silent.{kept-stabilize_send}
use psk_db.Cluster.Schedule.Reach.{
  target-stabilize_send, sent-stabilize_send, stabilize_send-error_of,
}
use psk_db.Cluster.{Cluster, deliver, flood_round}
use psk_db.Cluster.Schedule.{
  Ending, answered, failed, arrives, with_state, handle, handle_all, iteration, target, message_to,
}

-- The servers hold the same data.
abbrev pub SameData : Cluster → Cluster → Type 0
SameData cluster other = (id : String) → (cluster id).key_value_map ≡ (other id).key_value_map

deliver-SameData :
    (from to : String) (cluster other : Cluster)
    → SameData cluster other
    → SameData (deliver (from, to) cluster) (deliver (from, to) other)
unfolding deliver send_kv_data
deliver-SameData from to cluster other same id = elim (Bool-cases (to == id)) [
  | inl e ↦ rw e (λ i. merge (copy_into (same from i) []) (same to i))
  | inr e ↦ rw e (same id)
]

pub flood_round-SameData :
    (messages : List (String × String)) (cluster other : Cluster)
    → SameData cluster other
    → SameData (flood_round messages cluster) (flood_round messages other)
unfolding flood_round
flood_round-SameData [] cluster other same = same
flood_round-SameData (message ∷ messages) cluster other same =
    flood_round-SameData messages _ _ (deliver-SameData message.0 message.1 cluster other same)

with_state-SameData :
    (id : String) (s : Server) (cluster : Cluster)
    → s.key_value_map ≡ (cluster id).key_value_map
    → SameData (with_state id s cluster) cluster
with_state-SameData id s cluster e other =
    if_rule (λ (t : Server). t.key_value_map ≡ (cluster other).key_value_map) (id == other) _ _
      (λ h. e ∙ ap (λ i. (cluster i).key_value_map) ((eq_iff id other).0 h)) (λ _. refl)

handle-SameData :
    (from to : String) (c : Conn) (w cluster : Cluster)
    → SameData w cluster
    → SameData
        (handle (sent to c (send_kv_data_call (kv_data_request (cluster from)))) w)
        (deliver (from, to) cluster)
unfolding deliver send_kv_data
handle-SameData from to c w cluster same id = elim (Bool-cases (to == id)) [
  | inl e ↦ rw e (ap (merge (copy_into (cluster from).key_value_map [])) (same to))
  | inr e ↦ rw e (same id)
]

-- What an iteration leaves at its sender, and what becomes of its message.
module _ (dials : String → Dial) (from id : String) (cluster : Cluster) where
  abbrev told : Server × List Action
  told = stabilize_send (dials from) (λ member. none) id (cluster from)

  sender-SameData : SameData (with_state from told.0 cluster) cluster
  sender-SameData =
      with_state-SameData from told.0 cluster
        (ap (λ k. k.0) (kept-stabilize_send (dials from) (λ member. none) id (cluster from)))

  sent-SameData :
      SameData
        (handle_all told.1 (with_state from told.0 cluster))
        (flood_round (message_to from (target (dials from) id (cluster from)) []) cluster)
  unfolding flood_round
  sent-SameData = elim (sent-stabilize_send (dials from) id (cluster from)) [
    | inl (t, e) ↦ rw (t, e) sender-SameData
    | inr (to, c, t, e) ↦
        rw (t, e)
          (handle-SameData from to c (with_state from told.0 cluster) cluster sender-SameData)
  ]

  -- An iteration changes the data as its message does, if it sends one and it is handled.
  pub iteration-SameData :
      (ending : Ending)
      → SameData (iteration dials ((from, id), ending) cluster) (
          if arrives ending
          then flood_round (message_to from (target (dials from) id (cluster from)) []) cluster
          else cluster)
  unfolding iteration
  iteration-SameData answered = sent-SameData
  iteration-SameData (failed true text) =
      subst
        (λ (t : Server × List Action).
          SameData (handle_all t.1 (with_state from t.0 cluster))
            (flood_round (message_to from (target (dials from) id (cluster from)) []) cluster))
        (sym (stabilize_send-error_of (dials from) (failed true text) id (cluster from)))
        sent-SameData
  iteration-SameData (failed false text) =
      subst (λ (t : Server × List Action). SameData (with_state from t.0 cluster) cluster)
        (sym (stabilize_send-error_of (dials from) (failed false text) id (cluster from)))
        sender-SameData

-- The servers reach the same ones.
abbrev pub SameReach : (String → Dial) → Cluster → Cluster → Type 0
SameReach dials cluster other =
    (i id : String) → target (dials i) id (cluster i) ≡ target (dials i) id (other i)

with_state-SameReach :
    (dials : String → Dial) (i : String) (s : Server) (cluster : Cluster)
    → ((id : String) → target (dials i) id s ≡ target (dials i) id (cluster i))
    → SameReach dials (with_state i s cluster) cluster
with_state-SameReach dials i s cluster e j id =
    if_rule (λ (t : Server). target (dials j) id t ≡ target (dials j) id (cluster j)) (i == j) _ _
      (λ h.
        subst (λ k. target (dials k) id s ≡ target (dials k) id (cluster k)) ((eq_iff i j).0 h)
          (e id))
      (λ _. refl)

handle-SameReach :
    (dials : String → Dial) (s : Server) (to : String) (c : Conn) (w : Cluster)
    → SameReach dials (handle (sent to c (send_kv_data_call (kv_data_request s))) w) w
unfolding send_kv_data
handle-SameReach dials s to c w = with_state-SameReach dials to _ w (λ id. refl)

module _ (dials : String → Dial) (from id : String) (cluster : Cluster) where
  sender-SameReach :
      SameReach dials (with_state from (told dials from id cluster).0 cluster) cluster
  sender-SameReach =
      with_state-SameReach dials from _ cluster
        (λ j. target-stabilize_send (dials from) id j (cluster from))

  sent-SameReach :
      SameReach dials
        (handle_all
          (told dials from id cluster).1
          (with_state from (told dials from id cluster).0 cluster))
        cluster
  sent-SameReach i other = elim (sent-stabilize_send (dials from) id (cluster from)) [
    | inl (t, e) ↦ rw e (sender-SameReach i other)
    | inr (to, c, t, e) ↦ rw e (
        handle-SameReach dials (cluster from) to c
          (with_state from (told dials from id cluster).0 cluster) i other
        ∙ sender-SameReach i other)
  ]

  pub iteration-SameReach :
      (ending : Ending) → SameReach dials (iteration dials ((from, id), ending) cluster) cluster
  unfolding iteration
  iteration-SameReach answered = sent-SameReach
  iteration-SameReach (failed true text) =
      subst
        (λ (t : Server × List Action).
          SameReach dials (handle_all t.1 (with_state from t.0 cluster)) cluster)
        (sym (stabilize_send-error_of (dials from) (failed true text) id (cluster from)))
        sent-SameReach
  iteration-SameReach (failed false text) =
      subst (λ (t : Server × List Action). SameReach dials (with_state from t.0 cluster) cluster)
        (sym (stabilize_send-error_of (dials from) (failed false text) id (cluster from)))
        sender-SameReach
