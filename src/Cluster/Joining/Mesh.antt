-- ===== src/Cluster/Joining/Mesh.antt =====
-- That all know one another when a server has joined at all servers of a cluster (server/).
use psk_db.Prelude.{
  String, ◌≡◌, ◌≢◌, refl, sym, ap, ◌∙◌, subst, none, List, [], ◌∷◌, In, ◌⊎◌, inl, inr, ◌==◌, eq_iff,
  eq_refl, Bool-cases, if_rule, arith,
}
use psk_db.Dict.{lookup}
use psk_db.Server.State.{Time, NewServerNotificationRequest, Server}
use psk_db.Server.Connect.{Dial}
use psk_db.Server.Membership.{JoinReply, join_cluster_as_server, new_server_notification}
use psk_db.Server.Startup.Main.{join_request}
use psk_db.Server.Startup.Handshake.{Knows, join_handshake}
use psk_db.Server.Invariant.Defs.{IsValid}
use psk_db.Cluster.{Cluster}
use psk_db.Cluster.Schedule.{with_state}
use psk_db.Cluster.Joining.{JoinEvent, joins_at, notified, add_reply, join_step, join_run}
use psk_db.Cluster.Joining.Known.{
  join_cluster_as_server-Knows, join_cluster_as_server-Knows_joined, info-join_cluster_as_server,
  new_server_notification-Knows, info-new_server_notification, add_reply-Knows, info-add_reply,
}

-- Every server of the list knows every other one.
abbrev pub Mesh : List String → Cluster → Type 0
Mesh ids cluster = (i j : String) → In i ids → In j ids → i ≢ j → Knows j (cluster i)

with_state_rule {κ} :
    (P : Server → Type κ) (id i : String) (s : Server) (cluster : Cluster)
    → (id ≡ i → P s)
    → P (cluster i)
    → P (with_state id s cluster i)
with_state_rule P id i s cluster f h =
    if_rule P (id == i) s (cluster i) (λ e. f ((eq_iff id i).0 e)) (λ _. h)

join_step-keeps {κ} :
    (P : Server → Type κ) (dials : String → Dial) (now : Time) (id i : String) (event : JoinEvent)
    (cluster : Cluster)
    → ((at : String)
        → P (cluster at)
        → P (join_cluster_as_server (dials at) now (join_request (cluster id)) (cluster at)).0)
    → ((req : NewServerNotificationRequest) (s : Server)
        → P s
        → P (new_server_notification now req s))
    → ((reply : JoinReply) (s : Server) → P s → P (add_reply now reply s))
    → P (cluster i)
    → P (join_step dials now id event cluster i)
unfolding join_step
join_step-keeps P dials now id i (joins_at at) cluster joins hears adds h =
    let joined = join_cluster_as_server (dials at) now (join_request (cluster id)) (cluster at) in
    with_state_rule P id i (add_reply now joined.1 (cluster id)) (with_state at joined.0 cluster)
      (λ e. adds joined.1 (cluster id) (subst (λ n. P (cluster n)) (sym e) h))
      (with_state_rule P at i joined.0 cluster
        (λ e. joins at (subst (λ n. P (cluster n)) (sym e) h)) h)
join_step-keeps P dials now id i (notified from to) cluster joins hears adds h =
    with_state_rule P to i _ cluster
      (λ e. hears _ (cluster to) (subst (λ n. P (cluster n)) (sym e) h)) h

join_step-Knows :
    (dials : String → Dial) (now : Time) (id i j : String) (event : JoinEvent) (cluster : Cluster)
    → Knows j (cluster i)
    → Knows j (join_step dials now id event cluster i)
join_step-Knows dials now id i j event cluster =
    join_step-keeps (Knows j) dials now id i event cluster
      (λ at h.
        join_cluster_as_server-Knows (dials at) now (join_request (cluster id)) (cluster at) j h)
      (λ req s h. new_server_notification-Knows now req s j h)
      (λ reply s h. add_reply-Knows now reply s j h)

join_run-Knows :
    (dials : String → Dial) (now : Time) (id i j : String) (events : List JoinEvent)
    (cluster : Cluster)
    → Knows j (cluster i)
    → Knows j (join_run dials now id events cluster i)
unfolding join_run
join_run-Knows dials now id i j [] cluster h = h
join_run-Knows dials now id i j (event ∷ events) cluster h =
    join_run-Knows dials now id i j events (join_step dials now id event cluster)
      (join_step-Knows dials now id i j event cluster h)

-- A server keeps its id.
abbrev Named : String → Server → Type 0
Named id s = s.curr_server_info.id ≡ id

join_step-Named :
    (dials : String → Dial) (now : Time) (id i : String) (event : JoinEvent) (cluster : Cluster)
    → Named i (cluster i)
    → Named i (join_step dials now id event cluster i)
join_step-Named dials now id i event cluster =
    join_step-keeps (Named i) dials now id i event cluster
      (λ at h.
        ap (λ info. info.id)
          (info-join_cluster_as_server (dials at) now (join_request (cluster id)) (cluster at))
        ∙ h)
      (λ req s h. ap (λ info. info.id) (info-new_server_notification now req s) ∙ h)
      (λ reply s h. ap (λ info. info.id) (info-add_reply now reply s) ∙ h)

-- A server at which the new one joins knows it.
join_step-Knows_joined :
    (dials : String → Dial) (now : Time) (id at : String) (cluster : Cluster)
    → at ≢ id
    → Named at (cluster at)
    → Named id (cluster id)
    → Knows id (join_step dials now id (joins_at at) cluster at)
unfolding join_step
join_step-Knows_joined dials now id at cluster other named own =
    let req = join_request (cluster id) in
    let joined = join_cluster_as_server (dials at) now req (cluster at) in
    with_state_rule (Knows id) id at (add_reply now joined.1 (cluster id))
      (with_state at joined.0 cluster) (λ e. absurd (other (sym e)))
      (rw (eq_refl at) (
        subst (λ n. Knows n joined.0) own
          (join_cluster_as_server-Knows_joined (dials at) now req (cluster at)
            (λ e. other (sym named ∙ e ∙ own)))))

join_run-Knows_joined :
    (dials : String → Dial) (now : Time) (id i : String) (events : List JoinEvent)
    (cluster : Cluster)
    → i ≢ id
    → Named i (cluster i)
    → Named id (cluster id)
    → In (joins_at i) events
    → Knows id (join_run dials now id events cluster i)
unfolding join_run
join_run-Knows_joined dials now id i [] cluster other named own m = absurd (m tt)
join_run-Knows_joined dials now id i (event ∷ events) cluster other named own (inl e) =
    join_run-Knows dials now id i id events (join_step dials now id event cluster) (
      subst (λ event. Knows id (join_step dials now id event cluster i)) (sym e)
        (join_step-Knows_joined dials now id i cluster other named own))
join_run-Knows_joined dials now id i (event ∷ events) cluster other named own (inr m) =
    join_run-Knows_joined dials now id i events (join_step dials now id event cluster) other
      (join_step-Named dials now id i event cluster named)
      (join_step-Named dials now id id event cluster own) m

-- The reply of the first server names all of the cluster.
first_join-Knows :
    (dials : String → Dial) (now : Time) (id t j : String) (cluster : Cluster)
    → IsValid (cluster t)
    → t ≢ id
    → Named t (cluster t)
    → Named id (cluster id)
    → lookup id (cluster t).server_map ≡ none
    → (j ≡ t) ⊎ Knows j (cluster t)
    → Knows j (join_step dials now id (joins_at t) cluster id)
unfolding join_step
first_join-Knows dials now id t j cluster v other named own unknown k =
    let (list, e, _, known) =
      join_handshake (dials t) now now (cluster id) (cluster t) v (λ e. other (sym named ∙ e ∙ own))
        (subst (λ n. lookup n (cluster t).server_map ≡ none) (sym own) unknown) in
    rw (eq_refl id, e)
      (known j (elim k [ inl same ↦ inl (same ∙ sym named) | inr knows ↦ inr knows ]))

-- Let the servers `ids` know one another, let the server `id` not be one of them, and let all of
-- these have the ids that they go by. If the first call of the new server is at a well-formed
-- server of `ids` that does not know it, and it joins at all servers of `ids` in the end, then each
-- of them and the new one knows all others, in whatever order the joins and the notifications of
-- one server by another come after the first call.
pub join_run-Mesh :
    (dials : String → Dial) (now : Time) (id t : String) (ids : List String)
    (events : List JoinEvent) (cluster : Cluster)
    → ((i : String) → In i (id ∷ ids) → (cluster i).curr_server_info.id ≡ i)
    → IsValid (cluster t)
    → In t ids
    → ((i : String) → In i ids → i ≢ id)
    → lookup id (cluster t).server_map ≡ none
    → Mesh ids cluster
    → ((i : String) → In i ids → In (joins_at i) (joins_at t ∷ events))
    → Mesh (id ∷ ids) (join_run dials now id (joins_at t ∷ events) cluster)
unfolding join_run
join_run-Mesh dials now id t ids events cluster named v m apart unknown mesh all i j (inl e)
      (inl e') other =
    absurd (other (sym e ∙ e'))
join_run-Mesh dials now id t ids events cluster named v m apart unknown mesh all i j (inl e)
      (inr mj) other =
    let knows : Knows j (join_step dials now id (joins_at t) cluster id) =
      first_join-Knows dials now id t j cluster v (apart t m) (named t (inr m))
        (named id (inl refl)) unknown
        (elim (Bool-cases (j == t)) [
          | inl same ↦ inl ((eq_iff j t).0 same)
          | inr differ ↦ inr (mesh t j m mj (λ e. ground (arith, eq_iff j t)))
        ]) in
    join_run-Knows dials now id i j events (join_step dials now id (joins_at t) cluster)
      (subst (λ n. Knows j (join_step dials now id (joins_at t) cluster n)) e knows)
join_run-Mesh dials now id t ids events cluster named v m apart unknown mesh all i j (inr mi)
      (inl e) other =
    subst (λ n. Knows n (join_run dials now id (joins_at t ∷ events) cluster i)) e
      (join_run-Knows_joined dials now id i (joins_at t ∷ events) cluster (apart i mi)
        (named i (inr mi)) (named id (inl refl)) (all i mi))
join_run-Mesh dials now id t ids events cluster named v m apart unknown mesh all i j (inr mi)
      (inr mj) other =
    join_run-Knows dials now id i j (joins_at t ∷ events) cluster (mesh i j mi mj other)
