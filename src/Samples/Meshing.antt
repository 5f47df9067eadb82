-- ===== src/Samples/Meshing.antt =====
-- A third server joins two that know each other (main of server/server.go).
use psk_db.Prelude.{
  String, none, List, [], ◌∷◌, refl, sym, ap, subst, ◌≡◌, ◌≢◌, ◌∙◌, inl, inr, In, ◌==◌,
  if◌then◌else◌, true, false, eq_iff,
}
use psk_db.Dict.{lookup}
use psk_db.Server.State.{Server}
use psk_db.Server.Startup.Handshake.{Knows}
use psk_db.Cluster.{Cluster}
use psk_db.Cluster.Joining.{JoinEvent, joins_at, notified, join_run}
use psk_db.Cluster.Joining.Mesh.{Mesh, join_run-Mesh}
use psk_db.Samples.{member_of, server_one, server_one-IsValid, server_two, dials}

abbrev server_three : Server
server_three = record {
  server_map = [];
  curr_server_info = member_of "3" "9002";
  blacklist_map = [];
  key_value_map = [];
  write_log = [];
}

abbrev three : Cluster
three id = if id == "1" then server_one else if id == "2" then server_two else server_three

abbrev names : List String
names = "1" ∷ "2" ∷ []

three-named : (i : String) → In i ("3" ∷ names) → (three i).curr_server_info.id ≡ i
three-named i (inl e) = subst (λ i. (three i).curr_server_info.id ≡ i) e refl
three-named i (inr (inl e)) = subst (λ i. (three i).curr_server_info.id ≡ i) e refl
three-named i (inr (inr (inl e))) = subst (λ i. (three i).curr_server_info.id ≡ i) e refl
three-named i (inr (inr (inr m))) = absurd (m tt)

apart : false ≡ true → ⊥
apart h = cc

names-new : (i : String) → In i names → i ≢ "3"
names-new i (inl e) same = apart ((eq_iff "1" "3").1 (e ∙ same))
names-new i (inr (inl e)) same = apart ((eq_iff "2" "3").1 (e ∙ same))
names-new i (inr (inr m)) same = absurd (m tt)

two-Mesh : Mesh names three
unfolding lookup
two-Mesh i j (inl e) (inl e') other = absurd (other (sym e ∙ e'))
two-Mesh i j (inl e) (inr (inl e')) other =
    subst (λ i. Knows j (three i)) e (subst (λ j. Knows j server_one) e' refl)
two-Mesh i j (inr (inl e)) (inl e') other =
    subst (λ i. Knows j (three i)) e (subst (λ j. Knows j server_two) e' refl)
two-Mesh i j (inr (inl e)) (inr (inl e')) other = absurd (other (sym e ∙ e'))
two-Mesh i j (inr (inr m)) mj other = absurd (m tt)
two-Mesh i j (inl e) (inr (inr m)) other = absurd (m tt)
two-Mesh i j (inr (inl e)) (inr (inr m)) other = absurd (m tt)

-- Server 2 hears of the new one before it is asked itself.
abbrev events : List JoinEvent
events = notified "1" "2" ∷ joins_at "2" ∷ []

events-all : (i : String) → In i names → In (joins_at i) (joins_at "1" ∷ events)
events-all i (inl e) = inl (ap joins_at e)
events-all i (inr (inl e)) = inr (inr (inl (ap joins_at e)))
events-all i (inr (inr m)) = absurd (m tt)

unknown-three : lookup "3" (three "1").server_map ≡ none
unfolding lookup
unknown-three = refl

join_run-Mesh_example :
    Mesh ("3" ∷ names) (join_run (λ id. dials) 9 "3" (joins_at "1" ∷ events) three)
join_run-Mesh_example =
    join_run-Mesh (λ id. dials) 9 "3" "1" names events three three-named server_one-IsValid
      (inl refl) names-new unknown-three two-Mesh events-all
