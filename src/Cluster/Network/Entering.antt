-- ===== src/Cluster/Network/Entering.antt =====
-- What holds of a network of servers (server/), and that a server that joins keeps it.
use psk_db.Prelude.{
  String, ◌≡◌, refl, sym, ap, subst, some, List, [], ◌∷◌, All, All-append, if_rule, ◌==◌,
  Option-cases, inl, inr,
}
use psk_db.Dict.{lookup}
use psk_db.Timestamp.Fraction.{frac, signature}
use psk_db.Server.State.{Time, ServerInfo, KeyValueInfo, Server}
use psk_db.Server.Connect.{Dial}
use psk_db.Server.Membership.{JoinReply, ok, duplicate_id, join_cluster_as_server}
use psk_db.Server.Startup.{add_members}
use psk_db.Server.Startup.Main.{join_request}
use psk_db.Server.Startup.Joins.{Omits, join_cluster_as_server-Omits, add_members-IsValid}
use psk_db.Server.Replica.Silent.{kept-join_cluster_as_server}
use psk_db.Server.Invariant.Defs.{IsValid}
use psk_db.Server.Invariant.Calls.{join_cluster_as_server-IsValid}
use psk_db.Cluster.Joining.{add_reply, join_step}
use psk_db.Cluster.Schedule.{with_state}
use psk_db.Cluster.Network.{Network, Puts, entered}
use psk_db.Cluster.Network.Written.{AllWritten, Carries}
use psk_db.Cluster.Network.Carried.{join-Carries}

-- The version has the fraction that the writer's id gives.
abbrev pub IsStamped : String × KeyValueInfo → Type 0
IsStamped (id, info) = signature id ≡ some (frac info.version)

pub record Sound (puts : Puts) (net : Network) : Type 0 where
  pub valid : (id : String) → IsValid (net.servers id)
  pub stores : (id : String) → AllWritten puts (net.servers id).key_value_map
  pub carried : All (Carries puts) net.actions
  pub stamped : All IsStamped puts

key_value_map-add_members :
    (now : Time) (list : List ServerInfo) (s : Server)
    → (add_members now list s).key_value_map ≡ s.key_value_map
unfolding add_members
key_value_map-add_members now [] s = refl
key_value_map-add_members now (info ∷ list) s = elim (Option-cases (lookup info.id s.server_map)) [
  | inl e ↦ rw (e, add_members) (key_value_map-add_members now list _)
  | inr (member, e) ↦ rw (e, add_members) (key_value_map-add_members now list s)
]

key_value_map-add_reply :
    (now : Time) (reply : JoinReply) (s : Server)
    → (add_reply now reply s).key_value_map ≡ s.key_value_map
key_value_map-add_reply now (ok list) s = key_value_map-add_members now list s
key_value_map-add_reply now duplicate_id s = refl

add_reply-IsValid :
    (now : Time) (reply : JoinReply) (s : Server)
    → Omits s.curr_server_info.id reply
    → IsValid s
    → IsValid (add_reply now reply s)
add_reply-IsValid now (ok list) s o v = add_members-IsValid now list s o v
add_reply-IsValid now duplicate_id s o v = v

pub entered-Sound :
    (puts : Puts) (dials : String → Dial) (now : Time) (id at : String) (net : Network)
    → Sound puts net
    → Sound puts (entered dials now id at net)
unfolding join_step
entered-Sound puts dials now id at net sound =
    let s = net.servers id in
    let t = net.servers at in
    let joined = join_cluster_as_server (dials at) now (join_request s) t in
    let told = with_state at joined.0 net.servers in
    record {
      valid = λ other.
          if_rule IsValid (id == other) (add_reply now joined.1 s) (told other)
            (λ _.
              add_reply-IsValid now joined.1 s
                (join_cluster_as_server-Omits (dials at) now (join_request s) t (sound.valid at))
                (sound.valid id))
            (λ _.
              if_rule IsValid (at == other) joined.0 (net.servers other)
                (λ _.
                  join_cluster_as_server-IsValid (dials at) now (join_request s) t (sound.valid at))
                (λ _. sound.valid other));
      stores = λ other.
          if_rule (λ (u : Server). AllWritten puts u.key_value_map) (id == other)
            (add_reply now joined.1 s) (told other)
            (λ _.
              subst (AllWritten puts) (sym (key_value_map-add_reply now joined.1 s))
                (sound.stores id))
            (λ _.
              if_rule (λ (u : Server). AllWritten puts u.key_value_map) (at == other) joined.0
                (net.servers other)
                (λ _.
                  subst (AllWritten puts)
                    (sym (
                      ap (λ k. k.0)
                        (kept-join_cluster_as_server (dials at) now (join_request s) t)))
                    (sound.stores at))
                (λ _. sound.stores other));
      carried =
          All-append (Carries puts) joined.2 net.actions
            (join-Carries puts (dials at) now (join_request s) t) sound.carried;
      stamped = sound.stamped;
    }
