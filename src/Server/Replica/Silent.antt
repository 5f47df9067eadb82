-- ===== src/Server/Replica/Silent.antt =====
-- The key-value store and the write log under the handlers of server/ that concern the membership list or only read.
use psk_db.Prelude.{
  ℕ, ◌≡◌, refl, subst, Option, none, some, List, [], ◌∷◌, inl, inr, Option-cases, arith, String,
}
use psk_db.Dict.{Dict}
use psk_db.Timestamp.{floor, get_lamport_timestamp_from_seqnum}
use psk_db.Common.{CallError, GetKvServerRequest}
use psk_db.Server.State.{
  Time, ServerInfo, KeyValueInfo, JoinClusterAsServerRequest, NewServerNotificationRequest, Server,
  Action,
}
use psk_db.Server.Connect.{Dial, async_call_handler}
use psk_db.Server.Clock.{get_and_increment_lamport_timestamp}
use psk_db.Server.Store.{get_kv_server}
use psk_db.Server.Membership.{
  join_cluster_as_server, new_server_notification, update_member, heartbeat_entry,
  heartbeat_entries,
}
use psk_db.Server.Heartbeat.{heartbeat_round, finish_round}
use psk_db.Server.Stabilize.{stabilize_send}
use psk_db.Server.Step.{after_round}

-- keyValueMap and writeLog
abbrev pub kept : Server → Dict KeyValueInfo × List KeyValueInfo
kept s = (s.key_value_map, s.write_log)

-- What is left of the two, where the handler does not panic.
abbrev pub Leaves : Dict KeyValueInfo × List KeyValueInfo → Option Server → Type 0
Leaves before none = Unit
Leaves before (some s) = kept s ≡ before

pub kept-join_cluster_as_server :
    (dial : Dial) (now : Time) (req : JoinClusterAsServerRequest) (s : Server)
    → kept (join_cluster_as_server dial now req s).0 ≡ kept s
unfolding join_cluster_as_server
kept-join_cluster_as_server dial now req s = ground arith

pub kept-new_server_notification :
    (now : Time) (req : NewServerNotificationRequest) (s : Server)
    → kept (new_server_notification now req s) ≡ kept s
unfolding new_server_notification
kept-new_server_notification now req s = ground arith

pub kept-get_kv_server :
    (req : GetKvServerRequest) (s : Server) → kept (get_kv_server req s).0 ≡ kept s
unfolding get_kv_server get_and_increment_lamport_timestamp
kept-get_kv_server req s = ground arith

pub kept-stabilize_send :
    (dial : Dial) (answer : String → Option CallError) (id : String) (s : Server)
    → kept (stabilize_send dial answer id s).0 ≡ kept s
unfolding stabilize_send
kept-stabilize_send dial answer id s = ground arith

pub kept-async_call_handler :
    (err : Option CallError) (id : String) (s : Server)
    → kept (async_call_handler err id s) ≡ kept s
unfolding async_call_handler
kept-async_call_handler none id s = refl
kept-async_call_handler (some err) id s = ground arith

kept-update_member :
    (now : Time) (info : ServerInfo) (s : Server) → kept (update_member now info s) ≡ kept s
unfolding update_member
kept-update_member now info s = ground arith

heartbeat_entry-Leaves :
    (now : Time) (info : ServerInfo) (s : Server) → Leaves (kept s) (heartbeat_entry now info s)
unfolding heartbeat_entry
heartbeat_entry-Leaves now info s =
    elim (Option-cases
      (get_lamport_timestamp_from_seqnum (floor info.lamport_timestamp) s.curr_server_info.id)) [
        | inl e ↦ rw (e, heartbeat_entry) tt
        | inr (t, e) ↦ rw (e, heartbeat_entry) (kept-update_member now info _)
      ]

pub heartbeat_entries-Leaves :
    (now : Time) (list : List ServerInfo) (s : Server)
    → Leaves (kept s) (heartbeat_entries now list s)
unfolding heartbeat_entries
heartbeat_entries-Leaves now [] s = refl
heartbeat_entries-Leaves now (info ∷ list) s = elim (Option-cases (heartbeat_entry now info s)) [
  | inl e ↦ rw (e, heartbeat_entries) tt
  | inr (s', e) ↦
      let same : kept s' ≡ kept s = subst (Leaves (kept s)) e (heartbeat_entry-Leaves now info s) in
      rw (e, heartbeat_entries)
        (subst
          (λ (m : Dict KeyValueInfo × List KeyValueInfo). Leaves m (heartbeat_entries now list s'))
          same (heartbeat_entries-Leaves now list s'))
]

finish_round-Leaves :
    (info : ServerInfo) (s : Server) (told : Option (Dict ServerInfo × List Action))
    → Leaves (kept s) (after_round (finish_round info s told))
finish_round-Leaves info s none = tt
finish_round-Leaves info s (some (members, actions)) = refl

pub heartbeat_round-Leaves :
    (dial : Dial) (now : Time) (perm : ℕ → List ℕ) (s : Server)
    → Leaves (kept s) (after_round (heartbeat_round dial now perm s))
unfolding heartbeat_round
heartbeat_round-Leaves dial now perm s = finish_round-Leaves _ s _
