-- ===== src/Server/Interleaved/Round/Own.antt =====
-- The id and the sequence number of a server of server/ under all but its own heartbeat rounds.
use psk_db.Prelude.{
  ℤ, String, ◌≡◌, refl, subst, Option, none, some, List, [], ◌∷◌, All, inl, inr, Option-cases,
  arith,
}
use psk_db.Dict.{lookup}
use psk_db.Timestamp.{floor, get_lamport_timestamp_from_seqnum}
use psk_db.Common.{PutKvServerRequest}
use psk_db.Server.State.{Time, ServerInfo, Server}
use psk_db.Server.Connect.{async_call_handler}
use psk_db.Server.Clock.{
  get_and_increment_lamport_timestamp, conditional_increment_lamport_timestamp,
}
use psk_db.Server.Store.{
  put_entry, put_kv_server, get_kv_server, process_remote_write, send_kv_data,
}
use psk_db.Server.Membership.{
  join_cluster_as_server, new_server_notification, update_member, heartbeat_entry,
  heartbeat_entries, heartbeat_notification, kill_server_notification,
}
use psk_db.Server.Links.{create_connection, break_connection, kill_server}
use psk_db.Server.Stabilize.{stabilize_send}
use psk_db.Server.Step.{
  Event, joins, new_server, heartbeat, killed, create, break, kill, put, get, remote_write, kv_data,
  stabilizes, round, call_done, step, run,
}

-- What a server says of itself that only its heartbeat thread changes.
abbrev pub own : Server → String × ℤ
own s = (s.curr_server_info.id, s.curr_server_info.heartbeat_seqnum)

abbrev pub SameOwn : String × ℤ → Option Server → Type 0
SameOwn before none = Unit
SameOwn before (some s) = own s ≡ before

-- The event is no round of the heartbeat thread.
abbrev pub NoRound : Event → Type 0
NoRound (round dial now perm) = ⊥
NoRound _ = Unit

own-put_entry : (req : PutKvServerRequest) (s : Server) → own (put_entry req s).1 ≡ own s
unfolding put_entry get_and_increment_lamport_timestamp conditional_increment_lamport_timestamp
own-put_entry req s = ground (arith, Option-cases (lookup req.key s.key_value_map))

own-update_member :
    (now : Time) (info : ServerInfo) (s : Server) → own (update_member now info s) ≡ own s
unfolding update_member
own-update_member now info s = ground arith

heartbeat_entry-SameOwn :
    (now : Time) (info : ServerInfo) (s : Server) → SameOwn (own s) (heartbeat_entry now info s)
unfolding heartbeat_entry
heartbeat_entry-SameOwn now info s =
    elim (Option-cases
      (get_lamport_timestamp_from_seqnum (floor info.lamport_timestamp) s.curr_server_info.id)) [
        | inl e ↦ rw (e, heartbeat_entry) tt
        | inr (t, e) ↦ rw (e, heartbeat_entry) (own-update_member now info _)
      ]

heartbeat_entries-SameOwn :
    (now : Time) (list : List ServerInfo) (s : Server)
    → SameOwn (own s) (heartbeat_entries now list s)
unfolding heartbeat_entries
heartbeat_entries-SameOwn now [] s = refl
heartbeat_entries-SameOwn now (info ∷ list) s = elim (Option-cases (heartbeat_entry now info s)) [
  | inl e ↦ rw (e, heartbeat_entries) tt
  | inr (t, e) ↦
      rw (e, heartbeat_entries)
        (subst (λ o. SameOwn o (heartbeat_entries now list t))
          (subst (SameOwn (own s)) e (heartbeat_entry-SameOwn now info s))
          (heartbeat_entries-SameOwn now list t))
]

step-SameOwn : (event : Event) (s : Server) → NoRound event → SameOwn (own s) (step event s)
unfolding step heartbeat_notification kill_server_notification create_connection break_connection
    kill_server put_kv_server get_kv_server get_and_increment_lamport_timestamp send_kv_data
    join_cluster_as_server new_server_notification process_remote_write stabilize_send
    async_call_handler
step-SameOwn (joins dial now req) s w = ground arith
step-SameOwn (new_server now req) s w = ground arith
step-SameOwn (heartbeat now req) s w = heartbeat_entries-SameOwn now req.server_info_list s
step-SameOwn (killed req) s w = refl
step-SameOwn (create dial now req) s w = refl
step-SameOwn (break req) s w = refl
step-SameOwn (kill dial) s w = refl
step-SameOwn (put dial req) s w = own-put_entry req s
step-SameOwn (get req) s w = ground arith
step-SameOwn (remote_write req) s w = ground arith
step-SameOwn (kv_data req) s w = refl
step-SameOwn (stabilizes dial answer id) s w = ground arith
step-SameOwn (round dial now perm) s w = absurd w
step-SameOwn (call_done none id) s w = refl
step-SameOwn (call_done (some err) id) s w = ground arith

pub run-SameOwn :
    (events : List Event) (s : Server) → All NoRound events → SameOwn (own s) (run events s)
unfolding run
run-SameOwn [] s w = refl
run-SameOwn (event ∷ events) s w = elim (Option-cases (step event s)) [
  | inl e ↦ rw (e, run) tt
  | inr (t, e) ↦
      rw (e, run)
        (subst (λ o. SameOwn o (run events t))
          (subst (SameOwn (own s)) e (step-SameOwn event s w.0)) (run-SameOwn events t w.1))
]
