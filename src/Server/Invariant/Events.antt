-- ===== src/Server/Invariant/Events.antt =====
-- The well-formedness of a server of server/ under the events of Server.Step.
use psk_db.Prelude.{
  ℕ, ◌+◌, ◌≡◌, refl, Option, none, some, List, [], ◌∷◌, All, arith, length, ◌⊎◌, ◌≤◌,
}
use psk_db.Dict.{Dict}
use psk_db.Timestamp.Fraction.{frac, frac-one}
use psk_db.Server.State.{Time, ServerInfo, Server, Action}
use psk_db.Server.Connect.{Dial}
use psk_db.Server.Store.{send_kv_data}
use psk_db.Server.Membership.{heartbeat_notification, kill_server_notification}
use psk_db.Server.Links.{create_connection, break_connection, kill_server}
use psk_db.Server.Heartbeat.{check_members, recipients, heartbeat_round, finish_round, fanout}
use psk_db.Server.Step.{
  Event, joins, new_server, heartbeat, killed, create, break, kill, put, get, remote_write, kv_data,
  stabilizes, round, call_done, step, run, after_round,
}
use psk_db.Server.Invariant.MemberList.{
  Members, delete-Members, say_goodbye-Members, check_members-Members, disconnect-Members, SameIds,
  SameIds-Members, gossip-SameIds, Leaves,
}
use psk_db.Server.Invariant.StoreEntries.{Entries, merge-Entries}
use psk_db.Server.Invariant.Defs.{IsValid, with_list-IsValid}
use psk_db.Server.Invariant.Handlers.{heartbeat_entries-IsValid}
use psk_db.Server.Invariant.Rounds.{length-recipients, Returns, gossip-Returns}
use psk_db.Server.Invariant.Calls.{
  join_cluster_as_server-IsValid, new_server_notification-IsValid, put_kv_server-IsValid,
  get_kv_server-IsValid, with_store-IsValid, process_remote_write-IsValid, stabilize_send-IsValid,
  async_call_handler-IsValid,
}

finish_round-IsValid :
    (info : ServerInfo) (s : Server) (members : Dict ServerInfo)
    (told : Option (Dict ServerInfo × List Action))
    → info.id ≡ s.curr_server_info.id
    → frac info.lamport_timestamp ≡ frac s.curr_server_info.lamport_timestamp
    → Members s.curr_server_info.id members
    → Returns told
    → Leaves (SameIds members) told
    → IsValid s
    → (s' : Server) × (after_round (finish_round info s told) ≡ some s') × IsValid s'
finish_round-IsValid info s members none e f m r g v = absurd r
finish_round-IsValid info s members (some (told, actions)) e f m r g v = (
  record s { curr_server_info = info; server_map = told },
  refl,
  record {
    members = rw e (SameIds-Members _ members told g m);
    entries = v.entries;
    clock = rw (e, f) v.clock;
  },
)

pub enough_recipients :
    (perm : ℕ → List ℕ) (n : ℕ)
    → length (perm n) ≡ n
    → (fanout ≤ length (recipients perm n)) ⊎ (0 + n ≤ length (recipients perm n))
enough_recipients perm n h = ground (arith, length-recipients perm n h)

-- A round of the heartbeat thread.
heartbeat_round-IsValid :
    (dial : Dial) (now : Time) (perm : ℕ → List ℕ) (s : Server)
    → ((n : ℕ) → length (perm n) ≡ n)
    → IsValid s
    → (s' : Server) × (after_round (heartbeat_round dial now perm s) ≡ some s') × IsValid s'
unfolding heartbeat_round
heartbeat_round-IsValid dial now perm s fits v =
    let members = check_members now s.server_map in
    finish_round-IsValid _ s members _ refl (frac-one _)
      (check_members-Members now _ s.server_map v.members)
      (gossip-Returns dial s.blacklist_map _ _ 0 0 members
        (enough_recipients perm (length members) (fits (length members))))
      (gossip-SameIds dial s.blacklist_map _ _ 0 0 members) v

-- The data of another server has one entry for each key, under that key; `rand.Perm(n)` has n
-- numbers.
abbrev pub IsValidEvent : Event → Type 0
IsValidEvent (kv_data req) = Entries req.key_value_map
IsValidEvent (round dial now perm) = (n : ℕ) → length (perm n) ≡ n
IsValidEvent _ = Unit

-- From a well-formed server every event leads to a well-formed server, without a panic, if the data
-- of a SendKVData has one entry for each key, under that key, and rand.Perm(n) has n numbers.
pub step-IsValid :
    (event : Event) (s : Server)
    → IsValidEvent event
    → IsValid s
    → (s' : Server) × (step event s ≡ some s') × IsValid s'
unfolding step heartbeat_notification kill_server_notification create_connection break_connection
    kill_server send_kv_data
step-IsValid (joins dial now req) s h v = (_, refl, join_cluster_as_server-IsValid dial now req s v)
step-IsValid (new_server now req) s h v = (_, refl, new_server_notification-IsValid now req s v)
step-IsValid (heartbeat now req) s h v = heartbeat_entries-IsValid now req.server_info_list s v
step-IsValid (killed req) s h v =
    (_, refl, with_list-IsValid _ s (delete-Members _ req.id s.server_map v.members) v)
step-IsValid (create dial now req) s h v =
    (_, refl, record { members = v.members; entries = v.entries; clock = v.clock })
step-IsValid (break req) s h v = (
  _,
  refl,
  record {
    members = disconnect-Members _ req.id s.server_map v.members;
    entries = v.entries;
    clock = v.clock;
  },
)
step-IsValid (kill dial) s h v =
    (_, refl, with_list-IsValid _ s (say_goodbye-Members dial _ _ _ s.server_map v.members) v)
step-IsValid (put dial req) s h v = (_, refl, put_kv_server-IsValid dial req s v)
step-IsValid (get req) s h v = (_, refl, get_kv_server-IsValid req s v)
step-IsValid (remote_write req) s h v = (_, refl, process_remote_write-IsValid req s v)
step-IsValid (kv_data req) s h v =
    (_, refl, with_store-IsValid _ s (merge-Entries _ s.key_value_map h v.entries) v)
step-IsValid (stabilizes dial answer id) s h v =
    (_, refl, stabilize_send-IsValid dial answer id s v)
step-IsValid (round dial now perm) s h v = heartbeat_round-IsValid dial now perm s h v
step-IsValid (call_done err id) s h v = (_, refl, async_call_handler-IsValid err id s v)

-- From a well-formed server every sequence of such events leads to a well-formed server, without a
-- panic.
pub run-IsValid :
    (events : List Event) (s : Server)
    → All IsValidEvent events
    → IsValid s
    → (s' : Server) × (run events s ≡ some s') × IsValid s'
unfolding run
run-IsValid [] s h v = (s, refl, v)
run-IsValid (event ∷ events) s h v =
    let (s', e, w) = step-IsValid event s h.0 v in
    let (s'', e', w') = run-IsValid events s' h.1 w in (s'', rw (e, run) e', w')
