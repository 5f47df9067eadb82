-- ===== src/Server/Replica/Refinement.antt =====
-- The steps of a server of server/ against the specification of its registers.
use psk_db.Prelude.{
  ℕ, String, ◌≡◌, refl, sym, subst, ap, ◌∙◌, Option, none, some, List, inl, inr, Bool-cases, ltb_ℤ,
  ◌==◌, eq_iff,
}
use psk_db.Dict.{Dict, lookup}
use psk_db.Common.{PutKvServerRequest}
use psk_db.Server.State.{
  Time, KeyValueInfo, HeartbeatNotificationRequest, ProcessRemoteWriteRequest, Server,
}
use psk_db.Server.Connect.{Dial}
use psk_db.Server.Store.{put_entry, put_kv_server, process_remote_write, send_kv_data}
use psk_db.Server.Store.Merge.{join, lookup-merge, join-none}
use psk_db.Server.Store.Exchange.{process_remote_write-merge}
use psk_db.Server.Store.Writes.{lookup-put_kv_server, put_kv_server-reply}
use psk_db.Server.Membership.{heartbeat_notification, kill_server_notification}
use psk_db.Server.Links.{create_connection, break_connection, kill_server}
use psk_db.Server.Step.{
  Event, joins, new_server, heartbeat, killed, create, break, kill, put, get, remote_write, kv_data,
  stabilizes, round, call_done, step,
}
use psk_db.Server.Invariant.StoreEntries.{Entries-Distinct}
use psk_db.Server.Invariant.Events.{IsValidEvent}
use psk_db.Server.Replica.{View, seen, view, later, with_register, Allowed}
use psk_db.Server.Replica.Silent.{
  kept, Leaves, kept-join_cluster_as_server, kept-new_server_notification, kept-get_kv_server,
  kept-stabilize_send, kept-async_call_handler, heartbeat_entries-Leaves, heartbeat_round-Leaves,
}

seen-join : (a b : Option KeyValueInfo) → seen (join a b) ≡ later (seen a) (seen b)
seen-join none b = refl
seen-join (some a) none = refl
seen-join (some a) (some b) = elim (Bool-cases (ltb_ℤ a.version b.version)) [
  | inl e ↦ rw e refl
  | inr e ↦ rw e refl
]

silent :
    {a b : Dict KeyValueInfo × List KeyValueInfo}
    → b ≡ a
    → (key : String) → view b.0 key ≡ view a.0 key
silent h key = ap (λ m. view m.0 key) h

put-Allowed :
    (dial : Dial) (req : PutKvServerRequest) (s : Server) (key : String)
    → view (put_kv_server dial req s).0.key_value_map key
      ≡ with_register req.key
          (some ((put_entry req s).0.version, req.value))
          (view s.key_value_map)
          key
put-Allowed dial req s key =
    ap seen (lookup-put_kv_server dial req s key) ∙ elim (Bool-cases (req.key == key)) [
      | inl e ↦ rw (e, (put_kv_server-reply dial req s).1) refl
      | inr e ↦ rw e refl
    ]

remote_write-Allowed :
    (req : ProcessRemoteWriteRequest) (s : Server) (key : String)
    → view (process_remote_write req s).key_value_map key
      ≡ with_register req.key
          (later (view s.key_value_map req.key) (some (req.version, req.value)))
          (view s.key_value_map)
          key
unfolding lookup
remote_write-Allowed req s key = rw process_remote_write-merge (
    ap seen (lookup-merge _ s.key_value_map key (refl, tt)) ∙ elim (Bool-cases (req.key == key)) [
      | inl e ↦ rw e (
          seen-join (lookup key s.key_value_map) _
          ∙ ap (λ k. later (view s.key_value_map k) (some (req.version, req.value)))
              (sym ((eq_iff req.key key).0 e)))
      | inr e ↦ rw e (ap seen (join-none (lookup key s.key_value_map)))
    ])

-- The change of the registers is one that the event allows, if the server goes on.
abbrev Refines : Event → View → Option Server → Type 0
Refines event before none = Unit
Refines event before (some s) = Allowed event before (view s.key_value_map)

heartbeat-Refines :
    (now : Time) (req : HeartbeatNotificationRequest)
    (before : Dict KeyValueInfo × List KeyValueInfo) (o : Option Server)
    → Leaves before o
    → Refines (heartbeat now req) (view before.0) o
heartbeat-Refines now req before none h = tt
heartbeat-Refines now req before (some s) h = silent h

round-Refines :
    (dial : Dial) (now : Time) (perm : ℕ → List ℕ) (before : Dict KeyValueInfo × List KeyValueInfo)
    (o : Option Server)
    → Leaves before o
    → Refines (round dial now perm) (view before.0) o
round-Refines dial now perm before none h = tt
round-Refines dial now perm before (some s) h = silent h

step-Refines :
    (event : Event) (s : Server)
    → IsValidEvent event
    → Refines event (view s.key_value_map) (step event s)
unfolding step heartbeat_notification kill_server_notification create_connection break_connection
    kill_server send_kv_data
step-Refines (joins dial now req) s h = silent (kept-join_cluster_as_server dial now req s)
step-Refines (new_server now req) s h = silent (kept-new_server_notification now req s)
step-Refines (heartbeat now req) s h =
    heartbeat-Refines now req (kept s) _ (heartbeat_entries-Leaves now req.server_info_list s)
step-Refines (killed req) s h = λ key. refl
step-Refines (create dial now req) s h = λ key. refl
step-Refines (break req) s h = λ key. refl
step-Refines (kill dial) s h = λ key. refl
step-Refines (put dial req) s h = ((put_entry req s).0.version, put-Allowed dial req s)
step-Refines (get req) s h = silent (kept-get_kv_server req s)
step-Refines (remote_write req) s h = remote_write-Allowed req s
step-Refines (kv_data req) s h = λ key.
    ap seen (lookup-merge req.key_value_map s.key_value_map key (Entries-Distinct _ h))
    ∙ seen-join (lookup key s.key_value_map) (lookup key req.key_value_map)
step-Refines (stabilizes dial answer id) s h = silent (kept-stabilize_send dial answer id s)
step-Refines (round dial now perm) s h =
    round-Refines dial now perm (kept s) _ (heartbeat_round-Leaves dial now perm s)
step-Refines (call_done err id) s h = silent (kept-async_call_handler err id s)

-- Every event that does not panic changes the registers as it may: a put writes its value under
-- some version, a remote write and the data of another server, which have no key twice, leave the
-- greater version, and nothing else changes them.
pub step-Allowed :
    (event : Event) (s s' : Server)
    → IsValidEvent event
    → step event s ≡ some s'
    → Allowed event (view s.key_value_map) (view s'.key_value_map)
step-Allowed event s s' h e =
    subst (Refines event (view s.key_value_map)) e (step-Refines event s h)
