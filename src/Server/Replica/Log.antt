-- ===== src/Server/Replica/Log.antt =====
-- The write log of server/server.go against the store.
use psk_db.Prelude.{
  String, ◌≡◌, refl, sym, ◌∙◌, subst, Option, none, some, List, [], ◌∷◌, ◌++◌, All, inl, inr,
  Option-cases, Bool-cases, arith, ltb_ℤ, if_rule, eqb_ℤ,
}
use psk_db.Dict.{Dict, lookup, insert}
use psk_db.Timestamp.{Timestamp, minus_one}
use psk_db.Common.{PutKvServerRequest}
use psk_db.Server.State.{KeyValueInfo, ProcessRemoteWriteRequest, Server}
use psk_db.Server.Clock.{
  get_and_increment_lamport_timestamp, conditional_increment_lamport_timestamp,
}
use psk_db.Server.Store.{
  put_entry, put_kv_server, process_remote_write, version_of_new, version_of_old,
}
use psk_db.Server.Membership.{heartbeat_notification, kill_server_notification}
use psk_db.Server.Links.{create_connection, break_connection, kill_server}
use psk_db.Server.Step.{
  Event, joins, new_server, heartbeat, killed, create, break, kill, put, get, remote_write, kv_data,
  stabilizes, round, call_done, step, run,
}
use psk_db.Server.Invariant.StoreEntries.{Entries, lookup-key}
use psk_db.Server.Invariant.Defs.{IsValid}
use psk_db.Server.Invariant.Events.{IsValidEvent, step-IsValid}
use psk_db.Server.Replica.Silent.{
  kept, Leaves, kept-join_cluster_as_server, kept-new_server_notification, kept-get_kv_server,
  kept-stabilize_send, kept-async_call_handler, heartbeat_entries-Leaves, heartbeat_round-Leaves,
}

-- The store that the writes of a log make of another.
unfoldable pub replay : List KeyValueInfo → Dict KeyValueInfo → Dict KeyValueInfo
replay [] store = store
replay (info ∷ log) store = replay log (insert info.key info store)

replay-append :
    (log : List KeyValueInfo) (info : KeyValueInfo) (store : Dict KeyValueInfo)
    → replay (log ++ info ∷ []) store ≡ insert info.key info (replay log store)
unfolding replay
replay-append [] info store = refl
replay-append (first ∷ log) info store = replay-append log info (insert first.key first store)

-- The log, from an empty store, makes the store.
abbrev pub IsLogged : Dict KeyValueInfo × List KeyValueInfo → Type 0
IsLogged (store, log) = replay log [] ≡ store

store_entry-IsLogged :
    (key : String) (info : KeyValueInfo) (store : Dict KeyValueInfo) (log : List KeyValueInfo)
    → info.key ≡ key
    → IsLogged (store, log)
    → IsLogged (insert key info store, log ++ info ∷ [])
store_entry-IsLogged key info store log e h =
    replay-append log info [] ∙ (λ i. insert (e i) info (h i))

kept_new : (version : Timestamp) (s : Server) → kept (version_of_new version s).1 ≡ kept s
unfolding get_and_increment_lamport_timestamp conditional_increment_lamport_timestamp
kept_new version s =
    if_rule {A = Timestamp × Server} (λ x. kept x.1 ≡ kept s) (eqb_ℤ version minus_one) _ _
      (λ _. refl) (λ _. refl)

kept_old :
    (version : Timestamp) (old : KeyValueInfo) (s : Server)
    → kept (version_of_old version old s).1 ≡ kept s
unfolding conditional_increment_lamport_timestamp
kept_old version old s =
    if_rule {A = Timestamp × Server} (λ x. kept x.1 ≡ kept s) (eqb_ℤ version minus_one) _ _
      (λ _. refl) (λ _. refl)

put_entry-IsLogged :
    (req : PutKvServerRequest) (s : Server)
    → Entries s.key_value_map
    → IsLogged (kept s)
    → IsLogged (kept (put_entry req s).1)
unfolding put_entry
put_entry-IsLogged req s v h = elim (Option-cases (lookup req.key s.key_value_map)) [
  | inl e ↦
      let same = kept_new req.version s in
      rw (e, put_entry) (store_entry-IsLogged req.key _ _ _ refl (subst IsLogged (sym same) h))
  | inr (old, e) ↦
      let same = kept_old req.version old s in
      rw (e, put_entry)
        (store_entry-IsLogged req.key _ _ _ (lookup-key req.key s.key_value_map old v e)
          (subst IsLogged (sym same) h))
]

remote_write-IsLogged :
    (req : ProcessRemoteWriteRequest) (s : Server)
    → Entries s.key_value_map
    → IsLogged (kept s)
    → IsLogged (kept (process_remote_write req s))
unfolding process_remote_write
remote_write-IsLogged req s v h = elim (Option-cases (lookup req.key s.key_value_map)) [
  | inl e ↦
      rw (e, process_remote_write)
        (store_entry-IsLogged req.key _ s.key_value_map s.write_log refl h)
  | inr (old, e) ↦ elim (Bool-cases (ltb_ℤ old.version req.version)) [
    | inl newer ↦
        rw (e, process_remote_write, newer)
          (store_entry-IsLogged req.key _ s.key_value_map s.write_log
            (lookup-key req.key s.key_value_map old v e) h)
    | inr stale ↦ rw (e, process_remote_write, stale) h
  ]
]

-- SendKVData changes the store without a word in the log.
abbrev pub NoData : Event → Type 0
NoData (kv_data req) = ⊥
NoData _ = Unit

abbrev LoggedAfter : Option Server → Type 0
LoggedAfter none = Unit
LoggedAfter (some s) = IsLogged (kept s)

Leaves-LoggedAfter :
    (before : Dict KeyValueInfo × List KeyValueInfo) (o : Option Server)
    → IsLogged before
    → Leaves before o
    → LoggedAfter o
Leaves-LoggedAfter before none h l = tt
Leaves-LoggedAfter before (some s) h l = subst IsLogged (sym l) h

step-LoggedAfter :
    (event : Event) (s : Server)
    → NoData event
    → Entries s.key_value_map
    → IsLogged (kept s)
    → LoggedAfter (step event s)
unfolding step heartbeat_notification kill_server_notification create_connection break_connection
    kill_server put_kv_server
step-LoggedAfter (joins dial now req) s n v h =
    subst IsLogged (sym (kept-join_cluster_as_server dial now req s)) h
step-LoggedAfter (new_server now req) s n v h =
    subst IsLogged (sym (kept-new_server_notification now req s)) h
step-LoggedAfter (heartbeat now req) s n v h =
    Leaves-LoggedAfter (kept s) _ h (heartbeat_entries-Leaves now req.server_info_list s)
step-LoggedAfter (killed req) s n v h = h
step-LoggedAfter (create dial now req) s n v h = h
step-LoggedAfter (break req) s n v h = h
step-LoggedAfter (kill dial) s n v h = h
step-LoggedAfter (put dial req) s n v h = put_entry-IsLogged req s v h
step-LoggedAfter (get req) s n v h = subst IsLogged (sym (kept-get_kv_server req s)) h
step-LoggedAfter (remote_write req) s n v h = remote_write-IsLogged req s v h
step-LoggedAfter (kv_data req) s n v h = absurd n
step-LoggedAfter (stabilizes dial answer id) s n v h =
    subst IsLogged (sym (kept-stabilize_send dial answer id s)) h
step-LoggedAfter (round dial now perm) s n v h =
    Leaves-LoggedAfter (kept s) _ h (heartbeat_round-Leaves dial now perm s)
step-LoggedAfter (call_done err id) s n v h =
    subst IsLogged (sym (kept-async_call_handler err id s)) h

-- If a server is well formed and its write log, replayed from an empty store, makes its store, so
-- it is after every sequence of events that does not panic, without a SendKVData and in which
-- rand.Perm(n) has n numbers.
pub replay-run :
    (events : List Event) (s s' : Server)
    → All IsValidEvent events
    → All NoData events
    → IsValid s
    → replay s.write_log [] ≡ s.key_value_map
    → run events s ≡ some s'
    → replay s'.write_log [] ≡ s'.key_value_map
unfolding run
replay-run [] s s' h n v l e = subst LoggedAfter e l
replay-run (event ∷ events) s s' h n v l e =
    let (t, f, w) = step-IsValid event s h.0 v in
    let logged = subst LoggedAfter f (step-LoggedAfter event s n.0 v.entries l) in
    replay-run events t s' h.1 n.1 w logged (ground (arith, f, e))
