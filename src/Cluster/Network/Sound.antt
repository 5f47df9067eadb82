-- ===== src/Cluster/Network/Sound.antt =====
-- What holds in every network that servers of server/ can reach.
use mathlib.Core.Option.{some-injective}
use psk_db.Prelude.{
  String, false, ◌≡◌, refl, sym, ap, ◌∙◌, subst, some, ◌++◌, All, All-map, In-append, All-append,
  All-In, In, inl, inr, Option-cases, if_rule, ◌==◌, eqb_ℤ,
}
use psk_db.Dict.{lookup}
use psk_db.Timestamp.{Timestamp, minus_one}
use psk_db.Timestamp.Fraction.{frac}
use psk_db.Common.{Conn, PutKvServerRequest}
use psk_db.Server.State.{
  Time, KeyValueInfo, Server, Call, sent, process_remote_write as process_remote_write_call,
  send_kv_data as send_kv_data_call,
}
use psk_db.Server.Clock.{
  get_and_increment_lamport_timestamp, conditional_increment_lamport_timestamp,
}
use psk_db.Server.Clock.Order.{frac-conditional_increment}
use psk_db.Server.Store.{put_entry, version_of_new, version_of_old}
use psk_db.Server.Invariant.Defs.{IsValid}
use psk_db.Server.Invariant.Events.{IsValidEvent, step-IsValid}
use psk_db.Server.Step.{Event, put, remote_write, kv_data, step}
use psk_db.Cluster.{Cluster}
use psk_db.Cluster.Network.{
  Network, AreNew, receipt, is_receipt, actions_of, Puts, wrote, after, Reached, at_start, starts,
  enters, arrives,
}
use psk_db.Cluster.Network.Written.{AllWritten, Carries, Holds-append, Carries-append}
use psk_db.Cluster.Network.Carried.{actions_of-Carries}
use psk_db.Cluster.Network.Entering.{IsStamped, Sound, entered-Sound}
use psk_db.Cluster.Network.Stores.{Brings, step-AllWritten}

version_of_new-frac :
    (version : Timestamp) (s : Server)
    → frac (version_of_new version s).0 ≡ frac s.curr_server_info.lamport_timestamp
unfolding get_and_increment_lamport_timestamp conditional_increment_lamport_timestamp
version_of_new-frac version s =
    if_rule {A = Timestamp × Server} (λ r. frac r.0 ≡ frac s.curr_server_info.lamport_timestamp)
      (eqb_ℤ version minus_one) _ _ (λ _. refl)
      (λ _. frac-conditional_increment version s.curr_server_info.lamport_timestamp)

version_of_old-frac :
    (version : Timestamp) (old : KeyValueInfo) (s : Server)
    → frac (version_of_old version old s).0 ≡ frac s.curr_server_info.lamport_timestamp
unfolding conditional_increment_lamport_timestamp
version_of_old-frac version old s =
    if_rule {A = Timestamp × Server} (λ r. frac r.0 ≡ frac s.curr_server_info.lamport_timestamp)
      (eqb_ℤ version minus_one) _ _
      (λ _. frac-conditional_increment old.version s.curr_server_info.lamport_timestamp)
      (λ _. frac-conditional_increment version s.curr_server_info.lamport_timestamp)

put_entry-IsStamped :
    (req : PutKvServerRequest) (s : Server)
    → IsValid s
    → IsStamped (s.curr_server_info.id, (put_entry req s).0)
unfolding put_entry
put_entry-IsStamped req s v =
    v.clock
    ∙ ap some (elim (Option-cases (lookup req.key s.key_value_map)) [
      | inl e ↦ rw (e, put_entry) (sym (version_of_new-frac req.version s))
      | inr (old, e) ↦ rw (e, put_entry) (sym (version_of_old-frac req.version old s))
    ])

wrote-IsStamped : (event : Event) (s : Server) → IsValid s → All IsStamped (wrote event s)
wrote-IsStamped (put dial req) s v = (put_entry-IsStamped req s v, tt)
wrote-IsStamped _ s v = tt

append-Sound :
    (new puts : Puts) (net : Network) → All IsStamped new → Sound puts net → Sound (new ++ puts) net
append-Sound new puts net h sound = record {
  valid = sound.valid;
  stores = λ id key. Holds-append new puts key _ (sound.stores id key);
  carried =
      All-map (Carries puts) (Carries (new ++ puts)) net.actions (Carries-append new puts)
        sound.carried;
  stamped = All-append IsStamped new puts h sound.stamped;
}

after-Sound :
    (puts : Puts) (id : String) (event : Event) (s' : Server) (net : Network)
    → IsValidEvent event
    → Brings puts event
    → All (λ made. In made puts) (wrote event (net.servers id))
    → step event (net.servers id) ≡ some s'
    → Sound puts net
    → Sound puts (after id event s' net)
after-Sound puts id event s' net f b w e sound =
    let s = net.servers id in
    let (t, e', v) = step-IsValid event s f (sound.valid id) in
    record {
      valid = λ other.
          if_rule IsValid (id == other) s' (net.servers other)
            (λ _. subst IsValid (some-injective _ _ (sym e' ∙ e)) v) (λ _. sound.valid other);
      stores = λ other.
          if_rule (λ (t : Server). AllWritten puts t.key_value_map) (id == other) s'
            (net.servers other)
            (λ _. step-AllWritten puts event s s' (sound.valid id) f b w e (sound.stores id))
            (λ _. sound.stores other);
      carried =
          All-append (Carries puts) (actions_of event s) net.actions
            (actions_of-Carries puts event s (sound.valid id) (sound.stores id) w) sound.carried;
      stamped = sound.stamped;
    }

starts-Brings : (puts : Puts) (event : Event) → is_receipt event ≡ false → Brings puts event
starts-Brings puts (remote_write req) h = absurd cc
starts-Brings puts (kv_data req) h = absurd cc
starts-Brings puts _ h = tt

pub receipt-Brings :
    (puts : Puts) (id : String) (c : Conn) (now : Time) (call : Call) (s : Server)
    → Carries puts (sent id c call)
    → IsValidEvent (receipt now call)
      × Brings puts (receipt now call)
      × All (λ made. In made puts) (wrote (receipt now call) s)
receipt-Brings puts id c now (process_remote_write_call req) s h = (tt, h, tt)
receipt-Brings puts id c now (send_kv_data_call req) s (v, h) = (v, h, tt)
receipt-Brings puts id c now _ s h = (tt, tt, tt)

pub Reached-Sound :
    (start : Cluster) (puts : Puts) (net : Network)
    → AreNew start
    → Reached start puts net
    → Sound puts net
unfolding lookup
Reached-Sound start _ _ new at_start = record {
  valid = λ id. (new id).0;
  stores = λ id key. rw (new id).1 tt;
  carried = tt;
  stamped = tt;
}
Reached-Sound start _ _ new (starts {puts} {net} id event s' reached own valid e) =
    let s = net.servers id in
    let sound = Reached-Sound start puts net new reached in
    after-Sound (wrote event s ++ puts) id event s' net valid (starts-Brings _ event own)
      (In-append (wrote event s) puts) e
      (append-Sound (wrote event s) puts net (wrote-IsStamped event s (sound.valid id)) sound)
Reached-Sound start _ _ new (enters {puts} {net} dials now id at reached) =
    entered-Sound puts dials now id at net (Reached-Sound start puts net new reached)
Reached-Sound start _ _ new (arrives {puts} {net} id c now call s' reached m e) =
    let sound = Reached-Sound start puts net new reached in
    let (f, b, w) =
      receipt-Brings puts id c now call (net.servers id)
        (All-In (Carries puts) net.actions _ sound.carried m) in
    after-Sound puts id (receipt now call) s' net f b w e sound
