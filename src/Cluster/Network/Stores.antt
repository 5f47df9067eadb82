-- ===== src/Cluster/Network/Stores.antt =====
-- What one event does to the store of a server (server/), when all that comes in was written by a
-- PutKVServer.
use mathlib.Core.Option.{some-injective}
use psk_db.Prelude.{
  String, ◌≡◌, refl, sym, ◌∙◌, subst, Option, none, some, All, In, if_rule, ◌==◌, eq_iff, ltb_ℤ,
}
use psk_db.Dict.{lookup}
use psk_db.Timestamp.{Timestamp}
use psk_db.Common.{PutKvServerRequest}
use psk_db.Server.State.{Server}
use psk_db.Server.Connect.{Dial}
use psk_db.Server.Store.{put_entry, put_kv_server}
use psk_db.Server.Store.Writes.{lookup-put_kv_server}
use psk_db.Server.Store.Replies.{key-put_entry}
use psk_db.Server.Replica.{View, seen, view, later, with_register}
use psk_db.Server.Replica.Refinement.{step-Allowed}
use psk_db.Server.Invariant.Defs.{IsValid}
use psk_db.Server.Invariant.Events.{IsValidEvent}
use psk_db.Server.Step.{Event, put, remote_write, kv_data, step}
use psk_db.Cluster.Network.{Puts, wrote}
use psk_db.Cluster.Network.Written.{Written, Holds, AllWritten}

-- What an event brings in from another server.
abbrev pub Brings : Puts → Event → Type 0
Brings puts (remote_write req) = Written puts req.key (req.version, req.value)
Brings puts (kv_data req) = AllWritten puts req.key_value_map
Brings puts _ = Unit

later-Holds :
    (puts : Puts) (key : String) (a b : Option (Timestamp × String))
    → Holds puts key a
    → Holds puts key b
    → Holds puts key (later a b)
later-Holds puts key none b h k = k
later-Holds puts key (some own) none h k = h
later-Holds puts key (some own) (some received) h k =
    if_rule (Holds puts key) (ltb_ℤ own.0 received.0) _ _ (λ _. k) (λ _. h)

with_register-Holds :
    (puts : Puts) (key other : String) (register : Option (Timestamp × String)) (registers : View)
    → Holds puts key register
    → Holds puts other (registers other)
    → Holds puts other (with_register key register registers other)
with_register-Holds puts key other register registers h k =
    if_rule (Holds puts other) (key == other) register (registers other)
      (λ e. subst (λ name. Holds puts name register) ((eq_iff key other).0 e) h) (λ _. k)

put-Holds :
    (puts : Puts) (dial : Dial) (req : PutKvServerRequest) (s : Server) (key : String)
    → IsValid s
    → In (s.curr_server_info.id, (put_entry req s).0) puts
    → Holds puts key (view s.key_value_map key)
    → Holds puts key (view (put_kv_server dial req s).0.key_value_map key)
put-Holds puts dial req s key v m h =
    let info = (put_entry req s).0 in
    subst (λ o. Holds puts key (seen o)) (sym (lookup-put_kv_server dial req s key))
      (if_rule (λ o. Holds puts key (seen o)) (req.key == key) (some info)
        (lookup key s.key_value_map)
        (λ e.
          (s.curr_server_info.id, info, m, key-put_entry req s v ∙ (eq_iff req.key key).0 e, refl))
        (λ _. h))

pub step-AllWritten :
    (puts : Puts) (event : Event) (s s' : Server)
    → IsValid s
    → IsValidEvent event
    → Brings puts event
    → All (λ made. In made puts) (wrote event s)
    → step event s ≡ some s'
    → AllWritten puts s.key_value_map
    → AllWritten puts s'.key_value_map
unfolding step
step-AllWritten puts (put dial req) s s' v f b w e h = λ key.
    subst (λ (t : Server). Holds puts key (view t.key_value_map key)) (some-injective _ _ e)
      (put-Holds puts dial req s key v w.0 (h key))
step-AllWritten puts (remote_write req) s s' v f b w e h = λ key.
    subst (Holds puts key) (sym (step-Allowed (remote_write req) s s' f e key)) (
      with_register-Holds puts req.key key _ (view s.key_value_map)
        (later-Holds puts req.key (view s.key_value_map req.key) (some (req.version, req.value))
          (h req.key) b)
        (h key))
step-AllWritten puts (kv_data req) s s' v f b w e h = λ key.
    subst (Holds puts key) (sym (step-Allowed (kv_data req) s s' f e key))
      (later-Holds puts key (view s.key_value_map key) (view req.key_value_map key) (h key) (b key))
step-AllWritten puts event s s' v f b w e h =
    λ key. subst (Holds puts key) (sym (step-Allowed event s s' f e key)) (h key)
