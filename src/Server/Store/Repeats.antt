-- ===== src/Server/Store/Repeats.antt =====
-- Two writes at a server that is behind the versions that its clients have seen (PutKVServer of
-- server/rpc.go, ConditionalIncrementLamportTimestamp of server/server.go).
use psk_db.Prelude.{
  false, pos, ◌≡◌, refl, sym, ap, ◌∙◌, subst, none, some, inl, inr, Option-cases, eqb_ℤ, eqb_ℤ_iff,
  Bool-cases, le→not-ltb_ℤ, ◌≤ℤ◌, ◌<ℤ◌, ◌+ℤ◌, ◌-ℤ◌, arith, int_laws,
}
use psk_db.Dict.{lookup, lookup-insert_same}
use psk_db.Timestamp.{Timestamp, one, minus_one, ceil}
use psk_db.Common.{PutKvServerRequest, PutKvServerReply}
use psk_db.Server.State.{KeyValueInfo, ProcessRemoteWriteRequest, Server}
use psk_db.Server.Clock.{conditional_increment, conditional_increment_lamport_timestamp}
use psk_db.Server.Clock.Order.{conditional_increment_behind}
use psk_db.Server.Connect.{Dial}
use psk_db.Server.Store.{put_entry, put_kv_server, process_remote_write}
use psk_db.Server.Store.Writes.{put_kv_server-reply}
use psk_db.Server.Store.Replies.{key-put_entry}
use psk_db.Server.Invariant.Defs.{IsValid}
use psk_db.Server.Invariant.Calls.{put_kv_server-IsValid}

-- The version lies two and less than three above the clock.
abbrev pub Ahead : Timestamp → Timestamp → Type 0
Ahead clock version = (clock +ℤ pos 2_000_000 ≤ℤ version) × (version <ℤ clock +ℤ pos 3_000_000)

ceil_two : (d : Timestamp) → d ≤ℤ minus_one → (pos 0 <ℤ d +ℤ pos 2_000_000) → ceil d ≡ minus_one
unfolding ceil ◌+ℤ◌
ceil_two d h k = ground arith

conditional_increment_stuck :
    (version clock : Timestamp) → Ahead clock version → conditional_increment version clock ≡ clock
conditional_increment_stuck version clock h =
    rw
      (
        conditional_increment_behind version clock (omega (int_laws, h.0)),
        ceil_two (clock +ℤ one -ℤ version) (omega (int_laws, h.0)) (omega (int_laws, h.1)),
      )
      (omega int_laws)

-- A client that has seen a version sends it.
put_entry_seen :
    (req : PutKvServerRequest) (s : Server)
    → eqb_ℤ req.version minus_one ≡ false
    → ((put_entry req s).0.version
        ≡ conditional_increment req.version s.curr_server_info.lamport_timestamp)
      × ((put_entry req s).1.curr_server_info.lamport_timestamp
          ≡ conditional_increment req.version s.curr_server_info.lamport_timestamp)
unfolding put_entry conditional_increment_lamport_timestamp
put_entry_seen req s seen = elim (Option-cases (lookup req.key s.key_value_map)) [
  | inl e ↦ rw (e, put_entry, seen) (refl, refl)
  | inr (old, e) ↦ rw (e, put_entry, seen) (refl, refl)
]

put_kv_server_stuck :
    (dial : Dial) (req : PutKvServerRequest) (s : Server)
    → pos 0 ≤ℤ s.curr_server_info.lamport_timestamp
    → Ahead s.curr_server_info.lamport_timestamp req.version
    → ((put_kv_server dial req s).1.version ≡ s.curr_server_info.lamport_timestamp)
      × ((put_kv_server dial req s).0.curr_server_info.lamport_timestamp
          ≡ s.curr_server_info.lamport_timestamp)
unfolding put_kv_server
put_kv_server_stuck dial req s clock ahead =
    let seen : eqb_ℤ req.version minus_one ≡ false =
      elim (Bool-cases (eqb_ℤ req.version minus_one)) [
        | inr e ↦ e
        | inl e ↦
            let low : s.curr_server_info.lamport_timestamp +ℤ pos 2_000_000 ≤ℤ minus_one =
              subst (λ v. s.curr_server_info.lamport_timestamp +ℤ pos 2_000_000 ≤ℤ v)
                ((eqb_ℤ_iff req.version minus_one).0 e) ahead.0 in
            absurd (omega (int_laws, low, clock))
      ] in
    let stamped = put_entry_seen req s seen in
    let stuck =
      conditional_increment_stuck req.version s.curr_server_info.lamport_timestamp ahead in
    (stamped.0 ∙ stuck, stamped.1 ∙ stuck)

-- The remote write that PutKVServer sends, as its reply has it.
abbrev pub sent_write : PutKvServerReply → ProcessRemoteWriteRequest
sent_write reply = record { key = reply.key; value = reply.value; version = reply.version }

process_remote_write_new :
    (req : ProcessRemoteWriteRequest) (t : Server)
    → lookup req.key t.key_value_map ≡ none
    → lookup req.key (process_remote_write req t).key_value_map
      ≡ some (record { key = req.key; value = req.value; version = req.version })
unfolding process_remote_write
process_remote_write_new req t e =
    rw (e, process_remote_write) (lookup-insert_same req.key _ t.key_value_map)

process_remote_write_tie :
    (req : ProcessRemoteWriteRequest) (t : Server) (old : KeyValueInfo)
    → lookup req.key t.key_value_map ≡ some old
    → old.version ≡ req.version
    → process_remote_write req t ≡ t
unfolding process_remote_write
process_remote_write_tie req t old e same =
    rw
      (
        e,
        process_remote_write,
        le→not-ltb_ℤ old.version req.version (subst (λ v. v ≤ℤ old.version) same (omega int_laws)),
      )
      refl

put_kv_server_keeps :
    (dial : Dial) (req : PutKvServerRequest) (s : Server)
    → IsValid s
    → ((put_kv_server dial req s).1.key ≡ req.key)
      × ((put_kv_server dial req s).1.value ≡ req.value)
unfolding put_kv_server
put_kv_server_keeps dial req s v = (key-put_entry req s v, (put_kv_server-reply dial req s).1)

-- Let two clients write one key at a well-formed server, one after the other, with versions that
-- lie two and less than three above its clock, which is not negative. Then the second reply has its
-- value under the version of the first, and a server without the key that handles the remote writes
-- of the two, in their order, holds the value of the first.
pub put_kv_server_repeats :
    (dial dial' : Dial) (first second : PutKvServerRequest) (s t : Server)
    → IsValid s
    → pos 0 ≤ℤ s.curr_server_info.lamport_timestamp
    → Ahead s.curr_server_info.lamport_timestamp first.version
    → Ahead s.curr_server_info.lamport_timestamp second.version
    → second.key ≡ first.key
    → lookup first.key t.key_value_map ≡ none
    → let a = put_kv_server dial first s in
      let b = put_kv_server dial' second a.0 in
      (b.1.version ≡ a.1.version)
      × (b.1.value ≡ second.value)
      × (lookup first.key
            (process_remote_write
              (sent_write b.1)
              (process_remote_write (sent_write a.1) t)).key_value_map
          ≡ some (record { key = first.key; value = first.value; version = a.1.version }))
put_kv_server_repeats dial dial' first second s t v clock ahead ahead' same new =
    let a = put_kv_server dial first s in
    let b = put_kv_server dial' second a.0 in
    let (stamped, stays) = put_kv_server_stuck dial first s clock ahead in
    let w = put_kv_server-IsValid dial first s v in
    let (stamped', _) =
      put_kv_server_stuck dial' second a.0 (subst (λ c. pos 0 ≤ℤ c) (sym stays) clock)
        (subst (λ c. Ahead c second.version) (sym stays) ahead') in
    let (key, value) = put_kv_server_keeps dial first s v in
    let (key', value') = put_kv_server_keeps dial' second a.0 w in
    let tie : b.1.version ≡ a.1.version = stamped' ∙ stays ∙ sym stamped in
    let t' = process_remote_write (sent_write a.1) t in
    let info : KeyValueInfo = record { key = a.1.key; value = a.1.value; version = a.1.version } in
    let held : lookup a.1.key t'.key_value_map ≡ some info =
      process_remote_write_new (sent_write a.1) t
        (subst (λ k. lookup k t.key_value_map ≡ none) (sym key) new) in
    (
      tie,
      value',
      ap (λ (u : Server). lookup first.key u.key_value_map)
            (process_remote_write_tie (sent_write b.1) t' info
              (subst (λ k. lookup k t'.key_value_map ≡ some info) (key ∙ sym same ∙ sym key') held)
              (sym tie))
          ∙ subst (λ k. lookup k t'.key_value_map ≡ some info) key held
          ∙ ap (λ k. some (record info { key = k })) key
          ∙ ap (λ x. some (record info { key = first.key; value = x })) value,
    )
