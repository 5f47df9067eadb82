-- ===== src/Cluster/Sending.antt =====
-- What one round of Stabilize (server/rpc.go) sends, if nothing else happens meanwhile.
use psk_db.Prelude.{
  String, Bool, true, ◌≡◌, refl, sym, ap, ◌∙◌, subst, Option, some, List, [], ◌∷◌, All, All-map,
  arith, inl, inr, Option-cases, eq_refl, ◌==◌, if_rule, is_some,
}
use psk_db.Dict.{Dict, lookup, insert, contains, lookup-insert}
use psk_db.Common.{CallError, Conn}
use psk_db.Server.State.{
  ServerInfo, SendKvDataRequest, Server, Action, sent, send_kv_data as send_kv_data_call,
}
use psk_db.Server.Connect.{Dial, connect, get_rpc_connection}
use psk_db.Server.Stabilize.{keys, kv_data_request, stabilize_send, stabilize_round}
use psk_db.Server.Invariant.MemberList.{Members, lookup-id}
use psk_db.Server.Invariant.Defs.{IsValid}
use psk_db.Server.Invariant.Calls.{stabilize_send-IsValid}
use psk_db.Server.Store.{copy_into}
use psk_db.Server.Invariant.StoreEntries.{Entries, Entries-Distinct}
use psk_db.Cluster.Copies.{lookup-copy, copy-Entries}
use psk_db.Server.Replica.Silent.{kept-stabilize_send}

-- The members that the calls are meant for, in order.
unfoldable pub targets : List Action → List String
targets [] = []
targets (sent member c call ∷ actions) = member ∷ targets actions
targets (_ ∷ actions) = targets actions

-- The action sends the copy of the store that Stabilize makes.
abbrev SendsCopy : Server → Action → Type 0
SendsCopy s action =
    (member : String) × (c : Conn) × (action
      ≡ sent member c (send_kv_data_call (kv_data_request s)))

-- The action sends, under the id of the server, what it holds of every key, and no key twice or under
-- another key.
abbrev pub Carries : Server → Action → Type 0
Carries s action =
    (member : String) × (c : Conn) × (req : SendKvDataRequest) × (action
      ≡ sent member c (send_kv_data_call req))
    × (req.server_id ≡ s.curr_server_info.id)
    × Entries req.key_value_map
    × ((key : String) → lookup key req.key_value_map ≡ lookup key s.key_value_map)

SendsCopy-Carries :
    (s : Server) (action : Action) → IsValid s → SendsCopy s action → Carries s action
SendsCopy-Carries s action v (member, c, e) = (
  member,
  c,
  kv_data_request s,
  e,
  refl,
  copy-Entries s.key_value_map v.entries,
  λ key. lookup-copy s.key_value_map key (Entries-Distinct s.key_value_map v.entries),
)

module _ (dial : Dial) (dials : (address : String) → (c : Conn) × (dial address ≡ some c))
    (answer : String → Option CallError) where
  connect-reaches :
      (member : ServerInfo) → (c : Conn) × ((connect dial [] member).rpc_client ≡ some c)
  unfolding connect get_rpc_connection lookup
  connect-reaches member = elim (Option-cases member.rpc_client) [
    | inl e ↦ (let (c, d) = dials member.address in (c, ground (arith, e, d)))
    | inr (c, e) ↦ (c, ground (arith, e))
  ]

  connect-reaches_all :
      (blacklist : Dict Bool) (member : ServerInfo)
      → blacklist ≡ []
      → (c : Conn) × ((connect dial blacklist member).rpc_client ≡ some c)
  connect-reaches_all blacklist member b =
      subst (λ l. (c : Conn) × ((connect dial l member).rpc_client ≡ some c)) (sym b)
        (connect-reaches member)

  stabilize_send-reaches :
      (id : String) (s : Server) (member : ServerInfo)
      → s.blacklist_map ≡ []
      → lookup id s.server_map ≡ some member
      → (c : Conn) × ((stabilize_send dial answer id s).1
          ≡ sent member.id c (send_kv_data_call (kv_data_request s)) ∷ [])
  unfolding stabilize_send
  stabilize_send-reaches id s member b e =
      let (c, d) = connect-reaches_all s.blacklist_map member b in
      (c, rw (e, stabilize_send, d) refl)

  stabilize_send-same :
      (id : String) (s : Server)
      → ((stabilize_send dial answer id s).0.blacklist_map ≡ s.blacklist_map)
        × ((stabilize_send dial answer id s).0.curr_server_info ≡ s.curr_server_info)
  unfolding stabilize_send
  stabilize_send-same id s = ground arith

  contains-insert :
      (key other : String) (member : ServerInfo) (members : Dict ServerInfo)
      → contains other members ≡ true
      → contains other (insert key member members) ≡ true
  contains-insert key other member members h = rw lookup-insert (
      if_rule (λ (o : Option ServerInfo). is_some o ≡ true) (key == other) _ _ (λ _. refl) (λ _. h))

  stabilize_send-contains :
      (id other : String) (s : Server)
      → contains other s.server_map ≡ true
      → contains other (stabilize_send dial answer id s).0.server_map ≡ true
  unfolding stabilize_send
  stabilize_send-contains id other s h = elim (Option-cases (lookup id s.server_map)) [
    | inl e ↦ rw (e, stabilize_send) h
    | inr (member, e) ↦ elim (Option-cases (connect dial s.blacklist_map member).rpc_client) [
      | inl n ↦ rw (e, stabilize_send, n) (contains-insert id other _ s.server_map h)
      | inr (c, n) ↦ rw (e, stabilize_send, n) (contains-insert id other _ s.server_map h)
    ]
  ]

  kv_data_request-same :
      (s t : Server)
      → t.key_value_map ≡ s.key_value_map
      → t.curr_server_info ≡ s.curr_server_info
      → kv_data_request t ≡ kv_data_request s
  kv_data_request-same s t k i =
      ap (λ m. record { key_value_map = copy_into m []; server_id = t.curr_server_info.id }) k
      ∙ ap
          (λ (info : ServerInfo). record {
            key_value_map = copy_into s.key_value_map [];
            server_id = info.id;
          })
          i

  SendsCopy-same :
      (s t : Server) (actions : List Action)
      → t.key_value_map ≡ s.key_value_map
      → t.curr_server_info ≡ s.curr_server_info
      → All (SendsCopy t) actions
      → All (SendsCopy s) actions
  SendsCopy-same s t actions k i all =
      All-map (SendsCopy t) (SendsCopy s) actions
        (λ action carried. (
          carried.0,
          carried.1,
          carried.2
              ∙ ap (λ req. sent carried.0 carried.1 (send_kv_data_call req))
                  (kv_data_request-same s t k i),
        ))
        all

  -- The round over the ids `ids`, each of a member.
  round-sends :
      (ids : List String) (s : Server)
      → IsValid s
      → s.blacklist_map ≡ []
      → All (λ id. contains id s.server_map ≡ true) ids
      → (targets (stabilize_round dial answer (λ id s'. s') ids s).1 ≡ ids)
        × All (SendsCopy s) (stabilize_round dial answer (λ id s'. s') ids s).1
  unfolding stabilize_round targets
  round-sends [] s v b h = (refl, tt)
  round-sends (id ∷ ids) s v b h = elim (Option-cases (lookup id s.server_map)) [
    | inl e ↦ absurd (ground (arith, e, h.0))
    | inr (member, e) ↦
        let (c, d) = stabilize_send-reaches id s member b e in
        let t = (stabilize_send dial answer id s).0 in
        let same = stabilize_send-same id s in
        let (later, all) =
          round-sends ids t (stabilize_send-IsValid dial answer id s v) (same.0 ∙ b) (
            All-map (λ other. contains other s.server_map ≡ true)
              (λ other. contains other t.server_map ≡ true) ids
              (λ other. stabilize_send-contains id other s) h.1) in
        rw d (
          ap (λ i. i ∷ targets (stabilize_round dial answer (λ id s'. s') ids t).1)
                (lookup-id _ id s.server_map member v.members e).0
              ∙ ap (λ l. id ∷ l) later,
          (
            (member.id, c, refl),
            SendsCopy-same s t _ (ap (λ k. k.0) (kept-stabilize_send dial answer id s)) same.1 all,
          ),
        )
  ]

  keys-contained :
      (own : String) (members : Dict ServerInfo)
      → Members own members
      → All (λ id. contains id members ≡ true) (keys members)
  unfolding lookup
  keys-contained own [] v = tt
  keys-contained own ((id, member) ∷ members) v = (
    ground (arith, eq_refl id),
    All-map (λ other. contains other members ≡ true)
        (λ other. contains other ((id, member) ∷ members) ≡ true) (keys members)
        (λ other h. ground arith) (keys-contained own members v.3),
  )

  -- With no broken connection and every dial successful, and nothing else happening meanwhile, one
  -- round of Stabilize at a well-formed server makes one call for each member, in the order of the
  -- list, and each call carries, under the id of the server, for every key what the store holds, no
  -- key twice.
  pub stabilize_round-sends :
      (s : Server)
      → IsValid s
      → s.blacklist_map ≡ []
      → (targets (stabilize_round dial answer (λ id s'. s') (keys s.server_map) s).1
          ≡ keys s.server_map)
        × All (Carries s) (stabilize_round dial answer (λ id s'. s') (keys s.server_map) s).1
  stabilize_round-sends s v b =
      let (called, copies) =
        round-sends (keys s.server_map) s v b (keys-contained _ s.server_map v.members) in
      (
        called,
        All-map (SendsCopy s) (Carries s) _ (λ action copy. SendsCopy-Carries s action v copy)
            copies,
      )
