-- ===== src/Server/Blacklist.antt =====
-- What a broken connection means for a write: BreakConnection and PutKVServer of server/rpc.go.
use psk_db.Prelude.{
  String, Bool, true, ◌≡◌, ◌≢◌, refl, sym, ap, ◌∙◌, Option, none, some, List, [], ◌∷◌, arith, ◌==◌,
  eq_iff, eq_refl, Option-cases, Bool-cases, inl, inr, if◌then◌else◌, subst,
}
use psk_db.Dict.{Dict, lookup, insert, lookup-insert_same}
use psk_db.Common.{ConnectionRequest, PutKvServerRequest}
use psk_db.Server.State.{ServerInfo, Call, Action, sent, Server}
use psk_db.Server.Clock.{
  get_and_increment_lamport_timestamp, conditional_increment_lamport_timestamp,
}
use psk_db.Server.Connect.{Dial, get_rpc_connection, connect, send, broadcast}
use psk_db.Server.Store.{put_entry, put_kv_server}
use psk_db.Server.Links.{break_connection, disconnect}
use psk_db.Server.Invariant.MemberList.{Members, disconnect-Members}
use psk_db.Server.Invariant.Defs.{IsValid}

-- No call to the member `id`.
abbrev pub NotTo : String → List Action → Type 0
NotTo id [] = Unit
NotTo id (sent member c call ∷ actions) = (member ≢ id) × NotTo id actions
NotTo id (_ ∷ actions) = NotTo id actions

-- The member is not connected, and its address is blacklisted.
abbrev IsCut : String → Dict Bool → Option ServerInfo → Type 0
IsCut id blacklist none = Unit
IsCut id blacklist (some member) =
    (member.rpc_client ≡ none) × (lookup member.address blacklist ≡ some true)

module _ (dial : Dial) (blacklist : Dict Bool) (id : String) (call : Call) where
  send-NotTo :
      (member : ServerInfo) (later : List Action)
      → NotTo id later
      → member.id ≢ id
      → NotTo id (send call (connect dial blacklist member) later)
  unfolding connect
  send-NotTo member later n h = ground (arith, Option-cases member.rpc_client)

  send_cut-NotTo :
      (member : ServerInfo) (later : List Action)
      → NotTo id later
      → member.rpc_client ≡ none
      → lookup member.address blacklist ≡ some true
      → NotTo id (send call (connect dial blacklist member) later)
  unfolding connect get_rpc_connection
  send_cut-NotTo member later n h k = rw (connect, h, get_rpc_connection, k) n

  broadcast-NotTo :
      (own : String) (members : Dict ServerInfo)
      → Members own members
      → IsCut id blacklist (lookup id members)
      → NotTo id (broadcast dial blacklist call members).1
  unfolding broadcast lookup
  broadcast-NotTo own [] v c = tt
  broadcast-NotTo own ((i, m) ∷ members) v c = elim (Bool-cases (i == id)) [
    | inl e ↦
        let cut = subst (λ b. IsCut id blacklist (if b then some m else lookup id members)) e c in
        let gone : lookup id members ≡ none = ground (arith, eq_iff i id, v.2) in
        send_cut-NotTo m _
          (broadcast-NotTo own members v.3 (subst (IsCut id blacklist) (sym gone) tt)) cut.0 cut.1
    | inr e ↦
        let cut = subst (λ b. IsCut id blacklist (if b then some m else lookup id members)) e c in
        send-NotTo m _ (broadcast-NotTo own members v.3 cut)
          (ground (arith, eq_iff i id, eq_refl id, v.0))
  ]

pub lookup-disconnect :
    (id : String) (members : Dict ServerInfo) (member : ServerInfo)
    → lookup id members ≡ some member
    → lookup id (disconnect id members) ≡ some (record member { rpc_client = none })
lookup-disconnect id members member h = elim (Option-cases member.rpc_client) [
  | inl e ↦ rw (disconnect, h, e) (h ∙ ap (λ c. some (record member { rpc_client = c })) e)
  | inr (c, e) ↦ rw (disconnect, h, e) (lookup-insert_same id _ members)
]

-- BreakConnection leaves the member cut off.
break_connection-IsCut :
    (req : ConnectionRequest) (s : Server) (member : ServerInfo)
    → lookup req.id s.server_map ≡ some member
    → member.address ≡ req.address
    → IsCut req.id
        (break_connection req s).0.blacklist_map
        (lookup req.id (break_connection req s).0.server_map)
unfolding break_connection
break_connection-IsCut req s member h k =
    subst (IsCut req.id (insert req.address true s.blacklist_map))
      (sym (lookup-disconnect req.id s.server_map member h))
      (
        refl,
        ap (λ a. lookup a (insert req.address true s.blacklist_map)) k
            ∙ lookup-insert_same req.address true s.blacklist_map,
      )

pub put_entry-links :
    (req : PutKvServerRequest) (s : Server)
    → ((put_entry req s).1.server_map ≡ s.server_map)
      × ((put_entry req s).1.blacklist_map ≡ s.blacklist_map)
unfolding put_entry get_and_increment_lamport_timestamp conditional_increment_lamport_timestamp
put_entry-links req s = ground (arith, Option-cases (lookup req.key s.key_value_map))

-- At a well-formed server, after BreakConnection of a member under the address that the server has
-- for it, a put sends nothing to that member.
pub put_kv_server-NotTo :
    (dial : Dial) (req : ConnectionRequest) (put : PutKvServerRequest) (s : Server)
    (member : ServerInfo)
    → IsValid s
    → lookup req.id s.server_map ≡ some member
    → member.address ≡ req.address
    → NotTo req.id (put_kv_server dial put (break_connection req s).0).2
unfolding put_kv_server break_connection
put_kv_server-NotTo dial req put s member v h k =
    let broken = (break_connection req s).0 in
    let links = put_entry-links put broken in
    broadcast-NotTo _ _ req.id _ s.curr_server_info.id _
      (subst (Members s.curr_server_info.id) (sym links.0)
        (disconnect-Members _ req.id s.server_map v.members))
      (subst (λ (b : Dict Bool). IsCut req.id b (lookup req.id (put_entry put broken).1.server_map))
        (sym links.1)
        (subst (λ (m : Dict ServerInfo). IsCut req.id broken.blacklist_map (lookup req.id m))
          (sym links.0) (break_connection-IsCut req s member h k)))
