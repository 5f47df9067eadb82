-- ===== src/Master/Launch/Serving.antt =====
-- That the processes that master.go starts answer where it dials them (main of server/server.go and
-- of client/client.go).
use psk_db.Prelude.{
  ℕ, ◌<◌, pos, String, ◌≡◌, ◌≢◌, refl, sym, ap, ◌∙◌, subst, some, List, [], ◌∷◌, All, map, arith,
  inl, inr, Option-cases,
}
use psk_db.Dict.{lookup}
use psk_db.Timestamp.{Timestamp, get_lamport_timestamp_from_seqnum}
use psk_db.Common.{address_of}
use psk_db.Common.Listening.{Net, serving, serve}
use psk_db.Server.State.{Time, ServerInfo, Server}
use psk_db.Server.Membership.{values}
use psk_db.Server.Startup.{num_retries, Attempt, not_dialed, start, join_ports}
use psk_db.Server.Startup.Attempts.{join_ports_ends}
use psk_db.Server.Startup.Joins.{OmitsOwn, start-IsValid, join_ports-IsValid}
use psk_db.Server.Startup.Main.{main}
use psk_db.Server.Invariant.Defs.{IsValid}
use psk_db.Client.{Client, new_server_info_heap, start as start_client}
use psk_db.Client.Main.{ClientInfo, client_info, main as client_main}
use psk_db.Master.State.{Master, itoa, local_address}
use psk_db.Master.Nodes.{World, join_server, join_client}
use psk_db.Master.Launch.{
  some-injective, local_address-itoa, address_of-itoa, started_server, started_client,
  started_server-join_server, started_client-join_client, ports-dialed,
}

serve-serving :
    {Addr Inbound State : Type 0} (net : Net Addr Inbound) (address : String) (s : State)
    (addr : Addr) (inbound : Inbound)
    → net.resolve address ≡ some addr
    → net.listen addr ≡ some inbound
    → serve net address s ≡ serving s inbound
unfolding serve
serve-serving net address s addr inbound r l = rw (serve, r, l) refl

-- What a server that starts says of itself.
start-own :
    (id port_num : String) (now : Time) (s : Server)
    → start id port_num now ≡ some s
    → (s.curr_server_info.id ≡ id)
      × (s.curr_server_info.address ≡ address_of "localhost" port_num)
      × (address_of s.curr_server_info.ip_address s.curr_server_info.port_num
          ≡ address_of "localhost" port_num)
unfolding start
start-own id port_num now s h = elim (Option-cases (get_lamport_timestamp_from_seqnum (pos 1) id)) [
  | inl e ↦ absurd (ground (arith, e, h))
  | inr (t, e) ↦
      let own = sym (some-injective (rw (start, e) at h)) in
      (
        ap (λ (x : Server). x.curr_server_info.id) own,
        ap (λ (x : Server). x.curr_server_info.address) own,
        ap (λ (x : Server). address_of x.curr_server_info.ip_address x.curr_server_info.port_num)
            own,
      )
]

-- Let joinServer start a process, under an id that is a number. If every attempt to dial a server
-- of the list of the master succeeds, no reply lists the new server, and the address that the
-- master has given out can be resolved and listened at, then main of the server, with fuel for one
-- round more than there are retries, comes to answer at that listener, as a well-formed server with
-- that id and address.
pub server_serves :
    {Addr Inbound : Type 0} (net : Net Addr Inbound) (now : Time)
    (attempts : ℕ → String → ℕ → Attempt) (fuel : ℕ) (w : World) (node_id : String) (m : Master)
    (args : List String) (t : Timestamp) (addr : Addr) (inbound : Inbound)
    → started_server (join_server w node_id m) ≡ some args
    → get_lamport_timestamp_from_seqnum (pos 1) node_id ≡ some t
    → All
        (λ port. (j k : ℕ) → attempts j (local_address port) k ≢ not_dialed)
        (values m.server_node_map)
    → ((j : ℕ) (address : String) (k : ℕ) → OmitsOwn node_id (attempts j address k))
    → num_retries < fuel
    → net.resolve (local_address m.server_next_port) ≡ some addr
    → net.listen addr ≡ some inbound
    → (s : Server) × (main net now attempts fuel args ≡ serving s inbound)
      × IsValid s
      × (s.curr_server_info.id ≡ node_id)
      × (s.curr_server_info.address ≡ local_address m.server_next_port)
unfolding main start
server_serves net now attempts fuel w node_id m args t addr inbound h id dialed omits f resolved
      bound =
    let port = itoa m.server_next_port in
    let ports = map itoa (values m.server_node_map) in
    elim (Option-cases (start node_id port now)) [
      | inl e ↦ absurd (ground (arith, e, id))
      | inr (s, e) ↦ elim (Option-cases (join_ports now attempts fuel ports 0 s)) [
        | inl n ↦
            absurd
              (join_ports_ends now attempts fuel ports 0 s (ports-dialed attempts _ dialed) f n)
        | inr ((s', connected), n) ↦
            let own = start-own node_id port now s e in
            let (valid, info) =
              join_ports-IsValid now attempts fuel ports 0 s s' connected
                (λ j a k. subst (λ i. OmitsOwn i (attempts j a k)) (sym own.0) (omits j a k))
                (start-IsValid node_id port now s e) n in
            let here = address_of-itoa m.server_next_port in
            let dialed_address =
              ap (λ (i : ServerInfo). address_of i.ip_address i.port_num) info ∙ own.2 ∙ here in
            (
              s',
              ap (main net now attempts fuel) (started_server-join_server w node_id m args h)
                  ∙ rw (main, e, n)
                      (serve-serving net _ s' addr inbound
                        (ap net.resolve dialed_address ∙ resolved) bound),
              valid,
              ap (λ (i : ServerInfo). i.id) info ∙ own.0,
              ap (λ (i : ServerInfo). i.address) info ∙ own.1 ∙ here,
            )
      ]
    ]

-- Let joinClient start a process. If the address that the master has given out can be resolved and
-- listened at, then main of the client comes to answer at that listener, with its id and that
-- address, and its only server is the given one, at the address where the master has it.
pub client_serves :
    {Addr Inbound : Type 0} (net : Net Addr Inbound) (w : World)
    (client_node_id server_node_id : String) (m : Master) (args : List String) (addr : Addr)
    (inbound : Inbound)
    → started_client (join_client w client_node_id server_node_id m) ≡ some args
    → net.resolve (local_address m.client_next_port) ≡ some addr
    → net.listen addr ≡ some inbound
    → (c : ClientInfo) × (client_main net args ≡ serving c inbound)
      × (c.id ≡ client_node_id)
      × (c.address ≡ local_address m.client_next_port)
      × (server_port : ℕ) × (lookup server_node_id m.server_node_map ≡ some server_port)
      × (c.state.serv_map
          ≡ (server_node_id, new_server_info_heap server_node_id (local_address server_port)) ∷ [])
unfolding client_main start_client
client_serves net w client_node_id server_node_id m args addr inbound h resolved bound =
    let (port, found, same) = started_client-join_client w client_node_id server_node_id m args h in
    let state : Client = record {
      serv_map = (server_node_id, new_server_info_heap server_node_id (local_address port)) ∷ [];
      key_version_info = [];
    } in
    let c = client_info client_node_id (itoa m.client_next_port) state in
    (
      c,
      ap (client_main net) same
          ∙ serve-serving net _ c addr inbound
              (ap net.resolve (address_of-itoa m.client_next_port) ∙ resolved) bound,
      refl,
      local_address-itoa m.client_next_port,
      port,
      found,
      refl,
    )
