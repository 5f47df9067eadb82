-- ===== src/Master/Links.antt =====
-- breakConnection and createConnection of master.go.
use psk_db.Prelude.{String, Bool, not, ◌&&◌, ◌||◌, [], ◌∷◌, if◌then◌else◌}
use psk_db.Dict.{contains}
use psk_db.Common.{ConnectionRequest}
use psk_db.Master.State.{
  Master, local_address, Call, break_server, create_server, break_client, create_client, called,
  warned, Outcome, next, panicked,
}
use psk_db.Master.Nodes.{port_of}

-- What breakConnection and createConnection call, at a server and at a client.
pub record Link : Type 0 where
  pub at_server : ConnectionRequest → Call
  pub at_client : ConnectionRequest → Call

abbrev pub break_link : Link
break_link = record { at_server = break_server; at_client = break_client }

abbrev pub create_link : Link
create_link = record { at_server = create_server; at_client = create_client }

-- The branch for two servers: each is told of the other. A nil client panics at its first call.
unfoldable pub link_servers : Link → (String → Bool) → String → String → Master → Outcome
link_servers link reachable node_id1 node_id2 m =
    let address1 = local_address (port_of node_id1 m.server_node_map) in
    let address2 = local_address (port_of node_id2 m.server_node_map) in
    let first = called address1 (link.at_server (record { id = node_id2; address = address2 })) in
    let second = called address2 (link.at_server (record { id = node_id1; address = address1 })) in
    if reachable address1
    then (if reachable address2 then next m (first ∷ second ∷ []) else panicked (first ∷ []))
    else panicked []

-- The branch for a server and a client: the client is told of the server.
unfoldable pub link_client : Link → (String → Bool) → String → String → Master → Outcome
link_client link reachable server_id client_id m =
    let client_address = local_address (port_of client_id m.client_node_map) in
    let server_address = local_address (port_of server_id m.server_node_map) in
    if reachable client_address
    then next m (
        called client_address (link.at_client (record { id = server_id; address = server_address }))
        ∷ [])
    else panicked []

-- breakConnection and createConnection
unfoldable pub connection : Link → (String → Bool) → String → String → Master → Outcome
connection link reachable node_id1 node_id2 m =
    let ok_1 = contains node_id1 m.server_node_map in
    let ok_2 = contains node_id1 m.client_node_map in
    let ok_3 = contains node_id2 m.server_node_map in
    let ok_4 = contains node_id2 m.client_node_map in
    if not (ok_1 || ok_2)
    then next m (warned ∷ [])
    else if not (ok_3 || ok_4)
    then next m (warned ∷ [])
    else if ok_2 && ok_4
    then next m (warned ∷ [])
    else if ok_1 && ok_3
    then link_servers link reachable node_id1 node_id2 m
    else if ok_2 && ok_3
    then link_client link reachable node_id2 node_id1 m
    else link_client link reachable node_id1 node_id2 m
