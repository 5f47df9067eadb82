-- ===== src/Client/Main.antt =====
-- main of client/client.go, from the arguments to the listener, and clientInfo (client/structs.go).
use Prim.Native.String.{◌++◌}
use psk_db.Prelude.{String, List, ◌∷◌, none, some}
use psk_db.Common.{address_of}
use psk_db.Common.Listening.{Net, Started, panicked, no_log, serve}
use psk_db.Client.{Client, start}

-- clientInfo, but for its map, which is in the state.
pub record ClientInfo : Type 0 where
  pub id : String
  pub ip_address : String
  pub port_num : String
  pub address : String
  pub state : Client

abbrev pub client_info : String → String → Client → ClientInfo
client_info id port_num state = record {
  id = id;
  ip_address = "localhost";
  port_num = port_num;
  address = "localhost:" ++ port_num;
  state = state;
}

-- main, with os.Args without the name of the program.
unfoldable pub main :
    {Addr Inbound : Type 0} → Net Addr Inbound → List String → Started ClientInfo Inbound
unfolding start serve
main net (id ∷ port_num ∷ server_id ∷ server_address ∷ more) =
    elim (start (id ∷ port_num ∷ server_id ∷ server_address ∷ more)) [
      | none ↦ panicked no_log
      | some state ↦ serve net (address_of "localhost" port_num) (client_info id port_num state)
    ]
main net _ = panicked no_log

-- PingClient
abbrev pub ping_client : ClientInfo → ClientInfo
ping_client c = c
