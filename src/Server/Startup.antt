-- ===== src/Server/Startup.antt =====
-- The start of a server (main of server/server.go): its own entry, and the attempts to join the
-- cluster at each port that it is given. The outcomes of the attempts are a parameter, a sequence.
pub mod Attempts
pub mod Joins
pub mod Main
pub mod Handshake
use Prim.Native.String.{◌++◌}
use psk_db.Prelude.{
  ℕ, zero, suc, ◌+◌, ℤ, pos, String, Bool, true, false, Option, none, some, List, [], ◌∷◌, leb,
  if◌then◌else◌,
}
use psk_db.Dict.{Dict, lookup, insert}
use psk_db.Timestamp.{Timestamp, get_lamport_timestamp_from_seqnum}
use psk_db.Common.{address_of}
use psk_db.Server.State.{Time, ServerInfo, new_server_info_heap, Server}

-- CONNECT_SERVER_NUM_RETRIES
abbrev pub num_retries : ℕ
num_retries = 3

-- currServerInfo and the empty maps; `none` is the panic on a non-integer id.
unfoldable pub start : String → String → Time → Option Server
start id port_num now = elim (get_lamport_timestamp_from_seqnum (pos 1) id) [
  | none ↦ none
  | some lamport_timestamp ↦ some (record {
    server_map = [];
    curr_server_info = record {
      id = id;
      ip_address = "localhost";
      address = address_of "localhost" port_num;
      port_num = port_num;
      heartbeat_seqnum = pos 1;
      timestamp = now;
      alive = true;
      suspicion = false;
      lamport_timestamp = lamport_timestamp;
      rpc_client = none;
    };
    blacklist_map = [];
    key_value_map = [];
    write_log = [];
  })
]

-- The loop over ServerInfoList of the reply.
unfoldable pub add_members : Time → List ServerInfo → Server → Server
add_members now [] s = s
add_members now (info ∷ list) s = elim (lookup info.id s.server_map) [
  | some _ ↦ add_members now list s
  | none ↦
      add_members now list
        (record s { server_map = insert info.id (new_server_info_heap now info) s.server_map })
]

-- How one attempt at a port ends: `rpc.Dial` fails, the call fails, or it is answered.
pub data Attempt : Type 0 where
  not_dialed : Attempt
  call_failed : Attempt
  joined : List ServerInfo → Attempt

-- The loop `for retries < CONNECT_SERVER_NUM_RETRIES` from the attempt `k` on, with whether it
-- connected; `none` means that the fuel ran out.
unfoldable pub join_port : Time → (ℕ → Attempt) → ℕ → ℕ → ℕ → Server → Option (Server × Bool)
unfolding add_members
join_port now attempts zero k retries s = none
join_port now attempts (suc fuel) k retries s =
    let again = join_port now attempts fuel (k + 1) retries s in
    let retried = join_port now attempts fuel (k + 1) (retries + 1) s in
    if leb num_retries retries then some (s, false) else elim (attempts k) [
      | not_dialed ↦ again
      | call_failed ↦ retried
      | joined list ↦ some (add_members now list s, true)
    ]

-- The loop over the given ports, from the one at `i` on, with whether it connected at each: the
-- attempts at an address, on the `i`th way through the loop, are `attempts i address`.
unfoldable pub join_ports :
    Time → (ℕ → String → ℕ → Attempt) → ℕ → List String → ℕ → Server → Option (Server × List Bool)
unfolding join_port
join_ports now attempts fuel [] i s = some (s, [])
join_ports now attempts fuel (port ∷ ports) i s =
    elim (join_port now (attempts i ("localhost:" ++ port)) fuel 0 0 s) [
      | none ↦ none
      | some (s', connected) ↦ elim (join_ports now attempts fuel ports (i + 1) s') [
        | none ↦ none
        | some (s'', others) ↦ some (s'', connected ∷ others)
      ]
    ]
