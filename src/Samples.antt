-- ===== src/Samples.antt =====
-- Sample servers, members and entries (server/structs.go) for the runs of the modules below.
pub mod Replicas
pub mod Members
pub mod Joining
pub mod Sessions
pub mod Partition
pub mod Delivery
pub mod Interleaving
pub mod Launching
pub mod Meshing
pub mod Networks
pub mod Console
pub mod Threads
pub mod Mutexes
pub mod Stores
use psk_db.Prelude.{ℕ, pos, String, none, some, List, [], ◌∷◌, refl, true, false}
use psk_db.Dict.{Dict, lookup}
use psk_db.Timestamp.{Timestamp}
use psk_db.Timestamp.Fraction.{signature}
use psk_db.Common.{Conn}
use psk_db.Server.State.{ServerInfo, KeyValueInfo, Server}
use psk_db.Server.Connect.{Dial}
use psk_db.Server.Invariant.Defs.{IsValid}

abbrev pub entry : String → String → Timestamp → KeyValueInfo
entry key value version = record { key = key; value = value; version = version }

abbrev pub member_of : String → String → ServerInfo
member_of id port_num = record {
  id = id;
  ip_address = "localhost";
  address = "localhost:9000";
  port_num = port_num;
  heartbeat_seqnum = pos 4;
  timestamp = 0;
  alive = true;
  suspicion = false;
  lamport_timestamp = pos 2_200_000;
  rpc_client = some 7;
}

-- Server 1, whose clock reads 5.1, with the member 2 and the key "x" at version 3.2.
abbrev pub server_one : Server
server_one = record {
  server_map = ("2", member_of "2" "9001") ∷ [];
  curr_server_info = record (member_of "1" "9000") { lamport_timestamp = pos 5_100_000 };
  blacklist_map = [];
  key_value_map = ("x", entry "x" "old" (pos 3_200_000)) ∷ [];
  write_log = [];
}

pub server_one-IsValid : IsValid server_one
unfolding lookup signature
server_one-IsValid = record {
  members = (refl, refl, refl, tt);
  entries = (refl, refl, tt);
  clock = refl;
}

-- Server 2, with the key "x" at version 4.2.
abbrev pub server_two : Server
server_two = record {
  server_map = ("1", member_of "1" "9000") ∷ [];
  curr_server_info = record (member_of "2" "9001") { lamport_timestamp = pos 6_200_000 };
  blacklist_map = [];
  key_value_map = ("x", entry "x" "new" (pos 4_200_000)) ∷ [];
  write_log = [];
}

pub server_two-IsValid : IsValid server_two
unfolding lookup signature
server_two-IsValid = record {
  members = (refl, refl, refl, tt);
  entries = (refl, refl, tt);
  clock = refl;
}

abbrev pub dials : Dial
dials address = some 1
