-- ===== src/Server/Clock.antt =====
-- The Lamport clock of a server: the functions of server/server.go that read and move it.
pub mod Order
pub mod Receipt
use psk_db.Prelude.{pos, ltb_ℤ, ◌+ℤ◌, ◌-ℤ◌, if◌then◌else◌}
use psk_db.Timestamp.{Timestamp, one, ceil}
use psk_db.Server.State.{Server}

-- GetLamportTimestamp
abbrev pub get_lamport_timestamp : Server → Timestamp
get_lamport_timestamp s = s.curr_server_info.lamport_timestamp

abbrev pub set_lamport_timestamp : Timestamp → Server → Server
set_lamport_timestamp t s = record s {
  curr_server_info = record s.curr_server_info { lamport_timestamp = t };
}

-- GetAndIncrementLamportTimestamp
unfoldable pub get_and_increment_lamport_timestamp : Server → Timestamp × Server
get_and_increment_lamport_timestamp s =
    let curr_lamport_time = s.curr_server_info.lamport_timestamp in
    (curr_lamport_time, set_lamport_timestamp (curr_lamport_time +ℤ one) s)

-- What ConditionalIncrementLamportTimestamp makes of a clock reading.
unfoldable pub conditional_increment : Timestamp → Timestamp → Timestamp
conditional_increment timestamp_pivot clock =
    let difference = clock +ℤ one -ℤ timestamp_pivot in
    if ltb_ℤ (pos 0) difference then clock +ℤ one else clock +ℤ (one +ℤ ceil difference)

-- ConditionalIncrementLamportTimestamp
unfoldable pub conditional_increment_lamport_timestamp : Timestamp → Server → Timestamp × Server
conditional_increment_lamport_timestamp timestamp_pivot s =
    let clock = conditional_increment timestamp_pivot s.curr_server_info.lamport_timestamp in
    (clock, set_lamport_timestamp clock s)
