-- ===== src/Samples/Joining.antt =====
-- Sample runs of the start of a server (server/server.go).
use psk_db.Prelude.{
  String, ℕ, zero, suc, pos, true, false, ◌+ℤ◌, none, some, [], ◌∷◌, refl, arith, ◌≡◌,
}
use psk_db.Timestamp.{get_lamport_timestamp_from_seqnum}
use psk_db.Server.State.{Server}
use psk_db.Server.Startup.{
  start, add_members, Attempt, not_dialed, call_failed, joined, join_port, join_ports,
}
use psk_db.Server.Startup.Attempts.{join_port_spins}
use psk_db.Samples.{member_of, server_one}

abbrev pub started : Server
started = record {
  server_map = [];
  curr_server_info = record {
    id = "1";
    ip_address = "localhost";
    address = "localhost:9000";
    port_num = "9000";
    heartbeat_seqnum = pos 1;
    timestamp = 9;
    alive = true;
    suspicion = false;
    lamport_timestamp = pos 1_100_000;
    rpc_client = none;
  };
  blacklist_map = [];
  key_value_map = [];
  write_log = [];
}

pub start-started : start "1" "9000" 9 ≡ some started
unfolding start get_lamport_timestamp_from_seqnum ◌+ℤ◌
start-started = refl

join_port_spins_example : join_port 9 (λ i. not_dialed) 50 0 0 server_one ≡ none
join_port_spins_example =
    join_port_spins 9 (λ i. not_dialed) 50 0 0 server_one (λ i. refl) (omega arith)

-- One port, at which the second attempt is answered.
abbrev attempts : ℕ → String → ℕ → Attempt
attempts j address zero = call_failed
attempts j address (suc k) = joined (member_of "2" "9001" ∷ [])

join_ports-started :
    join_ports 9 attempts 4 ("9001" ∷ []) 0 started
    ≡ some (add_members 9 (member_of "2" "9001" ∷ []) started, true ∷ [])
unfolding join_ports join_port
join_ports-started = refl
