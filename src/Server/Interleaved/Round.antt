-- ===== src/Server/Interleaved/Round.antt =====
-- A round of startHeartbeats of server/server.go with what other handlers do in it: after the clock and
-- the sequence number have moved, none of the mutexes is held; from the check of the members on,
-- that of the membership list is.
pub mod Own
pub mod Beats
use psk_db.Prelude.{ℕ, ◌+ℤ◌, Option, none, some, List, [], ◌∷◌, length}
use psk_db.Timestamp.{one}
use psk_db.Server.State.{
  Time, ServerInfo, heartbeat_notification as heartbeat_notification_call, Call, Action, Server,
}
use psk_db.Server.Connect.{Dial}
use psk_db.Server.Membership.{values}
use psk_db.Server.Heartbeat.{increment, check_members, recipients, gossip, finish_round}
use psk_db.Server.Step.{Event, run}

-- The clock and the sequence number.
abbrev pub beat_tick : Server → Server
beat_tick s = record s {
  curr_server_info = record s.curr_server_info {
    heartbeat_seqnum = increment s.curr_server_info.heartbeat_seqnum;
    lamport_timestamp = s.curr_server_info.lamport_timestamp +ℤ one;
  };
}

-- The search for members that have timed out.
abbrev pub beat_check : Time → Server → Server
beat_check now s = record s { server_map = check_members now s.server_map }

-- hearbeat_req
abbrev pub beat_call : Server → Call
beat_call s = heartbeat_notification_call (record {
  id = s.curr_server_info.id;
  server_info_list = s.curr_server_info ∷ values s.server_map;
})

-- The heartbeats.
unfoldable pub beat_send : Dial → (ℕ → List ℕ) → Server → Option (Server × List Action)
unfolding gossip recipients
beat_send dial perm s = finish_round s.curr_server_info s (
    gossip dial s.blacklist_map (beat_call s) (recipients perm (length s.server_map)) 0 0
      s.server_map)

-- The round, with the events `free` before the mutex of the membership list is locked and `held`
-- between the check of the members and the request.
unfoldable pub interleaved_round :
    Dial → Time → (ℕ → List ℕ) → List Event → List Event → Server → Option (Server × List Action)
unfolding beat_send
interleaved_round dial now perm free held s = elim (run free (beat_tick s)) [
  | none ↦ none
  | some t ↦ elim (run held (beat_check now t)) [ none ↦ none | some u ↦ beat_send dial perm u ]
]
