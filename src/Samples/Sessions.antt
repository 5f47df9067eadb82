-- ===== src/Samples/Sessions.antt =====
-- Sample runs of the client (client/) against servers of server/.
use psk_db.Prelude.{
  pos, String, none, some, [], ◌∷◌, refl, arith, inl, inr, eq_iff, ◌≡◌, ◌≤ℤ◌, ◌+ℤ◌, ◌-ℤ◌,
}
use psk_db.Dict.{lookup, insert}
use psk_db.Common.{
  err_shutdown, net_rpc, PutKvClientRequest, PutKvServerRequest, PutKvServerReply,
  GetKvServerRequest, GetKvServerReply,
}
use psk_db.Server.Clock.{conditional_increment}
use psk_db.Server.State.{Server}
use psk_db.Server.Store.{put_entry, put_kv_server, get_kv_server}
use psk_db.Server.Invariant.Calls.{put_kv_server-IsValid}
use psk_db.Client.{
  Client, Answer, replied, failed, first_reply, seen_version, put_request, put_kv_client, done,
  unable_to_dial, get_kv_client,
}
use psk_db.Client.Session.{Serves, IsError, get_kv_client-newer}
use psk_db.Client.Failures.{put_kv_client_stuck}
use psk_db.Client.Writes.{Accepts, Read, reads, read_your_writes}
use psk_db.Samples.{server_one, server_one-IsValid, dials}

-- The client knows of server 1 only, and has seen "x" at version 2.2.
abbrev client_one : Client
client_one = record {
  serv_map = ("1", record { id = "1"; address = "localhost:9000"; rpc_client = none }) ∷ [];
  key_version_info = ("x", pos 2_200_000) ∷ [];
}

replied_injective : {R : Type 0} {a b : R} → replied a ≡ replied b → b ≡ a
replied_injective h = cc

failed-replied : {R : Type 0} {a : R} → replied a ≡ failed err_shutdown → ⊥
failed-replied h = cc

abbrev gets : String → GetKvServerRequest → Answer GetKvServerReply
gets sid req = replied (get_kv_server req server_one).1

abbrev gets_served : Serves gets
gets_served = record {
  server = λ sid. server_one;
  well_formed = λ sid. server_one-IsValid;
  answers = λ sid req reply h. replied_injective h;
  up = λ sid req h. failed-replied h;
}

abbrev found : GetKvServerReply
found = record { key = "x"; value = "old"; version = pos 3_200_000 }

get_kv_client-found : (get_kv_client dials gets "x" client_one).1 ≡ some found
unfolding get_kv_client first_reply get_kv_server lookup
get_kv_client-found = refl

not-IsError-found : ¬ IsError found
not-IsError-found (inl e) = absurd (ground (arith, (eq_iff "old" "ERR_KEY").1 e))
not-IsError-found (inr e) = absurd (ground (arith, (eq_iff "old" "ERR_DEP").1 e))

get_kv_client-newer_example :
    (seen_version "x" client_one.key_version_info ≤ℤ pos 3_200_000)
    × (seen_version "x" (get_kv_client dials gets "x" client_one).0.key_version_info
        ≡ pos 3_200_000)
get_kv_client-newer_example =
    get_kv_client-newer dials gets gets_served client_one "x" found get_kv_client-found
      not-IsError-found

abbrev puts : String → PutKvServerRequest → Answer PutKvServerReply
puts sid req = replied (put_kv_server dials req server_one).1

abbrev puts_accepted : Accepts puts
puts_accepted = record {
  server = λ sid. server_one;
  dial = dials;
  well_formed = λ sid. server_one-IsValid;
  answers = λ sid req reply h. replied_injective h;
  up = λ sid req h. failed-replied h;
}

abbrev write : PutKvClientRequest
write = record { key = "x"; value = "mine" }

put_kv_client-done : (put_kv_client dials puts write client_one).1 ≡ done
unfolding put_kv_client first_reply
put_kv_client-done = refl

-- The server after that write.
abbrev written : Server
written = (put_kv_server dials (put_request write client_one) server_one).0

abbrev gets_written : String → GetKvServerRequest → Answer GetKvServerReply
gets_written sid req = replied (get_kv_server req written).1

abbrev gets_written_served : Serves gets_written
gets_written_served = record {
  server = λ sid. written;
  well_formed = λ sid.
      put_kv_server-IsValid dials (put_request write client_one) server_one server_one-IsValid;
  answers = λ sid req reply h. replied_injective h;
  up = λ sid req h. failed-replied h;
}

-- A read that meets a server without the write, then one that meets the server with it.
abbrev stale_read : Read
stale_read = record { key = "x"; dial = dials; call = gets }

abbrev last_read : Read
last_read = record { key = "x"; dial = dials; call = gets_written }

abbrev mine : GetKvServerReply
mine = record { key = "x"; value = "mine"; version = pos 6_100_000 }

last_read-mine :
    (get_kv_client dials gets_written "x"
      (reads (stale_read ∷ []) (put_kv_client dials puts write client_one).0)).1
    ≡ some mine
unfolding get_kv_client first_reply get_kv_server put_kv_client put_kv_server put_entry
    conditional_increment lookup insert reads ◌+ℤ◌ ◌-ℤ◌
last_read-mine = refl

not-IsError-mine : ¬ IsError mine
not-IsError-mine (inl e) = absurd (ground (arith, (eq_iff "mine" "ERR_KEY").1 e))
not-IsError-mine (inr e) = absurd (ground (arith, (eq_iff "mine" "ERR_DEP").1 e))

read_your_writes_example :
    (sid : String) × ((put_entry (put_request write client_one) server_one).0.version
      ≤ℤ pos 6_100_000)
read_your_writes_example =
    read_your_writes dials puts puts_accepted write client_one (stale_read ∷ []) last_read mine
      put_kv_client-done (gets_served, tt) gets_written_served last_read-mine not-IsError-mine

-- The client's only handle is to a connection that was closed.
abbrev client_two : Client
client_two = record client_one {
  serv_map = ("1", record { id = "1"; address = "localhost:9000"; rpc_client = some 3 }) ∷ [];
}

abbrev shut_down : String → PutKvServerRequest → Answer PutKvServerReply
shut_down sid req = failed (net_rpc "connection is shut down")

put_kv_client_stuck_example :
    put_kv_client dials shut_down write client_two ≡ (client_two, unable_to_dial)
put_kv_client_stuck_example =
    put_kv_client_stuck dials shut_down write client_two ((3, refl), tt)
      (λ sid. ("connection is shut down", refl))
