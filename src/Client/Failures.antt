-- ===== src/Client/Failures.antt =====
-- What the handlers of client/client.go do while every call fails.
use psk_db.Prelude.{String, ◌≡◌, refl, ap, Option, none, some, [], ◌∷◌, arith}
use psk_db.Dict.{Dict}
use psk_db.Common.{Conn, net_rpc, PutKvClientRequest, PutKvServerRequest, PutKvServerReply}
use psk_db.Client.{
  ServerInfo, Client, Answer, failed, first_reply, put_request, put_kv_client, zero_put,
  unable_to_dial, finish_put,
}

-- The client has a handle to each of its servers.
abbrev pub AllDialed : Dict ServerInfo → Type 0
AllDialed [] = Unit
AllDialed ((sid, info) ∷ servers) = ((c : Conn) × (info.rpc_client ≡ some c)) × AllDialed servers

first_reply_fails {ℓ} :
    {R : Type ℓ} (dial : String → Option Conn) (call : String → Answer R) (zero_reply : R)
    (servers : Dict ServerInfo)
    → AllDialed servers
    → ((sid : String) → (text : String) × (call sid ≡ failed (net_rpc text)))
    → first_reply dial call zero_reply servers ≡ (servers, none)
unfolding first_reply
first_reply_fails dial call zero_reply [] d f = refl
first_reply_fails dial call zero_reply ((sid, info) ∷ servers) d f =
    let (c, e) = d.0 in
    let (text, g) = f sid in
    ground (arith, e, g, first_reply_fails dial call zero_reply servers d.1 f)

-- A client that has a handle to each server, and meets an error of net/rpc at each, reports that it
-- cannot dial, and keeps all handles, so the next put meets the same closed connections: whatever a
-- new dial would bring.
pub put_kv_client_stuck :
    (dial : String → Option Conn) (call : String → PutKvServerRequest → Answer PutKvServerReply)
    (req : PutKvClientRequest) (c : Client)
    → AllDialed c.serv_map
    → ((sid : String) → (text : String) × (call sid (put_request req c) ≡ failed (net_rpc text)))
    → put_kv_client dial call req c ≡ (c, unable_to_dial)
unfolding put_kv_client
put_kv_client_stuck dial call req c d f =
    ap (finish_put c)
      (first_reply_fails dial (λ sid. call sid (put_request req c)) zero_put c.serv_map d f)
