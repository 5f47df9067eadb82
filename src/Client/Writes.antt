-- ===== src/Client/Writes.antt =====
-- Read your writes (README.md): what the client of client/client.go has seen after a write, and what
-- its reads can return from then on.
use psk_db.Prelude.{
  String, ◌≡◌, ◌≢◌, refl, ◌∙◌, Option, none, some, List, [], ◌∷◌, All, arith, ◌≤ℤ◌, ≤ℤ_refl,
  ≤ℤ_trans, eq_refl,
}
use psk_db.Dict.{Dict}
use psk_db.Common.{
  Conn, err_shutdown, PutKvClientRequest, PutKvServerRequest, PutKvServerReply, GetKvServerRequest,
  GetKvServerReply,
}
use psk_db.Server.State.{Server}
use psk_db.Server.Connect.{Dial}
use psk_db.Server.Store.{put_entry, put_kv_server}
use psk_db.Server.Store.Replies.{key-put_entry}
use psk_db.Server.Invariant.Defs.{IsValid}
use psk_db.Client.{
  ServerInfo, Client, Answer, replied, failed, seen_version, put_request, zero_put, finish_put,
  put_kv_client, get_kv_client, done,
}
use psk_db.Client.Session.{
  Serves, IsError, first_reply-source, seen_version-insert, seen_version-get_kv_client,
  get_kv_client-newer,
}

-- Servers as the client meets them when it writes: each call is answered by PutKVServer of a
-- well-formed server, or fails with an error of net/rpc.
pub record Accepts (call : String → PutKvServerRequest → Answer PutKvServerReply) : Type 0 where
  pub server : String → Server
  pub dial : Dial
  pub well_formed : (sid : String) → IsValid (server sid)
  pub answers :
      (sid : String) (req : PutKvServerRequest) (reply : PutKvServerReply)
      → call sid req ≡ replied reply
      → reply ≡ (put_kv_server dial req (server sid)).1
  pub up : (sid : String) (req : PutKvServerRequest) → call sid req ≢ failed err_shutdown

module _ (dial : String → Option Conn)
    (call : String → PutKvServerRequest → Answer PutKvServerReply) (accepts : Accepts call)
    (req : PutKvClientRequest) (c : Client) where
  abbrev Stored : Client → Type 0
  Stored c' =
      (sid : String) × (seen_version req.key c'.key_version_info
        ≡ (put_entry (put_request req c) (accepts.server sid)).0.version)

  finish_put-seen :
      (tried : Dict ServerInfo × Option PutKvServerReply)
      → ((reply : PutKvServerReply)
          → tried.1 ≡ some reply
          → (sid : String) × (call sid (put_request req c) ≡ replied reply))
      → (finish_put c tried).1 ≡ done
      → Stored (finish_put c tried).0
  unfolding put_kv_server
  finish_put-seen (servers, none) source h = absurd (ground arith)
  finish_put-seen (servers, some reply) source h =
      let (sid, e) = source reply refl in
      let same = accepts.answers sid (put_request req c) reply e in
      (
        sid,
        seen_version-insert reply.key req.key reply.version c.key_version_info
            ∙ rw (
              same,
              key-put_entry (put_request req c) (accepts.server sid) (accepts.well_formed sid),
              eq_refl req.key,
            ),
      )

  -- If each call is answered by PutKVServer of a well-formed server or fails with an error of
  -- net/rpc, a write that the client reports as done leaves the client with the version under which
  -- one of the servers stores it as the version that it has seen of the key.
  pub put_kv_client-seen :
      (put_kv_client dial call req c).1 ≡ done
      → (sid : String) × (seen_version req.key (put_kv_client dial call req c).0.key_version_info
          ≡ (put_entry (put_request req c) (accepts.server sid)).0.version)
  unfolding put_kv_client
  put_kv_client-seen h =
      finish_put-seen _
        (λ reply e.
          first_reply-source dial (λ sid. call sid (put_request req c)) zero_put c.serv_map reply
            (λ sid. accepts.up sid (put_request req c)) e)
        h

-- A read, with what it meets.
pub record Read : Type 0 where
  pub key : String
  pub dial : String → Option Conn
  pub call : String → GetKvServerRequest → Answer GetKvServerReply

unfoldable pub reads : List Read → Client → Client
reads [] c = c
reads (r ∷ rs) c = reads rs (get_kv_client r.dial r.call r.key c).0

pub seen_version-reads :
    (rs : List Read) (c : Client) (j : String)
    → All (λ (r : Read). Serves r.call) rs
    → seen_version j c.key_version_info ≤ℤ seen_version j (reads rs c).key_version_info
unfolding reads
seen_version-reads [] c j s = ≤ℤ_refl (seen_version j c.key_version_info)
seen_version-reads (r ∷ rs) c j s =
    ≤ℤ_trans (seen_version j c.key_version_info)
      (seen_version j (get_kv_client r.dial r.call r.key c).0.key_version_info)
      (seen_version j (reads (r ∷ rs) c).key_version_info)
      (seen_version-get_kv_client r.dial r.call s.0 c r.key j)
      (seen_version-reads rs (get_kv_client r.dial r.call r.key c).0 j s.1)

-- After a write that is reported as done, stored by well-formed servers, and any reads, a read of
-- the key, each of whose calls is answered by a well-formed server or fails with an error of
-- net/rpc, returns an error text or a version that is at least the one under which the write was
-- stored.
pub read_your_writes :
    (dial : String → Option Conn) (call : String → PutKvServerRequest → Answer PutKvServerReply)
    (accepts : Accepts call) (req : PutKvClientRequest) (c : Client) (rs : List Read) (last : Read)
    (reply : GetKvServerReply)
    → (put_kv_client dial call req c).1 ≡ done
    → All (λ (r : Read). Serves r.call) rs
    → Serves last.call
    → (get_kv_client last.dial last.call req.key (reads rs (put_kv_client dial call req c).0)).1
      ≡ some reply
    → ¬ IsError reply
    → (sid : String) × ((put_entry (put_request req c) (accepts.server sid)).0.version
        ≤ℤ reply.version)
read_your_writes dial call accepts req c rs last reply h serves served e ok =
    let (sid, seen) = put_kv_client-seen dial call accepts req c h in
    let written = (put_kv_client dial call req c).0 in
    (
      sid,
      rw (← seen) (
          ≤ℤ_trans (seen_version req.key written.key_version_info)
            (seen_version req.key (reads rs written).key_version_info) reply.version
            (seen_version-reads rs written req.key serves)
            (get_kv_client-newer last.dial last.call served (reads rs written) req.key reply e
              ok).0),
    )
