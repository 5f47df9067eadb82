-- ===== src/Client/Session.antt =====
-- The session guarantees of README.md at the client of client/client.go.
use psk_db.Prelude.{
  subst, String, not, ◌&&◌, true, ◌≡◌, ◌≢◌, refl, Option, none, some, [], ◌∷◌, arith, ◌⊎◌, inl, inr,
  ◌≤ℤ◌, ≤ℤ_refl, eq_iff, eq_refl, ◌==◌, Option-cases, Bool-cases, if◌then◌else◌, if_rule,
}
use psk_db.Dict.{Dict, insert, lookup-insert}
use psk_db.Timestamp.{Timestamp}
use psk_db.Common.{Conn, err_shutdown, net_rpc, GetKvServerRequest, GetKvServerReply}
use psk_db.Server.State.{Server}
use psk_db.Server.Store.{get_kv_server}
use psk_db.Server.Store.Replies.{IsFresh, get_kv_server-IsFresh}
use psk_db.Server.Invariant.Defs.{IsValid}
use psk_db.Client.{
  ServerInfo, Client, Answer, replied, failed, connect, first_reply, seen_version, get_request,
  zero_get, finish_get, record_read, get_kv_client,
}

answer-cases {ℓ} :
    {R : Type ℓ} (a : Answer R)
    → ((r : R) × (a ≡ replied r))
      ⊎ (a ≡ failed err_shutdown)
      ⊎ ((text : String) × (a ≡ failed (net_rpc text)))
answer-cases (replied r) = inl (r, refl)
answer-cases (failed err_shutdown) = inr (inl refl)
answer-cases (failed (net_rpc text)) = inr (inr (text, refl))

-- A reply comes from a server that was called, unless a call failed with the package's own error.
pub first_reply-source {ℓ} :
    {R : Type ℓ} (dial : String → Option Conn) (call : String → Answer R) (zero_reply : R)
    (servers : Dict ServerInfo) (reply : R)
    → ((sid : String) → call sid ≢ failed err_shutdown)
    → (first_reply dial call zero_reply servers).1 ≡ some reply
    → (sid : String) × (call sid ≡ replied reply)
unfolding first_reply
first_reply-source dial call zero_reply [] reply up h = absurd (ground arith)
first_reply-source dial call zero_reply ((sid, info) ∷ servers) reply up h =
    elim (Option-cases (connect dial info).rpc_client) [
      | inl e ↦ first_reply-source dial call zero_reply servers reply up (ground (arith, e))
      | inr (c, e) ↦ elim (answer-cases (call sid)) [
        | inl (r, a) ↦ (sid, ground (arith, e, a))
        | inr (inl a) ↦ absurd (up sid a)
        | inr (inr (text, a)) ↦
            first_reply-source dial call zero_reply servers reply up (ground (arith, e, a))
      ]
    ]

-- Servers as the client meets them: each call is answered by GetKVServer of a well-formed server, or
-- fails with an error of net/rpc.
pub record Serves (call : String → GetKvServerRequest → Answer GetKvServerReply) : Type 0 where
  pub server : String → Server
  pub well_formed : (sid : String) → IsValid (server sid)
  pub answers :
      (sid : String) (req : GetKvServerRequest) (reply : GetKvServerReply)
      → call sid req ≡ replied reply
      → reply ≡ (get_kv_server req (server sid)).1
  pub up : (sid : String) (req : GetKvServerRequest) → call sid req ≢ failed err_shutdown

abbrev pub IsError : GetKvServerReply → Type 0
IsError reply = (reply.value ≡ "ERR_KEY") ⊎ (reply.value ≡ "ERR_DEP")

pub seen_version-insert :
    (k j : String) (v : Timestamp) (versions : Dict Timestamp)
    → seen_version j (insert k v versions) ≡ (if k == j then v else seen_version j versions)
seen_version-insert k j v versions = ground (arith, lookup-insert k j v versions)

not-IsError :
    (reply : GetKvServerReply)
    → (not (reply.value == "ERR_DEP") && not (reply.value == "ERR_KEY")) ≡ true
    → ¬ IsError reply
not-IsError reply ok (inl e) = ground (arith, eq_iff reply.value "ERR_KEY", e)
not-IsError reply ok (inr e) = ground (arith, eq_iff reply.value "ERR_DEP", e)

not-IsError-record_read :
    (reply : GetKvServerReply) (versions : Dict Timestamp)
    → ¬ IsError reply
    → record_read reply versions ≡ insert reply.key reply.version versions
not-IsError-record_read reply versions h = ground (
  arith,
  eq_iff reply.value "ERR_DEP",
  eq_iff reply.value "ERR_KEY",
  λ (e : reply.value ≡ "ERR_KEY"). h (inl e),
  λ (e : reply.value ≡ "ERR_DEP"). h (inr e),
)

or_error : (reply : GetKvServerReply) {A : Type 0} → ¬ IsError reply → IsError reply ⊎ A → A
or_error reply h (inl e) = absurd (h e)
or_error reply h (inr a) = a

record_read-le :
    (reply : GetKvServerReply) (j : String) (versions : Dict Timestamp)
    → IsError reply ⊎ (seen_version reply.key versions ≤ℤ reply.version)
    → seen_version j versions ≤ℤ seen_version j (record_read reply versions)
record_read-le reply j versions fresh =
    elim (Bool-cases (not (reply.value == "ERR_DEP") && not (reply.value == "ERR_KEY"))) [
      | inl ok ↦
          rw (ok, seen_version-insert reply.key j reply.version versions)
            (if_rule (λ (t : Timestamp). seen_version j versions ≤ℤ t) (reply.key == j) _ _
              (λ e.
                subst (λ k. seen_version k versions ≤ℤ reply.version) ((eq_iff reply.key j).0 e)
                  (or_error reply (not-IsError reply ok) fresh))
              (λ _. ≤ℤ_refl (seen_version j versions)))
      | inr err ↦ rw err (≤ℤ_refl (seen_version j versions))
    ]

pub IsFresh-cases :
    (req : GetKvServerRequest) (reply : GetKvServerReply)
    → IsFresh req reply
    → IsError reply ⊎ (req.version ≤ℤ reply.version)
IsFresh-cases req reply (k, inl e) = inl (inl e)
IsFresh-cases req reply (k, inr (inl e)) = inl (inr e)
IsFresh-cases req reply (k, inr (inr h)) = inr h

-- What is known of the loop's result: the reply is fresh for the request.
abbrev Fresh : GetKvServerRequest → Option GetKvServerReply → Type 0
Fresh req none = Unit
Fresh req (some reply) = IsFresh req reply

finish_get-le :
    (c : Client) (key j : String) (tried : Dict ServerInfo × Option GetKvServerReply)
    → Fresh (get_request key c) tried.1
    → seen_version j c.key_version_info ≤ℤ seen_version j (finish_get c tried).0.key_version_info
finish_get-le c key j (servers, none) f = ≤ℤ_refl (seen_version j c.key_version_info)
finish_get-le c key j (servers, some reply) f =
    record_read-le reply j c.key_version_info (rw f.0 (IsFresh-cases (get_request key c) reply f))

finish_get-newer :
    (c : Client) (key : String) (reply : GetKvServerReply)
    (tried : Dict ServerInfo × Option GetKvServerReply)
    → Fresh (get_request key c) tried.1
    → (finish_get c tried).1 ≡ some reply
    → ¬ IsError reply
    → (seen_version key c.key_version_info ≤ℤ reply.version)
      × (seen_version key (finish_get c tried).0.key_version_info ≡ reply.version)
finish_get-newer c key reply (servers, none) f h ok = absurd (ground arith)
finish_get-newer c key reply (servers, some r) f h ok =
    let same : r ≡ reply = cc in
    subst
      (λ q.
        ¬ IsError q
        → (seen_version key c.key_version_info ≤ℤ q.version)
          × (seen_version key (record_read r c.key_version_info) ≡ q.version))
      same (newer r f) ok
  where
    newer :
        (r : GetKvServerReply)
        → IsFresh (get_request key c) r
        → ¬ IsError r
        → (seen_version key c.key_version_info ≤ℤ r.version)
          × (seen_version key (record_read r c.key_version_info) ≡ r.version)
    newer r f ok = (
      or_error r ok (IsFresh-cases (get_request key c) r f),
      rw (
        not-IsError-record_read r c.key_version_info ok,
        seen_version-insert r.key key r.version c.key_version_info,
        f.0,
        eq_refl key,
      ),
    )

module _ (dial : String → Option Conn)
    (call : String → GetKvServerRequest → Answer GetKvServerReply) (serves : Serves call)
    (c : Client) (key : String) where
  first_reply-Fresh :
      (req : GetKvServerRequest) (zero_reply : GetKvServerReply)
      → Fresh req (first_reply dial (λ sid. call sid req) zero_reply c.serv_map).1
  first_reply-Fresh req zero_reply =
      elim (Option-cases (first_reply dial (λ sid. call sid req) zero_reply c.serv_map).1) [
        | inl e ↦ rw e tt
        | inr (reply, e) ↦
            let (sid, a) =
              first_reply-source dial (λ sid. call sid req) zero_reply c.serv_map reply
                (λ sid. serves.up sid req) e in
            rw (e, serves.answers sid req reply a)
              (get_kv_server-IsFresh req (serves.server sid) (serves.well_formed sid))
      ]

  -- If each call is answered by GetKVServer of a well-formed server or fails with an error of
  -- net/rpc, what a client has seen of a key never gets older by a read, of that key or another.
  pub seen_version-get_kv_client :
      (j : String)
      → seen_version j c.key_version_info
        ≤ℤ seen_version j (get_kv_client dial call key c).0.key_version_info
  unfolding get_kv_client
  seen_version-get_kv_client j =
      finish_get-le c key j _ (first_reply-Fresh (get_request key c) zero_get)

  -- If each call is answered by GetKVServer of a well-formed server or fails with an error of
  -- net/rpc, a read that returns no error text returns a version that is at least what the client
  -- had seen of the key, which the client has then seen.
  pub get_kv_client-newer :
      (reply : GetKvServerReply)
      → (get_kv_client dial call key c).1 ≡ some reply
      → ¬ IsError reply
      → (seen_version key c.key_version_info ≤ℤ reply.version)
        × (seen_version key (get_kv_client dial call key c).0.key_version_info ≡ reply.version)
  unfolding get_kv_client
  get_kv_client-newer reply h ok =
      finish_get-newer c key reply _ (first_reply-Fresh (get_request key c) zero_get) h ok
