-- ===== src/Server/Heartbeat/Recipients.antt =====
-- The random choice of startHeartbeats in server/server.go, and the heartbeats of a whole round.
use psk_db.Prelude.{ℕ, ◌<◌, ◌≡◌, List, length, All}
use psk_db.Dict.{Dict}
use psk_db.Server.Heartbeat.Chosen.{AllApart}

-- What rand.Perm(n) promises: the numbers below n, none twice.
abbrev pub IsPerm : ℕ → List ℕ → Type 0
IsPerm n list = (length list ≡ n) × AllApart list × All (λ p. p < n) list
