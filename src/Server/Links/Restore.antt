-- ===== src/Server/Links/Restore.antt =====
-- BreakConnection and then CreateConnection of the same member (server/rpc.go).
use psk_db.Prelude.{String, Option}
use psk_db.Dict.{Dict, lookup}
use psk_db.Common.{Conn}
use psk_db.Server.State.{ServerInfo, Server}
use psk_db.Server.Connect.{Dial, connect}
use mathlib.Core.Option

-- The handle with which the server calls the member `id` next.
abbrev pub next_handle : Dial → String → Server → Option (Option Conn)
next_handle dial id s =
    Option.map (λ (m : ServerInfo). (connect dial s.blacklist_map m).rpc_client)
      (lookup id s.server_map)
