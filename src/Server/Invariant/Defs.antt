-- ===== src/Server/Invariant/Defs.antt =====
-- The well-formedness of a server's state (server/), and the parts of the handlers that keep it.
use psk_db.Prelude.{String, ◌≡◌, sym, ◌∙◌, ap, some}
use psk_db.Dict.{Dict}
use psk_db.Timestamp.{Timestamp}
use psk_db.Timestamp.Fraction.{frac, signature, frac-one}
use psk_db.Server.State.{ServerInfo, KeyValueInfo, Server}
use psk_db.Server.Clock.{
  get_and_increment_lamport_timestamp, conditional_increment_lamport_timestamp,
  set_lamport_timestamp,
}
use psk_db.Server.Clock.Order.{frac-conditional_increment}
use psk_db.Server.Store.{store_entry}
use psk_db.Server.Invariant.MemberList.{Members}
use psk_db.Server.Invariant.StoreEntries.{Entries, insert-Entries}

pub record IsValid (s : Server) : Type 0 where
  -- No member twice, each under its own id, the server itself not among them.
  pub members : Members s.curr_server_info.id s.server_map
  -- No key twice, each entry under its own key.
  pub entries : Entries s.key_value_map
  -- The own id is an integer, and the clock carries its fraction.
  pub clock : signature s.curr_server_info.id ≡ some (frac s.curr_server_info.lamport_timestamp)

pub set_lamport_timestamp-IsValid :
    (t : Timestamp) (s : Server)
    → frac t ≡ frac s.curr_server_info.lamport_timestamp
    → IsValid s
    → IsValid (set_lamport_timestamp t s)
set_lamport_timestamp-IsValid t s e v = record {
  members = v.members;
  entries = v.entries;
  clock = v.clock ∙ ap some (sym e);
}

pub with_list-IsValid :
    (members : Dict ServerInfo) (s : Server)
    → Members s.curr_server_info.id members
    → IsValid s
    → IsValid (record s { server_map = members })
with_list-IsValid members s m v = record { members = m; entries = v.entries; clock = v.clock }

pub store_entry-IsValid :
    (key : String) (info : KeyValueInfo) (s : Server)
    → info.key ≡ key
    → IsValid s
    → IsValid (store_entry key info s)
store_entry-IsValid key info s e v = record {
  members = v.members;
  entries = insert-Entries key info s.key_value_map e v.entries;
  clock = v.clock;
}

pub get_and_increment-IsValid :
    (s : Server) → IsValid s → IsValid (get_and_increment_lamport_timestamp s).1
unfolding get_and_increment_lamport_timestamp
get_and_increment-IsValid s v = set_lamport_timestamp-IsValid _ s (frac-one _) v

pub conditional_increment-IsValid :
    (pivot : Timestamp) (s : Server)
    → IsValid s
    → IsValid (conditional_increment_lamport_timestamp pivot s).1
unfolding conditional_increment_lamport_timestamp
conditional_increment-IsValid pivot s v =
    set_lamport_timestamp-IsValid _ s (frac-conditional_increment pivot _) v
