-- ===== src/Master/Ports.antt =====
-- The ports that master.go gives out.
use psk_db.Prelude.{ℕ, ◌+◌, ◌≤◌, ◌<◌, String, ◌≡◌, some, List, arith, eq_iff}
use psk_db.Dict.{Dict, lookup, insert, delete, lookup-insert, lookup-delete}
use psk_db.Master.State.{Master}
use psk_db.Master.Rule.{After, with_server, with_client, without_server}
use psk_db.Master.Rule.Execute.{execute_rule}
use psk_db.Master.Commands.{World, execute}

-- Every port lies from `low` up to `high`, and no two nodes have the same one.
pub record Ports (low high : ℕ) (ports : Dict ℕ) : Type 0 where
  pub within : (id : String) (p : ℕ) → lookup id ports ≡ some p → (low ≤ p) × (p < high)
  pub apart :
      (id other : String) (p : ℕ)
      → lookup id ports ≡ some p
      → lookup other ports ≡ some p
      → id ≡ other

pub record IsValid (m : Master) : Type 0 where
  pub servers : Ports 9000 m.server_next_port m.server_node_map
  pub clients : Ports 10000 m.client_next_port m.client_node_map
  pub low : (9000 ≤ m.server_next_port) × (10000 ≤ m.client_next_port)

insert-Ports :
    (low high : ℕ) (id : String) (ports : Dict ℕ)
    → low ≤ high
    → Ports low high ports
    → Ports low (high + 1) (insert id high ports)
insert-Ports low high id ports h v = record {
  within = λ j p e. ground (arith, lookup-insert id j high ports, v.within j p);
  apart = λ j k p e f. ground (
    arith,
    lookup-insert id j high ports,
    lookup-insert id k high ports,
    eq_iff id j,
    eq_iff id k,
    v.within j p,
    v.within k p,
    v.apart j k p,
  );
}

delete-Ports :
    (low high : ℕ) (id : String) (ports : Dict ℕ)
    → Ports low high ports
    → Ports low high (delete id ports)
delete-Ports low high id ports v = record {
  within = λ j p e. ground (arith, lookup-delete id j ports, v.within j p);
  apart = λ j k p e f.
      ground (arith, lookup-delete id j ports, lookup-delete id k ports, v.apart j k p);
}

pub with_server-IsValid : (id : String) (m : Master) → IsValid m → IsValid (with_server id m)
with_server-IsValid id m v = record {
  servers = insert-Ports 9000 m.server_next_port id m.server_node_map v.low.0 v.servers;
  clients = v.clients;
  low = (omega (arith, v.low.0), v.low.1);
}

pub with_client-IsValid : (id : String) (m : Master) → IsValid m → IsValid (with_client id m)
with_client-IsValid id m v = record {
  servers = v.servers;
  clients = insert-Ports 10000 m.client_next_port id m.client_node_map v.low.1 v.clients;
  low = (v.low.0, omega (arith, v.low.1));
}

pub without_server-IsValid : (id : String) (m : Master) → IsValid m → IsValid (without_server id m)
without_server-IsValid id m v = record {
  servers = delete-Ports 9000 m.server_next_port id m.server_node_map v.servers;
  clients = v.clients;
  low = v.low;
}

-- If no two servers have one port, nor two clients, and all ports lie below the next ones, so it is
-- after every command that ends, whatever it meets.
pub execute-Keeps :
    (w : World) (words : List String) (m : Master) → IsValid m → After IsValid (execute w words m)
execute-Keeps w words m v =
    execute_rule IsValid w words m v (λ id e. with_server-IsValid id m v)
      (λ id. with_client-IsValid id m v) (λ id. without_server-IsValid id m v)
