-- ===== src/Tests/Nodes.antt =====
-- Runs of the theorems on nodes.
use zmqcat.Base.{◌≡◌, true, false, ◌==◌, none, some, [], ◌∷◌, codes, if◌then◌else◌}
use zmqcat.Base.Int.{negsuc}
use mathlib.Core.List.{reverse}
use zmqcat.Node.{
  Config, listener, server, forward_listener, stops_hub, World, Node, to_log, close_node, on_tcp,
  served_ports,
}
use zmqcat.Node.Starting.{serve, join}
use zmqcat.Node.Closing.{acquired, released, order, first_failure, close_node_lem}
use zmqcat.Node.Releasing.{ended, serve_releases, join_releases}
use zmqcat.Node.Ports.{in_ranges, handler_for, on_tcp-in_ranges}
use zmqcat.Node.Configuring.{IsConfigured, serve-IsConfigured}

abbrev pub config : Config
config = record {
  mailbox_path = codes "bus.json";
  heartbeat = negsuc 0;
  trace = false;
  listen = codes "tcp://127.0.0.1:5555";
  name = [];
  own_logf = false;
  quiet = true;
  allowed_clients = [];
  derp_map_url = [];
  local_only = false;
  forward_ports = 80 ∷ 443 ∷ [];
}

-- Tailcat's server starts, but the second forwarded port is taken, and the server does not close.
abbrev pub world : World
world = record {
  sockets = record { uid = 1; listens = λ n a. true; answers = λ n a. true };
  readable = true;
  disk = record { file = none; tmp = none; tmp_synced = false; of_file = none ∷ []; of_older = [] };
  starts = true;
  blob = codes "token";
  reaches = true;
  forwards = λ p. p == 80;
  close_fails = λ c. elim c [ server ↦ true | _ ↦ false ];
}

abbrev node : Node
node = record {
  cfg = config;
  logf = to_log;
  hub = none;
  token = codes "token";
  listen = config.listen;
  closers = listener ∷ stops_hub ∷ server ∷ [];
}

close_node_lem_example :
    (order (close_node world node).1 ≡ reverse node.closers)
    × ((close_node world node).2 ≡ first_failure world (reverse node.closers))
    × ((close_node world (close_node world node).0).1 ≡ [])
    × ((close_node world (close_node world node).0).2 ≡ none)
close_node_lem_example = close_node_lem world node

serve_releases_example :
    acquired server (ended world (serve world config))
    ≡ released server (ended world (serve world config))
serve_releases_example = serve_releases world server config

join_releases_example :
    acquired (forward_listener 80) (ended world (join world config (codes "token")))
    ≡ released (forward_listener 80) (ended world (join world config (codes "token")))
join_releases_example = join_releases world (forward_listener 80) config (codes "token")

on_tcp-in_ranges_example :
    on_tcp config 443
    ≡ (if in_ranges (served_ports config) 443 then some (handler_for 443) else none)
on_tcp-in_ranges_example = on_tcp-in_ranges config 443

serve-IsConfigured_example : IsConfigured config (serve world config).1
serve-IsConfigured_example = serve-IsConfigured world config
