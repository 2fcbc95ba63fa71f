-- ===== src/Command/Nodes.antt =====
-- cmd/zmqcat/main.go: `serve` and `join`. Each ends when a signal comes.
use zmqcat.Base.{ℕ, false, Option, none, some, List, [], ◌∷◌, ◌++◌, Text, is_empty, if◌then◌else◌}
use zmqcat.Base.Int.{pos}
use zmqcat.Args.{parse_args}
use zmqcat.Node
use zmqcat.Node.{Config, Node, World, Action, close_node}
use zmqcat.Node.Starting.{Outcome, running, stopped, serve, join}
use zmqcat.Command.{Flags, Parsed, parsed, exits, Parser}

pub data Fault : Type 0 where
  missing_token : Fault
  node_fails : Node.Fault → Fault
  exited : ℕ → Fault

-- What was done, what was printed to standard output, and the error.
pub record Ran : Type 0 where
  pub done : List Action
  pub output : Text
  pub fault : Option Fault

abbrev pub fault_only : Fault → Ran
fault_only x = record { done = []; output = []; fault = some x }

abbrev pub serve_config : Flags → Config
serve_config fl = record {
  mailbox_path = fl.mailbox;
  heartbeat = fl.heartbeat;
  trace = fl.trace;
  listen = fl.listen;
  name = fl.name;
  own_logf = false;
  quiet = fl.quiet;
  allowed_clients = fl.allow;
  derp_map_url = [];
  local_only = fl.local_flag;
  forward_ports = fl.forward;
}

abbrev pub join_config : Flags → Config
join_config fl = record {
  mailbox_path = [];
  heartbeat = pos 0;
  trace = false;
  listen = fl.listen;
  name = [];
  own_logf = false;
  quiet = fl.quiet;
  allowed_clients = [];
  derp_map_url = [];
  local_only = false;
  forward_ports = fl.forward;
}

-- The token on a line of its own, where there is one.
abbrev pub token_line : Text → Text
token_line token = if is_empty token then [] else token ++ 10 ∷ []

-- The node runs until the signal, and is closed then; what closing returns is not looked at.
unfoldable pub served : World → List Action × Outcome → Ran
unfolding close_node
served w (done, stopped x) = record { done = done; output = []; fault = some (node_fails x) }
served w (done, running n) = record {
  done = done ++ (close_node w n).1;
  output = token_line n.token;
  fault = none;
}

unfoldable pub joined : World → List Action × Outcome → Ran
unfolding close_node
joined w (done, stopped x) = record { done = done; output = []; fault = some (node_fails x) }
joined w (done, running n) = record { done = done ++ (close_node w n).1; output = []; fault = none }

unfoldable pub run_serve : World → Parsed → Ran
unfolding serve served
run_serve w (exits n) = fault_only (exited n)
run_serve w (parsed fl rest) = served w (serve w (serve_config fl))

unfoldable pub cmd_serve : World → Parser → List Text → Ran
unfolding run_serve parse_args
cmd_serve w parser args = run_serve w (parse_args parser args)

unfoldable pub run_join : World → Parsed → Ran
unfolding join joined
run_join w (exits n) = fault_only (exited n)
run_join w (parsed fl []) = fault_only missing_token
run_join w (parsed fl (token ∷ rest)) = joined w (join w (join_config fl) token)

unfoldable pub cmd_join : World → Parser → List Text → Ran
unfolding run_join parse_args
cmd_join w parser args = run_join w (parse_args parser args)
