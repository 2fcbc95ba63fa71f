-- ===== src/Command/Program.antt =====
-- cmd/zmqcat/main.go: `main`, which chooses the command.
use zmqcat.Base.{ℕ, Option, none, some, List, [], ◌∷◌, ◌||◌, Text, codes, text_eq, if◌then◌else◌}
use zmqcat.Node.{World, Action}
use zmqcat.Command.Clients
use zmqcat.Command.Clients.{Host, cmd_put, cmd_take, cmd_pub, cmd_sub, cmd_ping, cmd_ready, cmd_req}
use zmqcat.Command.Nodes
use zmqcat.Command.Nodes.{cmd_serve, cmd_join}

-- What the program does to the world, what it prints to standard output, and its status.
pub record Exit : Type 0 where
  pub done : List Action
  pub output : Text
  pub status : ℕ

abbrev client_status : Option Clients.Fault → ℕ
client_status none = 0
client_status (some (Clients.exited n)) = n
client_status (some x) = 1

abbrev node_status : Option Nodes.Fault → ℕ
node_status none = 0
node_status (some (Nodes.exited n)) = n
node_status (some x) = 1

abbrev pub of_client : Clients.Ran → Exit
of_client r = record { done = []; output = r.output; status = client_status r.fault }

abbrev pub of_node : Nodes.Ran → Exit
of_node r = record { done = r.done; output = r.output; status = node_status r.fault }

-- The usage goes to standard error.
abbrev usage : ℕ → Exit
usage n = record { done = []; output = []; status = n }

-- The cases of the switch that are a client's.
unfoldable pub client_command : Host → Text → Option (List Text → Clients.Ran)
client_command h cmd =
    if text_eq cmd (codes "put")
    then some (cmd_put h)
    else if text_eq cmd (codes "take")
    then some (cmd_take h)
    else if text_eq cmd (codes "pub")
    then some (cmd_pub h)
    else if text_eq cmd (codes "sub")
    then some (cmd_sub h)
    else if text_eq cmd (codes "ping")
    then some (cmd_ping h)
    else if text_eq cmd (codes "ready")
    then some (cmd_ready h)
    else if text_eq cmd (codes "req")
    then some (cmd_req h)
    else none

unfoldable pub run_client : List Text → Option (List Text → Clients.Ran) → Exit
run_client args none = usage 2
run_client args (some run) = of_client (run args)

unfoldable pub run_command : World → Host → Text → List Text → Exit
unfolding run_client
run_command w h cmd args =
    if text_eq cmd (codes "serve")
    then of_node (cmd_serve w (h.parser cmd) args)
    else if text_eq cmd (codes "join")
    then of_node (cmd_join w (h.parser cmd) args)
    else run_client args (client_command h cmd)

-- `main`, of the arguments after the program's name.
unfoldable pub main : World → Host → List Text → Exit
unfolding run_command
main w h [] = usage 0
main w h (cmd ∷ args) =
    if text_eq cmd (codes "-h") || text_eq cmd (codes "--help")
    then usage 0
    else run_command w h cmd args
