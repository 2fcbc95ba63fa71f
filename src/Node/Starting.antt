-- ===== src/Node/Starting.antt =====
-- node.go: `newLocal`, `Serve` and `Join`.
use zmqcat.Base.{
  ℕ, zero, suc, not, Option, none, some, List, [], ◌∷◌, ◌++◌, Text, is_empty, if◌then◌else◌,
}
use zmqcat.Base.Int.{ℤ, pos, negsuc}
use zmqcat.Addr
use zmqcat.Addr.{Opened, open_at, not_open, default_path}
use zmqcat.Mailbox.Defs.{Bus, Result, ok, err, default_max_queue, default_max_body}
use zmqcat.Mailbox.Life.{new_with_limits, open_persistent}
use zmqcat.Hub.{Hub}
use zmqcat.Hub.Serving.{new_hub}
use zmqcat.Node.{
  Config, listener, server, client, forward_listener, stops_hub, removes_socket, Action, acquires,
  releases, removes, accepts_hub, accepts_proxy, accepts_forward, Fault, empty_token, local_join,
  listen_fault, storage_fault, server_fault, client_fault, forward_fault, World, Node, add_closer,
  close_node, logf_or,
}

pub data Outcome : Type 0 where
  running : Node → Outcome
  stopped : Fault → Outcome

abbrev pub listen_or_default : World → Text → Text
listen_or_default w listen = if is_empty listen then default_path w.sockets.uid else listen

-- The file that `addr.Listen` removes first.
abbrev pub removed : Option Text → List Action
removed none = []
removed (some path) = removes path ∷ []

-- The sidecar's listener comes first; the rest needs it.
unfoldable pub after_listen : Option Text × Opened → List Action × Outcome → List Action × Outcome
after_listen (stale, not_open x) rest = (removed stale, stopped (listen_fault x))
after_listen (stale, open_at network address) (done, o) =
    (removed stale ++ acquires listener ∷ done, o)

-- The bus, persistent or not.
unfoldable pub make_bus : World → Config → Result Bus
unfolding open_persistent new_with_limits
make_bus w cfg =
    if not (is_empty cfg.mailbox_path)
    then open_persistent cfg.mailbox_path (pos default_max_queue) (pos default_max_body) w.readable
        w.disk
    else ok (new_with_limits (pos default_max_queue) (pos default_max_body) w.disk)

unfoldable pub with_heartbeat : ℤ → Hub → Hub
with_heartbeat (negsuc n) h = record h { heartbeat = pos 0 }
with_heartbeat (pos zero) h = h
with_heartbeat (pos (suc n)) h = record h { heartbeat = pos (suc n) }

-- The node of `newLocal`, of a bus.
unfoldable pub local_node : Config → Text → Bus → Node
unfolding new_hub with_heartbeat logf_or
local_node cfg listen bus = record {
  cfg = cfg;
  logf = logf_or cfg.own_logf;
  hub = some (with_heartbeat cfg.heartbeat (new_hub bus));
  token = [];
  listen = listen;
  closers = listener ∷ stops_hub ∷ [];
}

unfoldable pub with_bus : Config → Text → Result Bus → List Action × Outcome
unfolding local_node
with_bus cfg listen (err x) = (releases listener ∷ [], stopped (storage_fault x))
with_bus cfg listen (ok bus) =
    (acquires stops_hub ∷ accepts_hub ∷ [], running (local_node cfg listen bus))

unfoldable pub new_local : World → Config → List Action × Outcome
unfolding make_bus with_bus after_listen Addr.listen
new_local w cfg =
    let listen = listen_or_default w cfg.listen in
    after_listen (Addr.listen w.sockets listen) (with_bus cfg listen (make_bus w cfg))

-- `Serve` after `newLocal`.
unfoldable pub start_server : World → Config → Outcome → List Action × Outcome
unfolding close_node add_closer
start_server w cfg (stopped x) = ([], stopped x)
start_server w cfg (running n) =
    if cfg.local_only
    then ([], running n)
    else if w.starts
    then (acquires server ∷ [], running (add_closer server (record n { token = w.blob })))
    else ((close_node w n).1, stopped server_fault)

unfoldable pub serve : World → Config → List Action × Outcome
unfolding new_local start_server
serve w cfg =
    let (done, o) = new_local w cfg in let (more, o') = start_server w cfg o in (done ++ more, o')

-- The loop of `Join` over the forwarded ports.
unfoldable pub forward_each : World → List ℕ → Node → List Action × Outcome
unfolding close_node add_closer
forward_each w [] n = ([], running n)
forward_each w (p ∷ ports) n =
    let rest = forward_each w ports (add_closer (forward_listener p) n) in
    if w.forwards p
    then (acquires (forward_listener p) ∷ accepts_forward p ∷ rest.0, rest.1)
    else ((close_node w n).1, stopped (forward_fault p))

unfoldable pub joined_node : Config → Text → Text → Node
unfolding logf_or
joined_node cfg listen token = record {
  cfg = cfg;
  logf = logf_or cfg.own_logf;
  hub = none;
  token = token;
  listen = listen;
  closers = listener ∷ removes_socket ∷ client ∷ [];
}

-- `Join` once the sidecar's listener is open.
unfoldable pub join_opened : World → Config → Text → Text → List Action × Outcome
unfolding joined_node close_node forward_each
join_opened w cfg listen token =
    let n = joined_node cfg listen token in
    let acquired = acquires removes_socket ∷ acquires client ∷ [] in
    let (done, o) = forward_each w cfg.forward_ports n in
    if w.reaches
    then (acquired ++ accepts_proxy ∷ done, o)
    else (acquired ++ (close_node w n).1, stopped client_fault)

unfoldable pub join : World → Config → Text → List Action × Outcome
unfolding join_opened after_listen Addr.listen
join w cfg token =
    let listen = listen_or_default w cfg.listen in
    if is_empty token
    then ([], stopped empty_token)
    else if cfg.local_only
    then ([], stopped local_join)
    else after_listen (Addr.listen w.sockets listen) (join_opened w cfg listen token)
