-- ===== src/Node.antt =====
-- node.go: the node that `Serve` and `Join` start and `Close` ends. Tailcat and the sockets are
-- given by what their calls return; what a node does to them is written down in order.
pub mod Starting
pub mod Closing
pub mod Releasing
pub mod Ports
pub mod Configuring
pub mod Accepting
use zmqcat.Base.{
  ℕ, Bool, true, false, Option, none, some, List, [], ◌∷◌, ◌++◌, Text, length, take, ltb, is_empty,
  ◌==◌, if◌then◌else◌,
}
use zmqcat.Base.Int.{ℤ}
use zmqcat.Addr
use zmqcat.Addr.{Network, unix, tcp, Sockets, parse, default_path}
use zmqcat.Mailbox.Defs
use zmqcat.Mailbox.Defs.{Disk}
use zmqcat.Hub.{Hub}

abbrev pub mailbox_port : ℕ
mailbox_port = 7

-- Where diagnostics go.
pub data Logger : Type 0 where
  to_log to_caller nowhere : Logger

pub record Config : Type 0 where
  pub mailbox_path : Text
  pub heartbeat : ℤ
  pub trace : Bool
  pub listen : Text
  pub name : Text
  -- whether there is a `Logf`
  pub own_logf : Bool
  pub quiet : Bool
  pub allowed_clients : List Text
  pub derp_map_url : Text
  pub local_only : Bool
  pub forward_ports : List ℕ

-- What a node has to close: the listener of the sidecar, the Tailcat server or client, a listener
-- of a forwarded port, and the two functions: one stops the hub, both remove the socket's file.
pub data Closer : Type 0 where
  listener server client : Closer
  forward_listener : ℕ → Closer
  stops_hub removes_socket : Closer

-- What is done to the world.
pub data Action : Type 0 where
  acquires : Closer → Action
  releases : Closer → Action
  removes : Text → Action
  -- the goroutines: the hub's accept loop, the proxy's, and that of a forwarded port
  accepts_hub accepts_proxy : Action
  accepts_forward : ℕ → Action

pub data Fault : Type 0 where
  empty_token local_join : Fault
  listen_fault : Addr.Fault → Fault
  storage_fault : Defs.Error → Fault
  server_fault client_fault : Fault
  forward_fault : ℕ → Fault
  close_fault : Closer → Fault

-- What the calls return: the sockets; the state file; whether Tailcat's server starts and its token,
-- and whether its client reaches the server; which ports can be listened on; which `Close` fails.
pub record World : Type 0 where
  pub sockets : Sockets
  pub readable : Bool
  pub disk : Disk
  pub starts : Bool
  pub blob : Text
  pub reaches : Bool
  pub forwards : ℕ → Bool
  pub close_fails : Closer → Bool

pub record Node : Type 0 where
  pub cfg : Config
  pub logf : Logger
  pub hub : Option Hub
  pub token : Text
  pub listen : Text
  pub closers : List Closer

unfoldable pub add_closer : Closer → Node → Node
add_closer c n = record n { closers = n.closers ++ c ∷ [] }

-- `os.Remove(path)` for a listen address that is a socket's path.
unfoldable pub socket_file : Option (Network × Text) → List Action
socket_file (some (unix, path)) = removes path ∷ []
socket_file (some (tcp, address)) = []
socket_file none = []

unfoldable pub remove_socket : World → Text → List Action
unfolding socket_file parse default_path
remove_socket w listen = socket_file (parse (default_path w.sockets.uid) listen)

-- `Close` of one of them: what it does, and its error.
unfoldable pub close_one : World → Text → Closer → List Action × Option Fault
unfolding remove_socket
close_one w listen stops_hub = (releases stops_hub ∷ remove_socket w listen, none)
close_one w listen removes_socket = (releases removes_socket ∷ remove_socket w listen, none)
close_one w listen c = (releases c ∷ [], if w.close_fails c then some (close_fault c) else none)

abbrev pub first_fault : Option Fault → Option Fault → Option Fault
first_fault (some x) y = some x
first_fault none y = y

-- The loop of `Node.Close`, from the last closer to the first.
unfoldable pub close_all : World → Text → List Closer → List Action × Option Fault
unfolding close_one
close_all w listen [] = ([], none)
close_all w listen (c ∷ cs) =
    let (done, first) = close_all w listen cs in
    let (more, x) = close_one w listen c in (done ++ more, first_fault first x)

-- `Node.Close`
unfoldable pub close_node : World → Node → Node × List Action × Option Fault
unfolding close_all
close_node w n =
    let (done, first) = close_all w n.listen n.closers in (record n { closers = [] }, done, first)

unfoldable pub contains_port : List ℕ → ℕ → Bool
contains_port [] p = false
contains_port (x ∷ ports) p = let rest = contains_port ports p in if x == p then true else rest

-- A range of ports, from the first to the last.
unfoldable pub port_ranges : List ℕ → List (ℕ × ℕ)
port_ranges [] = []
port_ranges (p ∷ ports) = (p, p) ∷ port_ranges ports

unfoldable pub served_ports : Config → List (ℕ × ℕ)
unfolding port_ranges
served_ports cfg = port_ranges (mailbox_port ∷ cfg.forward_ports)

pub data Handler : Type 0 where
  to_hub : Handler
  -- `forwardLocal`: a call of 127.0.0.1 at the port
  to_local : ℕ → Handler

-- `OnTCP`
unfoldable pub on_tcp : Config → ℕ → Option Handler
unfolding contains_port
on_tcp cfg port =
    if port == mailbox_port
    then some to_hub
    else if contains_port cfg.forward_ports port
    then some (to_local port)
    else none

unfoldable pub logf_or : Bool → Logger
logf_or own = if own then to_caller else to_log

unfoldable pub tailcat_logf : Node → Logger
tailcat_logf n = if n.cfg.quiet then nowhere else n.logf

-- The ellipsis is three bytes.
unfoldable pub trim_token : Text → Text
trim_token s = if ltb (length s) 16 then s else take 12 s ++ 0xe2 ∷ 0x80 ∷ 0xa6 ∷ []
