-- ===== src/Node/Ports.antt =====
-- node.go: the ports that a server offers, and what answers on them.
use zmqcat.Base.{
  ℕ, ◌≡◌, refl, Bool, false, ◌||◌, ◌&&◌, none, some, List, [], ◌∷◌, arith, ◌==◌, leb, if◌then◌else◌,
}
use zmqcat.Node.{
  Config, mailbox_port, contains_port, port_ranges, served_ports, Handler, to_hub, to_local, on_tcp,
}

-- Whether a port lies in one of some ranges.
unfoldable pub in_ranges : List (ℕ × ℕ) → ℕ → Bool
in_ranges [] p = false
in_ranges ((low, high) ∷ ranges) p = (leb low p && leb p high) || in_ranges ranges p

contains-in_ranges :
    (ports : List ℕ) (p : ℕ) → contains_port ports p ≡ in_ranges (port_ranges ports) p
unfolding contains_port in_ranges port_ranges
contains-in_ranges [] p = refl
contains-in_ranges (x ∷ ports) p = ground (arith, contains-in_ranges ports p)

-- What is to answer on a port, if the server offers it.
abbrev pub handler_for : ℕ → Handler
handler_for p = if p == mailbox_port then to_hub else to_local p

-- The handler of a port agrees with the ranges that are given to Tailcat: it is there exactly for a
-- port in one of them, it is the hub's exactly for the mailbox port, whatever ports are forwarded,
-- and any other forwards to the same port.
pub on_tcp-in_ranges :
    (cfg : Config) (p : ℕ)
    → on_tcp cfg p ≡ (if in_ranges (served_ports cfg) p then some (handler_for p) else none)
unfolding on_tcp served_ports in_ranges port_ranges
on_tcp-in_ranges cfg p = ground (arith, contains-in_ranges cfg.forward_ports p)
