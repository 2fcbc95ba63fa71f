-- ===== src/Addr.antt =====
-- internal/addr/addr.go: `Parse`, which tells Unix socket paths from TCP addresses, and `Listen` and
-- `Dial` on the addresses that it finds. The number of the user is an argument.
pub mod Forms
use zmqcat.Base.{
  ℕ, Bool, true, false, ◌||◌, Option, none, some, List, [], ◌∷◌, ◌++◌, Text, codes, length, drop,
  is_empty, has_prefix, ◌==◌, if◌then◌else◌,
}
use zmqcat.Base.Decimal.{decimal}

pub data Network : Type 0 where
  unix tcp : Network

-- `strings.Contains(s, ":")`
unfoldable pub has_colon : Text → Bool
has_colon [] = false
has_colon (c ∷ s) = c == 58 || has_colon s

-- `strings.TrimPrefix(s, prefix)`
unfoldable pub trim_prefix : Text → Text → Text
unfolding has_prefix
trim_prefix s prefix = if has_prefix s prefix then drop (length prefix) s else s

abbrev pub unix_scheme : Text
unix_scheme = codes "unix://"

abbrev pub tcp_scheme : Text
tcp_scheme = codes "tcp://"

unfoldable pub parse_nonempty : Text → Option (Network × Text)
unfolding has_prefix trim_prefix has_colon
parse_nonempty s =
    if has_prefix s unix_scheme
    then some (unix, trim_prefix s unix_scheme)
    else if has_prefix s tcp_scheme
    then some (tcp, trim_prefix s tcp_scheme)
    else if has_prefix s (codes "/") || has_prefix s (codes ".")
    then some (unix, s)
    else if has_colon s
    then some (tcp, s)
    else none

-- `Parse`: the network and the address, or none with an error.
unfoldable pub parse : Text → Text → Option (Network × Text)
unfolding parse_nonempty
parse default_path s = parse_nonempty (if is_empty s then default_path else s)

-- `Default`, of the number of the user.
unfoldable pub default_path : ℕ → Text
unfolding decimal
default_path uid = codes "unix:///tmp/zmqcat-" ++ decimal uid ++ codes ".sock"

-- The network of the host: which addresses can be listened on and which answer a call.
pub record Sockets : Type 0 where
  pub uid : ℕ
  pub listens : Network → Text → Bool
  pub answers : Network → Text → Bool

pub data Fault : Type 0 where
  bad_address : Text → Fault
  net_fails : Network → Text → Fault

-- What `Listen` and `Dial` return.
pub data Opened : Type 0 where
  open_at : Network → Text → Opened
  not_open : Fault → Opened

unfoldable pub listen_on : Sockets → Option (Network × Text) → Text → Opened
listen_on net none s = not_open (bad_address s)
listen_on net (some (network, address)) s =
    if net.listens network address
    then open_at network address
    else not_open (net_fails network address)

-- The path that `Listen` removes first.
abbrev pub stale_path : Option (Network × Text) → Option Text
stale_path none = none
stale_path (some (unix, address)) = some address
stale_path (some (tcp, address)) = none

-- `Listen`: the path that it removes, if any, and what it returns.
unfoldable pub listen : Sockets → Text → Option Text × Opened
unfolding listen_on parse default_path
listen net s = let p = parse (default_path net.uid) s in (stale_path p, listen_on net p s)

unfoldable pub dial_to : Sockets → Option (Network × Text) → Text → Opened
dial_to net none s = not_open (bad_address s)
dial_to net (some (network, address)) s =
    if net.answers network address
    then open_at network address
    else not_open (net_fails network address)

-- `Dial`
unfoldable pub dial : Sockets → Text → Opened
unfolding dial_to parse default_path
dial net s = dial_to net (parse (default_path net.uid) s) s
