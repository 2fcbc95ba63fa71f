-- ===== src/Hub/Ids.antt =====
-- internal/hub/hub.go: scoped ids, message frames and durations.
use zmqcat.Base.{
  ℕ, zero, suc, ◌*◌, ◌%◌, ◌^◌, ◌||◌, [], ◌++◌, Text, codes, ltb, leb, is_empty, if◌then◌else◌,
}
use zmqcat.Base.Decimal.{decimal}
use zmqcat.Base.Int.{ℤ, pos, negsuc, int64}
use zmqcat.Wire.{Frame, no_frame}
use zmqcat.Wire.Op.{msg_op}
use zmqcat.Mailbox.Defs.{Msg, minute}
use zmqcat.Hub.{Session, Hub}

unfoldable pub scoped_id : ℕ → Text → Text
unfolding decimal
scoped_id sid id = if is_empty id then [] else codes "s" ++ decimal sid ++ codes ":" ++ id

unfoldable pub first : Text → Text → Text
first a b = if is_empty a then b else a

unfoldable pub msg_frame : Text → Msg → Frame
unfolding first
msg_frame id m = record no_frame {
  op = msg_op;
  id = first id m.id;
  name = m.name;
  from = m.from;
  body = m.body;
  text = m.body;
}

-- `s.from(f)`
unfoldable pub from_of : Session → Frame → Text
from_of s f = if is_empty f.from then s.name else f.from

-- A duration or a count that is not positive gives way to the default.
unfoldable pub or_default : ℕ → ℤ → ℕ
or_default n (pos zero) = n
or_default n (pos (suc k)) = suc k
or_default n (negsuc k) = n

abbrev pub default_heartbeat : ℕ
default_heartbeat = 5 * 10 ^ 9

abbrev pub default_liveness : ℕ
default_liveness = 3

abbrev pub default_pending_ttl : ℕ
default_pending_ttl = 10 * minute

unfoldable pub pending_ttl_of : Hub → ℕ
unfolding or_default
pending_ttl_of h = or_default default_pending_ttl h.pending_ttl

unfoldable pub write_timeout : Hub → ℕ
unfolding or_default
write_timeout h = or_default default_heartbeat h.heartbeat

-- The silence after which `heartbeat` closes a session, where there is a heartbeat at all. The
-- product is an `int64`, like the next, which is negative once it has reached 2^63.
unfoldable pub death : Hub → ℤ
unfolding or_default int64
death h = int64 (or_default default_heartbeat h.heartbeat * or_default default_liveness h.liveness)

unfoldable pub take_lease : Hub → ℕ
unfolding or_default
take_lease h =
    let iv = or_default default_heartbeat h.heartbeat in
    let live = or_default default_liveness h.liveness in
    let d = iv * live * 2 % 2 ^ 64 in if leb (2 ^ 63) d || ltb d minute then minute else d
