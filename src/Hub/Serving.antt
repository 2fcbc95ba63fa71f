-- ===== src/Hub/Serving.antt =====
-- internal/hub/hub.go: a hub with its sessions: `New`, `ServeConn`, the rounds of `run`, `heartbeat`
-- and `Close`.
use zmqcat.Base.{
  ℕ, ◌+◌, ◌%◌, ◌^◌, Bool, true, false, not, ◌&&◌, ◌||◌, Option, none, some, List, [], ◌∷◌, ◌++◌,
  Text, ◌==◌, if◌then◌else◌,
}
use zmqcat.Base.Int.{ℤ, difference, at_least, pos, negsuc}
use zmqcat.Wire.{Frame}
use zmqcat.Mailbox.Defs.{Bus, Env, Msg}
use zmqcat.Mailbox.Life.{close}
use zmqcat.Mailbox.Topics.{unsub}
use zmqcat.Hub.{Session, Hub}
use zmqcat.Hub.Ids.{default_heartbeat, default_liveness, death, msg_frame}
use zmqcat.Hub.Leases.{close_session}
use zmqcat.Hub.Jobs.{reply}
use zmqcat.Hub.Dispatch.{Op, subs, op_of, Failure, handle, written_for}

-- `New`
unfoldable pub new_hub : Bus → Hub
new_hub bus = record {
  bus = bus;
  heartbeat = pos default_heartbeat;
  liveness = pos default_liveness;
  pending_ttl = pos 0;
  pending = [];
}

-- A hub, the number of its last session, and the sessions that run.
pub record Server : Type 0 where
  pub hub : Hub
  pub sids : ℕ
  pub sessions : List Session

unfoldable pub find_session : ℕ → List Session → Option Session
find_session sid [] = none
find_session sid (s ∷ ss) = if s.sid == sid then some s else find_session sid ss

-- A session in its new state.
unfoldable pub put_session : Session → List Session → List Session
put_session s [] = []
put_session s (t ∷ ts) = (if t.sid == s.sid then s else t) ∷ put_session s ts

-- `delete(h.sessions, s)`
unfoldable pub drop_session : ℕ → List Session → List Session
drop_session sid [] = []
drop_session sid (s ∷ ss) =
    let rest = drop_session sid ss in if s.sid == sid then rest else s ∷ rest

-- `ServeConn` up to `run`, of a connection from an address at a time.
unfoldable pub connect : ℕ → Text → Server → Server
connect now remote srv =
    let n = (srv.sids + 1) % 2 ^ 64 in
    let s : Session = record {
      sid = n;
      name = remote;
      closed = false;
      unsub = [];
      inflight = [];
      rep_ack = [];
      last_seen = now;
    } in
    record srv { sids = n; sessions = srv.sessions ++ s ∷ [] }

-- What `ServeConn` does at its end.
unfoldable pub leave : (Text → Env) → Session → Server → Server
unfolding drop_session
leave es s srv = record srv {
  hub = (close_session es s srv.hub).1;
  sessions = drop_session s.sid srv.sessions;
}

-- A subscription whose confirmation cannot be written is cancelled; it is the last of the session's.
unfoldable pub cancel_last : List ℕ → Bus → Bus
cancel_last [] b = b
cancel_last (c ∷ []) b = unsub c b
cancel_last (c ∷ d ∷ cs) b = cancel_last (d ∷ cs) b

unfoldable pub cancel_sub : Op → Bool → Option Failure → List ℕ → Bus → Bus
unfolding cancel_last
cancel_sub subs false none cs b = cancel_last cs b
cancel_sub _ _ _ cs b = b

-- The frame of a round, if there is one, is written to the session.
unfoldable pub answer : (Text → Env) → Bool → Option Frame → Session → Hub → Session × Hub × Bool
answer es works none s h = (s, h, true)
answer es works (some out) s h = reply es works s h

-- A frame for another session is written to it, if that still runs.
unfoldable pub route : (Text → Env) → Bool → Option (ℕ × Frame) → Server → Server
route es works none srv = srv
route es works (some (sid, out)) srv = elim (find_session sid srv.sessions) [
  | none ↦ srv
  | some dest ↦
      let (dest', h, sent) = reply es works dest srv.hub in
      record srv { hub = h; sessions = put_session dest' srv.sessions }
]

unfoldable pub touch : ℕ → Session → Session
touch now s = record s { last_seen = now }

-- `idleLocked`
unfoldable pub idle_for : ℕ → Session → ℤ
unfolding difference
idle_for now s = if s.last_seen == 0 then pos 0 else difference now s.last_seen

-- One round of `run`: the session handles a frame. Whether it can be written to, and whether the
-- session that a reply is for can, are arguments.
unfoldable pub turn :
    (Text → Env) → Env → Bool → Bool → (Failure → Text) → Frame → Session → Server → Server
unfolding answer route put_session cancel_sub touch
turn es e works works' text f s srv =
    let r = handle e (works && not s.closed) f (touch e.now s) srv.hub in
    let (s', h, sent) = answer es works (written_for text f r) r.session r.hub in
    let bus' = cancel_sub (op_of f.op) sent r.failure r.session.unsub h.bus in
    route es works' r.routed
      (record srv { hub = record h { bus = bus' }; sessions = put_session s' srv.sessions })

-- What `heartbeat` does at a tick, of a session that has been silent for so long.
pub data Beat : Type 0 where
  keeps pings dies : Beat

unfoldable pub beat_of : Hub → ℕ → ℤ → Beat
unfolding death at_least
beat_of h iv idle =
    if at_least idle (death h) then dies else if at_least idle (pos iv) then pings else keeps

unfoldable pub beat : (Text → Env) → Bool → Beat → Session → Hub → Session × Hub
unfolding reply
beat es works keeps s h = (s, h)
beat es works dies s h = close_session es s h
beat es works pings s h =
    let (s', h', sent) = reply es works s h in if sent then (s', h') else close_session es s' h'

-- A tick at a time; there is none without a positive interval, and a closed session's loop has ended.
unfoldable pub tick : (Text → Env) → Bool → ℕ → Session → Hub → Session × Hub
unfolding beat beat_of idle_for
tick es works now s h = elim h.heartbeat [
  | negsuc n ↦ (s, h)
  | pos iv ↦
      if iv == 0 || s.closed then (s, h) else beat es works (beat_of h iv (idle_for now s)) s h
]

-- `pumpSub`: the messages of a channel are written one after the other, each with whether it can be
-- written; the first that cannot is the last.
unfoldable pub pump_sub :
    (Text → Env) → List (Msg × Bool) → Session → Hub → Session × Hub × List Frame
unfolding reply
pump_sub es [] s h = (s, h, [])
pump_sub es ((m, works) ∷ ms) s h =
    let (s', h', sent) = reply es works s h in
    let (s'', h'', out) = pump_sub es ms s' h' in
    if sent then (s'', h'', msg_frame [] m ∷ out) else (s', h', [])

-- The sessions close one after the other.
unfoldable pub close_each : (Text → Env) → List Session → Hub → Hub
close_each es [] h = h
close_each es (s ∷ ss) h = close_each es ss (close_session es s h).1

-- `Hub.Close`, which visits the sessions in some order.
unfoldable pub close_hub : (Text → Env) → (List Session → List Session) → Server → Server
unfolding close_each close
close_hub es visited srv = record srv {
  hub = close_each es (visited srv.sessions) (record srv.hub { bus = close srv.hub.bus });
  sessions = [];
}
