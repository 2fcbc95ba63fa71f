-- ===== src/Hub/Dispatch.antt =====
-- internal/hub/hub.go: `handle`, and what `run` makes of its errors.
use zmqcat.Base.{
  ℕ, Bool, true, false, Option, none, some, [], ◌∷◌, ◌++◌, Text, codes, text_eq, is_empty,
  if◌then◌else◌,
}
use zmqcat.Wire.{Frame, no_frame, payload}
use zmqcat.Wire.Op.{
  hello_op, put_op, take_op, pub_op, sub_op, unsub_op, ok_op, err_op, ping_op, pong_op, reserve_op,
  ack_op, nack_op, ready_op, req_op, rep_op,
}
use zmqcat.Mailbox.Defs.{Env, Error, Msg}
use zmqcat.Mailbox.Queues.{put}
use zmqcat.Mailbox.Leases.{ack, nack}
use zmqcat.Mailbox.Topics.{pub_msg, sub}
use zmqcat.Hub.{Session, Hub}
use zmqcat.Hub.Ids.{scoped_id, from_of}
use zmqcat.Hub.Leases.{drop_inflight, unsub_each}
use zmqcat.Hub.Requests.{Refusal, req, rep}

-- The cases of the switch.
pub data Op : Type 0 where
  hello ping pong puts takes readies reserves acks nacks asks answers pubs subs unsubs other : Op

unfoldable pub op_of : Text → Op
op_of op =
    if text_eq op hello_op
    then hello
    else if text_eq op ping_op
    then ping
    else if text_eq op pong_op
    then pong
    else if text_eq op put_op
    then puts
    else if text_eq op take_op
    then takes
    else if text_eq op ready_op
    then readies
    else if text_eq op reserve_op
    then reserves
    else if text_eq op ack_op
    then acks
    else if text_eq op nack_op
    then nacks
    else if text_eq op req_op
    then asks
    else if text_eq op rep_op
    then answers
    else if text_eq op pub_op
    then pubs
    else if text_eq op sub_op
    then subs
    else if text_eq op unsub_op
    then unsubs
    else other

pub data Failure : Type 0 where
  refused : Refusal → Failure
  bus_error : Error → Failure

-- A goroutine that a handler starts: `takeJob`, which keeps the job or not, or `reserveJob`.
pub data Started : Type 0 where
  takes_job : Bool → Started
  reserves_job : Started

-- What a handler leaves: its frame for the session itself, if any; a frame for another session; or
-- an error; and what it starts.
pub record Handled : Type 0 where
  pub session : Session
  pub hub : Hub
  pub reply : Option Frame
  pub routed : Option (ℕ × Frame)
  pub failure : Option Failure
  pub started : Option Started

unfoldable pub replies : Frame → Session → Hub → Handled
replies out s h = record {
  session = s;
  hub = h;
  reply = some out;
  routed = none;
  failure = none;
  started = none;
}

unfoldable pub silent : Session → Hub → Handled
silent s h = record {
  session = s;
  hub = h;
  reply = none;
  routed = none;
  failure = none;
  started = none;
}

unfoldable pub fails : Failure → Session → Hub → Handled
fails x s h = record {
  session = s;
  hub = h;
  reply = none;
  routed = none;
  failure = some x;
  started = none;
}

unfoldable pub ok_frame : Frame → Frame
ok_frame f = record no_frame { op = ok_op; id = f.id }

unfoldable pub named_ok : Frame → Frame
named_ok f = record no_frame { op = ok_op; id = f.id; name = f.name }

-- A call of the bus is confirmed, or its error is returned.
unfoldable pub after_bus : Frame → Session → Hub → Option Error → Handled
unfolding replies fails
after_bus out s h none = replies out s h
after_bus out s h (some x) = fails (bus_error x) s h

-- `Ack` and `Nack` of a client, which drop the lease from the session if the bus knew it.
unfoldable pub after_release : Frame → Session → Hub → Option Error → Handled
unfolding replies fails drop_inflight ok_frame
after_release f s h none = replies (ok_frame f) (drop_inflight f.delivery s) h
after_release f s h (some x) = fails (bus_error x) s h

unfoldable pub after_req : Session → Hub → Option Refusal → Handled
unfolding silent fails
after_req s h none = silent s h
after_req s h (some x) = fails (refused x) s h

unfoldable pub after_sub : Frame → Session → Hub → ℕ → Option Error → Handled
unfolding replies fails named_ok
after_sub f s h c none = replies (named_ok f) (record s { unsub = s.unsub ++ c ∷ [] }) h
after_sub f s h c (some x) = fails (bus_error x) s h

unfoldable pub handle_op : Env → Bool → Op → Frame → Session → Hub → Handled
unfolding replies silent after_bus after_release after_req after_sub put scoped_id from_of payload
    ack nack req rep pub_msg sub unsub_each ok_frame named_ok
handle_op e confirmed hello f s h =
    let s' = if is_empty f.from then s else record s { name = f.from } in
    replies (record (ok_frame f) { from = s'.name }) s' h
handle_op e confirmed ping f s h = replies (record no_frame { op = pong_op; id = f.id }) s h
handle_op e confirmed pong f s h = silent s h
handle_op e confirmed puts f s h =
    let m : Msg = record {
      id = scoped_id s.sid f.id;
      name = [];
      from = from_of s f;
      body = payload f;
      at_time = 0;
    } in
    let (b, r) = put e f.name m h.bus in after_bus (named_ok f) s (record h { bus = b }) r
handle_op e confirmed takes f s h = record (silent s h) { started = some (takes_job false) }
handle_op e confirmed readies f s h = record (silent s h) { started = some (takes_job true) }
handle_op e confirmed reserves f s h = record (silent s h) { started = some reserves_job }
handle_op e confirmed acks f s h =
    let (b, r) = ack e f.delivery h.bus in after_release f s (record h { bus = b }) r
handle_op e confirmed nacks f s h =
    let (b, r) = nack e f.delivery h.bus in after_release f s (record h { bus = b }) r
handle_op e confirmed asks f s h = let (h', r) = req e s f h in after_req s h' r
handle_op e confirmed answers f s h =
    let (s', h', routed) = rep e confirmed s f h in
    record {
      session = s';
      hub = h';
      reply = some (ok_frame f);
      routed = routed;
      failure = none;
      started = none;
    }
handle_op e confirmed pubs f s h =
    let m : Msg = record {
      id = f.id;
      name = [];
      from = from_of s f;
      body = payload f;
      at_time = 0;
    } in
    let (b, r) = pub_msg e f.name m h.bus in after_bus (named_ok f) s (record h { bus = b }) r
handle_op e confirmed subs f s h =
    let (b, c, r) = sub e f.name h.bus in after_sub f s (record h { bus = b }) c r
handle_op e confirmed unsubs f s h =
    replies (ok_frame f) (record s { unsub = [] }) (record h { bus = unsub_each s.unsub h.bus })
handle_op e confirmed other f s h =
    replies (record no_frame { op = err_op; id = f.id; error = codes "unknown op " ++ f.op }) s h

unfoldable pub handle : Env → Bool → Frame → Session → Hub → Handled
unfolding handle_op op_of
handle e confirmed f s h = handle_op e confirmed (op_of f.op) f s h

-- What `run` writes for a frame: the reply, or a frame with the text of the error.
unfoldable pub written_for : (Failure → Text) → Frame → Handled → Option Frame
written_for text f r = elim r.failure [
  | none ↦ r.reply
  | some x ↦ some (record no_frame { op = err_op; id = f.id; error = text x })
]
