-- ===== src/Client/Calls.antt =====
-- client.go: the calls of a client.
use zmqcat.Base.{
  ℕ, zero, suc, ◌+◌, ◌/◌, ◌^◌, Bool, true, false, Option, none, some, [], ◌++◌, Text, codes,
  is_empty, text_eq, if◌then◌else◌,
}
use zmqcat.Base.Int.{ℤ, pos, negsuc}
use zmqcat.Wire.{Json, Frame, no_frame}
use zmqcat.Wire.Op.{
  hello_op, put_op, take_op, pub_op, sub_op, err_op, ping_op, pong_op, reserve_op, ack_op, nack_op,
  ready_op, req_op, rep_op,
}
use zmqcat.Client.{
  Client, Link, Failure, out_of_step, falls_out_of_step, remote, abandoned, unfinished, Reply, got,
  fails, next_id, round_trip, read_skip_ping,
}

-- An `err` frame is an error of the call.
unfoldable pub checked : Text → Client × Reply → Client × Reply
checked what (c, got f) =
    if text_eq f.op err_op then (c, fails (remote what f.error)) else (c, got f)
checked what (c, fails x) = (c, fails x)

abbrev pub error_of : Reply → Option Failure
error_of (got f) = none
error_of (fails x) = some x

unfoldable pub only_error : Client × Reply → Client × Option Failure
only_error (c, r) = (c, error_of r)

-- `verb name`, as the errors start.
unfoldable pub about : Text → Text → Text
about verb name = verb ++ codes " " ++ name

unfoldable pub hello_call : Json → Link → Text → Client → Client × Option Failure
unfolding checked only_error
hello_call json link name c =
    let c' = if is_empty name then c else record c { name = name } in
    only_error (
      checked hello_op
        (round_trip json link (record no_frame { op = hello_op; from = c'.name }) c'))

unfoldable pub put_call : Json → Link → Text → Text → Text → Client → Client × Option Failure
unfolding checked only_error about
put_call json link name text body c =
    let req : Frame = record no_frame {
      op = put_op;
      name = name;
      from = c.name;
      text = text;
      body = body;
    } in
    only_error (checked (about put_op name) (round_trip json link req c))

unfoldable pub take_call : Json → Link → Text → Client → Client × Reply
unfolding checked about
take_call json link name c =
    checked (about take_op name)
      (round_trip json link (record no_frame { op = take_op; name = name; from = c.name }) c)

-- `int64(lease / time.Second)`: the division is towards zero.
unfoldable pub seconds : ℤ → ℤ
seconds (pos n) = pos (n / 10 ^ 9)
seconds (negsuc n) = elim (suc n / 10 ^ 9) [ zero ↦ pos 0 | suc k ↦ negsuc k ]

unfoldable pub reserve_call : Json → Link → Text → ℤ → Client → Client × Reply
unfolding checked about seconds
reserve_call json link name lease c =
    let req : Frame = record no_frame {
      op = reserve_op;
      name = name;
      from = c.name;
      lease = seconds lease;
    } in
    checked (about reserve_op name) (round_trip json link req c)

unfoldable pub ack_call : Json → Link → Text → Client → Client × Option Failure
unfolding checked only_error
ack_call json link delivery c =
    only_error (
      checked ack_op
        (round_trip json link (record no_frame { op = ack_op; delivery = delivery }) c))

unfoldable pub nack_call : Json → Link → Text → Client → Client × Option Failure
unfolding checked only_error
nack_call json link delivery c = only_error (
    checked nack_op
      (round_trip json link (record no_frame { op = nack_op; delivery = delivery }) c))

unfoldable pub ready_call : Json → Link → Text → Client → Client × Reply
unfolding checked about
ready_call json link service c =
    checked (about ready_op service)
      (round_trip json link (record no_frame { op = ready_op; name = service; from = c.name }) c)

unfoldable pub rep_call : Json → Link → Text → Text → Text → Text → Client → Client × Option Failure
unfolding checked only_error
rep_call json link id name text body c =
    let req : Frame = record no_frame {
      op = rep_op;
      id = id;
      name = name;
      from = c.name;
      text = text;
      body = body;
    } in
    only_error (checked rep_op (round_trip json link req c))

unfoldable pub pub_call : Json → Link → Text → Text → Text → Client → Client × Option Failure
unfolding checked only_error about
pub_call json link topic text body c =
    let req : Frame = record no_frame {
      op = pub_op;
      name = topic;
      from = c.name;
      text = text;
      body = body;
    } in
    only_error (checked (about pub_op topic) (round_trip json link req c))

unfoldable pub sub_call : Json → Link → Text → Client → Client × Option Failure
unfolding checked only_error about
sub_call json link prefix c = only_error (
    checked (about sub_op prefix)
      (round_trip json link (record no_frame { op = sub_op; name = prefix; from = c.name }) c))

unfoldable pub recv : Json → Link → Client → Client × Reply
recv json link c = read_skip_ping json link link.room c

unfoldable pub pong_or_error : Client × Reply → Client × Option Failure
pong_or_error (c, got f) =
    if text_eq f.op pong_op
    then (c, none)
    else (c, some (remote (codes "ping: got " ++ f.op) f.error))
pong_or_error (c, fails x) = (c, some x)

unfoldable pub ping_call : Json → Link → Client → Client × Option Failure
unfolding pong_or_error
ping_call json link c = pong_or_error (round_trip json link (record no_frame { op = ping_op }) c)

-- `errors.Is(err, ErrDesync)`, of the error of a round trip or of an `err` frame.
abbrev pub is_desync : Failure → Bool
is_desync out_of_step = true
is_desync (falls_out_of_step e) = true
is_desync _ = false

-- The loop of `Request`: `n` attempts are left after `i`.
unfoldable pub attempt : Json → (ℕ → Link) → Frame → ℕ → ℕ → Failure → Client → Client × Reply
unfolding checked about
attempt json links req zero i last c = (c, fails (abandoned i last))
attempt json links req (suc n) i last c =
    let (c', r) = checked (about req_op req.name) (round_trip json (links i) req c) in
    elim r [
      | got f ↦ (c', got f)
      | fails x ↦
          let rest = attempt json links req n (i + 1) x c' in
          if is_desync x then (c', fails (abandoned (i + 1) x)) else rest
    ]

abbrev pub attempts_or_three : ℤ → ℕ
attempts_or_three (pos zero) = 3
attempts_or_three (pos (suc n)) = suc n
attempts_or_three (negsuc n) = 3

-- The frame that each attempt sends.
abbrev pub request_frame : Text → Text → Text → Text → Text → Frame
request_frame from name text body id = record no_frame {
  op = req_op;
  id = id;
  name = name;
  from = from;
  text = text;
  body = body;
}

-- `Request`; the timeout is part of each attempt's link.
unfoldable pub request : Json → (ℕ → Link) → Text → Text → Text → ℤ → Client → Client × Reply
unfolding attempt next_id
request json links name text body attempts c =
    let (c', id) = next_id (links 0) c in
    attempt json links (request_frame c.name name text body id) (attempts_or_three attempts) 0
      unfinished c'

abbrev pub new_client : Client
new_client = record { name = []; seq = 0; prefix = none; desync = false; out = []; unread = [] }

-- `Dial`, once the connection is there. The client is returned with the error.
unfoldable pub dial : Json → Link → Client × Option Failure
unfolding hello_call
dial json link = hello_call json link [] new_client
