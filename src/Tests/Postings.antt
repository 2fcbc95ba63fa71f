-- ===== src/Tests/Postings.antt =====
-- A run of a `Put` from a client to a hub and back.
use zmqcat.Base.{◌≡◌, refl, some, [], ◌∷◌, ◌++◌, codes, Text, false, arith, text_eq, if◌then◌else◌}
use zmqcat.Base.Decimal.{decimal}
use zmqcat.Base.Dict.{lookup, insert}
use zmqcat.Base.Int.{pos}
use zmqcat.Wire.{Json, Frame, Source, no_frame, frame, eof, header, with_version, read_counted}
use zmqcat.Wire.Op.{put_op, ok_op}
use zmqcat.Wire.RoundTrip.{Plain}
use zmqcat.Mailbox.Queues.{put}
use zmqcat.Mailbox.Index.{indexed}
use zmqcat.Mailbox.Boxes.{with_box}
use zmqcat.Mailbox.Persist.{persist_error}
use zmqcat.Client.{Link, with_id}
use zmqcat.Client.Calls.{new_client, put_call}
use zmqcat.Client.Steps.{no_pings, frame_bytes}
use zmqcat.Hub.{Session, Hub}
use zmqcat.Hub.Dispatch.{Failure, handle, written_for}
use zmqcat.Posting.{request, message, handled, told, put_call-put}
use zmqcat.Tests.{env, no_bus}

abbrev asked : Frame
asked = record no_frame { op = put_op; id = codes "0102-1"; name = codes "jobs"; text = codes "hi" }

abbrev confirmed : Frame
confirmed = record no_frame { op = ok_op; id = codes "0102-1"; name = codes "jobs" }

-- An encoding of the two frames.
abbrev json : Json
json = record {
  marshal = λ f. some (1 ∷ f.op);
  unmarshal = λ xs.
      if text_eq xs (1 ∷ put_op) then some (with_version asked) else some (with_version confirmed);
}

abbrev link : Link
link = record {
  arrives = frame_bytes (1 ∷ ok_op);
  ending = eof;
  room = 100;
  random = some (1 ∷ 2 ∷ []);
  now = 5;
}

abbrev session : Session
session = record {
  sid = 4;
  name = codes "peer";
  closed = false;
  unsub = [];
  inflight = [];
  rep_ack = [];
  last_seen = 7;
}

abbrev hub : Hub
hub = record {
  bus = no_bus;
  heartbeat = pos 0;
  liveness = pos 0;
  pending_ttl = pos 0;
  pending = [];
}

abbrev error_text : Failure → Text
error_text x = codes "no"

abbrev wire : Source
wire = record { avail = frame_bytes (1 ∷ put_op) ++ 90 ∷ []; ending = eof }

request-Plain : Plain json (request json link (codes "jobs") (codes "hi") [] new_client)
unfolding with_version with_id text_eq decimal
request-Plain = record {
  raw = 1 ∷ put_op;
  coded = refl;
  decoded = refl;
  known = refl;
  some_bytes = omega arith;
}

confirmed-Plain : Plain json confirmed
unfolding with_version text_eq
confirmed-Plain = record {
  raw = 1 ∷ ok_op;
  coded = refl;
  decoded = refl;
  known = refl;
  some_bytes = omega arith;
}

put_call-put_example :
    let r = request json link (codes "jobs") (codes "hi") [] new_client in
    let handled_put =
      handled json link (codes "jobs") (codes "hi") [] new_client env false session hub in
    let m = message json link (codes "jobs") (codes "hi") [] new_client session in
    ((read_counted json wire).2 ≡ frame (with_version r))
    × (handled_put.hub.bus ≡ (put env (codes "jobs") m no_bus).0)
    × ((put_call json link (codes "jobs") (codes "hi") [] new_client).1
        ≡ told error_text (codes "jobs") (put env (codes "jobs") m no_bus).1)
unfolding request-Plain confirmed-Plain handle written_for header indexed lookup with_box insert
    persist_error
put_call-put_example =
    put_call-put json link (codes "jobs") (codes "hi") [] new_client env false session hub
      error_text request-Plain confirmed confirmed-Plain no_pings [] (90 ∷ []) wire refl
      (omega arith) (omega arith) refl refl (omega arith) refl
