-- ===== src/Posting.antt =====
-- client.go and internal/hub/hub.go together: a `Put` of a client, from its arguments to the bus of
-- the hub and back.
use zmqcat.Base.{
  ◌+◌, ◌≡◌, ◌≤◌, refl, ap, sym, subst, ◌∙◌, Bool, false, Option, none, some, List, [], ◌∷◌, ◌++◌,
  Text, arith, length, is_empty, text_eq, if◌then◌else◌,
}
use zmqcat.Wire.{
  Json, Frame, no_frame, Source, frame, header, max_body, with_version, payload, read_counted,
}
use zmqcat.Wire.Op.{put_op, err_op, ping_op}
use zmqcat.Wire.RoundTrip.{Plain, read_counted-append}
use zmqcat.Mailbox.Defs.{Error, Msg, Env}
use zmqcat.Mailbox.Queues.{put}
use zmqcat.Client.{Client, Link, Failure, remote, Reply, got, next_id, with_id}
use zmqcat.Client.Calls.{put_call, checked, only_error, about}
use zmqcat.Client.Steps.{Pings, ping_bytes, frame_bytes}
use zmqcat.Client.Trips.{sent, round_trip-got}
use zmqcat.Hub.{Session, Hub}
use zmqcat.Hub.Ids.{scoped_id, from_of}
use zmqcat.Hub.Dispatch
use zmqcat.Hub.Dispatch.{
  Handled, bus_error, handle, handle_op, op_of, after_bus, named_ok, replies, written_for,
}

-- The frame of a `Put`, before it has an id.
abbrev pub put_request : Text → Text → Text → Text → Frame
put_request from name text body = record no_frame {
  op = put_op;
  name = name;
  from = from;
  text = text;
  body = body;
}

-- The message that the bus gets: the body, or the text where there is none, from the client by its
-- own name or by the one that its session has.
abbrev pub posted : Session → Text → Text → Text → Text → Msg
posted s from id text body = record {
  id = scoped_id s.sid id;
  name = [];
  from = if is_empty from then s.name else from;
  body = if is_empty body then text else body;
  at_time = 0;
}

-- What the client makes of the answer of the bus.
abbrev pub told : (Dispatch.Failure → Text) → Text → Option Error → Option Failure
told text name none = none
told text name (some x) = some (remote (about put_op name) (text (bus_error x)))

payload_of :
    (f : Frame) (text body : Text)
    → f.text ≡ text
    → f.body ≡ body
    → payload f ≡ (if is_empty body then text else body)
unfolding payload
payload_of f [] [] p q = rw (p, q) refl
payload_of f (t ∷ ts) [] p q = rw (p, q) refl
payload_of f text (x ∷ xs) p q = rw q (ground arith)

handle-put :
    (e : Env) (confirmed : Bool) (f : Frame) (s : Session) (h : Hub) (text body : Text)
    → f.op ≡ put_op
    → f.text ≡ text
    → f.body ≡ body
    → let r = put e f.name (posted s f.from f.id text body) h.bus in
      handle e confirmed f s h ≡ after_bus (named_ok f) s (record h { bus = r.0 }) r.1
unfolding handle handle_op op_of from_of text_eq
handle-put e confirmed f s h text body o p q =
    ap (λ op. handle_op e confirmed (op_of op) f s h) o
    ∙ ap
        (λ body'.
          let m : Msg = record {
            id = scoped_id s.sid f.id;
            name = [];
            from = if is_empty f.from then s.name else f.from;
            body = body';
            at_time = 0;
          } in
          let r = put e f.name m h.bus in after_bus (named_ok f) s (record h { bus = r.0 }) r.1)
        (payload_of f text body p q)

after_bus-bus :
    (out : Frame) (s : Session) (h : Hub) (x : Option Error) → (after_bus out s h x).hub ≡ h
unfolding after_bus replies Dispatch.fails
after_bus-bus out s h none = refl
after_bus-bus out s h (some x) = refl

-- The frame is no ping, and tells the client so much.
abbrev Tells : Text → Option Failure → Option Frame → Type 0
Tells name x none = Unit
Tells name x (some out) =
    (text_eq out.op ping_op ≡ false)
    × ((if text_eq out.op err_op then some (remote (about put_op name) out.error) else none) ≡ x)

after_bus-Tells :
    (text : Dispatch.Failure → Text) (name : Text) (f : Frame) (s : Session) (h : Hub)
    (x : Option Error)
    → Tells name (told text name x) (written_for text f (after_bus (named_ok f) s h x))
unfolding after_bus replies Dispatch.fails written_for named_ok text_eq
after_bus-Tells text name f s h none = (refl, refl)
after_bus-Tells text name f s h (some x) = (refl, refl)

checked-got :
    (what : Text) (r : Client × Reply) (g : Frame)
    → r.1 ≡ got (with_version g)
    → (only_error (checked what r)).1
      ≡ (if text_eq g.op err_op then some (remote what g.error) else none)
unfolding only_error checked with_version
checked-got what (c, x) g h =
    subst
      (λ y.
        (only_error (checked what (c, y))).1
        ≡ (if text_eq g.op err_op then some (remote what g.error) else none))
      (sym h) (ground arith)

module _ (json : Json) (link : Link) (name text body : Text) (c : Client) where
  -- The frame that the client sends.
  abbrev pub request : Frame
  request = sent json link (put_request c.name name text body) c

  -- What the hub answers it with, and what becomes of the hub.
  abbrev pub handled : Env → Bool → Session → Hub → Handled
  handled e confirmed s h = handle e confirmed (with_version request) s h

  -- The message that the hub is to put.
  abbrev pub message : Session → Msg
  message s = posted s c.name (next_id link c).1 text body

  handled_as :
      (e : Env) (confirmed : Bool) (s : Session) (h : Hub)
      → let r = put e name (message s) h.bus in
        handled e confirmed s h
        ≡ after_bus (named_ok (with_version request)) s (record h { bus = r.0 }) r.1
  unfolding with_id with_version
  handled_as e confirmed s h =
      handle-put e confirmed (with_version request) s h text body refl refl refl

  -- `Put` of a client that is in step, over a connection that takes its request, where the hub reads
  -- the request and its answer is the next frame that comes but for pings: the hub puts the text or
  -- the body into the mailbox, under the client's name and an id of its session, and the call
  -- returns nil where the bus accepted the message and else the error of the bus. JSON keeps the two
  -- frames, and they are within the limit.
  pub put_call-put :
      (e : Env) (confirmed : Bool) (s : Session) (h : Hub) (error_text : Dispatch.Failure → Text)
      (p : Plain json request) (out : Frame) (q : Plain json out) {fs : List Frame}
      (ps : Pings json fs) (rest more : Text) (r : Source)
      → c.desync ≡ false
      → length p.raw ≤ max_body
      → 8 + length p.raw ≤ link.room
      → r.avail ≡ header p.raw ++ p.raw ++ more
      → written_for error_text (with_version request) (handled e confirmed s h) ≡ some out
      → length q.raw ≤ max_body
      → c.unread ++ link.arrives ≡ ping_bytes ps ++ (frame_bytes q.raw ++ rest)
      → ((read_counted json r).2 ≡ frame (with_version request))
        × ((handled e confirmed s h).hub.bus ≡ (put e name (message s) h.bus).0)
        × ((put_call json link name text body c).1
            ≡ told error_text name (put e name (message s) h.bus).1)
  unfolding put_call
  put_call-put e confirmed s h error_text p out q ps rest more r h₁ small room bytes answer short
        arrival =
      let b = put e name (message s) h.bus in
      let same = handled_as e confirmed s h in
      let tells : Tells name (told error_text name b.1) (some out) =
        subst (Tells name (told error_text name b.1))
          (ap (written_for error_text (with_version request)) (sym same) ∙ answer)
          (after_bus-Tells error_text name (with_version request) s _ b.1) in
      let reply =
        round_trip-got json link (put_request c.name name text body) c p.raw ps out q rest h₁
          (record { coded = p.coded; small = small }) room short tells.0 arrival in
      (
        ap (λ a. a.2) (read_counted-append json request p more r small bytes),
        ap (λ a. a.hub.bus) same
            ∙ ap (λ g. g.bus) (after_bus-bus (named_ok (with_version request)) s _ b.1),
        checked-got (about put_op name) _ out (ap (λ a. a.1) reply) ∙ tells.1,
      )
