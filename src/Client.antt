-- ===== src/Client.antt =====
-- client.go: the state of a session's client, its ids, and one round trip. What has come from the
-- hub and has not been read, and what was written, are part of the state.
pub mod Calls
pub mod Reading
pub mod Steps
pub mod Pongs
pub mod Trips
pub mod Attempts
pub mod Outcomes
pub mod Retries
pub mod Naming
use zmqcat.Base.{
  ℕ, zero, suc, ◌+◌, ◌/◌, ◌%◌, ◌^◌, Bool, true, false, Option, none, some, List, [], ◌∷◌, ◌++◌,
  Text, codes, length, ltb, is_empty, text_eq, if◌then◌else◌,
}
use zmqcat.Base.Decimal.{decimal}
use zmqcat.Wire.{
  Json, Frame, no_frame, Sink, Source, Answer, frame, failed, Error, write, read_counted,
}
use zmqcat.Wire.Op.{ping_op, pong_op}

pub record Client : Type 0 where
  pub name : Text
  pub seq : ℕ
  -- `none` until `prefixed` has run
  pub prefix : Option Text
  pub desync : Bool
  pub out : Text
  pub unread : Text

-- What a call meets: the bytes that come while it waits, and how the connection ends or the deadline
-- passes after them; how many bytes it takes until a write fails; what `rand.Read` gives, if it
-- works, and the time.
pub record Link : Type 0 where
  pub arrives : Text
  pub ending : Error
  pub room : ℕ
  pub random : Option Text
  pub now : ℕ

pub data Failure : Type 0 where
  -- an error of the connection or of a frame
  io : Error → Failure
  -- `ErrDesync`, of an earlier call or with the error that led to it
  out_of_step : Failure
  falls_out_of_step : Error → Failure
  -- an `err` frame: what the call was, and the text
  remote : Text → Text → Failure
  -- `ErrAbandoned`: the number of attempts and the last error
  abandoned : ℕ → Failure → Failure
  -- the loop of the model stopped short, which it never does
  unfinished : Failure

pub data Reply : Type 0 where
  got : Frame → Reply
  fails : Failure → Reply

-- `hex.EncodeToString`
unfoldable pub hex_digit : ℕ → ℕ
hex_digit n = if ltb n 10 then 48 + n else 87 + n

unfoldable pub hex : Text → Text
unfolding hex_digit
hex [] = []
hex (x ∷ xs) = hex_digit (x / 16 % 16) ∷ hex_digit (x % 16) ∷ hex xs

unfoldable pub fresh_prefix : Option Text → ℕ → Text
unfolding hex
fresh_prefix none now = decimal now
fresh_prefix (some bytes) now = hex bytes

-- `prefixed.Do`
unfoldable pub prefix_of : Link → Option Text → Text
unfolding fresh_prefix
prefix_of link none = fresh_prefix link.random link.now
prefix_of link (some p) = p

unfoldable pub next_id : Link → Client → Client × Text
unfolding prefix_of
next_id link c =
    let p = prefix_of link c.prefix in
    let n = (c.seq + 1) % 2 ^ 64 in
    (record c { prefix = some p; seq = n }, p ++ codes "-" ++ decimal n)

-- The answer to a ping, whose error is ignored.
unfoldable pub answer_ping : Json → Frame → Sink → Sink
answer_ping json f w = (write json (record no_frame { op = pong_op; id = f.id }) w).0

pub record Got : Type 0 where
  pub source : Source
  pub sink : Sink
  pub count : ℕ
  pub answer : Answer

-- The loop of `readSkipPing`, on fuel.
unfoldable pub skip_pings : Json → ℕ → Source → Sink → Option Got
unfolding answer_ping
skip_pings json zero r w = none
skip_pings json (suc fuel) r w =
    let (r', n, a) = read_counted json r in
    elim a [
      | failed e ↦ some (record { source = r'; sink = w; count = n; answer = failed e })
      | frame f ↦
          let rest = skip_pings json fuel r' (answer_ping json f w) in
          if text_eq f.op ping_op
          then rest
          else some (record { source = r'; sink = w; count = n; answer = frame f })
    ]

-- What `readSkipPing` makes of the end of its loop.
unfoldable pub settle_read : ℕ → Answer → Client → Client × Reply
settle_read n (frame f) c = (c, got f)
settle_read zero (failed e) c = (c, fails (io e))
settle_read (suc n) (failed e) c = (record c { desync = true }, fails (falls_out_of_step e))

unfoldable pub after_loop : Client → Option Got → Client × Reply
unfolding settle_read
after_loop c none = (c, fails unfinished)
after_loop c (some g) =
    settle_read g.count g.answer (record c { out = g.sink.out; unread = g.source.avail })

-- `readSkipPing`, with room for so many bytes of pongs. The fuel is one more than the bytes that
-- have come.
unfoldable pub read_skip_ping : Json → Link → ℕ → Client → Client × Reply
unfolding after_loop skip_pings
read_skip_ping json link room c =
    let avail = c.unread ++ link.arrives in
    after_loop c (
      skip_pings json (suc (length avail)) (record { avail = avail; ending = link.ending })
        (record { out = c.out; room = room }))

-- `req.ID = c.nextID()` for a request without an id.
unfoldable pub with_id : Link → Frame → Client → Client × Frame
unfolding next_id
with_id link req c =
    let (c', id) = next_id link c in
    if is_empty req.id then (c', record req { id = id }) else (c, req)

-- The request is written; then comes the reply.
unfoldable pub exchange : Json → Link → Frame → Client → Client × Reply
unfolding read_skip_ping
exchange json link req c =
    let (w, r) = write json req (record { out = c.out; room = link.room }) in
    elim r [
      | some e ↦ (record c { out = w.out }, fails (io e))
      | none ↦ read_skip_ping json link w.room (record c { out = w.out })
    ]

-- `roundTripTimeout`; a deadline is part of the link.
unfoldable pub round_trip : Json → Link → Frame → Client → Client × Reply
unfolding exchange with_id
round_trip json link req c =
    let (c', req') = with_id link req c in
    if c.desync then (c, fails out_of_step) else exchange json link req' c'
