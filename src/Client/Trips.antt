-- ===== src/Client/Trips.antt =====
-- client.go: one round trip, and what a failed one leaves behind.
use zmqcat.Base.{
  ◌+◌, ◌-◌, ◌≡◌, ◌<◌, ◌≤◌, refl, ap, ◌∙◌, true, false, Option, none, List, some, ◌++◌, Text, arith,
  length, take, text_eq, append_assoc,
}
use zmqcat.Wire.{Json, Frame, Sink, Error, broken, header, max_body, with_version}
use zmqcat.Wire.Op.{ping_op}
use zmqcat.Wire.RoundTrip.{Plain}
use zmqcat.Wire.Room.{write_fits, write_short}
use zmqcat.Client.{
  Client, Link, io, out_of_step, Reply, got, fails, read_skip_ping, with_id, next_id, exchange,
  round_trip,
}
use zmqcat.Client.Steps.{Pings, ping_bytes, frame_bytes, written, read_skip_ping-append}
use zmqcat.Client.Pongs.{Pongs, answer_pings-Pongs}

with_id_keeps :
    (link : Link) (req : Frame) (c : Client)
    → let c' = (with_id link req c).0 in
      (c'.desync ≡ c.desync) × (c'.unread ≡ c.unread) × (c'.out ≡ c.out) × (c'.name ≡ c.name)
unfolding with_id next_id
with_id_keeps link req c = ground arith

-- What `exchange` does after its write.
unfoldable pub after_write : Json → Link → Client → Sink × Option Error → Client × Reply
after_write json link c x = elim x.1 [
  | some e ↦ (record c { out = x.0.out }, fails (io e))
  | none ↦ read_skip_ping json link x.0.room (record c { out = x.0.out })
]

-- A frame that is within the limit, as it is sent.
pub record Fits (json : Json) (req : Frame) (raw : Text) : Type 0 where
  pub coded : json.marshal (with_version req) ≡ some raw
  pub small : length raw ≤ max_body

module _ (json : Json) (link : Link) (c : Client) where
  pub exchange_writes :
      (req : Frame) (raw : Text)
      → Fits json req raw
      → 8 + length raw ≤ link.room
      → exchange json link req c
        ≡ read_skip_ping json link
            (link.room - 8 - length raw)
            (record c { out = c.out ++ header raw ++ raw })
  unfolding exchange after_write
  exchange_writes req raw fits h =
      ap (after_write json link c)
        (write_fits json req raw (record { out = c.out; room = link.room }) fits.coded fits.small h)

  exchange_stops :
      (req : Frame) (raw : Text)
      → Fits json req raw
      → link.room < 8 + length raw
      → exchange json link req c
        ≡ (record c { out = c.out ++ take link.room (frame_bytes raw) }, fails (io broken))
  unfolding exchange after_write
  exchange_stops req raw fits h =
      ap (after_write json link c) (
        write_short json req raw (record { out = c.out; room = link.room }) fits.coded fits.small h)

module _ (json : Json) (link : Link) (req : Frame) (c : Client) where
  -- The request as it is sent, and the client after its id is made.
  abbrev pub sender : Client
  sender = (with_id link req c).0

  abbrev pub sent : Frame
  sent = (with_id link req c).1

  pub in_step : c.desync ≡ false → round_trip json link req c ≡ exchange json link sent sender
  unfolding round_trip
  in_step h = rw h refl

  -- A call on a session that is in step, over a connection that takes the request, gets the first
  -- frame that is not a ping.
  pub round_trip-got :
      (raw : Text) {fs : List Frame} (ps : Pings json fs) (f : Frame) (p : Plain json f)
      (rest : Text)
      → c.desync ≡ false
      → Fits json sent raw
      → 8 + length raw ≤ link.room
      → length p.raw ≤ max_body
      → text_eq f.op ping_op ≡ false
      → c.unread ++ link.arrives ≡ ping_bytes ps ++ (frame_bytes p.raw ++ rest)
      → let c' : Client = record sender { out = sender.out ++ header raw ++ raw } in
        round_trip json link req c ≡ (
          record c' {
            out = (written json link (link.room - 8 - length raw) c' ps).out;
            unread = rest;
          },
          got (with_version f),
        )
  round_trip-got raw ps f p rest h fits room small other bytes =
      let c' : Client = record sender { out = sender.out ++ header raw ++ raw } in
      in_step h
      ∙ exchange_writes json link sender sent raw fits room
      ∙ read_skip_ping-append json link (link.room - 8 - length raw) c' ps f p rest small other
          (ap (λ u. u ++ link.arrives) (with_id_keeps link req c).1 ∙ bytes)

  -- A call on a session that is in step, over a connection that takes the request and a `pong` for
  -- each ping, returns the first frame that is not a ping, whatever its id and its kind, and leaves
  -- what follows for the next call. What it has written is the request and then a `pong` for each
  -- ping before that frame, in their order and with their ids. JSON keeps the frames and they are
  -- within the limit.
  pub round_trip-first :
      (raw : Text) {fs : List Frame} {pongs : Text} (ps : Pings json fs) (qs : Pongs json fs pongs)
      (f : Frame) (p : Plain json f) (rest : Text)
      → c.desync ≡ false
      → Fits json sent raw
      → 8 + length raw + length pongs ≤ link.room
      → length p.raw ≤ max_body
      → text_eq f.op ping_op ≡ false
      → c.unread ++ link.arrives ≡ ping_bytes ps ++ (frame_bytes p.raw ++ rest)
      → ((round_trip json link req c).1 ≡ got (with_version f))
        × ((round_trip json link req c).0.unread ≡ rest)
        × ((round_trip json link req c).0.desync ≡ false)
        × ((round_trip json link req c).0.out ≡ c.out ++ frame_bytes raw ++ pongs)
  round_trip-first raw {fs} {pongs} ps qs f p rest h fits room small other bytes =
      let same = round_trip-got raw ps f p rest h fits (omega arith) small other bytes in
      let keeps = with_id_keeps link req c in
      let w : Sink = record {
        out = sender.out ++ header raw ++ raw;
        room = link.room - 8 - length raw;
      } in
      (
        ap (λ a. a.1) same,
        ap (λ a. a.0.unread) same,
        ap (λ a. a.0.desync) same ∙ keeps.0 ∙ h,
        ap (λ a. a.0.out) same
            ∙ answer_pings-Pongs json qs w (omega arith)
            ∙ ap (λ o. o ++ header raw ++ raw ++ pongs) keeps.2
            ∙ ap (λ o. o ++ pongs) (append_assoc c.out (header raw) raw),
      )

  -- A request that the connection takes only in part, as when a deadline passes in the write, fails
  -- with the connection's error. The part is on the connection, and yet the session is not marked as
  -- out of step.
  pub round_trip_short :
      (raw : Text)
      → c.desync ≡ false
      → Fits json sent raw
      → link.room < 8 + length raw
      → ((round_trip json link req c).1 ≡ fails (io broken))
        × ((round_trip json link req c).0.out ≡ c.out ++ take link.room (frame_bytes raw))
        × ((round_trip json link req c).0.desync ≡ false)
  round_trip_short raw h fits room =
      let same = in_step h ∙ exchange_stops json link sender sent raw fits room in
      let keeps = with_id_keeps link req c in
      (
        ap (λ a. a.1) same,
        ap (λ a. a.0.out) same ∙ ap (λ o. o ++ take link.room (frame_bytes raw)) keeps.2,
        ap (λ a. a.0.desync) same ∙ keeps.0 ∙ h,
      )

  -- A round trip on a session that is out of step fails, and neither reads nor writes.
  pub round_trip_out_of_step : c.desync ≡ true → round_trip json link req c ≡ (c, fails out_of_step)
  unfolding round_trip
  round_trip_out_of_step h = rw h refl
