-- ===== src/Client/Pongs.antt =====
-- client.go: the answers to pings, as they are on the connection.
use zmqcat.Base.{
  ◌+◌, ◌-◌, ◌≡◌, ◌≤◌, sym, ap, ◌∙◌, some, List, [], ◌∷◌, ◌++◌, Text, codes, append_assoc,
  append-nil, arith, length, length-append,
}
use zmqcat.Wire.{Json, Frame, Sink, no_frame, version, header, max_body, with_version}
use zmqcat.Wire.RoundTrip.{length-header}
use zmqcat.Wire.Room.{write_fits}
use zmqcat.Client.{answer_ping}
use zmqcat.Client.Steps.{frame_bytes, answer_pings}

-- The bytes of a `pong` for each ping, with the ping's id. JSON has an encoding of it within the
-- limit.
pub data Pongs (json : Json) : List Frame → Text → Type 0 where
  no_pongs : Pongs json [] []
  pong :
      {f : Frame} {fs : List Frame} {bytes : Text} (raw : Text)
      → json.marshal (record no_frame { v = version; op = codes "pong"; id = f.id }) ≡ some raw
      → length raw ≤ max_body
      → Pongs json fs bytes
      → Pongs json (f ∷ fs) (frame_bytes raw ++ bytes)

with_version-id : (f : Frame) → (with_version f).id ≡ f.id
unfolding with_version
with_version-id f = ground arith

-- On a connection with room, one ping is answered with its bytes.
answer_ping-pong :
    (json : Json) (f : Frame) (raw : Text) (w : Sink)
    → json.marshal (record no_frame { v = version; op = codes "pong"; id = f.id }) ≡ some raw
    → length raw ≤ max_body
    → 8 + length raw ≤ w.room
    → answer_ping json (with_version f) w
      ≡ record { out = w.out ++ header raw ++ raw; room = w.room - 8 - length raw }
unfolding answer_ping with_version
answer_ping-pong json f raw w coded small room =
    ap (λ id. answer_ping json (record no_frame { id = id }) w) (with_version-id f)
    ∙ ap (λ a. a.0)
        (write_fits json (record no_frame { op = codes "pong"; id = f.id }) raw w coded small room)

pub answer_pings-Pongs :
    (json : Json) {fs : List Frame} {bytes : Text} (ps : Pongs json fs bytes) (w : Sink)
    → length bytes ≤ w.room
    → (answer_pings json fs w).out ≡ w.out ++ bytes
answer_pings-Pongs json no_pongs w h = sym (append-nil w.out)
answer_pings-Pongs json (pong {f} {fs} {bytes} raw coded small ps) w h =
    let enough : 8 + length raw + length bytes ≤ w.room = omega (
      arith,
      length-append (frame_bytes raw) bytes,
      length-append (header raw) raw,
      length-header raw,
    ) in
    let w' : Sink = record { out = w.out ++ header raw ++ raw; room = w.room - 8 - length raw } in
    ap (λ s. (answer_pings json fs s).out) (answer_ping-pong json f raw w coded small (omega arith))
    ∙ answer_pings-Pongs json ps w' (omega arith)
    ∙ ap (λ o. o ++ bytes) (append_assoc w.out (header raw) raw)
    ∙ append_assoc w.out (frame_bytes raw) bytes
