-- ===== src/Tests/Clients.antt =====
-- Runs of the theorems on clients.
use zmqcat.Base.{
  ℕ, ◌≡◌, refl, true, false, ◌==◌, some, [], ◌∷◌, ◌++◌, codes, Text, arith, take, if◌then◌else◌,
  text_eq,
}
use zmqcat.Base.Int.{pos}
use zmqcat.Wire.{Frame, Error, no_frame, eof, broken, header, with_version}
use zmqcat.Wire.RoundTrip.{Plain}
use zmqcat.Client.{
  Link, io, falls_out_of_step, got, fails, next_id, with_id, read_skip_ping, round_trip,
}
use zmqcat.Client.Calls.{new_client, request, request_frame}
use zmqcat.Client.Attempts.{IsRequested}
use zmqcat.Client.Outcomes.{request-IsRequested}
use zmqcat.Client.Retries.{copies, request-answered}
use zmqcat.Client.Steps.{Pings, no_pings, frame_bytes, ping_bytes, written, read_skip_ping-take}
use zmqcat.Client.Steps
use zmqcat.Client.Pongs.{Pongs, no_pongs, pong}
use zmqcat.Client.Trips.{Fits, sent, round_trip-first, round_trip_short}
use zmqcat.Client.Naming.{after_ids_injective}
use zmqcat.Tests.Inputs.{json, ping, ping-Plain}

abbrev ok : Frame
ok = record no_frame { op = codes "ok" }

ok-Plain : Plain json ok
unfolding with_version
ok-Plain = record {
  raw = 1 ∷ codes "ok";
  coded = refl;
  decoded = refl;
  known = refl;
  some_bytes = omega arith;
}

abbrev raw : Text
raw = 1 ∷ codes "req"

abbrev link : Link
link = record { arrives = []; ending = eof; room = 1000; random = some (1 ∷ 2 ∷ []); now = 5 }

-- A reply comes in the second attempt.
abbrev links : ℕ → Link
links i = record link { arrives = if i == 0 then [] else frame_bytes (1 ∷ codes "ok") ++ 90 ∷ [] }

request-IsRequested_example :
    let (c, id) = next_id link new_client in
    IsRequested json
      (λ i. link)
      (request_frame [] (codes "jobs") [] [] id)
      c
      3
      (request json (λ i. link) (codes "jobs") [] [] (pos 0) new_client).1
request-IsRequested_example =
    request-IsRequested json (λ i. link) (codes "jobs") [] [] (pos 0) new_client

request-Fits :
    Fits json (request_frame [] (codes "jobs") [] [] (next_id (links 0) new_client).1) raw
unfolding with_version
request-Fits = record { coded = refl; small = omega arith }

request-answered_example :
    let r = request json links (codes "jobs") [] [] (pos 0) new_client in
    (r.1 ≡ got (with_version ok)) × (r.0.out ≡ copies 2 (frame_bytes raw)) × (r.0.unread ≡ 90 ∷ [])
unfolding ok-Plain text_eq
request-answered_example =
    request-answered json links (codes "jobs") [] [] (pos 0) new_client raw 1 ok ok-Plain (90 ∷ [])
      (omega arith) (record { in_step = refl; all_read = refl }) request-Fits (λ j h. omega arith)
      (λ j h. ground (arith, h)) refl (omega arith) refl refl

one_ping : Pings json (ping ∷ [])
unfolding text_eq ping-Plain
one_ping = Steps.ping ping-Plain (omega arith) refl no_pings

-- A ping and three bytes of a frame.
abbrev cut_link : Link
cut_link = record link { arrives = frame_bytes (1 ∷ codes "ping") ++ take 3 (frame_bytes raw) }

read_skip_ping-take_example :
    (e : Error) × (read_skip_ping json cut_link 1000 new_client ≡ (
      record new_client {
        out = (written json cut_link 1000 new_client one_ping).out;
        unread = [];
        desync = true;
      },
      fails (falls_out_of_step e),
    ))
unfolding one_ping ping-Plain header
read_skip_ping-take_example =
    read_skip_ping-take json cut_link 1000 new_client one_ping raw 3 (omega arith) (omega arith)
      refl

abbrev asking : Frame
asking = record no_frame { op = codes "req"; id = codes "7" }

req-Fits : (link : Link) → Fits json (sent json link asking new_client) raw
unfolding with_version with_id
req-Fits link = record { coded = refl; small = omega arith }

-- Two pings come before the reply.
abbrev pinged : Link
pinged = record link {
  arrives =
      frame_bytes (1 ∷ codes "ping")
      ++ (frame_bytes (1 ∷ codes "ping") ++ [])
      ++ (frame_bytes (1 ∷ codes "ok") ++ 90 ∷ []);
}

two_pings : Pings json (ping ∷ ping ∷ [])
unfolding text_eq ping-Plain
two_pings =
    Steps.ping ping-Plain (omega arith) refl (Steps.ping ping-Plain (omega arith) refl no_pings)

two-Pongs :
    Pongs json
      (ping ∷ ping ∷ [])
      (frame_bytes (1 ∷ codes "pong") ++ (frame_bytes (1 ∷ codes "pong") ++ []))
two-Pongs =
    pong (1 ∷ codes "pong") refl (omega arith) (pong (1 ∷ codes "pong") refl (omega arith) no_pongs)

round_trip-first_example :
    let r = round_trip json pinged asking new_client in
    (r.1 ≡ got (with_version ok))
    × (r.0.unread ≡ 90 ∷ [])
    × (r.0.desync ≡ false)
    × (r.0.out
        ≡ frame_bytes raw
          ++ (frame_bytes (1 ∷ codes "pong") ++ (frame_bytes (1 ∷ codes "pong") ++ [])))
unfolding ok-Plain ping-Plain two_pings text_eq header
round_trip-first_example =
    round_trip-first json pinged asking new_client raw two_pings two-Pongs ok ok-Plain (90 ∷ [])
      refl (req-Fits pinged) (omega arith) (omega arith) refl refl

abbrev narrow : Link
narrow = record link { room = 5 }

round_trip_short_example :
    ((round_trip json narrow asking new_client).1 ≡ fails (io broken))
    × ((round_trip json narrow asking new_client).0.out ≡ take 5 (frame_bytes raw))
    × ((round_trip json narrow asking new_client).0.desync ≡ false)
round_trip_short_example =
    round_trip_short json narrow asking new_client raw refl (req-Fits narrow) (omega arith)

after_ids_injective_example : ◌≡◌ {A = ℕ} 3 3
after_ids_injective_example =
    after_ids_injective links 3 3 new_client tt (omega arith) (omega arith) (omega arith) refl
