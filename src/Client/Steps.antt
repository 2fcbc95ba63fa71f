-- ===== src/Client/Steps.antt =====
-- client.go: what `readSkipPing` finds on a stream that the hub has written, or a part of it.
use zmqcat.Base.{
  ℕ, zero, suc, ◌+◌, ◌≡◌, ◌<◌, ◌≤◌, refl, sym, ap, ◌∙◌, true, false, ◌||◌, not, ◌==◌, Option, some,
  List, [], ◌∷◌, ◌++◌, Text, append_assoc, append-nil, arith, length, take, length-append, text_eq,
  if◌then◌else◌,
}
use zmqcat.Wire.{
  Json, Frame, Source, Sink, Answer, Error, frame, failed, header, max_body, with_version,
}
use zmqcat.Wire.Op.{ping_op}
use zmqcat.Wire.RoundTrip.{Plain, read_counted-append}
use zmqcat.Wire.Cut.{read_counted-take, read_counted-nil}
use zmqcat.Client.{
  Client, Link, io, falls_out_of_step, got, fails, Got, skip_pings, settle_read, after_loop,
  read_skip_ping, answer_ping,
}

-- Pings that JSON keeps and that are within the limit.
pub data Pings (json : Json) : List Frame → Type 0 where
  no_pings : Pings json []
  ping :
      {f : Frame} {fs : List Frame} (p : Plain json f)
      → length p.raw ≤ max_body
      → text_eq f.op ping_op ≡ true
      → Pings json fs
      → Pings json (f ∷ fs)

abbrev pub frame_bytes : Text → Text
frame_bytes raw = header raw ++ raw

abbrev pub ping_bytes : {json : Json} {fs : List Frame} → Pings json fs → Text
ping_bytes no_pings = []
ping_bytes (ping p h e ps) = frame_bytes p.raw ++ ping_bytes ps

-- The answers to some pings.
abbrev pub answer_pings : Json → List Frame → Sink → Sink
answer_pings json [] w = w
answer_pings json (f ∷ fs) w = answer_pings json fs (answer_ping json (with_version f) w)

pub with_version-op : (f : Frame) (op : Text) → text_eq (with_version f).op op ≡ text_eq f.op op
unfolding with_version
with_version-op f op = ground arith

module _ (json : Json) where
  -- The rest of a round of the loop, after a read.
  abbrev after_read : ℕ → Sink → Source × ℕ × Answer → Option Got
  after_read fuel w x = elim x.2 [
    | failed e ↦ some (record { source = x.0; sink = w; count = x.1; answer = failed e })
    | frame f ↦
        if text_eq f.op ping_op
        then skip_pings json fuel x.0 (answer_ping json f w)
        else some (record { source = x.0; sink = w; count = x.1; answer = frame f })
  ]

  -- One ping is answered and skipped.
  skip_ping :
      (fuel : ℕ) (f : Frame) (p : Plain json f) (rest : Text) (r : Source) (w : Sink)
      → length p.raw ≤ max_body
      → text_eq f.op ping_op ≡ true
      → r.avail ≡ frame_bytes p.raw ++ rest
      → skip_pings json (suc fuel) r w
        ≡ skip_pings json fuel (record r { avail = rest }) (answer_ping json (with_version f) w)
  unfolding skip_pings
  skip_ping fuel f p rest r w h e bytes =
      ap (after_read fuel w) (read_counted-append json f p rest r h bytes)
      ∙ rw (with_version-op f ping_op, e) refl

  -- So are all that come first; the fuel is still enough.
  skip_pings-append :
      {fs : List Frame} (ps : Pings json fs) (tail : Text) (fuel : ℕ) (r : Source) (w : Sink)
      → length r.avail < fuel
      → r.avail ≡ ping_bytes ps ++ tail
      → (left : ℕ) × (length tail < suc left)
        × (skip_pings json fuel r w
            ≡ skip_pings json (suc left) (record r { avail = tail }) (answer_pings json fs w))
  skip_pings-append ps tail zero r w h e = absurd (omega arith)
  skip_pings-append no_pings tail (suc fuel) r w h e = (
    fuel,
    omega (arith, ap length e),
    ap (λ a. skip_pings json (suc fuel) (record r { avail = a }) w) e,
  )
  skip_pings-append (ping {f} {fs} p small e ps) tail (suc fuel) r w h bytes =
      let rest = ping_bytes ps ++ tail in
      let parted : r.avail ≡ frame_bytes p.raw ++ rest =
        bytes ∙ append_assoc (frame_bytes p.raw) (ping_bytes ps) tail in
      let shorter : length rest < fuel = omega (
        arith,
        ap length parted,
        length-append (frame_bytes p.raw) rest,
        length-append (header p.raw) p.raw,
        p.some_bytes,
      ) in
      let (left, enough, same) =
        skip_pings-append ps tail fuel (record r { avail = rest })
          (answer_ping json (with_version f) w) shorter refl in
      (left, enough, skip_ping fuel f p rest r w small e parted ∙ same)

  -- A frame that is not a ping ends the loop.
  stops_at_frame :
      (fuel : ℕ) (f : Frame) (p : Plain json f) (rest : Text) (r : Source) (w : Sink)
      → length p.raw ≤ max_body
      → text_eq f.op ping_op ≡ false
      → r.avail ≡ frame_bytes p.raw ++ rest
      → skip_pings json (suc fuel) r w
        ≡ some (record {
          source = record r { avail = rest };
          sink = w;
          count = 8 + length p.raw;
          answer = frame (with_version f);
        })
  unfolding skip_pings
  stops_at_frame fuel f p rest r w h e bytes =
      ap (after_read fuel w) (read_counted-append json f p rest r h bytes)
      ∙ rw (with_version-op f ping_op, e) refl

  -- The first bytes of a frame end it too, when no more come.
  stops_at_cut :
      (fuel : ℕ) (raw : Text) (k : ℕ) (r : Source) (w : Sink)
      → length raw ≤ max_body
      → k < 8 + length raw
      → r.avail ≡ take k (frame_bytes raw)
      → (e : Error) × (skip_pings json (suc fuel) r w
          ≡ some
              (record { source = record r { avail = [] }; sink = w; count = k; answer = failed e }))
  unfolding skip_pings
  stops_at_cut fuel raw k r w h lt bytes =
      let (e, same) = read_counted-take json r raw k h lt bytes in (e, ap (after_read fuel w) same)

  module _ (link : Link) (room : ℕ) (c : Client) {fs : List Frame} (ps : Pings json fs) where
    -- The connection after the answers.
    abbrev pub written : Sink
    written = answer_pings json fs (record { out = c.out; room = room })

    -- Reading skips the pings that come first, answers each of them, and hands out the first other
    -- frame; what follows that frame is left to be read. The frames are within the limit and JSON
    -- keeps them.
    pub read_skip_ping-append :
        (f : Frame) (p : Plain json f) (rest : Text)
        → length p.raw ≤ max_body
        → text_eq f.op ping_op ≡ false
        → c.unread ++ link.arrives ≡ ping_bytes ps ++ (frame_bytes p.raw ++ rest)
        → read_skip_ping json link room c
          ≡ (record c { out = written.out; unread = rest }, got (with_version f))
    unfolding read_skip_ping after_loop settle_read
    read_skip_ping-append f p rest h e bytes =
        let avail = c.unread ++ link.arrives in
        let w : Sink = record { out = c.out; room = room } in
        let (left, enough, same) =
          skip_pings-append ps (frame_bytes p.raw ++ rest) (suc (length avail))
            (record { avail = avail; ending = link.ending }) w (omega arith) bytes in
        ap (after_loop c) (same ∙ stops_at_frame left f p rest _ (answer_pings json fs w) h e refl)

    -- Where only the first `k` bytes of a frame follow the pings, reading fails, and the session is
    -- marked as out of step exactly if `k` is not 0: after it, a whole number of frames has been
    -- read. The frames are within the limit and JSON keeps the pings.
    pub read_skip_ping-take :
        (raw : Text) (k : ℕ)
        → length raw ≤ max_body
        → k < 8 + length raw
        → c.unread ++ link.arrives ≡ ping_bytes ps ++ take k (frame_bytes raw)
        → (e : Error) × (read_skip_ping json link room c ≡ (
          record c { out = written.out; unread = []; desync = not (k == 0) || c.desync },
          fails (if k == 0 then io e else falls_out_of_step e),
        ))
    unfolding read_skip_ping after_loop settle_read
    read_skip_ping-take raw k h lt bytes =
        let avail = c.unread ++ link.arrives in
        let w : Sink = record { out = c.out; room = room } in
        let (left, enough, same) =
          skip_pings-append ps (take k (frame_bytes raw)) (suc (length avail))
            (record { avail = avail; ending = link.ending }) w (omega arith) bytes in
        let (e, same') = stops_at_cut left raw k _ (answer_pings json fs w) h lt refl in
        (e, ap (after_loop c) (same ∙ same') ∙ settled k e)
      where
        settled :
            (k : ℕ) (e : Error)
            → settle_read k (failed e) (record c { out = written.out; unread = [] }) ≡ (
              record c { out = written.out; unread = []; desync = not (k == 0) || c.desync },
              fails (if k == 0 then io e else falls_out_of_step e),
            )
        settled zero e = refl
        settled (suc k) e = ground arith

    -- Where the stream ends after the pings, reading fails with the stream's own error.
    pub read_skip_ping-nil :
        c.unread ++ link.arrives ≡ ping_bytes ps
        → read_skip_ping json link room c
          ≡ (record c { out = written.out; unread = [] }, fails (io link.ending))
    unfolding read_skip_ping after_loop settle_read skip_pings
    read_skip_ping-nil bytes =
        let avail = c.unread ++ link.arrives in
        let w : Sink = record { out = c.out; room = room } in
        let (left, enough, same) =
          skip_pings-append ps [] (suc (length avail))
            (record { avail = avail; ending = link.ending }) w (omega arith)
            (bytes ∙ sym (append-nil (ping_bytes ps))) in
        ap (after_loop c) (
          same
          ∙ ap (after_read left (answer_pings json fs w))
              (read_counted-nil json (record { avail = []; ending = link.ending }) refl))
