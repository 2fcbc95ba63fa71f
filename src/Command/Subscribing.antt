-- ===== src/Command/Subscribing.antt =====
-- cmd/zmqcat/main.go: what `sub` prints, and that it ends with the stream.
use zmqcat.Base.{
  ℕ, zero, suc, ◌≡◌, ◌≢◌, ◌<◌, ◌≤◌, refl, ap, ◌∙◌, false, none, some, List, [], ◌∷◌, ◌++◌, Text,
  arith, append-nil, length, length-append, text_eq, ap₂, inl, inr, Bool-cases, codes, is_empty,
  if◌then◌else◌,
}
use zmqcat.Wire.{Json, Frame, eof, header, with_version, payload, max_body}
use zmqcat.Wire.Op.{ping_op}
use zmqcat.Wire.RoundTrip.{Plain}
use zmqcat.Client
use zmqcat.Client.{
  Link, Failure, io, unfinished, out_of_step, falls_out_of_step, remote, abandoned, Reply, got,
  fails, read_skip_ping,
}
use zmqcat.Client.Calls.{recv}
use zmqcat.Client.Reading.{IsSettled, read_skip_ping-IsSettled, read_skip_ping-unread}
use zmqcat.Client.Steps.{
  Pings, written, ping_bytes, frame_bytes, read_skip_ping-append, read_skip_ping-nil,
}
use zmqcat.Command.Clients.{
  call_fails, Ran, fault_only, line, line_of, quiet_link, before, receive_all, Host, subscribed,
}

-- What comes on a subscription: frames, with pings before and after them.
pub data Feed (json : Json) : List Frame → Type 0 where
  ends : {pings : List Frame} → Pings json pings → Feed json []
  feeds :
      {pings : List Frame} {f : Frame} {fs : List Frame}
      → Pings json pings
      → (p : Plain json f) → length p.raw ≤ max_body
      → text_eq f.op ping_op ≡ false
      → Feed json fs
      → Feed json (f ∷ fs)

abbrev pub feed_bytes : {json : Json} {fs : List Frame} → Feed json fs → Text
feed_bytes (ends ps) = ping_bytes ps
feed_bytes (feeds ps p h e feed) = ping_bytes ps ++ (frame_bytes p.raw ++ feed_bytes feed)

-- The lines for the frames, in their order.
abbrev pub lines : List Frame → Text
lines [] = []
lines (f ∷ fs) = line_of f ++ lines fs

line_of-with_version : (f : Frame) → line_of (with_version f) ≡ line_of f
unfolding line_of with_version line payload
line_of-with_version f = ground arith

-- What `sub` does after a read.
abbrev after_recv : Json → ℕ → Link → Client.Client × Reply → Ran
after_recv json fuel link (c', r) = elim r [
  | fails (io eof) ↦ record { output = []; fault = none }
  | fails x ↦ fault_only (call_fails x)
  | got f ↦ before (line_of f) (receive_all json fuel (quiet_link link) c')
]

receive_all_lem :
    (json : Json) (fuel : ℕ) (link : Link) (c : Client.Client)
    → receive_all json (suc fuel) link c
      ≡ after_recv json fuel link (read_skip_ping json link link.room c)
unfolding receive_all recv
receive_all_lem json fuel link c = refl

receive_all-lines :
    (json : Json) {fs : List Frame} (feed : Feed json fs) (fuel : ℕ) (link : Link)
    (c : Client.Client)
    → link.ending ≡ eof
    → c.unread ++ link.arrives ≡ feed_bytes feed
    → length (c.unread ++ link.arrives) < fuel
    → receive_all json fuel link c ≡ record { output = lines fs; fault = none }
receive_all-lines json feed zero link c h bytes enough = absurd (omega arith)
receive_all-lines json (ends ps) (suc fuel) link c h bytes enough =
    receive_all_lem json fuel link c
    ∙ ap (after_recv json fuel link) (read_skip_ping-nil json link link.room c ps bytes)
    ∙ ap
        (λ e.
          after_recv json fuel link
            (record c { out = (written json link link.room c ps).out; unread = [] }, fails (io e)))
        h
receive_all-lines json (feeds {pings} {f} {fs} ps p small other feed) (suc fuel) link c h bytes
      enough =
    let rest = feed_bytes feed in
    let c' : Client.Client = record c {
      out = (written json link link.room c ps).out;
      unread = rest;
    } in
    let fewer : length (rest ++ []) < fuel = omega (
      arith,
      ap length bytes,
      length-append (ping_bytes ps) (frame_bytes p.raw ++ rest),
      length-append (frame_bytes p.raw) rest,
      length-append (header p.raw) p.raw,
      p.some_bytes,
      ap length (append-nil rest),
    ) in
    receive_all_lem json fuel link c
    ∙ ap (after_recv json fuel link)
        (read_skip_ping-append json link link.room c ps f p rest small other bytes)
    ∙ ap (before (line_of (with_version f)))
        (receive_all-lines json feed fuel (quiet_link link) c' h (append-nil rest) fewer)
    ∙ ap (λ t. record { output = t ++ lines fs; fault = none }) (line_of-with_version f)

-- A read takes some of the bytes, so that the loop ends.
receive_all-ne-unfinished :
    (json : Json) (fuel : ℕ) (link : Link) (c : Client.Client)
    → length (c.unread ++ link.arrives) < fuel
    → (receive_all json fuel link c).fault ≢ some (call_fails unfinished)
receive_all-ne-unfinished json zero link c h = absurd (omega arith)
receive_all-ne-unfinished json (suc fuel) link c h = rw (receive_all_lem json fuel link c) (
    go (read_skip_ping json link link.room c) (read_skip_ping-IsSettled json link link.room c)
      (λ f e.
        receive_all-ne-unfinished json fuel (quiet_link link)
          (read_skip_ping json link link.room c).0
          (omega (
            arith,
            read_skip_ping-unread json link link.room c f e,
            ap length (append-nil (read_skip_ping json link link.room c).0.unread),
          ))))
  where
    go :
        (a : Client.Client × Reply)
        → IsSettled a.1
        → ((f : Frame)
            → a.1 ≡ got f
            → (receive_all json fuel (quiet_link link) a.0).fault ≢ some (call_fails unfinished))
        → (after_recv json fuel link a).fault ≢ some (call_fails unfinished)
    go (c', got f) s next e = next f refl e
    go (c', fails (io eof)) s next e = cc
    go (c', fails (io x)) s next e = cc
    go (c', fails (falls_out_of_step x)) s next e = cc
    go (c', fails out_of_step) s next e = absurd s
    go (c', fails (remote a b)) s next e = absurd s
    go (c', fails (abandoned a b)) s next e = absurd s
    go (c', fails unfinished) s next e = absurd s

-- The frames that carry messages, in their order.
abbrev pub messages : List Frame → List Frame
messages [] = []
messages (f ∷ fs) = if text_eq f.op (codes "msg") then f ∷ messages fs else messages fs

-- A line for each: its name, its sender and its body, or its text where it has no body, with tabs
-- between them.
abbrev pub printed : List Frame → Text
printed [] = []
printed (f ∷ fs) =
    (f.name ++ (9 ∷ f.from) ++ (9 ∷ (if is_empty f.body then f.text else f.body)) ++ 10 ∷ [])
    ++ printed fs

payload_of :
    (f : Frame) (text body : Text)
    → f.text ≡ text
    → f.body ≡ body
    → payload f ≡ (if is_empty body then text else body)
unfolding payload
payload_of f [] [] p q = rw (p, q) refl
payload_of f (t ∷ ts) [] p q = rw (p, q) refl
payload_of f text (x ∷ xs) p q = rw q (ground arith)

line-printed :
    (f : Frame)
    → line f
      ≡ f.name ++ (9 ∷ f.from) ++ (9 ∷ (if is_empty f.body then f.text else f.body)) ++ 10 ∷ []
unfolding line
line-printed f =
    ap (λ t. f.name ++ (9 ∷ f.from) ++ (9 ∷ t) ++ 10 ∷ []) (payload_of f f.text f.body refl refl)

lines-printed : (fs : List Frame) → lines fs ≡ printed (messages fs)
unfolding line_of
lines-printed [] = refl
lines-printed (f ∷ fs) = elim (Bool-cases (text_eq f.op (codes "msg"))) [
  | inl e ↦ rw e (ap₂ ◌++◌ (line-printed f) (lines-printed fs))
  | inr e ↦ rw e (lines-printed fs)
]

-- Once it has subscribed, `sub` prints a line for each frame of the kind `msg`, in their order, and
-- nothing for other frames and for pings; it ends without an error where the stream ends between two frames. The
-- frames are within the limit and JSON keeps them.
pub subscribed-lines :
    (h : Host) (c : Client.Client) {fs : List Frame} (feed : Feed h.json fs)
    → (h.links 3).ending ≡ eof
    → c.unread ++ (h.links 3).arrives ≡ feed_bytes feed
    → subscribed h c ≡ record { output = printed (messages fs); fault = none }
unfolding subscribed
subscribed-lines h c {fs} feed e bytes =
    receive_all-lines h.json feed (suc (length (c.unread ++ (h.links 3).arrives))) (h.links 3) c e
      bytes (omega arith)
    ∙ ap (λ t. record { output = t; fault = none }) (lines-printed fs)

-- Whatever bytes come, `sub` ends when they do: no read fails to take some of them.
pub subscribed-ne-unfinished :
    (h : Host) (c : Client.Client) → (subscribed h c).fault ≢ some (call_fails unfinished)
unfolding subscribed
subscribed-ne-unfinished h c =
    receive_all-ne-unfinished h.json (suc (length (c.unread ++ (h.links 3).arrives))) (h.links 3) c
      (omega arith)
