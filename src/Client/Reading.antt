-- ===== src/Client/Reading.antt =====
-- client.go: `readSkipPing` always ends, and what it hands to its caller is not a ping.
use zmqcat.Base.{
  ℕ, zero, suc, ◌≡◌, ◌<◌, ◌≤◌, refl, sym, ap, ◌∙◌, false, Bool-cases, inl, inr, Option, some, ◌++◌,
  arith, length, length-append, text_eq, if◌then◌else◌,
}
use zmqcat.Wire.{Json, Frame, Source, Sink, Answer, frame, failed, read_counted}
use zmqcat.Wire.Op.{ping_op}
use zmqcat.Wire.Counting.{read_counted-Consumed, read_counted-frame}
use zmqcat.Client.{
  Client, Link, io, falls_out_of_step, Reply, got, fails, Got, skip_pings, settle_read, after_loop,
  read_skip_ping, answer_ping,
}

-- What a read may hand out: a frame that is not a ping, or an error of the connection.
abbrev pub IsSettled : Reply → Type 0
IsSettled (got f) = text_eq f.op ping_op ≡ false
IsSettled (fails (io e)) = Unit
IsSettled (fails (falls_out_of_step e)) = Unit
IsSettled (fails _) = ⊥

abbrev NotPing : Answer → Type 0
NotPing (failed e) = Unit
NotPing (frame f) = text_eq f.op ping_op ≡ false

-- What is left to read is no more, and after a frame it is less.
shrinks :
    (json : Json) (r : Source) (f : Frame)
    → (read_counted json r).2 ≡ frame f
    → length (read_counted json r).0.avail < length r.avail
shrinks json r f h =
    let c = read_counted-Consumed json r in
    omega (
      arith,
      ap length c.parted,
      length-append c.bytes (read_counted json r).0.avail,
      c.counted,
      read_counted-frame json r f h,
    )

-- A loop from `n` bytes ends with an answer that is not a ping, and a frame takes some of the bytes.
abbrev Ends : ℕ → Option Got → Type 0
Ends n o =
    (g : Got) × (o ≡ some g)
    × NotPing g.answer
    × ((f : Frame) → g.answer ≡ frame f → length g.source.avail < n)

Ends-mono : (n m : ℕ) (o : Option Got) → n ≤ m → Ends n o → Ends m o
Ends-mono n m o h (g, e, other, less) = (g, e, other, λ f a. omega (arith, less f a))

-- The loop ends within the fuel.
skip_pings_total :
    (json : Json) (fuel : ℕ) (r : Source) (w : Sink)
    → length r.avail < fuel
    → Ends (length r.avail) (skip_pings json fuel r w)
unfolding skip_pings
skip_pings_total json zero r w h = absurd (omega arith)
skip_pings_total json (suc fuel) r w h = go (read_counted json r).2 (shrinks json r) (λ f e.
    Ends-mono (length r'.avail) (length r.avail) _ (omega (arith, shrinks json r f e))
      (skip_pings_total json fuel r' (answer_ping json f w) (omega (arith, shrinks json r f e))))
  where
    r' : Source
    r' = (read_counted json r).0

    n : ℕ
    n = (read_counted json r).1

    go :
        (a : Answer)
        → ((f : Frame) → a ≡ frame f → length r'.avail < length r.avail)
        → ((f : Frame)
            → a ≡ frame f
            → Ends (length r.avail) (skip_pings json fuel r' (answer_ping json f w)))
        → Ends (length r.avail) (elim a [
          | failed e ↦ some (record { source = r'; sink = w; count = n; answer = failed e })
          | frame f ↦
              if text_eq f.op ping_op
              then skip_pings json fuel r' (answer_ping json f w)
              else some (record { source = r'; sink = w; count = n; answer = frame f })
        ])
    go (failed e) less next =
        (record { source = r'; sink = w; count = n; answer = failed e }, refl, tt, λ f a. cc)
    go (frame f) less next = elim (Bool-cases (text_eq f.op ping_op)) [
      | inl e ↦ rw e (next f refl)
      | inr e ↦ (
        record { source = r'; sink = w; count = n; answer = frame f },
        rw e refl,
        e,
        λ f' a. less f refl,
      )
    ]

settle_read-IsSettled :
    (n : ℕ) (a : Answer) (c : Client) → NotPing a → IsSettled (settle_read n a c).1
unfolding settle_read
settle_read-IsSettled n (frame f) c h = h
settle_read-IsSettled zero (failed e) c h = tt
settle_read-IsSettled (suc n) (failed e) c h = tt

settle_read-unread :
    (n : ℕ) (a : Answer) (c : Client) (f : Frame)
    → (settle_read n a c).1 ≡ got f
    → (a ≡ frame f) × ((settle_read n a c).0.unread ≡ c.unread)
unfolding settle_read
settle_read-unread n (frame g) c f h = (cc, refl)
settle_read-unread zero (failed e) c f h = cc
settle_read-unread (suc n) (failed e) c f h = cc

module _ (json : Json) (link : Link) (room : ℕ) (c : Client) where
  reads : Ends (length (c.unread ++ link.arrives)) (
      skip_pings json
        (suc (length (c.unread ++ link.arrives)))
        (record { avail = c.unread ++ link.arrives; ending = link.ending })
        (record { out = c.out; room = room }))
  reads =
      skip_pings_total json (suc (length (c.unread ++ link.arrives)))
        (record { avail = c.unread ++ link.arrives; ending = link.ending })
        (record { out = c.out; room = room }) (omega arith)

  -- Reading a reply ends, however many pings come first: it hands out a frame that is not a ping, or
  -- an error of the connection.
  pub read_skip_ping-IsSettled : IsSettled (read_skip_ping json link room c).1
  unfolding read_skip_ping after_loop
  read_skip_ping-IsSettled =
      let (g, e, other, less) = reads in
      rw e (
        settle_read-IsSettled g.count g.answer
          (record c { out = g.sink.out; unread = g.source.avail }) other)

  -- A frame takes some of the bytes that are there.
  pub read_skip_ping-unread :
      (f : Frame)
      → (read_skip_ping json link room c).1 ≡ got f
      → length (read_skip_ping json link room c).0.unread < length (c.unread ++ link.arrives)
  unfolding read_skip_ping after_loop
  read_skip_ping-unread f h =
      let (g, e, other, less) = reads in
      let c' : Client = record c { out = g.sink.out; unread = g.source.avail } in
      let same = ap (after_loop c) e in
      let (a, left) = settle_read-unread g.count g.answer c' f (sym (ap (λ x. x.1) same) ∙ h) in
      omega (arith, less f a, ap (λ (x : Client × Reply). length x.0.unread) same, ap length left)
