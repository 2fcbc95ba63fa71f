-- ===== src/Mailbox/Moves/Sections.antt =====
-- internal/mailbox/mailbox.go: every critical section is a sequence of moves.
use zmqcat.Base.{
  ℕ, ◌≡◌, refl, ap, subst, Bool, true, Option, none, some, List, [], ◌∷◌, ◌+◌, Text, inl, inr,
  arith, Option-cases, if_elim,
}
use zmqcat.Base.Dict.{lookup, insert, lookup-insert_self}
use zmqcat.Base.Int.{ℤ}
use zmqcat.Mailbox.Defs.{
  Error, Result, ok, err, Msg, Delivery, Bus, Env, or_no_box, box_of, queue, waiting,
}
use zmqcat.Mailbox.Index.{index_add}
use zmqcat.Mailbox.Persist.{persist, persist_error, rollback_elim}
use zmqcat.Mailbox.Boxes.{ensure_box, set_box, deliver}
use zmqcat.Mailbox.Expiry.{requeue_expired, expire_leases}
use zmqcat.Mailbox.Queues.{
  stamped, put_to, put, try_pop, try_take, filled_chan, chan_pop, take_chan, receive, remove_chan,
  late_arrival, cancel_waiter, requeue,
}
use zmqcat.Mailbox.Leases.{lease_or_minute, undo_hold, hold_locked, hold, ack, nack}
use zmqcat.Mailbox.Moves.{
  Move, quiet, hands, returns, leases, releases, waits, gives_up, Moves, done, next, Section, puts,
  tries, asks, receives, cancels, requeues, holds, acks, nacks, sweeps, publishes, subscribes,
  unsubscribes, is_cancel,
}
use zmqcat.Mailbox.Moves.Parts.{
  ensure_box-Moves, deliver-Moves, append-Moves, pop_first-Moves, give_back-Moves,
  requeue_expired-Moves,
}
use zmqcat.Mailbox.Moves.Topics.{pub_msg-Moves, sub-Moves, unsub-Moves}

module _ {late : Bool} where
  put_to-Moves :
      (e : Env) (m : Msg) (ws : List ℕ) {b b' : Bus}
      → waiting m.name b' ≡ ws
      → Moves late b b'
      → Moves late b (put_to e m ws (box_of m.name b') b').0
  unfolding put_to
  put_to-Moves e m [] {b} h r = ground (arith, append-Moves e m h r)
  put_to-Moves e m (w ∷ ws) h r = next r (hands m w ws h)

  put-Moves : (e : Env) (name : Text) (m : Msg) (b : Bus) → Moves late b (put e name m b).0
  unfolding put
  put-Moves e name m b =
      let d : Moves late b b = done in
      ground (arith, d, boxed, put_to-Moves e (stamped e name m) _ refl boxed)
    where
      boxed : Moves late b (ensure_box name b)
      boxed = ensure_box-Moves name done

  try_pop-Moves :
      (e : Env) (name : Text) (q : List Msg) {b b' : Bus}
      → queue name b' ≡ q
      → Moves late b b'
      → Moves late b (try_pop e name q b').0
  unfolding try_pop
  try_pop-Moves e name [] h r = r
  try_pop-Moves e name (m ∷ rest) h r = pop_first-Moves e.fault name m rest h r

  try_take-Moves : (e : Env) (name : Text) (b : Bus) → Moves late b (try_take e name b).0
  unfolding try_take
  try_take-Moves e name b =
      let d : Moves late b b = done in
      ground (arith, d, try_pop-Moves e name _ refl (requeue_expired-Moves e d))

  filled_chan-Moves :
      (m : Msg) (x : Option Error) {b b' : Bus}
      → Moves late b b'
      → Moves late b (filled_chan m b' x).0
  unfolding filled_chan
  filled_chan-Moves m none r = next r (quiet refl refl refl)
  filled_chan-Moves m (some x) r = r

  chan_pop-Moves :
      (e : Env) (name : Text) (q : List Msg) {b b' : Bus}
      → queue name b' ≡ q
      → Moves late b b'
      → Moves late b (chan_pop e name q b').0
  unfolding chan_pop
  chan_pop-Moves e name [] {b' = b'} h r =
      next (next r (quiet refl refl refl)) (waits name b'.next_chan h)
  chan_pop-Moves e name (m ∷ rest) h r =
      filled_chan-Moves m _ (pop_first-Moves e.fault name m rest h r)

  take_chan-Moves : (e : Env) (name : Text) (b : Bus) → Moves late b (take_chan e name b).0
  unfolding take_chan
  take_chan-Moves e name b =
      let d : Moves late b b = done in
      ground
        (arith, d, chan_pop-Moves e name _ refl (ensure_box-Moves name (requeue_expired-Moves e d)))

  receive-Move : (c : ℕ) (r : Result Msg) {b b' : Bus} → receive c b ≡ some (b', r) → Move late b b'
  unfolding receive
  receive-Move c r h = quiet (ground arith) (ground arith) (ground arith)

  late_arrival-Moves :
      (e : Env) (name : Text) (c : ℕ) {b b' : Bus} (o : Option (Bus × Result Msg))
      → late ≡ true
      → receive c b' ≡ o
      → Moves late b b'
      → Moves late b (late_arrival e name b' o)
  unfolding late_arrival
  late_arrival-Moves e name c none l h r = r
  late_arrival-Moves e name c (some (b'', err x)) l h r = next r (receive-Move c (err x) h)
  late_arrival-Moves e name c (some (b'', ok m)) l h r =
      next (next (next r (receive-Move c (ok m) h)) (returns name m l)) (quiet refl refl refl)

  cancel_waiter-Moves :
      (e : Env) (name : Text) (c : ℕ) (b : Bus)
      → late ≡ true
      → Moves late b (cancel_waiter e name c b)
  unfolding cancel_waiter
  cancel_waiter-Moves e name c b l = elim (Option-cases (lookup name b.boxes)) [
    | inl h ↦ rw (h, cancel_waiter) done
    | inr (bx, h) ↦
        rw (h, cancel_waiter)
          (late_arrival-Moves e name c _ l refl (
            subst
              (λ bx'.
                Moves late b (set_box name (record bx' { waiters = remove_chan c bx'.waiters }) b))
              (ap or_no_box h) (next done (gives_up name c))))
  ]

  requeue-Moves : (e : Env) (m : Msg) (b : Bus) → Moves late b (requeue e m b).0
  unfolding requeue
  requeue-Moves e m b =
      let d : Moves late b b = done in
      let kept : Moves late b (persist e.fault (deliver m b)).0 =
        next (deliver-Moves m d) (quiet refl refl refl) in
      ground (arith, d, kept)

  hold_locked-Moves :
      (e : Env) (d : Delivery) (b : Bus)
      → lookup d.id b.inflight ≡ none
      → Moves late b (hold_locked e d b).0
  unfolding hold_locked
  hold_locked-Moves e d b new =
      rollback_elim (Moves late b) (undo_hold d.id d.msg) _ (persist_error e.fault leased) held
        (next held (releases d.id d (lookup-insert_self d.id d b.inflight)))
    where
      leased : Bus
      leased = record b { inflight = insert d.id d b.inflight; dedup = index_add d.msg b.dedup }

      held : Moves late b (persist e.fault leased).0
      held = next (next done (leases d new)) (quiet refl refl refl)

  hold-Moves :
      (e : Env) (m : Msg) (lease : ℤ) (b : Bus)
      → lookup e.fresh b.inflight ≡ none
      → Moves late b (hold e m lease b).0
  unfolding hold
  hold-Moves e m lease b new =
      let stay : Moves late b b = done in
      let d : Delivery = record {
        id = e.fresh;
        msg = m;
        expires = e.now + lease_or_minute lease;
      } in
      ground (arith, stay, hold_locked-Moves e d b new)

  ack-Moves : (e : Env) (id : Text) (b : Bus) → Moves late b (ack e id b).0
  unfolding ack
  ack-Moves e id b = elim (Option-cases (lookup id b.inflight)) [
    | inl h ↦ rw (h, ack) done
    | inr (d, h) ↦ rw (h, ack) (next (next done (releases id d h)) (quiet refl refl refl))
  ]

  nack-Moves : (e : Env) (id : Text) (b : Bus) → Moves late b (nack e id b).0
  unfolding nack
  nack-Moves e id b = elim (Option-cases (lookup id b.inflight)) [
    | inl h ↦ rw (h, nack) done
    | inr (d, h) ↦ rw (h, nack) (next (give_back-Moves id d h done) (quiet refl refl refl))
  ]

  expire_leases-Moves : (e : Env) (b : Bus) → Moves late b (expire_leases e b)
  unfolding expire_leases
  expire_leases-Moves e b =
      if_elim (Moves late b) b.closed (λ _. done)
        λ _.
          if_elim (Moves late b) (requeue_expired e b).1 (λ _. next swept (quiet refl refl refl))
            (λ _. swept)
    where
      swept : Moves late b (requeue_expired e b).0
      swept = requeue_expired-Moves e done

  -- A critical section is a sequence of moves.
  pub Section-Moves :
      {b b' : Bus} (s : Section b b') → (is_cancel s ≡ true → late ≡ true) → Moves late b b'
  unfolding is_cancel
  Section-Moves {b} (puts e name m) l = put-Moves e name m b
  Section-Moves {b} (tries e name) l = try_take-Moves e name b
  Section-Moves {b} (asks e name) l = take_chan-Moves e name b
  Section-Moves (receives c r h) l = next done (receive-Move c r h)
  Section-Moves {b} (cancels e name c) l = cancel_waiter-Moves e name c b (l refl)
  Section-Moves {b} (requeues e m) l = requeue-Moves e m b
  Section-Moves {b} (holds e m lease new) l = hold-Moves e m lease b new
  Section-Moves {b} (acks e id) l = ack-Moves e id b
  Section-Moves {b} (nacks e id) l = nack-Moves e id b
  Section-Moves {b} (sweeps e) l = expire_leases-Moves e b
  Section-Moves {b} (publishes e topic m) l = pub_msg-Moves e topic m b
  Section-Moves {b} (subscribes e prefix) l = sub-Moves e prefix b
  Section-Moves {b} (unsubscribes c) l = unsub-Moves c b
