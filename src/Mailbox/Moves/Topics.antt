-- ===== src/Mailbox/Moves/Topics.antt =====
-- internal/mailbox/mailbox.go: `Pub`, `Sub` and `unsub` change no mailbox.
use zmqcat.Base.{
  ℕ, refl, Bool, List, [], ◌∷◌, ◌++◌, false, ◌==◌, if◌then◌else◌, Text, arith, if_elim,
}
use zmqcat.Base.Dict.{Dict, insert, arrange}
use zmqcat.Mailbox.Defs.{Msg, Sub, Bus, Env}
use zmqcat.Mailbox.Boxes.{make_chan, send, close_chan}
use zmqcat.Mailbox.Topics.{make_room, offer, publish, replay, pub_msg, sub, close_sub, unsub}
use zmqcat.Mailbox.Moves.{quiet, Moves, done, next}

module _ {late : Bool} where
  offer-Moves : (c : ℕ) (m : Msg) {b b' : Bus} → Moves late b b' → Moves late b (offer c m b')
  unfolding offer
  offer-Moves c m {b} {b'} r =
      let sent : Moves late b (send c m b') = unfold send in next r (quiet refl refl refl) in
      ground (arith, sent)

  publish-Moves :
      (subs : List Sub) (m : Msg) {b b' : Bus} → Moves late b b' → Moves late b (publish subs m b')
  unfolding publish
  publish-Moves [] m r = r
  publish-Moves (s ∷ subs) m {b} r =
      publish-Moves subs m (if_elim (Moves late b) _ (λ _. offer-Moves s.ch m r) (λ _. r))

  replay-Moves :
      (entries : Dict Msg) (prefix : Text) (c : ℕ) {b b' : Bus}
      → Moves late b b'
      → Moves late b (replay entries prefix c b')
  unfolding replay
  replay-Moves [] prefix c r = r
  replay-Moves ((topic, m) ∷ entries) prefix c {b} r =
      replay-Moves entries prefix c (if_elim (Moves late b) _ (λ _. offer-Moves c m r) (λ _. r))

  pub pub_msg-Moves :
      (e : Env) (topic : Text) (m : Msg) (b : Bus) → Moves late b (pub_msg e topic m b).0
  unfolding pub_msg
  pub_msg-Moves e topic m b =
      let stay : Moves late b b = done in
      let msg : Msg = record m {
        name = topic;
        at_time = if m.at_time == 0 then e.now else m.at_time;
      } in
      let cached : Moves late b (record b { last = insert topic msg (make_room e topic b.last) }) =
        next stay (quiet refl refl refl) in
      ground (arith, stay, publish-Moves b.subs msg cached)

  pub sub-Moves : (e : Env) (prefix : Text) (b : Bus) → Moves late b (sub e prefix b).0
  unfolding sub make_chan close_chan
  sub-Moves e prefix b =
      let opened : Bus = make_chan (record { buf = []; shut = false }) b in
      let added : Bus = record opened {
        subs = b.subs ++ record { prefix = prefix; ch = b.next_chan } ∷ [];
      } in
      let refused : Moves late b (close_chan b.next_chan opened) =
        next done (quiet refl refl refl) in
      let accepted : Moves late b added = next done (quiet refl refl refl) in
      ground (arith, refused, replay-Moves (arrange e.order b.last) prefix b.next_chan accepted)

  close_sub-Moves :
      (c : ℕ) (subs : List Sub) {b b' : Bus} → Moves late b b' → Moves late b (close_sub c subs b')
  unfolding close_sub close_chan
  close_sub-Moves c [] r = r
  close_sub-Moves c (s ∷ subs) {b} r =
      close_sub-Moves c subs
        (if_elim (Moves late b) (s.ch == c) (λ _. next r (quiet refl refl refl)) (λ _. r))

  pub unsub-Moves : (c : ℕ) (b : Bus) → Moves late b (unsub c b)
  unfolding unsub
  unsub-Moves c b = next (close_sub-Moves c b.subs done) (quiet refl refl refl)
