-- ===== src/Mailbox/Redelivery.antt =====
-- internal/mailbox/mailbox.go: where a message goes whose lease ends without an acknowledgement.
use zmqcat.Base.{
  ℕ, ◌≡◌, refl, ap, sym, ◌∙◌, none, some, List, [], ◌∷◌, ◌++◌, Text, arith, text_eq_refl,
}
use zmqcat.Base.Dict.{
  Dict, lookup, lookup-insert, lookup-insert_self, lookup-erase, NodupKeys, insert-NodupKeys,
}
use zmqcat.Mailbox.Defs.{Msg, Delivery, Box, Bus, Disk, Env, no_box, box_of, queue, waiting}
use zmqcat.Mailbox.Persist.{persist}
use zmqcat.Mailbox.Boxes.{
  set_box, ensure_box, with_box, hand_over, send, close_chan, deliver_to, deliver,
}
use zmqcat.Mailbox.Expiry.{give_back}
use zmqcat.Mailbox.Leases.{nack}
use zmqcat.Mailbox.Views.{box_of-ensure_box}
use zmqcat.Mailbox.Placing.{OthersKeep}

-- How a message comes back to its mailbox.
pub data Redelivered (m : Msg) (b b' : Bus) : Type 0 where
  -- To the oldest waiter.
  handed :
      (w : ℕ) (ws : List ℕ)
      → waiting m.name b ≡ w ∷ ws
      → waiting m.name b' ≡ ws
      → queue m.name b' ≡ queue m.name b
      → (b'.chans w).buf ≡ (b.chans w).buf ++ m ∷ []
      → OthersKeep m.name b b'
      → Redelivered m b b'
  -- To the front of the queue, full or not.
  first :
      waiting m.name b ≡ []
      → queue m.name b' ≡ m ∷ queue m.name b
      → OthersKeep m.name b b'
      → Redelivered m b b'

deliver_to-Redelivered :
    (m : Msg) (ws : List ℕ) (b : Bus)
    → waiting m.name b ≡ ws
    → Redelivered m b (deliver_to m ws (box_of m.name b) b)
unfolding deliver_to hand_over set_box send close_chan
deliver_to-Redelivered m [] b idle =
    let longer : Box = record (box_of m.name b) { q = m ∷ queue m.name b } in
    first idle (ground (arith, lookup-insert_self m.name longer b.boxes))
      (λ n other. ground (arith, lookup-insert m.name n longer b.boxes))
deliver_to-Redelivered m (w ∷ ws) b idle =
    let shorter : Box = record (box_of m.name b) { waiters = ws } in
    handed w ws idle (ground (arith, lookup-insert_self m.name shorter b.boxes))
      (ground (arith, lookup-insert_self m.name shorter b.boxes)) (ground arith)
      (λ n other. ground (arith, lookup-insert m.name n shorter b.boxes))

Redelivered-ensure_box :
    (m : Msg) (b : Bus) {b' : Bus} → Redelivered m (ensure_box m.name b) b' → Redelivered m b b'
unfolding ensure_box
Redelivered-ensure_box m b (handed w ws p q r s others) =
    let e = box_of-ensure_box m.name m.name b in
    handed w ws (ap (λ bx. bx.waiters) (sym e) ∙ p) q (r ∙ ap (λ bx. bx.q) e) s
      (λ n o. others n o ∙ box_of-ensure_box m.name n b)
Redelivered-ensure_box m b (first p r others) =
    let e = box_of-ensure_box m.name m.name b in
    first (ap (λ bx. bx.waiters) (sym e) ∙ p) (r ∙ ap (λ bx. m ∷ bx.q) e)
      (λ n o. others n o ∙ box_of-ensure_box m.name n b)

pub deliver-Redelivered : (m : Msg) (b : Bus) → Redelivered m b (deliver m b)
unfolding deliver
deliver-Redelivered m b = Redelivered-ensure_box m b (deliver_to-Redelivered m _ _ refl)

deliver_to-keeps :
    (m : Msg) (ws : List ℕ) (bx : Box) (b : Bus)
    → ((deliver_to m ws bx b).inflight ≡ b.inflight) × ((deliver_to m ws bx b).path ≡ b.path)
unfolding deliver_to hand_over set_box send close_chan
deliver_to-keeps m [] bx b = (refl, refl)
deliver_to-keeps m (w ∷ ws) bx b = (refl, refl)

pub deliver-inflight : (m : Msg) (b : Bus) → (deliver m b).inflight ≡ b.inflight
unfolding deliver ensure_box
deliver-inflight m b = (deliver_to-keeps m _ _ _).0

pub deliver-path : (m : Msg) (b : Bus) → (deliver m b).path ≡ b.path
unfolding deliver ensure_box
deliver-path m b = (deliver_to-keeps m _ _ _).1

deliver_to-NodupKeys :
    (m : Msg) (ws : List ℕ) (bx : Box) (b : Bus)
    → NodupKeys b.boxes
    → NodupKeys (deliver_to m ws bx b).boxes
unfolding deliver_to hand_over set_box send close_chan
deliver_to-NodupKeys m [] bx b u = insert-NodupKeys m.name _ b.boxes u
deliver_to-NodupKeys m (w ∷ ws) bx b u = insert-NodupKeys m.name _ b.boxes u

pub deliver-NodupKeys : (m : Msg) (b : Bus) → NodupKeys b.boxes → NodupKeys (deliver m b).boxes
unfolding deliver ensure_box with_box
deliver-NodupKeys m b u =
    deliver_to-NodupKeys m _ _ _ (ground (arith, u, insert-NodupKeys m.name no_box b.boxes u))

-- Leases, index and disk have no part in it.
Redelivered-around :
    (m : Msg) (b : Bus) (inflight : Dict Delivery) (dedup : Dict ℕ) (disk : Disk) {b' : Bus}
    → Redelivered m (record b { inflight = inflight; dedup = dedup }) b'
    → Redelivered m b (record b' { disk = disk })
Redelivered-around m b inflight dedup disk (handed w ws p q r s others) = handed w ws p q r s others
Redelivered-around m b inflight dedup disk (first p r others) = first p r others

-- `Nack` gives the message of a lease back, also if the state cannot be written: to the oldest
-- waiter, or to the front of the queue. No other mailbox changes, and the lease is gone.
pub nack_redelivers :
    (e : Env) (id : Text) (b : Bus) (d : Delivery)
    → lookup id b.inflight ≡ some d
    → Redelivered d.msg b (nack e id b).0 × (lookup id (nack e id b).0.inflight ≡ none)
unfolding nack give_back persist
nack_redelivers e id b d h =
    rw (h, nack)
      (
        Redelivered-around d.msg b _ _ _ (deliver-Redelivered d.msg _),
        rw deliver-inflight (ground (arith, lookup-erase id id b.inflight, text_eq_refl id)),
      )
