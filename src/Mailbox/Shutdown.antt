-- ===== src/Mailbox/Shutdown.antt =====
-- internal/mailbox/mailbox.go: `Close`, and the calls that come after it.
use zmqcat.Base.{
  ◌≡◌, refl, ap, sym, subst, ◌∙◌, false, none, some, [], ◌∷◌, Text, arith, is_empty, text_eq,
}
use zmqcat.Base.Dict.{Dict, lookup, NodupKeys}
use zmqcat.Mailbox.Defs.{
  works, Msg, Delivery, Box, Bus, Env, Snapshot, state, or_no_box, box_of, queue,
}
use zmqcat.Mailbox.Persist.{nonempty_queues, snapshot, disk_steps, persisted, persist}
use zmqcat.Mailbox.Expiry.{give_back}
use zmqcat.Mailbox.Leases.{nack}
use zmqcat.Mailbox.Life.{emptied, close}
use zmqcat.Mailbox.Dedup.{IsIndexed}
use zmqcat.Mailbox.Redelivery.{
  Redelivered, handed, first, deliver-Redelivered, deliver-path, deliver-NodupKeys,
}
use zmqcat.Mailbox.Durable.{unsaved-nonempty_queues}

lookup-emptied : (n : Text) (boxes : Dict Box) → (or_no_box (lookup n (emptied boxes))).q ≡ []
unfolding lookup emptied
lookup-emptied n [] = refl
lookup-emptied n ((j, bx) ∷ boxes) = ground (arith, lookup-emptied n boxes)

absent-emptied :
    (n : Text) (boxes : Dict Box) → lookup n boxes ≡ none → lookup n (emptied boxes) ≡ none
unfolding lookup emptied
absent-emptied n [] h = refl
absent-emptied n ((j, bx) ∷ boxes) h = ground (arith, absent-emptied n boxes)

emptied-NodupKeys : (boxes : Dict Box) → NodupKeys boxes → NodupKeys (emptied boxes)
unfolding emptied
emptied-NodupKeys [] u = u
emptied-NodupKeys ((j, bx) ∷ boxes) u = (absent-emptied j boxes u.0, emptied-NodupKeys boxes u.1)

pub close_lem :
    (b : Bus)
    → b.closed ≡ false
    → ((close b).boxes ≡ emptied b.boxes)
      × ((close b).inflight ≡ b.inflight)
      × ((close b).path ≡ b.path)
      × ((close b).disk ≡ b.disk)
unfolding close
close_lem b open_ = (ground arith, ground arith, ground arith, ground arith)

others-Redelivered :
    {m : Msg} {b b' : Bus} (n : Text)
    → text_eq m.name n ≡ false
    → Redelivered m b b'
    → box_of n b' ≡ box_of n b
others-Redelivered n other (handed w ws p q r s others) = others n other
others-Redelivered n other (first p r others) = others n other

saved-give_back :
    (id : Text) (d : Delivery) (n : Text) (b : Bus)
    → NodupKeys b.boxes
    → queue n b ≡ []
    → text_eq d.msg.name n ≡ false
    → lookup n (nonempty_queues (give_back id d b).boxes) ≡ none
unfolding give_back
saved-give_back id d n b u idle other =
    unsaved-nonempty_queues n _ (deliver-NodupKeys d.msg _ u)
      (ap (λ bx. bx.q) (others-Redelivered n other (deliver-Redelivered d.msg _)) ∙ idle)

nack-found :
    (e : Env) (id : Text) (d : Delivery) (b : Bus)
    → lookup id b.inflight ≡ some d
    → nack e id b ≡ persist e.fault (give_back id d b)
unfolding nack
nack-found e id d b h = rw (h, nack)

written :
    (e : Env) (b : Bus)
    → e.fault ≡ works
    → is_empty b.path ≡ false
    → (persist e.fault b).0.disk.file ≡ some (state (snapshot b))
unfolding persist persisted disk_steps
written e b fine has_path = rw fine (ground arith)

-- On an open durable bus with an exact index whose writes work: a lease that is given back after
-- `Close`, as at a shutdown, overwrites the state file with one in which no mailbox but its own
-- has a message, whatever waited there.
pub nack-close_loses :
    (e : Env) (id n : Text) (d : Delivery) (b : Bus)
    → IsIndexed b
    → b.closed ≡ false
    → is_empty b.path ≡ false
    → e.fault ≡ works
    → lookup id b.inflight ≡ some d
    → text_eq d.msg.name n ≡ false
    → (s : Snapshot) × ((nack e id (close b)).0.disk.file ≡ some (state s))
      × (lookup n s.boxes ≡ none)
unfolding give_back snapshot
nack-close_loses e id n d b v running has_path fine held other =
    let (boxes, leased, path, _) = close_lem b running in
    let back = give_back id d (close b) in
    let same_path : back.path ≡ b.path = deliver-path d.msg _ ∙ path in
    (
      snapshot back,
      ap (λ r. r.0.disk.file) (nack-found e id d (close b) (ap (lookup id) leased ∙ held))
          ∙ written e back fine (ap is_empty same_path ∙ has_path),
      saved-give_back id d n (close b)
          (subst NodupKeys (sym boxes) (emptied-NodupKeys b.boxes v.boxes_nodup))
          (ap (λ bs. (or_no_box (lookup n bs)).q) boxes ∙ lookup-emptied n b.boxes) other,
    )
