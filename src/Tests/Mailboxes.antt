-- ===== src/Tests/Mailboxes.antt =====
-- Runs of the theorems on queues and leases.
use zmqcat.Base.{
  ◌≡◌, ◌<◌, refl, true, false, none, some, [], ◌∷◌, ◌++◌, codes, Text, arith, inl, ◌⊎◌, text_eq,
  if◌then◌else◌, ◌==◌,
}
use zmqcat.Base.Dict.{lookup, insert, keys}
use zmqcat.Mailbox.Defs.{Bus, Msg, err_too_large, queue, Delivery}
use zmqcat.Mailbox.Index.{dedup_key, indexed}
use zmqcat.Mailbox.Expiry.{requeue_expired, expire_each}
use zmqcat.Mailbox.Queues.{put, cancel_waiter, stamped}
use zmqcat.Mailbox.Leases.{nack}
use zmqcat.Mailbox.Dedup.{IsIndexed, copies, has_key}
use zmqcat.Mailbox.Dedup.Keeps.{Section-IsIndexed}
use zmqcat.Mailbox.Fairness.{IsFair, Section-IsFair, cancel_waiter-not-IsFair}
use zmqcat.Mailbox.Rejecting.{Same, put_failed}
use zmqcat.Mailbox.Placing.{Placed, put_accepted}
use zmqcat.Mailbox.Redelivery.{Redelivered, nack_redelivers}
use zmqcat.Mailbox.Expiring.{requeue_expired-inflight, unexpired}
use zmqcat.Mailbox.Retries.{IsPuttable, put_clash}
use zmqcat.Mailbox.Moves.{puts, is_cancel}
use zmqcat.Mailbox.Boxes.{with_box}
use zmqcat.Mailbox.Persist.{persist_error}
use zmqcat.Tests.{env, no_bus, job, long_job, busy, no_bus-IsIndexed}

Section-IsIndexed_example : IsIndexed (put env (codes "jobs") job no_bus).0
Section-IsIndexed_example = Section-IsIndexed (puts env (codes "jobs") job) no_bus-IsIndexed

no_bus-IsFair : IsFair no_bus
unfolding lookup
no_bus-IsFair = record { fair = λ name. inl refl }

Section-IsFair_example : IsFair (put env (codes "jobs") job no_bus).0
unfolding is_cancel
Section-IsFair_example =
    Section-IsFair (puts {b = no_bus} env (codes "jobs") job) refl no_bus-IsFair

rejected : (put env (codes "jobs") long_job no_bus).1 ≡ some err_too_large
unfolding put
rejected = refl

put_failed_example : Same no_bus (put env (codes "jobs") long_job no_bus).0
put_failed_example =
    put_failed env (codes "jobs") long_job no_bus err_too_large no_bus-IsIndexed rejected

accepted : (put env (codes "jobs") job no_bus).1 ≡ none
unfolding put indexed lookup with_box insert text_eq persist_error
accepted = refl

put_accepted_example :
    let m' = stamped env (codes "jobs") job in
    let held = copies (dedup_key (codes "jobs") m'.id) no_bus.boxes no_bus.inflight in
    ((0 < held) × Same no_bus (put env (codes "jobs") job no_bus).0)
    ⊎ ((held ≡ 0) × Placed (codes "jobs") m' no_bus (put env (codes "jobs") job no_bus).0)
put_accepted_example = put_accepted env (codes "jobs") job no_bus no_bus-IsIndexed refl accepted

held : 0 < copies (dedup_key (codes "jobs") job.id) busy.boxes busy.inflight
unfolding put indexed lookup with_box insert text_eq persist_error has_key dedup_key
held = omega arith

busy_takes : IsPuttable (codes "jobs") job busy
unfolding put indexed lookup with_box insert text_eq persist_error
busy_takes = record { named = refl; fits = omega arith; running = refl }

-- A job waits in the mailbox `a\x00b`.
abbrev odd_name : Text
odd_name = codes "a" ++ 0 ∷ codes "b"

abbrev odd_bus : Bus
odd_bus = (put env odd_name (record job { name = odd_name }) no_bus).0

abbrev odd_job : Msg
odd_job = record job { id = codes "b" ++ 0 ∷ codes "j1" }

odd_held : 0 < copies (dedup_key odd_name (codes "j1")) odd_bus.boxes odd_bus.inflight
unfolding put indexed lookup with_box insert text_eq persist_error has_key dedup_key
odd_held = omega arith

odd_takes : IsPuttable (codes "a") odd_job odd_bus
unfolding put indexed lookup with_box insert text_eq persist_error
odd_takes = record { named = refl; fits = omega arith; running = refl }

odd_bus-IsIndexed : IsIndexed odd_bus
odd_bus-IsIndexed =
    Section-IsIndexed (puts env odd_name (record job { name = odd_name })) no_bus-IsIndexed

put_clash_example :
    ((put env (codes "a") odd_job odd_bus).1 ≡ none)
    × (queue (codes "a") (put env (codes "a") odd_job odd_bus).0 ≡ queue (codes "a") odd_bus)
put_clash_example =
    put_clash env (codes "a") (codes "b") (codes "j1") odd_job odd_bus odd_bus-IsIndexed odd_takes
      refl odd_held

-- Two wait; the message of the one whose channel is 1 has come.
abbrev late_bus : Bus
late_bus = record no_bus {
  boxes = (codes "jobs", record { q = []; waiters = 0 ∷ [] }) ∷ [];
  chans = λ c.
      if c == 1 then record { buf = job ∷ []; shut = true } else record { buf = []; shut = false };
  next_chan = 2;
}

cancel_waiter-not-IsFair_example : ¬ IsFair (cancel_waiter env (codes "jobs") 1 late_bus)
unfolding lookup text_eq
cancel_waiter-not-IsFair_example =
    cancel_waiter-not-IsFair env (codes "jobs") 1 0 [] job [] late_bus
      {bx = record { q = []; waiters = 0 ∷ [] }} refl refl refl refl

abbrev lease : Delivery
lease = record { id = codes "d1"; msg = job; expires = 40 }

-- A lease ran out at 40.
abbrev leased : Bus
leased = record no_bus { inflight = (codes "d1", lease) ∷ [] }

nack_redelivers_example :
    Redelivered job leased (nack env (codes "d1") leased).0
    × (lookup (codes "d1") (nack env (codes "d1") leased).0.inflight ≡ none)
unfolding lookup text_eq
nack_redelivers_example = nack_redelivers env (codes "d1") leased lease refl

requeue_expired-inflight_example :
    lookup (codes "d1") (requeue_expired env leased).0.inflight
    ≡ unexpired 50 (lookup (codes "d1") leased.inflight)
requeue_expired-inflight_example = requeue_expired-inflight env (codes "d1") leased

swept_queue : queue (codes "jobs") (requeue_expired env busy).0 ≡ job ∷ []
unfolding requeue_expired put indexed lookup with_box insert text_eq persist_error expire_each keys
swept_queue = refl

running : busy.closed ≡ false
unfolding put indexed lookup with_box insert text_eq persist_error
running = refl
