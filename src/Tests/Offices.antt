-- ===== src/Tests/Offices.antt =====
-- A run of the refinement theorem.
use zmqcat.Base.{◌≡◌, refl, none, some, List, [], ◌∷◌, codes, text_eq}
use zmqcat.Base.Dict.{lookup, insert, keys}
use zmqcat.Base.Int.{pos}
use zmqcat.Mailbox.Defs.{Env, ok, err_not_found}
use zmqcat.Mailbox.Index.{indexed, index_add, dedup_key}
use zmqcat.Mailbox.Boxes.{with_box, deliver}
use zmqcat.Mailbox.Persist.{persist_error}
use zmqcat.Mailbox.Expiry.{requeue_expired, expire_each, give_back}
use zmqcat.Mailbox.Queues.{put, try_take}
use zmqcat.Mailbox.Leases.{hold, ack, nack}
use zmqcat.Mailbox.Office.{Call, puts, takes, holds, acks, nacks, done, gave, lent, new_lease, Runs}
use zmqcat.Mailbox.Office.Viewing.{office_of}
use zmqcat.Mailbox.Office.Refining.{serve, serve_all, AreFine, IsReady, serve_all-Runs}
use zmqcat.Tests.{env, no_bus, job, no_bus-IsIndexed}

-- A job is put twice, taken, leased and given back; a lease that nobody has is ended; the job is
-- taken again.
abbrev calls : List (Env × Call)
calls =
    (env, puts (codes "jobs") job)
    ∷ (env, puts (codes "jobs") job)
    ∷ (env, takes (codes "jobs"))
    ∷ (env, holds job (pos 5))
    ∷ (record env { fresh = codes "d2" }, nacks (codes "d1"))
    ∷ (env, acks (codes "d9"))
    ∷ (env, takes (codes "jobs"))
    ∷ []

no_bus-IsReady : IsReady no_bus
unfolding lookup
no_bus-IsReady = record { index = no_bus-IsIndexed; running = refl; idle = λ n. refl }

answers :
    (serve_all calls no_bus).1
    ≡ done none
      ∷ done none
      ∷ gave (ok job)
      ∷ lent (ok (new_lease env job (pos 5)))
      ∷ done none
      ∷ done (some err_not_found)
      ∷ gave (ok job)
      ∷ []
unfolding serve_all put try_take hold nack ack indexed lookup with_box insert text_eq persist_error
    index_add dedup_key requeue_expired expire_each keys give_back deliver
answers = refl

calls-AreFine : AreFine calls no_bus
unfolding serve put try_take hold nack ack indexed lookup with_box insert text_eq persist_error
    index_add dedup_key requeue_expired expire_each keys give_back deliver
calls-AreFine = (
  refl,
  refl,
  refl,
  (
    refl,
    refl,
    refl,
    (
      refl,
      refl,
      refl,
      (refl, refl, refl, (refl, refl, refl, (refl, refl, refl, (refl, refl, refl, tt)))),
    ),
  ),
)

serve_all-Runs_example :
    Runs 2 3
      (office_of no_bus)
      calls
      (serve_all calls no_bus).1
      (office_of (serve_all calls no_bus).0)
serve_all-Runs_example = serve_all-Runs calls no_bus no_bus-IsReady calls-AreFine
