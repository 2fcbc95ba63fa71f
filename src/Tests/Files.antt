-- ===== src/Tests/Files.antt =====
-- Runs of the theorems on the state file.
use zmqcat.Base.{◌≡◌, refl, true, false, none, some, [], ◌∷◌, codes, Text, text_eq}
use zmqcat.Base.Dict.{lookup, insert}
use zmqcat.Base.Int.{pos}
use zmqcat.Mailbox.Defs.{Bus, Msg, Snapshot, Disk, state, Delivery, works, ok, queue}
use zmqcat.Mailbox.Index.{indexed}
use zmqcat.Mailbox.Persist.{outcomes, last_of, disk_steps, persist, persist_error}
use zmqcat.Mailbox.Life.{open_persistent, close}
use zmqcat.Mailbox.Leases.{nack, hold}
use zmqcat.Mailbox.Queues.{put}
use zmqcat.Mailbox.Boxes.{with_box}
use zmqcat.Mailbox.Moves.{holds}
use zmqcat.Mailbox.Durable.{All, IsWhole, survivors, disk_steps-atomic}
use zmqcat.Mailbox.Restart.{restart_lem}
use zmqcat.Mailbox.Shutdown.{nack-close_loses}
use zmqcat.Mailbox.Dedup.{IsIndexed}
use zmqcat.Mailbox.Dedup.Keeps.{Section-IsIndexed}
use zmqcat.Tests.{env, job, busy, busy-IsIndexed}

abbrev saved : Snapshot
saved = record { boxes = (codes "jobs", job ∷ []) ∷ []; inflight = [] }

abbrev disk : Disk
disk = record {
  file = some (state saved);
  tmp = none;
  tmp_synced = false;
  of_file = some (state saved) ∷ [];
  of_older = none ∷ [];
}

-- Nothing is queued or leased any more.
abbrev emptied : Snapshot
emptied = record { boxes = []; inflight = [] }

disk_steps-atomic_example :
    All (IsWhole emptied disk) (disk_steps works emptied disk)
    × (outcomes (last_of disk (disk_steps works emptied disk)) ≡ survivors works emptied disk)
disk_steps-atomic_example = disk_steps-atomic works emptied disk

restart_lem_example :
    (b' : Bus) × (open_persistent busy.path (pos 2) (pos 3) true (persist works busy).0.disk
      ≡ ok b')
    × ((n : Text) → queue n b' ≡ queue n busy)
    × ((id : Text) → lookup id b'.inflight ≡ lookup id busy.inflight)
    × IsIndexed b'
unfolding put indexed lookup with_box insert text_eq persist_error
restart_lem_example = restart_lem busy (pos 2) (pos 3) busy-IsIndexed refl

abbrev urgent : Msg
urgent = record job { id = codes "u1"; name = codes "urgent" }

-- A job waits, and another is leased.
abbrev working : Bus
working = (hold env urgent (pos 9) busy).0

working-IsIndexed : IsIndexed working
unfolding put indexed lookup with_box insert text_eq persist_error
working-IsIndexed = Section-IsIndexed (holds env urgent (pos 9) refl) busy-IsIndexed

abbrev urgent_lease : Delivery
urgent_lease = record { id = codes "d1"; msg = urgent; expires = 59 }

nack-close_loses_example :
    (s : Snapshot) × ((nack env (codes "d1") (close working)).0.disk.file ≡ some (state s))
    × (lookup (codes "jobs") s.boxes ≡ none)
unfolding hold put indexed lookup with_box insert text_eq persist_error
nack-close_loses_example =
    nack-close_loses env (codes "d1") (codes "jobs") urgent_lease working working-IsIndexed refl
      refl refl refl refl
