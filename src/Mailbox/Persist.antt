-- ===== src/Mailbox/Persist.antt =====
-- internal/mailbox/mailbox.go: `persistLocked`. The disk is followed step by step, so that what a
-- crash can leave behind is a list of states.
use zmqcat.Base.{true, false, ◌++◌, Option, none, some, List, [], ◌∷◌, is_empty, if◌then◌else◌}
use zmqcat.Base.Dict.{Dict}
use zmqcat.Mailbox.Defs.{
  Fault, works, marshal_fails, open_fails, write_fails, sync_fails, close_fails, rename_fails,
  dir_sync_fails, Error, io, Result, ok, err, Msg, Box, Snapshot, Contents, state, partial, Disk,
  Bus,
}

unfoldable pub nonempty_queues : Dict Box → Dict (List Msg)
nonempty_queues [] = []
nonempty_queues ((n, bx) ∷ boxes) =
    let rest = nonempty_queues boxes in if is_empty bx.q then rest else (n, bx.q) ∷ rest

unfoldable pub snapshot : Bus → Snapshot
unfolding nonempty_queues
snapshot b = record { boxes = nonempty_queues b.boxes; inflight = b.inflight }

-- What a crash may leave under the state file's name.
abbrev pub outcomes : Disk → List (Option Contents)
outcomes d = d.of_file ++ d.of_older

-- `os.OpenFile`, and a part of the bytes.
abbrev pub create_tmp : Disk → Disk
create_tmp d = record d { tmp = some partial; tmp_synced = false }

abbrev pub write_tmp : Snapshot → Disk → Disk
write_tmp s d = record d { tmp = some (state s); tmp_synced = false }

-- `f.Sync`
abbrev pub sync_tmp : Disk → Disk
sync_tmp d = record d { tmp_synced = true }

abbrev pub remove_tmp : Disk → Disk
remove_tmp d = record d { tmp = none; tmp_synced = false }

-- `os.Rename`: until the directory is synced, a crash may bring back what was there before; and
-- contents that were not synced may be lost.
abbrev pub rename_tmp : Disk → Disk
rename_tmp d = record {
  file = d.tmp;
  tmp = none;
  tmp_synced = false;
  of_file = if d.tmp_synced then d.tmp ∷ [] else d.tmp ∷ some partial ∷ [];
  of_older = outcomes d;
}

-- `dir.Sync`
abbrev pub sync_dir : Disk → Disk
sync_dir d = record d { of_older = [] }

-- The states that the disk goes through, in order, where each function makes the next of the last.
abbrev pub run_steps : List (Disk → Disk) → Disk → List Disk
run_steps [] d = []
run_steps (g ∷ gs) d = g d ∷ run_steps gs (g d)

-- What is done to the disk. The temporary file is removed after a failure.
unfoldable pub disk_deeds : Fault → Snapshot → List (Disk → Disk)
disk_deeds marshal_fails s = []
disk_deeds open_fails s = []
disk_deeds write_fails s = create_tmp ∷ remove_tmp ∷ []
disk_deeds sync_fails s = create_tmp ∷ write_tmp s ∷ remove_tmp ∷ []
disk_deeds close_fails s = create_tmp ∷ write_tmp s ∷ sync_tmp ∷ remove_tmp ∷ []
disk_deeds rename_fails s = create_tmp ∷ write_tmp s ∷ sync_tmp ∷ remove_tmp ∷ []
disk_deeds dir_sync_fails s = create_tmp ∷ write_tmp s ∷ sync_tmp ∷ rename_tmp ∷ []
disk_deeds works s = create_tmp ∷ write_tmp s ∷ sync_tmp ∷ rename_tmp ∷ sync_dir ∷ []

unfoldable pub disk_steps : Fault → Snapshot → Disk → List Disk
unfolding disk_deeds
disk_steps f s d = run_steps (disk_deeds f s) d

abbrev pub last_of {ℓ} : {A : Type ℓ} → A → List A → A
last_of a [] = a
last_of a (x ∷ xs) = last_of x xs

abbrev pub fault_error : Fault → Option Error
fault_error works = none
fault_error dir_sync_fails = none
fault_error f = some (io f)

unfoldable pub persisted : Fault → Bus → Disk
unfolding disk_steps
persisted f b =
    if is_empty b.path then b.disk else last_of b.disk (disk_steps f (snapshot b) b.disk)

unfoldable pub persist_error : Fault → Bus → Option Error
persist_error f b = if is_empty b.path then none else fault_error f

unfoldable pub persist : Fault → Bus → Bus × Option Error
persist f b = (record b { disk = persisted f b }, persist_error f b)

-- What the code does when the state could not be written.
unfoldable pub rollback : (Bus → Bus) → Bus → Option Error → Bus × Option Error
rollback undo b none = (b, none)
rollback undo b (some x) = (undo b, some x)

abbrev pub result_of : {A : Type 0} → A → Option Error → Result A
result_of a none = ok a
result_of a (some x) = err x

pub rollback_elim :
    (P : Bus → Type 0) (undo : Bus → Bus) (b : Bus) (r : Option Error)
    → P b
    → P (undo b)
    → P (rollback undo b r).0
unfolding rollback
rollback_elim P undo b none kept undone = kept
rollback_elim P undo b (some x) kept undone = undone
