-- ===== src/Mailbox/Durable.antt =====
-- internal/mailbox/mailbox.go: the state file, across crashes and restarts.
use zmqcat.Base.{
  Bool, ◌≡◌, refl, ◌⊎◌, inl, inr, Option, none, some, List, [], ◌∷◌, Text, arith, text_eq_iff,
  if◌then◌else◌,
}
use zmqcat.Base.Dict.{Dict, lookup, NodupKeys}
use zmqcat.Mailbox.Defs.{
  Fault, works, marshal_fails, open_fails, write_fails, sync_fails, close_fails, rename_fails,
  dir_sync_fails, Contents, Msg, Box, Bus, Snapshot, state, Disk, or_no_box,
}
use zmqcat.Mailbox.Index.{is_some}
use zmqcat.Mailbox.Persist.{
  nonempty_queues, snapshot, disk_steps, disk_deeds, outcomes, run_steps, last_of, write_tmp,
  sync_tmp, rename_tmp, sync_dir, persisted, persist_error, persist,
}
use zmqcat.Mailbox.Life.{durable}

abbrev pub All {ℓ κ} : {A : Type ℓ} → (A → Type κ) → List A → Type κ
All P [] = Unit
All P (x ∷ xs) = P x × All P xs

abbrev pub IsOneOf : Option Contents → List (Option Contents) → Type 0
IsOneOf a [] = ⊥
IsOneOf a (x ∷ xs) = (a ≡ x) ⊎ IsOneOf a xs

-- After a crash there is a file that could have been there before the write, or the whole new one;
-- and so a reader finds it while the program runs.
pub record IsWhole (s : Snapshot) (d d' : Disk) : Type 0 where
  pub read : (d'.file ≡ d.file) ⊎ (d'.file ≡ some (state s))
  pub kept : All (λ c. IsOneOf c (outcomes d) ⊎ (c ≡ some (state s))) (outcomes d')

-- What a crash may leave once the write has ended.
abbrev pub survivors : Fault → Snapshot → Disk → List (Option Contents)
survivors works s d = some (state s) ∷ []
survivors dir_sync_fails s d = some (state s) ∷ outcomes d
survivors f s d = outcomes d

All-self :
    (s : Snapshot) (cs ds : List (Option Contents))
    → ((c : Option Contents) → IsOneOf c cs → IsOneOf c ds)
    → All (λ c. IsOneOf c ds ⊎ (c ≡ some (state s))) cs
All-self s [] ds h = tt
All-self s (c ∷ cs) ds h = (inl (h c (inl refl)), All-self s cs ds (λ x o. h x (inr o)))

-- At every moment of a write that ends in whatever way, a crash leaves under the name of the state
-- file what it could have left before the write, or the whole new state, and so does a reader find
-- the file as it was or the whole new one. Once the write has ended, a crash leaves the new state, if
-- the write has worked; that or what it could have left before, if the directory could not be
-- synced, which `persistLocked` does not report; and what it could have left before, if the write
-- has failed.
pub disk_steps-atomic :
    (f : Fault) (s : Snapshot) (d : Disk)
    → All (IsWhole s d) (disk_steps f s d)
      × (outcomes (last_of d (disk_steps f s d)) ≡ survivors f s d)
unfolding disk_steps disk_deeds
disk_steps-atomic f s d = go f
  where
    old : All (λ c. IsOneOf c (outcomes d) ⊎ (c ≡ some (state s))) (outcomes d)
    old = All-self s (outcomes d) (outcomes d) (λ c o. o)

    -- The state file is not touched.
    aside :
        (tmp : Option Contents) (synced : Bool)
        → IsWhole s d (record d { tmp = tmp; tmp_synced = synced })
    aside tmp synced = record { read = inl refl; kept = old }

    renamed : IsWhole s d (rename_tmp (sync_tmp (write_tmp s d)))
    renamed = record { read = inr refl; kept = (inr refl, old) }

    settled : IsWhole s d (sync_dir (rename_tmp (sync_tmp (write_tmp s d))))
    settled = record { read = inr refl; kept = (inr refl, tt) }

    go :
        (f : Fault)
        → All (IsWhole s d) (run_steps (disk_deeds f s) d)
          × (outcomes (last_of d (run_steps (disk_deeds f s) d)) ≡ survivors f s d)
    go works = ((aside _ _, (aside _ _, (aside _ _, (renamed, (settled, tt))))), refl)
    go marshal_fails = (tt, refl)
    go open_fails = (tt, refl)
    go write_fails = ((aside _ _, (aside _ _, tt)), refl)
    go sync_fails = ((aside _ _, (aside _ _, (aside _ _, tt))), refl)
    go close_fails = ((aside _ _, (aside _ _, (aside _ _, (aside _ _, tt)))), refl)
    go rename_fails = ((aside _ _, (aside _ _, (aside _ _, (aside _ _, tt)))), refl)
    go dir_sync_fails = ((aside _ _, (aside _ _, (aside _ _, (renamed, tt)))), refl)

-- A durable bus that reports no error has its state in the file; otherwise the file is as it was.
pub persist_file :
    (f : Fault) (b : Bus)
    → (persist f b).0.disk.file ≡ (
        if durable b
        then if is_some (persist f b).1 then b.disk.file else some (state (snapshot b))
        else b.disk.file)
unfolding persist persisted persist_error disk_steps durable
persist_file works b = ground arith
persist_file dir_sync_fails b = ground arith
persist_file marshal_fails b = ground arith
persist_file _ b = ground arith

-- What is saved of a queue.
abbrev pub or_nil : Option (List Msg) → List Msg
or_nil none = []
or_nil (some q) = q

pub lookup-nonempty_queues :
    (n : Text) (boxes : Dict Box)
    → NodupKeys boxes
    → or_nil (lookup n (nonempty_queues boxes)) ≡ (or_no_box (lookup n boxes)).q
unfolding lookup nonempty_queues
lookup-nonempty_queues n [] u = refl
lookup-nonempty_queues n ((j, bx) ∷ boxes) u =
    ground (arith, text_eq_iff j n, lookup-nonempty_queues n boxes u.1)

absent-nonempty_queues :
    (n : Text) (boxes : Dict Box) → lookup n boxes ≡ none → lookup n (nonempty_queues boxes) ≡ none
unfolding lookup nonempty_queues
absent-nonempty_queues n [] h = refl
absent-nonempty_queues n ((j, bx) ∷ boxes) h = ground (arith, absent-nonempty_queues n boxes)

pub nonempty_queues-NodupKeys :
    (boxes : Dict Box) → NodupKeys boxes → NodupKeys (nonempty_queues boxes)
unfolding nonempty_queues
nonempty_queues-NodupKeys [] u = u
nonempty_queues-NodupKeys ((j, bx) ∷ boxes) u =
    ground (arith, nonempty_queues-NodupKeys boxes u.1, absent-nonempty_queues j boxes)

-- An empty queue is not saved.
pub unsaved-nonempty_queues :
    (n : Text) (boxes : Dict Box)
    → NodupKeys boxes
    → (or_no_box (lookup n boxes)).q ≡ []
    → lookup n (nonempty_queues boxes) ≡ none
unfolding lookup nonempty_queues
unsaved-nonempty_queues n [] u h = refl
unsaved-nonempty_queues n ((j, bx) ∷ boxes) u h =
    ground
      (arith, text_eq_iff j n, unsaved-nonempty_queues n boxes u.1, absent-nonempty_queues n boxes)
