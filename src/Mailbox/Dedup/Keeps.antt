-- ===== src/Mailbox/Dedup/Keeps.antt =====
-- internal/mailbox/mailbox.go: every critical section but `Close` keeps the deduplication index
-- exact.
use zmqcat.Base.{refl, Bool, true, ◌∷◌, arith, count-append}
use zmqcat.Base.Dict.{lookup-insert_self}
use zmqcat.Mailbox.Defs.{Bus, no_box}
use zmqcat.Mailbox.Boxes.{hand_over, set_box}
use zmqcat.Mailbox.Queues.{undo_pop}
use zmqcat.Mailbox.Moves.{
  Move, quiet, makes_box, hands, joins, leaves, pops_in_vain, returns, leases, releases, waits,
  gives_up, Moves, done, next, Section,
}
use zmqcat.Mailbox.Moves.Sections.{Section-Moves}
use zmqcat.Mailbox.Dedup.{has_key, IsIndexed}
use zmqcat.Mailbox.Dedup.Counting.{
  same-IsCounted, push-IsCounted, pop-IsCounted, lease-IsCounted, unlease-IsCounted,
}

Move-IsIndexed : {late : Bool} {b b' : Bus} → Move late b b' → IsIndexed b → IsIndexed b'
unfolding hand_over set_box undo_pop
Move-IsIndexed (quiet boxes leased index) v = rw (boxes, leased, index) v
Move-IsIndexed (makes_box name e) v = same-IsCounted v name no_box (λ k. rw e)
Move-IsIndexed (hands m w ws e) v = same-IsCounted v m.name _ (λ k. refl)
Move-IsIndexed (joins name m xs ys e h) v =
    push-IsCounted v name _ m λ k.
      rw h (omega (arith, count-append (has_key k) xs ys, count-append (has_key k) xs (m ∷ ys)))
Move-IsIndexed (leaves name m xs ys h) v =
    pop-IsCounted v name _ m λ k.
      rw h (omega (arith, count-append (has_key k) xs ys, count-append (has_key k) xs (m ∷ ys)))
Move-IsIndexed (pops_in_vain f name m rest h) v =
    push-IsCounted (pop-IsCounted v name _ m (λ k. rw h (omega arith))) name _ m
      (λ k. rw lookup-insert_self (omega arith))
Move-IsIndexed (returns name m late) v = push-IsCounted v name _ m (λ k. omega arith)
Move-IsIndexed (leases d new) v = lease-IsCounted v d.id d new
Move-IsIndexed (releases id d old) v = unlease-IsCounted v id d old
Move-IsIndexed (waits name c e) v = same-IsCounted v name _ (λ k. refl)
Move-IsIndexed (gives_up name c) v = same-IsCounted v name _ (λ k. refl)

pub Moves-IsIndexed : {late : Bool} {b b' : Bus} → IsIndexed b → Moves late b b' → IsIndexed b'
Moves-IsIndexed v done = v
Moves-IsIndexed v (next r m) = Move-IsIndexed m (Moves-IsIndexed v r)

-- Before `Close`: whatever a goroutine does in one critical section other than that of `Close`,
-- which empties the queues and leaves the index, an exact index stays exact. `Hold` is taken to
-- get an id from `newID` that no lease has.
pub Section-IsIndexed : {b b' : Bus} → Section b b' → IsIndexed b → IsIndexed b'
Section-IsIndexed s v = Moves-IsIndexed v (Section-Moves {late = true} s (λ _. refl))
