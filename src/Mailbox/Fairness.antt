-- ===== src/Mailbox/Fairness.antt =====
-- internal/mailbox/mailbox.go: nobody waits for a message while one is queued. A cancelled wait is
-- the exception.
use zmqcat.Base.{ℕ, ◌≡◌, refl, false, some, List, [], ◌∷◌, ◌++◌, ◌⊎◌, inl, inr, Text, arith, ◌==◌}
use zmqcat.Base.Dict.{Dict, lookup, insert, lookup-insert, lookup-insert_self}
use zmqcat.Mailbox.Defs.{Msg, Box, Bus, Env, no_box, or_no_box, box_of, queue, waiting}
use zmqcat.Mailbox.Boxes.{hand_over, set_box}
use zmqcat.Mailbox.Queues.{undo_pop, remove_chan, cancel_waiter}
use zmqcat.Mailbox.Moves.{
  Move, quiet, makes_box, hands, joins, leaves, pops_in_vain, returns, leases, releases, waits,
  gives_up, Moves, done, next, Section, is_cancel,
}
use zmqcat.Mailbox.Moves.Sections.{Section-Moves}

abbrev IsFairBox : Box → Type 0
IsFairBox bx = (bx.q ≡ []) ⊎ (bx.waiters ≡ [])

abbrev AreFair : Dict Box → Type 0
AreFair boxes = (name : Text) → IsFairBox (or_no_box (lookup name boxes))

-- In each mailbox the queue is empty, or nobody waits.
pub record IsFair (b : Bus) : Type 0 where
  pub fair : AreFair b.boxes

insert-AreFair :
    (name : Text) (bx : Box) (boxes : Dict Box)
    → IsFairBox bx
    → AreFair boxes
    → AreFair (insert name bx boxes)
insert-AreFair name bx boxes h v k = ground (arith, lookup-insert name k bx boxes, v k)

append-ne-nil : (m : Msg) (xs ys : List Msg) → xs ++ m ∷ ys ≡ [] → ⊥
append-ne-nil m [] ys e = cc
append-ne-nil m (x ∷ xs) ys e = cc

Move-IsFair : {b b' : Bus} → Move false b b' → AreFair b.boxes → AreFair b'.boxes
unfolding hand_over set_box undo_pop remove_chan
Move-IsFair (quiet boxes leased index) v = rw boxes v
Move-IsFair (makes_box {b} name e) v = insert-AreFair name no_box b.boxes (inl refl) v
Move-IsFair (hands {b} m w ws e) v = insert-AreFair m.name _ b.boxes (ground (arith, v m.name)) v
Move-IsFair (joins {b} name m xs ys e h) v = insert-AreFair name _ b.boxes (inr e) v
Move-IsFair (leaves {b} name m xs ys h) v =
    insert-AreFair name _ b.boxes (ground (arith, v name, append-ne-nil m xs ys)) v
Move-IsFair (pops_in_vain {b} f name m rest h) v =
    insert-AreFair name _ _
      (ground
        (arith, v name, lookup-insert_self name (record (box_of name b) { q = rest }) b.boxes))
      (insert-AreFair name _ b.boxes (ground (arith, v name)) v)
Move-IsFair (returns name m late) v = cc
Move-IsFair (leases d new) v = v
Move-IsFair (releases id d old) v = v
Move-IsFair (waits {b} name c e) v = insert-AreFair name _ b.boxes (inl e) v
Move-IsFair (gives_up {b} name c) v = insert-AreFair name _ b.boxes (ground (arith, v name)) v

Moves-IsFair : {b b' : Bus} → AreFair b.boxes → Moves false b b' → AreFair b'.boxes
Moves-IsFair v done = v
Moves-IsFair v (next r m) = Move-IsFair m (Moves-IsFair v r)

-- Every critical section but a cancelled wait keeps the bus fair: a message never lies in a queue
-- where somebody waits. `Hold` is taken to get an id from `newID` that no lease has.
pub Section-IsFair : {b b' : Bus} (s : Section b b') → is_cancel s ≡ false → IsFair b → IsFair b'
Section-IsFair s h v = record { fair = Moves-IsFair v.fair (Section-Moves s (λ e. cc)) }

-- A wait that is cancelled as its message arrives puts the message at the front of the queue and
-- lets the next waiter wait on: nobody is woken.
pub cancel_waiter-strands :
    (e : Env) (name : Text) (c w : ℕ) (ws : List ℕ) (m : Msg) (rest : List Msg) (b : Bus) {bx : Box}
    → lookup name b.boxes ≡ some bx
    → bx.waiters ≡ w ∷ ws
    → (w == c) ≡ false
    → (b.chans c).buf ≡ m ∷ rest
    → (queue name (cancel_waiter e name c b) ≡ m ∷ queue name b)
      × (waiting name (cancel_waiter e name c b) ≡ w ∷ remove_chan c ws)
unfolding cancel_waiter remove_chan
cancel_waiter-strands e name c w ws m rest b {bx} h hw ne hm =
    let left : Box = record { q = bx.q; waiters = remove_chan c bx.waiters } in
    let kept = lookup-insert_self name left b.boxes in
    let filled : Box = record { q = m ∷ bx.q; waiters = remove_chan c bx.waiters } in
    let put_first = lookup-insert_self name filled (insert name left b.boxes) in
    (ground (arith, kept, put_first), ground (arith, kept, put_first))

-- Where the message of a wait arrives as the wait is cancelled, and another still waits at the
-- mailbox, the bus is not fair afterwards: the message lies in the queue beside the waiter.
pub cancel_waiter-not-IsFair :
    (e : Env) (name : Text) (c w : ℕ) (ws : List ℕ) (m : Msg) (rest : List Msg) (b : Bus) {bx : Box}
    → lookup name b.boxes ≡ some bx
    → bx.waiters ≡ w ∷ ws
    → (w == c) ≡ false
    → (b.chans c).buf ≡ m ∷ rest
    → ¬ IsFair (cancel_waiter e name c b)
cancel_waiter-not-IsFair e name c w ws m rest b h hw ne hm v =
    let (q, waiters) = cancel_waiter-strands e name c w ws m rest b h hw ne hm in
    ground (arith, v.fair name, q, waiters)
