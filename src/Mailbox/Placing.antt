-- ===== src/Mailbox/Placing.antt =====
-- internal/mailbox/mailbox.go: where a message goes that `Put` accepts.
use zmqcat.Base.{
  ℕ, zero, suc, ◌<◌, ◌≡◌, refl, ap, sym, subst, ◌∙◌, ◌⊎◌, true, false, Option, none, some, List, [],
  ◌∷◌, ◌++◌, Text, inl, inr, arith, length, ltb, is_empty, text_eq,
}
use zmqcat.Base.Dict.{Dict, lookup, insert, lookup-insert, lookup-insert_self}
use zmqcat.Mailbox.Defs.{Error, Msg, Box, Bus, Env, box_of, queue, waiting}
use zmqcat.Mailbox.Index.{dedup_key, index_add, indexed}
use zmqcat.Mailbox.Persist.{persist, persist_error, rollback}
use zmqcat.Mailbox.Boxes.{set_box, ensure_box, hand_over, send, close_chan}
use zmqcat.Mailbox.Queues.{stamped, append, undo_append, put_to, put_locked, put}
use zmqcat.Mailbox.Dedup.{IsIndexed, copies, tally}
use zmqcat.Mailbox.Views.{box_of-ensure_box}
use zmqcat.Mailbox.Rejecting.{Same, ensure_box-Same}

abbrev pub OthersKeep : Text → Bus → Bus → Type 0
OthersKeep name b b' = (n : Text) → text_eq name n ≡ false → box_of n b' ≡ box_of n b

-- `b` is the bus before and `b'` the bus after.
pub data Placed (name : Text) (m : Msg) (b b' : Bus) : Type 0 where
  -- The oldest waiter has it, and its channel is closed.
  handed :
      (w : ℕ) (ws : List ℕ)
      → waiting name b ≡ w ∷ ws
      → waiting name b' ≡ ws
      → queue name b' ≡ queue name b
      → (b'.chans w).buf ≡ (b.chans w).buf ++ m ∷ []
      → (b'.chans w).shut ≡ true
      → OthersKeep name b b'
      → Placed name m b b'
  -- It is the last of the queue, which had room.
  queued :
      waiting name b ≡ []
      → length (queue name b) < b.max_queue
      → queue name b' ≡ queue name b ++ m ∷ []
      → OthersKeep name b b'
      → Placed name m b b'

append-Placed :
    (e : Env) (m : Msg) (b : Bus)
    → waiting m.name b ≡ []
    → length (queue m.name b) < b.max_queue
    → (append e m (box_of m.name b) b).1 ≡ none
    → Placed m.name m b (append e m (box_of m.name b) b).0
unfolding append
append-Placed e m b idle room h = go (persist_error e.fault joined) h
  where
    longer : Box
    longer = record (box_of m.name b) { q = queue m.name b ++ m ∷ [] }

    joined : Bus
    joined = record b { boxes = insert m.name longer b.boxes; dedup = index_add m b.dedup }

    go :
        (r : Option Error)
        → (rollback (undo_append m) (persist e.fault joined).0 r).1 ≡ none
        → Placed m.name m b (rollback (undo_append m) (persist e.fault joined).0 r).0
    go none p =
        queued idle room (ground (arith, lookup-insert_self m.name longer b.boxes))
          (λ n other. ground (arith, lookup-insert m.name n longer b.boxes))
    go (some y) p = cc

put_to-Placed :
    (e : Env) (m : Msg) (ws : List ℕ) (b : Bus)
    → waiting m.name b ≡ ws
    → (put_to e m ws (box_of m.name b) b).1 ≡ none
    → Placed m.name m b (put_to e m ws (box_of m.name b) b).0
unfolding put_to
put_to-Placed e m [] b idle h = ground (arith, append-Placed e m b idle)
put_to-Placed e m (w ∷ ws) b idle h =
    unfold hand_over set_box send close_chan in
    let shorter : Box = record (box_of m.name b) { waiters = ws } in
    handed w ws idle (ground (arith, lookup-insert_self m.name shorter b.boxes))
      (ground (arith, lookup-insert_self m.name shorter b.boxes)) (ground arith) (ground arith)
      (λ n other. ground (arith, lookup-insert m.name n shorter b.boxes))

Placed-ensure_box :
    (name : Text) (m : Msg) (b : Bus) {b' : Bus}
    → Placed name m (ensure_box name b) b'
    → Placed name m b b'
unfolding ensure_box
Placed-ensure_box name m b (handed w ws p q r s t others) =
    let e = box_of-ensure_box name name b in
    handed w ws (ap (λ bx. bx.waiters) (sym e) ∙ p) q (r ∙ ap (λ bx. bx.q) e) s t
      (λ n o. others n o ∙ box_of-ensure_box name n b)
Placed-ensure_box name m b (queued p q r others) =
    let e = box_of-ensure_box name name b in
    queued (ap (λ bx. bx.waiters) (sym e) ∙ p) (subst (λ bx. length bx.q < b.max_queue) e q)
      (r ∙ ap (λ bx. bx.q ++ m ∷ []) e) (λ n o. others n o ∙ box_of-ensure_box name n b)

-- The test of the index finds a message exactly when a copy is queued or leased.
pub indexed_copies :
    (name id : Text) (n : ℕ) (dedup : Dict ℕ)
    → is_empty id ≡ false
    → is_empty name ≡ false
    → lookup (dedup_key name id) dedup ≡ tally n
    → indexed name id dedup ≡ ltb 0 n
unfolding indexed
indexed_copies name id zero dedup h k e = ground arith
indexed_copies name id (suc n) dedup h k e = ground arith

abbrev Outcome : ℕ → Msg → Bus → Bus → Type 0
Outcome held m b b' = ((0 < held) × Same b b') ⊎ ((held ≡ 0) × Placed m.name m b b')

put_locked-put_to :
    (e : Env) (m : Msg) (b : Bus)
    → indexed m.name m.id b.dedup ≡ false
    → (put_locked e m b).1 ≡ none
    → let b' = ensure_box m.name b in
      let r = put_to e m (waiting m.name b') (box_of m.name b') b' in
      (put_locked e m b ≡ r) × (r.1 ≡ none)
unfolding put_locked
put_locked-put_to e m b missing h = (ground arith, ground arith)

put_locked_accepted :
    (e : Env) (m : Msg) (b : Bus) (held : ℕ)
    → is_empty m.id ≡ false
    → is_empty m.name ≡ false
    → lookup (dedup_key m.name m.id) b.dedup ≡ tally held
    → (put_locked e m b).1 ≡ none
    → Outcome held m b (put_locked e m b).0
unfolding put_locked
put_locked_accepted e m b zero i n found h =
    let b' = ensure_box m.name b in
    let missing = indexed_copies m.name m.id 0 b.dedup i n found in
    let stored = put_to-Placed e m (waiting m.name b') b' refl in
    let (same, accepted) = put_locked-put_to e m b missing h in
    inr (
      refl,
      subst (λ r. Placed m.name m b r.0) (sym same)
          (Placed-ensure_box m.name m b (stored accepted)),
    )
put_locked_accepted e m b (suc k) i n found h =
    let same = ensure_box-Same m.name b in
    inl (omega arith, ground (arith, indexed_copies m.name m.id (suc k) b.dedup i n found, same))

put-put_locked :
    (e : Env) (name : Text) (m : Msg) (b : Bus)
    → (put e name m b).1 ≡ none
    → (put e name m b ≡ put_locked e (stamped e name m) b) × (is_empty name ≡ false)
unfolding put
put-put_locked e name m b h = ground arith

pub stamped-id :
    (e : Env) (name : Text) (m : Msg)
    → is_empty e.fresh ≡ false
    → is_empty (stamped e name m).id ≡ false
unfolding stamped
stamped-id e name m h = ground arith

-- Where the index is exact and `newID` gives an id that is not empty: of a message that `Put`
-- accepts a copy was queued or leased already, and nothing changes; or nobody had a copy, and the
-- message goes to the oldest waiter, or, if nobody waits, to the end of the queue, which had room.
pub put_accepted :
    (e : Env) (name : Text) (m : Msg) (b : Bus)
    → IsIndexed b
    → is_empty e.fresh ≡ false
    → (put e name m b).1 ≡ none
    → let m' = stamped e name m in
      let held = copies (dedup_key name m'.id) b.boxes b.inflight in
      ((0 < held) × Same b (put e name m b).0) ⊎ ((held ≡ 0) × Placed name m' b (put e name m b).0)
unfolding stamped
put_accepted e name m b v fresh h =
    let m' = stamped e name m in
    let (locked, named) = put-put_locked e name m b h in
    let out =
      put_locked_accepted e m' b (copies (dedup_key name m'.id) b.boxes b.inflight)
        (stamped-id e name m fresh) named (v.exact (dedup_key name m'.id))
        (ap (λ r. r.1) (sym locked) ∙ h) in
    subst (λ r. Outcome (copies (dedup_key name m'.id) b.boxes b.inflight) m' b r.0) (sym locked)
      out
