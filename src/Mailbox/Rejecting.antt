-- ===== src/Mailbox/Rejecting.antt =====
-- internal/mailbox/mailbox.go: a `Put` that fails changes nothing.
use zmqcat.Base.{
  ℕ, ◌≡◌, refl, false, Option, none, some, List, [], ◌∷◌, ◌++◌, Text, arith, text_eq, text_eq_refl,
  text_eq_iff, sym, ◌∙◌, drop_last, drop_last-snoc, if◌then◌else◌,
}
use zmqcat.Base.Dict.{lookup, insert, lookup-insert}
use zmqcat.Mailbox.Defs.{Error, Msg, Box, Bus, Env, box_of, queue, waiting}
use zmqcat.Mailbox.Index.{index_add}
use zmqcat.Mailbox.Persist.{persist, persist_error, rollback}
use zmqcat.Mailbox.Boxes.{set_box, ensure_box}
use zmqcat.Mailbox.Queues.{stamped, undo_append, append, put_to, put}
use zmqcat.Mailbox.Dedup.{IsIndexed}
use zmqcat.Mailbox.Dedup.Keeps.{Moves-IsIndexed}
use zmqcat.Mailbox.Moves.{done}
use zmqcat.Mailbox.Moves.Parts.{ensure_box-Moves}
use zmqcat.Mailbox.Dedup.Counting.{lookup-index_add, lookup-index_del}
use zmqcat.Mailbox.Views.{box_of-ensure_box}

-- Two buses with the same queues, waiters and leases, and the same index.
pub record Same (b b' : Bus) : Type 0 where
  pub box : (n : Text) → box_of n b' ≡ box_of n b
  pub leased : b'.inflight ≡ b.inflight
  pub index : (k : Text) → lookup k b'.dedup ≡ lookup k b.dedup

box_of-undo_append :
    (m : Msg) (q : List Msg) (n : Text) (b : Bus)
    → queue m.name b ≡ q ++ m ∷ []
    → box_of n (undo_append m b)
      ≡ (if text_eq m.name n then record (box_of m.name b) { q = q } else box_of n b)
unfolding undo_append set_box
box_of-undo_append m q n b h =
    let bx : Box = record (box_of m.name b) { q = drop_last (queue m.name b) } in
    ground (arith, lookup-insert m.name n bx b.boxes, drop_last-snoc q m)

append_failed :
    (e : Env) (m : Msg) (b : Bus) (x : Error)
    → IsIndexed b
    → (append e m (box_of m.name b) b).1 ≡ some x
    → Same b (append e m (box_of m.name b) b).0
unfolding append
append_failed e m b x v h = go (persist_error e.fault joined) h
  where
    longer : Box
    longer = record (box_of m.name b) { q = queue m.name b ++ m ∷ [] }

    joined : Bus
    joined = record b { boxes = insert m.name longer b.boxes; dedup = index_add m b.dedup }

    go :
        (r : Option Error)
        → (rollback (undo_append m) (persist e.fault joined).0 r).1 ≡ some x
        → Same b (rollback (undo_append m) (persist e.fault joined).0 r).0
    go none p = cc
    go (some y) p = record {
      box = λ n. ground (
        arith,
        box_of-undo_append m (queue m.name b) n (persist e.fault joined).0,
        lookup-insert m.name n longer b.boxes,
        lookup-insert m.name m.name longer b.boxes,
        text_eq_refl m.name,
        text_eq_iff m.name n,
      );
      leased = refl;
      index = λ k.
          lookup-index_del k m _ _ (lookup-index_add k m b.dedup _ (v.exact k)) ∙ sym (v.exact k);
    }

pub ensure_box-Same : (name : Text) (b : Bus) → Same b (ensure_box name b)
unfolding ensure_box
ensure_box-Same name b = record {
  box = λ n. box_of-ensure_box name n b;
  leased = refl;
  index = λ k. refl;
}

pub Same-trans : {b b' b'' : Bus} → Same b b' → Same b' b'' → Same b b''
Same-trans s t = record {
  box = λ n. t.box n ∙ s.box n;
  leased = t.leased ∙ s.leased;
  index = λ k. t.index k ∙ s.index k;
}

pub Same-refl : {b : Bus} → Same b b
Same-refl = record { box = λ n. refl; leased = refl; index = λ k. refl }

put_to_failed :
    (e : Env) (m : Msg) (ws : List ℕ) (b : Bus) (x : Error)
    → IsIndexed b
    → (put_to e m ws (box_of m.name b) b).1 ≡ some x
    → Same b (put_to e m ws (box_of m.name b) b).0
unfolding put_to
put_to_failed e m [] b x v h =
    let same : Same b b = Same-refl in ground (arith, append_failed e m b x v, same)
put_to_failed e m (w ∷ ws) b x v h = cc

-- Where the index is exact, a `Put` that returns an error leaves queues, waiters, leases and the
-- index as they were: nothing is dropped, and a message that could not be written is taken out
-- again.
pub put_failed :
    (e : Env) (name : Text) (m : Msg) (b : Bus) (x : Error)
    → IsIndexed b
    → (put e name m b).1 ≡ some x
    → Same b (put e name m b).0
unfolding put ensure_box
put_failed e name m b x v h =
    let m' = stamped e name m in
    let b' = ensure_box name b in
    let ws = waiting name b' in
    let v' : IsIndexed b' = Moves-IsIndexed {b = b} v (ensure_box-Moves {late = false} name done) in
    let same : Same b b = Same-refl in
    let placed : (put_to e m' ws (box_of name b') b').1 ≡ some x
        → Same b (put_to e m' ws (box_of name b') b').0 =
      λ p. Same-trans (ensure_box-Same name b) (put_to_failed e m' ws b' x v' p) in
    ground (arith, same, placed)
