-- ===== src/Mailbox/Moves/Parts.antt =====
-- internal/mailbox/mailbox.go: the helpers of the critical sections, as sequences of moves.
use zmqcat.Base.{
  ℕ, ◌≡◌, refl, sym, ap, Bool, Option, none, some, List, [], ◌∷◌, ◌++◌, Text, inl, inr,
  Option-cases, append-nil, drop_last, drop_last-snoc, if_elim,
}
use zmqcat.Base.Dict.{lookup, lookup-insert_self}
use zmqcat.Mailbox.Defs.{Error, Fault, Msg, Delivery, Bus, Env, or_no_box, box_of, queue, waiting}
use zmqcat.Mailbox.Index.{index_add, index_del}
use zmqcat.Mailbox.Persist.{persist, persist_error, rollback, rollback_elim}
use zmqcat.Mailbox.Boxes.{set_box, with_box, ensure_box, deliver_to, deliver}
use zmqcat.Mailbox.Expiry.{give_back, expire_one, expire_each, requeue_expired}
use zmqcat.Mailbox.Queues.{undo_append, append, undo_pop, pop_first}
use zmqcat.Mailbox.Moves.{
  with_queue, Move, quiet, makes_box, hands, joins, leaves, pops_in_vain, releases, Moves, next,
}

module _ {late : Bool} where
  pub ensure_box-Moves :
      (name : Text) {b b' : Bus} → Moves late b b' → Moves late b (ensure_box name b')
  unfolding ensure_box with_box
  ensure_box-Moves name {b' = b'} r = elim (Option-cases (lookup name b'.boxes)) [
    | inl e ↦ rw (e, with_box) (next r (makes_box name e))
    | inr (bx, e) ↦ rw (e, with_box) r
  ]

  deliver_to-Moves :
      (m : Msg) (ws : List ℕ) {b b' : Bus}
      → waiting m.name b' ≡ ws
      → Moves late b b'
      → Moves late b (deliver_to m ws (box_of m.name b') b')
  unfolding deliver_to
  deliver_to-Moves m [] e r = next r (joins m.name m [] _ e refl)
  deliver_to-Moves m (w ∷ ws) e r = next r (hands m w ws e)

  pub deliver-Moves : (m : Msg) {b b' : Bus} → Moves late b b' → Moves late b (deliver m b')
  unfolding deliver
  deliver-Moves m r = deliver_to-Moves m _ refl (ensure_box-Moves m.name r)

  undo_append-Move :
      (m : Msg) (q : List Msg) {b : Bus}
      → queue m.name b ≡ q ++ m ∷ []
      → Move late b (undo_append m b)
  unfolding undo_append set_box
  undo_append-Move m q {b} h =
      let e : drop_last (queue m.name b) ≡ q ++ [] = rw (h, drop_last-snoc) (sym (append-nil q)) in
      rw e (leaves m.name m q [] h)

  pub append-Moves :
      (e : Env) (m : Msg) {b b' : Bus}
      → waiting m.name b' ≡ []
      → Moves late b b'
      → Moves late b (append e m (box_of m.name b') b').0
  unfolding append persist
  append-Moves e m {b} {b'} h r =
      rollback_elim (Moves late b) (undo_append m) _ (persist_error e.fault joined) written
        (next written (undo_append-Move m (queue m.name b') last))
    where
      joined : Bus
      joined = record (with_queue m.name (queue m.name b' ++ m ∷ []) b') {
        dedup = index_add m b'.dedup;
      }

      written : Moves late b (persist e.fault joined).0
      written =
          next (next r (joins m.name m (queue m.name b') [] h (sym (append-nil _))))
            (quiet refl refl refl)

      last : queue m.name (persist e.fault joined).0 ≡ queue m.name b' ++ m ∷ []
      last = ap (λ o. (or_no_box o).q) (lookup-insert_self m.name _ b'.boxes)

  pub pop_first-Moves :
      (f : Fault) (name : Text) (m : Msg) (rest : List Msg) {b b' : Bus}
      → queue name b' ≡ m ∷ rest
      → Moves late b b'
      → Moves late b (pop_first f name m rest b').0
  unfolding pop_first
  pop_first-Moves f name m rest {b} {b'} h r = go (persist_error f left)
    where
      left : Bus
      left = record (with_queue name rest b') { dedup = index_del m b'.dedup }

      go : (x : Option Error) → Moves late b (rollback (undo_pop name m) (persist f left).0 x).0
      go none = next (next r (leaves name m [] rest h)) (quiet refl refl refl)
      go (some x) = next (next r (pops_in_vain f name m rest h)) (quiet refl refl refl)

  pub give_back-Moves :
      (id : Text) (d : Delivery) {b b' : Bus}
      → lookup id b'.inflight ≡ some d
      → Moves late b b'
      → Moves late b (give_back id d b')
  unfolding give_back
  give_back-Moves id d e r = deliver-Moves d.msg (next r (releases id d e))

  expire_one-Moves :
      (now : ℕ) (id : Text) {b b' : Bus} → Moves late b b' → Moves late b (expire_one now id b').0
  unfolding expire_one
  expire_one-Moves now id {b} {b'} r = elim (Option-cases (lookup id b'.inflight)) [
    | inl e ↦ rw (e, expire_one) r
    | inr (d, e) ↦
        rw (e, expire_one)
          (if_elim (λ (r : Bus × Bool). Moves late b r.0) _ (λ _. give_back-Moves id d e r)
            (λ _. r))
  ]

  expire_each-Moves :
      (now : ℕ) (ids : List Text) {b b' : Bus}
      → Moves late b b'
      → Moves late b (expire_each now ids b').0
  unfolding expire_each
  expire_each-Moves now [] r = r
  expire_each-Moves now (id ∷ ids) r = expire_each-Moves now ids (expire_one-Moves now id r)

  pub requeue_expired-Moves :
      (e : Env) {b b' : Bus} → Moves late b b' → Moves late b (requeue_expired e b').0
  unfolding requeue_expired
  requeue_expired-Moves e r = expire_each-Moves e.now _ r
