-- ===== src/Mailbox/Office/Depositing.antt =====
-- internal/mailbox/mailbox.go: `Put`, seen as a call of an office.
use zmqcat.Base.{
  ℕ, ◌≡◌, ◌<◌, ◌≤◌, refl, ap, sym, subst, ◌∙◌, true, false, Option, none, some, List, [], ◌∷◌, ◌++◌,
  Text, arith, is_empty, length, ltb, leb, inl, inr, Bool-cases,
}
use zmqcat.Base.Dict.{insert}
use zmqcat.Mailbox.Defs.{
  Error, err_dropped, err_too_large, err_bad_name, works, Msg, Box, Bus, Env, box_of, queue,
  waiting,
}
use zmqcat.Mailbox.Index.{index_add, indexed}
use zmqcat.Mailbox.Persist.{persist, persisted, rollback, persist_error}
use zmqcat.Mailbox.Boxes.{ensure_box}
use zmqcat.Mailbox.Queues.{stamped, append, undo_append, put_to, put_locked, put}
use zmqcat.Mailbox.Dedup.{IsIndexed}
use zmqcat.Mailbox.Placing.{stamped-id}
use zmqcat.Mailbox.Taking.{no_error}
use zmqcat.Mailbox.Office.{
  Office, with_queued, Call, puts, Answer, done, Serves, puts_unnamed, puts_large, puts_again,
  puts_full, puts_last,
}
use zmqcat.Mailbox.Office.Viewing.{
  office_of, Leads, Leads-view, Leads-trans, same-Leads, ensure_box-Leads, set_box-Leads,
}
use zmqcat.Mailbox.Office.Copies.{indexed-Holds, not_indexed-Holds}

-- What a call leaves and answers is what an office does, and nobody waits afterwards.
pub data Served (e : Env) (b : Bus) (c : Call) (a : Answer) (b' : Bus) : Type 0 where
  served :
      {o : Office}
      → Serves b.max_queue b.max_body e (office_of b) c a o
      → Leads b o b'
      → Served e b c a b'

append-Leads :
    (e : Env) (m : Msg) (b : Bus)
    → ((n : Text) → waiting n b ≡ [])
    → e.fault ≡ works
    → ((append e m (box_of m.name b) b).1 ≡ none)
      × Leads b
          (with_queued m.name (queue m.name b ++ m ∷ []) (office_of b))
          (append e m (box_of m.name b) b).0
unfolding append rollback persist
append-Leads e m b idle fine = go (persist_error e.fault joined) (no_error e.fault joined fine)
  where
    longer : Box
    longer = record (box_of m.name b) { q = queue m.name b ++ m ∷ [] }

    joined : Bus
    joined = record b { boxes = insert m.name longer b.boxes; dedup = index_add m b.dedup }

    go :
        (r : Option Error)
        → r ≡ none
        → ((rollback (undo_append m) (persist e.fault joined).0 r).1 ≡ none)
          × Leads b
              (with_queued m.name (queue m.name b ++ m ∷ []) (office_of b))
              (rollback (undo_append m) (persist e.fault joined).0 r).0
    go none h =
        (refl, set_box-Leads idle m.name (queue m.name b ++ m ∷ []) _ (persisted e.fault joined))
    go (some x) h = cc

put_to-Leads :
    (e : Env) (m : Msg) (ws : List ℕ) (b : Bus)
    → ((n : Text) → waiting n b ≡ [])
    → e.fault ≡ works
    → waiting m.name b ≡ ws
    → length (queue m.name b) < b.max_queue
    → ((put_to e m ws (box_of m.name b) b).1 ≡ none)
      × Leads b
          (with_queued m.name (queue m.name b ++ m ∷ []) (office_of b))
          (put_to e m ws (box_of m.name b) b).0
unfolding put_to
put_to-Leads e m [] b idle fine h room =
    let put = append-Leads e m b idle fine in ground (arith, put)
put_to-Leads e m (w ∷ ws) b idle fine h room = ground (arith, idle m.name)

put_to-full :
    (e : Env) (m : Msg) (ws : List ℕ) (b : Bus)
    → ws ≡ []
    → b.max_queue ≤ length (queue m.name b)
    → put_to e m ws (box_of m.name b) b ≡ (b, some err_dropped)
unfolding put_to
put_to-full e m [] b h full = ground arith
put_to-full e m (w ∷ ws) b h full = cc

-- The message that reaches `put_to`, and the bus on which it does.
put-put_to :
    (e : Env) (name : Text) (m : Msg) (b : Bus)
    → b.closed ≡ false
    → is_empty name ≡ false
    → length m.body ≤ b.max_body
    → indexed name (stamped e name m).id b.dedup ≡ false
    → let b' = ensure_box name b in
      put e name m b ≡ put_to e (stamped e name m) (waiting name b') (box_of name b') b'
unfolding put put_locked ensure_box stamped
put-put_to e name m b running named small new = ground arith

put-again :
    (e : Env) (name : Text) (m : Msg) (b : Bus)
    → b.closed ≡ false
    → is_empty name ≡ false
    → length m.body ≤ b.max_body
    → indexed name (stamped e name m).id b.dedup ≡ true
    → put e name m b ≡ (ensure_box name b, none)
unfolding put put_locked ensure_box stamped
put-again e name m b running named small old = ground arith

module _ (e : Env) (name : Text) (m : Msg) (b : Bus) (v : IsIndexed b) (running : b.closed ≡ false)
    (idle : (n : Text) → waiting n b ≡ []) (fine : e.fault ≡ works)
    (fresh : is_empty e.fresh ≡ false) where
  Outcome : Bus × Option Error → Type 0
  Outcome r = Served e b (puts name m) (done r.1) r.0

  new-Served :
      is_empty name ≡ false
      → length m.body ≤ b.max_body
      → indexed name (stamped e name m).id b.dedup ≡ false
      → Outcome (put e name m b)
  unfolding Outcome stamped
  new-Served named small new =
      let m' = stamped e name m in
      let b' = ensure_box name b in
      let boxed = ensure_box-Leads idle name in
      let absent = not_indexed-Holds name m'.id b v (stamped-id e name m fresh) named new in
      let same = put-put_to e name m b running named small new in
      let length_same : length (queue name b') ≡ length (queue name b) =
        ap length (boxed.queues name) in
      elim (Bool-cases (leb b.max_queue (length (queue name b)))) [
        | inl full ↦
            let refused =
              put_to-full e m' (waiting name b') b' (boxed.idle name)
                (ground (arith, length_same, boxed.room)) in
            subst Outcome (sym (same ∙ refused))
              (served (puts_full named small absent (ground arith)) boxed)
        | inr room ↦
            let (accepted, last) =
              put_to-Leads e m' (waiting name b') b' boxed.idle fine refl
                (ground (arith, length_same, boxed.room)) in
            let view = Leads-view boxed in
            let out = (put_to e m' (waiting name b') (box_of name b') b').0 in
            subst Outcome (sym same) (
              subst (λ x. Served e b (puts name m) (done x) out) (sym accepted)
                (served (puts_last named small absent (ground arith)) (
                  Leads-trans boxed (
                    subst (λ o. Leads b' (with_queued name (o.queued name ++ m' ∷ []) o) out) view
                      last))))
      ]

  small-Served : is_empty name ≡ false → length m.body ≤ b.max_body → Outcome (put e name m b)
  unfolding Outcome
  small-Served named small =
      let id = (stamped e name m).id in
      elim (Bool-cases (indexed name id b.dedup)) [
        | inl old ↦
            let held = indexed-Holds name id b v (stamped-id e name m fresh) named old in
            subst Outcome (sym (put-again e name m b running named small old))
              (served (puts_again named small held) (ensure_box-Leads idle name))
        | inr new ↦ new-Served named small new
      ]

  pub put-Served : Served e b (puts name m) (done (put e name m b).1) (put e name m b).0
  unfolding Outcome
  put-Served = elim (Bool-cases (is_empty name)) [
    | inl unnamed ↦
        let same : put e name m b ≡ (b, some err_bad_name) = unfold put in ground arith in
        subst Outcome (sym same) (served (puts_unnamed unnamed) (same-Leads idle))
    | inr named ↦ elim (Bool-cases (ltb b.max_body (length m.body))) [
      | inl large ↦
          let same : put e name m b ≡ (b, some err_too_large) = unfold put in ground arith in
          subst Outcome (sym same) (served (puts_large named (ground arith)) (same-Leads idle))
      | inr small ↦ small-Served named (ground arith)
    ]
  ]
