-- ===== src/Mailbox/Office/Lending.antt =====
-- internal/mailbox/mailbox.go: `TryTake`, `Hold`, `Ack` and `Nack`, seen as calls of an office.
use zmqcat.Base.{
  ℕ, ◌≡◌, refl, sym, subst, false, Option, List, [], ◌∷◌, Text, arith, is_empty, ltb, inl, inr,
  Bool-cases, Option-cases,
}
use zmqcat.Base.Int.{ℤ}
use zmqcat.Base.Dict.{lookup, insert}
use zmqcat.Mailbox.Defs.{
  Error, err_bad_name, works, Result, ok, err, Msg, Delivery, Bus, Env, queue, waiting,
}
use zmqcat.Mailbox.Index.{index_add}
use zmqcat.Mailbox.Persist.{persist, rollback, result_of}
use zmqcat.Mailbox.Expiry.{give_back, expire_one, expire_each, requeue_expired}
use zmqcat.Mailbox.Queues.{try_pop, try_take}
use zmqcat.Mailbox.Leases.{hold_locked, hold, ack, nack}
use zmqcat.Mailbox.Expiring.{requeue_expired-inflight}
use zmqcat.Mailbox.Taking.{no_error, pop_first-works}
use zmqcat.Mailbox.Office.{
  Sweeps, stays, goes_back, takes, holds, acks, nacks, done, gave, lent, new_lease, takes_unnamed,
  takes_none, takes_first, holds_unnamed, holds_new, acks_unknown, acks_ended, nacks_unknown,
  nacks_back,
}
use zmqcat.Mailbox.Office.Viewing.{
  office_of, Leads, Leads-view, Leads-trans, Leads-disk, same-Leads, set_box-Leads, insert-Leads,
  erase-Leads, give_back-Leads,
}
use zmqcat.Mailbox.Office.Depositing.{Served, served}

-- A sweep from the bus `b₀` has come to the bus `b`.
record Swept (now : ℕ) (b₀ b : Bus) : Type 0 where
  sweep : Sweeps now (office_of b₀) (office_of b)
  same : Leads b₀ (office_of b) b

expire_one-Swept :
    (now : ℕ) (id : Text) {b₀ b : Bus} → Swept now b₀ b → Swept now b₀ (expire_one now id b).0
unfolding expire_one
expire_one-Swept now id {b₀} {b} s = elim (Option-cases (lookup id b.inflight)) [
  | inl h ↦ rw (h, expire_one) s
  | inr (d, h) ↦ elim (Bool-cases (ltb d.expires now)) [
    | inl over ↦
        let same : (expire_one now id b).0 ≡ give_back id d b = ground (arith, h) in
        let returned = give_back-Leads id d b s.same.idle in
        let view = Leads-view returned in
        subst (Swept now b₀) (sym same) (record {
          sweep =
              subst (Sweeps now (office_of b₀)) (sym view)
                (goes_back id d s.sweep h (ground arith));
          same =
              subst (λ o. Leads b₀ o (give_back id d b)) (sym view) (Leads-trans s.same returned);
        })
    | inr kept ↦
        let same : (expire_one now id b).0 ≡ b = ground (arith, h) in
        subst (Swept now b₀) (sym same) s
  ]
]

expire_each-Swept :
    (now : ℕ) (ids : List Text) {b₀ b : Bus}
    → Swept now b₀ b
    → Swept now b₀ (expire_each now ids b).0
unfolding expire_each
expire_each-Swept now [] s = s
expire_each-Swept now (id ∷ ids) s = expire_each-Swept now ids (expire_one-Swept now id s)

requeue_expired-Swept :
    (e : Env) (b : Bus) → ((n : Text) → waiting n b ≡ []) → Swept e.now b (requeue_expired e b).0
unfolding requeue_expired
requeue_expired-Swept e b idle =
    expire_each-Swept e.now _ (record { sweep = stays; same = same-Leads idle })

module _ (e : Env) (b : Bus) (running : b.closed ≡ false) (idle : (n : Text) → waiting n b ≡ [])
    (fine : e.fault ≡ works) where
  Took : Text → Bus × Result Msg → Type 0
  Took name r = Served e b (takes name) (gave r.1) r.0

  taken-Served :
      (name : Text) (q : List Msg)
      → is_empty name ≡ false
      → queue name (requeue_expired e b).0 ≡ q
      → Took name (try_pop e name q (requeue_expired e b).0)
  unfolding Took try_pop persist
  taken-Served name [] named h =
      let s = requeue_expired-Swept e b idle in
      served (takes_none named s.sweep (λ k. requeue_expired-inflight e k b) h) s.same
  taken-Served name (m ∷ rest) named h =
      let b' = (requeue_expired e b).0 in
      let s = requeue_expired-Swept e b idle in
      subst (λ (r : Bus × Option Error). Took name (r.0, result_of m r.1))
        (sym (pop_first-works e.fault name m rest b' fine))
        (served (takes_first m rest named s.sweep (λ k. requeue_expired-inflight e k b) h)
          (Leads-trans s.same (set_box-Leads s.same.idle name rest _ _)))

  pub try_take-Served :
      (name : Text) → Served e b (takes name) (gave (try_take e name b).1) (try_take e name b).0
  unfolding Took
  try_take-Served name = elim (Bool-cases (is_empty name)) [
    | inl unnamed ↦
        let same : try_take e name b ≡ (b, err err_bad_name) = unfold try_take in ground arith in
        subst (Took name) (sym same) (served (takes_unnamed unnamed) (same-Leads idle))
    | inr named ↦
        let b' = (requeue_expired e b).0 in
        let same : try_take e name b ≡ try_pop e name (queue name b') b' =
          unfold try_take in ground arith in
        subst (Took name) (sym same) (taken-Served name _ named refl)
  ]

  Lent : Msg → ℤ → Bus × Result Delivery → Type 0
  Lent m lease r = Served e b (holds m lease) (lent r.1) r.0

  pub hold-Served :
      (m : Msg) (lease : ℤ)
      → Served e b (holds m lease) (lent (hold e m lease b).1) (hold e m lease b).0
  unfolding Lent
  hold-Served m lease = elim (Bool-cases (is_empty m.name)) [
    | inl unnamed ↦
        let same : hold e m lease b ≡ (b, err err_bad_name) = unfold hold in ground arith in
        subst (Lent m lease) (sym same) (served (holds_unnamed unnamed) (same-Leads idle))
    | inr named ↦
        let d = new_lease e m lease in
        let b' : Bus = record b {
          inflight = insert d.id d b.inflight;
          dedup = index_add d.msg b.dedup;
        } in
        let same : hold e m lease b ≡ ((persist e.fault b').0, ok d) =
          unfold hold hold_locked persist rollback in ground (arith, no_error e.fault b' fine) in
        subst (Lent m lease) (sym same)
          (unfold persist in served (holds_new named) (insert-Leads idle d _ _))
  ]

  pub ack-Served : (id : Text) → Served e b (acks id) (done (ack e id b).1) (ack e id b).0
  unfolding ack persist
  ack-Served id = elim (Option-cases (lookup id b.inflight)) [
    | inl h ↦ rw (h, ack) (served (acks_unknown h) (same-Leads idle))
    | inr (d, h) ↦ rw (h, ack, no_error) (served (acks_ended d h) (erase-Leads idle id _ _))
  ]

  pub nack-Served : (id : Text) → Served e b (nacks id) (done (nack e id b).1) (nack e id b).0
  unfolding nack persist
  nack-Served id = elim (Option-cases (lookup id b.inflight)) [
    | inl h ↦ rw (h, nack) (served (nacks_unknown h) (same-Leads idle))
    | inr (d, h) ↦
        rw (h, nack, no_error)
          (served (nacks_back d h) (Leads-disk _ (give_back-Leads id d b idle)))
  ]
