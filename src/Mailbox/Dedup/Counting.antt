-- ===== src/Mailbox/Dedup/Counting.antt =====
-- internal/mailbox/mailbox.go, the deduplication index: single changes of the maps keep it exact.
use zmqcat.Base.{ℕ, zero, suc, ◌+◌, ◌-◌, ◌≡◌, none, some, Text, arith, text_eq_iff}
use zmqcat.Base.Dict.{
  Dict, lookup, insert, erase, total, NodupKeys, lookup-insert, lookup-erase, insert-NodupKeys,
  erase-NodupKeys, total-insert, total-erase,
}
use zmqcat.Mailbox.Defs.{Msg, Delivery, Box, or_no_box}
use zmqcat.Mailbox.Index.{dedup_key, or_zero, index_add, index_del}
use zmqcat.Mailbox.Dedup.{has_key, one_if, in_box, in_lease, copies, tally, IsCounted}

pub lookup-index_add :
    (k : Text) (m : Msg) (dedup : Dict ℕ) (n : ℕ)
    → lookup k dedup ≡ tally n
    → lookup k (index_add m dedup) ≡ tally (n + one_if (has_key k m))
unfolding index_add has_key
lookup-index_add k m dedup zero h = ground (
  arith,
  text_eq_iff (dedup_key m.name m.id) k,
  lookup-insert (dedup_key m.name m.id) k (or_zero (lookup (dedup_key m.name m.id) dedup) + 1)
      dedup,
)
lookup-index_add k m dedup (suc n) h = ground (
  arith,
  text_eq_iff (dedup_key m.name m.id) k,
  lookup-insert (dedup_key m.name m.id) k (or_zero (lookup (dedup_key m.name m.id) dedup) + 1)
      dedup,
)

pub lookup-index_del :
    (k : Text) (m : Msg) (dedup : Dict ℕ) (n : ℕ)
    → lookup k dedup ≡ tally (n + one_if (has_key k m))
    → lookup k (index_del m dedup) ≡ tally n
unfolding index_del has_key
lookup-index_del k m dedup zero h = ground (
  arith,
  text_eq_iff (dedup_key m.name m.id) k,
  lookup-insert (dedup_key m.name m.id) k (or_zero (lookup (dedup_key m.name m.id) dedup) - 1)
      dedup,
  lookup-erase (dedup_key m.name m.id) k dedup,
)
lookup-index_del k m dedup (suc n) h = ground (
  arith,
  text_eq_iff (dedup_key m.name m.id) k,
  lookup-insert (dedup_key m.name m.id) k (or_zero (lookup (dedup_key m.name m.id) dedup) - 1)
      dedup,
  lookup-erase (dedup_key m.name m.id) k dedup,
)

-- The copies in the boxes after one box is written.
in_boxes-insert :
    (k name : Text) (bx : Box) (boxes : Dict Box)
    → NodupKeys boxes
    → total (in_box k) (insert name bx boxes) + in_box k (or_no_box (lookup name boxes))
      ≡ total (in_box k) boxes + in_box k bx
in_boxes-insert k name bx boxes u = ground (arith, total-insert (in_box k) name bx boxes u)

module _ {boxes : Dict Box} {inflight : Dict Delivery} {dedup : Dict ℕ}
    (v : IsCounted boxes inflight dedup) (name : Text) (bx : Box) where
  -- A box is written, with the same messages, with one more, or with one less.
  pub same-IsCounted :
      ((k : Text) → in_box k bx ≡ in_box k (or_no_box (lookup name boxes)))
      → IsCounted (insert name bx boxes) inflight dedup
  same-IsCounted same = record {
    boxes_nodup = insert-NodupKeys name bx boxes v.boxes_nodup;
    inflight_nodup = v.inflight_nodup;
    exact = λ k.
        let e : copies k (insert name bx boxes) inflight ≡ copies k boxes inflight =
          omega (arith, in_boxes-insert k name bx boxes v.boxes_nodup, same k) in
        rw e (v.exact k);
  }

  pub push-IsCounted :
      (m : Msg)
      → ((k : Text) → in_box k bx ≡ in_box k (or_no_box (lookup name boxes)) + one_if (has_key k m))
      → IsCounted (insert name bx boxes) inflight (index_add m dedup)
  push-IsCounted m more = record {
    boxes_nodup = insert-NodupKeys name bx boxes v.boxes_nodup;
    inflight_nodup = v.inflight_nodup;
    exact = λ k.
        let e : copies k (insert name bx boxes) inflight
            ≡ copies k boxes inflight + one_if (has_key k m) =
          omega (arith, in_boxes-insert k name bx boxes v.boxes_nodup, more k) in
        rw e (lookup-index_add k m dedup _ (v.exact k));
  }

  pub pop-IsCounted :
      (m : Msg)
      → ((k : Text) → in_box k bx + one_if (has_key k m) ≡ in_box k (or_no_box (lookup name boxes)))
      → IsCounted (insert name bx boxes) inflight (index_del m dedup)
  pop-IsCounted m less = record {
    boxes_nodup = insert-NodupKeys name bx boxes v.boxes_nodup;
    inflight_nodup = v.inflight_nodup;
    exact = λ k.
        let e : copies k boxes inflight
            ≡ copies k (insert name bx boxes) inflight + one_if (has_key k m) =
          omega (arith, in_boxes-insert k name bx boxes v.boxes_nodup, less k) in
        lookup-index_del k m dedup _ (rw (← e) (v.exact k));
  }

module _ {boxes : Dict Box} {inflight : Dict Delivery} {dedup : Dict ℕ}
    (v : IsCounted boxes inflight dedup) (id : Text) (d : Delivery) where
  -- A delivery is added under a new id, or removed.
  pub lease-IsCounted :
      lookup id inflight ≡ none → IsCounted boxes (insert id d inflight) (index_add d.msg dedup)
  lease-IsCounted new = record {
    boxes_nodup = v.boxes_nodup;
    inflight_nodup = insert-NodupKeys id d inflight v.inflight_nodup;
    exact = λ k.
        let e : copies k boxes (insert id d inflight) ≡ copies k boxes inflight + in_lease k d =
          ground (arith, total-insert (in_lease k) id d inflight v.inflight_nodup) in
        rw e (lookup-index_add k d.msg dedup _ (v.exact k));
  }

  pub unlease-IsCounted :
      lookup id inflight ≡ some d → IsCounted boxes (erase id inflight) (index_del d.msg dedup)
  unlease-IsCounted old = record {
    boxes_nodup = v.boxes_nodup;
    inflight_nodup = erase-NodupKeys id inflight v.inflight_nodup;
    exact = λ k.
        let e : copies k boxes inflight ≡ copies k boxes (erase id inflight) + in_lease k d =
          ground (arith, total-erase (in_lease k) id inflight v.inflight_nodup) in
        lookup-index_del k d.msg dedup _ (rw (← e) (v.exact k));
  }
