-- ===== src/Mailbox/Office/Copies.antt =====
-- internal/mailbox/mailbox.go: an exact index finds a message just while the office has a copy.
use zmqcat.Base.{
  ℕ, zero, suc, ◌≡◌, ◌<◌, ◌≤◌, refl, true, false, Option, none, some, [], ◌∷◌, Text, arith, count,
  text_eq_iff, is_empty, ltb,
}
use zmqcat.Base.Dict.{Dict, lookup, total, weight, NodupKeys, total-erase}
use zmqcat.Mailbox.Defs.{Delivery, Box, Bus, or_no_box}
use zmqcat.Mailbox.Index.{dedup_key, indexed}
use zmqcat.Mailbox.Dedup.{has_key, in_box, in_lease, copies, IsIndexed}
use zmqcat.Mailbox.Placing.{indexed_copies}
use zmqcat.Mailbox.Office.{Holds, in_queue, on_lease}
use zmqcat.Mailbox.Office.Viewing.{office_of}

module _ {V : Type 0} (f : V → ℕ) where
  weight_le : (k : Text) (d : Dict V) → NodupKeys d → weight f (lookup k d) ≤ total f d
  weight_le k d u = omega (arith, total-erase f k d u)

  some_weight :
      (d : Dict V) → NodupKeys d → 0 < total f d → (k : Text) × (0 < weight f (lookup k d))
  unfolding lookup
  some_weight [] u h = absurd (omega arith)
  some_weight ((j, v) ∷ d) u h = go (f v) refl (some_weight d u.1)
    where
      go :
          (n : ℕ)
          → f v ≡ n
          → (0 < total f d → (k : Text) × (0 < weight f (lookup k d)))
          → (k : Text) × (0 < weight f (lookup k ((j, v) ∷ d)))
      go (suc n) e later = (j, ground (arith, text_eq_iff j j))
      go zero e later =
          let (k, p) = later (omega arith) in (k, ground (arith, text_eq_iff j k, u.0))

queue_weight : (k : Text) (o : Option Box) → weight (in_box k) o ≡ count (has_key k) (or_no_box o).q
queue_weight k none = refl
queue_weight k (some bx) = refl

lease_weight :
    (k : Text) (o : Option Delivery)
    → 0 < weight (in_lease k) o
    → (d : Delivery) × (o ≡ some d) × (has_key k d.msg ≡ true)
lease_weight k none h = absurd (omega arith)
lease_weight k (some d) h = (d, refl, ground arith)

pub copies-Holds :
    (k : Text) (b : Bus) → IsIndexed b → 0 < copies k b.boxes b.inflight → Holds k (office_of b)
copies-Holds k b v h = go (total (in_box k) b.boxes) refl
  where
    go : (n : ℕ) → total (in_box k) b.boxes ≡ n → Holds k (office_of b)
    go (suc n) e =
        let (name, p) = some_weight (in_box k) b.boxes v.boxes_nodup (omega arith) in
        in_queue name (omega (arith, queue_weight k (lookup name b.boxes)))
    go zero e =
        let (id, p) = some_weight (in_lease k) b.inflight v.inflight_nodup (omega arith) in
        let (d, q, r) = lease_weight k (lookup id b.inflight) p in on_lease id d q r

pub Holds-copies :
    (k : Text) (b : Bus) → IsIndexed b → Holds k (office_of b) → 0 < copies k b.boxes b.inflight
Holds-copies k b v (in_queue n p) =
    omega (arith, weight_le (in_box k) n b.boxes v.boxes_nodup, queue_weight k (lookup n b.boxes))
Holds-copies k b v (on_lease id d p q) =
    let e : weight (in_lease k) (lookup id b.inflight) ≡ 1 = rw p (ground arith) in
    omega (arith, weight_le (in_lease k) id b.inflight v.inflight_nodup)

module _ (name id : Text) (b : Bus) (v : IsIndexed b) where
  indexed_iff :
      is_empty id ≡ false
      → is_empty name ≡ false
      → indexed name id b.dedup ≡ ltb 0 (copies (dedup_key name id) b.boxes b.inflight)
  indexed_iff h i = indexed_copies name id _ b.dedup h i (v.exact (dedup_key name id))

  pub indexed-Holds :
      is_empty id ≡ false
      → is_empty name ≡ false
      → indexed name id b.dedup ≡ true
      → Holds (dedup_key name id) (office_of b)
  indexed-Holds h i e = copies-Holds (dedup_key name id) b v (ground (arith, indexed_iff h i))

  pub not_indexed-Holds :
      is_empty id ≡ false
      → is_empty name ≡ false
      → indexed name id b.dedup ≡ false
      → ¬ Holds (dedup_key name id) (office_of b)
  not_indexed-Holds h i e x =
      let p = Holds-copies (dedup_key name id) b v x in ground (arith, indexed_iff h i)
