-- ===== src/Mailbox/Retries.antt =====
-- internal/mailbox/mailbox.go: a repeated `Put`, and keys that two messages share.
use zmqcat.Base.{
  ℕ, zero, suc, ◌≤◌, ◌<◌, ◌≡◌, refl, ap, sym, subst, Bool, true, false, ◌||◌, none, [], ◌∷◌, ◌++◌,
  Text, arith, append_assoc, length, ◌==◌, is_empty,
}
use zmqcat.Base.Dict.{Dict, lookup}
use zmqcat.Mailbox.Defs.{Msg, Bus, Env, queue}
use zmqcat.Mailbox.Index.{dedup_key, indexed}
use zmqcat.Mailbox.Boxes.{ensure_box}
use zmqcat.Mailbox.Queues.{put}
use zmqcat.Mailbox.Dedup.{IsIndexed, copies, tally}
use zmqcat.Mailbox.Rejecting.{Same, ensure_box-Same}

-- What `Put` checks before it looks at the mailbox.
pub record IsPuttable (name : Text) (m : Msg) (b : Bus) : Type 0 where
  pub named : is_empty name ≡ false
  pub fits : length m.body ≤ b.max_body
  pub running : b.closed ≡ false

indexed_held :
    (name id : Text) (n : ℕ) (dedup : Dict ℕ)
    → is_empty id ≡ false
    → is_empty name ≡ false
    → lookup (dedup_key name id) dedup ≡ tally n
    → 0 < n
    → indexed name id dedup ≡ true
unfolding indexed
indexed_held name id zero dedup h k e p = absurd (omega arith)
indexed_held name id (suc n) dedup h k e p = ground arith

-- Where the index is exact and the bus open: while a copy of a message is queued or leased, a
-- `Put` of its id under its name succeeds and changes nothing, whatever the new message holds, if
-- its body is within the limit.
pub put_again :
    (e : Env) (name : Text) (m : Msg) (b : Bus)
    → IsIndexed b
    → IsPuttable name m b
    → is_empty m.id ≡ false
    → 0 < copies (dedup_key name m.id) b.boxes b.inflight
    → ((put e name m b).1 ≡ none) × Same b (put e name m b).0
unfolding put
put_again e name m b v ok_ has_id held =
    let found =
      indexed_held name m.id _ b.dedup has_id ok_.named (v.exact (dedup_key name m.id)) held in
    let result : put e name m b ≡ (ensure_box name b, none) = ground (arith, found) in
    (ap (λ r. r.1) result, subst (λ r. Same b r.0) (sym result) (ensure_box-Same name b))

-- A name with a NUL byte shares its keys with a shorter name.
dedup_key_clash : (name x id : Text) → dedup_key (name ++ 0 ∷ x) id ≡ dedup_key name (x ++ 0 ∷ id)
unfolding dedup_key
dedup_key_clash name x id = append_assoc name (0 ∷ x) (0 ∷ id)

-- Where the index is exact and the bus open: while a message `id` of the mailbox `name\x00x` is
-- queued or leased, a message `x\x00id` within the limit that is put into the mailbox `name` is
-- not queued there, and `Put` reports success.
pub put_clash :
    (e : Env) (name x id : Text) (m : Msg) (b : Bus)
    → IsIndexed b
    → IsPuttable name m b
    → m.id ≡ x ++ 0 ∷ id
    → 0 < copies (dedup_key (name ++ 0 ∷ x) id) b.boxes b.inflight
    → ((put e name m b).1 ≡ none) × (queue name (put e name m b).0 ≡ queue name b)
put_clash e name x id m b v ok_ same held =
    let has_id : is_empty m.id ≡ false = rw same (nonempty x id) in
    let (accepted, kept) =
      put_again e name m b v ok_ has_id (rw (same, ← dedup_key_clash name x id) held) in
    (accepted, ap (λ bx. bx.q) (kept.box name))
  where
    nonempty : (y z : Text) → is_empty (y ++ 0 ∷ z) ≡ false
    nonempty [] z = refl
    nonempty (c ∷ y) z = refl

unfoldable pub has_nul : Text → Bool
has_nul [] = false
has_nul (c ∷ s) = c == 0 || has_nul s

-- Names without a NUL byte have their keys of the index to themselves: equal keys come from equal
-- names and equal ids.
pub dedup_key_injective :
    (name name' id id' : Text)
    → has_nul name ≡ false
    → has_nul name' ≡ false
    → dedup_key name id ≡ dedup_key name' id'
    → (name ≡ name') × (id ≡ id')
unfolding dedup_key has_nul
dedup_key_injective [] [] id id' h h' e = (refl, ground arith)
dedup_key_injective [] (c ∷ name') id id' h h' e = ground arith
dedup_key_injective (c ∷ name) [] id id' h h' e = ground arith
dedup_key_injective (c ∷ name) (c' ∷ name') id id' h h' e =
    ground (arith, dedup_key_injective name name' id id')
