-- ===== src/Mailbox/Expiring.antt =====
-- internal/mailbox/mailbox.go: exactly the leases that have run out end.
use zmqcat.Base.{
  ℕ, ◌≡◌, refl, Bool, false, ◌||◌, Option, none, some, List, [], ◌∷◌, ◌++◌, Text, inl, inr,
  Option-cases, arith, ltb, text_eq, text_eq_iff, if◌then◌else◌,
}
use zmqcat.Base.Dict.{Dict, lookup, erase, keys, lookup-erase}
use zmqcat.Mailbox.Defs.{Delivery, Bus, Env}
use zmqcat.Mailbox.Expiry.{give_back, expire_one, expire_each, requeue_expired}
use zmqcat.Mailbox.Redelivery.{deliver-inflight}

-- What is left of a lease at a time.
abbrev pub unexpired : ℕ → Option Delivery → Option Delivery
unexpired now none = none
unexpired now (some d) = if ltb d.expires now then none else some d

unfoldable pub mem_text : Text → List Text → Bool
mem_text k [] = false
mem_text k (j ∷ js) = text_eq j k || mem_text k js

mem_text-append :
    (k : Text) (xs ys : List Text) → mem_text k (xs ++ ys) ≡ (mem_text k xs || mem_text k ys)
unfolding mem_text
mem_text-append k [] ys = refl
mem_text-append k (x ∷ xs) ys = ground (arith, mem_text-append k xs ys)

module _ {ℓ} {V : Type ℓ} where
  mem_text-keys : (k : Text) (d : Dict V) → mem_text k (keys d) ≡ false → lookup k d ≡ none
  unfolding mem_text keys lookup
  mem_text-keys k [] h = refl
  mem_text-keys k ((j, v) ∷ d) h = ground (arith, mem_text-keys k d)

given_back :
    (id k : Text) (d : Delivery) (b : Bus)
    → lookup k (give_back id d b).inflight ≡ lookup k (erase id b.inflight)
unfolding give_back
given_back id k d b = rw deliver-inflight

expire_one-inflight :
    (now : ℕ) (id k : Text) (b : Bus)
    → lookup k (expire_one now id b).0.inflight
      ≡ (if text_eq id k then unexpired now (lookup k b.inflight) else lookup k b.inflight)
unfolding expire_one
expire_one-inflight now id k b = elim (Option-cases (lookup id b.inflight)) [
  | inl h ↦ rw (h, expire_one) (ground (arith, h, text_eq_iff id k))
  | inr (d, h) ↦
      rw (h, expire_one)
        (ground (arith, h, given_back id k d b, lookup-erase id k b.inflight, text_eq_iff id k))
]

expire_each-inflight :
    (now : ℕ) (ids : List Text) (k : Text) (b : Bus)
    → lookup k (expire_each now ids b).0.inflight
      ≡ (if mem_text k ids then unexpired now (lookup k b.inflight) else lookup k b.inflight)
unfolding expire_each mem_text
expire_each-inflight now [] k b = refl
expire_each-inflight now (id ∷ ids) k b =
    ground (
      arith,
      expire_one-inflight now id k b,
      expire_each-inflight now ids k (expire_one now id b).0,
    )

-- In whatever order the leases are visited, those that have run out are gone and the others are
-- as they were.
pub requeue_expired-inflight :
    (e : Env) (k : Text) (b : Bus)
    → lookup k (requeue_expired e b).0.inflight ≡ unexpired e.now (lookup k b.inflight)
unfolding requeue_expired
requeue_expired-inflight e k b = ground (
  arith,
  expire_each-inflight e.now (e.order ++ keys b.inflight) k b,
  mem_text-append k e.order (keys b.inflight),
  mem_text-keys k b.inflight,
)
