-- ===== src/Base/Dict.antt =====
-- A Go map with string keys: an association list in which a write replaces the old entry. The
-- order of the list means nothing: where the program ranges over a map, the model takes the order
-- in which the runtime visits the keys as an argument.
use Prim.Native.Nat.{ℕ, ◌+◌}
use mathlib.Core.Path.{◌≡◌, refl}
use mathlib.Core.Option.{Option, none, some}
use mathlib.Core.List.{List, [], ◌∷◌}
use native.Mathlib.Omega.{arith}
use zmqcat.Base.Tests.{if◌then◌else◌}
use zmqcat.Base.Texts.{Text, text_eq, text_eq_iff, text_eq_refl}

abbrev pub Dict {ℓ} : Type ℓ → Type ℓ
Dict V = List (Text × V)

module _ {ℓ} {V : Type ℓ} where
  unfoldable pub lookup : Text → Dict V → Option V
  lookup k [] = none
  lookup k ((j, v) ∷ d) = if text_eq j k then some v else lookup k d

  unfoldable pub erase : Text → Dict V → Dict V
  erase k [] = []
  erase k ((j, v) ∷ d) = if text_eq j k then erase k d else (j, v) ∷ erase k d

  unfoldable pub insert : Text → V → Dict V → Dict V
  unfolding erase
  insert k v d = (k, v) ∷ erase k d

  unfoldable pub keys : Dict V → List Text
  keys [] = []
  keys ((j, v) ∷ d) = j ∷ keys d

  -- The entries in the order of a range over the map: the listed keys first, then the others.
  unfoldable pub arrange : List Text → Dict V → Dict V
  unfolding lookup erase
  arrange [] d = d
  arrange (k ∷ ks) d = elim (lookup k d) [
    | none ↦ arrange ks d
    | some v ↦ (k, v) ∷ arrange ks (erase k d)
  ]

  -- The sum of a number over the entries.
  abbrev pub total : (V → ℕ) → Dict V → ℕ
  total f [] = 0
  total f ((j, v) ∷ d) = f v + total f d

  abbrev pub weight : (V → ℕ) → Option V → ℕ
  weight f none = 0
  weight f (some v) = f v

  -- No key is listed twice.
  abbrev pub NodupKeys : Dict V → Type ℓ
  NodupKeys [] = Unit
  NodupKeys ((j, v) ∷ d) = (lookup j d ≡ none) × NodupKeys d

  pub lookup-erase :
      (k j : Text) (d : Dict V) → lookup j (erase k d) ≡ (if text_eq k j then none else lookup j d)
  unfolding lookup erase
  lookup-erase k j [] = ground arith
  lookup-erase k j ((i, w) ∷ d) =
      ground (arith, text_eq_iff k j, text_eq_iff i k, text_eq_iff i j, lookup-erase k j d)

  pub lookup-insert :
      (k j : Text) (v : V) (d : Dict V)
      → lookup j (insert k v d) ≡ (if text_eq k j then some v else lookup j d)
  unfolding lookup insert
  lookup-insert k j v d = ground (arith, lookup-erase k j d)

  pub lookup-insert_self : (k : Text) (v : V) (d : Dict V) → lookup k (insert k v d) ≡ some v
  lookup-insert_self k v d = ground (arith, lookup-insert k k v d, text_eq_refl k)

  pub erase-NodupKeys : (k : Text) (d : Dict V) → NodupKeys d → NodupKeys (erase k d)
  unfolding erase
  erase-NodupKeys k [] u = u
  erase-NodupKeys k ((j, v) ∷ d) u = ground (arith, erase-NodupKeys k d u.1, lookup-erase k j d)

  pub insert-NodupKeys : (k : Text) (v : V) (d : Dict V) → NodupKeys d → NodupKeys (insert k v d)
  unfolding insert
  insert-NodupKeys k v d u =
      ground (arith, erase-NodupKeys k d u, lookup-erase k k d, text_eq_refl k)

  -- Erasing an absent key leaves every total.
  total-erase-none :
      (f : V → ℕ) (k : Text) (d : Dict V) → lookup k d ≡ none → total f (erase k d) ≡ total f d
  unfolding lookup erase
  total-erase-none f k [] h = refl
  total-erase-none f k ((j, v) ∷ d) h = ground (arith, total-erase-none f k d)

  pub total-erase :
      (f : V → ℕ) (k : Text) (d : Dict V)
      → NodupKeys d
      → total f (erase k d) + weight f (lookup k d) ≡ total f d
  unfolding lookup erase
  total-erase f k [] u = omega arith
  total-erase f k ((j, v) ∷ d) u =
      ground (arith, text_eq_iff j k, total-erase f k d u.1, total-erase-none f k d)

  pub total-insert :
      (f : V → ℕ) (k : Text) (v : V) (d : Dict V)
      → NodupKeys d
      → total f (insert k v d) + weight f (lookup k d) ≡ total f d + f v
  unfolding insert
  total-insert f k v d u = omega (arith, total-erase f k d u)
