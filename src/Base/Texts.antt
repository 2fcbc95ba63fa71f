-- ===== src/Base/Texts.antt =====
-- A Go string or byte slice: the list of its bytes.
use Prim.Native.Nat.{ℕ}
use Prim.Native.Char.{code}
use Prim.Native.String.{String}
use mathlib.Core.Path.{◌≡◌, refl, sym, ap, ◌∙◌}
use mathlib.Core.Logic.{◌↔◌}
use mathlib.Core.Bool.{Bool, true, false, ◌&&◌}
use mathlib.Core.List.{List, [], ◌∷◌, ◌++◌}
use native.Mathlib.Omega.{arith}
use zmqcat.Base.Tests.{◌==◌, ltb, if◌then◌else◌}
use zmqcat.Base.Lists.{length, take, drop, take-append, take-append-drop, length-append}

abbrev pub Text : Type 0
Text = List ℕ

-- A literal. The program's own literals are ASCII.
abbrev pub codes : String → Text
codes String.[] = []
codes (String.◌∷◌ c s) = code c ∷ codes s

-- `s == ""`
abbrev pub is_empty {ℓ} : {A : Type ℓ} → List A → Bool
is_empty [] = true
is_empty (x ∷ xs) = false

unfoldable pub text_eq : Text → Text → Bool
text_eq [] [] = true
text_eq (x ∷ xs) (y ∷ ys) = x == y && text_eq xs ys
text_eq _ _ = false

pub text_eq_refl : (s : Text) → text_eq s s ≡ true
unfolding text_eq
text_eq_refl [] = refl
text_eq_refl (x ∷ xs) = ground (arith, text_eq_refl xs)

text_eq→eq : (s t : Text) → text_eq s t ≡ true → s ≡ t
unfolding text_eq
text_eq→eq [] [] h = refl
text_eq→eq [] (y ∷ ys) h = ground arith
text_eq→eq (x ∷ xs) [] h = ground arith
text_eq→eq (x ∷ xs) (y ∷ ys) h = ground (arith, text_eq→eq xs ys)

pub text_eq_iff : (s t : Text) → (text_eq s t ≡ true) ↔ (s ≡ t)
text_eq_iff s t = (text_eq→eq s t, λ e. rw e (text_eq_refl t))

-- `strings.HasPrefix(s, prefix)`
unfoldable pub has_prefix : Text → Text → Bool
unfolding text_eq
has_prefix s prefix =
    if ltb (length s) (length prefix) then false else text_eq (take (length prefix) s) prefix

pub has_prefix-append : (prefix rest : Text) → has_prefix (prefix ++ rest) prefix ≡ true
unfolding has_prefix
has_prefix-append prefix rest =
    let same =
      (text_eq_iff (take (length prefix) (prefix ++ rest)) prefix).1 (take-append prefix rest) in
    ground (arith, same, length-append prefix rest)

pub has_prefix→append :
    (s prefix : Text) → has_prefix s prefix ≡ true → s ≡ prefix ++ drop (length prefix) s
unfolding has_prefix
has_prefix→append s prefix h =
    let same : take (length prefix) s ≡ prefix =
      (text_eq_iff (take (length prefix) s) prefix).0 (ground (arith, h)) in
    sym (take-append-drop (length prefix) s) ∙ ap (λ x. x ++ drop (length prefix) s) same
