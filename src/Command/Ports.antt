-- ===== src/Command/Ports.antt =====
-- cmd/zmqcat/main.go: which ports `--forward` takes.
use zmqcat.Base.{
  ℕ, zero, suc, ◌+◌, ◌-◌, ◌*◌, ◌/◌, ◌%◌, ◌≡◌, ◌<◌, inl, inr, refl, sym, subst, ap, ◌∙◌, false, none,
  some, List, [], ◌∷◌, ◌++◌, Text, arith, is_empty, ltb, ◌==◌, if◌then◌else◌, Bool-cases,
  Option-cases, if_elim,
}
use zmqcat.Base.Decimal.{digits, decimal}
use zmqcat.Command.{parse_digits, parse_uint16, set_port}

parse_digits-append :
    (xs ys : Text) (n m : ℕ)
    → parse_digits xs n ≡ some m
    → parse_digits (xs ++ ys) n ≡ parse_digits ys m
unfolding parse_digits
parse_digits-append [] ys n m h = ground (arith, h)
parse_digits-append (c ∷ xs) ys n m h =
    ground (arith, h, parse_digits-append xs ys (n * 10 + (c - 48)) m)

parse_digits-digits : (fuel n : ℕ) → n < fuel → parse_digits (digits fuel n) 0 ≡ some n
unfolding digits parse_digits
parse_digits-digits zero n h = absurd (omega arith)
parse_digits-digits (suc fuel) n h = elim (Bool-cases (ltb n 10)) [
  | inl e ↦
      let same : digits (suc fuel) n ≡ (48 + n) ∷ [] = rw e refl in
      ap (λ t. parse_digits t 0) same ∙ ground (arith, e)
  | inr e ↦
      let rest = digits fuel (n / 10) in
      let same : digits (suc fuel) n ≡ rest ++ (48 + n % 10) ∷ [] = rw e refl in
      ap (λ t. parse_digits t 0) same
      ∙ parse_digits-append rest ((48 + n % 10) ∷ []) 0 (n / 10)
          (parse_digits-digits fuel (n / 10) (ground (arith, e, h)))
      ∙ ground arith
]

snoc_not_empty : (xs : Text) (x : ℕ) → is_empty (xs ++ x ∷ []) ≡ false
snoc_not_empty [] x = refl
snoc_not_empty (y ∷ xs) x = refl

digits_not_empty : (fuel n : ℕ) → is_empty (digits (suc fuel) n) ≡ false
unfolding digits
digits_not_empty fuel n =
    if_elim (λ (t : Text). is_empty t ≡ false) (ltb n 10) (λ _. refl)
      (λ _. snoc_not_empty (digits fuel (n / 10)) (48 + n % 10))

-- `--forward` takes the decimal form of each port from 1 to 65535, whose value is then the last of
-- the ports, and of no other number.
pub set_port-decimal :
    (n : ℕ) (ports : List ℕ)
    → set_port (decimal n) ports
      ≡ (if n == 0 then none else if ltb n 65536 then some (ports ++ n ∷ []) else none)
unfolding set_port parse_uint16 decimal
set_port-decimal n ports =
    ground (arith, parse_digits-digits (suc n) n (omega arith), digits_not_empty n n)

-- Each is a port.
abbrev pub ArePorts : List ℕ → Type 0
ArePorts [] = Unit
ArePorts (p ∷ ports) = (0 < p) × (p < 65536) × ArePorts ports

snoc-ArePorts :
    (ports : List ℕ) (n : ℕ) → 0 < n → n < 65536 → ArePorts ports → ArePorts (ports ++ n ∷ [])
snoc-ArePorts [] n h k a = (h, k, tt)
snoc-ArePorts (p ∷ ports) n h k a = (a.0, a.1, snoc-ArePorts ports n h k a.2)

uint16_bound : (v : Text) (n : ℕ) → parse_uint16 v ≡ some n → n < 65536
unfolding parse_uint16
uint16_bound v n h = ground (arith, h)

-- Whatever text is given, a port that is taken is one from 1 to 65535, and it comes after those that
-- were there.
pub set_port-ArePorts :
    (v : Text) (ports ports' : List ℕ)
    → ArePorts ports
    → set_port v ports ≡ some ports'
    → ArePorts ports' × ((n : ℕ) × (ports' ≡ ports ++ n ∷ []))
unfolding set_port
set_port-ArePorts v ports ports' a h = elim (Option-cases (parse_uint16 v)) [
  | inl e ↦ absurd (ground (arith, e, h))
  | inr (n, e) ↦
      let added : ports' ≡ ports ++ n ∷ [] = ground (arith, e, h) in
      let positive : 0 < n = ground (arith, e, h) in
      (
        subst ArePorts (sym added) (snoc-ArePorts ports n positive (uint16_bound v n e) a),
        (n, added),
      )
]
