-- ===== src/Args/Order.antt =====
-- cmd/zmqcat/args.go: what `parseArgs` hands to the flag package.
use zmqcat.Base.{
  ◌+◌, ◌≡◌, refl, sym, ap, ◌∙◌, subst, Bool, true, false, List, [], ◌∷◌, ◌++◌, Text, arith, text_eq,
  text_eq_refl, text_eq_iff, if◌then◌else◌, Bool-cases, inl, inr, ◌⊎◌, count, count-append,
  append_assoc,
}
use zmqcat.Args.{FlagSet, terminator, takes_value, is_flag, split, arranged}

module _ {R : Type 0} (fs : FlagSet R) where
  -- Whether the last flag lacks its value.
  unfoldable pub lacks_value : Bool → List Text → Bool
  lacks_value value [] = value
  lacks_value true (a ∷ args) = lacks_value false args
  lacks_value false (a ∷ args) =
      let rest = lacks_value (takes_value fs a) args in if text_eq a terminator then false else rest

  split-terminator :
      (a : Text) (args : List Text)
      → text_eq a terminator ≡ true
      → split fs false (a ∷ args) ≡ ([], args)
  unfolding split
  split-terminator a args h = rw h refl

  split-flag :
      (a : Text) (args : List Text)
      → text_eq a terminator ≡ false
      → is_flag a ≡ true
      → split fs false (a ∷ args)
        ≡ (a ∷ (split fs (takes_value fs a) args).0, (split fs (takes_value fs a) args).1)
  unfolding split
  split-flag a args h k = rw (h, k) refl

  split-positional :
      (a : Text) (args : List Text)
      → text_eq a terminator ≡ false
      → is_flag a ≡ false
      → split fs false (a ∷ args) ≡ ((split fs false args).0, a ∷ (split fs false args).1)
  unfolding split takes_value
  split-positional a args h k = rw (h, k) refl

  takes_value-positional : (a : Text) → is_flag a ≡ false → takes_value fs a ≡ false
  unfolding takes_value
  takes_value-positional a h = rw h refl

  split-again :
      (value : Bool) (args tail : List Text)
      → lacks_value value args ≡ false
      → split fs value ((split fs value args).0 ++ (terminator ∷ tail))
        ≡ ((split fs value args).0, tail)
  unfolding lacks_value split
  split-again false [] tail h = split-terminator terminator tail (text_eq_refl terminator)
  split-again true [] tail h = absurd (ground (arith, h))
  split-again true (a ∷ args) tail h =
      ap (λ (p : List Text × List Text). (a ∷ p.0, p.1)) (split-again false args tail h)
  split-again false (a ∷ args) tail h = elim (Bool-cases (text_eq a terminator)) [
    | inl e ↦
        again (split-terminator a args e)
          (split-terminator terminator tail (text_eq_refl terminator))
    | inr e ↦
        let h' : lacks_value (takes_value fs a) args ≡ false = ground (arith, h, e) in
        let ih = split-again (takes_value fs a) args tail h' in
        elim (Bool-cases (is_flag a)) [
          | inl k ↦ again (split-flag a args e k) (
              split-flag a ((split fs (takes_value fs a) args).0 ++ (terminator ∷ tail)) e k
              ∙ ap (λ (p : List Text × List Text). (a ∷ p.0, p.1)) ih)
          | inr k ↦ again (split-positional a args e k) (
              subst
                (λ v.
                  split fs v ((split fs v args).0 ++ (terminator ∷ tail))
                  ≡ ((split fs v args).0, tail))
                (takes_value-positional a k) ih)
        ]
  ]
    where
      again :
          {parts : List Text × List Text}
          → split fs false (a ∷ args) ≡ parts
          → split fs false (parts.0 ++ (terminator ∷ tail)) ≡ (parts.0, tail)
          → split fs false ((split fs false (a ∷ args)).0 ++ (terminator ∷ tail))
            ≡ ((split fs false (a ∷ args)).0, tail)
      again same h =
          subst (λ p. split fs false (p.0 ++ (terminator ∷ tail)) ≡ (p.0, tail)) (sym same) h

  -- Arranging is idempotent: where no flag lacks its value, arguments that are arranged already
  -- stay as they are.
  pub arranged-arranged :
      (args : List Text)
      → lacks_value false args ≡ false
      → arranged fs (arranged fs args) ≡ arranged fs args
  unfolding arranged
  arranged-arranged args h =
      ap (λ p. p.0 ++ (terminator ∷ p.1)) (split-again false args (split fs false args).1 h)

  -- The flags end with one that takes a value.
  pub record EndsOpen (flags : List Text) : Type 0 where
    pub front : List Text
    pub name : Text
    pub shape : flags ≡ front ++ (name ∷ [])
    pub takes : takes_value fs name ≡ true

  EndsOpen-cons : (a : Text) {flags : List Text} → EndsOpen flags → EndsOpen (a ∷ flags)
  EndsOpen-cons a o = record {
    front = a ∷ o.front;
    name = o.name;
    shape = ap (◌∷◌ a) o.shape;
    takes = o.takes;
  }

  flag_last :
      (a : Text) {args : List Text}
      → ((takes_value fs a ≡ true) × (args ≡ [])) ⊎ EndsOpen (split fs (takes_value fs a) args).0
      → EndsOpen (a ∷ (split fs (takes_value fs a) args).0)
  unfolding split
  flag_last a (inl (t, n)) = record {
    front = [];
    name = a;
    shape = ap (λ xs. a ∷ (split fs (takes_value fs a) xs).0) n;
    takes = t;
  }
  flag_last a (inr o) = EndsOpen-cons a o

  lacks_value-EndsOpen :
      (value : Bool) (args : List Text)
      → lacks_value value args ≡ true
      → ((value ≡ true) × (args ≡ [])) ⊎ EndsOpen (split fs value args).0
  unfolding lacks_value split
  lacks_value-EndsOpen value [] h = inl (h, refl)
  lacks_value-EndsOpen true (a ∷ args) h = elim (lacks_value-EndsOpen false args h) [
    | inl (x, y) ↦ absurd (ground (arith, x))
    | inr o ↦ inr (EndsOpen-cons a o)
  ]
  lacks_value-EndsOpen false (a ∷ args) h =
      let e : text_eq a terminator ≡ false = ground (arith, h) in
      let ih = lacks_value-EndsOpen (takes_value fs a) args (ground (arith, h, e)) in
      elim (Bool-cases (is_flag a)) [
        | inl k ↦ inr (subst (λ p. EndsOpen p.0) (sym (split-flag a args e k)) (flag_last a ih))
        | inr k ↦ elim ih [
          | inl (x, y) ↦ absurd (ground (arith, x, takes_value-positional a k))
          | inr o ↦ inr (
              subst (λ p. EndsOpen p.0) (sym (split-positional a args e k))
                (subst (λ v. EndsOpen (split fs v args).0) (takes_value-positional a k) o))
        ]
      ]

  count-split :
      (p : Text → Bool) (value : Bool) (args : List Text)
      → p terminator ≡ false
      → count p (split fs value args).0 + count p (split fs value args).1 ≡ count p args
  unfolding split
  count-split p value [] h = omega arith
  count-split p true (a ∷ args) h = ground (arith, count-split p false args h)
  count-split p false (a ∷ args) h = ground (
    arith,
    text_eq_iff a terminator,
    h,
    count-split p (takes_value fs a) args h,
    count-split p false args h,
    takes_value-positional a,
  )

  -- No argument is lost and none is made up: apart from `--` itself, each stands as often in what
  -- the flag package gets as it was given.
  pub count-arranged :
      (p : Text → Bool) (args : List Text)
      → p terminator ≡ false
      → count p (arranged fs args) ≡ count p args
  unfolding arranged
  count-arranged p args h =
      let parts = split fs false args in
      omega (
        arith,
        count-append p parts.0 (terminator ∷ parts.1),
        count-split p false args h,
        tail_count parts.1,
      )
    where
      tail_count : (xs : List Text) → count p (terminator ∷ xs) ≡ count p xs
      tail_count xs = ground (arith, h)

  -- Where the arguments end with a flag that lacks its value, the flag package gets `--` right
  -- behind a flag that takes a value, and the positional arguments after it.
  pub arranged-missing_value :
      (args : List Text)
      → lacks_value false args ≡ true
      → (front : List Text) × (name : Text) × (takes_value fs name ≡ true)
        × (arranged fs args ≡ front ++ (name ∷ terminator ∷ (split fs false args).1))
  unfolding arranged
  arranged-missing_value args h = elim (lacks_value-EndsOpen false args h) [
    | inl (x, y) ↦ absurd (ground (arith, x))
    | inr o ↦ (
      o.front,
      o.name,
      o.takes,
      ap (λ xs. xs ++ (terminator ∷ (split fs false args).1)) o.shape
          ∙ append_assoc o.front (o.name ∷ []) (terminator ∷ (split fs false args).1),
    )
  ]
