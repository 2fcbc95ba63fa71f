-- ===== src/Client/Naming.antt =====
-- client.go: the ids that `nextID` makes are told apart by their prefix and their number.
use zmqcat.Base.{
  ℕ, zero, suc, ◌+◌, ◌%◌, ◌^◌, ◌≡◌, ◌<◌, refl, sym, ◌∙◌, false, Option, none, some, [], ◌∷◌, Text,
  codes, inl, arith, append_assoc,
}
use zmqcat.Base.Decimal.{decimal, decimal_injective, has_byte, has_byte-decimal, parted}
use zmqcat.Client.{Client, Link, hex_digit, hex, fresh_prefix, prefix_of, next_id}

-- The byte of `-`.
abbrev dash : ℕ
dash = 45

has_byte-hex : (xs : Text) → has_byte dash (hex xs) ≡ false
unfolding has_byte hex hex_digit
has_byte-hex [] = refl
has_byte-hex (x ∷ xs) = ground (arith, has_byte-hex xs)

-- The prefix is not made yet, or it holds no dash.
abbrev pub IsNamed : Option Text → Type 0
IsNamed none = Unit
IsNamed (some p) = has_byte dash p ≡ false

has_byte-prefix_of :
    (link : Link) (p : Option Text) → IsNamed p → has_byte dash (prefix_of link p) ≡ false
unfolding prefix_of fresh_prefix
has_byte-prefix_of link (some p) h = h
has_byte-prefix_of link none h = go link.random
  where
    go : (r : Option Text) → has_byte dash (fresh_prefix r link.now) ≡ false
    go none = has_byte-decimal dash (inl (omega arith)) link.now
    go (some xs) = has_byte-hex xs

next_id-IsNamed : (link : Link) (c : Client) → IsNamed c.prefix → IsNamed (next_id link c).0.prefix
unfolding next_id
next_id-IsNamed link c h = has_byte-prefix_of link c.prefix h

-- Two ids that are equal, of one client or of two, have equal prefixes and counters, where the
-- prefixes were made by `nextID`.
pub next_id_injective :
    (link link' : Link) (c c' : Client)
    → IsNamed c.prefix
    → IsNamed c'.prefix
    → (next_id link c).1 ≡ (next_id link' c').1
    → (prefix_of link c.prefix ≡ prefix_of link' c'.prefix)
      × ((next_id link c).0.seq ≡ (next_id link' c').0.seq)
unfolding next_id
next_id_injective link link' c c' h h' e =
    let p = prefix_of link c.prefix in
    let p' = prefix_of link' c'.prefix in
    let n = (c.seq + 1) % 2 ^ 64 in
    let n' = (c'.seq + 1) % 2 ^ 64 in
    let parts =
      parted dash p p' (decimal n) (decimal n') (has_byte-prefix_of link c.prefix h)
        (has_byte-prefix_of link' c'.prefix h')
        (sym (append_assoc p (codes "-") (decimal n))
          ∙ e
          ∙ append_assoc p' (codes "-") (decimal n')) in
    (parts.0, decimal_injective n n' parts.1)

-- The client after a number of ids.
unfoldable pub after_ids : (ℕ → Link) → ℕ → Client → Client
after_ids links zero c = c
after_ids links (suc n) c = (next_id (links n) (after_ids links n c)).0

after_ids-IsNamed :
    (links : ℕ → Link) (n : ℕ) (c : Client)
    → IsNamed c.prefix
    → IsNamed (after_ids links n c).prefix
unfolding after_ids
after_ids-IsNamed links zero c h = h
after_ids-IsNamed links (suc n) c h =
    next_id-IsNamed (links n) (after_ids links n c) (after_ids-IsNamed links n c h)

seq_after :
    (links : ℕ → Link) (n : ℕ) (c : Client)
    → c.seq < 2 ^ 64
    → (after_ids links n c).seq ≡ (c.seq + n) % 2 ^ 64
unfolding after_ids next_id
seq_after links zero c h = omega arith
seq_after links (suc n) c h = omega (arith, seq_after links n c h)

-- A client repeats no id in 2^64 calls, whatever comes between them; its counter wraps round there.
pub after_ids_injective :
    (links : ℕ → Link) (i j : ℕ) (c : Client)
    → IsNamed c.prefix
    → c.seq < 2 ^ 64
    → i < 2 ^ 64
    → j < 2 ^ 64
    → (next_id (links i) (after_ids links i c)).1 ≡ (next_id (links j) (after_ids links j c)).1
    → i ≡ j
unfolding next_id
after_ids_injective links i j c named small h k e =
    let (_, same) =
      next_id_injective (links i) (links j) (after_ids links i c) (after_ids links j c)
        (after_ids-IsNamed links i c named) (after_ids-IsNamed links j c named) e in
    omega (arith, same, seq_after links i c small, seq_after links j c small)
