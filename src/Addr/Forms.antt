-- ===== src/Addr/Forms.antt =====
-- internal/addr/addr.go: which listen strings `Parse` takes.
use zmqcat.Base.{
  ◌≡◌, refl, sym, subst, ◌↔◌, Bool, true, false, ◌||◌, none, some, [], ◌∷◌, ◌++◌, Text, arith,
  codes, length, drop, is_empty, has_prefix, has_prefix-append, has_prefix→append, text_eq,
  if◌then◌else◌,
}
use zmqcat.Addr.{
  Network, unix, tcp, has_colon, trim_prefix, unix_scheme, tcp_scheme, parse_nonempty, parse,
}

has_colon-append : (xs ys : Text) → has_colon xs ≡ true → has_colon (xs ++ ys) ≡ true
unfolding has_colon
has_colon-append [] ys h = ground (arith, h)
has_colon-append (x ∷ xs) ys h = ground (arith, has_colon-append xs ys)

-- Both schemes hold a colon.
scheme-has_colon :
    (s scheme : Text) → has_colon scheme ≡ true → has_prefix s scheme ≡ true → has_colon s ≡ true
scheme-has_colon s scheme h p =
    subst (λ t. has_colon t ≡ true) (sym (has_prefix→append s scheme p))
      (has_colon-append scheme (drop (length scheme) s) h)

unix-has_colon : has_colon unix_scheme ≡ true
unfolding has_colon
unix-has_colon = refl

tcp-has_colon : has_colon tcp_scheme ≡ true
unfolding has_colon
tcp-has_colon = refl

-- What `Parse` refuses.
pub record IsRefused (s : Text) : Type 0 where
  pub no_slash : has_prefix s (codes "/") ≡ false
  pub no_dot : has_prefix s (codes ".") ≡ false
  pub no_colon : has_colon s ≡ false

-- The tests of the switch, in their order, have all failed where there is no answer.
all_failed :
    {A : Type 0} (u t a d c : Bool) (x y z w : A)
    → (if u
        then some x
        else if t
        then some y
        else if a || d
        then some z
        else if c
        then some w
        else none)
      ≡ none
    → (a ≡ false) × (d ≡ false) × (c ≡ false)
all_failed true t a d c x y z w h = absurd (ground (arith, h))
all_failed false true a d c x y z w h = absurd (ground (arith, h))
all_failed false false a d c x y z w h = ground (arith, h)

parse_nonempty-IsRefused : (s : Text) → parse_nonempty s ≡ none → IsRefused s
unfolding parse_nonempty
parse_nonempty-IsRefused s h =
    let (slash, dot, colon) =
      all_failed (has_prefix s unix_scheme) (has_prefix s tcp_scheme) (has_prefix s (codes "/"))
        (has_prefix s (codes ".")) (has_colon s) (unix, trim_prefix s unix_scheme)
        (tcp, trim_prefix s tcp_scheme) (unix, s) (tcp, s) h in
    record { no_slash = slash; no_dot = dot; no_colon = colon }

IsRefused-parse_nonempty : (s : Text) → IsRefused s → parse_nonempty s ≡ none
unfolding parse_nonempty
IsRefused-parse_nonempty s r =
    let u = scheme-has_colon s unix_scheme unix-has_colon in
    let t = scheme-has_colon s tcp_scheme tcp-has_colon in
    ground (arith, u, t, r.no_slash, r.no_dot, r.no_colon)

-- `Parse` fails just on strings, the default path in place of the empty one, that start with neither
-- a slash nor a dot and hold no colon.
pub parse-IsRefused :
    (default_path s : Text)
    → (parse default_path s ≡ none) ↔ IsRefused (if is_empty s then default_path else s)
unfolding parse
parse-IsRefused default_path s =
    let t : Text = if is_empty s then default_path else s in
    (parse_nonempty-IsRefused t, IsRefused-parse_nonempty t)

-- How an address is written out: with its scheme.
unfoldable pub written : Network → Text → Text
written unix address = unix_scheme ++ address
written tcp address = tcp_scheme ++ address

tcp_not_unix : (address : Text) → has_prefix (tcp_scheme ++ address) unix_scheme ≡ false
unfolding has_prefix text_eq
tcp_not_unix address = ground arith

-- `Parse` finds again every network and address that was written with its scheme, the empty address
-- included.
pub parse-written :
    (default_path : Text) (network : Network) (address : Text)
    → parse default_path (written network address) ≡ some (network, address)
unfolding parse parse_nonempty written trim_prefix
parse-written default_path unix address = rw (has_prefix-append unix_scheme address) refl
parse-written default_path tcp address =
    rw (tcp_not_unix address, has_prefix-append tcp_scheme address) refl
