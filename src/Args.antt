-- ===== src/Args.antt =====
-- cmd/zmqcat/args.go: `parseArgs`, which puts flags before positional arguments. The flag package
-- is given by its two methods.
pub mod Order
use zmqcat.Base.{
  ℕ, Bool, true, false, ◌&&◌, ◌||◌, not, Option, none, some, List, [], ◌∷◌, ◌++◌, Text, codes,
  text_eq, has_prefix, ◌==◌, if◌then◌else◌,
}

-- `*flag.FlagSet`: whether a name is a flag's and the flag is Boolean, and how arguments end in a
-- result.
pub record FlagSet (R : Type 0) : Type 0 where
  pub lookup : Text → Option Bool
  pub parse : List Text → R

abbrev pub terminator : Text
terminator = codes "--"

abbrev pub dash : Text
dash = codes "-"

-- `strings.TrimLeft(a, "-")`
unfoldable pub trim_dashes : Text → Text
trim_dashes [] = []
trim_dashes (c ∷ s) = let rest = trim_dashes s in if c == 45 then rest else c ∷ s

-- `strings.IndexByte(name, '=') >= 0`
unfoldable pub has_equals : Text → Bool
has_equals [] = false
has_equals (c ∷ s) = c == 61 || has_equals s

unfoldable pub is_flag : Text → Bool
unfolding has_prefix text_eq
is_flag a = has_prefix a dash && not (text_eq a dash)

-- `f == nil`, or a Boolean flag: the next argument is not this one's value.
abbrev pub needs_value : Option Bool → Bool
needs_value none = false
needs_value (some boolean) = not boolean

unfoldable pub takes_value : {R : Type 0} → FlagSet R → Text → Bool
unfolding is_flag trim_dashes has_equals
takes_value fs a =
    let name = trim_dashes a in is_flag a && not (has_equals name) && needs_value (fs.lookup name)

-- The loop: what it adds to `flags` and to `positional` from an argument on. After a flag that
-- takes a value, the argument is that value.
unfoldable pub split : {R : Type 0} → FlagSet R → Bool → List Text → List Text × List Text
unfolding takes_value is_flag text_eq
split fs value [] = ([], [])
split fs true (a ∷ args) = let rest = split fs false args in (a ∷ rest.0, rest.1)
split fs false (a ∷ args) =
    let rest = split fs (takes_value fs a) args in
    if text_eq a terminator
    then ([], args)
    else if is_flag a
    then (a ∷ rest.0, rest.1)
    else (rest.0, a ∷ rest.1)

-- The arguments as the flag package gets them.
unfoldable pub arranged : {R : Type 0} → FlagSet R → List Text → List Text
unfolding split
arranged fs args = let parts = split fs false args in parts.0 ++ (terminator ∷ parts.1)

unfoldable pub parse_args : {R : Type 0} → FlagSet R → List Text → R
unfolding arranged
parse_args fs args = fs.parse (arranged fs args)
