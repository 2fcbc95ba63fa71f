-- ===== src/Command.antt =====
-- cmd/zmqcat/main.go: the flags of the commands, and the parts that commands share. The flag package
-- is given by its flag sets.
pub mod Clients
pub mod Nodes
pub mod Program
pub mod Ports
pub mod Subscribing
pub mod Exits
use zmqcat.Base.{
  ℕ, zero, suc, ◌+◌, ◌-◌, ◌*◌, ◌^◌, Bool, true, false, not, ◌&&◌, ◌||◌, Option, none, some, List,
  [], ◌∷◌, ◌++◌, Text, codes, length, leb, ltb, ◌==◌, is_empty, if◌then◌else◌,
}
use zmqcat.Base.Int.{ℤ}
use zmqcat.Args.{FlagSet}

-- The values of the flags; those that a command does not have are not used.
pub record Flags : Type 0 where
  pub listen : Text
  pub name : Text
  pub quiet : Bool
  pub local_flag : Bool
  pub mailbox : Text
  pub trace : Bool
  pub heartbeat : ℤ
  pub allow : List Text
  pub forward : List ℕ
  pub timeout : ℤ
  pub retries : ℤ

-- What the flag package makes of arguments: the flags and the others, or the end of the program with
-- a status.
pub data Parsed : Type 0 where
  parsed : Flags → List Text → Parsed
  exits : ℕ → Parsed

abbrev pub Parser : Type 0
Parser = FlagSet Parsed

-- `hostname`, of what the system says
unfoldable pub hostname : Option Text → Text
hostname none = codes "zmqcat"
hostname (some h) = if is_empty h then codes "zmqcat" else h

-- `strings.Join(args, " ")`
unfoldable pub join_words : List Text → Text
join_words [] = []
join_words (a ∷ []) = a
join_words (a ∷ b ∷ args) = a ++ (32 ∷ join_words (b ∷ args))

-- Standard input: a terminal or nothing, or what a read of it gives, if it works.
pub data Stdin : Type 0 where
  terminal : Stdin
  piped : Option Text → Stdin

-- `payload`; none if standard input cannot be read.
unfoldable pub payload_of : Stdin → List Text → Option Text
unfolding join_words
payload_of input (a ∷ args) = some (join_words (a ∷ args))
payload_of terminal [] = some []
payload_of (piped content) [] = content

-- Whether `f.Payload()` ends in a newline.
unfoldable pub ends_line : Text → Bool
ends_line [] = false
ends_line (c ∷ []) = c == 10
ends_line (c ∷ d ∷ s) = ends_line (d ∷ s)

-- A payload as it is printed, with a newline at its end.
unfoldable pub printed : Text → Text
unfolding ends_line
printed s = if is_empty s || not (ends_line s) then s ++ 10 ∷ [] else s

is_digit : ℕ → Bool
is_digit c = leb 48 c && leb c 57

-- The digits of `strconv.ParseUint` in base 10, after some others.
unfoldable pub parse_digits : Text → ℕ → Option ℕ
unfolding is_digit
parse_digits [] n = some n
parse_digits (c ∷ s) n =
    let rest = parse_digits s (n * 10 + (c - 48)) in if is_digit c then rest else none

-- `strconv.ParseUint(v, 10, 16)`
unfoldable pub parse_uint16 : Text → Option ℕ
unfolding parse_digits
parse_uint16 v =
    if is_empty v
    then none
    else elim (parse_digits v 0) [ none ↦ none | some n ↦ if ltb n (2 ^ 16) then some n else none ]

-- `portList.Set`: the ports after it, or none for a bad port.
unfoldable pub set_port : Text → List ℕ → Option (List ℕ)
unfolding parse_uint16
set_port v ports = elim (parse_uint16 v) [
  | none ↦ none
  | some n ↦ if n == 0 then none else some (ports ++ n ∷ [])
]

-- `allowList.Set`, with the keys that `UnmarshalText` takes.
unfoldable pub set_key : (Text → Option Text) → Text → List Text → Option (List Text)
set_key unmarshal v keys = elim (unmarshal v) [ none ↦ none | some k ↦ some (keys ++ k ∷ []) ]
