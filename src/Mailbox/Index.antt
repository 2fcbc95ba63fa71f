-- ===== src/Mailbox/Index.antt =====
-- internal/mailbox/mailbox.go: the deduplication index, which counts the copies of a message that
-- are queued or leased.
use zmqcat.Base.{
  ℕ, ◌+◌, ◌-◌, Bool, true, false, ◌||◌, Option, none, some, Text, ◌++◌, ◌∷◌, ltb, is_empty,
  if◌then◌else◌,
}
use zmqcat.Base.Dict.{Dict, lookup, insert, erase}
use zmqcat.Mailbox.Defs.{Msg}

-- `name + "\x00" + id`
unfoldable pub dedup_key : Text → Text → Text
dedup_key name id = name ++ 0 ∷ id

-- What reading a missing entry of a `map[string]int` gives.
abbrev pub or_zero : Option ℕ → ℕ
or_zero none = 0
or_zero (some n) = n

unfoldable pub index_add : Msg → Dict ℕ → Dict ℕ
index_add m dedup =
    let k = dedup_key m.name m.id in
    if is_empty m.id || is_empty m.name
    then dedup
    else insert k (or_zero (lookup k dedup) + 1) dedup

unfoldable pub index_del : Msg → Dict ℕ → Dict ℕ
index_del m dedup =
    let k = dedup_key m.name m.id in
    let n = or_zero (lookup k dedup) in
    if is_empty m.id || is_empty m.name
    then dedup
    else if ltb 1 n
    then insert k (n - 1) dedup
    else erase k dedup

abbrev pub is_some {ℓ} : {A : Type ℓ} → Option A → Bool
is_some none = false
is_some (some a) = true

unfoldable pub indexed : Text → Text → Dict ℕ → Bool
indexed name id dedup =
    if is_empty id || is_empty name then false else is_some (lookup (dedup_key name id) dedup)
