-- ===== src/Mailbox/Dedup.antt =====
-- internal/mailbox/mailbox.go, the deduplication index: what it means that the index is exact.
pub mod Counting
pub mod Keeps
use zmqcat.Base.{
  ℕ, zero, suc, ◌+◌, Bool, true, false, ◌||◌, Option, none, some, List, Text, ◌≡◌, count, is_empty,
  text_eq, if◌then◌else◌,
}
use zmqcat.Base.Dict.{Dict, lookup, total, NodupKeys}
use zmqcat.Mailbox.Defs.{Msg, Delivery, Box, Bus}
use zmqcat.Mailbox.Index.{dedup_key}

-- The message counts under this key of the index.
unfoldable pub has_key : Text → Msg → Bool
has_key k m = if is_empty m.id || is_empty m.name then false else text_eq (dedup_key m.name m.id) k

abbrev pub one_if : Bool → ℕ
one_if b = if b then 1 else 0

abbrev pub in_box : Text → Box → ℕ
in_box k bx = count (has_key k) bx.q

abbrev pub in_lease : Text → Delivery → ℕ
in_lease k d = one_if (has_key k d.msg)

-- How many queued or leased messages have the key.
abbrev pub copies : Text → Dict Box → Dict Delivery → ℕ
copies k boxes inflight = total (in_box k) boxes + total (in_lease k) inflight

-- The entry of a map of counters that stands for a number.
abbrev pub tally : ℕ → Option ℕ
tally zero = none
tally (suc n) = some (suc n)

pub record IsCounted (boxes : Dict Box) (inflight : Dict Delivery) (dedup : Dict ℕ) : Type 0 where
  pub boxes_nodup : NodupKeys boxes
  pub inflight_nodup : NodupKeys inflight
  pub exact : (k : Text) → lookup k dedup ≡ tally (copies k boxes inflight)

-- Under every key the index holds the number of queued and leased messages, and no entry for none.
abbrev pub IsIndexed : Bus → Type 0
IsIndexed b = IsCounted b.boxes b.inflight b.dedup
