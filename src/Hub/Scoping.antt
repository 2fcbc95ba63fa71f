-- ===== src/Hub/Scoping.antt =====
-- internal/hub/hub.go: `scopedID` keeps the ids of sessions apart, and `takeLease` covers the time
-- that a silent session has.
use zmqcat.Base.{
  ℕ, ◌*◌, ◌%◌, ◌^◌, ◌<◌, ◌≤◌, ◌≡◌, sym, ap, ◌∙◌, false, ◌||◌, [], ◌∷◌, ◌++◌, Text, arith, ltb, leb,
  is_empty, if◌then◌else◌, append_assoc, inr,
}
use zmqcat.Base.Int.{pos, int64}
use zmqcat.Mailbox.Defs.{minute}
use zmqcat.Base.Decimal.{decimal, decimal_injective, has_byte-decimal, parted}
use zmqcat.Hub.{Hub}
use zmqcat.Hub.Ids.{scoped_id, take_lease, death, or_default, default_heartbeat, default_liveness}

scoped_id-parts :
    (sid : ℕ) (id : Text) → is_empty id ≡ false → scoped_id sid id ≡ 115 ∷ (decimal sid ++ 58 ∷ id)
unfolding scoped_id
scoped_id-parts sid id h = rw h (ap (◌∷◌ 115) (append_assoc (decimal sid) (58 ∷ []) id))

tail_of : Text → Text
tail_of [] = []
tail_of (c ∷ s) = s

-- Two ids that clients have chosen and that are not empty are the same to the bus and to the table
-- of requests only if they are the same id of the same session.
pub scoped_id_injective :
    (sid sid' : ℕ) (id id' : Text)
    → is_empty id ≡ false
    → is_empty id' ≡ false
    → scoped_id sid id ≡ scoped_id sid' id'
    → (sid ≡ sid') × (id ≡ id')
unfolding tail_of
scoped_id_injective sid sid' id id' h h' e =
    let same = ap tail_of (sym (scoped_id-parts sid id h) ∙ e ∙ scoped_id-parts sid' id' h') in
    let (numbers, ids) =
      parted 58 (decimal sid) (decimal sid') id id' (has_byte-decimal 58 (inr (omega arith)) sid)
        (has_byte-decimal 58 (inr (omega arith)) sid') same in
    (decimal_injective sid sid' numbers, ids)

lease_of : ℕ → ℕ
lease_of p = let d = p * 2 % 2 ^ 64 in if leb (2 ^ 63) d || ltb d minute then minute else d

lease_of-minute : (p : ℕ) → minute ≤ lease_of p
unfolding lease_of
lease_of-minute p = ground arith

lease_of-covers : (p : ℕ) → p * 2 < 2 ^ 63 → (int64 p ≡ pos p) × (2 * p ≤ lease_of p)
unfolding lease_of int64
lease_of-covers p h =
    let small : p % 2 ^ 64 ≡ p = omega arith in (ground (arith, small), ground arith)

-- A job is leased for a minute at least.
pub take_lease-minute : (h : Hub) → minute ≤ take_lease h
unfolding take_lease lease_of
take_lease-minute h =
    lease_of-minute
      (or_default default_heartbeat h.heartbeat * or_default default_liveness h.liveness)

-- Unless the product overflows, the silence after which a session is closed is not negative, and
-- the lease of a job lasts at least twice as long.
pub take_lease-covers :
    (h : Hub)
    → or_default default_heartbeat h.heartbeat * or_default default_liveness h.liveness * 2 < 2 ^ 63
    → (d : ℕ) × (death h ≡ pos d) × (2 * d ≤ take_lease h)
unfolding take_lease lease_of death
take_lease-covers h k =
    let d = or_default default_heartbeat h.heartbeat * or_default default_liveness h.liveness in
    let (same, covered) = lease_of-covers d k in (d, same, covered)
