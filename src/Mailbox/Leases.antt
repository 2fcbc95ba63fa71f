-- ===== src/Mailbox/Leases.antt =====
-- internal/mailbox/mailbox.go: `Hold`, `Ack`, `Nack`, `Reserve` and `TryReserve`.
use zmqcat.Base.{ℕ, zero, suc, ◌+◌, Option, none, some, Text, is_empty, if◌then◌else◌}
use zmqcat.Base.Dict.{lookup, insert, erase}
use zmqcat.Base.Int.{ℤ, pos, negsuc}
use zmqcat.Mailbox.Defs.{
  Error, err_closed, err_bad_name, err_not_found, Result, ok, err, Env, Msg, Delivery, Bus, minute,
}
use zmqcat.Mailbox.Index.{index_add, index_del}
use zmqcat.Mailbox.Persist.{persist, rollback, result_of}
use zmqcat.Mailbox.Expiry.{give_back}
use zmqcat.Mailbox.Queues.{Pick, try_take, take_msg, requeue}

-- `if lease <= 0 { lease = time.Minute }`
unfoldable pub lease_or_minute : ℤ → ℕ
lease_or_minute (pos zero) = minute
lease_or_minute (pos (suc n)) = suc n
lease_or_minute (negsuc n) = minute

unfoldable pub undo_hold : Text → Msg → Bus → Bus
undo_hold id m b = record b { inflight = erase id b.inflight; dedup = index_del m b.dedup }

unfoldable pub hold_locked : Env → Delivery → Bus → Bus × Result Delivery
unfolding undo_hold persist rollback
hold_locked e d b =
    let b' = record b { inflight = insert d.id d b.inflight; dedup = index_add d.msg b.dedup } in
    let (written, r) = persist e.fault b' in
    let (b'', r') = rollback (undo_hold d.id d.msg) written r in (b'', result_of d r')

unfoldable pub hold : Env → Msg → ℤ → Bus → Bus × Result Delivery
unfolding hold_locked lease_or_minute
hold e m lease b =
    let d : Delivery = record { id = e.fresh; msg = m; expires = e.now + lease_or_minute lease } in
    if is_empty m.name
    then (b, err err_bad_name)
    else if b.closed
    then (b, err err_closed)
    else hold_locked e d b

unfoldable pub ack : Env → Text → Bus → Bus × Option Error
unfolding persist
ack e id b = elim (lookup id b.inflight) [
  | none ↦ (b, some err_not_found)
  | some d ↦
      persist e.fault (record b { inflight = erase id b.inflight; dedup = index_del d.msg b.dedup })
]

unfoldable pub nack : Env → Text → Bus → Bus × Option Error
unfolding persist
nack e id b = elim (lookup id b.inflight) [
  | none ↦ (b, some err_not_found)
  | some d ↦ persist e.fault (give_back id d b)
]

-- What `Reserve` and `TryReserve` do with a message that they took: lease it, or requeue it.
unfoldable pub hold_taken : Env → Env → Msg → ℤ → Bus → Bus × Result Delivery
hold_taken e e' m lease b =
    let (b', r) = hold e m lease b in
    elim r [ ok d ↦ (b', ok d) | err x ↦ ((requeue e' m b').0, err x) ]

-- Each of the three calls takes the lock by itself; the others act between them.
unfoldable pub try_reserve : Env → Env → Env → (Bus → Bus) → Text → ℤ → Bus → Bus × Result Delivery
unfolding hold_taken
try_reserve e₁ e₂ e₃ others name lease b =
    let (b', r) = try_take e₁ name b in
    if is_empty name
    then (b, err err_bad_name)
    else elim r [ err x ↦ (b', err x) | ok m ↦ hold_taken e₂ e₃ m lease (others b') ]

-- `none` means that the call still waits for a message.
unfoldable pub reserve :
    Env
    → (Bus → Bus)
    → Env
    → Pick
    → Env
    → Env
    → (Bus → Bus)
    → Text
    → ℤ
    → Bus
    → Option (Bus × Result Delivery)
unfolding hold_taken
reserve e others e' pick e₂ e₃ more name lease b =
    let taken = take_msg e others e' pick name b in
    if is_empty name then some (b, err err_bad_name) else elim taken [
      | none ↦ none
      | some (b', err x) ↦ some (b', err x)
      | some (b', ok m) ↦ some (hold_taken e₂ e₃ m lease (more b'))
    ]
