-- ===== src/Mailbox/Expiry.antt =====
-- internal/mailbox/mailbox.go: leases that have run out.
use zmqcat.Base.{
  ℕ, Bool, true, false, ◌||◌, none, some, List, [], ◌∷◌, ◌++◌, Text, ltb, if◌then◌else◌,
}
use zmqcat.Base.Dict.{lookup, erase, keys}
use zmqcat.Mailbox.Defs.{Env, Delivery, Bus}
use zmqcat.Mailbox.Index.{index_del}
use zmqcat.Mailbox.Boxes.{deliver}
use zmqcat.Mailbox.Persist.{persist}

-- A lease ends: the delivery is forgotten, and its message goes back to its mailbox.
unfoldable pub give_back : Text → Delivery → Bus → Bus
give_back id d b =
    deliver d.msg (record b { inflight = erase id b.inflight; dedup = index_del d.msg b.dedup })

-- The body of the loop, for the key that the range visits.
unfoldable pub expire_one : ℕ → Text → Bus → Bus × Bool
expire_one now id b = elim (lookup id b.inflight) [
  | none ↦ (b, false)
  | some d ↦ if ltb d.expires now then (give_back id d b, true) else (b, false)
]

unfoldable pub expire_each : ℕ → List Text → Bus → Bus × Bool
expire_each now [] b = (b, false)
expire_each now (id ∷ ids) b =
    let (b', changed) = expire_one now id b in
    let (b'', more) = expire_each now ids b' in (b'', changed || more)

-- The range visits the keys in the order of the environment, and then those that it leaves out. A
-- second visit of a key changes nothing.
unfoldable pub requeue_expired : Env → Bus → Bus × Bool
requeue_expired e b = expire_each e.now (e.order ++ keys b.inflight) b

-- What the sweeper does each second.
unfoldable pub expire_leases : Env → Bus → Bus
unfolding persist
expire_leases e b =
    let (b', changed) = requeue_expired e b in
    if b.closed then b else if changed then (persist e.fault b').0 else b'
