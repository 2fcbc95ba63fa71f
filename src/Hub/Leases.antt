-- ===== src/Hub/Leases.antt =====
-- internal/hub/hub.go: the leases that a session holds, and how it gives them back.
use zmqcat.Base.{
  ℕ, Bool, true, false, Option, none, some, List, [], ◌∷◌, ◌++◌, Text, text_eq, ◌==◌, is_empty,
  if◌then◌else◌,
}
use zmqcat.Base.Dict.{Dict, lookup, insert, erase}
use zmqcat.Mailbox.Defs.{Bus, Env}
use zmqcat.Mailbox.Leases.{nack}
use zmqcat.Mailbox.Topics.{unsub}
use zmqcat.Hub.{Session, PendingReq, Hub}

-- The loop of `claimInflight` and `dropInflight`.
unfoldable pub without : Text → List Text → List Text
without id [] = []
without id (x ∷ xs) = let rest = without id xs in if text_eq x id then rest else x ∷ rest

unfoldable pub track_inflight : Text → Session → Session
track_inflight id s = record s { inflight = s.inflight ++ id ∷ [] }

unfoldable pub drop_inflight : Text → Session → Session
unfolding without
drop_inflight id s = record s { inflight = without id s.inflight }

-- False if the session is closed.
unfoldable pub claim_inflight : Text → Session → Session × Bool
unfolding without
claim_inflight id s =
    if s.closed then (s, false) else (record s { inflight = without id s.inflight }, true)

unfoldable pub track_rep_ack : Text → Text → Session → Session
track_rep_ack msg_id delivery s =
    if is_empty msg_id then s else record s { rep_ack = insert msg_id delivery s.rep_ack }

abbrev pub or_empty : Option Text → Text
or_empty none = []
or_empty (some d) = d

unfoldable pub take_rep_ack : Text → Session → Session × Text
take_rep_ack msg_id s =
    (record s { rep_ack = erase msg_id s.rep_ack }, or_empty (lookup msg_id s.rep_ack))

unfoldable pub drop_rep_ack : Text → Session → Session
drop_rep_ack msg_id s = record s { rep_ack = erase msg_id s.rep_ack }

-- The requests of a session are forgotten.
unfoldable pub clear_pending : ℕ → Dict PendingReq → Dict PendingReq
clear_pending sid [] = []
clear_pending sid ((id, wait) ∷ pending) =
    let rest = clear_pending sid pending in if wait.s == sid then rest else (id, wait) ∷ rest

unfoldable pub unsub_each : List ℕ → Bus → Bus
unsub_each [] b = b
unsub_each (c ∷ cs) b = unsub_each cs (unsub c b)

-- Each lease is given back at a moment of its own, also if writing the state file fails.
unfoldable pub nack_each : (Text → Env) → List Text → Bus → Bus
nack_each e [] b = b
nack_each e (id ∷ ids) b = nack_each e ids (nack (e id) id b).0

-- `session.close`
unfoldable pub close_session : (Text → Env) → Session → Hub → Session × Hub
unfolding unsub_each nack_each clear_pending
close_session e s h =
    let s' = record s { closed = true; unsub = []; inflight = [] } in
    let bus' = nack_each e s.inflight (unsub_each s.unsub h.bus) in
    if s.closed
    then (s, h)
    else (s', record h { bus = bus'; pending = clear_pending s.sid h.pending })
