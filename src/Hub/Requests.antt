-- ===== src/Hub/Requests.antt =====
-- internal/hub/hub.go: requests that wait for their reply, `OpReq` and `OpRep` of `handle`.
use zmqcat.Base.{
  ℕ, ◌+◌, Bool, not, ◌&&◌, Option, none, some, [], ◌∷◌, Text, ltb, ◌==◌, is_empty, if◌then◌else◌,
}
use zmqcat.Base.Dict.{Dict, lookup, insert, erase}
use zmqcat.Wire.{Frame, no_frame, payload}
use zmqcat.Wire.Op.{rep_op}
use zmqcat.Mailbox.Defs.{Bus, Env, Error, Msg}
use zmqcat.Mailbox.Queues.{put}
use zmqcat.Mailbox.Leases.{ack}
use zmqcat.Hub.{Session, PendingReq, Hub}
use zmqcat.Hub.Ids.{scoped_id, from_of, pending_ttl_of}
use zmqcat.Hub.Leases.{take_rep_ack, claim_inflight}

-- `expirePendingLocked`
unfoldable pub expire_pending : ℕ → Dict PendingReq → Dict PendingReq
expire_pending now [] = []
expire_pending now ((id, p) ∷ pending) =
    let rest = expire_pending now pending in
    if not (p.expires == 0) && ltb p.expires now then rest else (id, p) ∷ rest

pub data Refusal : Type 0 where
  missing_id : Refusal
  from_bus : Error → Refusal

-- The request enters the table.
unfoldable pub enter : ℕ → Text → Session → Text → Hub → Hub
unfolding expire_pending pending_ttl_of
enter now key s id h =
    let p : PendingReq = record { s = s.sid; client_id = id; expires = now + pending_ttl_of h } in
    record h { pending = insert key p (expire_pending now h.pending) }

-- A request that the bus refuses leaves the table again, if it is this session's.
unfoldable pub withdraw : Text → Session → Dict PendingReq → Dict PendingReq
withdraw key s pending = elim (lookup key pending) [
  | none ↦ pending
  | some p ↦ if p.s == s.sid then erase key pending else pending
]

unfoldable pub enqueue : Env → Text → Session → Frame → Hub → Hub × Option Refusal
unfolding withdraw put payload from_of
enqueue e key s f h =
    let m : Msg = record {
      id = key;
      name = [];
      from = from_of s f;
      body = payload f;
      at_time = 0;
    } in
    let (bus', r) = put e f.name m h.bus in
    elim r [
      | none ↦ (record h { bus = bus' }, none)
      | some x ↦ (record h { bus = bus'; pending = withdraw key s h.pending }, some (from_bus x))
    ]

-- `OpReq`
unfoldable pub req : Env → Session → Frame → Hub → Hub × Option Refusal
unfolding enter enqueue scoped_id
req e s f h =
    let key = scoped_id s.sid f.id in
    if is_empty f.id then (h, some missing_id) else enqueue e key s f (enter e.now key s f.id h)

-- The lease of the job that is answered is acknowledged, if the session still holds it.
unfoldable pub acknowledge : Env → Text → Session → Bus → Session × Bus
unfolding claim_inflight ack
acknowledge e d s b =
    let (s', claimed) = claim_inflight d s in
    if is_empty d then (s, b) else if claimed then (s', (ack e d b).0) else (s', b)

unfoldable pub rep_frame : Session → Frame → PendingReq → Frame
unfolding from_of
rep_frame s f dest = record no_frame {
  op = rep_op;
  id = dest.client_id;
  name = f.name;
  from = from_of s f;
  body = f.body;
  text = f.text;
}

-- The session that asked, and the frame for it.
unfoldable pub addressed : Session → Frame → Option PendingReq → Option (ℕ × Frame)
unfolding rep_frame
addressed s f none = none
addressed s f (some dest) = some (dest.s, rep_frame s f dest)

-- `OpRep`; `confirmed` is whether the confirmation to the session itself could be written, which
-- comes first.
unfoldable pub rep : Env → Bool → Session → Frame → Hub → Session × Hub × Option (ℕ × Frame)
unfolding take_rep_ack acknowledge addressed
rep e confirmed s f h =
    let (s', d) = take_rep_ack f.id s in
    let (s'', bus') = acknowledge e d s' h.bus in
    (
      s'',
      record h { bus = bus'; pending = erase f.id h.pending },
      if confirmed then addressed s'' f (lookup f.id h.pending) else none,
    )
