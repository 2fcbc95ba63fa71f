-- ===== src/Hub/Giving.antt =====
-- internal/hub/hub.go: what a session that closes gives back.
use zmqcat.Base.{
  ℕ, ◌≡◌, refl, ap, ◌∙◌, Bool, true, false, none, List, [], ◌∷◌, Text, arith, text_eq, text_eq_iff,
  if◌then◌else◌, Option-cases, inl, inr, ◌==◌,
}
use zmqcat.Base.Dict.{lookup, lookup-erase}
use zmqcat.Mailbox.Defs.{Bus, Env}
use zmqcat.Mailbox.Leases.{nack}
use zmqcat.Mailbox.Topics.{unsub}
use zmqcat.Mailbox.Expiring.{mem_text}
use zmqcat.Mailbox.Redelivery.{deliver-inflight}
use zmqcat.Mailbox.Expiry.{give_back}
use zmqcat.Mailbox.Persist.{persist}
use zmqcat.Mailbox.Dedup.{IsIndexed}
use zmqcat.Mailbox.Dedup.Keeps.{Section-IsIndexed}
use zmqcat.Mailbox.Moves.{nacks, unsubscribes}
use zmqcat.Mailbox.Boxes.{close_chan}
use zmqcat.Mailbox.Defs.{Sub}
use zmqcat.Mailbox.Topics.{close_sub}
use zmqcat.Hub.{Session, Hub}
use zmqcat.Hub.Leases.{nack_each, unsub_each, clear_pending, close_session}

nack-inflight :
    (e : Env) (id k : Text) (b : Bus)
    → lookup k (nack e id b).0.inflight ≡ (if text_eq id k then none else lookup k b.inflight)
unfolding nack persist give_back
nack-inflight e id k b = elim (Option-cases (lookup id b.inflight)) [
  | inl h ↦ rw (h, nack) (ground (arith, h, text_eq_iff id k))
  | inr (d, h) ↦ rw (h, nack) (rw deliver-inflight (lookup-erase id k b.inflight))
]

nack_each-inflight :
    (e : Text → Env) (ids : List Text) (k : Text) (b : Bus)
    → lookup k (nack_each e ids b).inflight ≡ (if mem_text k ids then none else lookup k b.inflight)
unfolding nack_each mem_text
nack_each-inflight e [] k b = refl
nack_each-inflight e (id ∷ ids) k b =
    let b' : Bus = (nack (e id) id b).0 in
    nack_each-inflight e ids k b' ∙ ground (arith, nack-inflight (e id) id k b)

close_sub-inflight :
    (c : ℕ) (subs : List Sub) (b : Bus) → (close_sub c subs b).inflight ≡ b.inflight
unfolding close_sub close_chan
close_sub-inflight c [] b = refl
close_sub-inflight c (s ∷ subs) b =
    close_sub-inflight c subs (if s.ch == c then close_chan s.ch b else b) ∙ ground arith

unsub_each-inflight : (cs : List ℕ) (b : Bus) → (unsub_each cs b).inflight ≡ b.inflight
unfolding unsub_each unsub
unsub_each-inflight [] b = refl
unsub_each-inflight (c ∷ cs) b = unsub_each-inflight cs (unsub c b) ∙ close_sub-inflight c b.subs b

-- An open session that closes ends each lease that it tracks and no other.
pub close_session-inflight :
    (e : Text → Env) (s : Session) (h : Hub) (k : Text)
    → s.closed ≡ false
    → lookup k (close_session e s h).1.bus.inflight
      ≡ (if mem_text k s.inflight then none else lookup k h.bus.inflight)
unfolding close_session
close_session-inflight e s h k running =
    let b' : Bus = unsub_each s.unsub h.bus in
    let same : (close_session e s h).1.bus.inflight ≡ (nack_each e s.inflight b').inflight =
      ground (arith, running) in
    ap (lookup k) same
    ∙ nack_each-inflight e s.inflight k b'
    ∙ ap (λ d. if mem_text k s.inflight then none else lookup k d)
        (unsub_each-inflight s.unsub h.bus)

nack_each-IsIndexed :
    (e : Text → Env) (ids : List Text) (b : Bus) → IsIndexed b → IsIndexed (nack_each e ids b)
unfolding nack_each
nack_each-IsIndexed e [] b v = v
nack_each-IsIndexed e (id ∷ ids) b v =
    nack_each-IsIndexed e ids (nack (e id) id b).0 (Section-IsIndexed (nacks {b = b} (e id) id) v)

pub unsub_each-IsIndexed : (cs : List ℕ) (b : Bus) → IsIndexed b → IsIndexed (unsub_each cs b)
unfolding unsub_each
unsub_each-IsIndexed [] b v = v
unsub_each-IsIndexed (c ∷ cs) b v =
    unsub_each-IsIndexed cs (unsub c b) (Section-IsIndexed (unsubscribes {b = b} c) v)

-- A session that closes keeps an exact index of the bus exact.
pub close_session-IsIndexed :
    (e : Text → Env) (s : Session) (h : Hub)
    → IsIndexed h.bus
    → IsIndexed (close_session e s h).1.bus
unfolding close_session
close_session-IsIndexed e s h v = go s.closed
  where
    go :
        (c : Bool)
        → let r : Session × Hub = if c then (s, h) else (
          record s { closed = true; unsub = []; inflight = [] },
          record h {
            bus = nack_each e s.inflight (unsub_each s.unsub h.bus);
            pending = clear_pending s.sid h.pending;
          },
        ) in
          IsIndexed r.1.bus
    go true = v
    go false = nack_each-IsIndexed e s.inflight _ (unsub_each-IsIndexed s.unsub h.bus v)
