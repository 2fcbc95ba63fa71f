-- ===== src/Hub/Scoped.antt =====
-- internal/hub/hub.go: every request that waits is kept under the id of its session.
use zmqcat.Base.{
  ℕ, ◌≡◌, ◌≤◌, refl, Bool, not, ◌&&◌, Option, none, some, [], ◌∷◌, Text, text_eq, ltb, ◌==◌,
  is_empty, if◌then◌else◌, if_elim,
}
use zmqcat.Base.Dict.{Dict, lookup, insert, erase}
use zmqcat.Wire.{Frame, payload}
use zmqcat.Mailbox.Defs.{Bus, Env, Error, Msg}
use zmqcat.Mailbox.Queues.{put}
use zmqcat.Hub.{Session, PendingReq, Hub}
use zmqcat.Hub.Ids.{scoped_id, from_of}
use zmqcat.Hub.Leases.{clear_pending, close_session}
use zmqcat.Hub.Requests.{Refusal, expire_pending, withdraw, enter, enqueue, req, rep}
use zmqcat.Hub.Dispatch.{
  Op, hello, ping, pong, puts, takes, readies, reserves, acks, nacks, asks, answers, pubs, subs,
  unsubs, other, op_of, replies, silent, fails, after_bus, after_release, after_req, after_sub,
  handle_op, handle,
}

-- An entry belongs to a session of the hub, and stands under the id that this session gives it.
pub record IsOwned (n : ℕ) (k : Text) (p : PendingReq) : Type 0 where
  pub known : p.s ≤ n
  pub scoped : k ≡ scoped_id p.s p.client_id

abbrev pub AreOwned : ℕ → Dict PendingReq → Type 0
AreOwned n [] = Unit
AreOwned n ((k, p) ∷ d) = IsOwned n k p × AreOwned n d

module _ (n : ℕ) where
  erase-AreOwned : (k : Text) (d : Dict PendingReq) → AreOwned n d → AreOwned n (erase k d)
  unfolding erase
  erase-AreOwned k [] v = tt
  erase-AreOwned k ((j, p) ∷ d) v =
      if_elim (AreOwned n) (text_eq j k) (λ _. erase-AreOwned k d v.1)
        (λ _. (v.0, erase-AreOwned k d v.1))

  expire-AreOwned :
      (now : ℕ) (d : Dict PendingReq) → AreOwned n d → AreOwned n (expire_pending now d)
  unfolding expire_pending
  expire-AreOwned now [] v = tt
  expire-AreOwned now ((j, p) ∷ d) v =
      if_elim (AreOwned n) (not (p.expires == 0) && ltb p.expires now)
        (λ _. expire-AreOwned now d v.1) (λ _. (v.0, expire-AreOwned now d v.1))

  clear-AreOwned : (sid : ℕ) (d : Dict PendingReq) → AreOwned n d → AreOwned n (clear_pending sid d)
  unfolding clear_pending
  clear-AreOwned sid [] v = tt
  clear-AreOwned sid ((j, p) ∷ d) v =
      if_elim (AreOwned n) (p.s == sid) (λ _. clear-AreOwned sid d v.1)
        (λ _. (v.0, clear-AreOwned sid d v.1))

  withdraw-AreOwned :
      (key : Text) (s : Session) (d : Dict PendingReq)
      → AreOwned n d
      → AreOwned n (withdraw key s d)
  unfolding withdraw
  withdraw-AreOwned key s d v = go (lookup key d)
    where
      go :
          (o : Option PendingReq)
          → AreOwned n (elim o [ none ↦ d | some p ↦ if p.s == s.sid then erase key d else d ])
      go none = v
      go (some p) = if_elim (AreOwned n) (p.s == s.sid) (λ _. erase-AreOwned key d v) (λ _. v)

  pub close_session-AreOwned :
      (es : Text → Env) (s : Session) (h : Hub)
      → AreOwned n h.pending
      → AreOwned n (close_session es s h).1.pending
  unfolding close_session
  close_session-AreOwned es s h v =
      if_elim (λ (a : Session × Hub). AreOwned n a.1.pending) s.closed (λ _. v)
        (λ _. clear-AreOwned s.sid h.pending v)

  enter-AreOwned :
      (now : ℕ) (s : Session) (id : Text) (h : Hub)
      → s.sid ≤ n
      → AreOwned n h.pending
      → AreOwned n (enter now (scoped_id s.sid id) s id h).pending
  unfolding enter insert
  enter-AreOwned now s id h k v = (
    record { known = k; scoped = refl },
    erase-AreOwned (scoped_id s.sid id) (expire_pending now h.pending)
        (expire-AreOwned now h.pending v),
  )

  enqueue-AreOwned :
      (e : Env) (key : Text) (s : Session) (f : Frame) (h : Hub)
      → AreOwned n h.pending
      → AreOwned n (enqueue e key s f h).0.pending
  unfolding enqueue
  enqueue-AreOwned e key s f h v = go (put e f.name m h.bus)
    where
      m : Msg
      m = record { id = key; name = []; from = from_of s f; body = payload f; at_time = 0 }

      go :
          (a : Bus × Option Error)
          → let r : Hub × Option Refusal = elim a.1 [
            | none ↦ (record h { bus = a.0 }, none)
            | some x ↦ (
              record h { bus = a.0; pending = withdraw key s h.pending },
              some (Refusal.from_bus x),
            )
          ] in
            AreOwned n r.0.pending
      go (b, none) = v
      go (b, some x) = withdraw-AreOwned key s h.pending v

  req-AreOwned :
      (e : Env) (s : Session) (f : Frame) (h : Hub)
      → s.sid ≤ n
      → AreOwned n h.pending
      → AreOwned n (req e s f h).0.pending
  unfolding req
  req-AreOwned e s f h k v =
      if_elim (λ (a : Hub × Option Refusal). AreOwned n a.0.pending) (is_empty f.id) (λ _. v)
        λ _.
          enqueue-AreOwned e (scoped_id s.sid f.id) s f
            (enter e.now (scoped_id s.sid f.id) s f.id h) (enter-AreOwned e.now s f.id h k v)

  after_req-AreOwned :
      (s : Session) (h : Hub) (r : Option Refusal)
      → AreOwned n h.pending
      → AreOwned n (after_req s h r).hub.pending
  unfolding after_req silent fails
  after_req-AreOwned s h none v = v
  after_req-AreOwned s h (some x) v = v

  after_bus-AreOwned :
      (out : Frame) (s : Session) (h : Hub) (r : Option Error)
      → AreOwned n h.pending
      → AreOwned n (after_bus out s h r).hub.pending
  unfolding after_bus replies fails
  after_bus-AreOwned out s h none v = v
  after_bus-AreOwned out s h (some x) v = v

  after_release-AreOwned :
      (f : Frame) (s : Session) (h : Hub) (r : Option Error)
      → AreOwned n h.pending
      → AreOwned n (after_release f s h r).hub.pending
  unfolding after_release replies fails
  after_release-AreOwned f s h none v = v
  after_release-AreOwned f s h (some x) v = v

  after_sub-AreOwned :
      (f : Frame) (s : Session) (h : Hub) (c : ℕ) (r : Option Error)
      → AreOwned n h.pending
      → AreOwned n (after_sub f s h c r).hub.pending
  unfolding after_sub replies fails
  after_sub-AreOwned f s h c none v = v
  after_sub-AreOwned f s h c (some x) v = v

  handle_op-AreOwned :
      (e : Env) (w : Bool) (op : Op) (f : Frame) (s : Session) (h : Hub)
      → s.sid ≤ n
      → AreOwned n h.pending
      → AreOwned n (handle_op e w op f s h).hub.pending
  unfolding handle_op replies silent rep
  handle_op-AreOwned e w hello f s h k v = v
  handle_op-AreOwned e w ping f s h k v = v
  handle_op-AreOwned e w pong f s h k v = v
  handle_op-AreOwned e w puts f s h k v = after_bus-AreOwned _ s _ _ v
  handle_op-AreOwned e w takes f s h k v = v
  handle_op-AreOwned e w readies f s h k v = v
  handle_op-AreOwned e w reserves f s h k v = v
  handle_op-AreOwned e w acks f s h k v = after_release-AreOwned f s _ _ v
  handle_op-AreOwned e w nacks f s h k v = after_release-AreOwned f s _ _ v
  handle_op-AreOwned e w asks f s h k v =
      after_req-AreOwned s (req e s f h).0 (req e s f h).1 (req-AreOwned e s f h k v)
  handle_op-AreOwned e w answers f s h k v = erase-AreOwned f.id h.pending v
  handle_op-AreOwned e w pubs f s h k v = after_bus-AreOwned _ s _ _ v
  handle_op-AreOwned e w subs f s h k v = after_sub-AreOwned f s _ _ _ v
  handle_op-AreOwned e w unsubs f s h k v = v
  handle_op-AreOwned e w other f s h k v = v

  pub handle-AreOwned :
      (e : Env) (w : Bool) (f : Frame) (s : Session) (h : Hub)
      → s.sid ≤ n
      → AreOwned n h.pending
      → AreOwned n (handle e w f s h).hub.pending
  unfolding handle
  handle-AreOwned e w f s h k v = handle_op-AreOwned e w (op_of f.op) f s h k v
