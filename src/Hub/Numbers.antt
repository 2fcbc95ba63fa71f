-- ===== src/Hub/Numbers.antt =====
-- internal/hub/hub.go: handling a frame leaves a session its number.
use zmqcat.Base.{ℕ, ◌≡◌, refl, Bool, Option, none, some, Text, arith}
use zmqcat.Wire.{Frame}
use zmqcat.Mailbox.Defs.{Bus, Env, Error}
use zmqcat.Hub.{Session, Hub}
use zmqcat.Hub.Leases.{claim_inflight, drop_inflight, take_rep_ack}
use zmqcat.Hub.Requests.{Refusal, rep, acknowledge}
use zmqcat.Hub.Dispatch.{
  Op, hello, ping, pong, puts, takes, readies, reserves, acks, nacks, asks, answers, pubs, subs,
  unsubs, other, op_of, replies, silent, fails, after_bus, after_release, after_req, after_sub,
  handle_op, handle,
}

after_req-sid : (s : Session) (h : Hub) (r : Option Refusal) → (after_req s h r).session.sid ≡ s.sid
unfolding after_req silent fails
after_req-sid s h none = refl
after_req-sid s h (some x) = refl

after_bus-sid :
    (out : Frame) (s : Session) (h : Hub) (r : Option Error)
    → (after_bus out s h r).session.sid ≡ s.sid
unfolding after_bus replies fails
after_bus-sid out s h none = refl
after_bus-sid out s h (some x) = refl

after_release-sid :
    (f : Frame) (s : Session) (h : Hub) (r : Option Error)
    → (after_release f s h r).session.sid ≡ s.sid
unfolding after_release replies fails drop_inflight
after_release-sid f s h none = refl
after_release-sid f s h (some x) = refl

after_sub-sid :
    (f : Frame) (s : Session) (h : Hub) (c : ℕ) (r : Option Error)
    → (after_sub f s h c r).session.sid ≡ s.sid
unfolding after_sub replies fails
after_sub-sid f s h c none = refl
after_sub-sid f s h c (some x) = refl

acknowledge-sid : (e : Env) (d : Text) (s : Session) (b : Bus) → (acknowledge e d s b).0.sid ≡ s.sid
unfolding acknowledge claim_inflight
acknowledge-sid e d s b = ground arith

handle_op-sid :
    (e : Env) (w : Bool) (op : Op) (f : Frame) (s : Session) (h : Hub)
    → (handle_op e w op f s h).session.sid ≡ s.sid
unfolding handle_op replies silent rep take_rep_ack
handle_op-sid e w hello f s h = ground arith
handle_op-sid e w ping f s h = refl
handle_op-sid e w pong f s h = refl
handle_op-sid e w puts f s h = after_bus-sid _ s _ _
handle_op-sid e w takes f s h = refl
handle_op-sid e w readies f s h = refl
handle_op-sid e w reserves f s h = refl
handle_op-sid e w acks f s h = after_release-sid f s _ _
handle_op-sid e w nacks f s h = after_release-sid f s _ _
handle_op-sid e w asks f s h = after_req-sid s _ _
handle_op-sid e w answers f s h =
    acknowledge-sid e (take_rep_ack f.id s).1 (take_rep_ack f.id s).0 h.bus
handle_op-sid e w pubs f s h = after_bus-sid _ s _ _
handle_op-sid e w subs f s h = after_sub-sid f s _ _ _
handle_op-sid e w unsubs f s h = refl
handle_op-sid e w other f s h = refl

pub handle-sid :
    (e : Env) (w : Bool) (f : Frame) (s : Session) (h : Hub)
    → (handle e w f s h).session.sid ≡ s.sid
unfolding handle
handle-sid e w f s h = handle_op-sid e w (op_of f.op) f s h
