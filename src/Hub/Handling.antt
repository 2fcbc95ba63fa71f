-- ===== src/Hub/Handling.antt =====
-- internal/hub/hub.go: what holds of every frame that a session handles.
use zmqcat.Base.{ℕ, Bool, true, false, Option, none, some, [], Text, is_empty, if◌then◌else◌}
use zmqcat.Wire.{Frame, payload}
use zmqcat.Mailbox.Defs.{Bus, Env, Error, Msg}
use zmqcat.Mailbox.Queues.{put}
use zmqcat.Mailbox.Leases.{ack, nack}
use zmqcat.Mailbox.Topics.{pub_msg, sub}
use zmqcat.Mailbox.Dedup.{IsIndexed}
use zmqcat.Mailbox.Dedup.Keeps.{Section-IsIndexed}
use zmqcat.Mailbox.Moves
use zmqcat.Hub.{Session, Hub}
use zmqcat.Hub.Ids.{scoped_id, from_of}
use zmqcat.Hub.Leases.{take_rep_ack, claim_inflight}
use zmqcat.Hub.Requests.{Refusal, enter, enqueue, withdraw, req, rep, acknowledge}
use zmqcat.Hub.Giving.{unsub_each-IsIndexed}
use zmqcat.Hub.Dispatch.{
  Op, hello, ping, pong, puts, takes, readies, reserves, acks, nacks, asks, answers, pubs, subs,
  unsubs, other, op_of, replies, silent, fails, named_ok, after_bus, after_release, after_req,
  after_sub, handle_op, handle,
}

after_bus-IsIndexed :
    (out : Frame) (s : Session) (h : Hub) (r : Option Error)
    → IsIndexed h.bus
    → IsIndexed (after_bus out s h r).hub.bus
unfolding after_bus replies fails
after_bus-IsIndexed out s h none v = v
after_bus-IsIndexed out s h (some x) v = v

after_release-IsIndexed :
    (f : Frame) (s : Session) (h : Hub) (r : Option Error)
    → IsIndexed h.bus
    → IsIndexed (after_release f s h r).hub.bus
unfolding after_release replies fails
after_release-IsIndexed f s h none v = v
after_release-IsIndexed f s h (some x) v = v

after_req-IsIndexed :
    (s : Session) (h : Hub) (r : Option Refusal)
    → IsIndexed h.bus
    → IsIndexed (after_req s h r).hub.bus
unfolding after_req silent fails
after_req-IsIndexed s h none v = v
after_req-IsIndexed s h (some x) v = v

after_sub-IsIndexed :
    (f : Frame) (s : Session) (h : Hub) (c : ℕ) (r : Option Error)
    → IsIndexed h.bus
    → IsIndexed (after_sub f s h c r).hub.bus
unfolding after_sub replies fails
after_sub-IsIndexed f s h c none v = v
after_sub-IsIndexed f s h c (some x) v = v

enqueue-IsIndexed :
    (e : Env) (key : Text) (s : Session) (f : Frame) (h : Hub)
    → IsIndexed h.bus
    → IsIndexed (enqueue e key s f h).0.bus
unfolding enqueue
enqueue-IsIndexed e key s f h v = go (put e f.name m h.bus).1
  where
    m : Msg
    m = record { id = key; name = []; from = from_of s f; body = payload f; at_time = 0 }

    b' : Bus
    b' = (put e f.name m h.bus).0

    kept : IsIndexed b'
    kept = Section-IsIndexed (Moves.puts {b = h.bus} e f.name m) v

    go :
        (o : Option Error)
        → let r : Hub × Option Refusal = elim o [
          | none ↦ (record h { bus = b' }, none)
          | some x ↦
              (record h { bus = b'; pending = withdraw key s h.pending }, some (Refusal.from_bus x))
        ] in
          IsIndexed r.0.bus
    go none = kept
    go (some x) = kept

req-IsIndexed :
    (e : Env) (s : Session) (f : Frame) (h : Hub) → IsIndexed h.bus → IsIndexed (req e s f h).0.bus
unfolding req enter
req-IsIndexed e s f h v = go (is_empty f.id)
  where
    h' : Hub
    h' = enter e.now (scoped_id s.sid f.id) s f.id h

    go :
        (c : Bool)
        → let r : Hub × Option Refusal =
            if c then (h, some Refusal.missing_id) else enqueue e (scoped_id s.sid f.id) s f h' in
          IsIndexed r.0.bus
    go true = v
    go false = enqueue-IsIndexed e (scoped_id s.sid f.id) s f h' v

acknowledge-IsIndexed :
    (e : Env) (d : Text) (s : Session) (b : Bus) → IsIndexed b → IsIndexed (acknowledge e d s b).1
unfolding acknowledge
acknowledge-IsIndexed e d s b v = go (is_empty d) (claim_inflight d s).1
  where
    go :
        (c claimed : Bool)
        → let r : Session × Bus =
            if c
            then (s, b)
            else if claimed
            then ((claim_inflight d s).0, (ack e d b).0)
            else ((claim_inflight d s).0, b) in
          IsIndexed r.1
    go true claimed = v
    go false true = Section-IsIndexed (Moves.acks {b = b} e d) v
    go false false = v

handle_op-IsIndexed :
    (e : Env) (confirmed : Bool) (op : Op) (f : Frame) (s : Session) (h : Hub)
    → IsIndexed h.bus
    → IsIndexed (handle_op e confirmed op f s h).hub.bus
unfolding handle_op replies silent rep
handle_op-IsIndexed e c hello f s h v = v
handle_op-IsIndexed e c ping f s h v = v
handle_op-IsIndexed e c pong f s h v = v
handle_op-IsIndexed e c puts f s h v =
    let m : Msg = record {
      id = scoped_id s.sid f.id;
      name = [];
      from = from_of s f;
      body = payload f;
      at_time = 0;
    } in
    let (b, r) = put e f.name m h.bus in
    after_bus-IsIndexed (named_ok f) s (record h { bus = b }) r
      (Section-IsIndexed (Moves.puts {b = h.bus} e f.name m) v)
handle_op-IsIndexed e c takes f s h v = v
handle_op-IsIndexed e c readies f s h v = v
handle_op-IsIndexed e c reserves f s h v = v
handle_op-IsIndexed e c acks f s h v =
    let (b, r) = ack e f.delivery h.bus in
    after_release-IsIndexed f s (record h { bus = b }) r
      (Section-IsIndexed (Moves.acks {b = h.bus} e f.delivery) v)
handle_op-IsIndexed e c nacks f s h v =
    let (b, r) = nack e f.delivery h.bus in
    after_release-IsIndexed f s (record h { bus = b }) r
      (Section-IsIndexed (Moves.nacks {b = h.bus} e f.delivery) v)
handle_op-IsIndexed e c asks f s h v =
    let (h', r) = req e s f h in after_req-IsIndexed s h' r (req-IsIndexed e s f h v)
handle_op-IsIndexed e c answers f s h v =
    acknowledge-IsIndexed e (take_rep_ack f.id s).1 (take_rep_ack f.id s).0 h.bus v
handle_op-IsIndexed e c pubs f s h v =
    let m : Msg = record {
      id = f.id;
      name = [];
      from = from_of s f;
      body = payload f;
      at_time = 0;
    } in
    let (b, r) = pub_msg e f.name m h.bus in
    after_bus-IsIndexed (named_ok f) s (record h { bus = b }) r
      (Section-IsIndexed (Moves.publishes {b = h.bus} e f.name m) v)
handle_op-IsIndexed e c subs f s h v =
    let (b, ch, r) = sub e f.name h.bus in
    after_sub-IsIndexed f s (record h { bus = b }) ch r
      (Section-IsIndexed (Moves.subscribes {b = h.bus} e f.name) v)
handle_op-IsIndexed e c unsubs f s h v = unsub_each-IsIndexed s.unsub h.bus v
handle_op-IsIndexed e c other f s h v = v

-- Whatever frame a client sends, its handling keeps an exact index of the bus exact.
pub handle-IsIndexed :
    (e : Env) (confirmed : Bool) (f : Frame) (s : Session) (h : Hub)
    → IsIndexed h.bus
    → IsIndexed (handle e confirmed f s h).hub.bus
unfolding handle
handle-IsIndexed e c f s h v = handle_op-IsIndexed e c (op_of f.op) f s h v
