-- ===== src/Hub/Answering.antt =====
-- internal/hub/hub.go: which frames a session answers at once.
use zmqcat.Base.{
  ℕ, ◌≡◌, refl, Bool, true, false, Option, none, some, Text, arith, codes, text_eq, ◌||◌,
}
use zmqcat.Wire.{Frame}
use zmqcat.Mailbox.Defs.{Env, Error}
use zmqcat.Hub.{Session, Hub}
use zmqcat.Hub.Dispatch.{
  Op, hello, ping, pong, puts, takes, readies, reserves, acks, nacks, asks, answers, pubs, subs,
  unsubs, other, op_of, Failure, Handled, replies, fails, ok_frame, named_ok, after_bus,
  after_release, after_sub, handle_op, handle, written_for,
}

-- The cases whose frames are answered as they are handled.
unfoldable pub is_synchronous : Op → Bool
is_synchronous pong = false
is_synchronous takes = false
is_synchronous readies = false
is_synchronous reserves = false
is_synchronous asks = false
is_synchronous _ = true

-- The frames that are not answered at once, by what they are called on the wire: jobs are sent when
-- they come, `req` is answered by a worker, and `pong` is an answer.
abbrev pub is_deferred : Text → Bool
is_deferred op =
    text_eq op (codes "pong")
    || text_eq op (codes "take")
    || text_eq op (codes "ready")
    || text_eq op (codes "reserve")
    || text_eq op (codes "req")

at_once : (op : Text) → is_deferred op ≡ false → is_synchronous (op_of op) ≡ true
unfolding op_of is_synchronous
at_once op h = ground (arith, h)

-- A frame is written that carries the id of the one that is answered.
pub record Answered (text : Failure → Text) (f : Frame) (r : Handled) : Type 0 where
  pub out : Frame
  pub is_written : written_for text f r ≡ some out
  pub same_id : out.id ≡ f.id

module _ (text : Failure → Text) where
  after_bus-Answered :
      (out f : Frame) (s : Session) (h : Hub) (r : Option Error)
      → out.id ≡ f.id
      → Answered text f (after_bus out s h r)
  unfolding after_bus written_for replies fails
  after_bus-Answered out f s h none same = record { out = out; is_written = refl; same_id = same }
  after_bus-Answered out f s h (some x) same = record { out = _; is_written = refl; same_id = refl }

  after_release-Answered :
      (f : Frame) (s : Session) (h : Hub) (r : Option Error)
      → Answered text f (after_release f s h r)
  unfolding after_release written_for replies fails ok_frame
  after_release-Answered f s h none = record { out = _; is_written = refl; same_id = refl }
  after_release-Answered f s h (some x) = record { out = _; is_written = refl; same_id = refl }

  after_sub-Answered :
      (f : Frame) (s : Session) (h : Hub) (c : ℕ) (r : Option Error)
      → Answered text f (after_sub f s h c r)
  unfolding after_sub written_for replies fails named_ok
  after_sub-Answered f s h c none = record { out = _; is_written = refl; same_id = refl }
  after_sub-Answered f s h c (some x) = record { out = _; is_written = refl; same_id = refl }

  handle_op-Answered :
      (e : Env) (confirmed : Bool) (op : Op) (f : Frame) (s : Session) (h : Hub)
      → is_synchronous op ≡ true
      → Answered text f (handle_op e confirmed op f s h)
  unfolding handle_op written_for replies ok_frame named_ok is_synchronous
  handle_op-Answered e c hello f s h y = record { out = _; is_written = refl; same_id = refl }
  handle_op-Answered e c ping f s h y = record { out = _; is_written = refl; same_id = refl }
  handle_op-Answered e c pong f s h y = absurd (ground (arith, y))
  handle_op-Answered e c puts f s h y = after_bus-Answered (named_ok f) f s _ _ refl
  handle_op-Answered e c takes f s h y = absurd (ground (arith, y))
  handle_op-Answered e c readies f s h y = absurd (ground (arith, y))
  handle_op-Answered e c reserves f s h y = absurd (ground (arith, y))
  handle_op-Answered e c acks f s h y = after_release-Answered f s _ _
  handle_op-Answered e c nacks f s h y = after_release-Answered f s _ _
  handle_op-Answered e c asks f s h y = absurd (ground (arith, y))
  handle_op-Answered e c answers f s h y = record { out = _; is_written = refl; same_id = refl }
  handle_op-Answered e c pubs f s h y = after_bus-Answered (named_ok f) f s _ _ refl
  handle_op-Answered e c subs f s h y = after_sub-Answered f s _ _ _
  handle_op-Answered e c unsubs f s h y = record { out = _; is_written = refl; same_id = refl }
  handle_op-Answered e c other f s h y = record { out = _; is_written = refl; same_id = refl }

  -- Each frame but `pong`, `take`, `ready`, `reserve` and `req`, of whatever name, is answered at
  -- once, be it with an error, and the answer carries the id of the frame, so that the client can
  -- tell what it answers.
  pub handle-Answered :
      (e : Env) (confirmed : Bool) (f : Frame) (s : Session) (h : Hub)
      → is_deferred f.op ≡ false
      → Answered text f (handle e confirmed f s h)
  unfolding handle
  handle-Answered e c f s h y = handle_op-Answered e c (op_of f.op) f s h (at_once f.op y)
