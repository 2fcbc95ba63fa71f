-- ===== src/Hub/Running.antt =====
-- internal/hub/hub.go: the runs of a hub and its sessions, as sequences of steps of one session or of
-- the bus, and what holds all along.
use zmqcat.Base.{
  ℕ, ◌+◌, ◌^◌, ◌≡◌, ◌<◌, ◌≤◌, refl, Bool, none, some, List, [], ◌∷◌, ◌++◌, Text, arith, ◌==◌,
  if_elim,
}
use zmqcat.Base.Dict.{Dict, lookup}
use zmqcat.Wire.{Frame}
use zmqcat.Mailbox.Defs.{Bus, Env, Msg, Delivery}
use zmqcat.Mailbox.Moves.{Section}
use zmqcat.Hub.{Session, PendingReq, Hub}
use zmqcat.Hub.Jobs.{reply, take_job, reserve_job}
use zmqcat.Hub.Scoped.{AreOwned}
use zmqcat.Hub.Dispatch.{Failure}
use zmqcat.Hub.Serving.{Server, find_session, put_session, drop_session, connect, leave, turn, tick}
use zmqcat.Hub.Keeping.{IsFine}

-- What a session has done to itself and to the hub.
abbrev pub stored : Session × Hub → Server → Server
stored (s, h) srv = record srv { hub = h; sessions = put_session s srv.sessions }

-- One step: a connection comes or goes; a session handles a frame, writes a job that it took or
-- reserved, or looks at the time; or the bus goes through a critical section, of any goroutine. A
-- job that was taken is leased under an id that no lease has, and there are fewer than 2^64
-- connections.
pub data Step (srv : Server) : Server → Type 0 where
  connects : (now : ℕ) (remote : Text) → srv.sids + 1 < 2 ^ 64 → Step srv (connect now remote srv)
  leaves : (es : Text → Env) (s : Session) → Step srv (leave es s srv)
  turns :
      (es : Text → Env) (e : Env) (works works' : Bool) (text : Failure → Text) (f : Frame)
      (s : Session)
      → find_session s.sid srv.sessions ≡ some s
      → Step srv (turn es e works works' text f s srv)
  takes :
      (es : Text → Env) (e e' : Env) (keep works : Bool) (f : Frame) (m : Msg) (s : Session)
      → find_session s.sid srv.sessions ≡ some s
      → lookup e.fresh srv.hub.bus.inflight ≡ none
      → Step srv (stored (take_job es e e' keep works f m s srv.hub) srv)
  reserves :
      (es : Text → Env) (e : Env) (works : Bool) (d : Delivery) (s : Session)
      → find_session s.sid srv.sessions ≡ some s
      → Step srv (stored (reserve_job es e works d s srv.hub) srv)
  ticks :
      (es : Text → Env) (works : Bool) (now : ℕ) (s : Session)
      → find_session s.sid srv.sessions ≡ some s
      → Step srv (stored (tick es works now s srv.hub) srv)
  -- `pumpSub` writes a message.
  pumps :
      (es : Text → Env) (works : Bool) (s : Session)
      → find_session s.sid srv.sessions ≡ some s
      → Step srv (stored ((reply es works s srv.hub).0, (reply es works s srv.hub).1) srv)
  sections :
      {b : Bus} → Section srv.hub.bus b → Step srv (record srv { hub = record srv.hub { bus = b } })

pub data Steps (srv : Server) : Server → Type 0 where
  here : Steps srv srv
  next : {srv' srv'' : Server} → Steps srv srv' → Step srv' srv'' → Steps srv srv''

-- The sessions have numbers of their own, up to the hub's.
abbrev pub AreNumbered : ℕ → List Session → Type 0
AreNumbered n [] = Unit
AreNumbered n (s ∷ ss) = (s.sid ≤ n) × (find_session s.sid ss ≡ none) × AreNumbered n ss

pub record IsSound (srv : Server) : Type 0 where
  pub fine : IsFine srv.sids srv.hub
  pub numbered : AreNumbered srv.sids srv.sessions

find-put-none :
    (k : ℕ) (s : Session) (ss : List Session)
    → find_session k ss ≡ none
    → find_session k (put_session s ss) ≡ none
unfolding find_session put_session
find-put-none k s [] h = refl
find-put-none k s (t ∷ ss) h = ground (arith, find-put-none k s ss)

find-drop-none :
    (k sid : ℕ) (ss : List Session)
    → find_session k ss ≡ none
    → find_session k (drop_session sid ss) ≡ none
unfolding find_session drop_session
find-drop-none k sid [] h = refl
find-drop-none k sid (t ∷ ss) h = ground (arith, find-drop-none k sid ss)

pub put-AreNumbered :
    (n : ℕ) (s : Session) (ss : List Session) → AreNumbered n ss → AreNumbered n (put_session s ss)
unfolding put_session
put-AreNumbered n s [] v = tt
put-AreNumbered n s (t ∷ ss) v =
    ground (arith, put-AreNumbered n s ss v.2, find-put-none t.sid s ss v.1)

pub drop-AreNumbered :
    (n sid : ℕ) (ss : List Session) → AreNumbered n ss → AreNumbered n (drop_session sid ss)
unfolding drop_session
drop-AreNumbered n sid [] v = tt
drop-AreNumbered n sid (t ∷ ss) v =
    if_elim (AreNumbered n) (t.sid == sid) (λ _. drop-AreNumbered n sid ss v.2)
      (λ _. (v.0, find-drop-none t.sid sid ss v.1, drop-AreNumbered n sid ss v.2))

-- A new session has a number above the others'.
find-snoc :
    (k : ℕ) (s : Session) (ss : List Session)
    → find_session k ss ≡ none
    → k < s.sid
    → find_session k (ss ++ s ∷ []) ≡ none
unfolding find_session
find-snoc k s [] h lt = ground arith
find-snoc k s (t ∷ ss) h lt = ground (arith, find-snoc k s ss)

pub snoc-AreNumbered :
    (n : ℕ) (s : Session) (ss : List Session)
    → s.sid ≡ n + 1
    → AreNumbered n ss
    → AreNumbered (n + 1) (ss ++ s ∷ [])
unfolding find_session
snoc-AreNumbered n s [] e v = (omega arith, refl, tt)
snoc-AreNumbered n s (t ∷ ss) e v = (
  omega (arith, v.0),
  find-snoc t.sid s ss v.1 (omega (arith, v.0)),
  snoc-AreNumbered n s ss e v.2,
)

pub grow-AreOwned : (n m : ℕ) (d : Dict PendingReq) → n ≤ m → AreOwned n d → AreOwned m d
grow-AreOwned n m [] h v = tt
grow-AreOwned n m ((k, p) ∷ d) h v =
    (record { known = omega (arith, v.0.known); scoped = v.0.scoped }, grow-AreOwned n m d h v.1)

pub find-sid :
    (k n : ℕ) (s : Session) (ss : List Session)
    → AreNumbered n ss
    → find_session k ss ≡ some s
    → s.sid ≤ n
unfolding find_session
find-sid k n s [] v h = cc
find-sid k n s (t ∷ ss) v h = ground (arith, find-sid k n s ss v.2, v.0)
