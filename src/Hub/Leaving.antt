-- ===== src/Hub/Leaving.antt =====
-- internal/hub/hub.go: what holds in every run of a hub, and what is left of a session that leaves.
use zmqcat.Base.{
  ℕ, ◌≡◌, ◌⊎◌, refl, inl, inr, true, false, none, List, [], ◌∷◌, Text, arith, ◌==◌, if_elim,
  Bool-cases,
}
use zmqcat.Base.Dict.{Dict}
use zmqcat.Mailbox.Defs.{Bus, Env}
use zmqcat.Mailbox.Dedup.{IsIndexed}
use zmqcat.Hub.{Session, PendingReq, Hub}
use zmqcat.Hub.Leases.{clear_pending, close_session}
use zmqcat.Hub.Serving.{Server, find_session, drop_session, leave}
use zmqcat.Hub.Running.{Steps, IsSound}
use zmqcat.Hub.Sound.{started, run-IsSound}

-- No request of the session waits.
abbrev pub NoneOf : ℕ → Dict PendingReq → Type 0
NoneOf sid [] = Unit
NoneOf sid ((k, p) ∷ d) = ((p.s == sid) ≡ false) × NoneOf sid d

clear_pending-NoneOf : (sid : ℕ) (d : Dict PendingReq) → NoneOf sid (clear_pending sid d)
unfolding clear_pending
clear_pending-NoneOf sid [] = tt
clear_pending-NoneOf sid ((k, p) ∷ d) =
    if_elim (NoneOf sid) (p.s == sid) (λ _. clear_pending-NoneOf sid d)
      (λ e. (e, clear_pending-NoneOf sid d))

find-drop_session : (sid : ℕ) (ss : List Session) → find_session sid (drop_session sid ss) ≡ none
unfolding find_session drop_session
find-drop_session sid [] = refl
find-drop_session sid (s ∷ ss) = ground (arith, find-drop_session sid ss)

leave-NoneOf :
    (es : Text → Env) (s : Session) (srv : Server)
    → (s.closed ≡ true) ⊎ NoneOf s.sid (leave es s srv).hub.pending
unfolding leave close_session
leave-NoneOf es s srv = elim (Bool-cases s.closed) [
  | inl e ↦ inl e
  | inr e ↦ inr (
      if_elim (λ (a : Session × Hub). NoneOf s.sid a.1.pending) s.closed
        (λ shut. absurd (ground arith)) (λ _. clear_pending-NoneOf s.sid srv.hub.pending))
]

-- In every run of a hub that starts on a bus with an exact index: the index stays exact; no two
-- sessions have the same number; and each request that waits has the number of a session that the
-- hub has had, and stands under the id that this session gives it. A session that leaves is not
-- found any more, and unless it had been closed before it left, none of its requests waits then.
-- The run is before `Close` and has fewer than 2^64 connections, and no new lease has the id of
-- another.
pub Steps-IsSound :
    (bus : Bus) {srv : Server} (es : Text → Env) (s : Session)
    → IsIndexed bus
    → Steps (started bus) srv
    → IsSound srv
      × (find_session s.sid (leave es s srv).sessions ≡ none)
      × ((s.closed ≡ true) ⊎ NoneOf s.sid (leave es s srv).hub.pending)
unfolding leave
Steps-IsSound bus {srv} es s v r =
    (run-IsSound bus v r, find-drop_session s.sid srv.sessions, leave-NoneOf es s srv)
