-- ===== src/Hub/Sound.antt =====
-- internal/hub/hub.go: what holds in every run of a hub: the index is exact, and the sessions have numbers
-- of their own.
use zmqcat.Base.{
  ℕ, ◌+◌, ◌%◌, ◌^◌, ◌≡◌, ◌<◌, ◌≤◌, refl, sym, subst, Bool, false, not, ◌&&◌, Option, none, some,
  List, [], ◌∷◌, ◌++◌, Text, arith,
}
use zmqcat.Wire.{Frame}
use zmqcat.Mailbox.Defs.{Bus, Env}
use zmqcat.Mailbox.Dedup.{IsIndexed}
use zmqcat.Mailbox.Dedup.Keeps.{Section-IsIndexed}
use zmqcat.Mailbox.Moves
use zmqcat.Mailbox.Moves.{Section}
use zmqcat.Hub.{Session, Hub}
use zmqcat.Hub.Jobs.{reply, take_job, reserve_job}
use zmqcat.Hub.Handling.{handle-IsIndexed}
use zmqcat.Hub.Scoped.{handle-AreOwned}
use zmqcat.Hub.Numbers.{handle-sid}
use zmqcat.Hub.Dispatch.{Op, subs, Failure, handle, written_for, op_of}
use zmqcat.Hub.Serving.{
  Server, new_hub, find_session, put_session, connect, leave, turn, touch, answer, route,
  cancel_last, cancel_sub, tick,
}
use zmqcat.Hub.Keeping.{
  IsFine, Keeps, close_session-Keeps, reply-Keeps, take_job-Keeps, reserve_job-Keeps, tick-Keeps,
  answer-Keeps,
}
use zmqcat.Hub.Running.{
  stored, Step, connects, leaves, turns, takes, reserves, ticks, pumps, sections, Steps, here, next,
  AreNumbered, IsSound, put-AreNumbered, drop-AreNumbered, snoc-AreNumbered, grow-AreOwned,
  find-sid,
}

cancel_last-IsIndexed : (cs : List ℕ) (b : Bus) → IsIndexed b → IsIndexed (cancel_last cs b)
unfolding cancel_last
cancel_last-IsIndexed [] b v = v
cancel_last-IsIndexed (c ∷ []) b v = Section-IsIndexed (Moves.unsubscribes {b = b} c) v
cancel_last-IsIndexed (c ∷ d ∷ cs) b v = cancel_last-IsIndexed (d ∷ cs) b v

cancel_sub-IsIndexed :
    (op : Op) (sent : Bool) (x : Option Failure) (cs : List ℕ) (b : Bus)
    → IsIndexed b
    → IsIndexed (cancel_sub op sent x cs b)
unfolding cancel_sub
cancel_sub-IsIndexed subs false none cs b v = cancel_last-IsIndexed cs b v
cancel_sub-IsIndexed op sent x cs b v = v

stored-IsSound :
    (srv : Server) (sid : ℕ) (a : Session × Hub)
    → IsSound srv
    → Keeps srv.sids sid a
    → IsSound (stored a srv)
stored-IsSound srv sid (s, h) v (x, k) = record {
  fine = k;
  numbered = put-AreNumbered srv.sids s srv.sessions v.numbered;
}

route-IsSound :
    (es : Text → Env) (works : Bool) (o : Option (ℕ × Frame)) (srv : Server)
    → IsSound srv
    → IsSound (route es works o srv)
unfolding route
route-IsSound es works none srv v = v
route-IsSound es works (some (sid, out)) srv v = go (find_session sid srv.sessions)
  where
    go :
        (o : Option Session)
        → IsSound (elim o [
          | none ↦ srv
          | some dest ↦ record srv {
            hub = (reply es works dest srv.hub).1;
            sessions = put_session (reply es works dest srv.hub).0 srv.sessions;
          }
        ])
    go none = v
    go (some dest) =
        let a = reply es works dest srv.hub in
        stored-IsSound srv dest.sid (a.0, a.1) v
          (reply-Keeps srv.sids dest.sid es works dest srv.hub (refl, v.fine))

handle-Keeps :
    (n : ℕ) (e : Env) (works : Bool) (f : Frame) (s : Session) (h : Hub)
    → s.sid ≤ n
    → IsFine n h
    → Keeps n s.sid ((handle e works f s h).session, (handle e works f s h).hub)
handle-Keeps n e works f s h k v = (
  handle-sid e works f s h,
  record {
    indexed = handle-IsIndexed e works f s h v.indexed;
    owned = handle-AreOwned n e works f s h k v.owned;
  },
)

turn-IsSound :
    (es : Text → Env) (e : Env) (works works' : Bool) (text : Failure → Text) (f : Frame)
    (s : Session) (srv : Server)
    → find_session s.sid srv.sessions ≡ some s
    → IsSound srv
    → IsSound (turn es e works works' text f s srv)
unfolding turn touch
turn-IsSound es e works works' text f s srv found v =
    let r = handle e (works && not s.closed) f (touch e.now s) srv.hub in
    let out = written_for text f r in
    let a = answer es works out r.session r.hub in
    let (x, k) = answer-Keeps srv.sids s.sid es works out r.session r.hub (
      handle-Keeps srv.sids e (works && not s.closed) f (touch e.now s) srv.hub
        (find-sid s.sid srv.sids s srv.sessions v.numbered found) v.fine) in
    let bus' = cancel_sub (op_of f.op) a.2 r.failure r.session.unsub a.1.bus in
    route-IsSound es works' r.routed _ (
      stored-IsSound srv s.sid (a.0, record a.1 { bus = bus' }) v
        (
          x,
          record {
            indexed =
                cancel_sub-IsIndexed (op_of f.op) a.2 r.failure r.session.unsub a.1.bus k.indexed;
            owned = k.owned;
          },
        ))

connect-IsSound :
    (now : ℕ) (remote : Text) (srv : Server)
    → srv.sids + 1 < 2 ^ 64
    → IsSound srv
    → IsSound (connect now remote srv)
unfolding connect
connect-IsSound now remote srv h v =
    let n = srv.sids in
    let same : (n + 1) % 2 ^ 64 ≡ n + 1 = omega arith in
    let s : Session = record {
      sid = (n + 1) % 2 ^ 64;
      name = remote;
      closed = false;
      unsub = [];
      inflight = [];
      rep_ack = [];
      last_seen = now;
    } in
    record {
      fine = record {
        indexed = v.fine.indexed;
        owned =
            grow-AreOwned n ((n + 1) % 2 ^ 64) srv.hub.pending (omega (arith, same)) v.fine.owned;
      };
      numbered =
          subst (λ m. AreNumbered m (srv.sessions ++ s ∷ [])) (sym same)
            (snoc-AreNumbered n s srv.sessions same v.numbered);
    }

leave-IsSound :
    (es : Text → Env) (s : Session) (srv : Server) → IsSound srv → IsSound (leave es s srv)
unfolding leave
leave-IsSound es s srv v =
    let (x, k) = close_session-Keeps srv.sids s.sid es s srv.hub (refl, v.fine) in
    record { fine = k; numbered = drop-AreNumbered srv.sids s.sid srv.sessions v.numbered }

Step-IsSound : {srv srv' : Server} → Step srv srv' → IsSound srv → IsSound srv'
Step-IsSound {srv} (connects now remote h) v = connect-IsSound now remote srv h v
Step-IsSound {srv} (leaves es s) v = leave-IsSound es s srv v
Step-IsSound {srv} (turns es e works works' text f s found) v =
    turn-IsSound es e works works' text f s srv found v
Step-IsSound {srv} (takes es e e' keep works f m s found new) v =
    stored-IsSound srv s.sid (take_job es e e' keep works f m s srv.hub) v
      (take_job-Keeps srv.sids s.sid es e e' keep works f m s srv.hub new (refl, v.fine))
Step-IsSound {srv} (reserves es e works d s found) v =
    stored-IsSound srv s.sid (reserve_job es e works d s srv.hub) v
      (reserve_job-Keeps srv.sids s.sid es e works d s srv.hub (refl, v.fine))
Step-IsSound {srv} (ticks es works now s found) v =
    stored-IsSound srv s.sid (tick es works now s srv.hub) v
      (tick-Keeps srv.sids s.sid es works now s srv.hub (refl, v.fine))
Step-IsSound {srv} (pumps es works s found) v =
    stored-IsSound srv s.sid ((reply es works s srv.hub).0, (reply es works s srv.hub).1) v
      (reply-Keeps srv.sids s.sid es works s srv.hub (refl, v.fine))
Step-IsSound (sections x) v = record {
  fine = record { indexed = Section-IsIndexed x v.fine.indexed; owned = v.fine.owned };
  numbered = v.numbered;
}

Steps-from : {srv srv' : Server} → IsSound srv → Steps srv srv' → IsSound srv'
Steps-from v here = v
Steps-from v (next r s) = Step-IsSound s (Steps-from v r)

-- A hub before its first connection.
abbrev pub started : Bus → Server
started bus = record { hub = new_hub bus; sids = 0; sessions = [] }

pub run-IsSound : (bus : Bus) {srv : Server} → IsIndexed bus → Steps (started bus) srv → IsSound srv
unfolding new_hub
run-IsSound bus v r =
    Steps-from (record { fine = record { indexed = v; owned = tt }; numbered = tt }) r
