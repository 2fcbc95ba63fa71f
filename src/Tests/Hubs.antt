-- ===== src/Tests/Hubs.antt =====
-- Runs of the theorems on hubs and sessions.
use zmqcat.Base.{
  ℕ, ◌*◌, ◌≤◌, ◌≡◌, refl, true, false, not, leb, ◌||◌, ◌&&◌, if◌then◌else◌, none, some, List, [],
  ◌∷◌, codes, arith, text_eq,
}
use zmqcat.Base.Dict.{lookup, insert}
use zmqcat.Base.Int.{pos}
use zmqcat.Wire.{Frame, no_frame}
use zmqcat.Mailbox.Defs.{Bus, Delivery}
use zmqcat.Mailbox.Index.{indexed}
use zmqcat.Mailbox.Boxes.{with_box}
use zmqcat.Mailbox.Persist.{persist_error}
use zmqcat.Wire.Op.{put_op}
use zmqcat.Hub.Dispatch.{handle, op_of}
use zmqcat.Hub.Answering.{handle-Answered, Answered, is_synchronous}
use zmqcat.Mailbox.Expiring.{mem_text}
use zmqcat.Hub.{Session, Hub}
use zmqcat.Hub.Ids.{scoped_id, take_lease, death, or_default}
use zmqcat.Hub.Leases.{close_session}
use zmqcat.Hub.Requests.{req, rep}
use zmqcat.Hub.Jobs.{job_held}
use zmqcat.Hub.Scoping.{take_lease-covers}
use zmqcat.Hub.Serving.{tick}
use zmqcat.Hub.Watching.{tick_lem}
use zmqcat.Hub.Routing.{Asked, req_all, rep-req}
use zmqcat.Hub.Giving.{close_session-inflight}
use zmqcat.Hub.Delivering.{job_held-inflight, job_held-abandons}
use zmqcat.Tests.{env, no_bus, job}

abbrev lease : Delivery
lease = record { id = codes "d1"; msg = job; expires = 90 }

abbrev leasing : Bus
leasing = record no_bus { inflight = (codes "d1", lease) ∷ [] }

abbrev hub : Hub
hub = record {
  bus = leasing;
  heartbeat = pos 0;
  liveness = pos 0;
  pending_ttl = pos 0;
  pending = [];
}

abbrev session : ℕ → Session
session n = record {
  sid = n;
  name = codes "worker";
  closed = false;
  unsub = [];
  inflight = codes "d1" ∷ [];
  rep_ack = [];
  last_seen = 7;
}

abbrev ask : Frame
ask = record no_frame { id = codes "1"; name = codes "jobs" }

abbrev quiet_hub : Hub
quiet_hub = record hub { bus = no_bus }

take_lease-covers_example : (d : ℕ) × (death hub ≡ pos d) × (2 * d ≤ take_lease hub)
unfolding or_default
take_lease-covers_example = take_lease-covers hub (omega arith)

close_session-inflight_example :
    lookup (codes "d1") (close_session (λ id. env) (session 1) hub).1.bus.inflight ≡ (
      if mem_text (codes "d1") (session 1).inflight
      then none
      else lookup (codes "d1") hub.bus.inflight)
close_session-inflight_example =
    close_session-inflight (λ id. env) (session 1) hub (codes "d1") refl

job_held-inflight_example :
    lookup
      (codes "d1")
      (job_held (λ id. env) env true false ask lease (session 1) hub).1.bus.inflight
    ≡ (if (session 1).closed || (false && true) then lookup (codes "d1") hub.bus.inflight else none)
job_held-inflight_example = job_held-inflight (λ id. env) env true false ask lease (session 1) hub

abbrev gone : Session
gone = record (session 1) { closed = true; inflight = [] }

job_held-abandons_example :
    let r : Session × Hub = job_held (λ id. env) env true false ask lease gone hub in
    (close_session (λ id. env) r.0 r.1).1 ≡ hub
job_held-abandons_example =
    job_held-abandons (λ id. env) (λ id. env) env true false ask lease gone hub refl

asked : (req env (session 1) ask quiet_hub).1 ≡ none
unfolding req indexed lookup with_box insert text_eq persist_error
asked = refl

-- Session 2 asks under the same id.
abbrev others : List Asked
others = record { env = env; by = session 2; frame = ask } ∷ []

abbrev answer : Frame
answer = record no_frame { id = scoped_id 1 (codes "1"); body = 8 ∷ [] }

rep-req_example :
    (out : Frame) × ((rep env true
        (session 3)
        answer
        (req_all others (req env (session 1) ask quiet_hub).0)).2
      ≡ some (1, out))
    × (out.id ≡ codes "1")
    × (out.body ≡ 8 ∷ [])
rep-req_example =
    rep-req env (session 1) ask quiet_hub others env (session 3) answer refl asked
      ((λ e. omega arith), omega arith, tt) refl

abbrev put_frame : Frame
put_frame = record no_frame { op = put_op; id = codes "9"; name = codes "jobs"; body = 1 ∷ [] }

handle-Answered_example :
    Answered (λ x. codes "error") put_frame (handle env true put_frame (session 1) quiet_hub)
unfolding is_synchronous op_of text_eq
handle-Answered_example =
    handle-Answered (λ x. codes "error") env true put_frame (session 1) quiet_hub refl

abbrev beating : Hub
beating = record hub { heartbeat = pos 5 }

tick_lem_example : tick (λ id. env) false 50 (session 1) beating ≡ (
    if leb (5 * 3) 43 || leb 5 43 && not false
    then close_session (λ id. env) (session 1) beating
    else (session 1, beating))
tick_lem_example =
    tick_lem (λ id. env) false 50 4 43 (session 1) beating refl refl (omega arith) (omega arith)
      refl
