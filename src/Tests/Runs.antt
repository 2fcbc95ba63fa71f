-- ===== src/Tests/Runs.antt =====
-- Runs of the theorems on a hub with its sessions.
use zmqcat.Base.{ℕ, ◌≡◌, ◌≤◌, refl, true, false, none, ◌⊎◌, some, [], ◌∷◌, codes, arith, text_eq}
use zmqcat.Wire.{Frame, no_frame}
use zmqcat.Wire.Op.{req_op, rep_op}
use zmqcat.Base.Dict.{lookup, insert}
use zmqcat.Mailbox.Index.{indexed}
use zmqcat.Mailbox.Boxes.{with_box}
use zmqcat.Mailbox.Persist.{persist_error}
use zmqcat.Hub.{Session}
use zmqcat.Hub.Dispatch.{handle, written_for}
use zmqcat.Hub.Ids.{scoped_id}
use zmqcat.Hub.Requests.{rep}
use zmqcat.Hub.Serving.{Server, new_hub, find_session, connect, leave, turn}
use zmqcat.Hub.Running.{Steps, here, next, connects, turns, IsSound}
use zmqcat.Hub.Sound.{started}
use zmqcat.Hub.Leaving.{NoneOf, Steps-IsSound}
use zmqcat.Hub.Routed.{Steps-rep}
use zmqcat.Tests.{env, no_bus, no_bus-IsIndexed}

abbrev session : ℕ → Session
session n = record {
  sid = n;
  name = codes "peer";
  closed = false;
  unsub = [];
  inflight = [];
  rep_ack = [];
  last_seen = 7;
}

abbrev ask : Frame
ask = record no_frame { op = req_op; id = codes "1"; name = codes "jobs" }

-- Two sessions; the first asks.
abbrev two : Server
two = connect 7 (codes "peer") (connect 7 (codes "peer") (started no_bus))

abbrev asked : Server
asked = turn (λ id. env) env true true (λ x. []) ask (session 1) two

found : find_session 1 two.sessions ≡ some (session 1)
unfolding find_session connect
found = refl

run : Steps (started no_bus) asked
unfolding connect
run =
    next
      (next (next here (connects 7 (codes "peer") (omega arith)))
        (connects 7 (codes "peer") (omega arith)))
      (turns (λ id. env) env true true (λ x. []) ask (session 1) found)

Steps-IsSound_example :
    IsSound asked
    × (find_session 1 (leave (λ id. env) (session 1) asked).sessions ≡ none)
    × ((false ≡ true) ⊎ NoneOf 1 (leave (λ id. env) (session 1) asked).hub.pending)
Steps-IsSound_example = Steps-IsSound no_bus (λ id. env) (session 1) no_bus-IsIndexed run

abbrev answer : Frame
answer = record no_frame { op = rep_op; id = codes "s1:1"; body = 8 ∷ [] }

abbrev routed_frame : Frame
routed_frame = record no_frame { op = rep_op; id = codes "1"; from = codes "peer"; body = 8 ∷ [] }

routed : (rep env true (session 2) answer asked.hub).2 ≡ some (1, routed_frame)
unfolding rep turn connect lookup handle text_eq new_hub indexed with_box insert persist_error
    written_for
routed = refl

Steps-rep_example : (codes "s1:1" ≡ scoped_id 1 (codes "1")) × (1 ≤ asked.sids)
Steps-rep_example =
    Steps-rep no_bus env true (session 2) answer 1 routed_frame no_bus-IsIndexed run routed
