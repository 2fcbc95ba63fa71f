-- ===== src/Mailbox/Office/Refining.antt =====
-- internal/mailbox/mailbox.go: a bus on which nobody waits implements an office.
use zmqcat.Base.{◌≡◌, sym, ◌∙◌, false, none, List, [], ◌∷◌, Text, is_empty}
use zmqcat.Base.Dict.{lookup}
use zmqcat.Mailbox.Defs.{works, Bus, Env, waiting}
use zmqcat.Mailbox.Queues.{put, try_take}
use zmqcat.Mailbox.Leases.{hold, ack, nack}
use zmqcat.Mailbox.Moves
use zmqcat.Mailbox.Dedup.{IsIndexed}
use zmqcat.Mailbox.Dedup.Keeps.{Section-IsIndexed}
use zmqcat.Mailbox.Office.{
  Call, puts, takes, holds, acks, nacks, Answer, done, gave, lent, Runs, ends, goes_on,
}
use zmqcat.Mailbox.Office.Viewing.{office_of, Leads-view}
use zmqcat.Mailbox.Office.Depositing.{Served, served, put-Served}
use zmqcat.Mailbox.Office.Lending.{try_take-Served, hold-Served, ack-Served, nack-Served}

-- What a call does to a bus, and its answer.
unfoldable pub serve : Env → Call → Bus → Bus × Answer
serve e (puts name m) b = let (b', x) = put e name m b in (b', done x)
serve e (takes name) b = let (b', r) = try_take e name b in (b', gave r)
serve e (holds m lease) b = let (b', r) = hold e m lease b in (b', lent r)
serve e (acks id) b = let (b', x) = ack e id b in (b', done x)
serve e (nacks id) b = let (b', x) = nack e id b in (b', done x)

unfoldable pub serve_all : List (Env × Call) → Bus → Bus × List Answer
unfolding serve
serve_all [] b = (b, [])
serve_all ((e, c) ∷ calls) b =
    let (b', a) = serve e c b in let (b'', answers) = serve_all calls b' in (b'', a ∷ answers)

-- Each write works, and `newID` gives an id that is not empty and that no lease has.
abbrev pub AreFine : List (Env × Call) → Bus → Type 0
AreFine [] b = Unit
AreFine ((e, c) ∷ calls) b =
    (e.fault ≡ works)
    × (is_empty e.fresh ≡ false)
    × (lookup e.fresh b.inflight ≡ none)
    × AreFine calls (serve e c b).0

-- An open bus with an exact index, on which nobody waits.
pub record IsReady (b : Bus) : Type 0 where
  pub index : IsIndexed b
  pub running : b.closed ≡ false
  pub idle : (n : Text) → waiting n b ≡ []

module _ (e : Env) (b : Bus) (v : IsReady b) (fine : e.fault ≡ works)
    (fresh : is_empty e.fresh ≡ false) (new : lookup e.fresh b.inflight ≡ none) where
  serve-Served : (c : Call) → Served e b c (serve e c b).1 (serve e c b).0
  unfolding serve
  serve-Served (puts name m) = put-Served e name m b v.index v.running v.idle fine fresh
  serve-Served (takes name) = try_take-Served e b v.running v.idle fine name
  serve-Served (holds m lease) = hold-Served e b v.running v.idle fine m lease
  serve-Served (acks id) = ack-Served e b v.running v.idle fine id
  serve-Served (nacks id) = nack-Served e b v.running v.idle fine id

  serve-IsIndexed : (c : Call) → IsIndexed (serve e c b).0
  unfolding serve
  serve-IsIndexed (puts name m) = Section-IsIndexed (Moves.puts e name m) v.index
  serve-IsIndexed (takes name) = Section-IsIndexed (Moves.tries e name) v.index
  serve-IsIndexed (holds m lease) = Section-IsIndexed (Moves.holds e m lease new) v.index
  serve-IsIndexed (acks id) = Section-IsIndexed (Moves.acks e id) v.index
  serve-IsIndexed (nacks id) = Section-IsIndexed (Moves.nacks e id) v.index

-- What is left of a run once its first call has been served.
continue :
    {e : Env} {c : Call} {calls : List (Env × Call)} {b b' : Bus}
    → IsReady b
    → IsIndexed b'
    → (a : Answer) → Served e b c a b'
    → (answers : List Answer) (b'' : Bus)
    → (IsReady b' → Runs b'.max_queue b'.max_body (office_of b') calls answers (office_of b''))
    → Runs b.max_queue b.max_body (office_of b) ((e, c) ∷ calls) (a ∷ answers) (office_of b'')
continue {e} {c} {calls} {b} {b'} v w a (served {o = o} s l) answers b'' later =
    let rest = later (record { index = w; running = l.open_still ∙ v.running; idle = l.idle }) in
    goes_on s (rw (sym (Leads-view l), sym l.room, sym l.size) rest)

-- A bus that is open, whose index is exact and on which nobody waits implements an office that has
-- only queues and leases: whatever calls of `Put`, `TryTake`, `Hold`, `Ack` and `Nack` follow one
-- another, with writes that work and new ids from `newID`, the bus answers each as the office does,
-- and stands for it afterwards. In an office a message joins the end of its queue unless a copy is
-- there or the queue is full, only the first of a queue is given, and the message of a lease that
-- is given back or has run out is the first again.
pub serve_all-Runs :
    (calls : List (Env × Call)) (b : Bus)
    → IsReady b
    → AreFine calls b
    → Runs b.max_queue b.max_body
        (office_of b)
        calls
        (serve_all calls b).1
        (office_of (serve_all calls b).0)
unfolding serve_all
serve_all-Runs [] b v h = ends
serve_all-Runs ((e, c) ∷ calls) b v (fine, fresh, new, rest) =
    let b' = (serve e c b).0 in
    continue v (serve-IsIndexed e b v fine fresh new c) (serve e c b).1
      (serve-Served e b v fine fresh new c) (serve_all calls b').1 (serve_all calls b').0
      (λ w. serve_all-Runs calls b' w rest)
