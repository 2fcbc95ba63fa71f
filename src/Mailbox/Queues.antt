-- ===== src/Mailbox/Queues.antt =====
-- internal/mailbox/mailbox.go: `Put`, `TryTake`, `Take` with its waiters, and `Requeue`.
use zmqcat.Base.{
  ℕ, true, false, Option, none, some, List, [], ◌∷◌, ◌++◌, Text, length, drop_last, ltb, leb, ◌==◌,
  is_empty, if◌then◌else◌,
}
use zmqcat.Base.Dict.{lookup}
use zmqcat.Mailbox.Defs.{
  Error, err_closed, err_empty, err_too_large, err_bad_name, err_dropped, ctx_done, Result, ok, err,
  Fault, Env, Msg, Chan, Box, Bus, box_of, set_chan,
}
use zmqcat.Mailbox.Index.{index_add, index_del, indexed}
use zmqcat.Mailbox.Persist.{persist, rollback, result_of}
use zmqcat.Mailbox.Boxes.{set_box, ensure_box, make_chan, hand_over, deliver}
use zmqcat.Mailbox.Expiry.{requeue_expired}

-- The message under its name, with an id and a time if it has none.
unfoldable pub stamped : Env → Text → Msg → Msg
stamped e name m = record m {
  name = name;
  id = if is_empty m.id then e.fresh else m.id;
  at_time = if m.at_time == 0 then e.now else m.at_time;
}

unfoldable pub undo_append : Msg → Bus → Bus
unfolding set_box
undo_append m b =
    let bx = box_of m.name b in
    let b' = set_box m.name (record bx { q = drop_last bx.q }) b in
    record b' { dedup = index_del m b'.dedup }

unfoldable pub append : Env → Msg → Box → Bus → Bus × Option Error
unfolding undo_append set_box persist rollback
append e m bx b =
    let b' = set_box m.name (record bx { q = bx.q ++ m ∷ [] }) b in
    let (b'', r) = persist e.fault (record b' { dedup = index_add m b'.dedup }) in
    rollback (undo_append m) b'' r

unfoldable pub put_to : Env → Msg → List ℕ → Box → Bus → Bus × Option Error
unfolding append
put_to e m (w ∷ ws) bx b = (hand_over m w ws bx b, none)
put_to e m [] bx b =
    if leb b.max_queue (length bx.q) then (b, some err_dropped) else append e m bx b

unfoldable pub put_locked : Env → Msg → Bus → Bus × Option Error
unfolding put_to ensure_box
put_locked e m b =
    let b' = ensure_box m.name b in
    let bx = box_of m.name b' in
    if b.closed
    then (b, some err_closed)
    else if indexed m.name m.id b'.dedup
    then (b', none)
    else put_to e m bx.waiters bx b'

unfoldable pub put : Env → Text → Msg → Bus → Bus × Option Error
unfolding put_locked stamped
put e name m b =
    if is_empty name
    then (b, some err_bad_name)
    else if ltb b.max_body (length m.body)
    then (b, some err_too_large)
    else put_locked e (stamped e name m) b

unfoldable pub undo_pop : Text → Msg → Bus → Bus
unfolding set_box
undo_pop name m b =
    let bx = box_of name b in
    let b' = set_box name (record bx { q = m ∷ bx.q }) b in
    record b' { dedup = index_add m b'.dedup }

-- The oldest message leaves the queue, unless the state cannot be written.
unfoldable pub pop_first : Fault → Text → Msg → List Msg → Bus → Bus × Option Error
unfolding undo_pop set_box persist rollback
pop_first f name m rest b =
    let b' = set_box name (record (box_of name b) { q = rest }) b in
    let (b'', r) = persist f (record b' { dedup = index_del m b'.dedup }) in
    rollback (undo_pop name m) b'' r

unfoldable pub try_pop : Env → Text → List Msg → Bus → Bus × Result Msg
unfolding pop_first
try_pop e name [] b = (b, err err_empty)
try_pop e name (m ∷ rest) b = let (b', r) = pop_first e.fault name m rest b in (b', result_of m r)

unfoldable pub try_take : Env → Text → Bus → Bus × Result Msg
unfolding try_pop
try_take e name b =
    let (b', changed) = requeue_expired e b in
    if is_empty name
    then (b, err err_bad_name)
    else if b.closed
    then (b, err err_closed)
    else try_pop e name (box_of name b').q b'

unfoldable pub filled_chan : Msg → Bus → Option Error → Bus × Result ℕ
unfolding make_chan
filled_chan m b none = (make_chan (record { buf = m ∷ []; shut = true }) b, ok b.next_chan)
filled_chan m b (some x) = (b, err x)

-- A channel that holds the message already, or one that waits for it.
unfoldable pub chan_pop : Env → Text → List Msg → Bus → Bus × Result ℕ
unfolding pop_first set_box make_chan filled_chan
chan_pop e name [] b =
    let b' = make_chan (record { buf = []; shut = false }) b in
    let bx = box_of name b' in
    (set_box name (record bx { waiters = bx.waiters ++ b.next_chan ∷ [] }) b', ok b.next_chan)
chan_pop e name (m ∷ rest) b = let (b', r) = pop_first e.fault name m rest b in filled_chan m b' r

unfoldable pub take_chan : Env → Text → Bus → Bus × Result ℕ
unfolding chan_pop ensure_box
take_chan e name b =
    let (b', changed) = requeue_expired e b in
    let b'' = ensure_box name b' in
    if b.closed then (b, err err_closed) else chan_pop e name (box_of name b'').q b''

unfoldable pub receive_from : ℕ → Chan → Bus → Option (Bus × Result Msg)
receive_from c ch b = elim ch.buf [
  | [] ↦ if ch.shut then some (b, err err_closed) else none
  | m ∷ rest ↦ some (record b { chans = set_chan c (record ch { buf = rest }) b.chans }, ok m)
]

-- `<-ch`; `none` while it blocks.
unfoldable pub receive : ℕ → Bus → Option (Bus × Result Msg)
unfolding receive_from
receive c b = receive_from c (b.chans c) b

unfoldable pub remove_chan : ℕ → List ℕ → List ℕ
remove_chan c [] = []
remove_chan c (w ∷ ws) = let rest = remove_chan c ws in if w == c then rest else w ∷ rest

unfoldable pub put_back : Env → Text → Msg → Bus → Bus
unfolding undo_pop persist
put_back e name m b = (persist e.fault (undo_pop name m b)).0

-- The `select` that looks for a message which came as the wait was cancelled.
unfoldable pub late_arrival : Env → Text → Bus → Option (Bus × Result Msg) → Bus
unfolding put_back
late_arrival e name b none = b
late_arrival e name b (some (b', err x)) = b'
late_arrival e name b (some (b', ok m)) = put_back e name m b'

unfoldable pub cancel_waiter : Env → Text → ℕ → Bus → Bus
unfolding late_arrival remove_chan set_box receive
cancel_waiter e name c b = elim (lookup name b.boxes) [
  | none ↦ b
  | some bx ↦
      let b' = set_box name (record bx { waiters = remove_chan c bx.waiters }) b in
      late_arrival e name b' (receive c b')
]

-- Which case of the `select` in `Take` is taken.
pub data Pick : Type 0 where
  arrives cancels : Pick

unfoldable pub await : Env → Pick → Text → ℕ → Bus → Option (Bus × Result Msg)
await e arrives name c b = receive c b
await e cancels name c b = some (cancel_waiter e name c b, err ctx_done)

-- `Take`: between its two critical sections the other goroutines take the bus along `others`.
-- `none` means that it still waits.
unfoldable pub take_msg : Env → (Bus → Bus) → Env → Pick → Text → Bus → Option (Bus × Result Msg)
unfolding await
take_msg e others e' pick name b =
    if is_empty name
    then some (b, err err_bad_name)
    else let (b', r) = take_chan e name b in
      elim r [ err x ↦ some (b', err x) | ok c ↦ await e' pick name c (others b') ]

unfoldable pub requeue : Env → Msg → Bus → Bus × Option Error
unfolding persist
requeue e m b =
    if is_empty m.name
    then (b, some err_bad_name)
    else if b.closed
    then (b, some err_closed)
    else persist e.fault (deliver m b)
