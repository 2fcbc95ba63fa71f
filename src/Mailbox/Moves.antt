-- ===== src/Mailbox/Moves.antt =====
-- internal/mailbox/mailbox.go: the small changes of the mailboxes of which each critical section
-- is made, and the critical sections themselves.
pub mod Parts
pub mod Topics
pub mod Sections
use zmqcat.Base.{ℕ, ◌≡◌, Option, none, some, List, [], ◌∷◌, ◌++◌, Text, Bool, true, false}
use zmqcat.Base.Dict.{lookup, insert, erase}
use zmqcat.Base.Int.{ℤ}
use zmqcat.Mailbox.Defs.{
  Msg, Delivery, Box, Bus, Env, Result, Fault, no_box, box_of, queue, waiting,
}
use zmqcat.Mailbox.Index.{index_add, index_del}
use zmqcat.Mailbox.Boxes.{hand_over}
use zmqcat.Mailbox.Expiry.{expire_leases}
use zmqcat.Mailbox.Queues.{
  put, try_take, take_chan, receive, remove_chan, undo_pop, pop_first, put_back, cancel_waiter,
  requeue,
}
use zmqcat.Mailbox.Leases.{hold, ack, nack}
use zmqcat.Mailbox.Topics.{pub_msg, sub, unsub}

abbrev pub with_queue : Text → List Msg → Bus → Bus
with_queue name q b = record b { boxes = insert name (record (box_of name b) { q = q }) b.boxes }

abbrev pub with_waiters : Text → List ℕ → Bus → Bus
with_waiters name ws b = record b {
  boxes = insert name (record (box_of name b) { waiters = ws }) b.boxes;
}

-- `late` says whether a message may come back from a taker that gave up.
pub data Move (late : Bool) : Bus → Bus → Type 0 where
  -- Neither boxes nor leases nor the index change.
  quiet :
      {b b' : Bus}
      → b'.boxes ≡ b.boxes
      → b'.inflight ≡ b.inflight
      → b'.dedup ≡ b.dedup
      → Move late b b'
  makes_box :
      {b : Bus} (name : Text)
      → lookup name b.boxes ≡ none
      → Move late b (record b { boxes = insert name no_box b.boxes })
  hands :
      {b : Bus} (m : Msg) (w : ℕ) (ws : List ℕ)
      → waiting m.name b ≡ w ∷ ws
      → Move late b (hand_over m w ws (box_of m.name b) b)
  -- A message joins a queue where nobody waits, or leaves a queue, and the index follows.
  joins :
      {b : Bus} (name : Text) (m : Msg) (xs ys : List Msg)
      → waiting name b ≡ []
      → queue name b ≡ xs ++ ys
      → Move late b (record (with_queue name (xs ++ m ∷ ys) b) { dedup = index_add m b.dedup })
  leaves :
      {b : Bus} (name : Text) (m : Msg) (xs ys : List Msg)
      → queue name b ≡ xs ++ m ∷ ys
      → Move late b (record (with_queue name (xs ++ ys) b) { dedup = index_del m b.dedup })
  -- The oldest message is taken, and put back since the state could not be written.
  pops_in_vain :
      {b : Bus} (f : Fault) (name : Text) (m : Msg) (rest : List Msg)
      → queue name b ≡ m ∷ rest
      → Move late b
          (undo_pop name m (record (with_queue name rest b) { dedup = index_del m b.dedup }))
  -- A message that came as its taker gave up goes to the front, whoever waits.
  returns :
      {b : Bus} (name : Text) (m : Msg)
      → late ≡ true
      → Move late b (record (with_queue name (m ∷ queue name b) b) { dedup = index_add m b.dedup })
  leases :
      {b : Bus} (d : Delivery)
      → lookup d.id b.inflight ≡ none
      → Move late b
          (record b { inflight = insert d.id d b.inflight; dedup = index_add d.msg b.dedup })
  releases :
      {b : Bus} (id : Text) (d : Delivery)
      → lookup id b.inflight ≡ some d
      → Move late b (record b { inflight = erase id b.inflight; dedup = index_del d.msg b.dedup })
  waits :
      {b : Bus} (name : Text) (c : ℕ)
      → queue name b ≡ []
      → Move late b (with_waiters name ((box_of name b).waiters ++ c ∷ []) b)
  gives_up :
      {b : Bus} (name : Text) (c : ℕ)
      → Move late b (with_waiters name (remove_chan c (waiting name b)) b)

-- Any number of moves.
pub data Moves (late : Bool) (b : Bus) : Bus → Type 0 where
  done : Moves late b b
  next : {b' b'' : Bus} → Moves late b b' → Move late b' b'' → Moves late b b''

-- The critical sections but that of `Close`: what one goroutine does while it holds the lock.
-- `newID` gives ids that are not in use.
pub data Section : Bus → Bus → Type 0 where
  puts : {b : Bus} (e : Env) (name : Text) (m : Msg) → Section b (put e name m b).0
  tries : {b : Bus} (e : Env) (name : Text) → Section b (try_take e name b).0
  asks : {b : Bus} (e : Env) (name : Text) → Section b (take_chan e name b).0
  receives : {b b' : Bus} (c : ℕ) (r : Result Msg) → receive c b ≡ some (b', r) → Section b b'
  cancels : {b : Bus} (e : Env) (name : Text) (c : ℕ) → Section b (cancel_waiter e name c b)
  requeues : {b : Bus} (e : Env) (m : Msg) → Section b (requeue e m b).0
  holds :
      {b : Bus} (e : Env) (m : Msg) (lease : ℤ)
      → lookup e.fresh b.inflight ≡ none
      → Section b (hold e m lease b).0
  acks : {b : Bus} (e : Env) (id : Text) → Section b (ack e id b).0
  nacks : {b : Bus} (e : Env) (id : Text) → Section b (nack e id b).0
  sweeps : {b : Bus} (e : Env) → Section b (expire_leases e b)
  publishes : {b : Bus} (e : Env) (topic : Text) (m : Msg) → Section b (pub_msg e topic m b).0
  subscribes : {b : Bus} (e : Env) (prefix : Text) → Section b (sub e prefix b).0
  unsubscribes : {b : Bus} (c : ℕ) → Section b (unsub c b)

unfoldable pub is_cancel : {b b' : Bus} → Section b b' → Bool
is_cancel (cancels e name c) = true
is_cancel _ = false
