-- ===== src/Mailbox/Taking.antt =====
-- internal/mailbox/mailbox.go: `TryTake` gives the messages of a mailbox in the order of its queue.
use zmqcat.Base.{
  ℕ, ◌≡◌, refl, ap, ap₂, sym, subst, ◌∙◌, false, Option, none, List, [], ◌∷◌, ◌++◌, map, Text,
  arith, length, is_empty,
}
use zmqcat.Base.Dict.{lookup, insert, lookup-insert, lookup-insert_self}
use zmqcat.Mailbox.Defs.{
  Error, err_empty, Fault, works, Msg, Box, Bus, Env, Result, ok, err, box_of, queue,
}
use zmqcat.Mailbox.Index.{index_del}
use zmqcat.Mailbox.Persist.{persist, persist_error, rollback, result_of}
use zmqcat.Mailbox.Expiry.{expire_one, expire_each, requeue_expired}
use zmqcat.Mailbox.Queues.{undo_pop, pop_first, try_pop, try_take}
use zmqcat.Mailbox.Placing.{OthersKeep}

abbrev pub left : Text → Msg → List Msg → Bus → Bus
left name m rest b = record b {
  boxes = insert name (record (box_of name b) { q = rest }) b.boxes;
  dedup = index_del m b.dedup;
}

pub no_error : (f : Fault) (b : Bus) → f ≡ works → persist_error f b ≡ none
unfolding persist_error
no_error f b fine = rw fine (ground arith)

pub pop_first-works :
    (f : Fault) (name : Text) (m : Msg) (rest : List Msg) (b : Bus)
    → f ≡ works
    → pop_first f name m rest b ≡ ((persist f (left name m rest b)).0, none)
unfolding pop_first
pop_first-works f name m rest b fine =
    ap (rollback (undo_pop name m) (persist f (left name m rest b)).0)
      (no_error f (left name m rest b) fine)

-- What a successful take leaves.
pub record Took (name : Text) (m : Msg) (rest : List Msg) (b : Bus) (r : Bus × Result Msg)
    : Type 0 where
  pub given : r.1 ≡ ok m
  pub behind : queue name r.0 ≡ rest
  pub others : OthersKeep name b r.0
  pub leases : r.0.inflight ≡ b.inflight
  pub open_still : r.0.closed ≡ b.closed

try_pop-Took :
    (e : Env) (name : Text) (m : Msg) (rest : List Msg) (b : Bus)
    → e.fault ≡ works
    → Took name m rest b (try_pop e name (m ∷ rest) b)
unfolding try_pop persist
try_pop-Took e name m rest b fine =
    subst (λ (r : Bus × Option Error). Took name m rest b (r.0, result_of m r.1))
      (sym (pop_first-works e.fault name m rest b fine))
      (record {
        given = refl;
        behind = ground (arith, lookup-insert_self name shorter b.boxes);
        others = λ n other. ground (arith, lookup-insert name n shorter b.boxes);
        leases = refl;
        open_still = refl;
      })
  where
    shorter : Box
    shorter = record (box_of name b) { q = rest }

-- On an open bus whose writes work, `TryTake` gives the oldest message of a mailbox that has one
-- once the leases that ran out are back, and takes it out of the queue. Other mailboxes and leases
-- stay as that return left them.
pub try_take-oldest :
    (e : Env) (name : Text) (m : Msg) (rest : List Msg) (b : Bus)
    → is_empty name ≡ false
    → b.closed ≡ false
    → e.fault ≡ works
    → queue name (requeue_expired e b).0 ≡ m ∷ rest
    → Took name m rest (requeue_expired e b).0 (try_take e name b)
unfolding try_take
try_take-oldest e name m rest b named running fine h =
    let swept = (requeue_expired e b).0 in
    let popped = try_pop-Took e name m rest swept fine in
    let same : try_take e name b ≡ try_pop e name (m ∷ rest) swept = ground (arith, h) in
    subst (Took name m rest swept) (sym same) popped

expire_one-idle :
    (now : ℕ) (id : Text) (b : Bus) → b.inflight ≡ [] → expire_one now id b ≡ (b, false)
unfolding expire_one lookup
expire_one-idle now id b h =
    let absent : lookup id b.inflight ≡ none = rw h in ground (arith, absent)

expire_each-idle :
    (now : ℕ) (ids : List Text) (b : Bus) → b.inflight ≡ [] → expire_each now ids b ≡ (b, false)
unfolding expire_each
expire_each-idle now [] b h = refl
expire_each-idle now (id ∷ ids) b h = rw (expire_one-idle now id b h, expire_each-idle now ids b h)

requeue_expired-idle : (e : Env) (b : Bus) → b.inflight ≡ [] → (requeue_expired e b).0 ≡ b
unfolding requeue_expired
requeue_expired-idle e b h = ap (λ r. r.0) (expire_each-idle e.now _ b h)

-- `TryTake`, once for each environment, and the messages that it gives.
unfoldable pub take_all : List Env → Text → Bus → List (Result Msg)
take_all [] name b = []
take_all (e ∷ es) name b = let (b', r) = try_take e name b in r ∷ take_all es name b'

abbrev pub AllWork : List Env → Type 0
AllWork [] = Unit
AllWork (e ∷ es) = (e.fault ≡ works) × AllWork es

try_take-empty :
    (e : Env) (name : Text) (b : Bus)
    → is_empty name ≡ false
    → b.closed ≡ false
    → b.inflight ≡ []
    → queue name b ≡ []
    → (try_take e name b).1 ≡ err err_empty
unfolding try_take try_pop
try_take-empty e name b named running idle h =
    let swept = requeue_expired-idle e b idle in
    let h' : queue name (requeue_expired e b).0 ≡ [] = ap (queue name) swept ∙ h in
    ground (arith, h')

-- On an open bus without leases whose writes work, successive calls of `TryTake` empty a mailbox
-- in the order of its queue, and the next one reports that it is empty.
pub take_all-queue :
    (es : List Env) (last : Env) (name : Text) (q : List Msg) (b : Bus)
    → length es ≡ length q
    → AllWork es
    → is_empty name ≡ false
    → b.closed ≡ false
    → b.inflight ≡ []
    → queue name b ≡ q
    → take_all (es ++ last ∷ []) name b ≡ map ok q ++ err err_empty ∷ []
unfolding take_all
take_all-queue [] last name [] b same work named running idle h =
    ap (λ r. r ∷ []) (try_take-empty last name b named running idle h)
take_all-queue [] last name (m ∷ q) b same work named running idle h = absurd (omega arith)
take_all-queue (e ∷ es) last name [] b same work named running idle h = absurd (omega arith)
take_all-queue (e ∷ es) last name (m ∷ q) b same work named running idle h =
    let swept = requeue_expired-idle e b idle in
    let took : Took name m q b (try_take e name b) =
      subst (λ s. Took name m q s (try_take e name b)) swept
        (try_take-oldest e name m q b named running work.0 (ap (queue name) swept ∙ h)) in
    ap₂ ◌∷◌ took.given (
      take_all-queue es last name q (try_take e name b).0 (omega arith) work.1 named
        (took.open_still ∙ running) (took.leases ∙ idle) took.behind)
