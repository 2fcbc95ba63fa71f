-- ===== src/Mailbox/Office.antt =====
-- internal/mailbox/mailbox.go: what a bus promises to those who put, take and lease: an office with
-- queues and leases, without boxes, waiters, index, channels and disk.
pub mod Viewing
pub mod Copies
pub mod Depositing
pub mod Lending
pub mod Refining
use zmqcat.Base.{
  ℕ, ◌+◌, ◌≡◌, ◌<◌, ◌≤◌, true, false, Option, none, some, List, [], ◌∷◌, ◌++◌, Text, count, length,
  is_empty, text_eq, if◌then◌else◌,
}
use zmqcat.Base.Int.{ℤ}
use zmqcat.Mailbox.Defs.{
  Error, err_empty, err_bad_name, err_too_large, err_dropped, err_not_found, Result, ok, err, Msg,
  Delivery, Env,
}
use zmqcat.Mailbox.Index.{dedup_key}
use zmqcat.Mailbox.Queues.{stamped}
use zmqcat.Mailbox.Leases.{lease_or_minute}
use zmqcat.Mailbox.Expiring.{unexpired}
use zmqcat.Mailbox.Dedup.{has_key}

pub record Office : Type 0 where
  pub queued : Text → List Msg
  pub leased : Text → Option Delivery

abbrev pub with_queued : Text → List Msg → Office → Office
with_queued name q o = record o { queued = λ n. if text_eq name n then q else o.queued n }

abbrev pub with_leased : Text → Option Delivery → Office → Office
with_leased id d o = record o { leased = λ k. if text_eq id k then d else o.leased k }

-- A lease ends, and its message is the next of its mailbox.
abbrev pub back : Text → Delivery → Office → Office
back id d o = with_queued d.msg.name (d.msg ∷ o.queued d.msg.name) (with_leased id none o)

abbrev pub new_lease : Env → Msg → ℤ → Delivery
new_lease e m lease = record { id = e.fresh; msg = m; expires = e.now + lease_or_minute lease }

-- Some mailbox or some lease has a message with the key.
pub data Holds (k : Text) (o : Office) : Type 0 where
  in_queue : (n : Text) → 0 < count (has_key k) (o.queued n) → Holds k o
  on_lease : (id : Text) (d : Delivery) → o.leased id ≡ some d → has_key k d.msg ≡ true → Holds k o

-- Leases that have run out end, in some order.
pub data Sweeps (now : ℕ) (o : Office) : Office → Type 0 where
  stays : Sweeps now o o
  goes_back :
      {o' : Office} (id : Text) (d : Delivery)
      → Sweeps now o o'
      → o'.leased id ≡ some d
      → d.expires < now
      → Sweeps now o (back id d o')

pub data Call : Type 0 where
  puts : Text → Msg → Call
  takes : Text → Call
  holds : Msg → ℤ → Call
  acks : Text → Call
  nacks : Text → Call

pub data Answer : Type 0 where
  done : Option Error → Answer
  gave : Result Msg → Answer
  lent : Result Delivery → Answer

-- What an office with the two limits answers, and what is left of it.
pub data Serves (max_queue max_body : ℕ) (e : Env) (o : Office)
    : Call → Answer → Office → Type 0 where
  puts_unnamed :
      {name : Text} {m : Msg}
      → is_empty name ≡ true
      → Serves max_queue max_body e o (puts name m) (done (some err_bad_name)) o
  puts_large :
      {name : Text} {m : Msg}
      → is_empty name ≡ false
      → max_body < length m.body
      → Serves max_queue max_body e o (puts name m) (done (some err_too_large)) o
  puts_again :
      {name : Text} {m : Msg}
      → is_empty name ≡ false
      → length m.body ≤ max_body
      → Holds (dedup_key name (stamped e name m).id) o
      → Serves max_queue max_body e o (puts name m) (done none) o
  puts_full :
      {name : Text} {m : Msg}
      → is_empty name ≡ false
      → length m.body ≤ max_body
      → ¬ Holds (dedup_key name (stamped e name m).id) o
      → max_queue ≤ length (o.queued name)
      → Serves max_queue max_body e o (puts name m) (done (some err_dropped)) o
  puts_last :
      {name : Text} {m : Msg}
      → is_empty name ≡ false
      → length m.body ≤ max_body
      → ¬ Holds (dedup_key name (stamped e name m).id) o
      → length (o.queued name) < max_queue
      → Serves max_queue max_body e o
          (puts name m)
          (done none)
          (with_queued name (o.queued name ++ stamped e name m ∷ []) o)
  takes_unnamed :
      {name : Text}
      → is_empty name ≡ true
      → Serves max_queue max_body e o (takes name) (gave (err err_bad_name)) o
  takes_none :
      {name : Text} {o' : Office}
      → is_empty name ≡ false
      → Sweeps e.now o o'
      → ((k : Text) → o'.leased k ≡ unexpired e.now (o.leased k))
      → o'.queued name ≡ []
      → Serves max_queue max_body e o (takes name) (gave (err err_empty)) o'
  takes_first :
      {name : Text} {o' : Office} (m : Msg) (rest : List Msg)
      → is_empty name ≡ false
      → Sweeps e.now o o'
      → ((k : Text) → o'.leased k ≡ unexpired e.now (o.leased k))
      → o'.queued name ≡ m ∷ rest
      → Serves max_queue max_body e o (takes name) (gave (ok m)) (with_queued name rest o')
  holds_unnamed :
      {m : Msg} {lease : ℤ}
      → is_empty m.name ≡ true
      → Serves max_queue max_body e o (holds m lease) (lent (err err_bad_name)) o
  holds_new :
      {m : Msg} {lease : ℤ}
      → is_empty m.name ≡ false
      → Serves max_queue max_body e o
          (holds m lease)
          (lent (ok (new_lease e m lease)))
          (with_leased e.fresh (some (new_lease e m lease)) o)
  acks_unknown :
      {id : Text}
      → o.leased id ≡ none
      → Serves max_queue max_body e o (acks id) (done (some err_not_found)) o
  acks_ended :
      {id : Text} (d : Delivery)
      → o.leased id ≡ some d
      → Serves max_queue max_body e o (acks id) (done none) (with_leased id none o)
  nacks_unknown :
      {id : Text}
      → o.leased id ≡ none
      → Serves max_queue max_body e o (nacks id) (done (some err_not_found)) o
  nacks_back :
      {id : Text} (d : Delivery)
      → o.leased id ≡ some d
      → Serves max_queue max_body e o (nacks id) (done none) (back id d o)

-- The calls of a run, one after the other, with what each is answered.
pub data Runs (max_queue max_body : ℕ)
    : Office → List (Env × Call) → List Answer → Office → Type 0 where
  ends : {o : Office} → Runs max_queue max_body o [] [] o
  goes_on :
      {e : Env} {c : Call} {a : Answer} {o o' o'' : Office} {calls : List (Env × Call)}
      {answers : List Answer}
      → Serves max_queue max_body e o c a o'
      → Runs max_queue max_body o' calls answers o''
      → Runs max_queue max_body o ((e, c) ∷ calls) (a ∷ answers) o''
