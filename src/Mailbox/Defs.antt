-- ===== src/Mailbox/Defs.antt =====
-- internal/mailbox/mailbox.go: the data of a bus. Times are nanoseconds, and 0 is Go's zero time.
use zmqcat.Base.{ℕ, ◌*◌, ◌^◌, Bool, Option, none, some, List, [], Text, ◌==◌, if◌then◌else◌}
use zmqcat.Base.Dict.{Dict, lookup}

-- How writing the state file can end: well, at the step that fails, or with a rename of which it is
-- not known whether it has reached the disk, which is no error.
pub data Fault : Type 0 where
  works marshal_fails open_fails write_fails sync_fails close_fails rename_fails : Fault
  dir_sync_fails : Fault

pub data Error : Type 0 where
  err_closed err_empty err_too_large err_bad_name err_dropped err_not_found : Error
  -- `ctx.Err()`, and errors of the operating system and of the JSON decoder
  ctx_done bad_json read_fails : Error
  io : Fault → Error

-- A pair `(T, error)` of which one half counts. A lone `error` is an `Option Error`.
pub data Result (A : Type 0) : Type 0 where
  ok : A → Result A
  err : Error → Result A

abbrev pub max_cached_topics : ℕ
max_cached_topics = 4096

abbrev pub default_max_queue : ℕ
default_max_queue = 1024

abbrev pub default_max_body : ℕ
default_max_body = 2 ^ 20

-- `time.Minute`, in nanoseconds
abbrev pub minute : ℕ
minute = 60 * 10 ^ 9

pub record Msg : Type 0 where
  pub id : Text
  pub name : Text
  pub from : Text
  pub body : Text
  pub at_time : ℕ

pub record Delivery : Type 0 where
  pub id : Text
  pub msg : Msg
  pub expires : ℕ

-- A `chan Msg`: what is buffered, oldest first, and whether it has been closed.
pub record Chan : Type 0 where
  pub buf : List Msg
  pub shut : Bool

-- Channels are shared by reference: a waiter or a subscriber holds the number of one.
pub record Box : Type 0 where
  pub q : List Msg
  pub waiters : List ℕ

pub record Sub : Type 0 where
  pub prefix : Text
  pub ch : ℕ

-- What `persistLocked` writes.
pub record Snapshot : Type 0 where
  pub boxes : Dict (List Msg)
  pub inflight : Dict Delivery

-- A file: the JSON of a state, or bytes that are not the JSON of one.
pub data Contents : Type 0 where
  state : Snapshot → Contents
  partial : Contents

-- The state file and the temporary file beside it, as a reader finds them, and what a crash may
-- leave under the state file's name: of the file that is there, and of those that were there before
-- a rename that has not reached the disk.
pub record Disk : Type 0 where
  pub file : Option Contents
  pub tmp : Option Contents
  -- whether the contents of the temporary file have reached the disk
  pub tmp_synced : Bool
  pub of_file : List (Option Contents)
  pub of_older : List (Option Contents)

pub record Bus : Type 0 where
  pub max_queue : ℕ
  pub max_body : ℕ
  pub closed : Bool
  pub boxes : Dict Box
  pub subs : List Sub
  pub last : Dict Msg
  pub dedup : Dict ℕ
  pub path : Text
  pub inflight : Dict Delivery
  -- The heap of channels, the number of the next one, and the disk.
  pub chans : ℕ → Chan
  pub next_chan : ℕ
  pub disk : Disk

-- What a critical section takes from its surroundings: the time, the next value of `newID`, the
-- order in which the runtime ranges over a map, and how writing the state file ends.
pub record Env : Type 0 where
  pub now : ℕ
  pub fresh : Text
  pub order : List Text
  pub fault : Fault

abbrev pub no_box : Box
no_box = record { q = []; waiters = [] }

abbrev pub or_no_box : Option Box → Box
or_no_box none = no_box
or_no_box (some bx) = bx

abbrev pub box_of : Text → Bus → Box
box_of name b = or_no_box (lookup name b.boxes)

-- The messages queued under a name, oldest first, and the channels of those who wait there.
abbrev pub queue : Text → Bus → List Msg
queue name b = (box_of name b).q

abbrev pub waiting : Text → Bus → List ℕ
waiting name b = (box_of name b).waiters

abbrev pub set_chan : ℕ → Chan → (ℕ → Chan) → ℕ → Chan
set_chan c ch chans d = if d == c then ch else chans d
