-- ===== src/Hub.antt =====
-- internal/hub/hub.go: the state of a hub and of its sessions. Reading and writing of frames is left
-- to the network: a reply is the frame that is to be written.
pub mod Ids
pub mod Leases
pub mod Requests
pub mod Scoping
pub mod Routing
pub mod Giving
pub mod Jobs
pub mod Delivering
pub mod Dispatch
pub mod Handling
pub mod Answering
pub mod Replying
pub mod Serving
pub mod Keeping
pub mod Running
pub mod Sound
pub mod Routed
pub mod Leaving
pub mod Watching
pub mod Scoped
pub mod Numbers
use zmqcat.Base.{ℕ, Bool, List, Text}
use zmqcat.Base.Dict.{Dict}
use zmqcat.Base.Int.{ℤ}
use zmqcat.Mailbox.Defs.{Bus}

-- A session is known by its number, which no other has.
pub record Session : Type 0 where
  pub sid : ℕ
  pub name : Text
  pub closed : Bool
  pub unsub : List ℕ
  pub inflight : List Text
  pub rep_ack : Dict Text
  -- 0 is Go's zero time
  pub last_seen : ℕ

pub record PendingReq : Type 0 where
  pub s : ℕ
  pub client_id : Text
  pub expires : ℕ

pub record Hub : Type 0 where
  pub bus : Bus
  pub heartbeat : ℤ
  pub liveness : ℤ
  pub pending_ttl : ℤ
  pub pending : Dict PendingReq
