-- ===== src/Tests.antt =====
-- Runs of the theorems at concrete inputs, and the buses that they run on.
mod Mailboxes
mod Files
mod Topics
mod Inputs
mod Hubs
mod Clients
mod Nodes
mod Commands
mod Runs
mod Offices
mod Postings
use zmqcat.Base.{ℕ, ◌≡◌, refl, Bool, false, Option, none, [], ◌∷◌, codes, Text}
use zmqcat.Base.Dict.{lookup}
use zmqcat.Mailbox.Defs.{Bus, Env, Msg, Box, works}
use zmqcat.Mailbox.Queues.{put}
use zmqcat.Mailbox.Leases.{hold}
use zmqcat.Mailbox.Dedup.{IsIndexed}
use zmqcat.Mailbox.Dedup.Keeps.{Section-IsIndexed}
use zmqcat.Mailbox.Fairness.{IsFair}
use zmqcat.Mailbox.Moves.{puts}

abbrev env : Env
env = record { now = 50; fresh = codes "d1"; order = []; fault = works }

abbrev no_bus : Bus
no_bus = record {
  max_queue = 2;
  max_body = 3;
  closed = false;
  boxes = [];
  subs = [];
  last = [];
  dedup = [];
  path = codes "bus.json";
  inflight = [];
  chans = λ c. record { buf = []; shut = false };
  next_chan = 0;
  disk = record { file = none; tmp = none; tmp_synced = false; of_file = none ∷ []; of_older = [] };
}

abbrev job : Msg
job = record { id = codes "j1"; name = codes "jobs"; from = codes "a"; body = 7 ∷ []; at_time = 9 }

abbrev long_job : Msg
long_job = record job { id = codes "j2"; body = 7 ∷ 7 ∷ 7 ∷ 7 ∷ [] }

-- One job is queued.
abbrev busy : Bus
busy = (put env (codes "jobs") job no_bus).0

no_bus-IsIndexed : IsIndexed no_bus
unfolding lookup
no_bus-IsIndexed = record { boxes_nodup = tt; inflight_nodup = tt; exact = λ k. refl }

busy-IsIndexed : IsIndexed busy
busy-IsIndexed = Section-IsIndexed (puts env (codes "jobs") job) no_bus-IsIndexed
