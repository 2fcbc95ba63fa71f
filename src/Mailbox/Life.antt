-- ===== src/Mailbox/Life.antt =====
-- internal/mailbox/mailbox.go: making a bus, reading one back, and `Close`.
use zmqcat.Base.{
  ℕ, zero, suc, Bool, true, false, not, Option, none, some, List, [], ◌∷◌, Text, length, is_empty,
  if◌then◌else◌,
}
use zmqcat.Base.Dict.{Dict, insert, lookup}
use zmqcat.Base.Int.{ℤ, pos, negsuc}
use zmqcat.Mailbox.Defs.{
  bad_json, read_fails, Result, ok, err, Msg, Delivery, Chan, Box, Sub, Contents, state, partial,
  Disk, Bus, set_chan, default_max_queue, default_max_body,
}
use zmqcat.Mailbox.Index.{index_add}

positive_or : ℕ → ℤ → ℕ
positive_or n (pos zero) = n
positive_or n (pos (suc k)) = suc k
positive_or n (negsuc k) = n

-- The disk is the directory that the path lies in.
unfoldable pub new_with_limits : ℤ → ℤ → Disk → Bus
unfolding positive_or
new_with_limits max_queue max_body disk = record {
  max_queue = positive_or default_max_queue max_queue;
  max_body = positive_or default_max_body max_body;
  closed = false;
  boxes = [];
  subs = [];
  last = [];
  dedup = [];
  path = [];
  inflight = [];
  chans = λ c. record { buf = []; shut = false };
  next_chan = 0;
  disk = disk;
}

unfoldable pub index_all : List Msg → Bus → Bus
index_all [] b = b
index_all (m ∷ q) b = index_all q (record b { dedup = index_add m b.dedup })

unfoldable pub load_boxes : Dict (List Msg) → Bus → Bus
unfolding index_all
load_boxes [] b = b
load_boxes ((n, q) ∷ boxes) b =
    load_boxes boxes
      (index_all q (record b { boxes = insert n (record { q = q; waiters = [] }) b.boxes }))

unfoldable pub load_inflight : Dict Delivery → Bus → Bus
load_inflight [] b = b
load_inflight ((id, d) ∷ inflight) b =
    load_inflight inflight
      (record b { inflight = insert id d b.inflight; dedup = index_add d.msg b.dedup })

unfoldable pub load_file : Option Contents → Bus → Result Bus
unfolding load_boxes load_inflight
load_file none b = ok b
load_file (some partial) b = err bad_json
load_file (some (state s)) b = ok (load_inflight s.inflight (load_boxes s.boxes b))

-- `readable` is false if reading the file fails though it is there.
unfoldable pub open_persistent : Text → ℤ → ℤ → Bool → Disk → Result Bus
unfolding load_file new_with_limits
open_persistent path max_queue max_body readable disk =
    let b = record (new_with_limits max_queue max_body disk) { path = path } in
    if readable then load_file disk.file b else err read_fails

unfoldable pub durable : Bus → Bool
durable b = not (is_empty b.path)

abbrev pub shut_chan : ℕ → (ℕ → Chan) → ℕ → Chan
shut_chan c chans = set_chan c (record { buf = (chans c).buf; shut = true }) chans

unfoldable pub shut_each : List ℕ → (ℕ → Chan) → ℕ → Chan
shut_each [] chans = chans
shut_each (c ∷ cs) chans = shut_each cs (shut_chan c chans)

unfoldable pub shut_waiters : Dict Box → (ℕ → Chan) → ℕ → Chan
unfolding shut_each
shut_waiters [] chans = chans
shut_waiters ((n, bx) ∷ boxes) chans = shut_waiters boxes (shut_each bx.waiters chans)

unfoldable pub shut_subs : List Sub → (ℕ → Chan) → ℕ → Chan
shut_subs [] chans = chans
shut_subs (s ∷ subs) chans = shut_subs subs (shut_chan s.ch chans)

unfoldable pub emptied : Dict Box → Dict Box
emptied [] = []
emptied ((n, bx) ∷ boxes) = (n, record { q = []; waiters = [] }) ∷ emptied boxes

-- Leases, index and state file are left as they are.
unfoldable pub close : Bus → Bus
unfolding shut_waiters shut_subs emptied
close b = if b.closed then b else record b {
  closed = true;
  chans = shut_subs b.subs (shut_waiters b.boxes b.chans);
  boxes = emptied b.boxes;
  subs = [];
}

unfoldable pub inflight_count : Bus → ℕ
inflight_count b = length b.inflight

unfoldable pub depth : Text → Bus → ℕ
depth name b = elim (lookup name b.boxes) [ none ↦ 0 | some bx ↦ length bx.q ]
