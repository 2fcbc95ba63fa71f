-- ===== src/Mailbox/Boxes.antt =====
-- internal/mailbox/mailbox.go: boxes, the channels of their waiters, and `deliverLocked`.
use zmqcat.Base.{ℕ, suc, Bool, none, some, List, [], ◌∷◌, ◌++◌, Text}
use zmqcat.Base.Dict.{Dict, lookup, insert}
use zmqcat.Mailbox.Defs.{Msg, Chan, Box, Bus, no_box, box_of, set_chan}
use zmqcat.Mailbox.Index.{index_add}

unfoldable pub set_box : Text → Box → Bus → Bus
set_box name bx b = record b { boxes = insert name bx b.boxes }

unfoldable pub with_box : Text → Dict Box → Dict Box
with_box name boxes = elim (lookup name boxes) [ none ↦ insert name no_box boxes | some bx ↦ boxes ]

-- `boxLocked` makes a missing box.
unfoldable pub ensure_box : Text → Bus → Bus
ensure_box name b = record b { boxes = with_box name b.boxes }

-- `ch <- msg` on a channel with room.
unfoldable pub send : ℕ → Msg → Bus → Bus
send c m b = record b {
  chans = set_chan c (record { buf = (b.chans c).buf ++ m ∷ []; shut = (b.chans c).shut }) b.chans;
}

unfoldable pub close_chan : ℕ → Bus → Bus
close_chan c b = record b {
  chans = set_chan c (record { buf = (b.chans c).buf; shut = Bool.true }) b.chans;
}

-- `make(chan Msg, n)`, with its first contents.
unfoldable pub make_chan : Chan → Bus → Bus
make_chan ch b = record b { chans = set_chan b.next_chan ch b.chans; next_chan = suc b.next_chan }

-- The oldest waiter leaves the box, and its channel gets the message and is closed.
unfoldable pub hand_over : Msg → ℕ → List ℕ → Box → Bus → Bus
unfolding set_box send close_chan
hand_over m w ws bx b = close_chan w (send w m (set_box m.name (record bx { waiters = ws }) b))

unfoldable pub deliver_to : Msg → List ℕ → Box → Bus → Bus
unfolding hand_over set_box
deliver_to m (w ∷ ws) bx b = hand_over m w ws bx b
deliver_to m [] bx b =
    let b' = set_box m.name (record bx { q = m ∷ bx.q }) b in
    record b' { dedup = index_add m b'.dedup }

unfoldable pub deliver : Msg → Bus → Bus
unfolding deliver_to ensure_box
deliver m b =
    let b' = ensure_box m.name b in let bx = box_of m.name b' in deliver_to m bx.waiters bx b'
