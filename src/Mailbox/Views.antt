-- ===== src/Mailbox/Views.antt =====
-- internal/mailbox/mailbox.go: what the writes of a box do to the queues and waiters of all names.
use zmqcat.Base.{◌≡◌, Text, arith, text_eq, text_eq_iff, if◌then◌else◌}
use zmqcat.Base.Dict.{lookup-insert}
use zmqcat.Mailbox.Defs.{Box, Bus, no_box, box_of}
use zmqcat.Mailbox.Boxes.{with_box, ensure_box, set_box}

pub box_of-set_box :
    (name n : Text) (bx : Box) (b : Bus)
    → box_of n (set_box name bx b) ≡ (if text_eq name n then bx else box_of n b)
unfolding set_box
box_of-set_box name n bx b = ground (arith, lookup-insert name n bx b.boxes)

-- Making a box that is missing changes neither queues nor waiters.
pub box_of-ensure_box : (name n : Text) (b : Bus) → box_of n (ensure_box name b) ≡ box_of n b
unfolding ensure_box with_box
box_of-ensure_box name n b = ground (arith, lookup-insert name n no_box b.boxes, text_eq_iff name n)
