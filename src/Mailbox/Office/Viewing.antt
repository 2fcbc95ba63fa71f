-- ===== src/Mailbox/Office/Viewing.antt =====
-- internal/mailbox/mailbox.go: the office that a bus stands for, and what the writes of a bus on
-- which nobody waits do to it.
use zmqcat.Base.{ℕ, ◌≡◌, refl, ap, subst, ◌∙◌, none, some, List, [], ◌∷◌, Text, arith}
use zmqcat.Base.Dict.{Dict, lookup, insert, erase, lookup-insert, lookup-erase}
use zmqcat.Mailbox.Defs.{Msg, Delivery, Box, Bus, Disk, box_of, queue, waiting}
use zmqcat.Mailbox.Index.{index_del}
use zmqcat.Mailbox.Boxes.{set_box, ensure_box, deliver_to, deliver}
use zmqcat.Mailbox.Expiry.{give_back}
use zmqcat.Mailbox.Views.{box_of-ensure_box}
use zmqcat.Mailbox.Office.{Office, with_queued, with_leased, back}

abbrev pub office_of : Bus → Office
office_of b = record { queued = λ n. queue n b; leased = λ k. lookup k b.inflight }

pub Office-ext :
    (o o' : Office)
    → ((n : Text) → o.queued n ≡ o'.queued n)
    → ((k : Text) → o.leased k ≡ o'.leased k)
    → o ≡ o'
Office-ext o o' p q = λ i. record { queued = λ n. p n i; leased = λ k. q k i }

-- A bus on which nobody waits has become one that stands for the office, and on which nobody waits.
pub record Leads (b : Bus) (o : Office) (b' : Bus) : Type 0 where
  pub queues : (n : Text) → queue n b' ≡ o.queued n
  pub leases : (k : Text) → lookup k b'.inflight ≡ o.leased k
  pub idle : (n : Text) → waiting n b' ≡ []
  pub open_still : b'.closed ≡ b.closed
  pub room : b'.max_queue ≡ b.max_queue
  pub size : b'.max_body ≡ b.max_body

pub Leads-view : {b b' : Bus} {o : Office} → Leads b o b' → office_of b' ≡ o
Leads-view {b' = b'} {o = o} l = Office-ext (office_of b') o l.queues l.leases

module _ {b : Bus} (idle : (n : Text) → waiting n b ≡ []) where
  pub same-Leads : Leads b (office_of b) b
  same-Leads = record {
    queues = λ n. refl;
    leases = λ k. refl;
    idle = idle;
    open_still = refl;
    room = refl;
    size = refl;
  }

  pub ensure_box-Leads : (name : Text) → Leads b (office_of b) (ensure_box name b)
  unfolding ensure_box
  ensure_box-Leads name = record {
    queues = λ n. ap (λ bx. bx.q) (box_of-ensure_box name n b);
    leases = λ k. refl;
    idle = λ n. ap (λ bx. bx.waiters) (box_of-ensure_box name n b) ∙ idle n;
    open_still = refl;
    room = refl;
    size = refl;
  }

  pub set_box-Leads :
      (name : Text) (q : List Msg) (dedup : Dict ℕ) (disk : Disk)
      → let bx : Box = record (box_of name b) { q = q } in
        Leads b
          (with_queued name q (office_of b))
          (record b { boxes = insert name bx b.boxes; dedup = dedup; disk = disk })
  set_box-Leads name q dedup disk =
      let bx : Box = record (box_of name b) { q = q } in
      record {
        queues = λ n. ground (arith, lookup-insert name n bx b.boxes);
        leases = λ k. refl;
        idle = λ n. ground (arith, lookup-insert name n bx b.boxes, idle n, idle name);
        open_still = refl;
        room = refl;
        size = refl;
      }

  pub insert-Leads :
      (d : Delivery) (dedup : Dict ℕ) (disk : Disk)
      → Leads b
          (with_leased d.id (some d) (office_of b))
          (record b { inflight = insert d.id d b.inflight; dedup = dedup; disk = disk })
  insert-Leads d dedup disk = record {
    queues = λ n. refl;
    leases = λ k. lookup-insert d.id k d b.inflight;
    idle = idle;
    open_still = refl;
    room = refl;
    size = refl;
  }

  pub erase-Leads :
      (id : Text) (dedup : Dict ℕ) (disk : Disk)
      → Leads b
          (with_leased id none (office_of b))
          (record b { inflight = erase id b.inflight; dedup = dedup; disk = disk })
  erase-Leads id dedup disk = record {
    queues = λ n. refl;
    leases = λ k. lookup-erase id k b.inflight;
    idle = idle;
    open_still = refl;
    room = refl;
    size = refl;
  }

pub Leads-trans : {b b' b'' : Bus} {o o' : Office} → Leads b o b' → Leads b' o' b'' → Leads b o' b''
Leads-trans l l' = record {
  queues = l'.queues;
  leases = l'.leases;
  idle = l'.idle;
  open_still = l'.open_still ∙ l.open_still;
  room = l'.room ∙ l.room;
  size = l'.size ∙ l.size;
}

-- Writing the state file has no part in it.
pub Leads-disk :
    {b b' : Bus} {o : Office} (disk : Disk) → Leads b o b' → Leads b o (record b' { disk = disk })
Leads-disk disk l = record {
  queues = l.queues;
  leases = l.leases;
  idle = l.idle;
  open_still = l.open_still;
  room = l.room;
  size = l.size;
}

deliver_to-Leads :
    (m : Msg) (ws : List ℕ) (b : Bus)
    → ((n : Text) → waiting n b ≡ [])
    → waiting m.name b ≡ ws
    → Leads b
        (with_queued m.name (m ∷ queue m.name b) (office_of b))
        (deliver_to m ws (box_of m.name b) b)
unfolding deliver_to set_box
deliver_to-Leads m [] b idle h = set_box-Leads idle m.name (m ∷ queue m.name b) _ b.disk
deliver_to-Leads m (w ∷ ws) b idle h = ground (arith, idle m.name)

pub deliver-Leads :
    (m : Msg) (b : Bus)
    → ((n : Text) → waiting n b ≡ [])
    → Leads b (with_queued m.name (m ∷ queue m.name b) (office_of b)) (deliver m b)
unfolding deliver
deliver-Leads m b idle =
    let boxed = ensure_box-Leads idle m.name in
    Leads-trans boxed (
      subst
        (λ o.
          Leads (ensure_box m.name b) (with_queued m.name (m ∷ o.queued m.name) o) (deliver m b))
        (Leads-view boxed) (deliver_to-Leads m _ (ensure_box m.name b) boxed.idle refl))

pub give_back-Leads :
    (id : Text) (d : Delivery) (b : Bus)
    → ((n : Text) → waiting n b ≡ [])
    → Leads b (back id d (office_of b)) (give_back id d b)
unfolding give_back
give_back-Leads id d b idle =
    let ended = erase-Leads idle id (index_del d.msg b.dedup) b.disk in
    Leads-trans ended (
      subst
        (λ o.
          Leads (record b { inflight = erase id b.inflight; dedup = index_del d.msg b.dedup })
            (with_queued d.msg.name (d.msg ∷ o.queued d.msg.name) o) (give_back id d b))
        (Leads-view ended) (deliver-Leads d.msg _ ended.idle))
