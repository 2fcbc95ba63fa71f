-- ===== src/Mailbox/Restart.antt =====
-- internal/mailbox/mailbox.go: a bus that is read back from its state file.
use zmqcat.Base.{
  ℕ, ◌+◌, ◌≡◌, refl, ap, sym, subst, ◌∙◌, true, false, Option, none, some, List, [], ◌∷◌, Text,
  arith, count, is_empty, text_eq_iff, text_eq_refl,
}
use zmqcat.Base.Dict.{
  Dict, lookup, insert, NodupKeys, lookup-insert, insert-NodupKeys, total-insert,
}
use zmqcat.Base.Int.{ℤ}
use zmqcat.Mailbox.Defs.{works, Msg, Delivery, Box, Bus, state, Disk, ok, or_no_box, queue}
use zmqcat.Mailbox.Index.{index_add}
use zmqcat.Mailbox.Persist.{nonempty_queues, snapshot, disk_steps, persisted, persist}
use zmqcat.Mailbox.Life.{
  new_with_limits, index_all, load_boxes, load_inflight, load_file, open_persistent,
}
use zmqcat.Mailbox.Dedup.{has_key, in_box, tally, IsIndexed}
use zmqcat.Mailbox.Dedup.Counting.{lookup-index_add, lease-IsCounted}
use zmqcat.Mailbox.Durable.{lookup-nonempty_queues, nonempty_queues-NodupKeys}

index_all-keeps :
    (q : List Msg) (b : Bus)
    → ((index_all q b).boxes ≡ b.boxes)
      × ((index_all q b).inflight ≡ b.inflight)
      × ((index_all q b).path ≡ b.path)
unfolding index_all
index_all-keeps [] b = (refl, refl, refl)
index_all-keeps (m ∷ q) b = index_all-keeps q _

lookup-index_all :
    (k : Text) (q : List Msg) (b : Bus) (n : ℕ)
    → lookup k b.dedup ≡ tally n
    → lookup k (index_all q b).dedup ≡ tally (n + count (has_key k) q)
unfolding index_all
lookup-index_all k [] b n h = h ∙ ap tally (omega arith)
lookup-index_all k (m ∷ q) b n h =
    lookup-index_all k q _ _ (lookup-index_add k m b.dedup n h) ∙ ap tally (omega arith)

-- One mailbox of the file is read.
load_box-IsIndexed :
    (n : Text) (q : List Msg) (b : Bus)
    → lookup n b.boxes ≡ none
    → IsIndexed b
    → IsIndexed
        (index_all q (record b { boxes = insert n (record { q = q; waiters = [] }) b.boxes }))
load_box-IsIndexed n q b new v =
    let bx : Box = record { q = q; waiters = [] } in
    let b' : Bus = record b { boxes = insert n bx b.boxes } in
    let (boxes, leased, _) = index_all-keeps q b' in
    rw (boxes, leased)
      (record {
        boxes_nodup = insert-NodupKeys n bx b.boxes v.boxes_nodup;
        inflight_nodup = v.inflight_nodup;
        exact = λ k.
            lookup-index_all k q b' _ (v.exact k)
            ∙ ap tally (ground (arith, total-insert (in_box k) n bx b.boxes v.boxes_nodup));
      })

module _ {V W : Type 0} where
  -- None of the keys of the first map is in the second.
  abbrev AreNew : Dict V → Dict W → Type 0
  AreNew d old = (k : Text) (v : V) → lookup k d ≡ some v → lookup k old ≡ none

  head-AreNew :
      (k : Text) (v : V) (d : Dict V) (old : Dict W) → AreNew ((k, v) ∷ d) old → lookup k old ≡ none
  unfolding lookup
  head-AreNew k v d old new = new k v (ground (arith, text_eq_refl k))

  tail-AreNew :
      (k : Text) (v : V) (w : W) (d : Dict V) (old : Dict W)
      → lookup k d ≡ none
      → AreNew ((k, v) ∷ d) old
      → AreNew d (insert k w old)
  unfolding lookup
  tail-AreNew k v w d old absent new j u h =
      ground (arith, lookup-insert k j w old, new j u, text_eq_iff k j)

load_boxes-IsIndexed :
    (boxes : Dict (List Msg)) (b : Bus)
    → NodupKeys boxes
    → AreNew boxes b.boxes
    → IsIndexed b
    → IsIndexed (load_boxes boxes b)
unfolding load_boxes
load_boxes-IsIndexed [] b u new v = v
load_boxes-IsIndexed ((n, q) ∷ boxes) b u new v =
    let bx : Box = record { q = q; waiters = [] } in
    let kept = (index_all-keeps q (record b { boxes = insert n bx b.boxes })).0 in
    load_boxes-IsIndexed boxes _ u.1
      (subst (AreNew boxes) (sym kept) (tail-AreNew n q bx boxes b.boxes u.0 new))
      (load_box-IsIndexed n q b (head-AreNew n q boxes b.boxes new) v)

abbrev or_else : {A : Type 0} → Option A → A → A
or_else none a = a
or_else (some x) a = x

queue-load_boxes :
    (boxes : Dict (List Msg)) (n : Text) (b : Bus)
    → NodupKeys boxes
    → queue n (load_boxes boxes b) ≡ or_else (lookup n boxes) (queue n b)
unfolding load_boxes lookup
queue-load_boxes [] n b u = refl
queue-load_boxes ((j, q) ∷ boxes) n b u =
    let bx : Box = record { q = q; waiters = [] } in
    let b' : Bus = record b { boxes = insert j bx b.boxes } in
    ground (
      arith,
      queue-load_boxes boxes n (index_all q b') u.1,
      (index_all-keeps q b').0,
      lookup-insert j n bx b.boxes,
      text_eq_iff j n,
    )

load_boxes-keeps :
    (boxes : Dict (List Msg)) (b : Bus)
    → ((load_boxes boxes b).inflight ≡ b.inflight) × ((load_boxes boxes b).path ≡ b.path)
unfolding load_boxes
load_boxes-keeps [] b = (refl, refl)
load_boxes-keeps ((n, q) ∷ boxes) b =
    let b' : Bus = record b { boxes = insert n (record { q = q; waiters = [] }) b.boxes } in
    let (_, leased, path) = index_all-keeps q b' in
    let (leased', path') = load_boxes-keeps boxes (index_all q b') in
    (leased' ∙ leased, path' ∙ path)

load_inflight-IsIndexed :
    (inflight : Dict Delivery) (b : Bus)
    → NodupKeys inflight
    → AreNew inflight b.inflight
    → IsIndexed b
    → IsIndexed (load_inflight inflight b)
unfolding load_inflight
load_inflight-IsIndexed [] b u new v = v
load_inflight-IsIndexed ((id, d) ∷ inflight) b u new v =
    load_inflight-IsIndexed inflight _ u.1 (tail-AreNew id d d inflight b.inflight u.0 new)
      (lease-IsCounted v id d (head-AreNew id d inflight b.inflight new))

abbrev or_option : {A : Type 0} → Option A → Option A → Option A
or_option none o = o
or_option (some x) o = some x

lookup-load_inflight :
    (inflight : Dict Delivery) (id : Text) (b : Bus)
    → NodupKeys inflight
    → lookup id (load_inflight inflight b).inflight
      ≡ or_option (lookup id inflight) (lookup id b.inflight)
unfolding load_inflight lookup
lookup-load_inflight [] id b u = refl
lookup-load_inflight ((j, d) ∷ inflight) id b u = ground (
  arith,
  lookup-load_inflight inflight id
      (record b { inflight = insert j d b.inflight; dedup = index_add d.msg b.dedup }) u.1,
  lookup-insert j id d b.inflight,
  text_eq_iff j id,
)

load_inflight-keeps :
    (inflight : Dict Delivery) (b : Bus) → (load_inflight inflight b).boxes ≡ b.boxes
unfolding load_inflight
load_inflight-keeps [] b = refl
load_inflight-keeps ((id, d) ∷ inflight) b = load_inflight-keeps inflight _

empty-IsIndexed :
    (max_queue max_body : ℤ) (disk : Disk) → IsIndexed (new_with_limits max_queue max_body disk)
unfolding new_with_limits lookup
empty-IsIndexed max_queue max_body disk = record {
  boxes_nodup = tt;
  inflight_nodup = tt;
  exact = λ k. refl;
}

-- A durable bus with an exact index that has been written without an error is read back, under
-- whatever limits: the same queues, the same leases, and an exact index.
pub restart_lem :
    (b : Bus) (max_queue max_body : ℤ)
    → IsIndexed b
    → is_empty b.path ≡ false
    → (b' : Bus) × (open_persistent b.path max_queue max_body true (persist works b).0.disk ≡ ok b')
      × ((n : Text) → queue n b' ≡ queue n b)
      × ((id : Text) → lookup id b'.inflight ≡ lookup id b.inflight)
      × IsIndexed b'
unfolding open_persistent persist persisted disk_steps snapshot new_with_limits lookup
restart_lem b max_queue max_body v has_path =
    let b₀ : Bus = record (new_with_limits max_queue max_body (persisted works b)) {
      path = b.path;
    } in
    let saved = nonempty_queues b.boxes in
    let saved_nodup = nonempty_queues-NodupKeys b.boxes v.boxes_nodup in
    let b₁ = load_boxes saved b₀ in
    let leases_kept = (load_boxes-keeps saved b₀).0 in
    let file : (persisted works b).file ≡ some (state (snapshot b)) = ground arith in
    let v₁ : IsIndexed b₁ =
      load_boxes-IsIndexed saved b₀ saved_nodup (λ k q e. refl)
        (empty-IsIndexed max_queue max_body (persisted works b)) in
    (
      load_inflight b.inflight b₁,
      ap (λ f. load_file f b₀) file,
      λ n.
          ap (λ boxes. (or_no_box (lookup n boxes)).q) (load_inflight-keeps b.inflight b₁)
          ∙ ground (
            arith,
            queue-load_boxes saved n b₀ saved_nodup,
            lookup-nonempty_queues n b.boxes v.boxes_nodup,
          ),
      λ id.
          lookup-load_inflight b.inflight id b₁ v.inflight_nodup
          ∙ (ground (arith, ap (lookup id) leases_kept)),
      load_inflight-IsIndexed b.inflight b₁ v.inflight_nodup (λ k d e. ap (lookup k) leases_kept)
          v₁,
    )
