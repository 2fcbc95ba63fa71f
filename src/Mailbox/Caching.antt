-- ===== src/Mailbox/Caching.antt =====
-- internal/mailbox/mailbox.go: the last-value cache that `Pub` writes and `Sub` replays.
use zmqcat.Base.{
  ℕ, ◌+◌, ◌≤◌, ◌<◌, ◌≡◌, refl, sym, ap, ◌∙◌, subst, true, false, not, ◌&&◌, Option, none, some,
  List, [], ◌∷◌, Text, arith, length, leb, ◌==◌, text_eq, text_eq_refl, if◌then◌else◌, Option-cases,
  inl, inr, ◌⊎◌, Bool, if_elim,
}
use zmqcat.Base.Dict.{
  Dict, lookup, insert, erase, arrange, total, weight, NodupKeys, lookup-erase, lookup-insert,
  lookup-insert_self, erase-NodupKeys, insert-NodupKeys, total-erase, total-insert,
}
use zmqcat.Mailbox.Defs.{Env, Msg, Bus, Sub, max_cached_topics}
use zmqcat.Mailbox.Index.{is_some}
use zmqcat.Mailbox.Topics.{make_room, evict_first, pub_msg, publish, offer, match_topic}
use zmqcat.Mailbox.Boxes.{send}

-- A cache lists no topic twice, and has at most so many.
pub record IsCache (last : Dict Msg) : Type 0 where
  pub distinct : NodupKeys last
  pub in_bounds : length last ≤ max_cached_topics

module _ {V : Type 0} where
  abbrev one : V → ℕ
  one v = 1

  total-one : (d : Dict V) → total one d ≡ length d
  total-one [] = refl
  total-one ((k, v) ∷ d) = omega (arith, total-one d)

  length-erase :
      (k : Text) (d : Dict V)
      → NodupKeys d
      → length (erase k d) + weight one (lookup k d) ≡ length d
  length-erase k d u = omega (arith, total-erase one k d u, total-one d, total-one (erase k d))

  length-insert :
      (k : Text) (v : V) (d : Dict V)
      → NodupKeys d
      → length (insert k v d) + weight one (lookup k d) ≡ length d + 1
  length-insert k v d u =
      omega (arith, total-insert one k v d u, total-one d, total-one (insert k v d))

  -- A range starts at an entry, where there is one.
  record Starts (d xs : Dict V) : Type 0 where
    k : Text
    v : V
    rest : Dict V
    first_ : xs ≡ (k, v) ∷ rest
    held : lookup k d ≡ some v

  arrange-Starts : (ks : List Text) (d : Dict V) → 0 < length d → Starts d (arrange ks d)
  unfolding arrange lookup
  arrange-Starts ks [] h = absurd (omega arith)
  arrange-Starts [] ((k, v) ∷ d) h = record {
    k = k;
    v = v;
    rest = d;
    first_ = refl;
    held = rw (text_eq_refl k) refl;
  }
  arrange-Starts (j ∷ ks) (x ∷ d) h = go (arrange-Starts ks (x ∷ d) h) (lookup j (x ∷ d)) refl
    where
      go :
          Starts (x ∷ d) (arrange ks (x ∷ d))
          → (o : Option V) → lookup j (x ∷ d) ≡ o
          → Starts (x ∷ d) (elim o [
            | none ↦ arrange ks (x ∷ d)
            | some v ↦ (j, v) ∷ arrange ks (erase j (x ∷ d))
          ])
      go s none e = s
      go s (some v) e = record {
        k = j;
        v = v;
        rest = arrange ks (erase j (x ∷ d));
        first_ = refl;
        held = e;
      }

-- The topic that is gone, if one is.
abbrev pub is_evicted : Option Text → Text → Bool
is_evicted none t = false
is_evicted (some k) t = text_eq k t

-- After room is made for a topic, at most one other topic is gone, none where there was room.
record HasRoom (topic : Text) (last last' : Dict Msg) : Type 0 where
  distinct : NodupKeys last'
  room : length last' + 1 ≤ max_cached_topics + weight one (lookup topic last')
  evicted : Option Text
  kept : (t : Text) → lookup t last' ≡ (if is_evicted evicted t then none else lookup t last)
  full : (evicted ≡ none) ⊎ (max_cached_topics ≤ length last)

make_room-HasRoom :
    (e : Env) (topic : Text) (last : Dict Msg)
    → IsCache last
    → HasRoom topic last (make_room e topic last)
unfolding make_room
make_room-HasRoom e topic last v =
    if_elim (HasRoom topic last)
      (not (is_some (lookup topic last)) && leb max_cached_topics (length last)) (λ h. evict h)
      (λ h. keep h)
  where
    keep :
        (not (is_some (lookup topic last)) && leb max_cached_topics (length last)) ≡ false
        → HasRoom topic last last
    keep h = record {
      distinct = v.distinct;
      room = elim (Option-cases (lookup topic last)) [
        | inl e ↦ ground (arith, h, e, v.in_bounds)
        | inr (m, e) ↦ ground (arith, e, v.in_bounds)
      ];
      evicted = none;
      kept = λ t. refl;
      full = inl refl;
    }

    evict :
        (not (is_some (lookup topic last)) && leb max_cached_topics (length last)) ≡ true
        → HasRoom topic last (evict_first (arrange e.order last) last)
    evict h =
        let full : max_cached_topics ≤ length last = ground (arith, h) in
        let s = arrange-Starts e.order last (omega (arith, full)) in
        subst (λ xs. HasRoom topic last (evict_first xs last)) (sym s.first_)
          record {
            distinct = erase-NodupKeys s.k last v.distinct;
            room =
                omega
                  (arith, length-erase s.k last v.distinct, ap (weight one) s.held, v.in_bounds);
            evicted = some s.k;
            kept = λ t. lookup-erase s.k t last;
            full = inr full;
          }

-- What a message that `Pub` accepts leaves in the cache.
pub record Cached (topic : Text) (m : Msg) (last last' : Dict Msg) : Type 0 where
  pub cache : IsCache last'
  pub newest : lookup topic last' ≡ some m
  pub evicted : Option Text
  pub others :
      (t : Text)
      → lookup t last'
        ≡ (if text_eq topic t then some m else if is_evicted evicted t then none else lookup t last)
  pub full : (evicted ≡ none) ⊎ (max_cached_topics ≤ length last)

insert-Cached :
    (e : Env) (topic : Text) (m : Msg) (last : Dict Msg)
    → IsCache last
    → Cached topic m last (insert topic m (make_room e topic last))
insert-Cached e topic m last v =
    let r = make_room-HasRoom e topic last v in
    let last' = make_room e topic last in
    record {
      cache = record {
        distinct = insert-NodupKeys topic m last' r.distinct;
        in_bounds = omega (arith, length-insert topic m last' r.distinct, r.room);
      };
      newest = lookup-insert_self topic m last';
      evicted = r.evicted;
      others = λ t.
          lookup-insert topic t m last'
          ∙ ap (λ o. if text_eq topic t then some m else o) (r.kept t);
      full = r.full;
    }

-- The fan-out leaves the cache alone.
publish-last : (subs : List Sub) (m : Msg) (b : Bus) → (publish subs m b).last ≡ b.last
unfolding publish offer send
publish-last [] m b = refl
publish-last (s ∷ subs) m b =
    publish-last subs m (if match_topic m.name s.prefix then offer s.ch m b else b) ∙ ground arith

-- The message as `Pub` completes it.
unfoldable pub published : Env → Text → Msg → Msg
published e topic m = record m {
  name = topic;
  at_time = if m.at_time == 0 then e.now else m.at_time;
}

-- A message that `Pub` accepts is the newest of its topic in the cache, which keeps to its limit
-- if it did before: at most one other topic is evicted for it, and none while the cache is below
-- the limit.
pub pub_msg-Cached :
    (e : Env) (topic : Text) (m : Msg) (b : Bus)
    → IsCache b.last
    → (pub_msg e topic m b).1 ≡ none
    → Cached topic (published e topic m) b.last (pub_msg e topic m b).0.last
unfolding pub_msg published
pub_msg-Cached e topic m b v h =
    subst (Cached topic (published e topic m) b.last) (sym accepted)
      (insert-Cached e topic (published e topic m) b.last v)
  where
    b' : Bus
    b' = record b { last = insert topic (published e topic m) (make_room e topic b.last) }

    accepted : (pub_msg e topic m b).0.last ≡ b'.last
    accepted = ground (arith, h, publish-last b.subs (published e topic m) b')
