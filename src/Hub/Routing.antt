-- ===== src/Hub/Routing.antt =====
-- internal/hub/hub.go: a reply reaches the session that asked.
use zmqcat.Base.{
  ℕ, ◌+◌, ◌≡◌, ◌≢◌, ◌≤◌, refl, sym, ap, ◌∙◌, true, false, Option, none, some, List, [], ◌∷◌, Text,
  arith, text_eq, text_eq_iff, is_empty, if◌then◌else◌, Bool-cases, inl, inr, ◌==◌,
}
use zmqcat.Base.Dict.{Dict, lookup, insert, erase, lookup-erase, lookup-insert, lookup-insert_self}
use zmqcat.Mailbox.Defs.{Bus, Env, Error, Msg}
use zmqcat.Mailbox.Queues.{put}
use zmqcat.Wire.{Frame, payload}
use zmqcat.Hub.{Session, PendingReq, Hub}
use zmqcat.Hub.Ids.{scoped_id, from_of, pending_ttl_of}
use zmqcat.Hub.Requests.{
  expire_pending, Refusal, enter, withdraw, enqueue, req, rep, rep_frame, addressed, acknowledge,
}
use zmqcat.Hub.Leases.{or_empty}
use zmqcat.Hub.Scoping.{scoped_id_injective}

expire_pending-keeps :
    (now : ℕ) (k : Text) (p : PendingReq) (pending : Dict PendingReq)
    → lookup k pending ≡ some p
    → now ≤ p.expires
    → lookup k (expire_pending now pending) ≡ some p
unfolding expire_pending lookup
expire_pending-keeps now k p [] h fresh = h
expire_pending-keeps now k p ((j, q) ∷ pending) h fresh = elim (Bool-cases (text_eq j k)) [
  | inl e ↦ ground (arith, e, h, fresh)
  | inr e ↦
      let h' : lookup k pending ≡ some p = ground (arith, e, h) in
      ground (arith, e, expire_pending-keeps now k p pending h' fresh)
]

withdraw-keeps :
    (key k : Text) (s : Session) (pending : Dict PendingReq)
    → text_eq key k ≡ false
    → lookup k (withdraw key s pending) ≡ lookup k pending
unfolding withdraw
withdraw-keeps key k s pending other = go (lookup key pending)
  where
    go :
        (o : Option PendingReq)
        → lookup k (elim o [
          | none ↦ pending
          | some p ↦ if p.s == s.sid then erase key pending else pending
        ])
          ≡ lookup k pending
    go none = refl
    go (some p) = ground (arith, lookup-erase key k pending, other)

enqueue-keeps :
    (e : Env) (key k : Text) (s : Session) (f : Frame) (h : Hub)
    → text_eq key k ≡ false
    → lookup k (enqueue e key s f h).0.pending ≡ lookup k h.pending
unfolding enqueue
enqueue-keeps e key k s f h other = go (put e f.name m h.bus).1
  where
    m : Msg
    m = record { id = key; name = []; from = from_of s f; body = payload f; at_time = 0 }

    b' : Bus
    b' = (put e f.name m h.bus).0

    go :
        (o : Option Error)
        → let r : Hub × Option Refusal = elim o [
          | none ↦ (record h { bus = b' }, none)
          | some x ↦
              (record h { bus = b'; pending = withdraw key s h.pending }, some (Refusal.from_bus x))
        ] in
          lookup k r.0.pending ≡ lookup k h.pending
    go none = refl
    go (some x) = withdraw-keeps key k s h.pending other

-- What `enqueue` leaves in the table of a request that the bus accepts.
enqueue-accepted :
    (e : Env) (key : Text) (s : Session) (f : Frame) (h : Hub)
    → (enqueue e key s f h).1 ≡ none
    → (enqueue e key s f h).0.pending ≡ h.pending
unfolding enqueue
enqueue-accepted e key s f h accepted = go (put e f.name m h.bus).1 accepted
  where
    m : Msg
    m = record { id = key; name = []; from = from_of s f; body = payload f; at_time = 0 }

    b' : Bus
    b' = (put e f.name m h.bus).0

    go :
        (o : Option Error)
        → let r : Hub × Option Refusal = elim o [
          | none ↦ (record h { bus = b' }, none)
          | some x ↦
              (record h { bus = b'; pending = withdraw key s h.pending }, some (Refusal.from_bus x))
        ] in
          r.1 ≡ none → r.0.pending ≡ h.pending
    go none a = refl
    go (some x) a = absurd (ground (arith, a))

awaiting : Env → Session → Frame → Hub → PendingReq
awaiting e s f h = record { s = s.sid; client_id = f.id; expires = e.now + pending_ttl_of h }

req-enters :
    (e : Env) (s : Session) (f : Frame) (h : Hub)
    → is_empty f.id ≡ false
    → (req e s f h).1 ≡ none
    → lookup (scoped_id s.sid f.id) (req e s f h).0.pending ≡ some (awaiting e s f h)
unfolding req enter awaiting
req-enters e s f h named accepted =
    let key = scoped_id s.sid f.id in
    let h' : Hub = enter e.now key s f.id h in
    let same : req e s f h ≡ enqueue e key s f h' = rw named refl in
    ap (λ r. lookup key r.0.pending) same
    ∙ ap (lookup key) (enqueue-accepted e key s f h' (sym (ap (λ r. r.1) same) ∙ accepted))
    ∙ lookup-insert_self key (awaiting e s f h) (expire_pending e.now h.pending)

req-keeps :
    (e : Env) (s : Session) (f : Frame) (h : Hub) (k : Text) (p : PendingReq)
    → lookup k h.pending ≡ some p
    → e.now ≤ p.expires
    → (is_empty f.id ≡ false → text_eq (scoped_id s.sid f.id) k ≡ false)
    → lookup k (req e s f h).0.pending ≡ some p
unfolding req enter insert lookup awaiting
req-keeps e s f h k p held fresh other = elim (Bool-cases (is_empty f.id)) [
  | inl empty ↦
      let same : (req e s f h).0 ≡ h = rw empty refl in ap (λ h. lookup k h.pending) same ∙ held
  | inr named ↦
      let key = scoped_id s.sid f.id in
      let h' : Hub = enter e.now key s f.id h in
      let same : (req e s f h).0 ≡ (enqueue e key s f h').0 = rw named refl in
      ap (λ h. lookup k h.pending) same
      ∙ enqueue-keeps e key k s f h' (other named)
      ∙ lookup-insert key k (awaiting e s f h) (expire_pending e.now h.pending)
      ∙ ap (λ b. if b then some (awaiting e s f h) else lookup k (expire_pending e.now h.pending))
          (other named)
      ∙ expire_pending-keeps e.now k p h.pending held fresh
]

pub record Asked : Type 0 where
  pub env : Env
  pub by : Session
  pub frame : Frame

-- Requests one after the other.
unfoldable pub req_all : List Asked → Hub → Hub
req_all [] h = h
req_all (a ∷ more) h = req_all more (req a.env a.by a.frame h).0

-- The requests are made by other sessions, and until a time.
abbrev pub AreOthers : ℕ → ℕ → List Asked → Type 0
AreOthers sid until [] = Unit
AreOthers sid until (a ∷ more) = (a.by.sid ≢ sid) × (a.env.now ≤ until) × AreOthers sid until more

scoped_apart :
    (sid sid' : ℕ) (id id' : Text)
    → sid ≢ sid'
    → is_empty id ≡ false
    → is_empty id' ≡ false
    → text_eq (scoped_id sid id) (scoped_id sid' id') ≡ false
scoped_apart sid sid' id id' differ named named' =
    elim (Bool-cases (text_eq (scoped_id sid id) (scoped_id sid' id'))) [
      | inr e ↦ e
      | inl e ↦
          let same = (text_eq_iff (scoped_id sid id) (scoped_id sid' id')).0 e in
          absurd (differ (scoped_id_injective sid sid' id id' named named' same).0)
    ]

req_all-keeps :
    (more : List Asked) (sid : ℕ) (id : Text) (h : Hub) (p : PendingReq)
    → is_empty id ≡ false
    → lookup (scoped_id sid id) h.pending ≡ some p
    → AreOthers sid p.expires more
    → lookup (scoped_id sid id) (req_all more h).pending ≡ some p
unfolding req_all
req_all-keeps [] sid id h p named held others = held
req_all-keeps (a ∷ more) sid id h p named held (differ, fresh, others) =
    req_all-keeps more sid id (req a.env a.by a.frame h).0 p named
      (req-keeps a.env a.by a.frame h (scoped_id sid id) p held fresh
        (λ named'. scoped_apart a.by.sid sid a.frame.id id differ named' named))
      others

-- The reply to a request that the bus accepted goes to the session that made it, under the id that
-- its client chose, whatever requests other sessions have made in the meantime and under whatever
-- ids, if the last of them came before the request expires and the worker's own confirmation is
-- written.
pub rep-req :
    (e : Env) (s : Session) (f : Frame) (h : Hub) (more : List Asked) (e' : Env) (worker : Session)
    (g : Frame)
    → is_empty f.id ≡ false
    → (req e s f h).1 ≡ none
    → AreOthers s.sid (e.now + pending_ttl_of h) more
    → g.id ≡ scoped_id s.sid f.id
    → (out : Frame) × ((rep e' true worker g (req_all more (req e s f h).0)).2 ≡ some (s.sid, out))
      × (out.id ≡ f.id)
      × (out.body ≡ g.body)
unfolding rep rep_frame addressed awaiting
rep-req e s f h more e' worker g named accepted others same =
    let held =
      req_all-keeps more s.sid f.id (req e s f h).0 (awaiting e s f h) named
        (req-enters e s f h named accepted) others in
    let found : lookup g.id (req_all more (req e s f h).0).pending ≡ some (awaiting e s f h) =
      ap (λ k. lookup k (req_all more (req e s f h).0).pending) same ∙ held in
    let s' : Session =
      (acknowledge e' (or_empty (lookup g.id worker.rep_ack))
        (record worker { rep_ack = erase g.id worker.rep_ack })
        (req_all more (req e s f h).0).bus).0 in
    (rep_frame s' g (awaiting e s f h), ap (addressed s' g) found, refl, refl)
