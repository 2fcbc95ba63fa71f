-- ===== src/Hub/Delivering.antt =====
-- internal/hub/hub.go: what becomes of the lease of a job that a session takes.
use zmqcat.Base.{
  ◌≡◌, refl, sym, ap, ◌∙◌, Bool, true, false, ◌||◌, ◌&&◌, none, List, [], ◌∷◌, ◌++◌, Text, arith,
  text_eq_refl, if◌then◌else◌, Option-cases, Bool-cases, inl, inr,
}
use zmqcat.Base.Dict.{lookup, lookup-erase}
use zmqcat.Mailbox.Defs.{Bus, Env, Delivery}
use zmqcat.Mailbox.Leases.{ack}
use zmqcat.Mailbox.Persist.{persist}
use zmqcat.Mailbox.Expiring.{mem_text}
use zmqcat.Wire.{Frame}
use zmqcat.Hub.{Session, Hub}
use zmqcat.Hub.Leases.{track_inflight, claim_inflight, track_rep_ack, drop_rep_ack, close_session}
use zmqcat.Hub.Jobs.{reply, give_up, settle, job_frame, job_sent, job_held}
use zmqcat.Hub.Giving.{close_session-inflight}

ack-inflight : (e : Env) (id : Text) (b : Bus) → lookup id (ack e id b).0.inflight ≡ none
unfolding ack persist
ack-inflight e id b = elim (Option-cases (lookup id b.inflight)) [
  | inl h ↦ rw (h, ack) h
  | inr (d, h) ↦ rw (h, ack) (ground (arith, lookup-erase id id b.inflight, text_eq_refl id))
]

mem_text-snoc : (id : Text) (ids : List Text) → mem_text id (ids ++ id ∷ []) ≡ true
unfolding mem_text
mem_text-snoc id [] = ground (arith, text_eq_refl id)
mem_text-snoc id (j ∷ ids) = ground (arith, mem_text-snoc id ids)

settle-inflight :
    (e : Env) (id : Text) (s : Session) (h : Hub)
    → s.closed ≡ false
    → lookup id (settle e id s h).1.bus.inflight ≡ none
unfolding settle claim_inflight
settle-inflight e id s h running = rw running (ack-inflight e id h.bus)

give_up-closed :
    (e : Env) (id : Text) (s : Session) (h : Hub) → s.closed ≡ true → (give_up e id s h).1 ≡ h
unfolding give_up claim_inflight
give_up-closed e id s h ended = rw ended refl

close_session-closed :
    (es : Text → Env) (s : Session) (h : Hub) → (close_session es s h).0.closed ≡ true
unfolding close_session
close_session-closed es s h = ground arith

-- The session as it waits for the frame to be written.
tracked : Bool → Frame → Delivery → Session → Session
unfolding job_frame track_inflight track_rep_ack
tracked keep f d s =
    let out = job_frame keep f d in
    let s' = track_inflight d.id s in if keep then track_rep_ack out.id d.id s' else s'

tracked-closed :
    (keep : Bool) (f : Frame) (d : Delivery) (s : Session) → (tracked keep f d s).closed ≡ s.closed
unfolding tracked
tracked-closed keep f d s = ground arith

tracked-inflight :
    (keep : Bool) (f : Frame) (d : Delivery) (s : Session)
    → (tracked keep f d s).inflight ≡ s.inflight ++ d.id ∷ []
unfolding tracked
tracked-inflight keep f d s = ground arith

reply-closed :
    (es : Text → Env) (works : Bool) (s : Session) (h : Hub)
    → s.closed ≡ true
    → reply es works s h ≡ (s, h, false)
unfolding reply
reply-closed es works s h ended = rw ended refl

reply-works :
    (es : Text → Env) (s : Session) (h : Hub) → s.closed ≡ false → reply es true s h ≡ (s, h, true)
unfolding reply
reply-works es s h running = rw running refl

reply-fails :
    (es : Text → Env) (s : Session) (h : Hub)
    → s.closed ≡ false
    → reply es false s h ≡ ((close_session es s h).0, (close_session es s h).1, false)
unfolding reply
reply-fails es s h running = rw running refl

job_held-reply :
    (es : Text → Env) (e : Env) (keep works : Bool) (f : Frame) (d : Delivery) (s : Session)
    (h : Hub)
    → job_held es e keep works f d s h
      ≡ job_sent e keep (job_frame keep f d) d (reply es works (tracked keep f d s) h)
unfolding job_held tracked
job_held-reply es e keep works f d s h = refl

-- A session that had closed before it got its job changes nothing: the lease stays.
job_held-closed :
    (es : Text → Env) (e : Env) (keep works : Bool) (f : Frame) (d : Delivery) (s : Session)
    (h : Hub)
    → s.closed ≡ true
    → (job_held es e keep works f d s h).1 ≡ h
unfolding job_sent drop_rep_ack
job_held-closed es e keep works f d s h ended =
    let out = job_frame keep f d in
    let s' = tracked keep f d s in
    let ended' : s'.closed ≡ true = tracked-closed keep f d s ∙ ended in
    ap (λ r. r.1) (job_held-reply es e keep works f d s h)
    ∙ ap (λ r. (job_sent e keep out d r).1) (reply-closed es works s' h ended')
    ∙ give_up-closed e d.id (drop_rep_ack out.id s') h ended'

running_job :
    (es : Text → Env) (e : Env) (keep works : Bool) (f : Frame) (d : Delivery) (s : Session)
    (h : Hub)
    → s.closed ≡ false
    → lookup d.id (job_held es e keep works f d s h).1.bus.inflight
      ≡ (if works && keep then lookup d.id h.bus.inflight else none)
unfolding job_sent drop_rep_ack
running_job es e keep works f d s h running =
    let s' = tracked keep f d s in
    ap (λ r. lookup d.id r.1.bus.inflight) (job_held-reply es e keep works f d s h)
    ∙ go works keep s' (tracked-closed keep f d s ∙ running) (tracked-inflight keep f d s)
  where
    out : Frame
    out = job_frame keep f d

    go :
        (works keep : Bool) (s' : Session)
        → s'.closed ≡ false
        → s'.inflight ≡ s.inflight ++ d.id ∷ []
        → lookup d.id (job_sent e keep out d (reply es works s' h)).1.bus.inflight
          ≡ (if works && keep then lookup d.id h.bus.inflight else none)
    go true true s' c i =
        ap (λ r. lookup d.id (job_sent e true out d r).1.bus.inflight) (reply-works es s' h c)
    go true false s' c i =
        ap (λ r. lookup d.id (job_sent e false out d r).1.bus.inflight) (reply-works es s' h c)
        ∙ settle-inflight e d.id s' h c
    go false keep s' c i =
        let (s'', h') = close_session es s' h in
        ap (λ r. lookup d.id (job_sent e keep out d r).1.bus.inflight) (reply-fails es s' h c)
        ∙ ap (λ h. lookup d.id h.bus.inflight)
            (give_up-closed e d.id (drop_rep_ack out.id s'') h' (close_session-closed es s' h))
        ∙ close_session-inflight es s' h d.id c
        ∙ ap (λ b. if b then none else lookup d.id h.bus.inflight)
            (ap (mem_text d.id) i ∙ mem_text-snoc d.id s.inflight)

-- The lease of a job that a session takes goes on if the frame is written and the job is one to
-- keep, and else it has ended. But a session that closed before it got the job leaves the lease as
-- it was.
pub job_held-inflight :
    (es : Text → Env) (e : Env) (keep works : Bool) (f : Frame) (d : Delivery) (s : Session)
    (h : Hub)
    → lookup d.id (job_held es e keep works f d s h).1.bus.inflight
      ≡ (if s.closed || (works && keep) then lookup d.id h.bus.inflight else none)
job_held-inflight es e keep works f d s h = elim (Bool-cases s.closed) [
  | inl c ↦
      ap (λ h. lookup d.id h.bus.inflight) (job_held-closed es e keep works f d s h c)
      ∙ ap (λ b. if b || (works && keep) then lookup d.id h.bus.inflight else none) (sym c)
  | inr c ↦
      running_job es e keep works f d s h c
      ∙ ap (λ b. if b || (works && keep) then lookup d.id h.bus.inflight else none) (sym c)
]

give_up-keeps_closed :
    (e : Env) (id : Text) (s : Session) (h : Hub)
    → s.closed ≡ true
    → (give_up e id s h).0.closed ≡ true
unfolding give_up claim_inflight
give_up-keeps_closed e id s h ended = ground (arith, ended)

close_session-again :
    (es : Text → Env) (s : Session) (h : Hub) → s.closed ≡ true → (close_session es s h).1 ≡ h
unfolding close_session
close_session-again es s h ended = ground (arith, ended)

-- A session that closed before its job came leaves the lease to run out: neither the attempt to
-- write the job gives it back, nor does closing the session, now or again.
pub job_held-abandons :
    (es es' : Text → Env) (e : Env) (keep works : Bool) (f : Frame) (d : Delivery) (s : Session)
    (h : Hub)
    → s.closed ≡ true
    → let r : Session × Hub = job_held es e keep works f d s h in (close_session es' r.0 r.1).1 ≡ h
unfolding job_sent drop_rep_ack
job_held-abandons es es' e keep works f d s h ended =
    let out = job_frame keep f d in
    let s' = tracked keep f d s in
    let ended' : s'.closed ≡ true = tracked-closed keep f d s ∙ ended in
    let r : Session × Hub = job_held es e keep works f d s h in
    let still : r.0.closed ≡ true =
      ap (λ r. r.0.closed) (job_held-reply es e keep works f d s h)
      ∙ ap (λ r. (job_sent e keep out d r).0.closed) (reply-closed es works s' h ended')
      ∙ give_up-keeps_closed e d.id (drop_rep_ack out.id s') h ended' in
    close_session-again es' r.0 r.1 still ∙ job_held-closed es e keep works f d s h ended
