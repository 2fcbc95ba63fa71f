-- ===== src/Hub/Keeping.antt =====
-- internal/hub/hub.go: what a session does leaves it its number, the index of the bus exact, and the
-- requests those of the hub's sessions.
use zmqcat.Base.{
  ℕ, ◌≡◌, ◌∙◌, Bool, ◌||◌, Option, none, some, Text, arith, ◌==◌, if◌then◌else◌, if_elim,
}
use zmqcat.Base.Dict.{lookup}
use zmqcat.Base.Int.{ℤ, pos, negsuc}
use zmqcat.Wire.{Frame}
use zmqcat.Mailbox.Defs.{Bus, Env, Msg, Delivery, Result, ok, err}
use zmqcat.Mailbox.Queues.{requeue}
use zmqcat.Mailbox.Leases.{hold}
use zmqcat.Mailbox.Dedup.{IsIndexed}
use zmqcat.Mailbox.Dedup.Keeps.{Section-IsIndexed}
use zmqcat.Mailbox.Moves
use zmqcat.Mailbox.Moves.{Section}
use zmqcat.Hub.{Session, Hub}
use zmqcat.Hub.Ids.{take_lease}
use zmqcat.Hub.Leases.{track_inflight, claim_inflight, track_rep_ack, drop_rep_ack, close_session}
use zmqcat.Hub.Jobs.{reply, give_up, settle, job_frame, job_sent, job_held, take_job, reserve_job}
use zmqcat.Hub.Giving.{close_session-IsIndexed}
use zmqcat.Hub.Scoped.{AreOwned, close_session-AreOwned}
use zmqcat.Hub.Serving.{answer, Beat, beat_of, beat, idle_for, tick}

-- A hub whose index is exact and whose requests are those of its first `n` sessions.
pub record IsFine (n : ℕ) (h : Hub) : Type 0 where
  pub indexed : IsIndexed h.bus
  pub owned : AreOwned n h.pending

-- What one session leaves: it has its number still, and the hub is fine.
abbrev pub Keeps : ℕ → ℕ → Session × Hub → Type 0
Keeps n sid (s, h) = (s.sid ≡ sid) × IsFine n h

abbrev pub KeepsSent : ℕ → ℕ → Session × Hub × Bool → Type 0
KeepsSent n sid (s, h, sent) = Keeps n sid (s, h)

claim_inflight-sid : (id : Text) (s : Session) → (claim_inflight id s).0.sid ≡ s.sid
unfolding claim_inflight
claim_inflight-sid id s = ground arith

tracked-sid :
    (keep : Bool) (msg_id id : Text) (s : Session)
    → (if keep then track_rep_ack msg_id id (track_inflight id s) else track_inflight id s).sid
      ≡ s.sid
unfolding track_rep_ack track_inflight
tracked-sid keep msg_id id s = ground arith

close_session-sid : (es : Text → Env) (s : Session) (h : Hub) → (close_session es s h).0.sid ≡ s.sid
unfolding close_session
close_session-sid es s h = ground arith

module _ (n sid : ℕ) where
  pub close_session-Keeps :
      (es : Text → Env) (s : Session) (h : Hub)
      → Keeps n sid (s, h)
      → Keeps n sid (close_session es s h)
  close_session-Keeps es s h (e, v) = (
    close_session-sid es s h ∙ e,
    record {
      indexed = close_session-IsIndexed es s h v.indexed;
      owned = close_session-AreOwned n es s h v.owned;
    },
  )

  pub reply-Keeps :
      (es : Text → Env) (works : Bool) (s : Session) (h : Hub)
      → Keeps n sid (s, h)
      → KeepsSent n sid (reply es works s h)
  unfolding reply
  reply-Keeps es works s h v =
      if_elim (KeepsSent n sid) s.closed (λ _. v)
        λ _. if_elim (KeepsSent n sid) works (λ _. v) (λ _. close_session-Keeps es s h v)

  give_up-Keeps :
      (e : Env) (id : Text) (s : Session) (h : Hub)
      → Keeps n sid (s, h)
      → Keeps n sid (give_up e id s h)
  unfolding give_up
  give_up-Keeps e id s h (x, v) =
      if_elim (Keeps n sid) (claim_inflight id s).1
        (λ _. (
          claim_inflight-sid id s ∙ x,
          record {
            indexed = Section-IsIndexed (Moves.nacks {b = h.bus} e id) v.indexed;
            owned = v.owned;
          },
        ))
        (λ _. (claim_inflight-sid id s ∙ x, v))

  settle-Keeps :
      (e : Env) (id : Text) (s : Session) (h : Hub)
      → Keeps n sid (s, h)
      → Keeps n sid (settle e id s h)
  unfolding settle
  settle-Keeps e id s h (x, v) =
      if_elim (Keeps n sid) (claim_inflight id s).1
        (λ _. (
          claim_inflight-sid id s ∙ x,
          record {
            indexed = Section-IsIndexed (Moves.acks {b = h.bus} e id) v.indexed;
            owned = v.owned;
          },
        ))
        (λ _. (claim_inflight-sid id s ∙ x, v))

  job_sent-Keeps :
      (e : Env) (keep : Bool) (out : Frame) (d : Delivery) (a : Session × Hub × Bool)
      → KeepsSent n sid a
      → Keeps n sid (job_sent e keep out d a)
  unfolding job_sent drop_rep_ack
  job_sent-Keeps e keep out d (s, h, sent) v =
      if_elim (Keeps n sid) sent
        (λ _. if_elim (Keeps n sid) keep (λ _. v) (λ _. settle-Keeps e d.id s h v))
        (λ _. give_up-Keeps e d.id (drop_rep_ack out.id s) h v)

  job_held-Keeps :
      (es : Text → Env) (e : Env) (keep works : Bool) (f : Frame) (d : Delivery) (s : Session)
      (h : Hub)
      → Keeps n sid (s, h)
      → Keeps n sid (job_held es e keep works f d s h)
  unfolding job_held
  job_held-Keeps es e keep works f d s h (x, v) =
      let out = job_frame keep f d in
      let s' = track_inflight d.id s in
      let s'' = if keep then track_rep_ack out.id d.id s' else s' in
      job_sent-Keeps e keep out d (reply es works s'' h)
        (reply-Keeps es works s'' h (tracked-sid keep out.id d.id s ∙ x, v))

  pub take_job-Keeps :
      (es : Text → Env) (e e' : Env) (keep works : Bool) (f : Frame) (m : Msg) (s : Session)
      (h : Hub)
      → lookup e.fresh h.bus.inflight ≡ none
      → Keeps n sid (s, h)
      → Keeps n sid (take_job es e e' keep works f m s h)
  unfolding take_job
  take_job-Keeps es e e' keep works f m s h new (x, v) =
      go (hold e m (pos (take_lease h)) h.bus)
        (Section-IsIndexed (Moves.holds {b = h.bus} e m (pos (take_lease h)) new) v.indexed)
    where
      go :
          (a : Bus × Result Delivery)
          → IsIndexed a.0
          → Keeps n sid (elim a.1 [
            | ok d ↦ job_held es e' keep works f d s (record h { bus = a.0 })
            | err y ↦ (
              (reply es works s (record h { bus = (requeue e' m a.0).0 })).0,
              (reply es works s (record h { bus = (requeue e' m a.0).0 })).1,
            )
          ])
      go (b, ok d) i =
          job_held-Keeps es e' keep works f d s (record h { bus = b })
            (x, record { indexed = i; owned = v.owned })
      go (b, err y) i =
          reply-Keeps es works s (record h { bus = (requeue e' m b).0 })
            (
              x,
              record {
                indexed = Section-IsIndexed (Moves.requeues {b = b} e' m) i;
                owned = v.owned;
              },
            )

  pub reserve_job-Keeps :
      (es : Text → Env) (e : Env) (works : Bool) (d : Delivery) (s : Session) (h : Hub)
      → Keeps n sid (s, h)
      → Keeps n sid (reserve_job es e works d s h)
  unfolding reserve_job track_inflight
  reserve_job-Keeps es e works d s h v =
      let a = reply es works (track_inflight d.id s) h in
      let k = reply-Keeps es works (track_inflight d.id s) h v in
      if_elim (Keeps n sid) a.2 (λ _. k) (λ _. give_up-Keeps e d.id a.0 a.1 k)

  beat-Keeps :
      (es : Text → Env) (works : Bool) (b : Beat) (s : Session) (h : Hub)
      → Keeps n sid (s, h)
      → Keeps n sid (beat es works b s h)
  unfolding beat
  beat-Keeps es works Beat.keeps s h v = v
  beat-Keeps es works Beat.dies s h v = close_session-Keeps es s h v
  beat-Keeps es works Beat.pings s h v =
      let a = reply es works s h in
      let k = reply-Keeps es works s h v in
      if_elim (Keeps n sid) a.2 (λ _. k) (λ _. close_session-Keeps es a.0 a.1 k)

  pub tick-Keeps :
      (es : Text → Env) (works : Bool) (now : ℕ) (s : Session) (h : Hub)
      → Keeps n sid (s, h)
      → Keeps n sid (tick es works now s h)
  unfolding tick
  tick-Keeps es works now s h v = go h.heartbeat
    where
      go :
          (t : ℤ)
          → Keeps n sid (elim t [
            | negsuc k ↦ (s, h)
            | pos iv ↦
                if iv == 0 || s.closed
                then (s, h)
                else beat es works (beat_of h iv (idle_for now s)) s h
          ])
      go (negsuc k) = v
      go (pos iv) =
          if_elim (Keeps n sid) (iv == 0 || s.closed) (λ _. v)
            (λ _. beat-Keeps es works (beat_of h iv (idle_for now s)) s h v)

  pub answer-Keeps :
      (es : Text → Env) (works : Bool) (o : Option Frame) (s : Session) (h : Hub)
      → Keeps n sid (s, h)
      → KeepsSent n sid (answer es works o s h)
  unfolding answer
  answer-Keeps es works none s h v = v
  answer-Keeps es works (some out) s h v = reply-Keeps es works s h v
