-- ===== src/Hub/Jobs.antt =====
-- internal/hub/hub.go: `takeJob` and `reserveJob`, from the moment that they have a message.
use zmqcat.Base.{◌/◌, ◌^◌, Bool, true, false, Text, is_empty, if◌then◌else◌}
use zmqcat.Base.Int.{pos}
use zmqcat.Wire.{Frame}
use zmqcat.Mailbox.Defs.{Env, Msg, Delivery, ok, err}
use zmqcat.Mailbox.Queues.{requeue}
use zmqcat.Mailbox.Leases.{hold, ack, nack}
use zmqcat.Hub.{Session, Hub}
use zmqcat.Hub.Ids.{msg_frame, take_lease}
use zmqcat.Hub.Leases.{track_inflight, claim_inflight, track_rep_ack, drop_rep_ack, close_session}

-- `reply`, where `works` is whether the frame can be written: a session closes at the first that
-- cannot. The last component is whether the frame was written.
unfoldable pub reply : (Text → Env) → Bool → Session → Hub → Session × Hub × Bool
reply es works s h =
    let (s', h') = close_session es s h in
    if s.closed then (s, h, false) else if works then (s, h, true) else (s', h', false)

-- A job whose frame could not be written is given back, unless the session is closed.
unfoldable pub give_up : Env → Text → Session → Hub → Session × Hub
give_up e id s h =
    let (s', claimed) = claim_inflight id s in
    if claimed then (s', record h { bus = (nack e id h.bus).0 }) else (s', h)

-- A job that is not kept is acknowledged once it is written.
unfoldable pub settle : Env → Text → Session → Hub → Session × Hub
settle e id s h =
    let (s', claimed) = claim_inflight id s in
    if claimed then (s', record h { bus = (ack e id h.bus).0 }) else (s', h)

unfoldable pub job_frame : Bool → Frame → Delivery → Frame
job_frame keep f d =
    let out = msg_frame d.msg.id d.msg in
    let out' : Frame = record out { id = if is_empty out.id then f.id else out.id } in
    if keep then record out' { delivery = d.id; lease = pos (d.expires / 10 ^ 9) } else out'

unfoldable pub job_sent : Env → Bool → Frame → Delivery → Session × Hub × Bool → Session × Hub
unfolding give_up settle
job_sent e keep out d (s, h, sent) =
    if sent
    then if keep then (s, h) else settle e d.id s h
    else give_up e d.id (drop_rep_ack out.id s) h

unfoldable pub job_held :
    (Text → Env) → Env → Bool → Bool → Frame → Delivery → Session → Hub → Session × Hub
unfolding reply job_frame job_sent
job_held es e keep works f d s h =
    let out = job_frame keep f d in
    let s' = track_inflight d.id s in
    let s'' = if keep then track_rep_ack out.id d.id s' else s' in
    job_sent e keep out d (reply es works s'' h)

-- `takeJob` after `Take`: the message is leased, or put back.
unfoldable pub take_job :
    (Text → Env) → Env → Env → Bool → Bool → Frame → Msg → Session → Hub → Session × Hub
unfolding job_held reply
take_job es e e' keep works f m s h =
    let (b, r) = hold e m (pos (take_lease h)) h.bus in
    elim r [
      | ok d ↦ job_held es e' keep works f d s (record h { bus = b })
      | err x ↦
          let (s', h', sent) = reply es works s (record h { bus = (requeue e' m b).0 }) in (s', h')
    ]

unfoldable pub reserve_frame : Frame → Delivery → Frame
reserve_frame f d = record (msg_frame f.id d.msg) {
  delivery = d.id;
  lease = pos (d.expires / 10 ^ 9);
}

-- `reserveJob` after `Reserve`.
unfoldable pub reserve_job : (Text → Env) → Env → Bool → Delivery → Session → Hub → Session × Hub
unfolding reply give_up
reserve_job es e works d s h =
    let (s', h', sent) = reply es works (track_inflight d.id s) h in
    if sent then (s', h') else give_up e d.id s' h'
