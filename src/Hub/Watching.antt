-- ===== src/Hub/Watching.antt =====
-- internal/hub/hub.go: what `heartbeat` does to a session, and `pumpSub`.
use zmqcat.Base.{
  ℕ, zero, suc, ◌+◌, ◌-◌, ◌*◌, ◌%◌, ◌^◌, ◌<◌, ◌≡◌, refl, ap, ap₂, ◌∙◌, Bool, true, false, not, ◌&&◌,
  ◌||◌, List, [], ◌∷◌, ◌++◌, map, Text, arith, leb, ◌==◌, if◌then◌else◌,
}
use zmqcat.Base.Int.{ℤ, pos, negsuc, difference, int64, at_least}
use zmqcat.Wire.{Frame}
use zmqcat.Mailbox.Defs.{Env, Msg}
use zmqcat.Hub.{Session, Hub}
use zmqcat.Hub.Ids.{death, msg_frame, or_default, default_heartbeat}
use zmqcat.Hub.Leases.{close_session}
use zmqcat.Hub.Jobs.{reply}
use zmqcat.Hub.Serving.{keeps, pings, dies, idle_for, beat_of, beat, tick, pump_sub}

close_session-closed :
    (es : Text → Env) (s : Session) (h : Hub) → (close_session es s h).0.closed ≡ true
unfolding close_session
close_session-closed es s h = ground arith

closed-close_session :
    (es : Text → Env) (s : Session) (h : Hub) → s.closed ≡ true → close_session es s h ≡ (s, h)
unfolding close_session
closed-close_session es s h shut = rw shut refl

reply-open :
    (es : Text → Env) (works : Bool) (s : Session) (h : Hub)
    → s.closed ≡ false
    → let a = close_session es s h in
      reply es works s h ≡ (if works then (s, h, true) else (a.0, a.1, false))
unfolding reply
reply-open es works s h running = rw running refl

-- What `heartbeat` does after a ping.
abbrev after_ping : (Text → Env) → Session × Hub × Bool → Session × Hub
after_ping es (s, h, sent) = if sent then (s, h) else close_session es s h

beat-pings :
    (es : Text → Env) (works : Bool) (s : Session) (h : Hub)
    → s.closed ≡ false
    → beat es works pings s h ≡ (if works then (s, h) else close_session es s h)
unfolding beat
beat-pings es true s h running = ap (after_ping es) (reply-open es true s h running)
beat-pings es false s h running =
    let a = close_session es s h in
    ap (after_ping es) (reply-open es false s h running)
    ∙ closed-close_session es a.0 a.1 (close_session-closed es s h)

-- What a tick finds by the silence, and by the silence that it closes at.
beat-by :
    (es : Text → Env) (works over quiet : Bool) (s : Session) (h : Hub)
    → s.closed ≡ false
    → beat es works (if over then dies else if quiet then pings else keeps) s h
      ≡ (if over || quiet && not works then close_session es s h else (s, h))
unfolding beat
beat-by es works true quiet s h running = refl
beat-by es true false true s h running = beat-pings es true s h running
beat-by es false false true s h running = beat-pings es false s h running
beat-by es works false false s h running = refl

-- The number of intervals after which a session is given up: `Liveness`, or three.
abbrev pub intervals : ℤ → ℕ
intervals (pos zero) = 3
intervals (pos (suc n)) = suc n
intervals (negsuc n) = 3

or_default-intervals : (t : ℤ) → or_default 3 t ≡ intervals t
unfolding or_default
or_default-intervals (pos zero) = refl
or_default-intervals (pos (suc n)) = refl
or_default-intervals (negsuc n) = refl

int64-small : (n : ℕ) → n < 2 ^ 63 → int64 n ≡ pos n
unfolding int64
int64-small n h = let small : n % 2 ^ 64 ≡ n = omega arith in ground (arith, small)

death-intervals :
    (h : Hub) (iv : ℕ)
    → h.heartbeat ≡ pos (suc iv)
    → suc iv * intervals h.liveness < 2 ^ 63
    → death h ≡ pos (suc iv * intervals h.liveness)
unfolding death or_default
death-intervals h iv beats small =
    ap (λ t. int64 (or_default default_heartbeat t * or_default 3 h.liveness)) beats
    ∙ ap (λ n. int64 (suc iv * n)) (or_default-intervals h.liveness)
    ∙ int64-small (suc iv * intervals h.liveness) small

idle-silence :
    (now silence : ℕ) (s : Session)
    → 0 < s.last_seen
    → now ≡ s.last_seen + silence
    → idle_for now s ≡ pos silence
unfolding idle_for difference
idle-silence now silence s seen e =
    let same : now - s.last_seen ≡ silence = omega arith in ground (arith, same)

-- What a tick does by the interval of the heartbeat.
abbrev by_interval : (Text → Env) → Bool → ℕ → Session → Hub → ℤ → Session × Hub
by_interval es works now s h (negsuc n) = (s, h)
by_interval es works now s h (pos iv) =
    if iv == 0 || s.closed then (s, h) else beat es works (beat_of h iv (idle_for now s)) s h

tick-beat :
    (es : Text → Env) (works : Bool) (now iv : ℕ) (s : Session) (h : Hub)
    → s.closed ≡ false
    → h.heartbeat ≡ pos (suc iv)
    → tick es works now s h ≡ (
        if at_least (idle_for now s) (death h)
          || at_least (idle_for now s) (pos (suc iv)) && not works
        then close_session es s h
        else (s, h))
unfolding tick beat_of
tick-beat es works now iv s h running beats =
    let runs : (suc iv == 0 || s.closed) ≡ false = ground arith in
    ap (by_interval es works now s h) beats
    ∙ ap (λ c. if c then (s, h) else beat es works (beat_of h (suc iv) (idle_for now s)) s h) runs
    ∙ beat-by es works (at_least (idle_for now s) (death h))
        (at_least (idle_for now s) (pos (suc iv))) s h running

-- A tick of the heartbeat, whose interval is `iv + 1`, at which a session is open and nothing has
-- come from it for the time `silence`: the session is closed where the silence has lasted
-- `Liveness` intervals (three, where that is not a positive number), or one interval and a ping
-- cannot be written; and else nothing changes. The product of the interval and `Liveness` is less
-- than 2^63, and the session was seen at a time that is not zero.
pub tick_lem :
    (es : Text → Env) (works : Bool) (now iv silence : ℕ) (s : Session) (h : Hub)
    → s.closed ≡ false
    → h.heartbeat ≡ pos (suc iv)
    → suc iv * intervals h.liveness < 2 ^ 63
    → 0 < s.last_seen
    → now ≡ s.last_seen + silence
    → tick es works now s h ≡ (
        if leb (suc iv * intervals h.liveness) silence || leb (suc iv) silence && not works
        then close_session es s h
        else (s, h))
unfolding at_least
tick_lem es works now iv silence s h running beats small seen e =
    tick-beat es works now iv s h running beats
    ∙ ap₂
        (λ i d.
          if at_least i d || at_least i (pos (suc iv)) && not works
          then close_session es s h
          else (s, h))
        (idle-silence now silence s seen e) (death-intervals h iv beats small)

-- Where the product has overflowed to a negative number, the first tick closes the session.
pub tick-overflow :
    (es : Text → Env) (works : Bool) (now iv silence n : ℕ) (s : Session) (h : Hub)
    → s.closed ≡ false
    → h.heartbeat ≡ pos (suc iv)
    → death h ≡ negsuc n
    → 0 < s.last_seen
    → now ≡ s.last_seen + silence
    → tick es works now s h ≡ close_session es s h
unfolding at_least
tick-overflow es works now iv silence n s h running beats over seen e =
    tick-beat es works now iv s h running beats
    ∙ ap₂
        (λ i d.
          if at_least i d || at_least i (pos (suc iv)) && not works
          then close_session es s h
          else (s, h))
        (idle-silence now silence s seen e) over

-- What `pumpSub` does after a write.
abbrev after_write :
    (Text → Env) → Msg → List (Msg × Bool) → Session × Hub × Bool → Session × Hub × List Frame
after_write es m ms (s, h, sent) =
    let (s', h', out) = pump_sub es ms s h in
    if sent then (s', h', msg_frame [] m ∷ out) else (s, h, [])

-- The messages of a channel reach the connection in their order, up to the first that cannot be
-- written, with which the session closes.
pub pump_sub-failed :
    (es : Text → Env) (ms : List Msg) (m : Msg) (rest : List (Msg × Bool)) (s : Session) (h : Hub)
    → s.closed ≡ false
    → let a = close_session es s h in
      pump_sub es (map (λ x. (x, true)) ms ++ (m, false) ∷ rest) s h
      ≡ (a.0, a.1, map (msg_frame []) ms)
unfolding pump_sub
pump_sub-failed es [] m rest s h running =
    ap (after_write es m rest) (reply-open es false s h running)
pump_sub-failed es (x ∷ ms) m rest s h running =
    let ms' = map (λ y. (y, true)) ms ++ (m, false) ∷ rest in
    ap (after_write es x ms') (reply-open es true s h running)
    ∙ ap (λ a. (a.0, a.1, msg_frame [] x ∷ a.2)) (pump_sub-failed es ms m rest s h running)
