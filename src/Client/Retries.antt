-- ===== src/Client/Retries.antt =====
-- client.go: `Request` finds a reply that comes in time, and sends one request in every attempt.
use zmqcat.Base.{
  ℕ, zero, suc, ◌+◌, ◌-◌, ◌≡◌, ◌<◌, ◌≤◌, refl, sym, ap, ◌∙◌, false, [], ◌∷◌, ◌++◌, Text, append-nil,
  append_assoc, codes, is_empty, ap₂, arith, length, text_eq, if◌then◌else◌,
}
use zmqcat.Base.Int.{ℤ}
use zmqcat.Wire.{Json, Frame, Error, header, max_body, with_version}
use zmqcat.Wire.Op.{ping_op, err_op, req_op}
use zmqcat.Wire.RoundTrip.{Plain}
use zmqcat.Client.{
  Client, Link, Failure, io, abandoned, unfinished, Reply, got, fails, next_id, with_id, exchange,
  round_trip, read_skip_ping,
}
use zmqcat.Client.Calls.{
  checked, about, attempt, attempts_or_three, is_desync, request, request_frame,
}
use zmqcat.Client.Steps.{
  no_pings, frame_bytes, read_skip_ping-append, read_skip_ping-take, with_version-op,
}
use zmqcat.Client.Trips.{Fits, in_step, exchange_writes}

-- Some bytes, as often as the number says.
abbrev pub copies : ℕ → Text → Text
copies zero t = []
copies (suc n) t = t ++ copies n t

-- A session that is in step and has nothing to read.
pub record IsIdle (c : Client) : Type 0 where
  pub in_step : c.desync ≡ false
  pub all_read : c.unread ≡ []

with_id_same :
    (link : Link) (req : Frame) (c : Client)
    → is_empty req.id ≡ false
    → with_id link req c ≡ (c, req)
unfolding with_id
with_id_same link req c h = rw h refl

checked-got :
    (what : Text) (c : Client) (f : Frame)
    → text_eq f.op err_op ≡ false
    → checked what (c, got f) ≡ (c, got f)
unfolding checked
checked-got what c f h = rw h refl

module _ (json : Json) (req : Frame) (raw : Text) (has_id : is_empty req.id ≡ false)
    (fits : Fits json req raw) where
  writes :
      (link : Link) (c : Client)
      → c.desync ≡ false
      → 8 + length raw ≤ link.room
      → round_trip json link req c
        ≡ read_skip_ping json link
            (link.room - 8 - length raw)
            (record c { out = c.out ++ frame_bytes raw })
  writes link c h room =
      in_step json link req c h
      ∙ ap (λ (x : Client × Frame). exchange json link x.1 x.0) (with_id_same link req c has_id)
      ∙ exchange_writes json link c req raw fits room
      ∙ ap (λ o. read_skip_ping json link (link.room - 8 - length raw) (record c { out = o }))
          (append_assoc c.out (header raw) raw)

  -- An attempt that nothing comes to.
  silent_trip :
      (link : Link) (c : Client)
      → IsIdle c
      → 8 + length raw ≤ link.room
      → link.arrives ≡ []
      → (e : Error) × (round_trip json link req c
          ≡ (record c { out = c.out ++ frame_bytes raw }, fails (io e)))
  silent_trip link c idle room nothing =
      let c' : Client = record c { out = c.out ++ frame_bytes raw } in
      let (e, same) =
        read_skip_ping-take json link (link.room - 8 - length raw) c' no_pings raw 0 fits.small
          (omega arith) (ap₂ ◌++◌ idle.all_read nothing) in
      (
        e,
        writes link c idle.in_step room
            ∙ same
            ∙ ap (λ u. (record c' { unread = u }, fails (io e))) (sym idle.all_read),
      )

  answered_trip :
      (link : Link) (c : Client) (f : Frame) (p : Plain json f) (rest : Text)
      → IsIdle c
      → 8 + length raw ≤ link.room
      → length p.raw ≤ max_body
      → text_eq f.op ping_op ≡ false
      → link.arrives ≡ frame_bytes p.raw ++ rest
      → round_trip json link req c
        ≡ (record c { out = c.out ++ frame_bytes raw; unread = rest }, got (with_version f))
  answered_trip link c f p rest idle room small other bytes =
      writes link c idle.in_step room
      ∙ read_skip_ping-append json link (link.room - 8 - length raw)
          (record c { out = c.out ++ frame_bytes raw }) no_pings f p rest small other
          (ap (λ u. u ++ link.arrives) idle.all_read ∙ bytes)

  module _ (links : ℕ → Link) where
    abbrev after_checked : ℕ → ℕ → Client × Reply → Client × Reply
    after_checked n i (c', r) = elim r [
      | got f ↦ (c', got f)
      | fails x ↦
          if is_desync x
          then (c', fails (abandoned (i + 1) x))
          else attempt json links req n (i + 1) x c'
    ]

    abbrev after_trip : ℕ → ℕ → Client × Reply → Client × Reply
    after_trip n i a = after_checked n i (checked (about req_op req.name) a)

    attempt_steps :
        (n i : ℕ) (last : Failure) (c : Client)
        → attempt json links req (suc n) i last c ≡ after_trip n i (round_trip json (links i) req c)
    unfolding attempt
    attempt_steps n i last c = refl

    after_trip-got :
        (n i : ℕ) (c : Client) (f : Frame)
        → text_eq f.op err_op ≡ false
        → after_trip n i (c, got f) ≡ (c, got f)
    after_trip-got n i c f h = ap (after_checked n i) (checked-got (about req_op req.name) c f h)

    -- The attempts up to the one, number `k`, that is answered.
    module _ (k : ℕ) (f : Frame) (p : Plain json f) (rest : Text)
        (rooms : (j : ℕ) → j ≤ k → 8 + length raw ≤ (links j).room)
        (silent : (j : ℕ) → j < k → (links j).arrives ≡ [])
        (bytes : (links k).arrives ≡ frame_bytes p.raw ++ rest) (small : length p.raw ≤ max_body)
        (other : text_eq f.op ping_op ≡ false) (fine : text_eq f.op err_op ≡ false) where
      attempt_answered :
          (d n i : ℕ) (last : Failure) (c : Client)
          → i + d ≡ k
          → d < n
          → IsIdle c
          → attempt json links req n i last c ≡ (
            record c { out = c.out ++ copies (suc d) (frame_bytes raw); unread = rest },
            got (with_version f),
          )
      unfolding checked
      attempt_answered d zero i last c e lt idle = absurd (omega arith)
      attempt_answered zero (suc n) i last c e lt idle =
          let here : i ≡ k = omega arith in
          attempt_steps n i last c
          ∙ ap (after_trip n i) (
              answered_trip (links i) c f p rest idle (rooms i (omega arith)) small other
                (ap (λ j. (links j).arrives) here ∙ bytes))
          ∙ after_trip-got n i (record c { out = c.out ++ frame_bytes raw; unread = rest })
              (with_version f) (with_version-op f err_op ∙ fine)
          ∙ ap (λ o. (record c { out = c.out ++ o; unread = rest }, got (with_version f)))
              (sym (append-nil (frame_bytes raw)))
      attempt_answered (suc d) (suc n) i last c e lt idle =
          let (x, same) =
            silent_trip (links i) c idle (rooms i (omega arith)) (silent i (omega arith)) in
          let c' : Client = record c { out = c.out ++ frame_bytes raw } in
          attempt_steps n i last c
          ∙ ap (after_trip n i) same
          ∙ attempt_answered d n (i + 1) (io x) c' (omega arith) (omega arith)
              (record { in_step = idle.in_step; all_read = idle.all_read })
          ∙ ap (λ o. (record c { out = o; unread = rest }, got (with_version f)))
              (append_assoc c.out (frame_bytes raw) (copies (suc d) (frame_bytes raw)))

next_id-IsIdle : (link : Link) (c : Client) → IsIdle c → IsIdle (next_id link c).0
unfolding next_id
next_id-IsIdle link c idle = record { in_step = idle.in_step; all_read = idle.all_read }

has_dash : (xs ys : Text) → is_empty (xs ++ codes "-" ++ ys) ≡ false
has_dash [] ys = refl
has_dash (x ∷ xs) ys = refl

has_id_lem : (link : Link) (c : Client) → is_empty (next_id link c).1 ≡ false
unfolding next_id
has_id_lem link c = has_dash _ _

next_id_keeps : (link : Link) (c : Client) → (next_id link c).0.out ≡ c.out
unfolding next_id
next_id_keeps link c = refl

-- `Request` returns the reply that comes in its attempt number `k`, counted from 0 and within the
-- attempts, where nothing came before, and it has sent the same bytes in each of the attempts: the
-- same request with the same id. The session was in step with nothing to read, each connection
-- takes the request, the reply is no ping and no error, and JSON keeps both within the limit.
pub request-answered :
    (json : Json) (links : ℕ → Link) (name text body : Text) (attempts : ℤ) (c : Client)
    (raw : Text) (k : ℕ) (f : Frame) (p : Plain json f) (rest : Text)
    → k < attempts_or_three attempts
    → IsIdle c
    → Fits json (request_frame c.name name text body (next_id (links 0) c).1) raw
    → ((j : ℕ) → j ≤ k → 8 + length raw ≤ (links j).room)
    → ((j : ℕ) → j < k → (links j).arrives ≡ [])
    → (links k).arrives ≡ frame_bytes p.raw ++ rest
    → length p.raw ≤ max_body
    → text_eq f.op ping_op ≡ false
    → text_eq f.op err_op ≡ false
    → ((request json links name text body attempts c).1 ≡ got (with_version f))
      × ((request json links name text body attempts c).0.out
          ≡ c.out ++ copies (suc k) (frame_bytes raw))
      × ((request json links name text body attempts c).0.unread ≡ rest)
unfolding request
request-answered json links name text body attempts c raw k f p rest lt idle fits rooms silent bytes
      small other fine =
    let (c', id) = next_id (links 0) c in
    let same =
      attempt_answered json (request_frame c.name name text body id) raw (has_id_lem (links 0) c)
        fits links k f p rest rooms silent bytes small other fine k (attempts_or_three attempts) 0
        unfinished c' (omega arith) lt (next_id-IsIdle (links 0) c idle) in
    (
      ap (λ a. a.1) same,
      ap (λ a. a.0.out) same
          ∙ ap (λ o. o ++ copies (suc k) (frame_bytes raw)) (next_id_keeps (links 0) c),
      ap (λ a. a.0.unread) same,
    )
