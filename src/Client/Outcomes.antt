-- ===== src/Client/Outcomes.antt =====
-- client.go: how a round trip and a `Request` may end.
use zmqcat.Base.{
  ℕ, zero, suc, ◌+◌, ◌≡◌, ◌≤◌, ◌++◌, refl, sym, subst, codes, true, false, Bool-cases, if_elim, inl,
  inr, Option, none, some, Text, arith, text_eq, if◌then◌else◌,
}
use zmqcat.Base.Int.{ℤ, pos, negsuc}
use zmqcat.Wire.{Json, Frame, Sink, Error, write}
use zmqcat.Wire.Op.{err_op}
use zmqcat.Client.{
  Client, Link, Failure, io, out_of_step, falls_out_of_step, remote, abandoned, unfinished, Reply,
  got, fails, next_id, with_id, exchange, round_trip,
}
use zmqcat.Client.Calls.{
  checked, about, attempt, attempts_or_three, is_desync, request, request_frame,
}
use zmqcat.Client.Reading.{IsSettled, read_skip_ping-IsSettled}
use zmqcat.Client.Trips.{after_write}
use zmqcat.Client.Attempts.{
  IsAttempted, FailsWith, of_connection, of_hub, IsOutOfStep, Tried, untried, tried, Last, last,
  IsRequested, replied, gave_up,
}

-- The outcomes of a round trip: what a read may hand out, or that the session was out of step.
abbrev pub IsTripped : Reply → Type 0
IsTripped (fails out_of_step) = Unit
IsTripped r = IsSettled r

IsSettled→IsTripped : (r : Reply) → IsSettled r → IsTripped r
IsSettled→IsTripped (got f) h = h
IsSettled→IsTripped (fails (io e)) h = tt
IsSettled→IsTripped (fails (falls_out_of_step e)) h = tt
IsSettled→IsTripped (fails out_of_step) h = tt
IsSettled→IsTripped (fails (remote a b)) h = absurd h
IsSettled→IsTripped (fails (abandoned a b)) h = absurd h
IsSettled→IsTripped (fails unfinished) h = absurd h

module _ (json : Json) (link : Link) (req : Frame) (c : Client) where
  exchange-IsSettled : IsSettled (exchange json link req c).1
  unfolding exchange after_write
  exchange-IsSettled = go (write json req (record { out = c.out; room = link.room }))
    where
      go : (x : Sink × Option Error) → IsSettled (after_write json link c x).1
      go (w, none) = read_skip_ping-IsSettled json link w.room (record c { out = w.out })
      go (w, some e) = tt

module _ (json : Json) (link : Link) (req : Frame) (c : Client) where
  round_trip-IsTripped : IsTripped (round_trip json link req c).1
  unfolding round_trip
  round_trip-IsTripped =
      if_elim (λ (a : Client × Reply). IsTripped a.1) c.desync (λ _. tt)
        λ _.
          IsSettled→IsTripped _
            (exchange-IsSettled json link (with_id link req c).1 (with_id link req c).0)

-- What a round trip makes of an attempt.
data Attempted (what : Text) (r : Reply) : Reply → Type 0 where
  succeeds :
      {f : Frame}
      → r ≡ got f
      → text_eq f.op (codes "err") ≡ false
      → text_eq f.op (codes "ping") ≡ false
      → Attempted what r (got f)
  breaks : {x : Failure} → FailsWith what r x → IsAttempted x → Attempted what r (fails x)

checked-Attempted :
    (what : Text) (c : Client) (r : Reply) → IsTripped r → Attempted what r (checked what (c, r)).1
unfolding checked
checked-Attempted what c (got f) h = elim (Bool-cases (text_eq f.op err_op)) [
  | inl e ↦ rw e (breaks (of_hub f e) tt)
  | inr e ↦ rw e (succeeds refl e h)
]
checked-Attempted what c (fails (io e)) h = breaks (of_connection (io e)) tt
checked-Attempted what c (fails out_of_step) h = breaks (of_connection out_of_step) tt
checked-Attempted what c (fails (falls_out_of_step e)) h =
    breaks (of_connection (falls_out_of_step e)) tt
checked-Attempted what c (fails (remote a b)) h = absurd h
checked-Attempted what c (fails (abandoned a b)) h = absurd h
checked-Attempted what c (fails unfinished) h = absurd h

checked-client : (what : Text) (a : Client × Reply) → (checked what a).0 ≡ a.0
unfolding checked
checked-client what (c, got f) = ground arith
checked-client what (c, fails x) = refl

desync-IsOutOfStep : (x : Failure) → is_desync x ≡ true → IsOutOfStep x
desync-IsOutOfStep out_of_step h = tt
desync-IsOutOfStep (falls_out_of_step e) h = tt
desync-IsOutOfStep (io e) h = cc
desync-IsOutOfStep (remote a b) h = cc
desync-IsOutOfStep (abandoned a b) h = cc
desync-IsOutOfStep unfinished h = cc

in_step-IsOutOfStep : (x : Failure) → is_desync x ≡ false → ¬ IsOutOfStep x
in_step-IsOutOfStep out_of_step h o = cc
in_step-IsOutOfStep (falls_out_of_step e) h o = cc
in_step-IsOutOfStep (io e) h o = o
in_step-IsOutOfStep (remote a b) h o = o
in_step-IsOutOfStep (abandoned a b) h o = o
in_step-IsOutOfStep unfinished h o = o

module _ (json : Json) (links : ℕ → Link) (req : Frame) (c₀ : Client) where
  abbrev what : Text
  what = codes "req " ++ req.name

  attempt-IsRequested :
      (n m i : ℕ) (x : Failure) (c : Client)
      → i + n ≡ m
      → 1 ≤ m
      → Tried json links req c₀ i c
      → (1 ≤ i → Last json links req c₀ i x)
      → IsRequested json links req c₀ m (attempt json links req n i x c).1
  unfolding attempt about
  attempt-IsRequested zero m i x c h one t l =
      gave_up (omega arith) (inl (omega arith)) (l (omega arith))
  attempt-IsRequested (suc n) m i x c h one t l =
      let rt = round_trip json (links i) req c in
      go (checked what rt) (checked-client what rt)
        (checked-Attempted what rt.0 rt.1 (round_trip-IsTripped json (links i) req c))
        (λ y p q o.
          attempt-IsRequested n m (i + 1) y rt.0 (omega arith) one
            (subst (λ k. Tried json links req c₀ k rt.0) (omega arith) (tried y t p o))
            (λ _. subst (λ k. Last json links req c₀ k y) (omega arith) (last t p q)))
    where
      go :
          (a : Client × Reply)
          → a.0 ≡ (round_trip json (links i) req c).0
          → Attempted what (round_trip json (links i) req c).1 a.1
          → ((y : Failure)
              → FailsWith what (round_trip json (links i) req c).1 y
              → IsAttempted y
              → ¬ IsOutOfStep y
              → IsRequested json links req c₀ m
                  (attempt json links req n (i + 1) y (round_trip json (links i) req c).0).1)
          → let o : Client × Reply = elim a.1 [
            | got f ↦ (a.0, got f)
            | fails y ↦
                if is_desync y
                then (a.0, fails (abandoned (i + 1) y))
                else attempt json links req n (i + 1) y a.0
          ] in
            IsRequested json links req c₀ m o.1
      go (c', got f) same (succeeds p q r) rest = replied (omega arith) t p q r
      go (c', fails y) same (breaks p q) rest = elim (Bool-cases (is_desync y)) [
        | inl e ↦ rw e (
            gave_up (omega arith) (inr (desync-IsOutOfStep y e))
              (subst (λ k. Last json links req c₀ k y) (omega arith) (last t p q)))
        | inr e ↦ rw e (
            subst (λ d. IsRequested json links req c₀ m (attempt json links req n (i + 1) y d).1)
              (sym same) (rest y p q (in_step-IsOutOfStep y e)))
      ]

attempts_or_three_pos : (a : ℤ) → 1 ≤ attempts_or_three a
attempts_or_three_pos (pos zero) = omega arith
attempts_or_three_pos (pos (suc n)) = omega arith
attempts_or_three_pos (negsuc n) = omega arith

-- `Request` ends, after at most as many attempts as were asked for (three, where that is not a
-- positive number). Its result is the frame that an attempt has got, which is neither an error nor a
-- ping, and all attempts before it have failed; or it is abandoned with the number of attempts that
-- were made and with the error of the last of them: as many attempts as were asked for, or fewer
-- where the last one finds the session out of step.
pub request-IsRequested :
    (json : Json) (links : ℕ → Link) (name text body : Text) (attempts : ℤ) (c : Client)
    → let a = next_id (links 0) c in
      IsRequested json links
        (request_frame c.name name text body a.1)
        a.0
        (attempts_or_three attempts)
        (request json links name text body attempts c).1
unfolding request
request-IsRequested json links name text body attempts c =
    let (c', id) = next_id (links 0) c in
    let n = attempts_or_three attempts in
    attempt-IsRequested json links (request_frame c.name name text body id) c' n n 0 unfinished c'
      (omega arith) (attempts_or_three_pos attempts) untried (λ h. absurd (omega arith))
