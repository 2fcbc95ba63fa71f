-- ===== src/Client/Attempts.antt =====
-- client.go: how the attempts of a `Request` may end.
use zmqcat.Base.{ℕ, suc, ◌≡◌, ◌≤◌, ◌<◌, ◌⊎◌, ◌++◌, true, false, Text, codes, text_eq}
use zmqcat.Wire.{Json, Frame}
use zmqcat.Client.{
  Client, Link, Failure, io, out_of_step, falls_out_of_step, remote, abandoned, Reply, got, fails,
  round_trip,
}

-- An error of one attempt.
abbrev pub IsAttempted : Failure → Type 0
IsAttempted (io e) = Unit
IsAttempted out_of_step = Unit
IsAttempted (falls_out_of_step e) = Unit
IsAttempted (remote what text) = Unit
IsAttempted _ = ⊥

-- The error of a call that got this reply: the connection's, or what an `err` frame says.
pub data FailsWith (what : Text) : Reply → Failure → Type 0 where
  of_connection : (x : Failure) → FailsWith what (fails x) x
  of_hub :
      (f : Frame) → text_eq f.op (codes "err") ≡ true → FailsWith what (got f) (remote what f.error)

abbrev pub IsOutOfStep : Failure → Type 0
IsOutOfStep out_of_step = Unit
IsOutOfStep (falls_out_of_step e) = Unit
IsOutOfStep _ = ⊥

-- The client `c'` after `i` round trips, the first with the client `c`, each of which has failed,
-- but not since the session was out of step.
pub data Tried (json : Json) (links : ℕ → Link) (req : Frame) (c : Client)
    : ℕ → Client → Type 0 where
  untried : Tried json links req c 0 c
  tried :
      {i : ℕ} {c' : Client} (x : Failure)
      → Tried json links req c i c'
      → FailsWith (codes "req " ++ req.name) (round_trip json (links i) req c').1 x
      → ¬ IsOutOfStep x
      → Tried json links req c (suc i) (round_trip json (links i) req c').0

-- The last of `k` attempts has failed with the error.
pub data Last (json : Json) (links : ℕ → Link) (req : Frame) (c : Client)
    : ℕ → Failure → Type 0 where
  last :
      {i : ℕ} {c' : Client} {x : Failure}
      → Tried json links req c i c'
      → FailsWith (codes "req " ++ req.name) (round_trip json (links i) req c').1 x
      → IsAttempted x
      → Last json links req c (suc i) x

-- The outcomes of a request of `n` attempts.
pub data IsRequested (json : Json) (links : ℕ → Link) (req : Frame) (c : Client) (n : ℕ)
    : Reply → Type 0 where
  -- An attempt gets a frame that is neither a ping nor an error.
  replied :
      {i : ℕ} {c' : Client} {f : Frame}
      → i < n
      → Tried json links req c i c'
      → (round_trip json (links i) req c').1 ≡ got f
      → text_eq f.op (codes "err") ≡ false
      → text_eq f.op (codes "ping") ≡ false
      → IsRequested json links req c n (got f)
  -- All attempts fail, or one finds the session out of step.
  gave_up :
      {k : ℕ} {x : Failure}
      → k ≤ n
      → (k ≡ n) ⊎ IsOutOfStep x
      → Last json links req c k x
      → IsRequested json links req c n (fails (abandoned k x))
