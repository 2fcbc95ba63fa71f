-- ===== src/Node/Accepting.antt =====
-- node.go: the loops that accept connections, and the pairs of connections that are spliced.
use zmqcat.Base.{
  ℕ, ◌+◌, ◌%◌, ◌^◌, ◌≡◌, ◌<◌, Bool, Option, none, some, List, [], ◌∷◌, ◌++◌, map, Text, arith,
  length, if◌then◌else◌,
}
use zmqcat.Node.{mailbox_port}
use zmqcat.Hub.Serving.{Server, connect}
use zmqcat.Hub.Running.{Steps, here, next, connects}

-- The loop of each accept function: what `Accept` returns one after the other, up to the first
-- error.
unfoldable pub before_error {ℓ} : {A : Type ℓ} → List (Option A) → List A
before_error [] = []
before_error (none ∷ cs) = []
before_error (some c ∷ cs) = c ∷ before_error cs

-- Each connection, with its time and its address, gets a session.
unfoldable pub serve_each : List (ℕ × Text) → Server → Server
unfolding connect
serve_each [] srv = srv
serve_each ((now, remote) ∷ cs) srv = serve_each cs (connect now remote srv)

unfoldable pub accept_hub : List (Option (ℕ × Text)) → Server → Server
unfolding before_error serve_each
accept_hub cs srv = serve_each (before_error cs) srv

-- The two ends of a splice: the one that was accepted, and the one that is dialed.
pub data End : Type 0 where
  near far : End

-- What is done for an accepted connection.
pub data Deed : Type 0 where
  dials : ℕ → Deed
  -- the start of each of the two copies; one of them has come to its end
  copies : End → End → Deed
  one_ends : Deed
  logs : Deed
  closes : End → Deed

unfoldable pub splice : End → End → List Deed
splice a b = copies a b ∷ copies b a ∷ one_ends ∷ []

-- `spliceDial`, where the port of the server is reached or not.
unfoldable pub splice_dial : Bool → ℕ → List Deed
unfolding splice
splice_dial reaches port =
    if reaches
    then dials port ∷ splice near far ++ closes far ∷ closes near ∷ []
    else dials port ∷ logs ∷ closes near ∷ []

-- The handler of `forwardLocal`, which dials the port of this machine.
unfoldable pub forward_local : Bool → ℕ → List Deed
unfolding splice
forward_local reaches port =
    if reaches
    then dials port ∷ splice near far ++ closes far ∷ closes near ∷ []
    else dials port ∷ logs ∷ closes near ∷ []

-- Of each accepted connection, whether the port is reached.
unfoldable pub accept_forward : List (Option Bool) → ℕ → List (List Deed)
unfolding before_error splice_dial
accept_forward cs port = map (λ reaches. splice_dial reaches port) (before_error cs)

unfoldable pub accept_proxy : List (Option Bool) → List (List Deed)
unfolding accept_forward
accept_proxy cs = accept_forward cs mailbox_port

-- The sessions of an accept loop, which has accepted fewer than 2^64 connections, are those of a run
-- of the hub.
serve_each-Steps :
    (cs : List (ℕ × Text)) {srv srv' : Server}
    → srv'.sids + length cs < 2 ^ 64
    → Steps srv srv'
    → Steps srv (serve_each cs srv')
unfolding serve_each
serve_each-Steps [] h r = r
serve_each-Steps ((now, remote) ∷ cs) {srv' = srv'} h r =
    let same : (srv'.sids + 1) % 2 ^ 64 ≡ srv'.sids + 1 = omega arith in
    serve_each-Steps cs (omega (arith, same)) (next r (connects now remote (omega arith)))

pub accept_hub-Steps :
    (cs : List (Option (ℕ × Text))) (srv : Server)
    → srv.sids + length (before_error cs) < 2 ^ 64
    → Steps srv (accept_hub cs srv)
unfolding accept_hub
accept_hub-Steps cs srv h = serve_each-Steps (before_error cs) h here
