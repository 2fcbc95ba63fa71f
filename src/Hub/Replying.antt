-- ===== src/Hub/Replying.antt =====
-- internal/hub/hub.go: replies that reach nobody.
use zmqcat.Base.{
  ℕ, ◌≡◌, ◌≢◌, refl, sym, ap, ◌∙◌, Bool, true, false, Option, none, some, [], ◌∷◌, Text, arith,
  text_eq, text_eq_iff, if◌then◌else◌, Bool-cases, inl, inr, ◌==◌, ==_iff,
}
use zmqcat.Base.Dict.{Dict, lookup, erase, lookup-erase}
use zmqcat.Mailbox.Defs.{Env}
use zmqcat.Wire.{Frame}
use zmqcat.Hub.{Session, PendingReq, Hub}
use zmqcat.Hub.Requests.{rep, addressed, acknowledge}
use zmqcat.Hub.Leases.{or_empty, clear_pending, close_session}

unaddressed : (c : Bool) (s : Session) (g : Frame) → (if c then addressed s g none else none) ≡ none
unfolding addressed
unaddressed true s g = refl
unaddressed false s g = refl

-- A request is answered once: a second reply right after the first reaches nobody.
pub rep-rep :
    (e e' : Env) (c c' : Bool) (worker worker' : Session) (g g' : Frame) (h : Hub)
    → g'.id ≡ g.id
    → (rep e' c' worker' g' (rep e c worker g h).1).2 ≡ none
unfolding rep
rep-rep e e' c c' worker worker' g g' h same =
    let gone : lookup g'.id (erase g.id h.pending) ≡ none =
      ground (arith, lookup-erase g.id g'.id h.pending, text_eq_iff g.id g'.id, sym same) in
    let s' : Session =
      (acknowledge e' (or_empty (lookup g'.id worker'.rep_ack))
        (record worker' { rep_ack = erase g'.id worker'.rep_ack }) (rep e c worker g h).1.bus).0 in
    ap (λ o. if c' then addressed s' g' o else none) gone ∙ unaddressed c' s' g'

cleared :
    (sid : ℕ) (k : Text) (p : PendingReq) (pending : Dict PendingReq)
    → lookup k (clear_pending sid pending) ≡ some p
    → p.s ≢ sid
unfolding clear_pending lookup
cleared sid k p [] h = ground (arith, h)
cleared sid k p ((j, q) ∷ pending) h = elim (Bool-cases (q.s == sid)) [
  | inl e ↦ cleared sid k p pending (ground (arith, e, h))
  | inr e ↦ elim (Bool-cases (text_eq j k)) [
    | inl t ↦ ground (arith, e, t, h, ==_iff q.s sid)
    | inr t ↦ cleared sid k p pending (ground (arith, e, t, h))
  ]
]

asker :
    (c : Bool) (s : Session) (g : Frame) (o : Option PendingReq) (n : ℕ) (out : Frame)
    → (if c then addressed s g o else none) ≡ some (n, out)
    → (p : PendingReq) × (o ≡ some p) × (p.s ≡ n)
unfolding addressed
asker false s g o n out h = absurd (ground (arith, h))
asker true s g none n out h = absurd (ground (arith, h))
asker true s g (some p) n out h = (p, refl, ground (arith, h))

-- Once an open session has closed, a reply is not addressed to it, whatever its id.
pub rep-close_session :
    (es : Text → Env) (s : Session) (h : Hub) (e : Env) (c : Bool) (worker : Session) (g : Frame)
    (n : ℕ) (out : Frame)
    → s.closed ≡ false
    → (rep e c worker g (close_session es s h).1).2 ≡ some (n, out)
    → n ≢ s.sid
unfolding rep close_session
rep-close_session es s h e c worker g n out running sent =
    let h' : Hub = (close_session es s h).1 in
    let s' : Session =
      (acknowledge e (or_empty (lookup g.id worker.rep_ack))
        (record worker { rep_ack = erase g.id worker.rep_ack }) h'.bus).0 in
    let (p, found, same) = asker c s' g (lookup g.id h'.pending) n out sent in
    let pending : h'.pending ≡ clear_pending s.sid h.pending = ground (arith, running) in
    let other = cleared s.sid g.id p h.pending (ap (lookup g.id) (sym pending) ∙ found) in
    λ e. other (same ∙ e)
