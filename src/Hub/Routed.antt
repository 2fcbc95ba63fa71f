-- ===== src/Hub/Routed.antt =====
-- internal/hub/hub.go: in every run of a hub, a reply finds the session that asked.
use zmqcat.Base.{
  ℕ, ◌≡◌, ◌≤◌, refl, ap₂, subst, ◌∙◌, Bool, true, false, Option, none, some, [], ◌∷◌, Text, arith,
  text_eq, text_eq_iff, if◌then◌else◌, Bool-cases, inl, inr,
}
use zmqcat.Base.Dict.{Dict, lookup}
use zmqcat.Wire.{Frame}
use zmqcat.Mailbox.Defs.{Bus, Env}
use zmqcat.Mailbox.Dedup.{IsIndexed}
use zmqcat.Hub.{Session, PendingReq}
use zmqcat.Hub.Ids.{scoped_id}
use zmqcat.Hub.Leases.{take_rep_ack}
use zmqcat.Hub.Requests.{rep, acknowledge, addressed, rep_frame}
use zmqcat.Hub.Scoped.{IsOwned, AreOwned}
use zmqcat.Hub.Serving.{Server}
use zmqcat.Hub.Running.{Steps}
use zmqcat.Hub.Sound.{started, run-IsSound}

lookup-AreOwned :
    (n : ℕ) (k : Text) (d : Dict PendingReq) (p : PendingReq)
    → AreOwned n d
    → lookup k d ≡ some p
    → IsOwned n k p
unfolding lookup
lookup-AreOwned n k [] p v h = cc
lookup-AreOwned n k ((j, q) ∷ d) p v h = elim (Bool-cases (text_eq j k)) [
  | inl e ↦
      let same : q ≡ p = ground (arith, e, h) in
      let key : j ≡ k = (text_eq_iff j k).0 e in
      subst (λ x. IsOwned n x p) key (subst (IsOwned n j) same v.0)
  | inr e ↦ lookup-AreOwned n k d p v.1 (ground (arith, e, h))
]

addressed-IsOwned :
    (n : ℕ) (s : Session) (f : Frame) (o : Option PendingReq) (sid : ℕ) (out : Frame)
    → ((p : PendingReq) → o ≡ some p → IsOwned n f.id p)
    → addressed s f o ≡ some (sid, out)
    → (f.id ≡ scoped_id sid out.id) × (sid ≤ n)
unfolding addressed rep_frame
addressed-IsOwned n s f none sid out own h = cc
addressed-IsOwned n s f (some p) sid out own h =
    let o = own p refl in
    let same : p.s ≡ sid = ground (arith, h) in
    let id : p.client_id ≡ out.id = ground (arith, h) in
    (o.scoped ∙ ap₂ scoped_id same id, omega (arith, o.known, same))

-- In every such run, a reply of a worker is routed only to the session, of those that the hub has had,
-- that gave the request the id which the worker repeats, and it bears the id that this session's
-- client chose.
pub Steps-rep :
    (bus : Bus) {srv : Server} (e : Env) (confirmed : Bool) (s : Session) (f : Frame) (sid : ℕ)
    (out : Frame)
    → IsIndexed bus
    → Steps (started bus) srv
    → (rep e confirmed s f srv.hub).2 ≡ some (sid, out)
    → (f.id ≡ scoped_id sid out.id) × (sid ≤ srv.sids)
unfolding rep
Steps-rep bus {srv} e confirmed s f sid out v r h =
    let sound = run-IsSound bus v r in
    go confirmed h (λ p. lookup-AreOwned srv.sids f.id srv.hub.pending p sound.fine.owned)
  where
    s'' : Session
    s'' = (acknowledge e (take_rep_ack f.id s).1 (take_rep_ack f.id s).0 srv.hub.bus).0

    go :
        (c : Bool)
        → (if c then addressed s'' f (lookup f.id srv.hub.pending) else none) ≡ some (sid, out)
        → ((p : PendingReq) → lookup f.id srv.hub.pending ≡ some p → IsOwned srv.sids f.id p)
        → (f.id ≡ scoped_id sid out.id) × (sid ≤ srv.sids)
    go true h own = addressed-IsOwned srv.sids s'' f (lookup f.id srv.hub.pending) sid out own h
    go false h own = cc
