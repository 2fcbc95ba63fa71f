-- ===== src/Node/Configuring.antt =====
-- node.go: what a configuration makes of the hub of a node.
use zmqcat.Base.{
  zero, suc, ◌≡◌, refl, ap, ◌∙◌, false, not, Option, none, some, List, [], ◌∷◌, Text, arith,
  is_empty, if_elim, ◌==◌, ◌*◌, ◌^◌, if◌then◌else◌,
}
use zmqcat.Base.Dict.{Dict}
use zmqcat.Base.Int.{ℤ, pos, negsuc}
use zmqcat.Addr
use zmqcat.Addr.{Opened, open_at, not_open}
use zmqcat.Mailbox.Defs.{Bus, Msg, Delivery, Contents, state, partial, Result, ok, err}
use zmqcat.Mailbox.Life.{
  index_all, load_boxes, load_inflight, load_file, open_persistent, new_with_limits,
}
use zmqcat.Hub.{Hub}
use zmqcat.Hub.Serving.{new_hub}
use zmqcat.Node.{Config, World, Action, add_closer}
use zmqcat.Node.Starting.{
  Outcome, running, stopped, make_bus, with_bus, after_listen, new_local, start_server, serve,
  local_node, with_heartbeat, listen_or_default,
}

-- Reading a state file back leaves the path.
index_all-path : (q : List Msg) (b : Bus) → (index_all q b).path ≡ b.path
unfolding index_all
index_all-path [] b = refl
index_all-path (m ∷ q) b = index_all-path q _

load_boxes-path : (boxes : Dict (List Msg)) (b : Bus) → (load_boxes boxes b).path ≡ b.path
unfolding load_boxes
load_boxes-path [] b = refl
load_boxes-path ((n, q) ∷ boxes) b = load_boxes-path boxes _ ∙ index_all-path q _

load_inflight-path : (inflight : Dict Delivery) (b : Bus) → (load_inflight inflight b).path ≡ b.path
unfolding load_inflight
load_inflight-path [] b = refl
load_inflight-path ((id, d) ∷ inflight) b = load_inflight-path inflight _

-- A bus that was made has the path that was asked for.
abbrev HasPath : Text → Result Bus → Type 0
HasPath path (ok b) = b.path ≡ path
HasPath path (err x) = Unit

load_file-HasPath : (contents : Option Contents) (b : Bus) → HasPath b.path (load_file contents b)
unfolding load_file
load_file-HasPath none b = refl
load_file-HasPath (some partial) b = tt
load_file-HasPath (some (state s)) b =
    load_inflight-path s.inflight (load_boxes s.boxes b) ∙ load_boxes-path s.boxes b

no_bytes : (xs : Text) → not (is_empty xs) ≡ false → [] ≡ xs
no_bytes [] h = refl
no_bytes (x ∷ xs) h = cc

make_bus-HasPath : (w : World) (cfg : Config) → HasPath cfg.mailbox_path (make_bus w cfg)
unfolding make_bus open_persistent new_with_limits
make_bus-HasPath w cfg =
    if_elim (HasPath cfg.mailbox_path) (not (is_empty cfg.mailbox_path))
      (λ _.
        if_elim (HasPath cfg.mailbox_path) w.readable (λ _. load_file-HasPath w.disk.file _)
          (λ _. tt))
      (λ e. no_bytes cfg.mailbox_path e)

-- The interval of the heartbeat; 0 is for none.
abbrev pub interval : ℤ → ℤ
interval (negsuc n) = pos 0
interval (pos n) = if n == 0 then pos (5 * 10 ^ 9) else pos n

with_heartbeat-interval :
    (t : ℤ) (bus : Bus) → (with_heartbeat t (new_hub bus)).heartbeat ≡ interval t
unfolding with_heartbeat new_hub
with_heartbeat-interval (negsuc n) bus = refl
with_heartbeat-interval (pos zero) bus = refl
with_heartbeat-interval (pos (suc n)) bus = ground arith

with_heartbeat-bus : (t : ℤ) (h : Hub) → (with_heartbeat t h).bus ≡ h.bus
unfolding with_heartbeat
with_heartbeat-bus (negsuc n) h = refl
with_heartbeat-bus (pos zero) h = refl
with_heartbeat-bus (pos (suc n)) h = refl

-- A node that runs has a hub of its own, with the interval and the state file that the
-- configuration names.
abbrev pub IsConfigured : Config → Outcome → Type 0
IsConfigured cfg (stopped x) = Unit
IsConfigured cfg (running n) =
    (h : Hub) × (n.hub ≡ some h)
    × (h.heartbeat ≡ interval cfg.heartbeat)
    × (h.bus.path ≡ cfg.mailbox_path)

with_bus-IsConfigured :
    (cfg : Config) (listen : Text) (r : Result Bus)
    → HasPath cfg.mailbox_path r
    → IsConfigured cfg (with_bus cfg listen r).1
unfolding with_bus local_node new_hub
with_bus-IsConfigured cfg listen (err x) h = tt
with_bus-IsConfigured cfg listen (ok bus) h = (
  with_heartbeat cfg.heartbeat (new_hub bus),
  refl,
  with_heartbeat-interval cfg.heartbeat bus,
  ap (λ b. b.path) (with_heartbeat-bus cfg.heartbeat (new_hub bus)) ∙ h,
)

after_listen-IsConfigured :
    (cfg : Config) (x : Option Text × Opened) (rest : List Action × Outcome)
    → IsConfigured cfg rest.1
    → IsConfigured cfg (after_listen x rest).1
unfolding after_listen
after_listen-IsConfigured cfg (stale, not_open x) rest h = tt
after_listen-IsConfigured cfg (stale, open_at n a) (done, o) h = h

start_server-IsConfigured :
    (w : World) (cfg : Config) (o : Outcome)
    → IsConfigured cfg o
    → IsConfigured cfg (start_server w cfg o).1
unfolding start_server add_closer
start_server-IsConfigured w cfg (stopped x) h = tt
start_server-IsConfigured w cfg (running n) h =
    if_elim (λ (a : List Action × Outcome). IsConfigured cfg a.1) cfg.local_only (λ _. h)
      λ _. if_elim (λ (a : List Action × Outcome). IsConfigured cfg a.1) w.starts (λ _. h) (λ _. tt)

-- A node that `Serve` starts has a hub whose state file is the one that the configuration names, and
-- none where it names none, also where the state was read back from that file; its heartbeat has
-- the interval that the configuration gives, five seconds where that is 0, and is off where it is
-- negative.
pub serve-IsConfigured : (w : World) (cfg : Config) → IsConfigured cfg (serve w cfg).1
unfolding serve new_local
serve-IsConfigured w cfg =
    let listen = listen_or_default w cfg.listen in
    start_server-IsConfigured w cfg (new_local w cfg).1 (
      after_listen-IsConfigured cfg (Addr.listen w.sockets listen)
        (with_bus cfg listen (make_bus w cfg))
        (with_bus-IsConfigured cfg listen (make_bus w cfg) (make_bus-HasPath w cfg)))
