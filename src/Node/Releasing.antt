-- ===== src/Node/Releasing.antt =====
-- node.go: what `Serve` and `Join` acquire is released again.
use zmqcat.Base.{
  ℕ, ◌+◌, ◌≡◌, refl, Option, none, some, List, [], ◌∷◌, ◌++◌, Text, arith, count-append, is_empty,
  if_elim,
}
use zmqcat.Addr
use zmqcat.Addr.{Opened, open_at, not_open}
use zmqcat.Mailbox.Defs.{Bus, Result, ok, err}
use zmqcat.Node.{
  Config, Closer, listener, server, client, forward_listener, removes_socket, Action, acquires,
  accepts_proxy, accepts_forward, Fault, World, Node, add_closer, close_node, server_fault,
  client_fault, forward_fault,
}
use zmqcat.Node.Starting.{
  Outcome, running, stopped, make_bus, with_bus, new_local, start_server, serve, forward_each,
  joined_node, join_opened, join, after_listen, removed, listen_or_default, local_node,
}
use zmqcat.Node.Closing.{
  acquired, released, held, is_acquire, is_release, same, acquired-close_all, released-close_all,
}

-- Everything that was done, with `Close` at the end where a node runs.
abbrev pub ended : World → List Action × Outcome → List Action
ended w (done, running n) = done ++ (close_node w n).1
ended w (done, stopped x) = done

-- Of a thing of which `k` were held, as many were acquired as are released again or held by the
-- node.
abbrev IsBalanced : Closer → ℕ → List Action × Outcome → Type 0
IsBalanced c k (done, running n) = acquired c done + k ≡ released c done + held c n.closers
IsBalanced c k (done, stopped x) = acquired c done + k ≡ released c done

module _ (w : World) (c : Closer) where
  acquired-close_node : (n : Node) → acquired c (close_node w n).1 ≡ 0
  unfolding close_node
  acquired-close_node n = acquired-close_all w n.listen c n.closers

  released-close_node : (n : Node) → released c (close_node w n).1 ≡ held c n.closers
  unfolding close_node
  released-close_node n = released-close_all w n.listen c n.closers

  acquired-append : (xs ys : List Action) → acquired c (xs ++ ys) ≡ acquired c xs + acquired c ys
  acquired-append xs ys = count-append (is_acquire c) xs ys

  released-append : (xs ys : List Action) → released c (xs ++ ys) ≡ released c xs + released c ys
  released-append xs ys = count-append (is_release c) xs ys

  IsBalanced→ended :
      (a : List Action × Outcome)
      → IsBalanced c 0 a
      → acquired c (ended w a) ≡ released c (ended w a)
  IsBalanced→ended (done, running n) h = omega (
    arith,
    h,
    acquired-append done (close_node w n).1,
    released-append done (close_node w n).1,
    acquired-close_node n,
    released-close_node n,
  )
  IsBalanced→ended (done, stopped x) h = omega (arith, h)

  -- Actions that come first.
  IsBalanced-append :
      (done : List Action) (j k : ℕ) (a : List Action × Outcome)
      → acquired c done + j ≡ released c done + k
      → IsBalanced c k a
      → IsBalanced c j (done ++ a.0, a.1)
  IsBalanced-append done j k (more, running n) h h' =
      omega (arith, h, h', acquired-append done more, released-append done more)
  IsBalanced-append done j k (more, stopped x) h h' =
      omega (arith, h, h', acquired-append done more, released-append done more)

  removed-IsBalanced :
      (path : Option Text) → acquired c (removed path) + 0 ≡ released c (removed path) + 0
  removed-IsBalanced none = refl
  removed-IsBalanced (some path) = refl

  -- A start that fails closes the node.
  close_node-IsBalanced :
      (n : Node) (x : Fault) → IsBalanced c (held c n.closers) ((close_node w n).1, stopped x)
  close_node-IsBalanced n x = omega (arith, acquired-close_node n, released-close_node n)

  with_bus-IsBalanced :
      (cfg : Config) (listen : Text) (r : Result Bus)
      → IsBalanced c (held c (listener ∷ [])) (with_bus cfg listen r)
  unfolding with_bus local_node
  with_bus-IsBalanced cfg listen (err x) = omega arith
  with_bus-IsBalanced cfg listen (ok bus) = omega arith

  after_listen-IsBalanced :
      (x : Option Text × Opened) (rest : List Action × Outcome)
      → IsBalanced c (held c (listener ∷ [])) rest
      → IsBalanced c 0 (after_listen x rest)
  unfolding after_listen
  after_listen-IsBalanced (none, not_open x) rest h = refl
  after_listen-IsBalanced (some p, not_open x) rest h = refl
  after_listen-IsBalanced (stale, open_at n a) (done, running node) h =
      IsBalanced-append (removed stale) 0 0 (acquires listener ∷ done, running node)
        (removed-IsBalanced stale) (omega (arith, h))
  after_listen-IsBalanced (stale, open_at n a) (done, stopped x) h =
      IsBalanced-append (removed stale) 0 0 (acquires listener ∷ done, stopped x)
        (removed-IsBalanced stale) (omega (arith, h))

  new_local-IsBalanced : (cfg : Config) → IsBalanced c 0 (new_local w cfg)
  unfolding new_local
  new_local-IsBalanced cfg =
      let listen = listen_or_default w cfg.listen in
      after_listen-IsBalanced (Addr.listen w.sockets listen) (with_bus cfg listen (make_bus w cfg))
        (with_bus-IsBalanced cfg listen (make_bus w cfg))

  held-add_closer :
      (d : Closer) (n : Node) → held c (add_closer d n).closers ≡ held c n.closers + held c (d ∷ [])
  unfolding add_closer
  held-add_closer d n = count-append (λ x. same x c) n.closers (d ∷ [])

  start_server-IsBalanced :
      (cfg : Config) (n : Node) → IsBalanced c (held c n.closers) (start_server w cfg (running n))
  unfolding start_server
  start_server-IsBalanced cfg n =
      if_elim (IsBalanced c (held c n.closers)) cfg.local_only (λ _. omega arith)
        λ _.
          if_elim (IsBalanced c (held c n.closers)) w.starts
            (λ _. omega (arith, held-add_closer server (record n { token = w.blob })))
            (λ _. close_node-IsBalanced n server_fault)

  serve_from-IsBalanced :
      (cfg : Config) (a : List Action × Outcome)
      → IsBalanced c 0 a
      → IsBalanced c 0 (a.0 ++ (start_server w cfg a.1).0, (start_server w cfg a.1).1)
  unfolding start_server
  serve_from-IsBalanced cfg (done, running n) h =
      IsBalanced-append done 0 (held c n.closers) (start_server w cfg (running n)) h
        (start_server-IsBalanced cfg n)
  serve_from-IsBalanced cfg (done, stopped x) h =
      IsBalanced-append done 0 0 ([], stopped x) (omega (arith, h)) refl

  forward_each-IsBalanced :
      (ports : List ℕ) (n : Node) → IsBalanced c (held c n.closers) (forward_each w ports n)
  unfolding forward_each
  forward_each-IsBalanced [] n = omega arith
  forward_each-IsBalanced (p ∷ ports) n =
      let n' = add_closer (forward_listener p) n in
      if_elim (IsBalanced c (held c n.closers)) (w.forwards p)
        (λ _.
          IsBalanced-append (acquires (forward_listener p) ∷ accepts_forward p ∷ [])
            (held c n.closers) (held c n'.closers) (forward_each w ports n')
            (omega (arith, held-add_closer (forward_listener p) n))
            (forward_each-IsBalanced ports n'))
        (λ _. close_node-IsBalanced n (forward_fault p))

  join_opened-IsBalanced :
      (cfg : Config) (listen token : Text)
      → IsBalanced c (held c (listener ∷ [])) (join_opened w cfg listen token)
  unfolding join_opened joined_node
  join_opened-IsBalanced cfg listen token =
      let n = joined_node cfg listen token in
      let acquired' = acquires removes_socket ∷ acquires client ∷ [] in
      if_elim (IsBalanced c (held c (listener ∷ []))) w.reaches
        (λ _.
          IsBalanced-append (acquired' ++ accepts_proxy ∷ []) (held c (listener ∷ []))
            (held c n.closers) (forward_each w cfg.forward_ports n) (omega arith)
            (forward_each-IsBalanced cfg.forward_ports n))
        (λ _.
          IsBalanced-append acquired' (held c (listener ∷ [])) (held c n.closers)
            ((close_node w n).1, stopped client_fault) (omega arith)
            (close_node-IsBalanced n client_fault))

  -- `Serve` releases what it acquires: where it fails, before it returns, and where a node runs, when
  -- that is closed. Of each listener, of Tailcat's server and of the hub, as many are acquired as
  -- are released.
  pub serve_releases :
      (cfg : Config) → acquired c (ended w (serve w cfg)) ≡ released c (ended w (serve w cfg))
  unfolding serve
  serve_releases cfg =
      IsBalanced→ended (serve w cfg)
        (serve_from-IsBalanced cfg (new_local w cfg) (new_local-IsBalanced cfg))

  -- `Join` releases what it acquires: where it fails, at whichever step, before it returns, and where
  -- a node runs, when that is closed.
  pub join_releases :
      (cfg : Config) (token : Text)
      → acquired c (ended w (join w cfg token)) ≡ released c (ended w (join w cfg token))
  unfolding join
  join_releases cfg token =
      let listen = listen_or_default w cfg.listen in
      IsBalanced→ended (join w cfg token) (
        if_elim (IsBalanced c 0) (is_empty token) (λ _. refl)
          λ _.
            if_elim (IsBalanced c 0) cfg.local_only (λ _. refl)
              λ _.
                after_listen-IsBalanced (Addr.listen w.sockets listen)
                  (join_opened w cfg listen token) (join_opened-IsBalanced cfg listen token))
