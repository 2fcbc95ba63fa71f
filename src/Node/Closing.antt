-- ===== src/Node/Closing.antt =====
-- node.go: `Node.Close`.
use zmqcat.Base.{
  ℕ, ◌≡◌, ap₂, refl, sym, ap, ◌∙◌, Bool, true, false, Option, none, some, List, [], ◌∷◌, ◌++◌, Text,
  arith, count, count-append, ◌==◌, if◌then◌else◌,
}
use mathlib.Core.List.{reverse, reverse-cons}
use zmqcat.Addr.{Network, unix, tcp}
use zmqcat.Node.{
  Closer, listener, server, client, forward_listener, stops_hub, removes_socket, Action, acquires,
  releases, removes, accepts_hub, accepts_proxy, accepts_forward, Fault, World, Node, close_one,
  close_all, close_node, first_fault, close_fault, socket_file,
}

abbrev pub same : Closer → Closer → Bool
same listener listener = true
same server server = true
same client client = true
same (forward_listener p) (forward_listener q) = p == q
same stops_hub stops_hub = true
same removes_socket removes_socket = true
same _ _ = false

abbrev pub is_acquire : Closer → Action → Bool
is_acquire c (acquires d) = same d c
is_acquire c _ = false

abbrev pub is_release : Closer → Action → Bool
is_release c (releases d) = same d c
is_release c _ = false

-- How often something was acquired, and released.
abbrev pub acquired : Closer → List Action → ℕ
acquired c = count (is_acquire c)

abbrev pub released : Closer → List Action → ℕ
released c = count (is_release c)

abbrev pub held : Closer → List Closer → ℕ
held c = count (λ d. same d c)

-- The releases among some actions, in their order.
unfoldable pub order : List Action → List Closer
order [] = []
order (releases c ∷ as_) = c ∷ order as_
order (_ ∷ as_) = order as_

order-append : (xs ys : List Action) → order (xs ++ ys) ≡ order xs ++ order ys
unfolding order
order-append [] ys = refl
order-append (acquires c ∷ xs) ys = order-append xs ys
order-append (releases c ∷ xs) ys = ap (◌∷◌ c) (order-append xs ys)
order-append (removes p ∷ xs) ys = order-append xs ys
order-append (accepts_hub ∷ xs) ys = order-append xs ys
order-append (accepts_proxy ∷ xs) ys = order-append xs ys
order-append (accepts_forward p ∷ xs) ys = order-append xs ys

order-socket_file : (p : Option (Network × Text)) → order (socket_file p) ≡ []
unfolding order socket_file
order-socket_file none = refl
order-socket_file (some (unix, path)) = refl
order-socket_file (some (tcp, address)) = refl

-- Removing a file neither acquires nor releases.
acquired-socket_file : (c : Closer) (p : Option (Network × Text)) → acquired c (socket_file p) ≡ 0
unfolding socket_file
acquired-socket_file c none = refl
acquired-socket_file c (some (unix, path)) = omega arith
acquired-socket_file c (some (tcp, address)) = refl

released-socket_file : (c : Closer) (p : Option (Network × Text)) → released c (socket_file p) ≡ 0
unfolding socket_file
released-socket_file c none = refl
released-socket_file c (some (unix, path)) = omega arith
released-socket_file c (some (tcp, address)) = refl

-- The first of some closers whose `Close` fails; the functions have no error.
abbrev pub failure_of : World → Closer → Option Fault
failure_of w stops_hub = none
failure_of w removes_socket = none
failure_of w c = if w.close_fails c then some (close_fault c) else none

abbrev pub first_failure : World → List Closer → Option Fault
first_failure w [] = none
first_failure w (c ∷ cs) = first_fault (failure_of w c) (first_failure w cs)

first_failure-append :
    (w : World) (xs ys : List Closer)
    → first_failure w (xs ++ ys) ≡ first_fault (first_failure w xs) (first_failure w ys)
first_failure-append w [] ys = refl
first_failure-append w (x ∷ xs) ys =
    ap (first_fault (failure_of w x)) (first_failure-append w xs ys)
    ∙ first_fault_assoc (failure_of w x) (first_failure w xs) (first_failure w ys)
  where
    first_fault_assoc :
        (x y z : Option Fault) → first_fault x (first_fault y z) ≡ first_fault (first_fault x y) z
    first_fault_assoc none y z = refl
    first_fault_assoc (some x) y z = refl

first_fault-none : (x : Option Fault) → x ≡ first_fault x none
first_fault-none none = refl
first_fault-none (some x) = refl

module _ (w : World) (listen : Text) where
  order-close_one : (c : Closer) → order (close_one w listen c).0 ≡ c ∷ []
  unfolding order close_one
  order-close_one listener = refl
  order-close_one server = refl
  order-close_one client = refl
  order-close_one (forward_listener p) = refl
  order-close_one stops_hub = ap (◌∷◌ stops_hub) (order-socket_file _)
  order-close_one removes_socket = ap (◌∷◌ removes_socket) (order-socket_file _)

  order-close_all : (cs : List Closer) → order (close_all w listen cs).0 ≡ reverse cs
  unfolding order close_all
  order-close_all [] = refl
  order-close_all (c ∷ cs) =
      order-append (close_all w listen cs).0 (close_one w listen c).0
      ∙ ap₂ ◌++◌ (order-close_all cs) (order-close_one c)
      ∙ sym (reverse-cons c cs)

  close_one-failure : (c : Closer) → (close_one w listen c).1 ≡ failure_of w c
  unfolding close_one
  close_one-failure listener = refl
  close_one-failure server = refl
  close_one-failure client = refl
  close_one-failure (forward_listener p) = refl
  close_one-failure stops_hub = refl
  close_one-failure removes_socket = refl

  close_all-failure : (cs : List Closer) → (close_all w listen cs).1 ≡ first_failure w (reverse cs)
  unfolding close_all
  close_all-failure [] = refl
  close_all-failure (c ∷ cs) =
      ap₂ first_fault (close_all-failure cs)
        (close_one-failure c ∙ first_fault-none (failure_of w c))
      ∙ sym (first_failure-append w (reverse cs) (c ∷ []))
      ∙ ap (first_failure w) (sym (reverse-cons c cs))

  -- Closing acquires nothing, and releases each closer.
  acquired-close_one : (c d : Closer) → acquired c (close_one w listen d).0 ≡ 0
  unfolding close_one
  acquired-close_one c listener = omega arith
  acquired-close_one c server = omega arith
  acquired-close_one c client = omega arith
  acquired-close_one c (forward_listener p) = omega arith
  acquired-close_one c stops_hub = omega (arith, acquired-socket_file c _)
  acquired-close_one c removes_socket = omega (arith, acquired-socket_file c _)

  released-close_one :
      (c d : Closer) → released c (close_one w listen d).0 ≡ (if same d c then 1 else 0)
  unfolding close_one
  released-close_one c listener = omega arith
  released-close_one c server = omega arith
  released-close_one c client = omega arith
  released-close_one c (forward_listener p) = omega arith
  released-close_one c stops_hub = omega (arith, released-socket_file c _)
  released-close_one c removes_socket = omega (arith, released-socket_file c _)

  pub acquired-close_all :
      (c : Closer) (cs : List Closer) → acquired c (close_all w listen cs).0 ≡ 0
  unfolding close_all
  acquired-close_all c [] = refl
  acquired-close_all c (d ∷ cs) = omega (
    arith,
    count-append (is_acquire c) (close_all w listen cs).0 (close_one w listen d).0,
    acquired-close_all c cs,
    acquired-close_one c d,
  )

  pub released-close_all :
      (c : Closer) (cs : List Closer) → released c (close_all w listen cs).0 ≡ held c cs
  unfolding close_all
  released-close_all c [] = refl
  released-close_all c (d ∷ cs) = omega (
    arith,
    count-append (is_release c) (close_all w listen cs).0 (close_one w listen d).0,
    released-close_all c cs,
    released-close_one c d,
  )

-- `Node.Close` closes each of the closers once, the last that was added first, also after one has
-- failed; its error is the first that it meets in this order; the node keeps no closer, so that a
-- second `Close` does nothing and has no error.
pub close_node_lem :
    (w : World) (n : Node)
    → (order (close_node w n).1 ≡ reverse n.closers)
      × ((close_node w n).2 ≡ first_failure w (reverse n.closers))
      × ((close_node w (close_node w n).0).1 ≡ [])
      × ((close_node w (close_node w n).0).2 ≡ none)
unfolding close_node close_all
close_node_lem w n =
    (order-close_all w n.listen n.closers, close_all-failure w n.listen n.closers, refl, refl)
