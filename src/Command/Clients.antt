-- ===== src/Command/Clients.antt =====
-- cmd/zmqcat/main.go: the commands of a client, `put` to `req`. The connection's link is given for
-- each round trip in its turn.
use zmqcat.Base.{
  ℕ, zero, suc, ◌+◌, Option, none, some, List, [], ◌∷◌, ◌++◌, Text, codes, length, is_empty,
  text_eq, if◌then◌else◌,
}
use zmqcat.Args.{parse_args}
use zmqcat.Addr
use zmqcat.Addr.{Sockets, Opened, open_at, not_open, default_path}
use zmqcat.Wire.{Json, Frame, payload, eof}
use zmqcat.Wire.Op.{put_op, take_op, pub_op, sub_op, ready_op, req_op, msg_op}
use zmqcat.Client
use zmqcat.Client.{Link, Failure, io, unfinished, Reply, got, fails}
use zmqcat.Client.Calls
use zmqcat.Client.Calls.{
  hello_call, put_call, take_call, pub_call, sub_call, ping_call, ready_call, request, recv,
}
use zmqcat.Command.{Flags, Parsed, parsed, exits, Parser, Stdin, payload_of, printed}

pub data Fault : Type 0 where
  -- the command's first argument is missing
  missing : Text → Fault
  input_fails : Fault
  no_sidecar : Addr.Fault → Fault
  dial_fails : Failure → Fault
  call_fails : Failure → Fault
  -- the flag package ends the program
  exited : ℕ → Fault

-- What a command prints to standard output, and its error.
pub record Ran : Type 0 where
  pub output : Text
  pub fault : Option Fault

abbrev pub fault_only : Fault → Ran
fault_only x = record { output = []; fault = some x }

-- What a client's command meets: the flag sets, standard input, the sockets, JSON, and the link of
-- each round trip.
pub record Host : Type 0 where
  pub parser : Text → Parser
  pub input : Stdin
  pub sockets : Sockets
  pub json : Json
  pub links : ℕ → Link

abbrev pub or_call : Client.Client × Option Failure → (Client.Client → Ran) → Ran
or_call (c, some x) k = fault_only (call_fails x)
or_call (c, none) k = k c

-- The greeting by name, after `zmqcat.Dial`.
unfoldable pub greet : Host → Text → Client.Client × Option Failure → (Client.Client → Ran) → Ran
unfolding hello_call
greet h name (c, some x) k = fault_only (dial_fails x)
greet h name (c, none) k =
    if is_empty name
    then k c
    else or_call (hello_call h.json (h.links 1) name (record c { name = name })) k

-- `listenDial`
unfoldable pub listen_dial : Sockets → Text → Opened
unfolding Addr.dial
listen_dial net listen = Addr.dial net (if is_empty listen then default_path net.uid else listen)

-- `dial`, and what is done with the client.
unfoldable pub dial_sidecar : Host → Text → Text → (Client.Client → Ran) → Ran
unfolding greet listen_dial Calls.dial
dial_sidecar h listen name k = elim (listen_dial h.sockets listen) [
  | not_open x ↦ fault_only (no_sidecar x)
  | open_at network address ↦ greet h name (Calls.dial h.json (h.links 0)) k
]

-- A call that prints nothing, and one whose reply is printed.
abbrev pub quietly : Option Failure → Ran
quietly none = record { output = []; fault = none }
quietly (some x) = fault_only (call_fails x)

unfoldable pub printing : Reply → Ran
unfolding printed payload
printing (got f) = record { output = printed (payload f); fault = none }
printing (fails x) = fault_only (call_fails x)

-- A command of some arguments after its flags.
unfoldable pub with_first : Text → List Text → (Text → List Text → Ran) → Ran
with_first what [] k = fault_only (missing what)
with_first what (a ∷ args) k = k a args

unfoldable pub with_payload : Host → List Text → (Text → Ran) → Ran
unfolding payload_of
with_payload h args k = elim (payload_of h.input args) [
  | none ↦ fault_only input_fails
  | some body ↦ k body
]

unfoldable pub with_flags : Parsed → (Flags → List Text → Ran) → Ran
with_flags (parsed fl rest) k = k fl rest
with_flags (exits n) k = fault_only (exited n)

unfoldable pub cmd_put : Host → List Text → Ran
unfolding with_flags with_first with_payload dial_sidecar put_call parse_args
cmd_put h args = with_flags (parse_args (h.parser put_op) args) λ fl rest.
    with_first put_op rest λ name words. with_payload h words λ body.
      dial_sidecar h fl.listen fl.name λ c. quietly (put_call h.json (h.links 2) name body body c).1

unfoldable pub cmd_take : Host → List Text → Ran
unfolding with_flags with_first dial_sidecar take_call printing parse_args
cmd_take h args = with_flags (parse_args (h.parser take_op) args) λ fl rest.
    with_first take_op rest λ name words.
      dial_sidecar h fl.listen fl.name λ c. printing (take_call h.json (h.links 2) name c).1

unfoldable pub cmd_pub : Host → List Text → Ran
unfolding with_flags with_first with_payload dial_sidecar pub_call parse_args
cmd_pub h args = with_flags (parse_args (h.parser pub_op) args) λ fl rest.
    with_first pub_op rest λ topic words. with_payload h words λ body.
      dial_sidecar h fl.listen fl.name
        λ c. quietly (pub_call h.json (h.links 2) topic body body c).1

unfoldable pub cmd_ping : Host → List Text → Ran
unfolding with_flags dial_sidecar ping_call parse_args
cmd_ping h args = with_flags (parse_args (h.parser (codes "ping")) args) λ fl rest.
    dial_sidecar h fl.listen fl.name λ c. elim (ping_call h.json (h.links 2) c).1 [
      | some x ↦ fault_only (call_fails x)
      | none ↦ record { output = codes "pong" ++ 10 ∷ []; fault = none }
    ]

unfoldable pub cmd_ready : Host → List Text → Ran
unfolding with_flags with_first dial_sidecar ready_call printing parse_args
cmd_ready h args = with_flags (parse_args (h.parser ready_op) args) λ fl rest.
    with_first ready_op rest λ service words.
      dial_sidecar h fl.listen fl.name λ c. printing (ready_call h.json (h.links 2) service c).1

-- Each attempt has a link of its own.
unfoldable pub cmd_req : Host → List Text → Ran
unfolding with_flags with_first with_payload dial_sidecar request printing parse_args
cmd_req h args = with_flags (parse_args (h.parser req_op) args) λ fl rest.
    with_first req_op rest λ service words. with_payload h words λ body.
      dial_sidecar h fl.listen fl.name
        λ c. printing (request h.json (λ i. h.links (i + 2)) service body body fl.retries c).1

-- `fs.Arg(0)`, if it is there.
abbrev pub first_or_empty : List Text → Text
first_or_empty [] = []
first_or_empty (a ∷ args) = a

-- A line of `sub`.
unfoldable pub line : Frame → Text
unfolding payload
line f = f.name ++ (9 ∷ f.from) ++ (9 ∷ payload f) ++ 10 ∷ []

unfoldable pub line_of : Frame → Text
unfolding line
line_of f = if text_eq f.op msg_op then line f else []

-- Nothing more comes.
abbrev pub quiet_link : Link → Link
quiet_link link = record link { arrives = [] }

abbrev pub before : Text → Ran → Ran
before t r = record { output = t ++ r.output; fault = r.fault }

-- The loop of `sub`, on fuel: all that comes is there from the first read on. The end of the stream
-- is no error.
unfoldable pub receive_all : Json → ℕ → Link → Client.Client → Ran
unfolding recv line_of
receive_all json zero link c = fault_only (call_fails unfinished)
receive_all json (suc fuel) link c =
    let (c', r) = recv json link c in
    elim r [
      | fails (io eof) ↦ record { output = []; fault = none }
      | fails x ↦ fault_only (call_fails x)
      | got f ↦ before (line_of f) (receive_all json fuel (quiet_link link) c')
    ]

-- The fuel is one more than the bytes that come.
unfoldable pub subscribed : Host → Client.Client → Ran
unfolding receive_all
subscribed h c = receive_all h.json (suc (length (c.unread ++ (h.links 3).arrives))) (h.links 3) c

unfoldable pub cmd_sub : Host → List Text → Ran
unfolding with_flags dial_sidecar sub_call subscribed parse_args
cmd_sub h args = with_flags (parse_args (h.parser sub_op) args) λ fl rest.
    dial_sidecar h fl.listen fl.name
      λ c. or_call (sub_call h.json (h.links 2) (first_or_empty rest) c) (subscribed h)
