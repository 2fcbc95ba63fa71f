-- ===== src/Tests/Commands.antt =====
-- Runs of the theorems on commands.
use zmqcat.Base.{◌≡◌, ◌≢◌, refl, true, false, none, some, [], ◌∷◌, ◌++◌, codes, text_eq, arith}
use zmqcat.Base.Int.{pos}
use zmqcat.Wire.{Frame, header, no_frame, eof, with_version}
use zmqcat.Wire.RoundTrip.{Plain}
use zmqcat.Node.{listener}
use zmqcat.Node.Closing.{acquired, released}
use zmqcat.Client.{unfinished}
use zmqcat.Client.Calls.{new_client}
use zmqcat.Client.Steps
use zmqcat.Client.Steps.{Pings, no_pings, frame_bytes}
use zmqcat.Command.{Flags, parsed, terminal}
use zmqcat.Command.Clients.{Host, subscribed, call_fails}
use zmqcat.Command.Program.{main}
use zmqcat.Command.Subscribing.{
  Feed, ends, feeds, messages, printed, subscribed-lines, subscribed-ne-unfinished,
}
use zmqcat.Command.Exits.{main-IsClean}
use zmqcat.Tests.Inputs.{json, ping, ping-Plain}
use zmqcat.Tests.Nodes.{world}

abbrev flags : Flags
flags = record {
  listen = codes "127.0.0.1:5555";
  name = [];
  quiet = true;
  local_flag = true;
  mailbox = [];
  trace = false;
  heartbeat = pos 0;
  allow = [];
  forward = [];
  timeout = pos 1;
  retries = pos 3;
}

abbrev msg : Frame
msg = record no_frame { op = codes "msg" }

-- A message and another frame between two pings, and then the end.
abbrev host : Host
host = record {
  parser = λ cmd. record { lookup = λ name. none; parse = λ args. parsed flags [] };
  input = terminal;
  sockets = record { uid = 1; listens = λ n a. true; answers = λ n a. true };
  json = json;
  links = λ i. record {
    arrives =
        frame_bytes (1 ∷ codes "ping")
        ++ (frame_bytes (1 ∷ codes "msg")
            ++ (frame_bytes (1 ∷ codes "ok") ++ (frame_bytes (1 ∷ codes "ping") ++ [])));
    ending = eof;
    room = 1000;
    random = none;
    now = 5;
  };
}

one_ping : Pings json (ping ∷ [])
unfolding text_eq ping-Plain
one_ping = Steps.ping ping-Plain (omega arith) refl no_pings

msg-Plain : Plain json msg
unfolding with_version
msg-Plain = record {
  raw = 1 ∷ codes "msg";
  coded = refl;
  decoded = refl;
  known = refl;
  some_bytes = omega arith;
}

abbrev confirmed : Frame
confirmed = record no_frame { op = codes "ok" }

confirmed-Plain : Plain json confirmed
unfolding with_version
confirmed-Plain = record {
  raw = 1 ∷ codes "ok";
  coded = refl;
  decoded = refl;
  known = refl;
  some_bytes = omega arith;
}

feed : Feed json (msg ∷ confirmed ∷ [])
unfolding msg-Plain confirmed-Plain text_eq
feed =
    feeds one_ping msg-Plain (omega arith) refl
      (feeds no_pings confirmed-Plain (omega arith) refl (ends one_ping))

subscribed-lines_example :
    subscribed host new_client
    ≡ record { output = printed (messages (msg ∷ confirmed ∷ [])); fault = none }
unfolding feed one_ping header
subscribed-lines_example = subscribed-lines host new_client feed refl refl

subscribed-ne-unfinished_example : (subscribed host new_client).fault ≢ some (call_fails unfinished)
subscribed-ne-unfinished_example = subscribed-ne-unfinished host new_client

main-IsClean_example :
    acquired listener (main world host (codes "serve" ∷ [])).done
    ≡ released listener (main world host (codes "serve" ∷ [])).done
main-IsClean_example = main-IsClean world listener host (codes "serve" ∷ [])
