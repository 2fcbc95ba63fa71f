-- ===== src/Tests/Inputs.antt =====
-- Runs of the theorems on frames, arguments and addresses.
use zmqcat.Base.{
  ◌≡◌, refl, true, false, none, some, List, [], ◌∷◌, ◌++◌, codes, Text, map, arith, text_eq,
  if◌then◌else◌,
}
use zmqcat.Wire.{Json, Frame, Sink, Source, no_frame, version, eof, with_version, write}
use zmqcat.Wire.RoundTrip.{Plain}
use zmqcat.Wire.Stream.{write_all, read_all, no_frames, more, read_all-write_all}
use zmqcat.Args.{FlagSet, terminator, takes_value, split, arranged}
use zmqcat.Args.Order.{lacks_value, arranged-missing_value}

-- An encoding of the frames that hold nothing but their version and an operation.
abbrev pub json : Json
json = record {
  marshal = λ f. some (1 ∷ f.op);
  unmarshal =
      λ xs. elim xs [ [] ↦ none | x ∷ op ↦ some (record no_frame { v = version; op = op }) ];
}

abbrev pub ping : Frame
ping = record no_frame { op = codes "ping" }

abbrev sink : Sink
sink = record { out = []; room = 100 }

unfoldable pub ping-Plain : Plain json ping
unfolding with_version
ping-Plain = record {
  raw = 1 ∷ codes "ping";
  coded = refl;
  decoded = refl;
  known = refl;
  some_bytes = omega arith;
}

all_written : (write_all json (ping ∷ ping ∷ []) sink).1 ≡ none
unfolding write_all write
all_written = refl

read_all-write_all_example :
    read_all json 2
      (record { avail = (write_all json (ping ∷ ping ∷ []) sink).0.out ++ 90 ∷ []; ending = eof })
    ≡ (record { avail = 90 ∷ []; ending = eof }, map with_version (ping ∷ ping ∷ []))
read_all-write_all_example =
    read_all-write_all json (ping ∷ ping ∷ []) sink (90 ∷ []) eof refl
      (more ping-Plain (more ping-Plain no_frames)) all_written

-- A stream that ends within a header.
abbrev cut : Source
cut = record { avail = codes "ZMQC" ++ 0 ∷ []; ending = eof }

abbrev ended : Source
ended = record { avail = []; ending = eof }

-- `--listen` takes a value, and `-v` does not.
abbrev flags : FlagSet (List Text)
flags = record {
  lookup = λ name.
      if text_eq name (codes "listen")
      then some false
      else if text_eq name (codes "v")
      then some true
      else none;
  parse = λ args. args;
}

abbrev late_flag : List Text
late_flag = codes "token" ∷ codes "--listen" ∷ codes "x" ∷ codes "-v" ∷ []

abbrev cut_flag : List Text
cut_flag = codes "token" ∷ codes "--listen" ∷ []

arranged-missing_value_example :
    (front : List Text) × (name : Text) × (takes_value flags name ≡ true)
    × (arranged flags cut_flag ≡ front ++ (name ∷ terminator ∷ (split flags false cut_flag).1))
unfolding lacks_value takes_value text_eq
arranged-missing_value_example = arranged-missing_value flags cut_flag refl
