-- ===== src/Wire.antt =====
-- internal/wire/wire.go: the session protocol, magic + length + JSON. `encoding/json` is given as
-- a pair of functions, and a connection as the bytes that it still takes or gives.
pub mod Op
pub mod RoundTrip
pub mod Stream
pub mod Counting
pub mod Cut
pub mod Room
use zmqcat.Base.{
  ℕ, zero, suc, ◌+◌, ◌-◌, ◌*◌, ◌/◌, ◌%◌, ◌^◌, Bool, true, false, ◌&&◌, ◌||◌, not, Option, none,
  some, List, [], ◌∷◌, ◌++◌, Text, codes, length, take, drop, ltb, leb, ◌==◌, is_empty, text_eq,
  if◌then◌else◌,
}
use zmqcat.Base.Int.{ℤ, pos, negsuc}

abbrev pub magic : Text
magic = codes "ZMQC"

abbrev pub max_body : ℕ
max_body = 2 * 2 ^ 20

abbrev pub version : ℤ
version = pos 1

-- The errors of this package, and those of reading, writing and decoding.
pub data Error : Type 0 where
  err_magic : Text → Error
  err_too_big : Error
  err_version : ℤ → Error
  eof unexpected_eof broken bad_json : Error

pub record Frame : Type 0 where
  pub v : ℤ
  pub op : Text
  pub id : Text
  pub name : Text
  pub from : Text
  pub text : Text
  pub body : Text
  pub error : Text
  pub lease : ℤ
  pub delivery : Text

abbrev pub no_frame : Frame
no_frame = record {
  v = pos 0;
  op = [];
  id = [];
  name = [];
  from = [];
  text = [];
  body = [];
  error = [];
  lease = pos 0;
  delivery = [];
}

-- `Payload`: the body, or the text where there is none.
unfoldable pub payload : Frame → Text
payload f = if ltb 0 (length f.body) then f.body else if is_empty f.text then [] else f.text

pub record Json : Type 0 where
  pub marshal : Frame → Option Text
  pub unmarshal : Text → Option Frame

-- A connection that is written to: what it has taken, and how many bytes it takes until it fails.
pub record Sink : Type 0 where
  pub out : Text
  pub room : ℕ

-- `w.Write(p)`
unfoldable pub write_bytes : Text → Sink → Sink × Option Error
write_bytes p w =
    if leb (length p) w.room
    then (record { out = w.out ++ p; room = w.room - length p }, none)
    else (record { out = w.out ++ take w.room p; room = 0 }, some broken)

-- `binary.BigEndian.PutUint32`
unfoldable pub put_uint32 : ℕ → Text
put_uint32 n = (n / 2 ^ 24 % 256) ∷ (n / 2 ^ 16 % 256) ∷ (n / 2 ^ 8 % 256) ∷ (n % 256) ∷ []

-- `binary.BigEndian.Uint32`, of four bytes.
unfoldable pub get_uint32 : Text → ℕ
get_uint32 (a ∷ b ∷ c ∷ d ∷ rest) = a * 2 ^ 24 + b * 2 ^ 16 + c * 2 ^ 8 + d
get_uint32 _ = 0

unfoldable pub header : Text → Text
unfolding put_uint32
header raw = magic ++ put_uint32 (length raw % 2 ^ 32)

is_zero : ℤ → Bool
is_zero (pos zero) = true
is_zero _ = false

is_version : ℤ → Bool
is_version (pos (suc zero)) = true
is_version _ = false

unfoldable pub with_version : Frame → Frame
unfolding is_zero
with_version f = if is_zero f.v then record f { v = version } else f

write_raw : Text → Sink → Sink × Option Error
unfolding header write_bytes
write_raw raw w =
    let (w', r) = write_bytes (header raw) w in
    elim r [ none ↦ write_bytes raw w' | some x ↦ (w', some x) ]

unfoldable pub write : Json → Frame → Sink → Sink × Option Error
unfolding write_raw with_version
write json f w = elim (json.marshal (with_version f)) [
  | none ↦ (w, some bad_json)
  | some raw ↦ if ltb max_body (length raw) then (w, some err_too_big) else write_raw raw w
]

-- A connection that is read from: the bytes that will come, and the error that follows them:
-- `eof`, or another where the connection breaks or a deadline passes.
pub record Source : Type 0 where
  pub avail : Text
  pub ending : Error

-- The error of `io.ReadFull` after some bytes have come, but not all.
abbrev cut_short : ℕ → Error → Error
cut_short zero x = x
cut_short (suc n) eof = unexpected_eof
cut_short (suc n) x = x

-- `io.ReadFull` into a buffer of `n` bytes: what remains, the bytes that were read, the error.
unfoldable pub read_full : ℕ → Source → Source × Text × Option Error
read_full n r =
    if leb n (length r.avail)
    then (record r { avail = drop n r.avail }, take n r.avail, none)
    else (record r { avail = [] }, r.avail, some (cut_short (length r.avail) r.ending))

-- A frame and the error beside it, of which one counts; the count of bytes is given with both.
pub data Answer : Type 0 where
  frame : Frame → Answer
  failed : Error → Answer

check_version : Frame → Answer
unfolding is_zero is_version
check_version f =
    if not (is_zero f.v) && not (is_version f.v) then failed (err_version f.v) else frame f

decode : Json → Text → Answer
unfolding check_version
decode json raw = elim (json.unmarshal raw) [ none ↦ failed bad_json | some f ↦ check_version f ]

read_body : Json → ℕ → Source → Source × ℕ × Answer
unfolding decode read_full
read_body json n r =
    let (r', raw, x) = read_full n r in
    (r', 8 + length raw, elim x [ none ↦ decode json raw | some e ↦ failed e ])

read_header : Json → Text → Source → Source × ℕ × Answer
unfolding read_body get_uint32
read_header json hdr r =
    let n = get_uint32 (drop 4 hdr) in
    if not (text_eq (take 4 hdr) magic)
    then (r, 8, failed (err_magic (take 4 hdr)))
    else if n == 0 || ltb max_body n
    then (r, 8, failed err_too_big)
    else read_body json n r

-- `ReadCounted`: what remains of the stream, how many bytes were consumed, and the answer.
unfoldable pub read_counted : Json → Source → Source × ℕ × Answer
unfolding read_header read_full
read_counted json r =
    let (r', hdr, x) = read_full 8 r in
    elim x [ none ↦ read_header json hdr r' | some e ↦ (r', length hdr, failed e) ]

unfoldable pub read : Json → Source → Source × Answer
read json r = let (r', n, a) = read_counted json r in (r', a)
