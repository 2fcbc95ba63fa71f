-- ===== src/Wire/RoundTrip.antt =====
-- internal/wire/wire.go: what `Write` puts on a connection is what `ReadCounted` finds there.
use zmqcat.Base.{
  ℕ, ◌+◌, ◌^◌, ◌%◌, ◌≡◌, ◌≤◌, ◌<◌, refl, sym, ap, ◌∙◌, subst, true, Option, none, some, [], ◌++◌,
  Text, arith, append_assoc, Bool-cases, inl, inr, length, take, drop, length-append, take-append,
  drop-append, text_eq, text_eq_refl, not, ◌==◌, ◌||◌, ltb, if◌then◌else◌,
}
use zmqcat.Wire.{
  Json, Frame, Sink, Source, Answer, frame, failed, Error, read_full, read_body, read_header,
  read_counted, max_body, magic, header, put_uint32, get_uint32, write, write_raw, write_bytes,
  with_version, version, err_magic, err_too_big, bad_json, decode, check_version, is_zero,
  is_version,
}

get-put_uint32 : (n : ℕ) (rest : Text) → n < 2 ^ 32 → get_uint32 (put_uint32 n ++ rest) ≡ n
unfolding get_uint32 put_uint32
get-put_uint32 n rest h = omega arith

pub length-header : (raw : Text) → length (header raw) ≡ 8
unfolding header
length-header raw = refl

pub read_full-append :
    (xs ys : Text) (r : Source)
    → r.avail ≡ xs ++ ys
    → read_full (length xs) r ≡ (record r { avail = ys }, xs, none)
unfolding read_full
read_full-append xs ys r h =
    let e1 : take (length xs) r.avail ≡ xs = ap (take (length xs)) h ∙ take-append xs ys in
    let e2 : drop (length xs) r.avail ≡ ys = ap (drop (length xs)) h ∙ drop-append xs ys in
    let e3 : length r.avail ≡ length xs + length ys = ap length h ∙ length-append xs ys in
    ground (arith, e1, e2, e3)

write_bytes-out :
    (p : Text) (w : Sink) → (write_bytes p w).1 ≡ none → (write_bytes p w).0.out ≡ w.out ++ p
unfolding write_bytes
write_bytes-out p w h = ground arith

write_raw-out :
    (raw : Text) (w : Sink)
    → (write_raw raw w).1 ≡ none
    → (write_raw raw w).0.out ≡ w.out ++ header raw ++ raw
unfolding write_raw
write_raw-out raw w h = go (write_bytes (header raw) w).1 refl h
  where
    w' : Sink
    w' = (write_bytes (header raw) w).0

    go :
        (x : Option Error)
        → (write_bytes (header raw) w).1 ≡ x
        → let a : Sink × Option Error = elim x [
          | none ↦ write_bytes raw w'
          | some e ↦ (w', some e)
        ] in
          a.1 ≡ none → a.0.out ≡ w.out ++ header raw ++ raw
    go none e h = write_bytes-out raw w' h ∙ ap (λ o. o ++ raw) (write_bytes-out (header raw) w e)
    go (some x) e h = ground (arith, h)

-- What `Write` asks of a frame that the reader is to get back: JSON keeps it, and its version is
-- this one's.
pub record Plain (json : Json) (f : Frame) : Type 0 where
  pub raw : Text
  pub coded : json.marshal (with_version f) ≡ some raw
  pub decoded : json.unmarshal raw ≡ some (with_version f)
  pub known : (with_version f).v ≡ version
  pub some_bytes : 0 < length raw

-- A frame that is written without an error is on the wire, within the limit.
pub record Written (json : Json) (f : Frame) (w : Sink) (p : Plain json f) : Type 0 where
  pub in_bounds : length p.raw ≤ max_body
  pub on_wire : (write json f w).0.out ≡ w.out ++ header p.raw ++ p.raw

pub write-Written :
    (json : Json) (f : Frame) (w : Sink) (p : Plain json f)
    → (write json f w).1 ≡ none
    → Written json f w p
unfolding write
write-Written json f w p h = elim (Bool-cases (ltb max_body (length p.raw))) [
  | inl e ↦ absurd (ground (arith, p.coded, e, h))
  | inr e ↦
      let same : write json f w ≡ write_raw p.raw w = ground (arith, p.coded, e) in
      record {
        in_bounds = ground (arith, e);
        on_wire = ap (λ a. a.0.out) same ∙ write_raw-out p.raw w (sym (ap (λ a. a.1) same) ∙ h);
      }
]

check_version-known : (f : Frame) → f.v ≡ version → check_version f ≡ frame f
unfolding check_version is_zero is_version
check_version-known f h = rw h refl

decode-Plain :
    (json : Json) (f : Frame) (p : Plain json f) → decode json p.raw ≡ frame (with_version f)
unfolding decode
decode-Plain json f p =
    ap (λ (o : Option Frame). elim o [ none ↦ failed bad_json | some g ↦ check_version g ])
      p.decoded
    ∙ check_version-known (with_version f) p.known

read_body-append :
    (json : Json) (f : Frame) (p : Plain json f) (rest : Text) (r : Source)
    → r.avail ≡ p.raw ++ rest
    → read_body json (length p.raw) r
      ≡ (record r { avail = rest }, 8 + length p.raw, frame (with_version f))
unfolding read_body
read_body-append json f p rest r h =
    ap after (read_full-append p.raw rest r h)
    ∙ ap (λ (a : Answer). (record r { avail = rest }, 8 + length p.raw, a)) (decode-Plain json f p)
  where
    after : Source × Text × Option Error → Source × ℕ × Answer
    after x = (x.0, 8 + length x.1, elim x.2 [ none ↦ decode json x.1 | some e ↦ failed e ])

pub magic_first : (raw : Text) → text_eq (take 4 (header raw)) magic ≡ true
unfolding header
magic_first raw = text_eq_refl magic

pub length_next :
    (raw : Text) → length raw ≤ max_body → get_uint32 (drop 4 (header raw)) ≡ length raw
unfolding header
length_next raw h = get-put_uint32 (length raw % 2 ^ 32) [] (omega arith) ∙ omega arith

read_header-append :
    (json : Json) (f : Frame) (p : Plain json f) (rest : Text) (r : Source)
    → length p.raw ≤ max_body
    → r.avail ≡ p.raw ++ rest
    → read_header json (header p.raw) r
      ≡ (record r { avail = rest }, 8 + length p.raw, frame (with_version f))
unfolding read_header
read_header-append json f p rest r h e =
    ap
      (λ b.
        if not b
        then (r, 8, failed (err_magic (take 4 (header p.raw))))
        else sized (get_uint32 (drop 4 (header p.raw))))
      (magic_first p.raw)
    ∙ ap sized (length_next p.raw h)
    ∙ in_bounds (length p.raw) p.some_bytes h
    ∙ read_body-append json f p rest r e
  where
    sized : ℕ → Source × ℕ × Answer
    sized n = if n == 0 || ltb max_body n then (r, 8, failed err_too_big) else read_body json n r

    in_bounds : (n : ℕ) → 0 < n → n ≤ max_body → sized n ≡ read_body json n r
    in_bounds n h k = ground arith

-- The reader finds the frame, and takes its bytes and no more.
pub read_counted-append :
    (json : Json) (f : Frame) (p : Plain json f) (rest : Text) (r : Source)
    → length p.raw ≤ max_body
    → r.avail ≡ header p.raw ++ p.raw ++ rest
    → read_counted json r ≡ (record r { avail = rest }, 8 + length p.raw, frame (with_version f))
unfolding read_counted
read_counted-append json f p rest r h e =
    ap after (
      subst (λ n. read_full n r ≡ (record r { avail = p.raw ++ rest }, header p.raw, none))
        (length-header p.raw)
        (read_full-append (header p.raw) (p.raw ++ rest) r
          (e ∙ append_assoc (header p.raw) p.raw rest)))
    ∙ read_header-append json f p rest (record r { avail = p.raw ++ rest }) h refl
  where
    after : Source × Text × Option Error → Source × ℕ × Answer
    after x = elim x.2 [ none ↦ read_header json x.1 x.0 | some e ↦ (x.0, length x.1, failed e) ]
