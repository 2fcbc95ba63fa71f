-- ===== src/Wire/Stream.antt =====
-- internal/wire/wire.go: frames that follow each other on one connection.
use zmqcat.Base.{
  ℕ, zero, suc, ◌≡◌, refl, sym, ap, ◌∙◌, Option, none, some, List, [], ◌∷◌, ◌++◌, map, Text, arith,
  append_assoc, append-nil, length, Option-cases, inl, inr,
}
use zmqcat.Wire.{
  Json, Frame, Sink, Source, Answer, frame, failed, Error, read_counted, header, write,
  with_version,
}
use zmqcat.Wire.RoundTrip.{Plain, write-Written, read_counted-append}

-- One `Write` after the other, up to the first that fails.
unfoldable pub write_all : Json → List Frame → Sink → Sink × Option Error
write_all json [] w = (w, none)
write_all json (f ∷ fs) w =
    let rest = write_all json fs (write json f w).0 in
    elim (write json f w).1 [ none ↦ rest | some x ↦ ((write json f w).0, some x) ]

-- One `ReadCounted` after the other: the frames, up to the first that fails or to the `n`th.
unfoldable pub read_all : Json → ℕ → Source → Source × List Frame
read_all json zero r = (r, [])
read_all json (suc n) r =
    let (r', fs) = read_all json n (read_counted json r).0 in
    elim (read_counted json r).2 [
      | frame f ↦ (r', f ∷ fs)
      | failed x ↦ ((read_counted json r).0, [])
    ]

pub data Plains (json : Json) : List Frame → Type 0 where
  no_frames : Plains json []
  more : {f : Frame} {fs : List Frame} → Plain json f → Plains json fs → Plains json (f ∷ fs)

-- What some frames have put on a connection, and how it reads.
record Carried (json : Json) (fs : List Frame) (w : Sink) : Type 0 where
  bytes : Text
  on_wire : (write_all json fs w).0.out ≡ w.out ++ bytes
  reads :
      (rest : Text) (r : Source)
      → r.avail ≡ bytes ++ rest
      → read_all json (length fs) r ≡ (record r { avail = rest }, map with_version fs)

write_all-Carried :
    (json : Json) (fs : List Frame) (w : Sink)
    → Plains json fs
    → (write_all json fs w).1 ≡ none
    → Carried json fs w
unfolding write_all read_all
write_all-Carried json [] w ps h = record {
  bytes = [];
  on_wire = sym (append-nil w.out);
  reads = λ rest r e. ap (λ a. (record r { avail = a }, [])) e;
}
write_all-Carried json (f ∷ fs) w (more p ps) h = elim (Option-cases (write json f w).1) [
  | inr (x, e) ↦ absurd (ground (arith, e, h))
  | inl e ↦
      let w' : Sink = (write json f w).0 in
      let same : write_all json (f ∷ fs) w ≡ write_all json fs w' =
        ap (λ (o : Option Error). elim o [ none ↦ write_all json fs w' | some x ↦ (w', some x) ])
          e in
      let written = write-Written json f w p e in
      let rest = write_all-Carried json fs w' ps (sym (ap (λ a. a.1) same) ∙ h) in
      record {
        bytes = header p.raw ++ p.raw ++ rest.bytes;
        on_wire =
            ap (λ a. a.0.out) same
            ∙ rest.on_wire
            ∙ ap (λ o. o ++ rest.bytes) written.on_wire
            ∙ regroup w.out (header p.raw) p.raw rest.bytes;
        reads = λ tail r e'.
            ap (after f fs) (
              read_counted-append json f p (rest.bytes ++ tail) r written.in_bounds
                (e' ∙ append_assoc (header p.raw ++ p.raw) rest.bytes tail))
            ∙ ap (λ (a : Source × List Frame). (a.0, with_version f ∷ a.1))
                (rest.reads tail (record r { avail = rest.bytes ++ tail }) refl);
      }
]
  where
    regroup : (a b c d : Text) → a ++ b ++ c ++ d ≡ a ++ (b ++ c ++ d)
    regroup a b c d = ap (λ x. x ++ d) (append_assoc a b c) ∙ append_assoc a (b ++ c) d

    after : Frame → List Frame → Source × ℕ × Answer → Source × List Frame
    after f fs x =
        let a = read_all json (length fs) x.0 in
        elim x.2 [ frame g ↦ (a.0, g ∷ a.1) | failed y ↦ (x.0, []) ]

-- Frames that were written one after the other without an error are read back one after the other,
-- in their order and with the version filled in, whatever bytes follow them, and exactly the bytes
-- that were written are consumed, where JSON gives each frame back and its version is this one's.
pub read_all-write_all :
    (json : Json) (fs : List Frame) (w : Sink) (rest : Text) (ending : Error)
    → w.out ≡ []
    → Plains json fs
    → (write_all json fs w).1 ≡ none
    → read_all json
        (length fs)
        (record { avail = (write_all json fs w).0.out ++ rest; ending = ending })
      ≡ (record { avail = rest; ending = ending }, map with_version fs)
read_all-write_all json fs w rest ending empty ps h =
    let c = write_all-Carried json fs w ps h in
    c.reads rest _ (ap (λ o. o ++ rest) (c.on_wire ∙ ap (λ o. o ++ c.bytes) empty))
