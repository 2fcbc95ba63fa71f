-- ===== src/Wire/Room.antt =====
-- internal/wire/wire.go: what `Write` leaves on a connection that has room for the frame, and on one
-- that fails before.
use zmqcat.Base.{
  ◌+◌, ◌-◌, ◌≡◌, ◌≤◌, ◌<◌, sym, ap, ◌∙◌, Option, none, some, ◌++◌, Text, arith, append_assoc,
  length, take, take-append_add, take-append_le, Bool-cases, inl, inr, true, false, ltb,
}
use zmqcat.Wire.{
  Json, Frame, Sink, Error, broken, header, max_body, write, write_raw, write_bytes, with_version,
}
use zmqcat.Wire.RoundTrip.{length-header}

module _ (p : Text) (w : Sink) where
  write_bytes_fits :
      length p ≤ w.room
      → write_bytes p w ≡ (record { out = w.out ++ p; room = w.room - length p }, none)
  unfolding write_bytes
  write_bytes_fits h = ground arith

  write_bytes_short :
      w.room < length p
      → write_bytes p w ≡ (record { out = w.out ++ take w.room p; room = 0 }, some broken)
  unfolding write_bytes
  write_bytes_short h = ground arith

after_header : Text → Sink × Option Error → Sink × Option Error
after_header raw x = elim x.1 [ none ↦ write_bytes raw x.0 | some e ↦ (x.0, some e) ]

write_raw_fits :
    (raw : Text) (w : Sink)
    → 8 + length raw ≤ w.room
    → write_raw raw w
      ≡ (record { out = w.out ++ header raw ++ raw; room = w.room - 8 - length raw }, none)
unfolding write_raw after_header
write_raw_fits raw w h =
    ap (after_header raw) (write_bytes_fits (header raw) w (omega (arith, length-header raw)))
    ∙ write_bytes_fits raw
        (record { out = w.out ++ header raw; room = w.room - length (header raw) })
        (omega (arith, length-header raw))
    ∙ ap (λ n. (record { out = w.out ++ header raw ++ raw; room = w.room - n - length raw }, none))
        (length-header raw)

write_raw_short :
    (raw : Text) (w : Sink)
    → w.room < 8 + length raw
    → write_raw raw w
      ≡ (record { out = w.out ++ take w.room (header raw ++ raw); room = 0 }, some broken)
unfolding write_raw after_header
write_raw_short raw w h = elim (Bool-cases (ltb w.room 8)) [
  | inl e ↦
      ap (after_header raw)
        (write_bytes_short (header raw) w (omega (arith, below e, length-header raw)))
      ∙ ap (λ t. (record { out = w.out ++ t; room = 0 }, some broken))
          (sym (take-append_le w.room (header raw) raw (omega (arith, below e, length-header raw))))
  | inr e ↦
      let more : w.room ≡ length (header raw) + (w.room - 8) =
        omega (arith, above e, length-header raw) in
      let left : w.room - length (header raw) ≡ w.room - 8 = omega (arith, length-header raw) in
      ap (after_header raw)
        (write_bytes_fits (header raw) w (omega (arith, above e, length-header raw)))
      ∙ ap (λ n. write_bytes raw (record { out = w.out ++ header raw; room = n })) left
      ∙ write_bytes_short raw (record { out = w.out ++ header raw; room = w.room - 8 })
          (omega (arith, above e))
      ∙ ap (λ t. (record { out = t; room = 0 }, some broken))
          (append_assoc w.out (header raw) (take (w.room - 8) raw)
            ∙ ap (◌++◌ w.out) (sym (take-append_add w.room (w.room - 8) (header raw) raw more)))
]
  where
    below : ltb w.room 8 ≡ true → w.room < 8
    below e = ground arith

    above : ltb w.room 8 ≡ false → 8 ≤ w.room
    above e = ground arith

module _ (json : Json) (f : Frame) (raw : Text) (w : Sink) where
  -- A frame that the connection has room for is on it.
  pub write_fits :
      json.marshal (with_version f) ≡ some raw
      → length raw ≤ max_body
      → 8 + length raw ≤ w.room
      → write json f w
        ≡ (record { out = w.out ++ header raw ++ raw; room = w.room - 8 - length raw }, none)
  unfolding write
  write_fits e h k = ground (arith, e, write_raw_fits raw w k)

  -- Of another, the first bytes are.
  pub write_short :
      json.marshal (with_version f) ≡ some raw
      → length raw ≤ max_body
      → w.room < 8 + length raw
      → write json f w
        ≡ (record { out = w.out ++ take w.room (header raw ++ raw); room = 0 }, some broken)
  unfolding write
  write_short e h k = ground (arith, e, write_raw_short raw w k)
