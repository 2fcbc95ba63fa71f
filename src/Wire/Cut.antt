-- ===== src/Wire/Cut.antt =====
-- internal/wire/wire.go: a read that stops part way through a frame.
use zmqcat.Base.{
  ℕ, ◌+◌, ◌-◌, ◌≡◌, ◌≤◌, ◌<◌, sym, ap, ◌∙◌, Option, none, some, [], ◌++◌, Text, arith, length, take,
  take-append_add, drop, subst, length-append, length-take, not, ◌==◌, ◌||◌, ltb, if◌then◌else◌,
  inl, inr, Bool-cases, false,
}
use zmqcat.Wire.{
  Json, Source, Answer, failed, Error, read_full, read_body, read_header, read_counted, max_body,
  header, get_uint32, decode, cut_short, err_magic, err_too_big,
}
use zmqcat.Wire.RoundTrip.{length-header, read_full-append, magic_first, length_next}

read_full_short :
    (n : ℕ) (r : Source)
    → length r.avail < n
    → read_full n r ≡ (record r { avail = [] }, r.avail, some (cut_short (length r.avail) r.ending))
unfolding read_full
read_full_short n r h = ground arith

-- What a reader makes of the first `k` bytes of a frame, when no more come.
abbrev pub Stops : Json → Source → ℕ → Type 0
Stops json r k = (e : Error) × (read_counted json r ≡ (record r { avail = [] }, k, failed e))

module _ (json : Json) (r : Source) where
  abbrev after_header : Source × Text × Option Error → Source × ℕ × Answer
  after_header x = elim x.2 [
    | none ↦ read_header json x.1 x.0
    | some e ↦ (x.0, length x.1, failed e)
  ]

  in_header : length r.avail < 8 → Stops json r (length r.avail)
  unfolding read_counted
  in_header h = (cut_short (length r.avail) r.ending, ap after_header (read_full_short 8 r h))

  in_body :
      (raw part : Text)
      → length raw ≤ max_body
      → length part < length raw
      → r.avail ≡ header raw ++ part
      → Stops json r (8 + length part)
  unfolding read_counted read_header read_body
  in_body raw part h k e = (
    cut_short (length part) r.ending,
    ap after_header (
          ap (λ n. read_full n r) (sym (length-header raw))
          ∙ read_full-append (header raw) part r e)
        ∙ ap
            (λ b.
              if not b
              then (r', 8, failed (err_magic (take 4 (header raw))))
              else sized (get_uint32 (drop 4 (header raw))))
            (magic_first raw)
        ∙ ap sized (length_next raw h)
        ∙ in_bounds (length raw) (omega arith) h
        ∙ ap body (read_full_short (length raw) r' k),
  )
    where
      r' : Source
      r' = record r { avail = part }

      sized : ℕ → Source × ℕ × Answer
      sized n =
          if n == 0 || ltb max_body n then (r', 8, failed err_too_big) else read_body json n r'

      in_bounds : (n : ℕ) → 0 < n → n ≤ max_body → sized n ≡ read_body json n r'
      in_bounds n h k = ground arith

      body : Source × Text × Option Error → Source × ℕ × Answer
      body x = (x.0, 8 + length x.1, elim x.2 [ none ↦ decode json x.1 | some e ↦ failed e ])

  -- A read of the first `k` bytes of a frame, when no more come, fails, takes them all, and reports
  -- `k`.
  pub read_counted-take :
      (raw : Text) (k : ℕ)
      → length raw ≤ max_body
      → k < 8 + length raw
      → r.avail ≡ take k (header raw ++ raw)
      → Stops json r k
  read_counted-take raw k h lt e = elim (Bool-cases (ltb k 8)) [
    | inl small ↦ subst (Stops json r) all (in_header (ground (arith, small, all)))
    | inr large ↦
        let more : k ≡ length (header raw) + (k - 8) =
          omega (arith, not_small k large, length-header raw) in
        let rest : length (take (k - 8) raw) ≡ k - 8 =
          omega (arith, length-take (k - 8) raw, not_small k large) in
        subst (Stops json r) (omega (arith, rest, not_small k large)) (
          in_body raw (take (k - 8) raw) h (omega (arith, rest, not_small k large))
            (e ∙ take-append_add k (k - 8) (header raw) raw more))
  ]
    where
      all : length r.avail ≡ k
      all =
          ap length e
          ∙ omega (
            arith,
            length-take k (header raw ++ raw),
            length-append (header raw) raw,
            length-header raw,
          )

      not_small : (k : ℕ) → ltb k 8 ≡ false → 8 ≤ k
      not_small k h = ground arith

  -- At the end of the stream, the error is the stream's own.
  pub read_counted-nil :
      r.avail ≡ [] → read_counted json r ≡ (record r { avail = [] }, 0, failed r.ending)
  unfolding read_counted
  read_counted-nil h =
      ap after_header (read_full_short 8 r (omega (arith, ap length h)))
      ∙ ap (λ xs. (record r { avail = [] }, length xs, failed (cut_short (length xs) r.ending))) h
