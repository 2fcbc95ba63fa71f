-- ===== src/Wire/Counting.antt =====
-- internal/wire/wire.go: the byte count that `ReadCounted` reports.
use zmqcat.Base.{
  ℕ, ◌+◌, ◌≡◌, ◌≤◌, refl, sym, ap, ◌∙◌, Option, none, some, [], ◌∷◌, ◌++◌, Text, arith,
  append_assoc, append-nil, length, take, drop, length-append, take-append-drop, length-take,
  text_eq, subst, if_elim, false, not, ◌==◌, ◌||◌, ltb,
}
use zmqcat.Wire.{
  Json, Frame, Source, Answer, frame, failed, Error, read_full, read_body, read_header,
  read_counted, max_body, get_uint32, magic, err_magic, err_too_big,
}

-- What a read consumed, and that the count is right.
pub record Consumed (r r' : Source) (n : ℕ) : Type 0 where
  pub bytes : Text
  pub parted : r.avail ≡ bytes ++ r'.avail
  pub counted : length bytes ≡ n
  pub same_ending : r'.ending ≡ r.ending

read_full-Consumed : (n : ℕ) (r : Source) → Consumed r (read_full n r).0 (length (read_full n r).1)
unfolding read_full
read_full-Consumed n r = record {
  bytes = (read_full n r).1;
  parted = ground (arith, take-append-drop n r.avail, append-nil r.avail);
  counted = refl;
  same_ending = ground arith;
}

full_length : (n : ℕ) (r : Source) → (read_full n r).2 ≡ none → length (read_full n r).1 ≡ n
unfolding read_full
full_length n r h = ground (arith, length-take n r.avail)

Consumed-trans :
    {r r' r'' : Source} {n m : ℕ} → Consumed r r' n → Consumed r' r'' m → Consumed r r'' (n + m)
Consumed-trans {r'' = r''} c c' = record {
  bytes = c.bytes ++ c'.bytes;
  parted = c.parted ∙ ap (◌++◌ c.bytes) c'.parted ∙ sym (append_assoc c.bytes c'.bytes r''.avail);
  counted = omega (arith, length-append c.bytes c'.bytes, c.counted, c'.counted);
  same_ending = c'.same_ending ∙ c.same_ending;
}

read_full-length : (n : ℕ) (r : Source) → length (read_full n r).1 ≤ n
unfolding read_full
read_full-length n r = ground (arith, length-take n r.avail)

-- After the header, `m` more bytes are read.
record Reads (r : Source) (x : Source × ℕ × Answer) : Type 0 where
  m : ℕ
  total : x.1 ≡ 8 + m
  in_bounds : m ≤ max_body
  consumed : Consumed r x.0 m

nothing-Consumed : (r : Source) → Consumed r r 0
nothing-Consumed r = record { bytes = []; parted = refl; counted = refl; same_ending = refl }

in_range : (n : ℕ) → (n == 0 || ltb max_body n) ≡ false → n ≤ max_body
in_range n h = ground arith

no_bytes : (xs : Text) → length xs ≡ 0 → xs ≡ []
no_bytes [] h = refl
no_bytes (x ∷ xs) h = absurd (omega arith)

module _ (json : Json) where
  read_body-Reads : (n : ℕ) (r : Source) → n ≤ max_body → Reads r (read_body json n r)
  unfolding read_body
  read_body-Reads n r h = record {
    m = length (read_full n r).1;
    total = refl;
    in_bounds = omega (arith, read_full-length n r);
    consumed = read_full-Consumed n r;
  }

  read_header-Reads : (hdr : Text) (r : Source) → Reads r (read_header json hdr r)
  unfolding read_header
  read_header-Reads hdr r =
      if_elim (Reads r) (not (text_eq (take 4 hdr) magic)) (λ _. stopped (err_magic (take 4 hdr)))
        λ _.
          if_elim (Reads r) (n == 0 || ltb max_body n) (λ _. stopped err_too_big)
            (λ h. read_body-Reads n r (in_range n h))
    where
      n : ℕ
      n = get_uint32 (drop 4 hdr)

      stopped : (e : Error) → Reads r (r, 8, failed e)
      stopped e = record {
        m = 0;
        total = omega arith;
        in_bounds = omega arith;
        consumed = nothing-Consumed r;
      }

  -- The bytes that `ReadCounted` reports are exactly those that it took from the stream, whatever
  -- the outcome.
  pub read_counted-Consumed :
      (r : Source) → Consumed r (read_counted json r).0 (read_counted json r).1
  unfolding read_counted
  read_counted-Consumed r = go (read_full 8 r).2 refl
    where
      first_ : Consumed r (read_full 8 r).0 (length (read_full 8 r).1)
      first_ = read_full-Consumed 8 r

      go :
          (x : Option Error)
          → (read_full 8 r).2 ≡ x
          → let a : Source × ℕ × Answer = elim x [
            | none ↦ read_header json (read_full 8 r).1 (read_full 8 r).0
            | some e ↦ ((read_full 8 r).0, length (read_full 8 r).1, failed e)
          ] in
            Consumed r a.0 a.1
      go none h =
          let rest = read_header-Reads (read_full 8 r).1 (read_full 8 r).0 in
          subst (Consumed r _) (sym rest.total)
            (Consumed-trans (subst (Consumed r _) (full_length 8 r h) first_) rest.consumed)
      go (some e) h = first_

  -- A failed read that reports no bytes has left the stream as it was, so that the next read starts
  -- at the same frame.
  pub read_counted-zero : (r : Source) → (read_counted json r).1 ≡ 0 → (read_counted json r).0 ≡ r
  read_counted-zero r h =
      let c = read_counted-Consumed r in
      let nothing = no_bytes c.bytes (c.counted ∙ h) in
      ap (λ xs. record { avail = xs; ending = (read_counted json r).0.ending })
        (sym (c.parted ∙ ap (λ xs. xs ++ (read_counted json r).0.avail) nothing))
      ∙ ap (λ x. record { avail = r.avail; ending = x }) c.same_ending

  -- A read takes at most a header and the largest body.
  pub read_counted-bound : (r : Source) → (read_counted json r).1 ≤ 8 + max_body
  unfolding read_counted
  read_counted-bound r = go (read_full 8 r).2
    where
      go :
          (x : Option Error)
          → let a : Source × ℕ × Answer = elim x [
            | none ↦ read_header json (read_full 8 r).1 (read_full 8 r).0
            | some e ↦ ((read_full 8 r).0, length (read_full 8 r).1, failed e)
          ] in
            a.1 ≤ 8 + max_body
      go none =
          let rest = read_header-Reads (read_full 8 r).1 (read_full 8 r).0 in
          omega (arith, rest.total, rest.in_bounds)
      go (some e) = omega (arith, read_full-length 8 r)

  -- A frame is never found in less than a header.
  pub read_counted-frame :
      (r : Source) (f : Frame) → (read_counted json r).2 ≡ frame f → 8 ≤ (read_counted json r).1
  unfolding read_counted
  read_counted-frame r f h = go (read_full 8 r).2 h
    where
      go :
          (x : Option Error)
          → let a : Source × ℕ × Answer = elim x [
            | none ↦ read_header json (read_full 8 r).1 (read_full 8 r).0
            | some e ↦ ((read_full 8 r).0, length (read_full 8 r).1, failed e)
          ] in
            a.2 ≡ frame f → 8 ≤ a.1
      go none h = omega (arith, (read_header-Reads (read_full 8 r).1 (read_full 8 r).0).total)
      go (some e) h = ground (arith, h)
