-- ===== src/Mailbox/Replaying.antt =====
-- internal/mailbox/mailbox.go: what `Sub` replays to a new subscriber.
use zmqcat.Base.{
  ℕ, suc, ◌+◌, ◌-◌, ◌<◌, ◌≡◌, refl, sym, ap, ◌∙◌, true, false, Option, none, List, [], ◌∷◌, ◌++◌,
  Text, arith, length, take, ltb, length-append, append_assoc, append-nil, if◌then◌else◌,
  Bool-cases, zero, ==_iff, inl, inr,
}
use zmqcat.Base.Dict.{Dict, arrange}
use zmqcat.Mailbox.Defs.{Env, Msg, Bus, Error}
use zmqcat.Mailbox.Boxes.{send, make_chan}
use zmqcat.Mailbox.Topics.{match_topic, sub_buffer, offer, replay, sub}

-- The messages of the topics that pass a filter, in the order of the entries.
unfoldable pub matching : Text → Dict Msg → List Msg
matching prefix [] = []
matching prefix ((topic, m) ∷ entries) =
    let rest = matching prefix entries in if match_topic topic prefix then m ∷ rest else rest

take-suc :
    (n : ℕ) (m : Msg) (rest : List Msg)
    → n < sub_buffer
    → take (sub_buffer - n) (m ∷ rest) ≡ m ∷ take (sub_buffer - (n + 1)) rest
take-suc n m rest h = ap (λ k. take k (m ∷ rest)) e
  where
    e : sub_buffer - n ≡ suc (sub_buffer - (n + 1))
    e = omega (arith, h)

offer-sends :
    (c : ℕ) (m : Msg) (b : Bus)
    → ltb (length (b.chans c).buf) sub_buffer ≡ true
    → ((offer c m b).chans c).buf ≡ (b.chans c).buf ++ m ∷ []
unfolding offer send
offer-sends c m b h = ground (arith, h)

offer-drops :
    (c : ℕ) (m : Msg) (b : Bus) → ltb (length (b.chans c).buf) sub_buffer ≡ false → offer c m b ≡ b
unfolding offer
offer-drops c m b h = rw h refl

take-none : (n : ℕ) (xs : List Msg) → ltb n sub_buffer ≡ false → take (sub_buffer - n) xs ≡ []
take-none n xs h = ap (λ k. take k xs) e
  where
    e : sub_buffer - n ≡ 0
    e = ground (arith, h)

take_nil : (n : ℕ) → take {A = Msg} n [] ≡ []
take_nil zero = refl
take_nil (suc n) = refl

-- What a buffer holds once some messages were offered to it.
filled_up : List Msg → List Msg → List Msg
filled_up buf ms = buf ++ take (sub_buffer - length buf) ms

filled_up-room :
    (buf ms : List Msg) (m : Msg)
    → ltb (length buf) sub_buffer ≡ true
    → filled_up (buf ++ m ∷ []) ms ≡ filled_up buf (m ∷ ms)
unfolding filled_up
filled_up-room buf ms m h =
    let one_more = length-append buf (m ∷ []) in
    ap (λ n. buf ++ m ∷ [] ++ take (sub_buffer - n) ms) one_more
    ∙ append_assoc buf (m ∷ []) (take (sub_buffer - (length buf + 1)) ms)
    ∙ ap (◌++◌ buf) (sym (take-suc (length buf) m ms (ground (arith, h))))

filled_up-full :
    (buf ms ms' : List Msg)
    → ltb (length buf) sub_buffer ≡ false
    → filled_up buf ms ≡ filled_up buf ms'
unfolding filled_up
filled_up-full buf ms ms' h =
    ap (◌++◌ buf) (take-none (length buf) ms h ∙ sym (take-none (length buf) ms' h))

replay-buf :
    (entries : Dict Msg) (prefix : Text) (c : ℕ) (b : Bus)
    → ((replay entries prefix c b).chans c).buf
      ≡ filled_up (b.chans c).buf (matching prefix entries)
unfolding replay matching filled_up
replay-buf [] prefix c b =
    let buf = (b.chans c).buf in
    sym (ap (◌++◌ buf) (take_nil (sub_buffer - length buf)) ∙ append-nil buf)
replay-buf ((topic, m) ∷ entries) prefix c b =
    let buf = (b.chans c).buf in
    let ms = matching prefix entries in
    elim (Bool-cases (match_topic topic prefix)) [
      | inr e ↦
          let first_ : replay ((topic, m) ∷ entries) prefix c b ≡ replay entries prefix c b =
            rw e refl in
          let all : matching prefix ((topic, m) ∷ entries) ≡ ms = rw e refl in
          ap (λ b. (b.chans c).buf) first_
          ∙ replay-buf entries prefix c b
          ∙ ap (filled_up buf) (sym all)
      | inl e ↦
          let b' : Bus = offer c m b in
          let first_ : replay ((topic, m) ∷ entries) prefix c b ≡ replay entries prefix c b' =
            rw e refl in
          let all : matching prefix ((topic, m) ∷ entries) ≡ m ∷ ms = rw e refl in
          let offered : filled_up (b'.chans c).buf ms ≡ filled_up buf (m ∷ ms) =
            elim (Bool-cases (ltb (length buf) sub_buffer)) [
              | inl h ↦ ap (λ x. filled_up x ms) (offer-sends c m b h) ∙ filled_up-room buf ms m h
              | inr h ↦
                  ap (λ b. filled_up (b.chans c).buf ms) (offer-drops c m b h)
                  ∙ filled_up-full buf ms (m ∷ ms) h
            ] in
          ap (λ b. (b.chans c).buf) first_
          ∙ replay-buf entries prefix c b'
          ∙ offered
          ∙ ap (filled_up buf) (sym all)
    ]

-- On an open bus, a new subscriber finds in its buffer the last values of the topics that pass its
-- filter, in the order in which the cache is visited, and of these the first 64.
pub sub-matching :
    (e : Env) (prefix : Text) (b : Bus)
    → b.closed ≡ false
    → let r : Bus × ℕ × Option Error = sub e prefix b in
      (r.0.chans r.1).buf ≡ take sub_buffer (matching prefix (arrange e.order b.last))
unfolding sub make_chan filled_up
sub-matching e prefix b running =
    let entries = arrange e.order b.last in
    let c = b.next_chan in
    let b' : Bus = make_chan (record { buf = []; shut = false }) b in
    let b'' : Bus = record b' { subs = b'.subs ++ record { prefix = prefix; ch = c } ∷ [] } in
    let same : sub e prefix b ≡ (replay entries prefix c b'', c, none) = rw running refl in
    let empty : (b''.chans c).buf ≡ [] = ground (arith, ==_iff c c) in
    ap (λ (r : Bus × ℕ × Option Error). (r.0.chans r.1).buf) same
    ∙ replay-buf entries prefix c b''
    ∙ ap (λ x. filled_up x (matching prefix entries)) empty
