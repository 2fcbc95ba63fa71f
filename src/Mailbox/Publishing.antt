-- ===== src/Mailbox/Publishing.antt =====
-- internal/mailbox/mailbox.go: what `Pub` and `Sub` put into the buffers of subscribers.
use zmqcat.Base.{
  ℕ, suc, ◌≡◌, refl, sym, ap, ◌∙◌, subst, ◌↔◌, Bool, true, ◌&&◌, none, List, [], ◌∷◌, ◌++◌, Text,
  arith, length, ltb, ◌==◌, if◌then◌else◌, drop, has_prefix, has_prefix-append, has_prefix→append,
  count, ==_iff,
}
use zmqcat.Base.Dict.{insert}
use zmqcat.Mailbox.Defs.{Env, Msg, Bus, Sub}
use zmqcat.Mailbox.Topics.{
  pub_msg, publish, offer, match_topic, match_prefix, sub_buffer, make_room,
}
use zmqcat.Mailbox.Boxes.{send}
use zmqcat.Mailbox.Caching.{published}

-- A topic passes a filter just if it continues the filter; the empty filter takes all.
pub match_topic_iff :
    (topic prefix : Text)
    → (match_topic topic prefix ≡ true) ↔ ((rest : Text) × (topic ≡ prefix ++ rest))
unfolding match_topic match_prefix
match_topic_iff topic [] = (λ h. (topic, refl), λ x. refl)
match_topic_iff topic (c ∷ prefix) = (
  λ h. (drop (suc (length prefix)) topic, has_prefix→append topic (c ∷ prefix) h),
  λ (rest, e).
      subst (λ t. has_prefix t (c ∷ prefix) ≡ true) (sym e) (has_prefix-append (c ∷ prefix) rest),
)

-- What a subscriber finds in its buffer after a message was offered: the message at the end, if
-- its topic passes the filter and there is room, and else what was there.
unfoldable pub offered : Msg → Text → List Msg → List Msg
offered m prefix buf =
    if match_topic m.name prefix && ltb (length buf) sub_buffer then buf ++ m ∷ [] else buf

unfoldable pub on_chan : ℕ → Sub → Bool
on_chan c s = s.ch == c

publish-other :
    (subs : List Sub) (m : Msg) (b : Bus) (c : ℕ)
    → count (on_chan c) subs ≡ 0
    → (publish subs m b).chans c ≡ b.chans c
unfolding publish offer send on_chan
publish-other [] m b c h = refl
publish-other (s ∷ subs) m b c h =
    publish-other subs m (if match_topic m.name s.prefix then offer s.ch m b else b) c
      (ground (arith, h))
    ∙ ground (arith, h, ==_iff s.ch c, ==_iff c s.ch)

publish-own :
    (before after : List Sub) (s : Sub) (m : Msg) (b : Bus)
    → count (on_chan s.ch) before ≡ 0
    → count (on_chan s.ch) after ≡ 0
    → ((publish (before ++ s ∷ after) m b).chans s.ch).buf ≡ offered m s.prefix (b.chans s.ch).buf
unfolding publish offer send on_chan offered
publish-own [] after s m b h k =
    ap (λ c. c.buf)
      (publish-other after m (if match_topic m.name s.prefix then offer s.ch m b else b) s.ch k)
    ∙ ground (arith, ==_iff s.ch s.ch)
publish-own (t ∷ before) after s m b h k =
    publish-own before after s m (if match_topic m.name t.prefix then offer t.ch m b else b)
      (ground (arith, h)) k
    ∙ ap (offered m s.prefix) (ground (arith, h, ==_iff t.ch s.ch, ==_iff s.ch t.ch))

-- What `Pub` leaves of a message that it accepts: a subscriber, whose channel is no other
-- subscriber's, has it at the end of its buffer if the topic passes its filter and fewer than 64
-- messages wait there. Otherwise the subscriber misses the message, and its buffer is as before.
pub pub_msg-offered :
    (e : Env) (topic : Text) (m : Msg) (b : Bus) (before after : List Sub) (s : Sub)
    → b.subs ≡ before ++ s ∷ after
    → count (on_chan s.ch) before ≡ 0
    → count (on_chan s.ch) after ≡ 0
    → (pub_msg e topic m b).1 ≡ none
    → ((pub_msg e topic m b).0.chans s.ch).buf
      ≡ offered (published e topic m) s.prefix (b.chans s.ch).buf
unfolding pub_msg published
pub_msg-offered e topic m b before after s listed h k accepted =
    ground (arith, accepted)
    ∙ ap (λ subs. ((publish subs m' b').chans s.ch).buf) listed
    ∙ publish-own before after s m' b' h k
  where
    m' : Msg
    m' = published e topic m

    b' : Bus
    b' = record b { last = insert topic m' (make_room e topic b.last) }
