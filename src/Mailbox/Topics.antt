-- ===== src/Mailbox/Topics.antt =====
-- internal/mailbox/mailbox.go: `Pub`, `Sub` and the last-value cache.
use zmqcat.Base.{
  ℕ, Bool, true, false, not, ◌&&◌, Option, none, some, List, [], ◌∷◌, ◌++◌, Text, length, ltb, leb,
  ◌==◌, is_empty, has_prefix, if◌then◌else◌,
}
use zmqcat.Base.Dict.{Dict, lookup, insert, erase, arrange}
use zmqcat.Mailbox.Defs.{
  Error, err_closed, err_too_large, err_bad_name, Env, Msg, Sub, Bus, max_cached_topics,
}
use zmqcat.Mailbox.Index.{is_some}
use zmqcat.Mailbox.Boxes.{send, close_chan, make_chan}

unfoldable pub match_prefix : Text → Text → Bool
unfolding has_prefix
match_prefix topic prefix = has_prefix topic prefix

unfoldable pub match_topic : Text → Text → Bool
unfolding match_prefix
match_topic topic prefix = if is_empty prefix then true else match_prefix topic prefix

-- The buffer of a subscription.
abbrev pub sub_buffer : ℕ
sub_buffer = 64

-- `select { case ch <- msg: default: }`
unfoldable pub offer : ℕ → Msg → Bus → Bus
unfolding send
offer c m b = if ltb (length (b.chans c).buf) sub_buffer then send c m b else b

unfoldable pub publish : List Sub → Msg → Bus → Bus
publish [] m b = b
publish (s ∷ subs) m b = publish subs m (if match_topic m.name s.prefix then offer s.ch m b else b)

unfoldable pub evict_first : Dict Msg → Dict Msg → Dict Msg
evict_first [] last = last
evict_first ((k, m) ∷ entries) last = erase k last

-- A full cache gives up the entry that the range over it visits first.
unfoldable pub make_room : Env → Text → Dict Msg → Dict Msg
unfolding evict_first
make_room e topic last =
    if not (is_some (lookup topic last)) && leb max_cached_topics (length last)
    then evict_first (arrange e.order last) last
    else last

unfoldable pub pub_msg : Env → Text → Msg → Bus → Bus × Option Error
pub_msg e topic m b =
    let m' = record m { name = topic; at_time = if m.at_time == 0 then e.now else m.at_time } in
    let b' = record b { last = insert topic m' (make_room e topic b.last) } in
    if is_empty topic
    then (b, some err_bad_name)
    else if ltb b.max_body (length m.body)
    then (b, some err_too_large)
    else if b.closed
    then (b, some err_closed)
    else (publish b.subs m' b', none)

-- The replay of the last values to a new subscriber.
unfoldable pub replay : Dict Msg → Text → ℕ → Bus → Bus
replay [] prefix c b = b
replay ((topic, m) ∷ entries) prefix c b =
    replay entries prefix c (if match_topic topic prefix then offer c m b else b)

-- The channel is returned with the error too, closed.
unfoldable pub sub : Env → Text → Bus → Bus × ℕ × Option Error
sub e prefix b =
    let c = b.next_chan in
    let b' = make_chan (record { buf = []; shut = false }) b in
    let b'' = record b' { subs = b'.subs ++ record { prefix = prefix; ch = c } ∷ [] } in
    if b.closed
    then (close_chan c b', c, some err_closed)
    else (replay (arrange e.order b.last) prefix c b'', c, none)

unfoldable pub remove_sub : ℕ → List Sub → List Sub
remove_sub c [] = []
remove_sub c (s ∷ subs) = let rest = remove_sub c subs in if s.ch == c then rest else s ∷ rest

unfoldable pub close_sub : ℕ → List Sub → Bus → Bus
close_sub c [] b = b
close_sub c (s ∷ subs) b = close_sub c subs (if s.ch == c then close_chan s.ch b else b)

-- `unsub`, which `Sub`'s cancel function calls once.
unfoldable pub unsub : ℕ → Bus → Bus
unfolding remove_sub close_sub
unsub c b = record (close_sub c b.subs b) { subs = remove_sub c b.subs }
