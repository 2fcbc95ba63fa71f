-- ===== src/Tests/Topics.antt =====
-- Runs of the theorems on topics.
use zmqcat.Base.{◌≡◌, refl, none, [], ◌∷◌, codes, arith}
use zmqcat.Mailbox.Defs.{Bus, Sub}
use zmqcat.Mailbox.Topics.{pub_msg}
use zmqcat.Mailbox.Caching.{Cached, published, pub_msg-Cached}
use zmqcat.Mailbox.Publishing.{offered, pub_msg-offered}
use zmqcat.Tests.{env, no_bus, job}

abbrev listener : Sub
listener = record { prefix = codes "wea"; ch = 0 }

abbrev heard : Bus
heard = record no_bus { subs = listener ∷ []; next_chan = 1 }

pub_accepted : (pub_msg env (codes "weather") job heard).1 ≡ none
unfolding pub_msg
pub_accepted = refl

pub_msg-Cached_example :
    Cached
      (codes "weather")
      (published env (codes "weather") job)
      []
      (pub_msg env (codes "weather") job heard).0.last
pub_msg-Cached_example =
    pub_msg-Cached env (codes "weather") job heard
      (record { distinct = tt; in_bounds = omega arith }) pub_accepted

pub_msg-offered_example :
    ((pub_msg env (codes "weather") job heard).0.chans 0).buf
    ≡ offered (published env (codes "weather") job) (codes "wea") []
pub_msg-offered_example =
    pub_msg-offered env (codes "weather") job heard [] [] listener refl refl refl pub_accepted

abbrev cached : Bus
cached = record no_bus { last = (codes "weather", job) ∷ (codes "sport", job) ∷ [] }
