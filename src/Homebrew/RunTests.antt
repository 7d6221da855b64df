-- ===== src/Homebrew/RunTests.antt =====
-- Runs of the whole package at concrete inputs.
use go_dmr.Base.{refl, none, some, true, false, [], ◌∷◌, ◌++◌, zeros, length, bytes_eq, All}
use go_dmr.Homebrew.State.{auth_none, Peer, Env, lookup, link, repeater_ack, repeater_login}
use go_dmr.Homebrew.Handle.{handle}
use go_dmr.Homebrew.Handle.Confined.{events_of, ToAddress}
use go_dmr.Homebrew.Handle.Sound.{IsIndexed}
use go_dmr.Homebrew.Run.{new, link_peer, links, here, next}
use go_dmr.Homebrew.Run.Invariant.{Reach-IsIndexed}
use go_dmr.Homebrew.Run.Reflection.{Stranger, handle-Reach-reply}

abbrev world : Env
world = record {
  now = 5;
  random = some (1 ∷ 2 ∷ 3 ∷ 4 ∷ []);
  sha256 = λ t. zeros 32;
  equal_fold = bytes_eq;
  write_ok = λ text addr. true;
  callback_ok = λ packet. true;
  config_of = λ t. length t;
  config_data = repeater_ack;
}

abbrev visitor : Peer
visitor = record {
  id = 9;
  addr = 77;
  config = none;
  auth_key = b'k' ∷ [];
  status = auth_none;
  nonce = [];
  token = [];
  incoming = true;
  tg_id = 446;
  unlink_on_auth_failure = false;
  has_callback = false;
  last = record {
    tg_subscribed = 0;
    auth_sent = 0;
    packet_sent = 0;
    packet_received = 0;
    ping_sent = 0;
    ping_received = 0;
    pong_received = 0;
  };
  packed_id = none;
}

Reach-IsIndexed_example : IsIndexed (link (new 5) visitor).0
unfolding link_peer new link
Reach-IsIndexed_example = Reach-IsIndexed 5 (next here (links world visitor [] none refl))

nobody : Stranger (new 5) 77
unfolding new lookup
nobody i p known got = cc

handle-Reach-reply_example :
    All
      (ToAddress 77)
      (events_of (handle world (new 5) 77 (repeater_login ++ (0 ∷ 0 ∷ 0 ∷ 9 ∷ [])) 8))
handle-Reach-reply_example =
    handle-Reach-reply 5 (new 5) world 77 (repeater_login ++ (0 ∷ 0 ∷ 0 ∷ 9 ∷ [])) 8 here nobody
