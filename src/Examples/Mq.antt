-- ===== src/Examples/Mq.antt =====
-- Examples about pkg/mq.
use goupter.Prelude.{ℕ, ◌≡◌, refl, String, true, false, none, some, [], ◌∷◌, string_key}
use goupter.Prelude.Dict.{lookup, insert}
use goupter.Mq.Message.{
  Message, PublishError, new_message, set_header, get_header, prepare, receive, publish, deliver,
}
use goupter.Mq.Nats.{
  NatsClient, has_handle, subscribe, queue_subscribe, unsubscribe, close, subscribed, unsubscribed,
  Reach, new_nats_client,
}
use goupter.Mq.NatsLaws.{
  IsTracked, IsLost, Reach-IsTracked, subscribe_again-IsLost, unsubscribe-close_ends,
}

abbrev one : NatsClient
unfolding new_nats_client subscribe insert
one = (subscribe "orders" (some 1) new_nats_client).0

one-Reach : Reach new_nats_client one
unfolding one has_handle new_nats_client
one-Reach = Reach.next Reach.here (subscribed "orders" 1 refl refl refl)

Reach-IsTracked_example : IsTracked one
Reach-IsTracked_example = Reach-IsTracked one one-Reach

unsubscribe-close_ends_example :
    (has_handle 1 one.ended ≡ false)
    × (has_handle 1 (unsubscribe "orders" one).ended ≡ true)
    × (lookup "orders" (unsubscribe "orders" one).subscriptions ≡ none)
    × (has_handle 1 (close one).ended ≡ true)
unfolding one lookup
unsubscribe-close_ends_example = unsubscribe-close_ends one "orders" 1 one-Reach refl

-- Subscribed again and unsubscribed: the first handle is still open.
subscribe_again-IsLost_example : IsLost 1 (unsubscribe "orders" (subscribe "orders" (some 2) one).0)
unfolding one lookup has_handle
subscribe_again-IsLost_example =
    subscribe_again-IsLost one _ "orders" 1 2 one-Reach refl refl
      (Reach.next Reach.here (unsubscribed "orders" refl))

-- A queue subscription and a subscription of the text with the colon share a key.
shared_key :
    (queue_subscribe "a" "b" (some 2) (subscribe "a:b" (some 1) new_nats_client).0).0.subscriptions
    ≡ ("a:b", 2) ∷ []
unfolding queue_subscribe subscribe new_nats_client insert
shared_key = refl

-- `Unsubscribe` of the topic leaves its queue subscription.
queue_stays :
    unsubscribe "a" (queue_subscribe "a" "b" (some 2) new_nats_client).0
    ≡ (queue_subscribe "a" "b" (some 2) new_nats_client).0
unfolding queue_subscribe unsubscribe new_nats_client insert lookup
queue_stays = refl

abbrev plain : Message String ℕ
unfolding new_message
plain = record (new_message "" 3 "old" "body") { timestamp = none }

prepared : prepare "u" 5 "orders" plain ≡ new_message "u" 5 "orders" "body"
unfolding prepare new_message plain
prepared = refl

not_json : receive {B = String} {T = ℕ} (λ b. none) 9 "orders" "x" ≡ record {
  id = "";
  topic = "orders";
  payload = "x";
  headers = none;
  timestamp = some 9;
  reply_to = "";
}
unfolding receive
not_json = refl

not_sent :
    publish {E = String} (λ (m : Message String ℕ). none) (λ topic b. none) "u" 5 "orders" plain
    ≡ (new_message "u" 5 "orders" "body", some PublishError.marshal_failed)
unfolding publish new_message plain
not_sent = refl

headers : get_header (set_header plain "k" "v") "k" ≡ "v"
unfolding get_header set_header plain new_message lookup insert
headers = refl

-- The handler's error is logged where there is a logger.
logged : (deliver {E = String} (λ b. some plain) (λ m. some "refused") true 9 "orders" "x").1 ≡ true
unfolding deliver plain new_message
logged = refl
