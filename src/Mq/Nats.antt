-- ===== src/Mq/Nats.antt =====
-- The subscriptions of the `NATSClient` of pkg/mq/nats.go. A subscription of the library is a handle, a
-- number; `conn.Subscribe` answers one that is new, or an error. The map stands under a lock, and the
-- calls on handles are recorded.
use goupter.Prelude.{
  ℕ, append, ◌≡◌, String, Bool, true, false, Option, none, some, List, [], ◌∷◌, ◌++◌, ◌==◌,
  string_key, nat_key, ◌||◌,
}
use goupter.Prelude.Dict.{lookup, insert, delete}

-- `opened` are the handles that the library gave, and `ended` those that were unsubscribed or whose
-- connection was closed. `connected` is true until the client closes the connection.
pub record NatsClient : Type 0 where
  pub subscriptions : List (String × ℕ)
  pub opened : List ℕ
  pub ended : List ℕ
  pub connected : Bool

unfoldable pub has_handle : ℕ → List ℕ → Bool
has_handle s [] = false
has_handle s (t ∷ ts) = (t == s) || has_handle s ts

-- Both calls of the library, and the line `c.subscriptions[key] = sub`.
unfoldable pub track : String → ℕ → NatsClient → NatsClient
track key sub c = record c {
  subscriptions = insert key sub c.subscriptions;
  opened = sub ∷ c.opened;
}

-- `answer` is the handle of `conn.Subscribe`, or none for its error, which is the result.
unfoldable pub subscribe : String → Option ℕ → NatsClient → NatsClient × Bool
unfolding track
subscribe topic answer c = elim answer [ none ↦ (c, false) | some sub ↦ (track topic sub c, true) ]

unfoldable pub queue_key : String → String → String
queue_key topic queue = append topic (append ":" queue)

unfoldable pub queue_subscribe : String → String → Option ℕ → NatsClient → NatsClient × Bool
unfolding track queue_key
queue_subscribe topic queue answer c = elim answer [
  | none ↦ (c, false)
  | some sub ↦ (track (queue_key topic queue) sub c, true)
]

-- The result of `sub.Unsubscribe()` changes the answer only.
unfoldable pub unsubscribe : String → NatsClient → NatsClient
unsubscribe topic c = elim (lookup topic c.subscriptions) [
  | none ↦ c
  | some sub ↦ record c { subscriptions = delete topic c.subscriptions; ended = sub ∷ c.ended }
]

unfoldable pub handles : List (String × ℕ) → List ℕ
handles [] = []
handles ((key, sub) ∷ rest) = sub ∷ handles rest

-- `conn.Close()` ends every subscription of the connection.
unfoldable pub close : NatsClient → NatsClient
unfolding handles
close c = record c {
  subscriptions = [];
  ended = c.opened ++ (handles c.subscriptions ++ c.ended);
  connected = false;
}

-- A call of the client; the library's handles are new, and a closed connection gives none.
pub data ClientStep (c : NatsClient) (c' : NatsClient) : Type 0 where
  subscribed :
      (topic : String) (sub : ℕ)
      → c.connected ≡ true
      → has_handle sub c.opened ≡ false
      → c' ≡ (subscribe topic (some sub) c).0
      → ClientStep c c'
  queue_subscribed :
      (topic queue : String) (sub : ℕ)
      → c.connected ≡ true
      → has_handle sub c.opened ≡ false
      → c' ≡ (queue_subscribe topic queue (some sub) c).0
      → ClientStep c c'
  unsubscribed : (topic : String) → c' ≡ unsubscribe topic c → ClientStep c c'
  closed : c' ≡ close c → ClientStep c c'

pub data Reach (start : NatsClient) : NatsClient → Type 0 where
  here : Reach start start
  next : {c c' : NatsClient} → Reach start c → ClientStep c c' → Reach start c'

unfoldable pub new_nats_client : NatsClient
new_nats_client = record { subscriptions = []; opened = []; ended = []; connected = true }
