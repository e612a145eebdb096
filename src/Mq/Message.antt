-- ===== src/Mq/Message.antt =====
-- The messages of pkg/mq/mq.go and what pkg/mq/nats.go makes of them on the way out and in. JSON and the
-- connection are outside; `B` is the type of the byte slices and `T` that of the times.
use goupter.Prelude.{
  is_none, Bool, false, String, Option, none, some, List, [], ◌∷◌, ◌==◌, string_key, if◌then◌else◌,
}
use goupter.Prelude.Dict.{lookup, insert}

-- `timestamp` is none for the zero time, and `headers` for the nil map.
pub record Message (B T : Type 0) : Type 0 where
  pub id : String
  pub topic : String
  pub payload : B
  pub headers : Option (List (String × String))
  pub timestamp : Option T
  pub reply_to : String

pub data PublishError (E : Type 0) : Type 0 where
  marshal_failed : PublishError E
  publish_failed : E → PublishError E

module _ {B T : Type 0} where
  -- `id` is `generateID()`.
  unfoldable pub new_message : String → T → String → B → Message B T
  new_message id now topic payload = record {
    id = id;
    topic = topic;
    payload = payload;
    headers = some [];
    timestamp = some now;
    reply_to = "";
  }

  unfoldable pub set_header : Message B T → String → String → Message B T
  set_header m key value = elim m.headers [
    | none ↦ record m { headers = some ((key, value) ∷ []) }
    | some headers ↦ record m { headers = some (insert key value headers) }
  ]

  unfoldable pub get_header : Message B T → String → String
  get_header m key = elim m.headers [
    | none ↦ ""
    | some headers ↦ elim (lookup key headers) [ none ↦ "" | some value ↦ value ]
  ]

  -- The first lines of `Publish` and `Request`, which set the caller's message; `uuid` and `now` are
  -- what `uuid.New()` and `time.Now()` would answer.
  unfoldable pub prepare : String → T → String → Message B T → Message B T
  prepare uuid now topic m = record m {
    id = if m.id == "" then uuid else m.id;
    timestamp = elim m.timestamp [ none ↦ some now | some t ↦ some t ];
    topic = topic;
  }

  -- What comes in: a message, or the bytes as they are.
  unfoldable pub receive : (B → Option (Message B T)) → T → String → B → Message B T
  receive unmarshal now subject bytes = elim (unmarshal bytes) [
    | some m ↦ m
    | none ↦ record {
      id = "";
      topic = subject;
      payload = bytes;
      headers = none;
      timestamp = some now;
      reply_to = "";
    }
  ]

  module _ {E : Type 0} (marshal : Message B T → Option B) where
    -- `Publish`: the message as it leaves it, and its error. `send` is `conn.Publish`.
    unfoldable pub publish :
        (String → B → Option E)
        → String
        → T
        → String
        → Message B T
        → Message B T × Option (PublishError E)
    unfolding prepare
    publish send uuid now topic m =
        let m' = prepare uuid now topic m in
        elim (marshal m') [
          | none ↦ (m', some marshal_failed)
          | some bytes ↦ elim (send topic bytes) [
            | some e ↦ (m', some (publish_failed e))
            | none ↦ (m', none)
          ]
        ]

-- What `Subscribe` gives the library: the handler gets the message, and its error is logged if there is a
-- logger. The message, and whether the error was logged.
unfoldable pub deliver :
    {B T E : Type 0}
    → (B → Option (Message B T))
    → (Message B T → Option E)
    → Bool
    → T
    → String
    → B
    → Message B T × Bool
unfolding receive
deliver unmarshal handler has_logger now subject bytes =
    let m = receive unmarshal now subject bytes in
    (m, if is_none (handler m) then false else has_logger)
