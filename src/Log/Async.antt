-- ===== src/Log/Async.antt =====
-- The `AsyncHook` of pkg/log/hook.go: a goroutine that takes entries off a buffered channel, beside
-- callers of `Fire` and `Close`. Any of them may step at any time.
use goupter.Prelude.{
  ℕ, zero, suc, ◌<◌, ◌≤◌, ◌≡◌, Bool, true, false, Option, none, some, List, [], ◌∷◌, ◌++◌, length,
}
use goupter.Prelude.Int.{ℤ, pos, negsuc}

-- Where `run` stands: at its select, in the hook's `Fire` with an entry, or returned.
pub data Worker (A : Type 0) : Type 0 where
  waiting : Worker A
  firing : A → Worker A
  returned : Worker A

pub record AsyncHook (A : Type 0) : Type 0 where
  -- The channel `ch` and its capacity.
  pub ch : List A
  pub buffer_size : ℕ
  -- The context is cancelled.
  pub cancelled : Bool
  pub worker : Worker A
  -- The entries that `Fire` has sent, and those that the inner hook has been given.
  pub sent : List A
  pub fired : List A

-- `NewAsyncHook`; `make` panics on a negative size.
unfoldable pub new_async_hook : {A : Type 0} → ℤ → Option (AsyncHook A)
new_async_hook (negsuc n) = none
new_async_hook (pos size) = some (record {
  ch = [];
  buffer_size = size;
  cancelled = false;
  worker = Worker.waiting;
  sent = [];
  fired = [];
})

-- One turn of the loop of `run`: either case of the select that is ready, and the end of the hook's
-- `Fire`, whose error is dropped.
pub data Run {A : Type 0} (h : AsyncHook A) (h' : AsyncHook A) : Type 0 where
  take :
      (e : A) (rest : List A)
      → h.worker ≡ Worker.waiting
      → h.ch ≡ e ∷ rest
      → h' ≡ record h { ch = rest; worker = Worker.firing e }
      → Run h h'
  fire :
      (e : A)
      → h.worker ≡ Worker.firing e
      → h' ≡ record h { worker = Worker.waiting; fired = h.fired ++ e ∷ [] }
      → Run h h'
  done :
      h.worker ≡ Worker.waiting
      → h.cancelled ≡ true
      → h' ≡ record h { worker = Worker.returned }
      → Run h h'

-- What a caller does: `Fire`, whose send is made if the channel has room or if the worker waits for
-- it at an empty channel, and is else skipped, and `Close`.
pub data Caller {A : Type 0} (h : AsyncHook A) (h' : AsyncHook A) : Type 0 where
  send :
      (e : A)
      → length h.ch < h.buffer_size
      → h' ≡ record h { ch = h.ch ++ e ∷ []; sent = h.sent ++ e ∷ [] }
      → Caller h h'
  hand_over :
      (e : A)
      → h.worker ≡ Worker.waiting
      → h.ch ≡ []
      → h' ≡ record h { worker = Worker.firing e; sent = h.sent ++ e ∷ [] }
      → Caller h h'
  skip : (e : A) → h.buffer_size ≤ length h.ch → h' ≡ h → Caller h h'
  close : h' ≡ record h { cancelled = true } → Caller h h'

-- A state that the goroutines reach from a new hook.
pub data Reach {A : Type 0} (start : AsyncHook A) : AsyncHook A → Type 0 where
  here : Reach start start
  run : {h h' : AsyncHook A} → Reach start h → Run h h' → Reach start h'
  call : {h h' : AsyncHook A} → Reach start h → Caller h h' → Reach start h'

-- `n` turns of the worker while no caller sends.
pub data Turns {A : Type 0} (start : AsyncHook A) : ℕ → AsyncHook A → Type 0 where
  stop : Turns start zero start
  turn : {n : ℕ} {h h' : AsyncHook A} → Turns start n h → Run h h' → Turns start (suc n) h'
