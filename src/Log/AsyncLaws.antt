-- ===== src/Log/AsyncLaws.antt =====
-- What the asynchronous hook keeps in order, when its worker ends, and what it loses.
use mathlib.Core.List.{append_assoc, append-nil}
use goupter.Prelude.{
  ℕ, zero, suc, ◌+◌, ◌*◌, ◌≤◌, ◌≡◌, refl, ◌⊎◌, inl, inr, true, some, List, [], ◌∷◌, ◌++◌, arith,
  length, length-append,
}
use goupter.Prelude.Int.{pos}
use goupter.Log.Async.{
  Worker, waiting, firing, returned, AsyncHook, new_async_hook, Run, take, fire, done, Caller, send,
  hand_over, skip, close, Reach, Turns,
}

-- The entry that the worker has in hand.
abbrev pub in_hand : {A : Type 0} → Worker A → List A
in_hand (firing e) = e ∷ []
in_hand waiting = []
in_hand returned = []

pub record IsOrdered {A : Type 0} (size : ℕ) (h : AsyncHook A) : Type 0 where
  pub same_size : h.buffer_size ≡ size
  pub room : length h.ch ≤ h.buffer_size
  pub order : h.fired ++ (in_hand h.worker ++ h.ch) ≡ h.sent
  pub only_closed : h.worker ≡ returned → h.cancelled ≡ true

module _ {A : Type 0} where
  Run-IsOrdered : {size : ℕ} (h h' : AsyncHook A) → Run h h' → IsOrdered size h → IsOrdered size h'
  Run-IsOrdered h h' (take e rest w c eq) i = ground arith
  Run-IsOrdered h h' (fire e w eq) i = ground (arith, append_assoc h.fired (e ∷ []) h.ch)
  Run-IsOrdered h h' (done w c eq) i = ground arith

  Caller-IsOrdered :
      {size : ℕ} (h h' : AsyncHook A) → Caller h h' → IsOrdered size h → IsOrdered size h'
  Caller-IsOrdered h h' (send e r eq) i = ground (
    arith,
    length-append h.ch (e ∷ []),
    append_assoc h.fired (in_hand h.worker ++ h.ch) (e ∷ []),
    append_assoc (in_hand h.worker) h.ch (e ∷ []),
  )
  Caller-IsOrdered h h' (hand_over e w c eq) i = ground (arith, append-nil h.fired)
  Caller-IsOrdered h h' (skip e r eq) i = ground arith
  Caller-IsOrdered h h' (close eq) i = ground arith

  new-IsOrdered :
      (size : ℕ) (h : AsyncHook A) → new_async_hook (pos size) ≡ some h → IsOrdered size h
  unfolding new_async_hook
  new-IsOrdered size h e = ground arith

  -- Whatever the goroutines do, the channel holds at most `bufferSize` entries, the entries that the
  -- inner hook was given, the one in the worker's hand and those in the channel are the accepted ones
  -- in the order of acceptance, and the worker returns only after `Close`.
  pub Reach-IsOrdered :
      (size : ℕ) (start h : AsyncHook A)
      → new_async_hook (pos size) ≡ some start
      → Reach start h
      → IsOrdered size h
  Reach-IsOrdered size start _ e Reach.here = new-IsOrdered size start e
  Reach-IsOrdered size start h' e (Reach.run {h = h} r step) =
      Run-IsOrdered h h' step (Reach-IsOrdered size start h e r)
  Reach-IsOrdered size start h' e (Reach.call {h = h} r step) =
      Caller-IsOrdered h h' step (Reach-IsOrdered size start h e r)

  -- How many turns the worker can make at most.
  abbrev turns_left : Worker A → ℕ
  turns_left waiting = 1
  turns_left (firing e) = 2
  turns_left returned = 0

  Run-decreases :
      (h h' : AsyncHook A)
      → Run h h'
      → suc (2 * length h'.ch + turns_left h'.worker) ≤ 2 * length h.ch + turns_left h.worker
  Run-decreases h h' (take e rest w c eq) = ground arith
  Run-decreases h h' (fire e w eq) = ground arith
  Run-decreases h h' (done w c eq) = ground arith

  Turns-decrease :
      (n : ℕ) (start h : AsyncHook A)
      → Turns start n h
      → n + (2 * length h.ch + turns_left h.worker) ≤ 2 * length start.ch + turns_left start.worker
  Turns-decrease zero start _ Turns.stop = omega arith
  Turns-decrease (suc n) start h' (Turns.turn {h = h} ts step) =
      omega (arith, Turns-decrease n start h ts, Run-decreases h h' step)

  Turns-cancelled :
      (n : ℕ) (start h : AsyncHook A)
      → Turns start n h
      → start.cancelled ≡ true
      → h.cancelled ≡ true
  Turns-cancelled zero start _ Turns.stop c = c
  Turns-cancelled (suc n) start h' (Turns.turn {h = h} ts step) c =
      ground (arith, Run-cancelled h h' step, Turns-cancelled n start h ts c)
    where
      Run-cancelled : (h h' : AsyncHook A) → Run h h' → h'.cancelled ≡ h.cancelled
      Run-cancelled h h' (take e rest w c eq) = ground arith
      Run-cancelled h h' (fire e w eq) = ground arith
      Run-cancelled h h' (done w c eq) = ground arith

  -- A closed hook whose worker has not returned can go on.
  progress :
      (h : AsyncHook A) (worker : Worker A)
      → h.worker ≡ worker
      → h.cancelled ≡ true
      → (h.worker ≡ returned) ⊎ ((h' : AsyncHook A) × Run h h')
  progress h waiting w c = inr (record h { worker = returned }, done w c refl)
  progress h (firing e) w c =
      inr (record h { worker = waiting; fired = h.fired ++ e ∷ [] }, fire e w refl)
  progress h returned w c = inl w

  -- After `Close`, with no further send, the worker makes at most two turns for each entry in the
  -- channel and two more, and wherever it stands after some turns it has returned or can make one:
  -- every run of it ends with its return.
  pub Turns-ends :
      (n : ℕ) (start h : AsyncHook A)
      → start.cancelled ≡ true
      → Turns start n h
      → (n ≤ 2 * length start.ch + 2) × ((h.worker ≡ returned) ⊎ ((h' : AsyncHook A) × Run h h'))
  Turns-ends n start h c ts = (
    omega (arith, Turns-decrease n start h ts, turns_left-le start.worker),
    progress h h.worker refl (Turns-cancelled n start h ts c),
  )
    where
      turns_left-le : (w : Worker A) → turns_left w ≤ 2
      turns_left-le waiting = omega arith
      turns_left-le (firing e) = omega arith
      turns_left-le returned = omega arith

  -- `Close` does not wait for the channel: where the worker stands at its select, one turn after the
  -- cancellation may end it with every entry of the channel unseen by the inner hook.
  pub close_loses :
      (h : AsyncHook A)
      → h.worker ≡ waiting
      → (h' : AsyncHook A) × Turns (record h { cancelled = true }) 1 h'
        × (h'.worker ≡ returned)
        × (h'.ch ≡ h.ch)
        × (h'.fired ≡ h.fired)
  close_loses h w = (
    record h { cancelled = true; worker = returned },
    Turns.turn Turns.stop (done w refl refl),
    refl,
    refl,
    refl,
  )
