-- ===== src/Timeout/Safety.antt =====
-- What reaches the client through `executeWithTimeout`.
use goupter.Prelude.{
  ℕ, ◌≡◌, refl, Bool, true, false, none, some, List, [], ◌++◌, if◌then◌else◌, arith,
}
use goupter.Timeout.Writer.{
  OutCall, Writer, new_writer, set_header, write_header, write_header_now, write, mark_timed_out,
  commit_to_original, deadline_exceeded,
}
use goupter.Timeout.Machine.{
  WriterOp, apply, Caller, Exchange, start, Step, Reach, closed, waiting, committed, timing_out,
  replied, panicked, handle, return, panic, close, expire, rethrow, rethrow_done, commit, time_out,
  reply_timeout, here, next,
}

-- What has been called on the original writer, by the state of the caller.
abbrev pub expected : {P : Type 0} → List OutCall → Exchange P → List OutCall
expected reply s = elim s.caller [
  | waiting ↦ []
  | committed ↦ (commit_to_original s.writer).0
  | timing_out ↦ []
  | replied ↦ reply
  | panicked p ↦ []
]

-- The caller has left by its timeout.
abbrev pub has_timed_out : {P : Type 0} → Caller P → Bool
has_timed_out waiting = false
has_timed_out committed = false
has_timed_out timing_out = true
has_timed_out replied = true
has_timed_out (panicked p) = false

pub record Inv {P : Type 0} (reply : List OutCall) (s : Exchange P) : Type 0 where
  pub sent_out : s.out ≡ expected reply s
  pub marked : s.writer.timed_out ≡ has_timed_out s.caller
  pub finished : s.caller ≡ committed → s.worker ≡ closed none

-- The writer refuses, or takes, what it is given.
pub record Refuses (refuses : Bool) (w : Writer) (bytes : List ℕ) : Type 0 where
  pub answer : (write w bytes).2 ≡ (if refuses then some deadline_exceeded else none)
  pub body : (write w bytes).0.body ≡ (if refuses then w.body else w.body ++ bytes)
  pub committed : (commit_to_original w).1 ≡ (if refuses then some deadline_exceeded else none)
  pub uncalled : (if refuses then (commit_to_original w).0 else []) ≡ []

Refuses-marked :
    (refuses : Bool) (w : Writer) (bytes : List ℕ) → w.timed_out ≡ refuses → Refuses refuses w bytes
unfolding write write_header_now commit_to_original
Refuses-marked true w bytes h = ground arith
Refuses-marked false w bytes h = ground arith

timed_out-apply : (op : WriterOp) (w : Writer) → (apply op w).timed_out ≡ w.timed_out
unfolding apply set_header write_header write_header_now write
timed_out-apply op w = ground arith

Inv-start : {P : Type 0} (reply : List OutCall) → Inv {P = P} reply start
unfolding start new_writer
Inv-start reply = record { sent_out = refl; marked = refl; finished = λ e. cc }

Step-Inv :
    {P : Type 0} (reply : List OutCall) (s t : Exchange P)
    → Step reply s t
    → Inv reply s
    → Inv reply t
unfolding mark_timed_out
Step-Inv reply s t (handle op w e) inv = ground (arith, timed_out-apply op s.writer)
Step-Inv reply s t (return w e) inv = ground arith
Step-Inv reply s t (panic p w e) inv = ground arith
Step-Inv reply s t (close p w e) inv = ground arith
Step-Inv reply s t (expire e) inv = ground arith
Step-Inv reply s t (rethrow p c w e) inv = ground arith
Step-Inv reply s t (rethrow_done p c w e) inv = ground arith
Step-Inv reply s t (commit c w e) inv = ground arith
Step-Inv reply s t (time_out c x e) inv = ground arith
Step-Inv reply s t (reply_timeout c e) inv = ground arith

-- In every state that an exchange can reach, whatever the handlers do, whenever the deadline comes
-- and whichever ready case the caller takes: nothing has reached the original writer while the
-- caller waits, between the mark and the timeout's reply, and after a panic; after a commit, exactly the
-- buffered response has, and the handlers are done; after a timeout exactly the timeout's reply has,
-- whatever the handlers write later. From the mark on, and only then, the writer refuses: a write
-- fails and leaves the body as it is, and the commit fails and calls nothing.
pub Reach-Inv :
    {P : Type 0} (reply : List OutCall) (s : Exchange P)
    → Reach reply start s
    → Inv reply s × ((bytes : List ℕ) → Refuses (has_timed_out s.caller) s.writer bytes)
Reach-Inv {P} reply s r = (from r, λ bytes. Refuses-marked _ s.writer bytes (from r).marked)
  where
    from : {u : Exchange P} → Reach reply start u → Inv reply u
    from here = Inv-start reply
    from (next {t} {u} r st) = Step-Inv reply t u st (from r)
