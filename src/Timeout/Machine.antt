-- ===== src/Timeout/Machine.antt =====
-- `executeWithTimeout` of pkg/server/middleware/timeout.go as a step relation: the goroutine that runs
-- the handlers on the buffered writer, the clock, and the `select` of the caller. Each step is what
-- one of the three does between two points where another may run.
use goupter.Prelude.{ℕ, String, Bool, true, false, ◌≡◌, Option, none, some, List, [], ◌++◌}
use goupter.Prelude.Int.{ℤ}
use goupter.Timeout.Writer.{
  OutCall, Writer, new_writer, set_header, write_header, write_header_now, write, mark_timed_out,
  commit_to_original,
}

-- What a handler may do to its writer.
pub data WriterOp : Type 0 where
  set_header_op : String → List String → WriterOp
  write_header_op : ℤ → WriterOp
  flush_op : WriterOp
  write_op : List ℕ → WriterOp

unfoldable pub apply : WriterOp → Writer → Writer
apply (set_header_op key values) w = set_header w key values
apply (write_header_op code) w = write_header w code
apply flush_op w = write_header_now w
apply (write_op bytes) w = (write w bytes).0

-- The goroutine runs the handlers; a recovered panic is sent before `done` is closed.
pub data Worker (P : Type 0) : Type 0 where
  working : Worker P
  sent : P → Worker P
  closed : Option P → Worker P

-- `panicked` is the panic of the caller; `timing_out` is after `markTimedOut`, before `onTimeout`.
pub data Caller (P : Type 0) : Type 0 where
  waiting : Caller P
  committed : Caller P
  timing_out : Caller P
  replied : Caller P
  panicked : P → Caller P

-- `out` is what has been called on the original writer, in order.
pub record Exchange (P : Type 0) : Type 0 where
  pub writer : Writer
  pub worker : Worker P
  pub caller : Caller P
  pub expired : Bool
  pub out : List OutCall

unfoldable pub start : {P : Type 0} → Exchange P
unfolding new_writer
start = record {
  writer = new_writer;
  worker = working;
  caller = waiting;
  expired = false;
  out = [];
}

-- `reply` is what `onTimeout` calls on the original writer.
pub data Step {P : Type 0} (reply : List OutCall) (s t : Exchange P) : Type 0 where
  handle :
      (op : WriterOp)
      → s.worker ≡ working
      → t ≡ record s { writer = apply op s.writer }
      → Step reply s t
  return : s.worker ≡ working → t ≡ record s { worker = closed none } → Step reply s t
  panic : (p : P) → s.worker ≡ working → t ≡ record s { worker = sent p } → Step reply s t
  close : (p : P) → s.worker ≡ sent p → t ≡ record s { worker = closed (some p) } → Step reply s t
  expire : t ≡ record s { expired = true } → Step reply s t
  -- `case p := <-panicChan`, before `done` is closed or after it.
  rethrow :
      (p : P)
      → s.caller ≡ waiting
      → s.worker ≡ sent p
      → t ≡ record s { caller = panicked p }
      → Step reply s t
  rethrow_done :
      (p : P)
      → s.caller ≡ waiting
      → s.worker ≡ closed (some p)
      → t ≡ record s { caller = panicked p }
      → Step reply s t
  -- `case <-done` without a panic.
  commit :
      s.caller ≡ waiting
      → s.worker ≡ closed none
      → t ≡ record s { caller = committed; out = s.out ++ (commit_to_original s.writer).0 }
      → Step reply s t
  -- `case <-ctx.Done()`, also when another case is ready.
  time_out :
      s.caller ≡ waiting
      → s.expired ≡ true
      → t ≡ record s { caller = timing_out; writer = mark_timed_out s.writer }
      → Step reply s t
  reply_timeout :
      s.caller ≡ timing_out
      → t ≡ record s { caller = replied; out = s.out ++ reply }
      → Step reply s t

-- What some steps from `s` lead to.
pub data Reach {P : Type 0} (reply : List OutCall) (s : Exchange P) : Exchange P → Type 0 where
  here : Reach reply s s
  next : {t u : Exchange P} → Reach reply s t → Step reply t u → Reach reply s u
