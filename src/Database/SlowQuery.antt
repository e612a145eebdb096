-- ===== src/Database/SlowQuery.antt =====
-- The `SlowQueryLogger` of pkg/database/slow_query.go, as the records that it writes. The levels are the
-- numbers of gorm's package `logger`.
use goupter.Prelude.{
  ◌≡◌, String, Bool, not, Option, none, some, ◌==◌, string_key, arith, ◌&&◌, if◌then◌else◌,
}
use goupter.Prelude.Int.{ℤ, pos, ◌≤ℤ◌, leb_ℤ, int_key}

abbrev pub silent : ℤ
silent = pos 1

abbrev pub error_level : ℤ
error_level = pos 2

abbrev pub warn_level : ℤ
warn_level = pos 3

abbrev pub info_level : ℤ
info_level = pos 4

-- `has_log` says that the logger is not nil.
pub record SlowQueryLogger : Type 0 where
  pub has_log : Bool
  pub level : ℤ
  pub threshold : ℤ

-- 200 milliseconds.
abbrev pub default_threshold : ℤ
default_threshold = pos 200000000

unfoldable pub log_level_of : String → ℤ
log_level_of text =
    if text == "silent"
    then silent
    else if text == "error"
    then error_level
    else if text == "warn"
    then warn_level
    else if text == "info"
    then info_level
    else warn_level

unfoldable pub new_slow_query_logger : Bool → String → ℤ → SlowQueryLogger
unfolding log_level_of
new_slow_query_logger has_log log_level slow_query_threshold = record {
  has_log = has_log;
  level = log_level_of log_level;
  threshold = if slow_query_threshold == pos 0 then default_threshold else slow_query_threshold;
}

unfoldable pub log_mode : SlowQueryLogger → ℤ → SlowQueryLogger
log_mode l level = record l { level = level }

-- A record by its level and message; those of `Trace` have the query, and the error one the error.
pub data QueryRecord (E : Type 0) : Type 0 where
  sql_error : E → QueryRecord E
  sql_slow : QueryRecord E
  sql_trace : QueryRecord E

-- `Info`, `Warn` and `Error`: whether the message is written.
unfoldable pub writes_at : SlowQueryLogger → ℤ → Bool
writes_at l level = leb_ℤ level l.level && l.has_log

module _ {E : Type 0} where
  unfoldable pub trace : SlowQueryLogger → ℤ → Option E → Option (QueryRecord E)
  trace l elapsed err =
      let slow_or_trace : Option (QueryRecord E) =
        if leb_ℤ l.threshold elapsed && leb_ℤ warn_level l.level
        then some sql_slow
        else if leb_ℤ info_level l.level
        then some sql_trace
        else none in
      if leb_ℤ l.level silent then none else if not l.has_log then none else elim err [
        | none ↦ slow_or_trace
        | some e ↦ if leb_ℤ error_level l.level then some (sql_error e) else slow_or_trace
      ]

  -- What a logger writes of a query it writes at every more verbose level too, as the same record.
  pub trace-log_mode :
      (l : SlowQueryLogger) (level elapsed : ℤ) (err : Option E) (written : QueryRecord E)
      → l.level ≤ℤ level
      → trace l elapsed err ≡ some written
      → trace (log_mode l level) elapsed err ≡ some written
  unfolding trace log_mode
  trace-log_mode l level elapsed err written h e = ground arith
