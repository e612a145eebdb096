-- ===== src/RateLimit/Window.antt =====
-- `SlidingWindowLimiter` of pkg/server/middleware/ratelimit.go. A method holds `l.mu` throughout, so
-- it is one step; the reading of the clock is its argument.
use goupter.Prelude.{String, Bool, true, false, none, some, List, [], string_key, if◌then◌else◌}
use goupter.Prelude.Dict.{lookup, insert, delete_if}
use goupter.Prelude.Int.{ℤ, pos, ◌-ℤ◌, leb_ℤ}
use goupter.Prelude.Word64.{add64}

pub record Window : Type 0 where
  pub count : ℤ
  pub start_time : ℤ

pub record SlidingWindowLimiter : Type 0 where
  pub windows : List (String × Window)
  pub limit : ℤ
  pub window_len : ℤ

unfoldable pub new_limiter : ℤ → ℤ → SlidingWindowLimiter
new_limiter limit window_len = record { windows = []; limit = limit; window_len = window_len }

-- The branch that starts a window.
unfoldable pub open_window : SlidingWindowLimiter → String → ℤ → ℤ → SlidingWindowLimiter × Bool
open_window l key n now = (
  record l { windows = insert key (record { count = n; start_time = now }) l.windows },
  leb_ℤ n l.limit,
)

unfoldable pub allow_n : SlidingWindowLimiter → String → ℤ → ℤ → SlidingWindowLimiter × Bool
unfolding open_window
allow_n l key n now = elim (lookup key l.windows) [
  | none ↦ open_window l key n now
  | some w ↦
      if leb_ℤ l.window_len (now -ℤ w.start_time)
      then open_window l key n now
      else if leb_ℤ (add64 w.count n) l.limit
      then (
        record l { windows = insert key (record w { count = add64 w.count n }) l.windows },
        true,
      )
      else (l, false)
]

unfoldable pub allow : SlidingWindowLimiter → String → ℤ → SlidingWindowLimiter × Bool
unfolding allow_n
allow l key now = allow_n l key (pos 1) now

-- One tick of the loop of `cleanup`, which reads the clock once.
unfoldable pub cleanup : SlidingWindowLimiter → ℤ → SlidingWindowLimiter
cleanup l now = record l {
  windows =
      delete_if (λ key w. leb_ℤ (add64 l.window_len l.window_len) (now -ℤ w.start_time)) l.windows;
}
