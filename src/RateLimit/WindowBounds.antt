-- ===== src/RateLimit/WindowBounds.antt =====
-- What `SlidingWindowLimiter` admits.
use goupter.Prelude.{
  ◌-◌, ◌^◌, String, ◌≡◌, refl, ap, ◌∙◌, ◌⊎◌, inl, inr, Bool, true, false, ◌&&◌, Option, none, some,
  List, [], ◌∷◌, ◌==◌, string_key, arith, All, if◌then◌else◌, Option-cases, Bool-cases,
}
use goupter.Prelude.Dict.{lookup, lookup-insert}
use goupter.Prelude.Int.{
  ℤ, pos, ◌+ℤ◌, ◌-ℤ◌, ◌≤ℤ◌, ◌<ℤ◌, leb_ℤ, leb_ℤ→le, leb_ℤ→lt, le→leb_ℤ, int_laws, +ℤ_parts, pos_part,
  neg_part,
}
use goupter.Prelude.Word64.{add64, Fits64, add64_of_Fits64}
use goupter.RateLimit.Window.{new_limiter, Window, SlidingWindowLimiter, open_window, allow_n}

pub record Request : Type 0 where
  pub key : String
  pub n : ℤ
  pub now : ℤ

-- The total that a row of requests is admitted for on `key`.
pub admitted : String → SlidingWindowLimiter → List Request → ℤ
admitted key l [] = pos 0
admitted key l (r ∷ rs) =
    let outcome = allow_n l r.key r.n r.now in
    let rest = admitted key outcome.0 rs in if r.key == key && outcome.1 then r.n +ℤ rest else rest

-- Amounts and limits far from the ends of `int`.
abbrev pub IsSmall : ℤ → Type 0
IsSmall z = (pos 0 ≤ℤ z) × (z ≤ℤ pos (2 ^ 62 - 1))

-- The request comes before the window that starts at `t` is over, for a small amount.
abbrev pub IsWithin : ℤ → ℤ → Request → Type 0
IsWithin t len r = (r.now -ℤ t <ℤ len) × IsSmall r.n

add64_small : (a b : ℤ) → IsSmall a → IsSmall b → add64 a b ≡ a +ℤ b
add64_small a b h k = add64_of_Fits64 a b fits
  where
    fits : Fits64 (a +ℤ b)
    fits = record { above = omega int_laws; below = omega int_laws }

-- A request on another key leaves the window of `key` alone.
lookup-allow_n_other :
    (l : SlidingWindowLimiter) (k key : String) (n now : ℤ)
    → (k == key) ≡ false
    → lookup key (allow_n l k n now).0.windows ≡ lookup key l.windows
unfolding allow_n open_window
lookup-allow_n_other l k key n now other = elim (Option-cases (lookup k l.windows)) [
  | inl h ↦ ground (arith, lookup-insert k key (record { count = n; start_time = now }) l.windows)
  | inr (w, h) ↦ ground (
    arith,
    lookup-insert k key (record { count = n; start_time = now }) l.windows,
    lookup-insert k key (record w { count = add64 w.count n }) l.windows,
  )
]

allow_n_config :
    (l : SlidingWindowLimiter) (k : String) (n now : ℤ)
    → ((allow_n l k n now).0.limit ≡ l.limit) × ((allow_n l k n now).0.window_len ≡ l.window_len)
unfolding allow_n open_window
allow_n_config l k n now = ground arith

-- A request inside the window of its key.
allow_n_inside :
    (l : SlidingWindowLimiter) (key : String) (n now : ℤ) (w : Window)
    → lookup key l.windows ≡ some w
    → now -ℤ w.start_time <ℤ l.window_len
    → IsSmall w.count
    → IsSmall n
    → ((allow_n l key n now).1 ≡ leb_ℤ (w.count +ℤ n) l.limit)
      × (lookup key (allow_n l key n now).0.windows ≡ (
          if leb_ℤ (w.count +ℤ n) l.limit
          then some (record w { count = w.count +ℤ n })
          else some w))
unfolding allow_n
allow_n_inside l key n now w h inside small small' = ground (
  arith,
  add64_small w.count n small small',
  lookup-insert key key (record w { count = add64 w.count n }) l.windows,
  string_key.same_iff key key,
)

-- The two outcomes of a request inside the window: admitted and counted, or refused.
abbrev Inside : SlidingWindowLimiter → String → String → ℤ → ℤ → Window → Type 0
Inside l k key n now w =
    (((allow_n l k n now).1 ≡ true)
      × (w.count +ℤ n ≤ℤ l.limit)
      × (lookup key (allow_n l k n now).0.windows ≡ some (record w { count = w.count +ℤ n })))
    ⊎ (((allow_n l k n now).1 ≡ false) × (lookup key (allow_n l k n now).0.windows ≡ some w))

allow_n-Inside :
    (l : SlidingWindowLimiter) (k key : String) (n now : ℤ) (w : Window)
    → k ≡ key
    → lookup key l.windows ≡ some w
    → now -ℤ w.start_time <ℤ l.window_len
    → IsSmall w.count
    → IsSmall n
    → Inside l k key n now w
allow_n-Inside l k key n now w same h inside s s' = rw same (
    let (said, stored) = allow_n_inside l key n now w h inside s s' in
    elim (Bool-cases (leb_ℤ (w.count +ℤ n) l.limit)) [
      | inl e ↦ inl (said ∙ e, leb_ℤ→le (w.count +ℤ n) l.limit e, stored ∙ rw e)
      | inr e ↦ inr (said ∙ e, stored ∙ rw e)
    ])

-- The window with count `c` leaves room for `x` more under `limit`, or `x` is nothing.
abbrev Room : ℤ → ℤ → ℤ → Type 0
Room limit c x = (x ≡ pos 0) ⊎ (c +ℤ x ≤ℤ limit)

space_more : (limit c n x : ℤ) → c +ℤ n ≤ℤ limit → Room limit (c +ℤ n) x → Room limit c (n +ℤ x)
space_more limit c n x h (inl e) = inr (omega (arith, +ℤ_parts, ap pos_part e, ap neg_part e))
space_more limit c n x h (inr e) = inr (omega int_laws)

module _ (key : String) (limit len : ℤ) (small : IsSmall limit) where
  admitted_window :
      (rs : List Request) (l : SlidingWindowLimiter) (w : Window)
      → l.limit ≡ limit
      → l.window_len ≡ len
      → lookup key l.windows ≡ some w
      → IsSmall w.count
      → All (IsWithin w.start_time len) rs
      → Room limit w.count (admitted key l rs)
  unfolding admitted
  admitted_window [] l w e f h s within = inl refl
  admitted_window (r ∷ rs) l w e f h s within =
      let (e', f') = allow_n_config l r.key r.n r.now in
      elim (Bool-cases (r.key == key)) [
        | inr other ↦ rw other (
            admitted_window rs (allow_n l r.key r.n r.now).0 w (e' ∙ e) (f' ∙ f)
              (lookup-allow_n_other l r.key key r.n r.now other ∙ h) s within.1)
        | inl mine ↦
            elim (allow_n-Inside l r.key key r.n r.now w ((string_key.same_iff r.key key).0 mine) h
              (rw f within.0.0) s within.0.1) [
                | inl (ok, fits, h') ↦
                    rw (mine, ok)
                      (space_more limit w.count r.n _ (bound e fits) (
                        admitted_window rs (allow_n l r.key r.n r.now).0
                          (record w { count = w.count +ℤ r.n }) (e' ∙ e) (f' ∙ f) h' (grown e fits)
                          within.1))
                | inr (ok, h') ↦
                    rw (mine, ok)
                      (admitted_window rs (allow_n l r.key r.n r.now).0 w (e' ∙ e) (f' ∙ f) h' s
                        within.1)
              ]
      ]
    where
      bound : l.limit ≡ limit → w.count +ℤ r.n ≤ℤ l.limit → w.count +ℤ r.n ≤ℤ limit
      bound p q = omega (arith, q, ap pos_part p, ap neg_part p)

      grown : l.limit ≡ limit → w.count +ℤ r.n ≤ℤ l.limit → IsSmall (w.count +ℤ r.n)
      grown p q = omega (arith, +ℤ_parts w.count r.n, bound p q, s.0, within.0.1.0, small.1)

  -- The window that a request starts: when there is none, or the one there is over.
  abbrev pub opens : Option Window → ℤ → ℤ → Bool
  opens none now len = true
  opens (some w) now len = leb_ℤ len (now -ℤ w.start_time)

  allow_n_open_window :
      (l : SlidingWindowLimiter) (k : String) (n now : ℤ)
      → k ≡ key
      → opens (lookup k l.windows) now l.window_len ≡ true
      → ((allow_n l k n now).1 ≡ leb_ℤ n l.limit)
        × (lookup key (allow_n l k n now).0.windows ≡ some (record { count = n; start_time = now }))
  unfolding allow_n open_window
  allow_n_open_window l k n now same h = ground (
    arith,
    lookup-insert k key (record { count = n; start_time = now }) l.windows,
    string_key.same_iff k key,
  )

  space_within : (n x : ℤ) → n ≤ℤ limit → Room limit n x → n +ℤ x ≤ℤ limit
  space_within n x h (inl e) = omega (arith, +ℤ_parts, ap pos_part e, ap neg_part e)
  space_within n x h (inr e) = e

  space_oversize : (n x : ℤ) → limit <ℤ n → Room limit n x → x ≤ℤ limit
  space_oversize n x h (inl e) = omega (arith, small.0, ap pos_part e, ap neg_part e)
  space_oversize n x h (inr e) = omega int_laws

  -- In one window, from the request that starts it to its end, the requests on a key are admitted
  -- for no more than the limit in all, whatever comes on other keys in between; the limit and the
  -- amounts are from 0 to below 2^62.
  pub admitted-le-limit :
      (l : SlidingWindowLimiter) (r : Request) (rs : List Request)
      → l.limit ≡ limit
      → l.window_len ≡ len
      → r.key ≡ key
      → opens (lookup r.key l.windows) r.now len ≡ true
      → IsSmall r.n
      → All (IsWithin r.now len) rs
      → admitted key l (r ∷ rs) ≤ℤ limit
  unfolding admitted
  admitted-le-limit l r rs e f mine h s within =
      let (said, stored) = allow_n_open_window l r.key r.n r.now mine (rw f h) in
      let (e', f') = allow_n_config l r.key r.n r.now in
      let room =
        admitted_window rs (allow_n l r.key r.n r.now).0
          (record { count = r.n; start_time = r.now }) (e' ∙ e) (f' ∙ f) stored s within in
      elim (Bool-cases (leb_ℤ r.n limit)) [
        | inl ok ↦
            rw ((string_key.same_iff r.key key).1 mine, said ∙ ap (leb_ℤ r.n) e ∙ ok)
              (space_within r.n _ (leb_ℤ→le r.n limit ok) room)
        | inr over ↦
            rw ((string_key.same_iff r.key key).1 mine, said ∙ ap (leb_ℤ r.n) e ∙ over)
              (space_oversize r.n _ (leb_ℤ→lt r.n limit over) room)
      ]

-- The windows are fixed, not sliding: around the end of a window twice the limit is admitted.
-- For a limit from 0 to below 2^62 and a positive window length, if the window of a key is
-- opened at `t` by an amount of 0, the full limit at the last instant of that window and the
-- full limit at the first instant after it are both admitted.
pub allow_n_twice_limit :
    (limit len t : ℤ) (key : String)
    → IsSmall limit
    → pos 0 <ℤ len
    → let opened = (allow_n (new_limiter limit len) key (pos 0) t).0 in
      let burst = allow_n opened key limit (t +ℤ len -ℤ pos 1) in
      (burst.1 ≡ true) × ((allow_n burst.0 key limit (t +ℤ len)).1 ≡ true)
unfolding new_limiter lookup
allow_n_twice_limit limit len t key small long =
    let fresh = new_limiter limit len in
    let opened = (allow_n fresh key (pos 0) t).0 in
    let w : Window = record { count = pos 0; start_time = t } in
    let (_, stored) = allow_n_open_window key limit len small fresh key (pos 0) t refl refl in
    let (lim, wid) = allow_n_config fresh key (pos 0) t in
    let last = t +ℤ len -ℤ pos 1 in
    let (said, stored') =
      allow_n_inside opened key limit last w stored (rw wid (omega int_laws)) (omega arith) small in
    let fits : leb_ℤ (pos 0 +ℤ limit) opened.limit ≡ true =
      rw lim (le→leb_ℤ (pos 0 +ℤ limit) limit (omega int_laws)) in
    let burst = (allow_n opened key limit last).0 in
    let (lim', wid') = allow_n_config opened key limit last in
    let (said', _) =
      allow_n_open_window key limit len small burst key limit (t +ℤ len) refl
        (rw (stored', fits, wid', wid) (le→leb_ℤ len (t +ℤ len -ℤ t) (omega int_laws))) in
    (said ∙ fits, said' ∙ rw (lim', lim) (le→leb_ℤ limit limit (omega arith)))

-- A request on a key without a window that is refused for being larger than the limit still
-- takes the whole window: the next request on the key before the end of that window is refused,
-- however small its amount, also 0. Both amounts are from 0 to below 2^62.
pub allow_n_after_oversize :
    (l : SlidingWindowLimiter) (key : String) (n m now later : ℤ)
    → lookup key l.windows ≡ none
    → l.limit <ℤ n
    → IsSmall n
    → IsSmall m
    → later -ℤ now <ℤ l.window_len
    → ((allow_n l key n now).1 ≡ false) × ((allow_n (allow_n l key n now).0 key m later).1 ≡ false)
unfolding allow_n open_window
allow_n_after_oversize l key n m now later fresh over small small' soon = (
  ground arith,
  ground (
    arith,
    lookup-insert key key (record { count = n; start_time = now }) l.windows,
    string_key.same_iff key key,
    add64_small n m small small',
    +ℤ_parts n m,
  ),
)
