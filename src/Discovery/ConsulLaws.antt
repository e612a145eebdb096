-- ===== src/Discovery/ConsulLaws.antt =====
-- No watcher runs that the discovery does not know.
use goupter.Prelude.{
  ℕ, ◌<◌, ◌≡◌, inl, inr, refl, String, true, false, some, List, [], ◌∷◌, ◌++◌, ◌==◌, string_key,
  nat_key, nat_eqb_iff, arith, ◌||◌, Bool-cases, All, ◌↔◌,
}
use text.Mathlib.TextEquality.{eq_iff}
use goupter.Prelude.Dict.{lookup, lookup-insert}
use goupter.Discovery.Consul.{
  passing, get_health_status, ConsulDiscovery, watch, watcher_ids, close, is_cancelled, Use,
  watch_name, close_all, use_all, new_discovery,
}

is_cancelled-append :
    (w : ℕ) (xs ys : List ℕ) → is_cancelled w (xs ++ ys) ≡ (is_cancelled w xs || is_cancelled w ys)
unfolding is_cancelled
is_cancelled-append w [] ys = refl
is_cancelled-append w (x ∷ xs) ys = ground (arith, is_cancelled-append w xs ys)

lookup-watcher_ids :
    (name : String) (w : ℕ) (entries : List (String × ℕ))
    → lookup name entries ≡ some w
    → is_cancelled w (watcher_ids entries) ≡ true
unfolding lookup watcher_ids is_cancelled
lookup-watcher_ids name w [] h = cc
lookup-watcher_ids name w ((j, v) ∷ rest) h =
    ground (arith, nat_eqb_iff v w, lookup-watcher_ids name w rest)

-- Each watcher that was started and is not cancelled stands in the map under some name.
abbrev pub Accounted : ConsulDiscovery → Type 0
Accounted d =
    (w : ℕ)
    → w < d.started
    → is_cancelled w d.cancelled ≡ false
    → (name : String) × (lookup name d.watchers ≡ some w)

watch-Accounted : (d : ConsulDiscovery) (name : String) → Accounted d → Accounted (watch d name)
unfolding watch is_cancelled
watch-Accounted d name h w lt running = elim (Bool-cases (w == d.started)) [
  | inl new ↦ (
    name,
    ground (
      arith,
      new,
      lookup-insert name name d.started d.watchers,
      eq_iff name name,
      nat_eqb_iff w d.started,
    ),
  )
  | inr old ↦
      let was_running : is_cancelled w d.cancelled ≡ false = ground (arith, running) in
      let (other, found) = h w (ground (arith, old, lt)) was_running in
      (
        other,
        ground (
          arith,
          found,
          running,
          lookup-insert name other d.started d.watchers,
          eq_iff name other,
          nat_eqb_iff w w,
        ),
      )
]

close-is_cancelled :
    (d : ConsulDiscovery) (w : ℕ)
    → Accounted d
    → w < d.started
    → is_cancelled w (close d).cancelled ≡ true
unfolding close
close-is_cancelled d w h lt = elim (Bool-cases (is_cancelled w d.cancelled)) [
  | inl before ↦ ground (arith, before, is_cancelled-append w (watcher_ids d.watchers) d.cancelled)
  | inr running ↦
      let (name, found) = h w lt running in
      ground (
        arith,
        lookup-watcher_ids name w d.watchers found,
        is_cancelled-append w (watcher_ids d.watchers) d.cancelled,
      )
]

close-Accounted : (d : ConsulDiscovery) → Accounted d → Accounted (close d)
unfolding close
close-Accounted d h w lt running = absurd (ground (arith, running, close-is_cancelled d w h lt))

use_all-Accounted :
    (uses : List Use) (d : ConsulDiscovery) → Accounted d → Accounted (use_all uses d)
unfolding use_all
use_all-Accounted [] d h = h
use_all-Accounted (watch_name name ∷ uses) d h =
    use_all-Accounted uses (watch d name) (watch-Accounted d name h)
use_all-Accounted (close_all ∷ uses) d h = use_all-Accounted uses (close d) (close-Accounted d h)

new_discovery-Accounted : Accounted new_discovery
unfolding new_discovery
new_discovery-Accounted w lt running = absurd (omega arith)

-- After any calls of `Watch` and `Close`, in any order and for any names, a last `Close` leaves no
-- watcher running: every one that was ever started has been cancelled, by a `Watch` of the same name or
-- by a `Close`.
pub use_all-close :
    (uses : List Use) (w : ℕ)
    → w < (use_all uses new_discovery).started
    → is_cancelled w (close (use_all uses new_discovery)).cancelled ≡ true
use_all-close uses w lt =
    close-is_cancelled (use_all uses new_discovery) w
      (use_all-Accounted uses new_discovery new_discovery-Accounted) lt

-- A service passes exactly when none of its checks is critical or warns.
pub get_health_status-passing :
    (checks : List String)
    → (get_health_status checks ≡ passing)
      ↔ All (λ s. ((s == "critical") ≡ false) × ((s == "warning") ≡ false)) checks
unfolding get_health_status
get_health_status-passing [] = (λ h. tt, λ h. refl)
get_health_status-passing (s ∷ checks) = ground (arith, get_health_status-passing checks)
