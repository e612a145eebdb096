-- ===== src/Examples/Hook.antt =====
-- Examples about pkg/log/hook.go and pkg/log/named.go.
use goupter.Prelude.{
  ℕ, ◌+◌, ◌≡◌, ◌≤◌, ◌⊎◌, refl, String, true, false, Option, none, some, List, [], ◌∷◌, ◌++◌, append,
  string_key, arith, ◌*◌,
}
use goupter.Prelude.Int.{pos}
use goupter.Prelude.Dict.{lookup, insert}
use goupter.Log.Sampler.{Level, error_level, info_level}
use goupter.Log.Hook.{
  Entry, Field, Hook, HookedLogger, Store, new_entry, new_hook_manager, new_func_hook,
  new_error_hook, fire_each, fire,
}
use goupter.Log.HookLaws.{wanted, add_all, fire-add_all}
use goupter.Log.Async.{AsyncHook, Worker, Run, Reach, Turns, take, send, new_async_hook}
use goupter.Log.AsyncLaws.{IsOrdered, Reach-IsOrdered, Turns-ends}
use goupter.Log.Named.{named}
use goupter.Log.NamedLaws.{IsKept, named-IsKept, named_agree}

-- A world is the list of what was done; a hook notes its name, and one of them fails.
abbrev noting : String → Entry ℕ → List String → List String × Option String
noting name entry w = (w ++ append name entry.message ∷ [], none)

abbrev failing : Entry ℕ → List String → List String × Option String
failing entry w = (w ++ "failed" ∷ [], some "broken")

abbrev on_error : Hook ℕ (List String) String
unfolding new_error_hook
on_error = new_error_hook (noting "E ")

abbrev on_info_twice : Hook ℕ (List String) String
unfolding new_func_hook
on_info_twice = new_func_hook (info_level ∷ info_level ∷ []) (noting "I ")

abbrev broken : Hook ℕ (List String) String
unfolding new_func_hook
broken = new_func_hook (error_level ∷ []) failing

abbrev entry : Entry ℕ
unfolding new_entry
entry = new_entry error_level "m" []

fire-add_all_example :
    fire
      (add_all new_hook_manager (on_error ∷ on_info_twice ∷ broken ∷ on_error ∷ []))
      error_level
      entry
      []
    ≡ fire_each (wanted error_level (on_error ∷ on_info_twice ∷ broken ∷ on_error ∷ [])) entry []
fire-add_all_example =
    fire-add_all (on_error ∷ on_info_twice ∷ broken ∷ on_error ∷ []) error_level entry []

-- The hook after the broken one does not run.
fire_stops :
    fire
      (add_all new_hook_manager (on_error ∷ on_info_twice ∷ broken ∷ on_error ∷ []))
      error_level
      entry
      []
    ≡ ("E m" ∷ "failed" ∷ [], some "broken")
unfolding fire add_all new_hook_manager lookup insert on_error broken entry on_info_twice
fire_stops = refl

fire_twice :
    fire (add_all new_hook_manager (on_error ∷ on_info_twice ∷ [])) info_level entry []
    ≡ ("I m" ∷ "I m" ∷ [], none)
unfolding fire add_all new_hook_manager lookup insert on_error entry on_info_twice
fire_twice = refl

-- A logger is the list of its fields' keys.
abbrev derive : List (Field ℕ) → List String → List String
derive [] l = l
derive (f ∷ fields) l = derive fields (l ++ f.key ∷ [])

abbrev write : List String → Level → String → List (Field ℕ) → List String → List String
write l level msg fields w = w ++ msg ∷ l

abbrev empty_store : Store ℕ (List String) String
empty_store = record { managers = []; next = 0 }

abbrev logger : HookedLogger (List String)
logger = record { logger = []; hooks = 0 }

abbrev async : AsyncHook ℕ
async = record {
  ch = [];
  buffer_size = 1;
  cancelled = false;
  worker = Worker.waiting;
  sent = [];
  fired = [];
}

abbrev one_sent : AsyncHook ℕ
one_sent = record async { ch = 7 ∷ []; sent = 7 ∷ [] }

Reach-IsOrdered_example : IsOrdered 1 one_sent
unfolding new_async_hook
Reach-IsOrdered_example =
    Reach-IsOrdered 1 async one_sent new_one (Reach.call Reach.here (send 7 (omega arith) refl))
  where
    new_one : new_async_hook (pos 1) ≡ some async
    new_one = refl

abbrev closed_one : AsyncHook ℕ
closed_one = record one_sent { cancelled = true }

abbrev firing_seven : AsyncHook ℕ
firing_seven = record closed_one { ch = []; worker = Worker.firing 7 }

Turns-ends_example :
    (1 ≤ 2 * 1 + 2)
    × ((firing_seven.worker ≡ Worker.returned) ⊎ ((h' : AsyncHook ℕ) × Run firing_seven h'))
Turns-ends_example =
    Turns-ends 1 closed_one firing_seven refl (Turns.turn Turns.stop (take 7 [] refl refl refl))

-- A base logger is its name, and a field its value.
abbrev name_with : List String → String → String
name_with [] l = l
name_with (f ∷ fields) l = name_with fields (append l f)

abbrev text_field : String → String → String
text_field key value = value

-- Two goroutines look at an empty registry; another name is added between their second looks.
named_agree_example :
    let first = named name_with text_field "base" "a" [] [] in
    let between = (named name_with text_field "base" "b" [] first.1).1 in
    (named name_with text_field "other" "a" [] between).0 ≡ first.0
unfolding lookup
named_agree_example =
    named_agree name_with text_field "base" "other" "a" [] [] []
      (named name_with text_field "base" "b" [] (named name_with text_field "base" "a" [] []).1).1
      nothing kept_b nothing_b
  where
    nothing : IsKept {L = String} [] []
    nothing name l h = h

    empty_kept : IsKept {L = String} [] (named name_with text_field "base" "a" [] []).1
    empty_kept name l h = absurd (ground arith)

    kept_b :
        IsKept
          (named name_with text_field "base" "a" [] []).1
          (named name_with text_field "base" "b" []
            (named name_with text_field "base" "a" [] []).1).1
    kept_b =
        (named-IsKept name_with text_field "base" "b" []
          (named name_with text_field "base" "a" [] []).1 empty_kept).1

    nothing_b :
        IsKept {L = String} []
          (named name_with text_field "base" "b" []
            (named name_with text_field "base" "a" [] []).1).1
    nothing_b name l h = absurd (ground arith)
