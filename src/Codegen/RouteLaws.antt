-- ===== src/Codegen/RouteLaws.antt =====
-- What the routes that cmd/goupter/internal/cmd/gen_httpbook.go finds say of their endpoints.
use mathlib.Core.Path.{subst}
use goupter.Prelude.{
  append, ◌≡◌, ◌≢◌, refl, sym, ap, ◌∙◌, String, Bool, true, false, not, some, List, [], ◌∷◌, ◌++◌,
  arith, ◌==◌, string_key, ◌&&◌, ◌||◌, if◌then◌else◌, All, Option-cases, Bool-cases, inl, inr,
}
use text.Mathlib.TextEquality.{eq_iff}
use goupter.Prelude.Dict.{lookup, insert}
use goupter.Codegen.Paths.{extract_resource_from_path}
use goupter.Codegen.Strings.{contains_text}
use goupter.Codegen.Routes.{
  path_of, EndpointInfo, RouteInfo, Patterns, Globals, Parser, set_flag, add_endpoint, new_route,
  put_endpoint, leave, add_method, in_body, enter, second_line, second_pass, first_pass,
  parse_routes,
}

-- Some endpoint passes the test.
unfoldable pub any : (EndpointInfo → Bool) → List EndpointInfo → Bool
any test [] = false
any test (e ∷ es) = test e || any test es

abbrev pub creates : EndpointInfo → Bool
creates e = (e.method == "POST") && not e.is_detail

abbrev pub lists : EndpointInfo → Bool
lists e = (e.method == "GET") && not e.is_detail

abbrev pub gets : EndpointInfo → Bool
gets e = (e.method == "GET") && e.is_detail

abbrev pub updates : EndpointInfo → Bool
updates e = e.method == "PUT"

abbrev pub deletes : EndpointInfo → Bool
deletes e = e.method == "DELETE"

-- Each flag of a route says that it has an endpoint of that kind.
pub record IsFlagged (r : RouteInfo) : Type 0 where
  pub create : r.has_create ≡ any creates r.endpoints
  pub list : r.has_list ≡ any lists r.endpoints
  pub get : r.has_get ≡ any gets r.endpoints
  pub update : r.has_update ≡ any updates r.endpoints
  pub remove : r.has_delete ≡ any deletes r.endpoints

any-snoc :
    (test : EndpointInfo → Bool) (es : List EndpointInfo) (e : EndpointInfo)
    → any test (es ++ e ∷ []) ≡ (any test es || test e)
unfolding any
any-snoc test [] e = ground arith
any-snoc test (first ∷ es) e = ground (arith, any-snoc test es e)

other_method : (m a b : String) → (a == b) ≡ false → (m == a) ≡ true → (m == b) ≡ false
other_method m a b h e = rw ((eq_iff m a).0 e) h

-- The kinds are those of the switch, whatever the method is.
kinds :
    (e : EndpointInfo) (r : RouteInfo)
    → ((set_flag e.method e.is_detail r).has_create ≡ (r.has_create || creates e))
      × ((set_flag e.method e.is_detail r).has_list ≡ (r.has_list || lists e))
      × ((set_flag e.method e.is_detail r).has_get ≡ (r.has_get || gets e))
      × ((set_flag e.method e.is_detail r).has_update ≡ (r.has_update || updates e))
      × ((set_flag e.method e.is_detail r).has_delete ≡ (r.has_delete || deletes e))
      × ((set_flag e.method e.is_detail r).endpoints ≡ r.endpoints)
      × ((set_flag e.method e.is_detail r).name ≡ r.name)
unfolding set_flag
kinds e r = ground (
  arith,
  other_method e.method "POST" "GET" refl,
  other_method e.method "POST" "PUT" refl,
  other_method e.method "POST" "DELETE" refl,
  other_method e.method "GET" "PUT" refl,
  other_method e.method "GET" "DELETE" refl,
  other_method e.method "PUT" "DELETE" refl,
)

add_endpoint-IsFlagged :
    (method path : String) (is_detail : Bool) (r : RouteInfo)
    → IsFlagged r
    → IsFlagged (add_endpoint method path is_detail r)
unfolding add_endpoint
add_endpoint-IsFlagged method path is_detail r f =
    let e : EndpointInfo = record { method = method; path = path; is_detail = is_detail } in
    let k = kinds e (record r { endpoints = r.endpoints ++ e ∷ [] }) in
    record {
      create = cc (k.0, k.5, f.create, any-snoc creates r.endpoints e);
      list = cc (k.1, k.5, f.list, any-snoc lists r.endpoints e);
      get = cc (k.2, k.5, f.get, any-snoc gets r.endpoints e);
      update = cc (k.3, k.5, f.update, any-snoc updates r.endpoints e);
      remove = cc (k.4, k.5, f.remove, any-snoc deletes r.endpoints e);
    }

All-snoc :
    {A : Type 0} (Q : A → Type 0) (xs : List A) (x : A) → All Q xs → Q x → All Q (xs ++ x ∷ [])
All-snoc Q [] x h q = (q, tt)
All-snoc Q (first ∷ xs) x h q = (h.0, All-snoc Q xs x h.1 q)

snoc-ne-nil : {A : Type 0} (xs : List A) (x : A) → xs ++ x ∷ [] ≢ []
snoc-ne-nil [] x h = cc
snoc-ne-nil (first ∷ xs) x h = cc

module _ {V : Type 0} (Q : String × V → Type 0) where
  All-lookup :
      (key : String) (entries : List (String × V)) (v : V)
      → All Q entries
      → lookup key entries ≡ some v
      → Q (key, v)
  unfolding lookup
  All-lookup key [] v h e = absurd (ground arith)
  All-lookup key ((j, w) ∷ rest) v h e = elim (Bool-cases (j == key)) [
    | inl same ↦
        subst (λ (en : String × V). Q en)
          (ap (λ (k : String). (k, w)) ((eq_iff j key).0 same)
            ∙ ap (λ (x : V). (key, x)) (ground (arith, same, e)))
          h.0
    | inr other ↦ All-lookup key rest v h.1 (ground (arith, other, e))
  ]

  All-insert :
      (key : String) (v : V) (entries : List (String × V))
      → All Q entries
      → Q (key, v)
      → All Q (insert key v entries)
  unfolding insert
  All-insert key v [] h q = (q, tt)
  All-insert key v ((j, w) ∷ rest) h q = ground (arith, All-insert key v rest h.1 q)

-- Every pair of the map is under its own name, which is not empty, and its endpoints are those of the
-- resource; its flags say which kinds there are.
pub record IsRoute (to_lower : String → String) (entry : String × RouteInfo) : Type 0 where
  pub named : entry.1.name ≡ entry.0
  pub not_empty : (entry.0 == "") ≡ false
  pub flagged : IsFlagged entry.1
  pub own :
      All
        (λ (e : EndpointInfo). extract_resource_from_path to_lower e.path ≡ entry.0)
        entry.1.endpoints
  pub some_endpoint : entry.1.endpoints ≢ []

leave-routes : (s : Parser) (line : String) → (leave s line).routes ≡ s.routes
unfolding leave
leave-routes s line = ground arith

enter-routes :
    (re : Patterns) (g : Globals) (s : Parser) (line : String)
    → (enter re g s line).routes ≡ s.routes
unfolding enter
enter-routes re g s line = ground arith

module _ (to_lower upper_first : String → String) where
  abbrev AreRoutes : List (String × RouteInfo) → Type 0
  AreRoutes routes = All (IsRoute to_lower) routes

  abbrev IsOf : String → EndpointInfo → Type 0
  IsOf name e = extract_resource_from_path to_lower e.path ≡ name

  add_endpoint-IsRoute :
      (name method path : String) (is_detail : Bool) (r : RouteInfo)
      → r.name ≡ name
      → (name == "") ≡ false
      → IsFlagged r
      → All (IsOf name) r.endpoints
      → extract_resource_from_path to_lower path ≡ name
      → IsRoute to_lower (name, add_endpoint method path is_detail r)
  unfolding add_endpoint
  add_endpoint-IsRoute name method path is_detail r named filled f own here =
      let e : EndpointInfo = record { method = method; path = path; is_detail = is_detail } in
      let k = kinds e (record r { endpoints = r.endpoints ++ e ∷ [] }) in
      record {
        named = k.6 ∙ named;
        not_empty = filled;
        flagged = add_endpoint-IsFlagged method path is_detail r f;
        own = subst (All (IsOf name)) (sym k.5) (All-snoc (IsOf name) r.endpoints e own here);
        some_endpoint = λ none_left. snoc-ne-nil r.endpoints e (sym k.5 ∙ none_left);
      }

  new_route-IsFlagged :
      (name comment path : String) → IsFlagged (new_route to_lower upper_first name comment path)
  unfolding new_route any
  new_route-IsFlagged name comment path = record {
    create = refl;
    list = refl;
    get = refl;
    update = refl;
    remove = refl;
  }

  new_endpoint-IsRoute :
      (name comment method path : String) (is_detail : Bool)
      → (name == "") ≡ false
      → extract_resource_from_path to_lower path ≡ name
      → IsRoute to_lower (
        name,
        add_endpoint method path is_detail (new_route to_lower upper_first name comment path),
      )
  unfolding new_route
  new_endpoint-IsRoute name comment method path is_detail filled here =
      add_endpoint-IsRoute name method path is_detail
        (new_route to_lower upper_first name comment path) refl filled
        (new_route-IsFlagged name comment path) tt here

  more_endpoint-IsRoute :
      (name method path : String) (is_detail : Bool) (r : RouteInfo)
      → IsRoute to_lower (name, r)
      → extract_resource_from_path to_lower path ≡ name
      → IsRoute to_lower (name, add_endpoint method path is_detail r)
  more_endpoint-IsRoute name method path is_detail r h here =
      add_endpoint-IsRoute name method path is_detail r h.named h.not_empty h.flagged h.own here

  put_endpoint-AreRoutes :
      (s : Parser) (name method path : String) (is_detail : Bool)
      → AreRoutes s.routes
      → (name == "") ≡ false
      → extract_resource_from_path to_lower path ≡ name
      → AreRoutes (put_endpoint to_lower upper_first s name method path is_detail).routes
  unfolding put_endpoint
  put_endpoint-AreRoutes s name method path is_detail h filled here =
      elim (Option-cases (lookup name s.routes)) [
        | inl new ↦
            rw (new, put_endpoint)
              (All-insert (IsRoute to_lower) name _ s.routes h
                (new_endpoint-IsRoute name s.last_comment method path is_detail filled here))
        | inr (r, old) ↦
            rw (old, put_endpoint)
              (All-insert (IsRoute to_lower) name _ s.routes h (
                more_endpoint-IsRoute name method path is_detail r
                  (All-lookup (IsRoute to_lower) name s.routes r h old) here))
      ]

  add_method-AreRoutes :
      (s : Parser) (line var_name method path : String)
      → AreRoutes s.routes
      → AreRoutes (add_method to_lower upper_first s line var_name method path).routes
  unfolding add_method
  add_method-AreRoutes s line var_name method path h = ground (
    arith,
    leave-routes _ line,
    put_endpoint-AreRoutes s
        (extract_resource_from_path to_lower (append (path_of var_name s.group_paths) path)) method
        (append (path_of var_name s.group_paths) path)
        (contains_text path ":id" || contains_text path ":") h,
  )

  module _ (re : Patterns) (g : Globals) where
    in_body-AreRoutes :
        (s : Parser) (line : String)
        → AreRoutes s.routes
        → AreRoutes (in_body to_lower upper_first re s line).routes
    unfolding in_body
    in_body-AreRoutes s line h = elim (Option-cases (re.method line)) [
      | inl e ↦ rw (e, in_body) (subst AreRoutes (sym (leave-routes _ line)) h)
      | inr ((var_name, method, path), e) ↦
          rw (e, in_body) (add_method-AreRoutes _ line var_name method path h)
    ]

    body_or_not :
        (b : Bool) (s : Parser) (line : String)
        → AreRoutes s.routes
        → AreRoutes (if b then in_body to_lower upper_first re s line else s).routes
    body_or_not true s line h = in_body-AreRoutes s line h
    body_or_not false s line h = h

    second_line-AreRoutes :
        (s : Parser) (line : String)
        → AreRoutes s.routes
        → AreRoutes (second_line to_lower upper_first re g s line).routes
    unfolding second_line
    second_line-AreRoutes s line h = elim (Option-cases (re.comment line)) [
      | inl e ↦
          rw (e, second_line)
            (body_or_not _ (enter re g s line) line
              (subst AreRoutes (sym (enter-routes re g s line)) h))
      | inr (comment, e) ↦ rw (e, second_line) h
    ]

    second_pass-AreRoutes :
        (s : Parser) (lines : List String)
        → AreRoutes s.routes
        → AreRoutes (second_pass to_lower upper_first re g s lines).routes
    unfolding second_pass
    second_pass-AreRoutes s [] h = h
    second_pass-AreRoutes s (line ∷ lines) h =
        second_pass-AreRoutes (second_line to_lower upper_first re g s line) lines
          (second_line-AreRoutes s line h)

-- Whatever the regular expressions answer on the lines of a file, each route that is found stands under
-- its own name, has endpoints, all of which have this name as their resource, and its five flags say
-- exactly which kinds of them there are.
pub parse_routes-IsRoute :
    (to_lower upper_first : String → String) (re : Patterns) (lines : List String)
    → All (IsRoute to_lower) (parse_routes to_lower upper_first re lines)
unfolding parse_routes
parse_routes-IsRoute to_lower upper_first re lines =
    second_pass-AreRoutes to_lower upper_first re (first_pass re _ lines) _ lines tt
