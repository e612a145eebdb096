-- ===== src/Codegen/CrudLaws.antt =====
-- A second run of the generator of routes finds the functions that the first one wrote.
use mathlib.Core.Path.{subst}
use text.Mathlib.TextPositions.{eq_refl}
use goupter.Prelude.{
  append, ◌≡◌, refl, String, Bool, true, Option, none, some, List, [], ◌∷◌, ◌++◌, ◌==◌, string_key,
  nat_key, arith, All, Bool-cases, inl, inr, ◌||◌,
}
use goupter.Codegen.Table.{TableInfo}
use goupter.Codegen.RouteLines.{
  IsPlainName, is_existing-append, existing-newline, parse_existing-func_line,
}
use goupter.Codegen.Crud.{
  register_name, parse_existing_route_funcs, is_existing, new_tables, ensure_imports, routes_header,
  func_line, route_body, route_text, append_route_funcs, RoutesConfig, generate_routes,
}

-- The function of a table is among those of a file.
abbrev IsKnown : String → TableInfo → Type 0
IsKnown content t = is_existing (register_name t) (parse_existing_route_funcs content) ≡ true

module _ (use_handler_pkg : Bool) where
  existing-route_text :
      (content name : String) (t : TableInfo)
      → IsPlainName t
      → (is_existing name (parse_existing_route_funcs content) || (register_name t == name)) ≡ true
      → is_existing name
          (parse_existing_route_funcs (append content (route_text use_handler_pkg t)))
        ≡ true
  unfolding route_text is_existing
  existing-route_text content name t plain h =
      let title =
        append "// " (append (register_name t) (append " 注册 " (append t.comment " 路由"))) in
      let body = route_body use_handler_pkg t in
      ground (
        arith,
        existing-newline content
            (append title (append "\n" (append (func_line t) (append "\n" body)))),
        existing-newline title (append (func_line t) (append "\n" body)),
        existing-newline (func_line t) body,
        parse_existing-func_line t plain,
        is_existing-append name (parse_existing_route_funcs content) (
            parse_existing_route_funcs title
            ++ ((register_name t ∷ []) ++ parse_existing_route_funcs body)),
        is_existing-append name (parse_existing_route_funcs title)
            ((register_name t ∷ []) ++ parse_existing_route_funcs body),
      )

  existing-append_route_funcs :
      (tables : List TableInfo) (content name : String)
      → All IsPlainName tables
      → is_existing name (parse_existing_route_funcs content) ≡ true
      → is_existing name
          (parse_existing_route_funcs (append_route_funcs use_handler_pkg tables content))
        ≡ true
  unfolding append_route_funcs
  existing-append_route_funcs [] content name plain h = h
  existing-append_route_funcs (t ∷ tables) content name plain h =
      existing-append_route_funcs tables (append content (route_text use_handler_pkg t)) name
        plain.1 (existing-route_text content name t plain.0 (ground (arith, h)))

  append_route_funcs-IsKnown :
      (tables : List TableInfo) (content : String)
      → All IsPlainName tables
      → All (IsKnown (append_route_funcs use_handler_pkg tables content)) tables
  unfolding append_route_funcs
  append_route_funcs-IsKnown [] content plain = tt
  append_route_funcs-IsKnown (t ∷ tables) content plain =
      let content' = append content (route_text use_handler_pkg t) in
      (
        existing-append_route_funcs tables content' (register_name t) plain.1 (
            existing-route_text content (register_name t) t plain.0
              (ground (arith, eq_refl (register_name t)))),
        append_route_funcs-IsKnown tables content' plain.1,
      )

new_tables-IsPlainName :
    (funcs : List String) (tables : List TableInfo)
    → All IsPlainName tables
    → All IsPlainName (new_tables funcs tables)
unfolding new_tables
new_tables-IsPlainName funcs [] plain = tt
new_tables-IsPlainName funcs (t ∷ tables) plain =
    elim (Bool-cases (is_existing (register_name t) funcs)) [
      | inl old ↦ rw old (new_tables-IsPlainName funcs tables plain.1)
      | inr new ↦ rw new (plain.0, new_tables-IsPlainName funcs tables plain.1)
    ]

-- Where the old functions stay and the new tables are there, no table is new.
new_tables_none :
    (funcs : List String) (tables : List TableInfo) (content : String)
    → ((name : String)
        → is_existing name funcs ≡ true
        → is_existing name (parse_existing_route_funcs content) ≡ true)
    → All (IsKnown content) (new_tables funcs tables)
    → new_tables (parse_existing_route_funcs content) tables ≡ []
unfolding new_tables
new_tables_none funcs [] content keep known = refl
new_tables_none funcs (t ∷ tables) content keep known =
    elim (Bool-cases (is_existing (register_name t) funcs)) [
      | inl old ↦ ground (
        arith,
        old,
        keep (register_name t) old,
        new_tables_none funcs tables content keep (rw old at known),
      )
      | inr new ↦
          let known' = rw new at known in
          ground (arith, known'.0, new_tables_none funcs tables content keep known'.1)
    ]

appended_none :
    (use_handler_pkg : Bool) (funcs : List String) (tables : List TableInfo) (base : String)
    → ((name : String)
        → is_existing name funcs ≡ true
        → is_existing name (parse_existing_route_funcs base) ≡ true)
    → All IsPlainName tables
    → new_tables
        (parse_existing_route_funcs
          (append_route_funcs use_handler_pkg (new_tables funcs tables) base))
        tables
      ≡ []
appended_none use_handler_pkg funcs tables base keep plain =
    new_tables_none funcs tables _
      (λ name h.
        existing-append_route_funcs use_handler_pkg (new_tables funcs tables) base name
          (new_tables-IsPlainName funcs tables plain) (keep name h))
      (append_route_funcs-IsKnown use_handler_pkg (new_tables funcs tables) base
        (new_tables-IsPlainName funcs tables plain))

-- The functions of the file before a run, and the text that the run appends to.
abbrev funcs_of : Option String → List String
funcs_of none = []
funcs_of (some content) = parse_existing_route_funcs content

abbrev base_of : RoutesConfig → Option String → String
base_of cfg none = routes_header cfg.routes_package cfg.handler_import
base_of cfg (some content) = ensure_imports cfg.handler_import content

base_keeps :
    (cfg : RoutesConfig) (file : Option String)
    → ((content : String)
        → file ≡ some content
        → ensure_imports cfg.handler_import content ≡ content)
    → (name : String) → is_existing name (funcs_of file) ≡ true
    → is_existing name (parse_existing_route_funcs (base_of cfg file)) ≡ true
unfolding is_existing
base_keeps cfg none imports name h = cc
base_keeps cfg (some content) imports name h = rw (imports content refl) h

generate_routes_unchanged :
    (cfg : RoutesConfig) (tables : List TableInfo) (file : Option String)
    → new_tables (funcs_of file) tables ≡ []
    → generate_routes cfg tables file ≡ (file, [])
unfolding generate_routes
generate_routes_unchanged cfg tables none h = rw (h, generate_routes) refl
generate_routes_unchanged cfg tables (some content) h = rw (h, generate_routes) refl

generate_routes_extended :
    (cfg : RoutesConfig) (tables : List TableInfo) (file : Option String) (t : TableInfo)
    (rest : List TableInfo)
    → new_tables (funcs_of file) tables ≡ t ∷ rest
    → generate_routes cfg tables file
      ≡ (some (append_route_funcs cfg.use_handler_package (t ∷ rest) (base_of cfg file)), t ∷ rest)
unfolding generate_routes
generate_routes_extended cfg tables none t rest h = rw (h, generate_routes) refl
generate_routes_extended cfg tables (some content) t rest h = rw (h, generate_routes) refl

-- A run after a run finds nothing to do and leaves the file as it is, for tables whose names have
-- neither a parenthesis nor a line end and a file that does not exist or has its imports: every
-- function that a run appends is recognised by the next one.
pub generate_routes_again :
    (cfg : RoutesConfig) (tables : List TableInfo) (file : Option String)
    → All IsPlainName tables
    → ((content : String)
        → file ≡ some content
        → ensure_imports cfg.handler_import content ≡ content)
    → generate_routes cfg tables (generate_routes cfg tables file).0
      ≡ ((generate_routes cfg tables file).0, [])
generate_routes_again cfg tables file plain imports = again (new_tables (funcs_of file) tables) refl
  where
    again :
        (new : List TableInfo)
        → new_tables (funcs_of file) tables ≡ new
        → generate_routes cfg tables (generate_routes cfg tables file).0
          ≡ ((generate_routes cfg tables file).0, [])
    again [] h =
        rw (generate_routes_unchanged cfg tables file h)
          (generate_routes_unchanged cfg tables file h)
    again (t ∷ rest) h = rw (generate_routes_extended cfg tables file t rest h) (
        generate_routes_unchanged cfg tables _ (
          subst
            (λ (new : List TableInfo).
              new_tables
                (parse_existing_route_funcs
                  (append_route_funcs cfg.use_handler_package new (base_of cfg file)))
                tables
              ≡ [])
            h
            (appended_none cfg.use_handler_package (funcs_of file) tables (base_of cfg file)
              (base_keeps cfg file imports) plain)))
