-- ===== src/Tests/Resolutions.antt =====
-- compiler/paco-resolve/src/lib.rs: names of an or-pattern and a shadowing binding, on examples.
use paco.Prelude.{List, ℕ, ◌+◌, ◌≤◌, ◌≡◌, ◌≢◌, ◌⊎◌, refl, none, some, [], ◌∷◌, ℕ_discrete}
use paco.Prelude.Text.{Text, codes, eqb_text}
use paco.Dims.Tables.{find}
use paco.Dims.Arena.{Text_discrete}
use paco.Dims.Interning.{not_some}
use paco.Span.{Span}
use paco.Match.Patterns.{Pat, nil, cons}
use paco.Resolve.{
  Span_discrete, Locals, entries_at, get_local, record_local, Resolver, lookup, resolve_ident,
  bind_name, bind_pattern,
}
use paco.Resolve.Patterns.{bind_pattern-IsCounted}
use paco.Resolve.Counted.{IsCounted, Counts}
use paco.Resolve.Exprs.{Expr, block, no_stmts, let_stmt, one_expr, resolve_expr, resolve_function}
use paco.Resolve.Keeping.{Keeps}
use paco.Resolve.Modules.{
  const_param, FnDecl, Item, fn_item, trait_item, methods_item, resolve_module, resolve_locals,
  AllCounted, resolve_locals-AllCounted,
}
use paco.Resolve.Scoping.{resolve_expr-Keeps, resolve_function-counts}
use paco.Resolve.Shadowing.{record_local-get, resolve_ident-bind_name, bind_name-shadows}

abbrev at : ℕ → Span
at k = record { file_id = 0; start = k; end = k + 1 }

abbrev x : Text
x = codes "x"

abbrev no_locals : Locals
no_locals = record { occurrences = []; count = 0 }

abbrev in_function : Resolver
in_function = record { functions = []; not_found = some []; locals = no_locals; scopes = [] ∷ [] }

in_function-IsCounted : IsCounted in_function
unfolding get_local entries_at find lookup
in_function-IsCounted = record {
  recorded = λ name span id h. absurd (not_some h);
  in_scope = λ name id h. absurd (not_some h);
}

-- `Some(x) | Ok(x)`
abbrev either : Pat
either =
    Pat.or
      (cons (Pat.enum (codes "Some" ∷ []) (cons (Pat.ident x (at 5)) nil) (at 0))
        (cons (Pat.enum (codes "Ok" ∷ []) (cons (Pat.ident x (at 13)) nil) (at 10)) nil))
      (at 0)

abbrev in_arm : Resolver
in_arm = (bind_pattern either none (in_function, [])).0

alternatives_share : get_local x (at 13) in_arm.locals ≡ get_local x (at 5) in_arm.locals
unfolding bind_pattern get_local Span_discrete ℕ_discrete Text_discrete
alternatives_share = refl

unknown_name : (resolve_ident (codes "y") (at 20) in_arm).not_found ≡ some ((codes "y", at 20) ∷ [])
unfolding bind_pattern resolve_ident ℕ_discrete eqb_text
unknown_name = refl

known_name : (resolve_ident (codes "print") (at 20) in_arm).not_found ≡ some []
unfolding bind_pattern resolve_ident ℕ_discrete eqb_text
known_name = refl

in_arm-Counts : Counts in_function (bind_pattern either none (in_function, []))
in_arm-Counts = bind_pattern-IsCounted either in_function in_function-IsCounted

bind_pattern-IsCounted_example : Counts in_function (bind_pattern either none (in_function, []))
bind_pattern-IsCounted_example = bind_pattern-IsCounted either in_function in_function-IsCounted

record_local-get_example :
    (get_local x (at 20) (record_local x (at 20) 7 in_arm.locals) ≡ some 7)
    × ((n : Text) (s : Span)
        → ((n ≢ x) ⊎ (s ≢ at 20))
        → get_local n s (record_local x (at 20) 7 in_arm.locals) ≡ get_local n s in_arm.locals)
record_local-get_example = record_local-get x (at 20) 7 in_arm.locals

resolve_ident-bind_name_example :
    get_local x
      (at 30)
      (resolve_ident x (at 30) (bind_name x (at 25) none (in_function, [])).0).locals
    ≡ get_local x (at 25) (bind_name x (at 25) none (in_function, [])).0.locals
resolve_ident-bind_name_example =
    resolve_ident-bind_name x (at 25) (at 30) none in_function [] [] refl

bind_name-shadows_example :
    get_local x (at 30) (resolve_ident x (at 30) (bind_name x (at 25) none (in_arm, [])).0).locals
    ≢ get_local x (at 5) in_arm.locals
unfolding bind_pattern get_local Span_discrete ℕ_discrete Text_discrete
bind_name-shadows_example =
    bind_name-shadows x (at 25) (at 30) in_arm (((x, some 0) ∷ (x, some 0) ∷ [])) [] x (at 5) refl
      in_arm-Counts.counted refl

-- `{ let x = x; x }` behind the pattern, and `x` again
abbrev shadowing_block : Expr
shadowing_block = Expr.block_expr (
    block (let_stmt (Pat.ident x (at 40)) (one_expr (Expr.ident x (at 44))) no_stmts)
      (one_expr (Expr.ident x (at 47))))

abbrev behind_block : Resolver
behind_block = resolve_ident x (at 50) (resolve_expr shadowing_block in_arm)

inner_is_new : get_local x (at 47) behind_block.locals ≡ some 1
unfolding bind_pattern resolve_expr get_local Span_discrete ℕ_discrete Text_discrete
inner_is_new = refl

outer_is_old : get_local x (at 50) behind_block.locals ≡ get_local x (at 44) behind_block.locals
unfolding bind_pattern resolve_expr get_local Span_discrete ℕ_discrete Text_discrete
outer_is_old = refl

resolve_expr-Keeps_example : Keeps in_arm (resolve_expr shadowing_block in_arm)
resolve_expr-Keeps_example = resolve_expr-Keeps shadowing_block in_arm in_arm-Counts.counted

resolve_function-counts_example :
    ((resolve_function
        (codes "N" ∷ [])
        (either ∷ [])
        (block no_stmts (one_expr shadowing_block))
        in_function).scopes
      ≡ [])
    × IsCounted (
        resolve_function
          (codes "N" ∷ [])
          (either ∷ [])
          (block no_stmts (one_expr shadowing_block))
          in_function)
    × (in_function.locals.count
        ≤ (resolve_function
            (codes "N" ∷ [])
            (either ∷ [])
            (block no_stmts (one_expr shadowing_block))
            in_function).locals.count)
resolve_function-counts_example =
    resolve_function-counts (codes "N" ∷ []) (either ∷ [])
      (block no_stmts (one_expr shadowing_block)) in_function in_function-IsCounted

abbrev two_modules : List (List Item)
two_modules =
    let main : FnDecl = record {
      name = codes "main";
      generics = record { name = codes "N"; kind = const_param } ∷ [];
      params = either ∷ [];
      body = block no_stmts (one_expr shadowing_block);
    } in
    (fn_item main ∷ []) ∷ (trait_item ∷ methods_item [] (main ∷ []) ∷ []) ∷ []

two_locals : (resolve_locals two_modules).count ≡ 2
unfolding resolve_locals bind_pattern resolve_expr get_local Span_discrete ℕ_discrete Text_discrete
two_locals = refl

resolve_locals-AllCounted_example : AllCounted (resolve_locals two_modules)
resolve_locals-AllCounted_example = resolve_locals-AllCounted two_modules

-- `{ y }`
nothing_known :
    (resolve_module
      (fn_item (record {
        name = codes "f";
        generics = [];
        params = [];
        body = block no_stmts (one_expr (Expr.ident (codes "y") (at 9)));
      })
        ∷ [])
      []).not_found
    ≡ some ((codes "y", at 9) ∷ [])
unfolding resolve_module resolve_expr ℕ_discrete eqb_text Text_discrete
nothing_known = refl
