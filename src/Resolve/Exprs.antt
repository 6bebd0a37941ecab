-- ===== src/Resolve/Exprs.antt =====
-- compiler/paco-resolve/src/lib.rs: the walk of expressions, blocks and functions, on the tree of
-- compiler/paco-syntax/src/ast.rs without its types, operators and field names, which it passes over.
use paco.Prelude.{List, [], ◌∷◌, map, Option, none, some}
use paco.Prelude.Text.{Text}
use paco.Span.{Span}
use paco.Match.Patterns.{Literal, Pat}
use paco.Resolve.{Scope, Resolver, resolve_ident, bind_name, bind_pattern}

mutual
  -- `quote` has the expressions of its splice points, in the order in which they are visited
  pub data Expr : Type 0 where
    literal : Literal → Span → Expr
    ident : Text → Span → Expr
    block_expr : Block → Expr
    unsafe_expr : Block → Span → Expr
    if_expr : Expr → Block → MaybeExpr → Span → Expr
    loop_expr : Block → Span → Expr
    while_expr : Expr → Block → Span → Expr
    match_expr : Expr → MatchArms → Span → Expr
    call : Expr → Exprs → Span → Expr
    method_call : Expr → Exprs → Span → Expr
    associated_call : Exprs → Span → Expr
    binary : Expr → Expr → Span → Expr
    unary : Expr → Span → Expr
    assign : Expr → Expr → Span → Expr
    field_of : Expr → Span → Expr
    index : Expr → Exprs → Span → Expr
    try_expr : Expr → Span → Expr
    cast : Expr → Span → Expr
    return_expr : MaybeExpr → Span → Expr
    break_expr : MaybeExpr → Span → Expr
    continue_expr : Span → Expr
    spawn : Expr → Span → Expr
    closure : List Pat → Expr → Span → Expr
    select : SelectArms → MaybeBlock → Span → Expr
    comptime : Expr → Span → Expr
    quote : Exprs → Span → Expr
    splice : Expr → Span → Expr
    yield : Expr → Span → Expr
    struct_literal : Exprs → Span → Expr
    borrow : Expr → Span → Expr
    tuple_expr : Exprs → Span → Expr

  pub data Exprs : Type 0 where
    no_exprs : Exprs
    and_expr : Expr → Exprs → Exprs

  pub data MaybeExpr : Type 0 where
    no_expr : MaybeExpr
    one_expr : Expr → MaybeExpr

  pub data MaybeBlock : Type 0 where
    no_block : MaybeBlock
    one_block : Block → MaybeBlock

  pub data Block : Type 0 where
    block : Stmts → MaybeExpr → Block

  pub data Stmts : Type 0 where
    no_stmts : Stmts
    let_stmt : Pat → MaybeExpr → Stmts → Stmts
    expr_stmt : Expr → Stmts → Stmts
    item_stmt : Stmts → Stmts

  pub data MatchArms : Type 0 where
    no_arms : MatchArms
    match_arm : Pat → MaybeExpr → Expr → MatchArms → MatchArms

  -- an arm whose operation is an assignment, and any other
  pub data SelectArms : Type 0 where
    no_select : SelectArms
    assign_arm : Expr → Expr → Block → SelectArms → SelectArms
    other_arm : Expr → Block → SelectArms → SelectArms

unfoldable pub push_scope : Resolver → Resolver
push_scope r = record r { scopes = [] ∷ r.scopes }

unfoldable pub outer : List Scope → List Scope
outer [] = []
outer (_ ∷ scopes) = scopes

unfoldable pub pop_scope : Resolver → Resolver
unfolding outer
pop_scope r = record r { scopes = outer r.scopes }

unfoldable pub bind_params : List Pat → Resolver → Resolver
unfolding bind_pattern
bind_params [] r = r
bind_params (p ∷ ps) r = bind_params ps (bind_pattern p none (r, [])).0

unfoldable pub target_name : Expr → Option (Text × Span)
target_name (Expr.ident name span) = some (name, span)
target_name _ = none

unfoldable pub bind_target : Option (Text × Span) → Resolver → Resolver
unfolding bind_name
bind_target none r = r
bind_target (some (name, span)) r = (bind_name name span none (r, [])).0

-- `Resolver::expr`, `Resolver::block` and `Resolver::let_stmt`
unfoldable mutual
  unfolding resolve_ident push_scope pop_scope bind_params bind_target target_name

  pub resolve_expr : Expr → Resolver → Resolver
  resolve_expr (Expr.literal _ _) r = r
  resolve_expr (Expr.continue_expr _) r = r
  resolve_expr (Expr.ident name span) r = resolve_ident name span r
  resolve_expr (Expr.block_expr b) r = resolve_block b r
  resolve_expr (Expr.unsafe_expr b _) r = resolve_block b r
  resolve_expr (Expr.if_expr condition b otherwise _) r =
      resolve_maybe otherwise (resolve_block b (resolve_expr condition r))
  resolve_expr (Expr.loop_expr b _) r = resolve_block b r
  resolve_expr (Expr.while_expr condition b _) r = resolve_block b (resolve_expr condition r)
  resolve_expr (Expr.match_expr scrutinee arms _) r = resolve_arms arms (resolve_expr scrutinee r)
  resolve_expr (Expr.call callee args _) r = resolve_exprs args (resolve_expr callee r)
  resolve_expr (Expr.method_call receiver args _) r = resolve_exprs args (resolve_expr receiver r)
  resolve_expr (Expr.associated_call args _) r = resolve_exprs args r
  resolve_expr (Expr.binary left right _) r = resolve_expr right (resolve_expr left r)
  resolve_expr (Expr.unary e _) r = resolve_expr e r
  resolve_expr (Expr.assign target value _) r = resolve_expr value (resolve_expr target r)
  resolve_expr (Expr.field_of base _) r = resolve_expr base r
  resolve_expr (Expr.index base indices _) r = resolve_exprs indices (resolve_expr base r)
  resolve_expr (Expr.try_expr e _) r = resolve_expr e r
  resolve_expr (Expr.cast e _) r = resolve_expr e r
  resolve_expr (Expr.return_expr value _) r = resolve_maybe value r
  resolve_expr (Expr.break_expr value _) r = resolve_maybe value r
  resolve_expr (Expr.spawn e _) r = resolve_expr e r
  resolve_expr (Expr.closure params body _) r =
      pop_scope (resolve_expr body (bind_params params (push_scope r)))
  resolve_expr (Expr.select arms fallback _) r =
      resolve_maybe_block fallback (resolve_select arms r)
  resolve_expr (Expr.comptime e _) r = resolve_expr e r
  resolve_expr (Expr.quote splices _) r = resolve_exprs splices r
  resolve_expr (Expr.splice e _) r = resolve_expr e r
  resolve_expr (Expr.yield e _) r = resolve_expr e r
  resolve_expr (Expr.struct_literal values _) r = resolve_exprs values r
  resolve_expr (Expr.borrow e _) r = resolve_expr e r
  resolve_expr (Expr.tuple_expr es _) r = resolve_exprs es r

  pub resolve_exprs : Exprs → Resolver → Resolver
  resolve_exprs no_exprs r = r
  resolve_exprs (and_expr e es) r = resolve_exprs es (resolve_expr e r)

  pub resolve_maybe : MaybeExpr → Resolver → Resolver
  resolve_maybe no_expr r = r
  resolve_maybe (one_expr e) r = resolve_expr e r

  pub resolve_maybe_block : MaybeBlock → Resolver → Resolver
  resolve_maybe_block no_block r = r
  resolve_maybe_block (one_block b) r = resolve_block b r

  pub resolve_block : Block → Resolver → Resolver
  resolve_block (block stmts tail) r =
      pop_scope (resolve_maybe tail (resolve_stmts stmts (push_scope r)))

  pub resolve_stmts : Stmts → Resolver → Resolver
  resolve_stmts no_stmts r = r
  resolve_stmts (let_stmt p value rest) r =
      resolve_stmts rest (bind_params (p ∷ []) (resolve_maybe value r))
  resolve_stmts (expr_stmt e rest) r = resolve_stmts rest (resolve_expr e r)
  resolve_stmts (item_stmt rest) r = resolve_stmts rest r

  pub resolve_arms : MatchArms → Resolver → Resolver
  resolve_arms no_arms r = r
  resolve_arms (match_arm p guard body rest) r =
      resolve_arms rest
        (pop_scope (resolve_expr body (resolve_maybe guard (bind_params (p ∷ []) (push_scope r)))))

  pub resolve_select : SelectArms → Resolver → Resolver
  resolve_select no_select r = r
  resolve_select (assign_arm target value body rest) r = resolve_select rest (
      pop_scope
        (resolve_block body (bind_target (target_name target) (resolve_expr value (push_scope r)))))
  resolve_select (other_arm e body rest) r =
      resolve_select rest (pop_scope (resolve_block body (resolve_expr e (push_scope r))))

-- `Resolver::function`: the names of its const parameters, its parameters and its body
unfoldable pub resolve_function : List Text → List Pat → Block → Resolver → Resolver
unfolding resolve_block bind_params
resolve_function const_params params body r =
    record (resolve_block body
      (bind_params params (record r { scopes = map (λ name. (name, none)) const_params ∷ [] }))) {
        scopes = [];
      }
