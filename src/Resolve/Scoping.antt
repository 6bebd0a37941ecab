-- ===== src/Resolve/Scoping.antt =====
-- compiler/paco-resolve/src/lib.rs: what is bound in a block, an arm or a closure ends with it.
use paco.Prelude.{◌≤◌, ◌≡◌, refl, none, List, [], ◌∷◌}
use paco.Prelude.Text.{Text}
use paco.Dims.Interning.{not_some}
use paco.Match.Patterns.{Pat}
use paco.Prelude.{map}
use paco.Resolve.{Resolver, lookup, resolve_ident}
use paco.Resolve.Counted.{IsCounted}
use paco.Resolve.Exprs.{
  Expr, Exprs, no_exprs, and_expr, MaybeExpr, no_expr, one_expr, MaybeBlock, no_block, one_block,
  Block, block, Stmts, no_stmts, let_stmt, expr_stmt, item_stmt, MatchArms, no_arms, match_arm,
  SelectArms, no_select, assign_arm, other_arm, push_scope, pop_scope, bind_params, target_name,
  bind_target, resolve_expr, resolve_exprs, resolve_maybe, resolve_maybe_block, resolve_block,
  resolve_stmts, resolve_arms, resolve_select, resolve_function,
}
use paco.Resolve.Keeping.{
  Keeps, Inside, Keeps-refl, Keeps-trans, Keeps-next, Inside-Keeps, push-Inside, pop-Keeps,
  bind_params-Inside, bind_target-Inside, resolve_as-Keeps, constants-Inside,
}

mutual
  unfolding resolve_expr resolve_ident

  expr-Keeps : (e : Expr) (r : Resolver) → IsCounted r → Keeps r (resolve_expr e r)
  expr-Keeps (Expr.literal _ _) r c = Keeps-refl r c
  expr-Keeps (Expr.continue_expr _) r c = Keeps-refl r c
  expr-Keeps (Expr.ident name span) r c = resolve_as-Keeps (lookup name r.scopes) name span r refl c
  expr-Keeps (Expr.block_expr b) r c = block-Keeps b r c
  expr-Keeps (Expr.unsafe_expr b _) r c = block-Keeps b r c
  expr-Keeps (Expr.if_expr condition b otherwise _) r c =
      let f = expr-Keeps condition r c in
      let r1 = resolve_expr condition r in
      let g = block-Keeps b r1 f.counted in
      let r2 = resolve_block b r1 in
      Keeps-trans r r1 (resolve_maybe otherwise r2) f
        (Keeps-trans r1 r2 (resolve_maybe otherwise r2) g (maybe-Keeps otherwise r2 g.counted))
  expr-Keeps (Expr.loop_expr b _) r c = block-Keeps b r c
  expr-Keeps (Expr.while_expr condition b _) r c =
      let f = expr-Keeps condition r c in
      let r1 = resolve_expr condition r in
      Keeps-trans r r1 (resolve_block b r1) f (block-Keeps b r1 f.counted)
  expr-Keeps (Expr.match_expr scrutinee arms _) r c =
      let f = expr-Keeps scrutinee r c in
      let r1 = resolve_expr scrutinee r in
      Keeps-trans r r1 (resolve_arms arms r1) f (arms-Keeps arms r1 f.counted)
  expr-Keeps (Expr.call callee args _) r c =
      Keeps-next r (resolve_expr callee r) (resolve_exprs args (resolve_expr callee r))
        (expr-Keeps callee r c) (exprs-Keeps args (resolve_expr callee r))
  expr-Keeps (Expr.method_call receiver args _) r c =
      Keeps-next r (resolve_expr receiver r) (resolve_exprs args (resolve_expr receiver r))
        (expr-Keeps receiver r c) (exprs-Keeps args (resolve_expr receiver r))
  expr-Keeps (Expr.associated_call args _) r c = exprs-Keeps args r c
  expr-Keeps (Expr.binary left right _) r c =
      Keeps-next r (resolve_expr left r) (resolve_expr right (resolve_expr left r))
        (expr-Keeps left r c) (expr-Keeps right (resolve_expr left r))
  expr-Keeps (Expr.unary e _) r c = expr-Keeps e r c
  expr-Keeps (Expr.assign target value _) r c =
      Keeps-next r (resolve_expr target r) (resolve_expr value (resolve_expr target r))
        (expr-Keeps target r c) (expr-Keeps value (resolve_expr target r))
  expr-Keeps (Expr.field_of base _) r c = expr-Keeps base r c
  expr-Keeps (Expr.index base indices _) r c =
      Keeps-next r (resolve_expr base r) (resolve_exprs indices (resolve_expr base r))
        (expr-Keeps base r c) (exprs-Keeps indices (resolve_expr base r))
  expr-Keeps (Expr.try_expr e _) r c = expr-Keeps e r c
  expr-Keeps (Expr.cast e _) r c = expr-Keeps e r c
  expr-Keeps (Expr.return_expr value _) r c = maybe-Keeps value r c
  expr-Keeps (Expr.break_expr value _) r c = maybe-Keeps value r c
  expr-Keeps (Expr.spawn e _) r c = expr-Keeps e r c
  expr-Keeps (Expr.closure params body _) r c =
      let f = bind_params-Inside r (push_scope r) params (push-Inside r c) in
      let r1 = bind_params params (push_scope r) in
      pop-Keeps r (resolve_expr body r1) c
        (Inside-Keeps r r1 (resolve_expr body r1) f (expr-Keeps body r1 f.counted))
  expr-Keeps (Expr.select arms fallback _) r c =
      let f = select-Keeps arms r c in
      let r1 = resolve_select arms r in
      Keeps-trans r r1 (resolve_maybe_block fallback r1) f (maybe_block-Keeps fallback r1 f.counted)
  expr-Keeps (Expr.comptime e _) r c = expr-Keeps e r c
  expr-Keeps (Expr.quote splices _) r c = exprs-Keeps splices r c
  expr-Keeps (Expr.splice e _) r c = expr-Keeps e r c
  expr-Keeps (Expr.yield e _) r c = expr-Keeps e r c
  expr-Keeps (Expr.struct_literal values _) r c = exprs-Keeps values r c
  expr-Keeps (Expr.borrow e _) r c = expr-Keeps e r c
  expr-Keeps (Expr.tuple_expr es _) r c = exprs-Keeps es r c

  exprs-Keeps : (es : Exprs) (r : Resolver) → IsCounted r → Keeps r (resolve_exprs es r)
  exprs-Keeps no_exprs r c = Keeps-refl r c
  exprs-Keeps (and_expr e es) r c =
      Keeps-next r (resolve_expr e r) (resolve_exprs es (resolve_expr e r)) (expr-Keeps e r c)
        (exprs-Keeps es (resolve_expr e r))

  maybe-Keeps : (o : MaybeExpr) (r : Resolver) → IsCounted r → Keeps r (resolve_maybe o r)
  maybe-Keeps no_expr r c = Keeps-refl r c
  maybe-Keeps (one_expr e) r c = expr-Keeps e r c

  maybe_block-Keeps :
      (o : MaybeBlock) (r : Resolver) → IsCounted r → Keeps r (resolve_maybe_block o r)
  maybe_block-Keeps no_block r c = Keeps-refl r c
  maybe_block-Keeps (one_block b) r c = block-Keeps b r c

  block-Keeps : (b : Block) (r : Resolver) → IsCounted r → Keeps r (resolve_block b r)
  block-Keeps (block stmts tail) r c =
      let f = stmts-Inside stmts r (push_scope r) (push-Inside r c) in
      let r1 = resolve_stmts stmts (push_scope r) in
      pop-Keeps r (resolve_maybe tail r1) c
        (Inside-Keeps r r1 (resolve_maybe tail r1) f (maybe-Keeps tail r1 f.counted))

  stmts-Inside : (ss : Stmts) (r s : Resolver) → Inside r s → Inside r (resolve_stmts ss s)
  stmts-Inside no_stmts r s f = f
  stmts-Inside (let_stmt p value rest) r s f =
      let g = Inside-Keeps r s (resolve_maybe value s) f (maybe-Keeps value s f.counted) in
      stmts-Inside rest r (bind_params (p ∷ []) (resolve_maybe value s))
        (bind_params-Inside r (resolve_maybe value s) (p ∷ []) g)
  stmts-Inside (expr_stmt e rest) r s f =
      stmts-Inside rest r (resolve_expr e s)
        (Inside-Keeps r s (resolve_expr e s) f (expr-Keeps e s f.counted))
  stmts-Inside (item_stmt rest) r s f = stmts-Inside rest r s f

  arms-Keeps : (ms : MatchArms) (r : Resolver) → IsCounted r → Keeps r (resolve_arms ms r)
  arms-Keeps no_arms r c = Keeps-refl r c
  arms-Keeps (match_arm p guard body rest) r c =
      let f = bind_params-Inside r (push_scope r) (p ∷ []) (push-Inside r c) in
      let r1 = bind_params (p ∷ []) (push_scope r) in
      let g = Inside-Keeps r r1 (resolve_maybe guard r1) f (maybe-Keeps guard r1 f.counted) in
      let r2 = resolve_maybe guard r1 in
      let k =
        pop-Keeps r (resolve_expr body r2) c
          (Inside-Keeps r r2 (resolve_expr body r2) g (expr-Keeps body r2 g.counted)) in
      let r3 = pop_scope (resolve_expr body r2) in
      Keeps-trans r r3 (resolve_arms rest r3) k (arms-Keeps rest r3 k.counted)

  select-Keeps : (ms : SelectArms) (r : Resolver) → IsCounted r → Keeps r (resolve_select ms r)
  select-Keeps no_select r c = Keeps-refl r c
  select-Keeps (assign_arm target value body rest) r c =
      let p = push-Inside r c in
      let v = resolve_expr value (push_scope r) in
      let f = Inside-Keeps r (push_scope r) v p (expr-Keeps value (push_scope r) p.counted) in
      let g = bind_target-Inside r v (target_name target) f in
      let r2 = bind_target (target_name target) v in
      let k =
        pop-Keeps r (resolve_block body r2) c
          (Inside-Keeps r r2 (resolve_block body r2) g (block-Keeps body r2 g.counted)) in
      let r3 = pop_scope (resolve_block body r2) in
      Keeps-trans r r3 (resolve_select rest r3) k (select-Keeps rest r3 k.counted)
  select-Keeps (other_arm e body rest) r c =
      let p = push-Inside r c in
      let v = resolve_expr e (push_scope r) in
      let f = Inside-Keeps r (push_scope r) v p (expr-Keeps e (push_scope r) p.counted) in
      let k =
        pop-Keeps r (resolve_block body v) c
          (Inside-Keeps r v (resolve_block body v) f (block-Keeps body v f.counted)) in
      let r3 = pop_scope (resolve_block body v) in
      Keeps-trans r r3 (resolve_select rest r3) k (select-Keeps rest r3 k.counted)

-- The walk of an expression leaves the scopes as they were, so that nothing that a block, an arm, a
-- closure or a `select` in it binds is in scope behind it. Where all ids are counted before, they are
-- afterwards, and the count has not gone down.
pub resolve_expr-Keeps : (e : Expr) (r : Resolver) → IsCounted r → Keeps r (resolve_expr e r)
resolve_expr-Keeps e r c = expr-Keeps e r c

-- A function resolved where all ids are counted leaves no scope, all ids counted and a count that has
-- not gone down, so that the functions of a module can be resolved one after the other.
pub resolve_function-counts :
    (const_params : List Text) (params : List Pat) (body : Block) (r : Resolver)
    → IsCounted r
    → ((resolve_function const_params params body r).scopes ≡ [])
      × IsCounted (resolve_function const_params params body r)
      × (r.locals.count ≤ (resolve_function const_params params body r).locals.count)
unfolding resolve_function lookup
resolve_function-counts const_params params body r c =
    let start : Resolver = record r { scopes = map (λ name. (name, none)) const_params ∷ [] } in
    let empty : Resolver = record r { scopes = [] } in
    let f = bind_params-Inside empty start params (constants-Inside const_params r c) in
    let r1 = bind_params params start in
    let g = Inside-Keeps empty r1 (resolve_block body r1) f (block-Keeps body r1 f.counted) in
    (
      refl,
      record { recorded = g.counted.recorded; in_scope = λ name id h. absurd (not_some h) },
      g.more,
    )
