-- ===== src/Resolve/Keeping.antt =====
-- compiler/paco-resolve/src/lib.rs: what is bound inside a scope that is opened and closed.
use paco.Prelude.{
  ◌<◌, ◌≤◌, ◌≡◌, inl, inr, refl, sym, ap, ◌∙◌, subst, ◌||◌, Option, none, some, List, [], ◌∷◌,
  arith,
}
use paco.Prelude.Text.{Text, contains}
use paco.Dims.Tables.{find, find-cases}
use paco.Dims.Arena.{Text_discrete}
use paco.Dims.Interning.{not_some}
use paco.Span.{Span}
use paco.Match.Patterns.{Pat}
use paco.Prelude.{if-holds, map}
use paco.Resolve.{
  prelude_values, report, LocalId, record_local, Scope, Resolver, lookup, resolve_as, bind_pattern,
}
use paco.Resolve.Occurrences.{record-cases}
use paco.Resolve.Counted.{IsCounted, AliasBelow, bind_name-Counts}
use paco.Resolve.Patterns.{bind_pattern-IsCounted, nothing-Below}
use paco.Resolve.Scopes.{IsIn, bind_name-IsIn, bind_pattern-IsIn}
use paco.Resolve.Exprs.{push_scope, outer, pop_scope, bind_params, bind_target}

-- the scopes are as they were, and all ids are counted
pub record Keeps (r r' : Resolver) : Type 0 where
  pub scopes : r'.scopes ≡ r.scopes
  pub counted : IsCounted r'
  pub more : r.locals.count ≤ r'.locals.count

-- inside a scope that was opened in `r`
pub record Inside (r r' : Resolver) : Type 0 where
  pub here : IsIn r.scopes r'
  pub counted : IsCounted r'
  pub more : r.locals.count ≤ r'.locals.count

pub Keeps-refl : (r : Resolver) → IsCounted r → Keeps r r
Keeps-refl r c = record { scopes = refl; counted = c; more = omega arith }

pub Keeps-trans : (r s t : Resolver) → Keeps r s → Keeps s t → Keeps r t
Keeps-trans r s t f g =
    let fm = f.more in
    let gm = g.more in
    record { scopes = g.scopes ∙ f.scopes; counted = g.counted; more = omega arith }

pub Keeps-next : (r s t : Resolver) → Keeps r s → (IsCounted s → Keeps s t) → Keeps r t
Keeps-next r s t f next = Keeps-trans r s t f (next f.counted)

pub Inside-Keeps : (r s t : Resolver) → Inside r s → Keeps s t → Inside r t
unfolding IsIn
Inside-Keeps r s t f g =
    let fm = f.more in
    let gm = g.more in
    let (scope, e) = f.here in
    record { here = (scope, g.scopes ∙ e); counted = g.counted; more = omega arith }

pub push-Inside : (r : Resolver) → IsCounted r → Inside r (push_scope r)
unfolding IsIn push_scope lookup find
push-Inside r c = record {
  here = ([], refl);
  counted = record { recorded = c.recorded; in_scope = c.in_scope };
  more = omega arith;
}

pub pop-Keeps : (r s : Resolver) → IsCounted r → Inside r s → Keeps r (pop_scope s)
unfolding IsIn pop_scope outer
pop-Keeps r s c f =
    let m = f.more in
    let (scope, e) = f.here in
    let same : outer s.scopes ≡ r.scopes = ap outer e in
    record {
      scopes = same;
      counted = record {
        recorded = f.counted.recorded;
        in_scope = λ name id h.
            let lt = c.in_scope name id (subst (λ ss. lookup name ss ≡ some (some id)) same h) in
            omega arith;
      };
      more = m;
    }

bind_pattern-Inside :
    (r s : Resolver) (p : Pat) → Inside r s → Inside r (bind_pattern p none (s, [])).0
bind_pattern-Inside r s p f =
    let c = bind_pattern-IsCounted p s f.counted in
    let m = f.more in
    let n = c.more in
    record {
      here = bind_pattern-IsIn r.scopes p none (s, []) f.here;
      counted = c.counted;
      more = omega arith;
    }

pub bind_params-Inside : (r s : Resolver) (ps : List Pat) → Inside r s → Inside r (bind_params ps s)
unfolding bind_params
bind_params-Inside r s [] f = f
bind_params-Inside r s (p ∷ ps) f =
    bind_params-Inside r (bind_pattern p none (s, [])).0 ps (bind_pattern-Inside r s p f)

pub bind_target-Inside :
    (r s : Resolver) (o : Option (Text × Span)) → Inside r s → Inside r (bind_target o s)
unfolding bind_target AliasBelow
bind_target-Inside r s none f = f
bind_target-Inside r s (some (name, span)) f =
    let c = bind_name-Counts name span none s [] f.counted tt (nothing-Below s.locals.count) in
    let m = f.more in
    let n = c.more in
    record {
      here = bind_name-IsIn r.scopes name span none s [] f.here;
      counted = c.counted;
      more = omega arith;
    }

pub resolve_as-Keeps :
    (o : Option (Option LocalId)) (name : Text) (span : Span) (r : Resolver)
    → lookup name r.scopes ≡ o
    → IsCounted r
    → Keeps r (resolve_as o name span r)
unfolding resolve_as record_local
resolve_as-Keeps (some (some id)) name span r e c = record {
  scopes = refl;
  counted = record {
    recorded = λ n s k h. elim (record-cases n s k name span id r.locals h) [
      | inl (_, same) ↦ subst (λ k. k < r.locals.count) (sym same) (c.in_scope name id e)
      | inr old ↦ c.recorded n s k old
    ];
    in_scope = c.in_scope;
  };
  more = omega arith;
}
resolve_as-Keeps (some none) name span r e c = Keeps-refl r c
resolve_as-Keeps none name span r e c =
    if-holds (Keeps r) (contains r.functions name || contains prelude_values name) r
      (record r { not_found = report name span r.not_found }) (λ _. Keeps-refl r c)
      (λ _. record {
        scopes = refl;
        counted = record { recorded = c.recorded; in_scope = c.in_scope };
        more = omega arith;
      })

-- const parameters are no locals
constants-none :
    (cs : List Text) (name : Text) (id : LocalId)
    → find Text_discrete name (map (λ c. (c, none)) cs) ≡ some (some id)
    → ⊥
unfolding find
constants-none [] name id h = not_some h
constants-none (c ∷ cs) name id h =
    elim (find-cases Text_discrete name c none (some id) (map (λ c. (c, none)) cs) h) [
      | inl (_, e) ↦ not_some e
      | inr rest ↦ constants-none cs name id rest
    ]

pub constants-Inside :
    (cs : List Text) (r : Resolver)
    → IsCounted r
    → Inside (record r { scopes = [] }) (record r { scopes = map (λ c. (c, none)) cs ∷ [] })
unfolding IsIn lookup
constants-Inside cs r c = record {
  here = (map (λ c. (c, none)) cs, refl);
  counted = record {
    recorded = c.recorded;
    in_scope = λ name id h.
        let scope : Scope = map (λ c. (c, none)) cs in
        elim (find Text_discrete name scope)
            as (λ (o : Option (Option LocalId)).
              find Text_discrete name scope ≡ o
              → elim o [ some entry ↦ some entry | none ↦ none ] ≡ some (some id)
              → id < r.locals.count) [
                | none ↦ (λ _ k. absurd (not_some k))
                | some entry ↦ (λ e k. absurd (constants-none cs name id (e ∙ k)))
              ]
          refl h;
  };
  more = omega arith;
}
