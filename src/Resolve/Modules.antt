-- ===== src/Resolve/Modules.antt =====
-- compiler/paco-resolve/src/lib.rs: the functions of a module, and of several.
use paco.Prelude.{◌<◌, ◌≡◌, none, some, List, [], ◌∷◌, ◌++◌}
use paco.Prelude.Text.{Text}
use paco.Dims.Tables.{find}
use paco.Dims.Interning.{not_some}
use paco.Span.{Span}
use paco.Match.Patterns.{Pat}
use paco.Resolve.{LocalId, Locals, entries_at, get_local, Resolver, lookup}
use paco.Resolve.Counted.{IsCounted}
use paco.Resolve.Exprs.{Block, resolve_function}
use paco.Resolve.Scoping.{resolve_function-counts}

pub data GenericParamKind : Type 0 where
  type_param lifetime const_param const_pack dim_param : GenericParamKind

pub record GenericParam : Type 0 where
  pub name : Text
  pub kind : GenericParamKind

-- a function declaration, as far as it is resolved
pub record FnDecl : Type 0 where
  pub name : Text
  pub generics : List GenericParam
  pub params : List Pat
  pub body : Block

-- the items of a module; of a trait or a `use` nothing is looked at
pub data Item : Type 0 where
  fn_item : FnDecl → Item
  struct_item : Text → List GenericParam → List FnDecl → Item
  enum_item : Text → List GenericParam → List FnDecl → Item
  methods_item : List GenericParam → List FnDecl → Item
  trait_item : Item
  use_item : Item
  const_item : Text → Item
  extern_item : List Text → Item

unfoldable pub const_names : List GenericParam → List Text
const_names [] = []
const_names (p ∷ ps) =
    let rest = const_names ps in
    elim p.kind [
      | type_param ↦ rest
      | lifetime ↦ rest
      | const_param ↦ p.name ∷ rest
      | const_pack ↦ p.name ∷ rest
      | dim_param ↦ p.name ∷ rest
    ]

unfoldable pub resolve_fn : List GenericParam → FnDecl → Resolver → Resolver
unfolding resolve_function const_names
resolve_fn owner f r = resolve_function (const_names (owner ++ f.generics)) f.params f.body r

unfoldable pub resolve_methods : List GenericParam → List FnDecl → Resolver → Resolver
unfolding resolve_fn
resolve_methods owner [] r = r
resolve_methods owner (f ∷ fs) r = resolve_methods owner fs (resolve_fn owner f r)

unfoldable pub resolve_item : Item → Resolver → Resolver
unfolding resolve_methods resolve_fn
resolve_item (fn_item f) r = resolve_fn [] f r
resolve_item (struct_item _ owner methods) r = resolve_methods owner methods r
resolve_item (enum_item _ owner methods) r = resolve_methods owner methods r
resolve_item (methods_item owner methods) r = resolve_methods owner methods r
resolve_item trait_item r = r
resolve_item use_item r = r
resolve_item (const_item _) r = r
resolve_item (extern_item _) r = r

-- `Resolver::module`
unfoldable pub resolve_items : List Item → Resolver → Resolver
unfolding resolve_item
resolve_items [] r = r
resolve_items (i ∷ is) r = resolve_items is (resolve_item i r)

unfoldable pub declared : Item → List Text
declared (fn_item f) = f.name ∷ []
declared (struct_item name _ _) = name ∷ []
declared (enum_item name _ _) = name ∷ []
declared (const_item name) = name ∷ []
declared (extern_item names) = names
declared (methods_item _ _) = []
declared trait_item = []
declared use_item = []

unfoldable pub declared_names : List Item → List Text
unfolding declared
declared_names [] = []
declared_names (i ∷ is) = declared i ++ declared_names is

-- `resolve_module_with_imports`, up to the list of the names that are not found
unfoldable pub resolve_module : List Item → List Text → Resolver
unfolding resolve_items declared_names
resolve_module items imported = resolve_items items (record {
  functions = declared_names items ++ imported;
  not_found = some [];
  locals = record { occurrences = []; count = 0 };
  scopes = [];
})

-- `Locals::add_module`
unfoldable pub add_module : List Item → Locals → Locals
unfolding resolve_items
add_module items l =
    (resolve_items items
      (record { functions = []; not_found = none; locals = l; scopes = [] })).locals

unfoldable pub add_modules : List (List Item) → Locals → Locals
unfolding add_module
add_modules [] l = l
add_modules (m ∷ ms) l = add_modules ms (add_module m l)

unfoldable pub resolve_locals : List (List Item) → Locals
unfolding add_modules
resolve_locals ms = add_modules ms (record { occurrences = []; count = 0 })

methods-IsCounted :
    (owner : List GenericParam) (fs : List FnDecl) (r : Resolver)
    → IsCounted r
    → IsCounted (resolve_methods owner fs r)
unfolding resolve_methods
methods-IsCounted owner [] r c = c
methods-IsCounted owner (f ∷ fs) r c =
    let (_, counted, _) =
      resolve_function-counts (const_names (owner ++ f.generics)) f.params f.body r c in
    methods-IsCounted owner fs (resolve_fn owner f r) counted

item-IsCounted : (i : Item) (r : Resolver) → IsCounted r → IsCounted (resolve_item i r)
unfolding resolve_item
item-IsCounted (fn_item f) r c = methods-IsCounted [] (f ∷ []) r c
item-IsCounted (struct_item _ owner methods) r c = methods-IsCounted owner methods r c
item-IsCounted (enum_item _ owner methods) r c = methods-IsCounted owner methods r c
item-IsCounted (methods_item owner methods) r c = methods-IsCounted owner methods r c
item-IsCounted trait_item r c = c
item-IsCounted use_item r c = c
item-IsCounted (const_item _) r c = c
item-IsCounted (extern_item _) r c = c

items-IsCounted : (is : List Item) (r : Resolver) → IsCounted r → IsCounted (resolve_items is r)
unfolding resolve_items
items-IsCounted [] r c = c
items-IsCounted (i ∷ is) r c = items-IsCounted is (resolve_item i r) (item-IsCounted i r c)

-- every id that is recorded has been counted
unfoldable pub AllCounted : Locals → Type 0
AllCounted l =
    (name : Text) (span : Span) (id : LocalId) → get_local name span l ≡ some id → id < l.count

add_modules-AllCounted :
    (ms : List (List Item)) (l : Locals) → AllCounted l → AllCounted (add_modules ms l)
unfolding add_modules AllCounted lookup
add_modules-AllCounted [] l c = c
add_modules-AllCounted (m ∷ ms) l c =
    let start : Resolver = record { functions = []; not_found = none; locals = l; scopes = [] } in
    add_modules-AllCounted ms (add_module m l)
      (items-IsCounted m start
        (record { recorded = c; in_scope = λ name id h. absurd (not_some h) })).recorded

-- In the table of the locals of any list of modules, resolved one after the other with the ids of
-- one carried on to the next, every id that a name has at a place is below the table's count.
pub resolve_locals-AllCounted : (ms : List (List Item)) → AllCounted (resolve_locals ms)
unfolding resolve_locals AllCounted get_local entries_at find
resolve_locals-AllCounted ms =
    add_modules-AllCounted ms (record { occurrences = []; count = 0 })
      (λ name span id h. absurd (not_some h))
