-- ===== src/Query/Planner/Ordering.antt =====
-- INSERT in src/query/mod.rs, and the order of its values.
use skipper_db.Base.{
  ℕ, zero, suc, ◌≡◌, refl, ap, ◌∙◌, subst, Bool, true, false, List, [], ◌∷◌, Option, none, some,
  map, length, get_elem?, get_elem?_lt, get_or, ◌<◌, Option-cases, inl, inr, ◌⊎◌, if◌then◌else◌,
  ◌==◌, ==_iff, arith,
}
use skipper_db.Base.Utf8.{Text, text_eq}
use skipper_db.Catalog.Schema.{Schema, Column, position}
use skipper_db.Parser.Ast.{Literal, Insert}
use skipper_db.Query.Plan.{LogicalPlan}
use skipper_db.Query.Planner.{
  Catalog, PlanResult, planned, refused, refuse, find_schema, order_values, known_columns,
  listed_value, not_null_columns, plan_insert, PlanError, ◌>>◌,
}
use skipper_db.Query.Planner.Checked.{planned_parts, position_bound}

-- A test that a planned result has passed.
guard_parts :
    {A : Type 0} (b : Bool) (m : PlanResult A) (e : PlanError) {y : A}
    → (if b then m else refused e) ≡ planned y
    → (b ≡ true) × (m ≡ planned y)
guard_parts true m e h = (refl, h)
guard_parts false m e h = cc h

-- NULL stands in nullable columns only.
abbrev pub NullsAllowed : List Literal → List Column → Type 0
NullsAllowed [] cs = Unit
NullsAllowed (v ∷ vs) [] = Unit
NullsAllowed (v ∷ vs) (c ∷ cs) = (v ≡ Literal.null → c.nullable ≡ true) × NullsAllowed vs cs

not_null_lem :
    (vs : List Literal) (cs : List Column) {u : Unit {0}}
    → not_null_columns vs cs ≡ planned u
    → NullsAllowed vs cs
unfolding not_null_columns refuse
not_null_lem [] cs h = tt
not_null_lem (v ∷ vs) [] h = tt
not_null_lem (Literal.null ∷ vs) (c ∷ cs) h =
    let (yes_null, rest) = guard_parts c.nullable (not_null_columns vs cs) _ h in
    ((λ e. yes_null), not_null_lem vs cs rest)
not_null_lem (Literal.int n ∷ vs) (c ∷ cs) h = ((λ e. cc e), not_null_lem vs cs h)
not_null_lem (Literal.str s ∷ vs) (c ∷ cs) h = ((λ e. cc e), not_null_lem vs cs h)

-- The literal that a column is to get: its own where the statement lists no columns, and else the
-- value at its name's place in the list, or NULL.
abbrev pub IsFor : Option (List Text) → List Literal → ℕ → Column → Literal → Type 0
IsFor none values k c v = get_elem? values k ≡ some v
IsFor (some names) values k c v =
    ((i : ℕ) × (position (λ n. text_eq n c.name) names ≡ some i) × (get_elem? values i ≡ some v))
    ⊎ ((position (λ n. text_eq n c.name) names ≡ none) × (v ≡ Literal.null))

abbrev pub Ordered : Option (List Text) → Schema → List Literal → List Literal → Type 0
Ordered names s values vs =
    (length vs ≡ length s.columns)
    × ((k : ℕ) (c : Column)
        → get_elem? s.columns k ≡ some c
        → (v : Literal) × (get_elem? vs k ≡ some v) × IsFor names values k c v)

get_elem?_bound :
    {A : Type 0} (xs : List A) (k : ℕ) (x : A) → get_elem? xs k ≡ some x → k < length xs
get_elem?_bound [] k x h = cc h
get_elem?_bound (y ∷ xs) zero x h = omega arith
get_elem?_bound (y ∷ xs) (suc k) x h = omega (arith, get_elem?_bound xs k x h)

get_elem?-map :
    {A B : Type 0} (f : A → B) (xs : List A) (k : ℕ) (x : A)
    → get_elem? xs k ≡ some x
    → get_elem? (map f xs) k ≡ some (f x)
get_elem?-map f [] k x h = cc h
get_elem?-map f (y ∷ xs) zero x h = cc h
get_elem?-map f (y ∷ xs) (suc k) x h = get_elem?-map f xs k x h

length-map : {A B : Type 0} (f : A → B) (xs : List A) → length (map f xs) ≡ length xs
length-map f [] = refl
length-map f (x ∷ xs) = ap suc (length-map f xs)

get_or-some :
    {A : Type 0} (xs : List A) (i : ℕ) (d : A)
    → i < length xs
    → get_elem? xs i ≡ some (get_or xs i d)
get_or-some [] i d h = absurd (omega arith)
get_or-some (x ∷ xs) zero d h = refl
get_or-some (x ∷ xs) (suc i) d h = get_or-some xs i d (omega arith)

listed_value_lem :
    (names : List Text) (values : List Literal) (k : ℕ) (c : Column)
    → length names ≡ length values
    → IsFor (some names) values k c (listed_value names values c)
unfolding listed_value
listed_value_lem names values k c same =
    elim (Option-cases (position (λ n. text_eq n c.name) names)) [
      | inl missing ↦ inr (missing, rw (listed_value, missing) refl)
      | inr (i, found) ↦ inl (
        i,
        found,
        get_or-some values i Literal.null
              (omega (arith, same, position_bound (λ n. text_eq n c.name) names i found))
            ∙ ap some (rw (listed_value, found) refl),
      )
    ]

order_values_lem :
    (s : Schema) (t : Text) (names : Option (List Text)) (values vs : List Literal)
    → order_values s t names values ≡ planned vs
    → Ordered names s values vs
unfolding order_values refuse
order_values_lem s t none values vs h =
    let (same, rest) = guard_parts (length values == length s.columns) (planned values) _ h in
    let long : length values ≡ length s.columns = (==_iff _ _).0 same in
    subst (λ l. Ordered none s values l) {x = values} {y = vs} (cc rest)
      (
        long,
        λ k c e.
            let (v, v_is) =
              get_elem?_lt values k (omega (arith, long, get_elem?_bound s.columns k c e)) in
            (v, v_is, v_is),
      )
order_values_lem s t (some names) values vs h =
    let (same, rest) =
      guard_parts (length names == length values)
        (known_columns s t names >> planned (map (listed_value names values) s.columns)) _ h in
    let (u, e, f) = planned_parts (known_columns s t names) _ rest in
    subst (λ l. Ordered (some names) s values l) {x = map (listed_value names values) s.columns}
      {y = vs} (cc f)
      (
        length-map (listed_value names values) s.columns,
        λ k c at. (
          listed_value names values c,
          get_elem?-map (listed_value names values) s.columns k c at,
          listed_value_lem names values k c ((==_iff _ _).0 same),
        ),
      )

-- An INSERT that is planned has a value for each column of the table: the one that the statement
-- gives for it (at the place where its list of columns first names the column, if it has a list), and
-- NULL for a column that the list leaves out. NULL stands in nullable columns only.
pub plan_insert_lem :
    (ins : Insert) (catalog : Catalog) (s : Schema) (node : LogicalPlan)
    → catalog ins.table ≡ some s
    → plan_insert ins catalog ≡ planned node
    → (vs : List Literal) × (node ≡ LogicalPlan.insert ins.table vs)
      × Ordered ins.columns s ins.values vs
      × NullsAllowed vs s.columns
unfolding plan_insert find_schema
plan_insert_lem ins catalog s node there h =
    let (vs, e, h₁) =
      planned_parts (order_values s ins.table ins.columns ins.values) _
        (rw (plan_insert, find_schema, there) at h) in
    let (u, nulls, h₂) = planned_parts (not_null_columns vs s.columns) _ h₁ in
    (
      vs,
      cc h₂,
      order_values_lem s ins.table ins.columns ins.values vs e,
      not_null_lem vs s.columns nulls,
    )
