-- ===== src/Query/Select/Parts.antt =====
-- The parts of a planned SELECT of src/query/mod.rs on rows with a value for each column.
use skipper_db.Base.{
  ℕ, ◌<◌, ◌^◌, ◌≡◌, refl, ◌∙◌, ap, subst, Bool, true, false, List, [], ◌∷◌, Option, some, none, map,
  All, arith, if◌then◌else◌,
}
use skipper_db.Base.Int.{ℤ, pos, negsuc}
use skipper_db.Base.Utf8.{Text, text_eq}
use skipper_db.Errors.{ok}
use skipper_db.Catalog.Schema.{Schema, Column, column_index, position}
use skipper_db.Parser.Ast.{Expr, column, SelectItem, Projection}
use skipper_db.Query.Plan.{ProjItem}
use skipper_db.Query.Planner.{
  planned, check_columns, require_column, plan_items, plan_projection, all_items, output_name,
  unknown_column, refuse,
}
use skipper_db.Query.Planner.Checked.{
  planned_parts, HasValues, eval_predicate_lem, eval_scalar_lem, column_value_lem, position_bound,
}
use skipper_db.Query.Eval.{Row, eval_scalar, eval_items}
use skipper_db.Query.Sort.Total.{Reaches}
use skipper_db.Query.Exec.Reference.{filter_rows, project_rows}
use skipper_db.Query.Build.{sort_index}
use skipper_db.Query.Select.{names, select_exprs, select_names}

keep_All :
    (P : Row → Type 0) {r : Row} (kept : List Row) (b : Bool)
    → P r
    → All P kept
    → All P (if b then r ∷ kept else kept)
keep_All P kept true p ps = (p, ps)
keep_All P kept false p ps = ps

pub filter_rows_total :
    (s : Schema) (t : Text) (p : Expr) (columns : List Text) (rows : List Row)
    → check_columns s t p ≡ planned tt
    → All (HasValues columns) rows
    → (kept : List Row) × (filter_rows p columns rows ≡ ok kept) × All (HasValues columns) kept
unfolding filter_rows
filter_rows_total s t p columns [] c h = ([], refl, tt)
filter_rows_total s t p columns (r ∷ rs) c h =
    let (b, e) = eval_predicate_lem s t p r columns c h.0 in
    let (kept, f, k) = filter_rows_total s t p columns rs c h.1 in
    (if b then r ∷ kept else kept, rw (e, f) refl, keep_All (HasValues columns) kept b h.0 k)

pub project_rows_total :
    (es : List Expr) (columns : List Text) (rows : List Row)
    → ((row : Row) → HasValues columns row → (v : Row) × (eval_items es row columns ≡ ok v))
    → All (HasValues columns) rows
    → (out : List Row) × (project_rows es columns rows ≡ ok out)
unfolding project_rows
project_rows_total es columns [] c h = ([], refl)
project_rows_total es columns (r ∷ rs) c h =
    let (v, e) = c r h.0 in
    let (vs, f) = project_rows_total es columns rs c h.1 in (v ∷ vs, rw (e, f) refl)

found_index :
    (c t : Text) (o : Option ℕ) {u : Unit {0}}
    → (elim o [ none ↦ unknown_column c t | some i ↦ planned tt ]) ≡ planned u
    → (i : ℕ) × (o ≡ some i)
unfolding unknown_column refuse
found_index c t none h = cc h
found_index c t (some i) h = (i, refl)

-- A column that is required is one of the names, and every row has it.
pub require_column_lem :
    (s : Schema) (t c : Text) {u : Unit {0}}
    → require_column s t c ≡ planned u
    → (i : ℕ) × (column_index s c ≡ some i)
unfolding require_column unknown_column refuse
require_column_lem s t c h = found_index c t (column_index s c) h

position-map :
    {A B : Type 0} (f : A → B) (p : B → Bool) (xs : List A)
    → position p (map f xs) ≡ position (λ x. p (f x)) xs
unfolding position
position-map f p [] = refl
position-map f p (x ∷ xs) = rw (position-map f p xs) refl

pub sort_index_lem :
    (s : Schema) (c : Text) (i : ℕ) → column_index s c ≡ some i → sort_index (names s) c ≡ ok i
unfolding sort_index column_index
sort_index_lem s c i h =
    rw (sort_index, position-map (λ d. d.name) (λ x. text_eq x c) s.columns ∙ h) refl

pub All-Reaches :
    (s : Schema) (c : Text) (i : ℕ) (rows : List Row)
    → column_index s c ≡ some i
    → All (HasValues (names s)) rows
    → All (Reaches i) rows
unfolding column_index
All-Reaches s c i [] e h = tt
All-Reaches s c i (r ∷ rs) e h = (
  omega (
    arith,
    h.0,
    position_bound (λ x. text_eq x c) (names s) i
        (position-map (λ d. d.name) (λ x. text_eq x c) s.columns ∙ e),
  ),
  All-Reaches s c i rs e h.1,
)

-- The planned items have the expressions and the names of the statement's, and on every row the
-- expressions have values.
abbrev IsPlanOf : List Expr → List Text → List ProjItem → Type 0
IsPlanOf es ns out =
    (map (λ i. i.expr) out ≡ es)
    × (map (λ i. i.name) out ≡ ns)
    × ((columns : List Text) (row : Row)
        → HasValues columns row
        → (v : Row) × (eval_items es row columns ≡ ok v))

plan_items_lem :
    (s : Schema) (t : Text) (items : List SelectItem) (out : List ProjItem)
    → plan_items s t items ≡ planned out
    → IsPlanOf (map (λ i. i.expr) items) (map output_name items) out
unfolding plan_items eval_items
plan_items_lem s t [] out h =
    subst (IsPlanOf [] []) {x = []} {y = out} (cc h) (refl, refl, λ columns row k. ([], refl))
plan_items_lem s t (item ∷ items) out h =
    let (u, c, f) = planned_parts (check_columns s t item.expr) _ h in
    let (rest, e, g) = planned_parts (plan_items s t items) _ f in
    let (expr_is, name_is, values) = plan_items_lem s t items rest e in
    subst (IsPlanOf (map (λ i. i.expr) (item ∷ items)) (map output_name (item ∷ items)))
      {x = record { expr = item.expr; name = output_name item } ∷ rest} {y = out} (cc g)
      (
        ap (λ l. item.expr ∷ l) expr_is,
        ap (λ l. output_name item ∷ l) name_is,
        λ columns row k.
            let (v, v_is) = eval_scalar_lem s t item.expr row columns c k in
            let (vs, vs_is) = values columns row k in (v ∷ vs, rw (v_is, vs_is) refl),
      )

all_items_lem :
    (cs : List Column)
    → IsPlanOf
        (map column (names (record { columns = cs })))
        (names (record { columns = cs }))
        (all_items (record { columns = cs }))
unfolding eval_items eval_scalar
all_items_lem [] = (refl, refl, λ columns row k. ([], refl))
all_items_lem (c ∷ cs) =
    let (expr_is, name_is, values) = all_items_lem cs in
    (
      ap (λ l. column c.name ∷ l) expr_is,
      ap (λ l. c.name ∷ l) name_is,
      λ columns row k.
          let (v, v_is) = column_value_lem c.name row columns k in
          let (vs, vs_is) = values columns row k in (v ∷ vs, rw (v_is, vs_is) refl),
    )

pub plan_projection_lem :
    (s : Schema) (t : Text) (p : Projection) (out : List ProjItem)
    → plan_projection s t p ≡ planned out
    → IsPlanOf (select_exprs p s) (select_names p s) out
unfolding plan_projection select_exprs select_names
plan_projection_lem s t Projection.all out h =
    subst (IsPlanOf (map column (names s)) (names s)) {x = all_items s} {y = out} (cc h)
      (all_items_lem s.columns)
plan_projection_lem s t (Projection.items items) out h = plan_items_lem s t items out h

-- A limit that an i64 holds.
abbrev pub IsLimit : Option ℤ → Type 0
IsLimit none = Unit
IsLimit (some (pos n)) = n < 2 ^ 63
IsLimit (some (negsuc n)) = Unit
