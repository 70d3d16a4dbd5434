-- ===== src/Query/Planner/Create.antt =====
-- CREATE TABLE in src/query/mod.rs, and what it is to do with the names of the columns.
use skipper_db.Base.{
  ◌≡◌, ◌≢◌, refl, sym, ◌++◌, true, false, List, [], ◌∷◌, map, All, inl, inr, ◌⊎◌, Bool-cases,
}
use skipper_db.Base.Utf8.{Text, ascii, text_eq, text_eq_refl, text_eq→eq}
use skipper_db.Parser.Ast.{ColumnDef, CreateTable}
use skipper_db.Query.Plan.{LogicalPlan}
use skipper_db.Query.Planner.{
  planned, refuse, quoted, is_member, distinct_columns, plan_create_table,
}

-- No text is another one's equal.
abbrev pub Differs : Text → List Text → Type 0
Differs t us = All (λ u. u ≢ t) us

abbrev pub Distinct : List Text → Type 0
Distinct [] = Unit
Distinct (t ∷ ts) = Differs t ts × Distinct ts

abbrev pub column_names : List ColumnDef → List Text
column_names cs = map (λ c. c.name) cs

is_member_cases :
    (t : Text) (us : List Text)
    → ((is_member t us ≡ false) × Differs t us) ⊎ ((is_member t us ≡ true) × (¬ Differs t us))
unfolding is_member
is_member_cases t [] = inl (refl, tt)
is_member_cases t (u ∷ us) = elim (Bool-cases (text_eq u t)) [
  | inl same ↦ inr (rw same refl, λ k. k.0 (text_eq→eq u t same))
  | inr other ↦ elim (is_member_cases t us) [
    | inl (e, k) ↦ inl (rw other e, (λ same. absurd (cc (other, same, text_eq_refl u)), k))
    | inr (e, k) ↦ inr (rw other e, λ d. k d.1)
  ]
]

-- The columns have other names than those before them.
abbrev Fresh : List Text → List ColumnDef → Type 0
Fresh seen cs = All (λ n. Differs n seen) (column_names cs) × Distinct (column_names cs)

Fresh-cons :
    (c : ColumnDef) (seen : List Text) (cs : List ColumnDef)
    → Differs c.name seen
    → Fresh (c.name ∷ seen) cs
    → Fresh seen (c ∷ cs)
Fresh-cons c seen cs d k = ((d, older (column_names cs) k.0), (later (column_names cs) k.0, k.1))
  where
    older :
        (ns : List Text) → All (λ n. Differs n (c.name ∷ seen)) ns → All (λ n. Differs n seen) ns
    older [] h = tt
    older (n ∷ ns) h = (h.0.1, older ns h.1)

    later : (ns : List Text) → All (λ n. Differs n (c.name ∷ seen)) ns → Differs c.name ns
    later [] h = tt
    later (n ∷ ns) h = ((λ e. h.0.0 (sym e)), later ns h.1)

Fresh-tail :
    (c : ColumnDef) (seen : List Text) (cs : List ColumnDef)
    → Fresh seen (c ∷ cs)
    → Fresh (c.name ∷ seen) cs
Fresh-tail c seen cs k = (both (column_names cs) k.0.1 k.1.0, k.1.1)
  where
    both :
        (ns : List Text)
        → All (λ n. Differs n seen) ns
        → Differs c.name ns
        → All (λ n. Differs n (c.name ∷ seen)) ns
    both [] h d = tt
    both (n ∷ ns) h d = (((λ e. d.0 (sym e)), h.0), both ns h.1 d.1)

-- The loop over the columns, with the names before.
distinct_columns_lem :
    (seen : List Text) (cs : List ColumnDef)
    → ((distinct_columns seen cs ≡ planned tt) × Fresh seen cs)
      ⊎ ((c : Text) × (distinct_columns seen cs ≡ refuse (ascii "duplicate column " ++ quoted c))
          × (¬ Fresh seen cs))
unfolding distinct_columns
distinct_columns_lem seen [] = inl (refl, (tt, tt))
distinct_columns_lem seen (c ∷ cs) = elim (is_member_cases c.name seen) [
  | inr (e, k) ↦ inr (c.name, rw e refl, λ f. k f.0.0)
  | inl (e, d) ↦ elim (distinct_columns_lem (c.name ∷ seen) cs) [
    | inl (f, k) ↦ inl (rw e f, Fresh-cons c seen cs d k)
    | inr (t, f, k) ↦ inr (t, rw e f, λ g. k (Fresh-tail c seen cs g))
  ]
]

-- CREATE TABLE is planned as it stands if the names of its columns differ from one another, and is
-- refused as having a duplicate column if they do not.
pub plan_create_table_lem :
    (ct : CreateTable)
    → ((plan_create_table ct ≡ planned (LogicalPlan.create_table ct.table ct.columns))
        × Distinct (column_names ct.columns))
      ⊎ ((c : Text) × (plan_create_table ct ≡ refuse (ascii "duplicate column " ++ quoted c))
          × (¬ Distinct (column_names ct.columns)))
unfolding plan_create_table refuse
plan_create_table_lem ct = elim (distinct_columns_lem [] ct.columns) [
  | inl (e, k) ↦ inl (rw e refl, k.1)
  | inr (c, e, k) ↦ inr (c, rw e refl, λ d. k (none_before (column_names ct.columns), d))
]
  where
    none_before : (ns : List Text) → All (λ n. Differs n []) ns
    none_before [] = tt
    none_before (n ∷ ns) = (tt, none_before ns)
