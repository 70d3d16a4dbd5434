-- ===== src/Query/Eval/Holds.antt =====
-- The evaluation of src/query/exec.rs computes what an expression means.
use skipper_db.Base.{
  zero, suc, ◌≡◌, ◌≤◌, refl, subst, ◌⊎◌, inl, inr, Bool, true, false, List, length, arith,
  if◌then◌else◌, ne→==,
}
use skipper_db.Base.Int.{pos, negsuc}
use skipper_db.Base.Utf8.{Text}
use skipper_db.Errors.{Result, ok, bind_parts, ok_inj}
use skipper_db.Types.{Value}
use skipper_db.Catalog.Schema.{Schema}
use skipper_db.Parser.Ast.{
  CompareOp, Expr, Exprs, column, literal, function, compare, and, or, no_exprs, exprs,
}
use skipper_db.Query.Planner.{check_columns, planned}
use skipper_db.Query.Planner.Checked.{eval_checked}
use skipper_db.Query.Eval.{
  Row, to_value, apply_function, column_value, eval_scalar, eval_predicate, eval_first, is_true,
  of_bool, compare_values, and_also, or_else,
}
use skipper_db.Query.Eval.Leaves.{
  IsUnder, IsCall, IsUnder-unique, column_value-IsUnder, apply_function-IsCall,
}
use skipper_db.Query.Eval.Related.{Related, Decides, compare_values-Related}
use skipper_db.Query.Eval.Meaning.{
  IsNonzero, IsBit, AreRelated, HasValue, HasFirst, Holds, HasValue-unique,
}

is_true-IsNonzero : (v : Value) → Decides (is_true v) (IsNonzero v)
is_true-IsNonzero (Value.int (pos zero)) = λ k. k refl
is_true-IsNonzero (Value.int (pos (suc n))) =
    rw (ne→== (suc n) 0 (λ e. omega (arith, e))) (λ e. cc e)
is_true-IsNonzero (Value.int (negsuc n)) = λ e. cc e
is_true-IsNonzero (Value.text s) = λ k. k
is_true-IsNonzero Value.null = λ k. k

of_bool-IsBit : (b : Bool) (P : Type 0) → Decides b P → IsBit P (of_bool b)
of_bool-IsBit true P h = inl (h, refl)
of_bool-IsBit false P h = inr (h, refl)

-- The test of the one value with `P`.
some_value-Decides :
    (P : Value → Type 0) (v : Value)
    → P v
    → ((w : Value) → P w → w ≡ v)
    → Decides (is_true v) ((w : Value) × P w × IsNonzero w)
some_value-Decides P v p only = go (is_true v) (is_true-IsNonzero v)
  where
    go : (b : Bool) → Decides b (IsNonzero v) → Decides b ((w : Value) × P w × IsNonzero w)
    go true k = (v, p, k)
    go false k = λ (w, q, n). k (subst IsNonzero (only w q) n)

-- The parts of AND and OR.
module _ (l r : Result Bool) (P Q : Type 0) (c : Bool) (left : (a : Bool) → l ≡ ok a → Decides a P)
    (right : (b : Bool) → r ≡ ok b → Decides b Q) where
  and_decides : (a : Bool) → l ≡ ok a → (if a then r else ok false) ≡ ok c → Decides c (P × Q)
  and_decides false e h = subst (λ b. Decides b (P × Q)) (ok_inj h) (λ k. left false e k.0)
  and_decides true e h = go c (right c h)
    where
      go : (b : Bool) → Decides b Q → Decides b (P × Q)
      go true q = (left true e, q)
      go false q = λ k. q k.1

  or_decides : (a : Bool) → l ≡ ok a → (if a then ok true else r) ≡ ok c → Decides c (P ⊎ Q)
  or_decides true e h = subst (λ b. Decides b (P ⊎ Q)) (ok_inj h) (inl (left true e))
  or_decides false e h = go c (right c h)
    where
      neither : (¬ Q) → ¬ (P ⊎ Q)
      neither q (inl p) = left false e p
      neither q (inr k) = q k

      go : (b : Bool) → Decides b Q → Decides b (P ⊎ Q)
      go true q = inr q
      go false q = neither q

  and_also-Decides : and_also l r ≡ ok c → Decides c (P × Q)
  and_also-Decides h = let (a, e, f) = bind_parts l _ h in and_decides a e f

  or_else-Decides : or_else l r ≡ ok c → Decides c (P ⊎ Q)
  or_else-Decides h = let (a, e, f) = bind_parts l _ h in or_decides a e f

-- A comparison whose sides have one value each.
compared-Decides :
    (L R : Value → Type 0) (op : CompareOp) (x y : Value)
    → L x
    → R y
    → ((w : Value) → L w → w ≡ x)
    → ((w : Value) → R w → w ≡ y)
    → Decides (compare_values x op y) (AreRelated op L R)
compared-Decides L R op x y lx ry only_x only_y =
    go (compare_values x op y) (compare_values-Related x op y)
  where
    go : (b : Bool) → Decides b (Related op x y) → Decides b (AreRelated op L R)
    go true k = (x, y, lx, ry, k)
    go false k = λ (u, v, lu, rv, related). k (
        subst (λ z. Related op z y) (only_x u lu)
          (subst (λ z. Related op u z) (only_y v rv) related))

sides-Decides :
    (row : Row) (columns : List Text) (l : Expr) (op : CompareOp) (r : Expr) (x y : Value)
    → HasValue row columns l x
    → HasValue row columns r y
    → Decides
        (compare_values x op y)
        (AreRelated op (HasValue row columns l) (HasValue row columns r))
sides-Decides row columns l op r x y hx hy =
    compared-Decides (HasValue row columns l) (HasValue row columns r) op x y hx hy
      (λ w k. HasValue-unique row columns l w x k hx)
      (λ w k. HasValue-unique row columns r w y k hy)

mutual
  unfolding HasValue HasFirst Holds eval_scalar eval_predicate eval_first

  eval_scalar-HasValue :
      (row : Row) (columns : List Text) (e : Expr) (v : Value)
      → eval_scalar e row columns ≡ ok v
      → HasValue row columns e v
  eval_scalar-HasValue row columns (column name) v h = column_value-IsUnder name row columns v h
  eval_scalar-HasValue row columns (literal l) v h = ok_inj h
  eval_scalar-HasValue row columns (function name args) v h =
      let (x, e, f) = bind_parts (eval_first args row columns) _ h in
      (
        x,
        eval_first-HasFirst row columns args x e,
        subst (IsCall name x) (ok_inj f) (apply_function-IsCall name x),
      )
  eval_scalar-HasValue row columns (compare l op r) v h =
      let (x, e, f) = bind_parts (eval_scalar l row columns) _ h in
      let (y, e', f') = bind_parts (eval_scalar r row columns) _ f in
      subst (IsBit _) (ok_inj f') (
        of_bool-IsBit (compare_values x op y) _ (
          sides-Decides row columns l op r x y (eval_scalar-HasValue row columns l x e)
            (eval_scalar-HasValue row columns r y e')))
  eval_scalar-HasValue row columns (and l r) v h =
      let (b, e, f) =
        bind_parts (and_also (eval_predicate l row columns) (eval_predicate r row columns)) _ h in
      subst (IsBit _) (ok_inj f) (
        of_bool-IsBit b _ (
          and_also-Decides (eval_predicate l row columns) (eval_predicate r row columns) _ _ b
            (eval_predicate-Decides row columns l) (eval_predicate-Decides row columns r) e))
  eval_scalar-HasValue row columns (or l r) v h =
      let (b, e, f) =
        bind_parts (or_else (eval_predicate l row columns) (eval_predicate r row columns)) _ h in
      subst (IsBit _) (ok_inj f) (
        of_bool-IsBit b _ (
          or_else-Decides (eval_predicate l row columns) (eval_predicate r row columns) _ _ b
            (eval_predicate-Decides row columns l) (eval_predicate-Decides row columns r) e))

  eval_first-HasFirst :
      (row : Row) (columns : List Text) (es : Exprs) (v : Value)
      → eval_first es row columns ≡ ok v
      → HasFirst row columns es v
  eval_first-HasFirst row columns no_exprs v h = cc h
  eval_first-HasFirst row columns (exprs e es) v h = eval_scalar-HasValue row columns e v h

  eval_predicate-Decides :
      (row : Row) (columns : List Text) (e : Expr) (b : Bool)
      → eval_predicate e row columns ≡ ok b
      → Decides b (Holds row columns e)
  eval_predicate-Decides row columns (column name) b h =
      let (v, e, f) = bind_parts (column_value name row columns) _ h in
      let under = column_value-IsUnder name row columns v e in
      subst (λ a. Decides a (Holds row columns (column name))) (ok_inj f)
        (some_value-Decides (IsUnder name columns row) v under
          (λ w k. IsUnder-unique name columns row w v k under))
  eval_predicate-Decides row columns (literal l) b h =
      subst (λ a. Decides a (IsNonzero (to_value l))) (ok_inj h) (is_true-IsNonzero (to_value l))
  eval_predicate-Decides row columns (function name args) b h =
      let (x, e, f) = bind_parts (eval_first args row columns) _ h in
      let hx = eval_first-HasFirst row columns args x e in
      let called : HasValue row columns (function name args) (apply_function name x) =
        (x, hx, apply_function-IsCall name x) in
      subst (λ a. Decides a (Holds row columns (function name args))) (ok_inj f)
        (some_value-Decides (λ v. (y : Value) × HasFirst row columns args y × IsCall name y v)
          (apply_function name x) called
          (λ w k.
            HasValue-unique row columns (function name args) w (apply_function name x) k called))
  eval_predicate-Decides row columns (compare l op r) b h =
      let (x, e, f) = bind_parts (eval_scalar l row columns) _ h in
      let (y, e', f') = bind_parts (eval_scalar r row columns) _ f in
      subst (λ a. Decides a (Holds row columns (compare l op r))) (ok_inj f')
        (sides-Decides row columns l op r x y (eval_scalar-HasValue row columns l x e)
          (eval_scalar-HasValue row columns r y e'))
  eval_predicate-Decides row columns (and l r) b h =
      and_also-Decides (eval_predicate l row columns) (eval_predicate r row columns) _ _ b
        (eval_predicate-Decides row columns l) (eval_predicate-Decides row columns r) h
  eval_predicate-Decides row columns (or l r) b h =
      or_else-Decides (eval_predicate l row columns) (eval_predicate r row columns) _ _ b
        (eval_predicate-Decides row columns l) (eval_predicate-Decides row columns r) h

-- An expression that passes the planner's check means, on every row that has a value for each column,
-- what `eval_scalar` and `eval_predicate` compute, without a panic: the first returns its value, and the
-- second returns true exactly if it holds. (A comparison holds if the values of its sides are two
-- integers or two texts in the operator's relation, so never for NULL; AND and OR are those of logic,
-- and another expression holds if it is an integer that is not 0. The value of a condition is 1 or 0, that of a
-- column stands under the first column of the name, and LENGTH counts the characters of a text.)
pub eval_predicate-Holds :
    (s : Schema) (t : Text) (e : Expr) (row : Row) (columns : List Text)
    → check_columns s t e ≡ planned tt
    → length columns ≤ length row
    → ((v : Value) × (eval_scalar e row columns ≡ ok v) × HasValue row columns e v)
      × ((b : Bool) × (eval_predicate e row columns ≡ ok b) × Decides b (Holds row columns e))
eval_predicate-Holds s t e row columns checked wide =
    let ((v, scalar), (b, predicate)) = eval_checked s t e row columns checked wide in
    (
      (v, scalar, eval_scalar-HasValue row columns e v scalar),
      (b, predicate, eval_predicate-Decides row columns e b predicate),
    )
