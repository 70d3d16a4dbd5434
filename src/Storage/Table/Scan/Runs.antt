-- ===== src/Storage/Table/Scan/Runs.antt =====
-- A run of a scan as a chain of rounds, and what `collect` makes of it.
use skipper_db.Base.{ℕ, zero, suc, ◌<◌, ◌≡◌, refl, List, [], ◌∷◌, none, some, arith}
use skipper_db.Fuel.{done}
use skipper_db.Errors.{ok}
use skipper_db.Storage.Table.{Table}
use skipper_db.Storage.Table.Scan.{Scan, Item, finished, again, item, round}
use skipper_db.Storage.Table.Scan.Loop.{next, collect}

-- The rows that the rounds from a state on give, and how many rounds come before the last one.
pub data Gives (t : Table) : Scan → List Item → ℕ → Type 0 where
  ends : {s : Scan} (s' : Scan) → round t s ≡ ok (s', finished) → Gives t s [] 0
  passes :
      {s : Scan} {rows : List Item} {m : ℕ} (s' : Scan)
      → round t s ≡ ok (s', again)
      → Gives t s' rows m
      → Gives t s rows (suc m)
  yields :
      {s : Scan} {rows : List Item} {m : ℕ} (s' : Scan) (x : Item)
      → round t s ≡ ok (s', item x)
      → Gives t s' rows m
      → Gives t s (x ∷ rows) (suc m)

-- What a call of `next` comes to.
data Called (t : Table) (n : ℕ) (s : Scan) : List Item → ℕ → Type 0 where
  stopped : {m : ℕ} (s' : Scan) → next n t s ≡ done (ok (s', none)) → Called t n s [] m
  returned :
      {rows : List Item} {m : ℕ} (s' : Scan) (x : Item) (k : ℕ)
      → next n t s ≡ done (ok (s', some x))
      → k < m
      → Gives t s' rows k
      → Called t n s (x ∷ rows) m

module _ (t : Table) where
  Called-again :
      (n : ℕ) (s s' : Scan) (rows : List Item) (m : ℕ)
      → round t s ≡ ok (s', again)
      → Called t n s' rows m
      → Called t (suc n) s rows (suc m)
  unfolding next
  Called-again n s s' _ m e (stopped s'' f) = stopped s'' (rw e f)
  Called-again n s s' _ m e (returned s'' x k f l g) = returned s'' x k (rw e f) (omega arith) g

  next_lem :
      (n : ℕ) (s : Scan) (rows : List Item) (m : ℕ) → Gives t s rows m → m < n → Called t n s rows m
  unfolding next
  next_lem zero s rows m g l = absurd (omega arith)
  next_lem (suc n) s _ _ (ends s' e) l = stopped s' (rw e refl)
  next_lem (suc n) s _ _ (passes {rows} {m} s' e g) l =
      Called-again n s s' rows m e (next_lem n s' rows m g (omega arith))
  next_lem (suc n) s _ _ (yields {m = m} s' x e g) l = returned s' x m (rw e refl) (omega arith) g

  collect-Called :
      (n : ℕ) (s : Scan) (rows : List Item) (m : ℕ)
      → Called t (suc n) s rows m
      → ((s' : Scan) (xs : List Item) (k : ℕ)
          → Gives t s' xs k
          → k < m
          → collect n t s' ≡ done (ok xs))
      → collect (suc n) t s ≡ done (ok rows)
  unfolding collect
  collect-Called n s _ m (stopped s' e) more = rw e refl
  collect-Called n s _ m (returned {rows} s' x k e l g) more = rw (e, more s' rows k g l) refl

  -- With more fuel than rounds, `collect` returns the rows.
  pub collect-Gives :
      (n : ℕ) (s : Scan) (rows : List Item) (m : ℕ)
      → Gives t s rows m
      → m < n
      → collect n t s ≡ done (ok rows)
  collect-Gives zero s rows m g l = absurd (omega arith)
  collect-Gives (suc n) s rows m g l =
      collect-Called n s rows m (next_lem (suc n) s rows m g l)
        (λ s' xs k g' l'. collect-Gives n s' xs k g' (omega arith))
