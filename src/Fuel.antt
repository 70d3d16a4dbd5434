-- ===== src/Fuel.antt =====
-- Runs of code that loops with no bound in its text: a result, or no fuel left.
use skipper_db.Base.{◌≡◌, refl}
use skipper_db.Errors.{Result, ok, err, panic}

pub data Run {ℓ} (A : Type ℓ) : Type ℓ where
  done : Result A → Run A
  out_of_fuel : Run A

infixl 5 ◌>>=◌ ◌>>◌
abbrev pub ◌>>=◌ {ℓ κ} : {A : Type ℓ} {B : Type κ} → Run A → (A → Run B) → Run B
done (ok a) >>= f = f a
done (err e) >>= f = done (err e)
done panic >>= f = done panic
out_of_fuel >>= f = out_of_fuel

abbrev pub ◌>>◌ {ℓ κ} : {A : Type ℓ} {B : Type κ} → Run A → Run B → Run B
m >> k = m >>= λ _. k

-- The value that the first part of a chain gave, where the chain gave one.
pub run_parts {ℓ κ} :
    {A : Type ℓ} {B : Type κ} (first : Run A) (next : A → Run B) {y : B}
    → (first >>= next) ≡ done (ok y)
    → (x : A) × (first ≡ done (ok x)) × (next x ≡ done (ok y))
run_parts (done (ok x)) next e = (x, refl, e)
run_parts (done (err why)) next e = cc
run_parts (done panic) next e = cc
run_parts out_of_fuel next e = cc

pub done_inj {ℓ} : {A : Type ℓ} {a b : Result A} → done a ≡ done b → a ≡ b
done_inj h = cc h
