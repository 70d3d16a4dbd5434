-- ===== src/Errors.antt =====
-- src/error.rs: the error type, and the results of fallible code.
use skipper_db.Base.{ℕ, ◌≡◌, refl, Bool, true, false, ◌⊎◌, inl, inr}
use skipper_db.Base.Utf8.{Text}

-- What the operating system reports (`std::io::Error`).
pub data IoError : Type 0 where
  not_found already_exists unexpected_eof : IoError

pub data Error : Type 0 where
  not_a_skipper_db : Text → Error
  unsupported_version : ℕ → Error
  record_arity : ℕ → ℕ → Error
  type_mismatch : Text → Error
  malformed_record malformed_schema schema_too_large record_too_large malformed_index : Error
  unknown_column : Text → Error
  unsupported_key_type no_index : Error
  io : IoError → Error

-- `Result<T>`, with a constructor for a Rust panic: an index out of range, an overflow of checked
-- arithmetic, or the `unwrap` of a value that is not there.
pub data Result {ℓ} (A : Type ℓ) : Type ℓ where
  ok : A → Result A
  err : Error → Result A
  panic : Result A

infixl 5 ◌>>=◌ ◌>>◌
abbrev pub ◌>>=◌ {ℓ κ} : {A : Type ℓ} {B : Type κ} → Result A → (A → Result B) → Result B
ok a >>= f = f a
err e >>= f = err e
panic >>= f = panic

abbrev pub ◌>>◌ {ℓ κ} : {A : Type ℓ} {B : Type κ} → Result A → Result B → Result B
m >> k = m >>= λ _. k

-- A check whose failure panics.
abbrev pub check : Bool → Result (Unit {0})
check true = ok tt
check false = panic

-- The value that the first part of a chain gave, where the chain gave one.
pub bind_parts {ℓ κ} :
    {A : Type ℓ} {B : Type κ} (first : Result A) (next : A → Result B) {y : B}
    → (first >>= next) ≡ ok y
    → (x : A) × (first ≡ ok x) × (next x ≡ ok y)
bind_parts (ok x) next e = (x, refl, e)
bind_parts (err why) next e = cc
bind_parts panic next e = cc

pub bind_assoc {ℓ κ ι} :
    {A : Type ℓ} {B : Type κ} {C : Type ι} (m : Result A) (f : A → Result B) (g : B → Result C)
    → ((m >>= f) >>= g) ≡ (m >>= λ x. f x >>= g)
bind_assoc (ok a) f g = refl
bind_assoc (err e) f g = refl
bind_assoc panic f g = refl

pub ok_inj {ℓ} : {A : Type ℓ} {a b : A} → ok a ≡ ok b → a ≡ b
ok_inj h = cc h

-- A function under a result.
abbrev pub map_ok {ℓ κ} : {A : Type ℓ} {B : Type κ} → (A → B) → Result A → Result B
map_ok f (ok a) = ok (f a)
map_ok f (err e) = err e
map_ok f panic = panic

-- A result that is a value with `P`, or the error `e`: it is no panic and no other error.
pub data Yields {A : Type 0} (P : A → Type 0) (e : Error) : Result A → Type 0 where
  value : {a : A} → P a → Yields P e (ok a)
  failure : Yields P e (err e)

pub Yields-bind :
    {A B : Type 0} {P : A → Type 0} {Q : B → Type 0} {e : Error} {m : Result A} {f : A → Result B}
    → Yields P e m
    → ((a : A) → P a → Yields Q e (f a))
    → Yields Q e (m >>= f)
Yields-bind (value {a} p) k = k a p
Yields-bind failure k = failure

pub Yields-cases :
    {A : Type 0} {P : A → Type 0} {e : Error} {m : Result A}
    → Yields P e m
    → ((a : A) × (m ≡ ok a) × P a) ⊎ (m ≡ err e)
Yields-cases (value {a} p) = inl (a, refl, p)
Yields-cases failure = inr refl

pub map_ok-bind {ℓ κ} :
    {A : Type ℓ} {B : Type κ} (f : A → B) (m : Result A) → (m >>= λ a. ok (f a)) ≡ map_ok f m
map_ok-bind f (ok a) = refl
map_ok-bind f (err e) = refl
map_ok-bind f panic = refl
