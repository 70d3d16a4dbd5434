-- ===== src/Parser/State/Taken.antt =====
-- The methods of src/parser/mod.rs that take a token come to an end on tokens that end with `eof`.
use skipper_db.Base.{
  ℕ, suc, ◌<◌, ◌≡◌, refl, Option, none, some, length, arith, Bool-cases, inl, inr,
}
use skipper_db.Base.Utf8.{Text}
use skipper_db.Parser.Lexer.{TokenKind}
use skipper_db.Parser.State.{
  Parser, Parsed, parsed, ◌>>=◌, current, ident_text, is_word, peek_keyword, eat_keyword, demand,
  expect_keyword, kind_number, kind_eq, eat, expect, ident_of, expect_ident, is_reserved, name_of,
  parse_name,
}
use skipper_db.Parser.State.Streams.{
  Stream, Good, good, Eats, Passes, Heads, expected-Good, current-Good, taken-Good, after-Good,
  ident_text-some, is_word_lem, kind_eq_lem, current_lem, eat_keyword-Good, eat-Good,
}

-- The methods that want a token.
module _ (end n : ℕ) where
  pub eat_keyword-Passes : (w : Text) → Passes end n (eat_keyword w)
  unfolding eat_keyword peek_keyword
  eat_keyword-Passes w p s l =
      let (kind, h, e) = current_lem end p s in
      rw (eat_keyword, peek_keyword, e)
        (after-Good end p s (suc (length p)) (λ x. parsed x.0 x.1) (is_word w (ident_text kind))
          kind h (is_word_lem w kind (ident_text kind) refl) (λ q s' l'. good s' (omega arith))
          (good s (omega arith)))

  pub eat-Passes : (kind : TokenKind) → kind_number kind < 14 → Passes end n (eat kind)
  unfolding eat
  eat-Passes kind d p s l =
      let (k, h, e) = current_lem end p s in
      rw (eat, e)
        (after-Good end p s (suc (length p)) (λ x. parsed x.0 x.1) (kind_eq k kind) k h
          (kind_eq_lem k kind d) (λ q s' l'. good s' (omega arith)) (good s (omega arith)))

  pub expect_keyword-Eats : (w : Text) → Eats end n (expect_keyword w)
  unfolding expect_keyword demand
  expect_keyword-Eats w p s l =
      eat_keyword-Good end (length p) p _ s w (λ q s' l'. good s' (omega arith))
        (expected-Good end (length p) w p s)

  pub expect-Eats :
      (kind : TokenKind) (what : Text) → kind_number kind < 14 → Eats end n (expect kind what)
  unfolding expect demand
  expect-Eats kind what d p s l =
      eat-Good end (length p) p _ s kind d (λ q s' l'. good s' (omega arith))
        (expected-Good end (length p) what p s)

  -- A method that looks at the current token.
  pub current-Eats :
      {A : Type 0} (f : TokenKind → Parser → Parsed A)
      → ((kind : TokenKind) (p : Parser)
          → Stream end p
          → length p < n
          → Heads kind p
          → Good end (length p) (f kind p))
      → Eats end n (λ p. current p >>= λ x. f x.0 p)
  current-Eats f k p s l = current-Good end (length p) p (λ x. f x.0 p) s (λ kind h. k kind p s l h)

  ident_of-Good :
      (what : Text) (kind : TokenKind) (o : Option Text) (p : Parser)
      → ident_text kind ≡ o
      → Stream end p
      → Heads kind p
      → Good end (length p) (ident_of what o p)
  unfolding ident_of
  ident_of-Good what kind none p e s h = expected-Good end (length p) what p s
  ident_of-Good what kind (some t) p e s h = taken-Good end p s t kind h (ident_text-some kind t e)

  pub expect_ident-Eats : (what : Text) → Eats end n (expect_ident what)
  unfolding expect_ident
  expect_ident-Eats what =
      current-Eats (λ kind. ident_of what (ident_text kind))
        (λ kind p s l h. ident_of-Good what kind (ident_text kind) p refl s h)

  name_of-Good :
      (what : Text) (kind : TokenKind) (o : Option Text) (p : Parser)
      → ident_text kind ≡ o
      → Stream end p
      → Heads kind p
      → Good end (length p) (name_of what o p)
  unfolding name_of
  name_of-Good what kind none p e s h = expected-Good end (length p) what p s
  name_of-Good what kind (some t) p e s h = elim (Bool-cases (is_reserved t)) [
    | inl r ↦ rw r (expected-Good end (length p) what p s)
    | inr r ↦ rw r (taken-Good end p s t kind h (ident_text-some kind t e))
  ]

  pub parse_name-Eats : (what : Text) → Eats end n (parse_name what)
  unfolding parse_name
  parse_name-Eats what =
      current-Eats (λ kind. name_of what (ident_text kind))
        (λ kind p s l h. name_of-Good what kind (ident_text kind) p refl s h)
