-- ===== src/Parser/State/Streams.antt =====
-- What the token methods of src/parser/mod.rs do on tokens that end with `eof`.
use skipper_db.Base.{
  ℕ, suc, ◌<◌, ◌≤◌, ◌≡◌, refl, ap, Bool, true, false, [], ◌∷◌, Option, none, some, length, arith,
  ==_iff,
}
use skipper_db.Base.Utf8.{Text}
use skipper_db.Parser.Lexer.{TokenKind, ParseError}
use skipper_db.Parser.Lexer.Total.{Placed, ends, goes}
use skipper_db.Parser.State.{
  Parser, Parsed, parsed, refused, ◌>>=◌, error, expected, current, advance, ident_text, is_word,
  peek_keyword, after, eat_keyword, kind_number, kind_eq, eat,
}

-- Tokens that end with `eof`, at positions in the input.
abbrev pub Stream : ℕ → Parser → Type 0
Stream end p = (from : ℕ) × Placed end from p

-- A result with less than `bound` tokens left, or an error at a position in the input.
pub data Good {A : Type 0} (end bound : ℕ) : Parsed A → Type 0 where
  good : {a : A} {p : Parser} → Stream end p → length p < bound → Good end bound (parsed a p)
  bad : {e : ParseError} → e.at ≤ end → Good end bound (refused e)

-- The method takes a token at least, wherever there are less than `n`; or it may take none.
abbrev pub Eats : {A : Type 0} → ℕ → ℕ → (Parser → Parsed A) → Type 0
Eats end n m = (p : Parser) → Stream end p → length p < n → Good end (length p) (m p)

abbrev pub Passes : {A : Type 0} → ℕ → ℕ → (Parser → Parsed A) → Type 0
Passes end n m = (p : Parser) → Stream end p → length p < n → Good end (suc (length p)) (m p)

module _ {A B : Type 0} (end : ℕ) where
  pub Good-bind :
      (b c : ℕ) (m : Parsed A) (f : A × Parser → Parsed B)
      → Good end b m
      → ((a : A) (q : Parser) → Stream end q → length q < b → Good end c (f (a, q)))
      → Good end c (m >>= f)
  Good-bind b c _ f (good {a} {p = q} s l) k = k a q s l
  Good-bind b c _ f (bad h) k = bad h

module _ {A : Type 0} (end : ℕ) where
  pub Good-le : (b c : ℕ) (m : Parsed A) → b ≤ c → Good end b m → Good end c m
  Good-le b c _ h (good s l) = good s (omega arith)
  Good-le b c _ h (bad e) = bad e

-- The kind of the current token.
abbrev pub Heads : TokenKind → Parser → Type 0
Heads kind [] = ⊥
Heads kind (t ∷ ts) = t.kind ≡ kind

module _ {A : Type 0} (end : ℕ) where
  pub error-Good :
      (b : ℕ) (message : Text) (p : Parser) → Stream end p → Good end b (error {A = A} message p)
  unfolding error
  error-Good b message _ (from, ends h) = bad (omega arith)
  error-Good b message _ (from, goes h l more) = bad (omega arith)

  pub expected-Good :
      (b : ℕ) (what : Text) (p : Parser) → Stream end p → Good end b (expected {A = A} what p)
  unfolding expected
  expected-Good b what p s = error-Good b _ p s

  pub current-Good :
      (b : ℕ) (p : Parser) (f : TokenKind × Parser → Parsed A)
      → Stream end p
      → ((kind : TokenKind) → Heads kind p → Good end b (f (kind, p)))
      → Good end b (current p >>= f)
  unfolding current
  current-Good b _ f (from, ends h) k = k TokenKind.eof refl
  current-Good b _ f (from, goes {kind = kind} h l more) k = k kind refl

-- The tokens behind one that is not `eof`.
pub advance_lem :
    (end : ℕ) (p : Parser) (kind : TokenKind)
    → Stream end p
    → Heads kind p
    → kind_number kind < 14
    → Stream end (advance p) × (suc (length (advance p)) ≡ length p)
unfolding advance
advance_lem end _ kind (from, ends h) e d = absurd (omega (arith, ap kind_number e))
advance_lem end _ kind (from, goes h l (ends h')) e d = ((_, ends h'), refl)
advance_lem end _ kind (from, goes h l (goes h' l' more)) e d = ((_, goes h' l' more), refl)

module _ (end : ℕ) (p : Parser) (s : Stream end p) where
  -- A token that is taken is one less.
  pub taken-Good :
      {A : Type 0} (a : A) (kind : TokenKind)
      → Heads kind p
      → kind_number kind < 14
      → Good end (length p) (parsed a (advance p))
  taken-Good a kind h d = let (s', l) = advance_lem end p kind s h d in good s' (omega arith)

  module _ {A : Type 0} (b : ℕ) (f : Bool × Parser → Parsed A) where
    pub after-Good :
        (found : Bool) (kind : TokenKind)
        → Heads kind p
        → (found ≡ true → kind_number kind < 14)
        → ((q : Parser) → Stream end q → suc (length q) ≡ length p → Good end b (f (true, q)))
        → Good end b (f (false, p))
        → Good end b (f (found, after found p))
    after-Good true kind h d took left =
        let (s', l) = advance_lem end p kind s h (d refl) in took (advance p) s' l
    after-Good false kind h d took left = left

pub ident_text-some :
    (kind : TokenKind) (s : Text) → ident_text kind ≡ some s → kind_number kind < 14
unfolding ident_text
ident_text-some (TokenKind.ident t) s h = omega arith
ident_text-some (TokenKind.int k) s h = cc
ident_text-some (TokenKind.str k) s h = cc
ident_text-some TokenKind.star s h = cc
ident_text-some TokenKind.comma s h = cc
ident_text-some TokenKind.semicolon s h = cc
ident_text-some TokenKind.l_paren s h = cc
ident_text-some TokenKind.r_paren s h = cc
ident_text-some TokenKind.eq s h = cc
ident_text-some TokenKind.not_eq s h = cc
ident_text-some TokenKind.lt s h = cc
ident_text-some TokenKind.lt_eq s h = cc
ident_text-some TokenKind.gt s h = cc
ident_text-some TokenKind.gt_eq s h = cc
ident_text-some TokenKind.eof s h = cc

pub is_word_lem :
    (w : Text) (kind : TokenKind) (o : Option Text)
    → ident_text kind ≡ o
    → is_word w o ≡ true
    → kind_number kind < 14
unfolding is_word
is_word_lem w kind none e h = cc
is_word_lem w kind (some s) e h = ident_text-some kind s e

pub kind_eq_lem :
    (k kind : TokenKind) → kind_number kind < 14 → kind_eq k kind ≡ true → kind_number k < 14
unfolding kind_eq
kind_eq_lem TokenKind.eof kind d h = absurd (omega (arith, (==_iff 14 (kind_number kind)).0 h))
kind_eq_lem (TokenKind.ident s) kind d h = omega arith
kind_eq_lem (TokenKind.int n) kind d h = omega arith
kind_eq_lem (TokenKind.str s) kind d h = omega arith
kind_eq_lem TokenKind.star kind d h = omega arith
kind_eq_lem TokenKind.comma kind d h = omega arith
kind_eq_lem TokenKind.semicolon kind d h = omega arith
kind_eq_lem TokenKind.l_paren kind d h = omega arith
kind_eq_lem TokenKind.r_paren kind d h = omega arith
kind_eq_lem TokenKind.eq kind d h = omega arith
kind_eq_lem TokenKind.not_eq kind d h = omega arith
kind_eq_lem TokenKind.lt kind d h = omega arith
kind_eq_lem TokenKind.lt_eq kind d h = omega arith
kind_eq_lem TokenKind.gt kind d h = omega arith
kind_eq_lem TokenKind.gt_eq kind d h = omega arith

-- There is a current token.
pub current_lem :
    (end : ℕ) (p : Parser)
    → Stream end p
    → (kind : TokenKind) × Heads kind p × (current p ≡ parsed kind p)
unfolding current
current_lem end _ (from, ends h) = (TokenKind.eof, refl, refl)
current_lem end _ (from, goes {kind = kind} h l more) = (kind, refl, refl)

module _ {A : Type 0} (end b : ℕ) (p : Parser) (f : Bool × Parser → Parsed A)
    (s : Stream end p) where
  pub peek_keyword-Good :
      (w : Text)
      → ((found : Bool) → Good end b (f (found, p)))
      → Good end b (peek_keyword w p >>= f)
  unfolding peek_keyword
  peek_keyword-Good w k =
      let (kind, h, e) = current_lem end p s in
      rw (peek_keyword, e) (k (is_word w (ident_text kind)))

  -- A keyword, taken or not.
  pub eat_keyword-Good :
      (w : Text)
      → ((q : Parser) → Stream end q → suc (length q) ≡ length p → Good end b (f (true, q)))
      → Good end b (f (false, p))
      → Good end b (eat_keyword w p >>= f)
  unfolding eat_keyword peek_keyword
  eat_keyword-Good w took left =
      let (kind, h, e) = current_lem end p s in
      rw (eat_keyword, peek_keyword, e)
        (after-Good end p s b f (is_word w (ident_text kind)) kind h
          (is_word_lem w kind (ident_text kind) refl) took left)

  pub eat-Good :
      (kind : TokenKind)
      → kind_number kind < 14
      → ((q : Parser) → Stream end q → suc (length q) ≡ length p → Good end b (f (true, q)))
      → Good end b (f (false, p))
      → Good end b (eat kind p >>= f)
  unfolding eat
  eat-Good kind d took left =
      let (k, h, e) = current_lem end p s in
      rw (eat, e) (after-Good end p s b f (kind_eq k kind) k h (kind_eq_lem k kind d) took left)
