-- ===== src/Parser/Lexer/Total.antt =====
-- The outcome of the lexer of src/parser/lexer.rs, and the positions in it.
use skipper_db.Base.{
  ℕ, zero, suc, ◌+◌, ◌≤◌, ◌<◌, ◌≡◌, refl, Bool, true, false, not, List, [], ◌∷◌, Option, some, none,
  ◌==◌, if◌then◌else◌, length, drop, inl, inr, ◌⊎◌, arith, subst, le_or_lt, le→leb, lt→leb,
  length-drop, ◌&&◌, ◌||◌,
}
use skipper_db.Base.Int.{ℤ}
use skipper_db.Base.Utf8.{Bytes, Text}
use skipper_db.Parser.Lexer.{
  TokenKind, star, comma, semicolon, l_paren, r_paren, eq, not_eq, lt, lt_eq, gt, gt_eq, eof,
  is_space, is_alphabetic, Token, ParseError, Lexed, lexed, failed, out_of_fuel, count_while, Step,
  skip, token, fail, error_at, two_or_one, string_step, number_step, word_step, step, push, tokens,
  tokenize, is_digit, is_word, next_is, next_is_digit,
}

count_while_bound : (p : ℕ → Bool) (bs : Bytes) → count_while p bs ≤ length bs
unfolding count_while
count_while_bound p [] = omega arith
count_while_bound p (b ∷ bs) = grind (arith, count_while_bound p bs)

-- A round on `size` bytes takes between one byte and all of them, or fails where it starts.
data IsRound (start size : ℕ) : Step → Type 0 where
  skips : IsRound start size skip
  takes :
      {kind : TokenKind} {used : ℕ} → 1 ≤ used → used ≤ size → IsRound start size (token kind used)
  fails : {message : Text} → IsRound start size (fail (record { message = message; at = start }))

if-IsRound :
    {start size : ℕ} (b : Bool) {s t : Step}
    → IsRound start size s
    → IsRound start size t
    → IsRound start size (if b then s else t)
if-IsRound true h k = h
if-IsRound false h k = k

error_at-IsRound : (start size : ℕ) (message : Text) → IsRound start size (error_at start message)
unfolding error_at
error_at-IsRound start size message = fails

two_or_one-IsRound :
    (start : ℕ) (rest : Bytes) (c : ℕ) (two one : TokenKind)
    → IsRound start (suc (length rest)) (two_or_one rest c two one)
unfolding two_or_one next_is
two_or_one-IsRound start [] c two one = takes (omega arith) (omega arith)
two_or_one-IsRound start (b ∷ rest) c two one =
    if-IsRound (b == c) (takes (omega arith) (omega arith)) (takes (omega arith) (omega arith))

bang-IsRound :
    (start : ℕ) (rest : Bytes) (c : ℕ) (kind : TokenKind) (message : Text)
    → IsRound start
        (suc (length rest))
        (if next_is c rest then token kind 2 else error_at start message)
unfolding next_is
bang-IsRound start [] c kind message = error_at-IsRound start _ message
bang-IsRound start (b ∷ rest) c kind message =
    if-IsRound (b == c) (takes (omega arith) (omega arith)) (error_at-IsRound start _ message)

string_step-IsRound :
    (start : ℕ) (rest : Bytes) → IsRound start (suc (length rest)) (string_step start rest)
unfolding string_step
string_step-IsRound start rest =
    elim (le_or_lt (length rest) (count_while (λ b. not (b == b'\'')) rest)) [
      | inl all ↦ rw (string_step, le→leb _ _ all) (error_at-IsRound start _ _)
      | inr some_left ↦ rw (string_step, lt→leb _ _ some_left) (takes (omega arith) (omega arith))
    ]

parsed-IsRound :
    (start size n : ℕ) (o : Option ℤ) (message : Text)
    → n < size
    → IsRound start size
        (elim o [ none ↦ error_at start message | some v ↦ token (TokenKind.int v) (n + 1) ])
parsed-IsRound start size n none message h = error_at-IsRound start size message
parsed-IsRound start size n (some v) message h = takes (omega arith) (omega arith)

number_step-IsRound :
    (start c : ℕ) (rest : Bytes) → IsRound start (suc (length rest)) (number_step start c rest)
unfolding number_step
number_step-IsRound start c rest =
    parsed-IsRound start _ (count_while is_digit rest) _ _
      (omega (arith, count_while_bound is_digit rest))

word_step-IsRound :
    (start c : ℕ) (rest : Bytes) → IsRound start (suc (length rest)) (word_step c rest)
unfolding word_step
word_step-IsRound start c rest = takes (omega arith) (omega (arith, count_while_bound is_word rest))

one-IsRound :
    (start : ℕ) (rest : Bytes) (kind : TokenKind) → IsRound start (suc (length rest)) (token kind 1)
one-IsRound start rest kind = takes (omega arith) (omega arith)

step-IsRound : (start c : ℕ) (rest : Bytes) → IsRound start (suc (length rest)) (step start c rest)
unfolding step
step-IsRound start c rest = if-IsRound (is_space c) (skips) (
    if-IsRound (c == b'*') (one-IsRound start rest star) (
      if-IsRound (c == b',') (one-IsRound start rest comma) (
        if-IsRound (c == b';') (one-IsRound start rest semicolon) (
          if-IsRound (c == b'(') (one-IsRound start rest l_paren) (
            if-IsRound (c == b')') (one-IsRound start rest r_paren) (
              if-IsRound (c == b'=') (one-IsRound start rest eq) (
                if-IsRound (c == b'!') (bang-IsRound start rest b'=' not_eq _) (
                  if-IsRound (c == b'<') (two_or_one-IsRound start rest b'=' lt_eq lt) (
                    if-IsRound (c == b'>') (two_or_one-IsRound start rest b'=' gt_eq gt) (
                      if-IsRound (c == b'\'') (string_step-IsRound start rest) (
                        if-IsRound (is_digit c || (c == b'-' && next_is_digit rest))
                          (number_step-IsRound start c rest)
                          (if-IsRound (is_alphabetic c || c == b'_')
                            (word_step-IsRound start c rest)
                            (error_at-IsRound start _ _)))))))))))))

-- The positions grow and stand before the end of the input, where the last token, `eof`, is.
pub data Placed (end : ℕ) : ℕ → List Token → Type 0 where
  ends : {from : ℕ} → from ≤ end → Placed end from (record { kind = eof; at = end } ∷ [])
  goes :
      {from at : ℕ} {kind : TokenKind} {ts : List Token}
      → from ≤ at
      → at < end
      → Placed end (suc at) ts
      → Placed end from (record { kind = kind; at = at } ∷ ts)

-- Tokens at such positions, or an error inside the input.
data Outcome (end from : ℕ) : Lexed (List Token) → Type 0 where
  good : {ts : List Token} → Placed end from ts → Outcome end from (lexed ts)
  bad : {e : ParseError} → e.at < end → Outcome end from (failed e)

Placed-from :
    {end from to : ℕ} {ts : List Token} → to ≤ from → Placed end from ts → Placed end to ts
Placed-from h (ends k) = ends (omega arith)
Placed-from h (goes k l more) = goes (omega arith) l more

push-Outcome :
    (end start used : ℕ) (kind : TokenKind) (l : Lexed (List Token))
    → 1 ≤ used
    → start < end
    → Outcome end (start + used) l
    → Outcome end start (push (record { kind = kind; at = start }) l)
push-Outcome end start used kind (lexed ts) h b (good p) =
    good (goes (omega arith) b (Placed-from (omega arith) p))
push-Outcome end start used kind (failed e) h b (bad p) = bad p
push-Outcome end start used kind out_of_fuel h b p = elim p [ ]

skip-Outcome :
    (end start : ℕ) (l : Lexed (List Token)) → Outcome end (start + 1) l → Outcome end start l
skip-Outcome end start (lexed ts) (good p) = good (Placed-from (omega arith) p)
skip-Outcome end start (failed e) (bad p) = bad p
skip-Outcome end start out_of_fuel p = elim p [ ]

-- The loop with some fuel.
abbrev Lexing : ℕ → Type 0
Lexing n =
    (start end : ℕ) (bs : Bytes)
    → length bs < n
    → start + length bs ≡ end
    → Outcome end start (tokens n start bs)

-- What the loop does behind a round.
round-Outcome :
    (n start end c : ℕ) (rest : Bytes) (s : Step)
    → Lexing n
    → IsRound start (suc (length rest)) s
    → length rest < n
    → start + suc (length rest) ≡ end
    → Outcome end start (elim s [
      | skip ↦ tokens n (start + 1) rest
      | token kind used ↦
          push (record { kind = kind; at = start }) (tokens n (start + used) (drop used (c ∷ rest)))
      | fail e ↦ failed e
    ])
round-Outcome n start end c rest skip more skips h e =
    skip-Outcome end start _ (more (start + 1) end rest h (omega arith))
round-Outcome n start end c rest (token kind used) more (takes a b) h e =
    push-Outcome end start used kind _ a (omega arith) (
      more (start + used) end (drop used (c ∷ rest)) (omega (arith, length-drop used (c ∷ rest)))
        (omega (arith, length-drop used (c ∷ rest))))
round-Outcome n start end c rest (fail e) more fails h k = bad (omega arith)

tokens-Outcome : (n : ℕ) → Lexing n
unfolding tokens
tokens-Outcome zero start end bs h e = absurd (omega arith)
tokens-Outcome (suc n) start end [] h e =
    subst (λ k. Outcome k start (tokens (suc n) start [])) {x = start} {y = end} (omega arith)
      (good (ends (omega arith)))
tokens-Outcome (suc n) start end (c ∷ rest) h e =
    round-Outcome n start end c rest (step start c rest) (tokens-Outcome n)
      (step-IsRound start c rest) (omega arith) (omega arith)

Outcome-cases :
    {end : ℕ} {l : Lexed (List Token)}
    → Outcome end 0 l
    → ((ts : List Token) × (l ≡ lexed ts) × Placed end 0 ts)
      ⊎ ((e : ParseError) × (l ≡ failed e) × (e.at < end))
Outcome-cases (good {ts} p) = inl (ts, refl, p)
Outcome-cases (bad {e} p) = inr (e, refl, p)

-- On any input `tokenize` comes to an end: it returns tokens whose positions grow and lie inside the
-- input, with `eof` at its end as the last one, or an error at a position inside the input.
pub tokenize_total :
    (input : Text)
    → ((ts : List Token) × (tokenize input ≡ lexed ts) × Placed (length input) 0 ts)
      ⊎ ((e : ParseError) × (tokenize input ≡ failed e) × (e.at < length input))
unfolding tokenize
tokenize_total input =
    Outcome-cases
      (tokens-Outcome (suc (length input)) 0 (length input) input (omega arith) (omega arith))
