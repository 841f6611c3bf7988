-- ===== src/GenApi/Formula/Lexer/Print.antt =====
-- The text of tokens, each one after a blank, and what the lexer reads from it.
use cameleon.Prelude.{ℕ, suc, ◌^◌, ◌<◌, List, [], ◌∷◌, ◌++◌, length, length-append}
use cameleon.Prelude.{
  Bool, true, false, ◌==◌, ◌||◌, if◌then◌else◌, ◌≡◌, refl, arith, none, some, All, ap, sym, ◌∙◌,
}
use cameleon.Result.{ok}
use mathlib.Core.Path.{subst}
use cameleon.GenApi.Formula.{Name, Floats}
use cameleon.GenApi.Formula.Lexer.{Token, Utf8, starts, peek_char, eat_char, eat_while}
use cameleon.GenApi.Formula.Lexer.{
  is_blank, is_alphabetic, is_numeric, is_name_char, decimal_or_float,
}
use cameleon.GenApi.Formula.Lexer.{
  number, name, token_at, next_token, parse_int, ident, integer, float,
}
use cameleon.GenApi.Formula.Lexer.{
  l_paren, r_paren, plus, minus, star, double_star, slash, percent, and, double_and, or,
}
use cameleon.GenApi.Formula.Lexer.{
  double_or, caret, tilde, eq, ne, colon, question, lt, le, gt, ge, shl, shr,
}
use cameleon.GenApi.Formula.Lexer.Decimal.{
  decimal, decimal-IsDigit, decimal_cons, parse_int-decimal, IsDigit,
}
use cameleon.GenApi.Formula.Lexer.Scan.{IsName, peek_char_plain, eat_all-append, sub_string-append}
use cameleon.GenApi.Formula.Lexer.Scan.{stops_nil, stops_blank, name_Passes, name_ascii}
use cameleon.GenApi.Formula.Lexer.Scan.{alphabetic_plain, digit_plain, digits_Passes, digits_ascii}
use cameleon.GenApi.Formula.Lexer.Scan.{digits_integral, not_hexadecimal, either_none, skip_blank}

module _ {F : Type 0} where
  unfoldable pub spelling : Token F → List ℕ
  unfolding decimal
  spelling l_paren = b'(' ∷ []
  spelling r_paren = b')' ∷ []
  spelling plus = b'+' ∷ []
  spelling minus = b'-' ∷ []
  spelling star = b'*' ∷ []
  spelling double_star = b'*' ∷ b'*' ∷ []
  spelling slash = b'/' ∷ []
  spelling percent = b'%' ∷ []
  spelling and = b'&' ∷ []
  spelling double_and = b'&' ∷ b'&' ∷ []
  spelling or = b'|' ∷ []
  spelling double_or = b'|' ∷ b'|' ∷ []
  spelling caret = b'^' ∷ []
  spelling tilde = b'~' ∷ []
  spelling eq = b'=' ∷ []
  spelling ne = b'<' ∷ b'>' ∷ []
  spelling colon = b':' ∷ []
  spelling question = b'?' ∷ []
  spelling lt = b'<' ∷ []
  spelling le = b'<' ∷ b'=' ∷ []
  spelling gt = b'>' ∷ []
  spelling ge = b'>' ∷ b'=' ∷ []
  spelling shl = b'<' ∷ b'<' ∷ []
  spelling shr = b'>' ∷ b'>' ∷ []
  spelling (ident s) = s
  spelling (integer i) = decimal i
  spelling (float f) = []

  unfoldable pub print : List (Token F) → List ℕ
  print [] = []
  print (t ∷ ts) = b' ' ∷ (spelling t ++ print ts)

  -- A token that its spelling stands for: a positive integer, a name, or one without content.
  abbrev pub IsPrintable : Token F → Type 0
  IsPrintable (ident s) = IsName s
  IsPrintable (integer i) = i < 2 ^ 63
  IsPrintable (float f) = ⊥
  IsPrintable _ = Unit

  pub length-print :
      (t : Token F) (ts : List (Token F))
      → length (print (t ∷ ts)) ≡ suc (length (spelling t ++ print ts))
  unfolding print
  length-print t ts = refl

  pub print_longer :
      (t : Token F) (ts : List (Token F)) → length (print ts) < length (print (t ∷ ts))
  unfolding print
  print_longer t ts = omega (arith, length-append (spelling t) (print ts))

  -- What a printed text begins with.
  print_split :
      (P : List ℕ → Type 0)
      → P []
      → ((c : List ℕ) → P (b' ' ∷ c))
      → (ts : List (Token F)) → P (print ts)
  unfolding print
  print_split P nil blank [] = nil
  print_split P nil blank (t ∷ ts) = blank (spelling t ++ print ts)

module _ {F : Type 0} ⦃O : Floats F⦄ ⦃U : Utf8⦄ where
  -- The token is read before `c`.
  abbrev Lexes : Token F → List ℕ → Type 0
  Lexes t c = next_token (b' ' ∷ (spelling t ++ c)) ≡ ok (some (t, c))

  next_token_plain :
      (c : ℕ) (s : List ℕ) (r : Token F × List ℕ)
      → is_blank c ≡ false
      → (b'&' == c) ≡ false
      → token_at (c ∷ s) c s ≡ ok r
      → next_token (b' ' ∷ (c ∷ s)) ≡ ok (some r)
  unfolding next_token
  next_token_plain c s r h h' e =
      rw (skip_blank c s h h', peek_char_plain c s h', skip_blank c s h h', e, next_token) refl

  token_at-name :
      (start rest : List ℕ) (c : ℕ)
      → is_alphabetic c ≡ true
      → token_at {F = F} start c rest ≡ name start rest
  unfolding token_at is_alphabetic
  token_at-name start rest c h = ground arith

  token_at-number :
      (start rest : List ℕ) (c : ℕ)
      → IsDigit c
      → token_at {F = F} start c rest ≡ number start c rest
  unfolding token_at is_alphabetic is_numeric
  token_at-number start rest c h = ground arith

  print_stops :
      (test : ℕ → Bool)
      → test b' ' ≡ false
      → (ts : List (Token F)) (n : ℕ) → eat_while n test (print ts) ≡ print ts
  print_stops test h ts n =
      print_split (λ c. eat_while n test c ≡ c) (stops_nil test n) (λ c. stops_blank test c h n) ts

  name_lexes :
      (c : ℕ) (s : Name) (ts : List (Token F))
      → IsName (c ∷ s)
      → name {F = F} (c ∷ (s ++ print ts)) (s ++ print ts) ≡ ok (ident (c ∷ s), print ts)
  unfolding name is_name_char is_alphabetic is_numeric
  name_lexes c s ts h =
      rw
        (
          eat_all-append is_name_char s (print ts) (name_Passes s h.2)
              (print_stops is_name_char refl ts),
          sub_string-append (c ∷ s) (print ts),
          U.is_utf8_ascii (c ∷ s) (name_ascii c s h),
          name,
        )
        refl

  no_hexadecimal :
      (c : ℕ) (s : List ℕ) (ts : List (Token F))
      → All IsDigit s
      → (if c == b'0' then eat_char (λ c. c == b'x') (s ++ print ts) else none) ≡ none
  unfolding eat_char peek_char starts
  no_hexadecimal c [] ts h =
      print_split (λ rest. (if c == b'0' then eat_char (λ c. c == b'x') rest else none) ≡ none)
        (either_none (c == b'0')) (λ rest. either_none (c == b'0')) ts
  no_hexadecimal c (d ∷ s) ts h =
      rw (not_hexadecimal d (s ++ print ts) h.0) (either_none (c == b'0'))

  number_lexes :
      (c : ℕ) (s : List ℕ) (i : ℕ) (ts : List (Token F))
      → All IsDigit (c ∷ s)
      → parse_int 10 (c ∷ s) ≡ some i
      → number {F = F} (c ∷ (s ++ print ts)) c (s ++ print ts) ≡ ok (integer i, print ts)
  unfolding number decimal_or_float is_numeric
  number_lexes c s i ts h e =
      rw
        (
          no_hexadecimal c s ts h.1,
          eat_all-append (λ c. c == b'.' || is_numeric c) s (print ts) (digits_Passes s h.1)
              (print_stops (λ c. c == b'.' || is_numeric c) refl ts),
          sub_string-append (c ∷ s) (print ts),
          U.is_utf8_ascii (c ∷ s) (digits_ascii (c ∷ s) h),
          digits_integral (c ∷ s) h,
          e,
          number,
        )
        refl

  content-Lexes : (t : Token F) (ts : List (Token F)) → IsPrintable t → Lexes t (print ts)
  unfolding next_token spelling token_at eat_while eat_char peek_char starts is_blank
  content-Lexes (ident []) ts h = elim h [ ]
  content-Lexes (ident (c ∷ s)) ts h =
      next_token_plain c (s ++ print ts) (ident (c ∷ s), print ts) ((alphabetic_plain c h.0 h.1).0)
        ((alphabetic_plain c h.0 h.1).1) (token_at-name _ _ c h.0 ∙ name_lexes c s ts h)
  content-Lexes (integer i) ts h =
      let (c, s, e) = decimal_cons i in
      let digits = subst (All IsDigit) e (decimal-IsDigit i) in
      rw e (
        next_token_plain c (s ++ print ts) (integer i, print ts) ((digit_plain c digits.0).0)
          ((digit_plain c digits.0).1)
          (token_at-number _ _ c digits.0
            ∙ number_lexes c s i ts digits (ap (parse_int 10) (sym e) ∙ parse_int-decimal i h)))
  content-Lexes (float s) ts h = elim h [ ]
  content-Lexes t ts h = print_split (Lexes t) refl (λ c. refl) ts

  -- The lexer reads the first token of a printed text, and leaves the text of the others.
  pub next_token-print :
      (t : Token F) (ts : List (Token F))
      → IsPrintable t
      → next_token (print (t ∷ ts)) ≡ ok (some (t, print ts))
  unfolding print
  next_token-print t ts h = content-Lexes t ts h
