-- ===== src/GenApi/Formula/Parser/Layers.antt =====
-- What the parser functions around the levels of operators read from printed tokens.
use cameleon.Prelude.{ℕ, List, ◌∷◌, ◌≡◌, refl, none, some, false}
use cameleon.Result.{ok}
use cameleon.GenApi.Formula.{Floats, Expr, bin_op, un_op, if_else, BinOpKind, UnOpKind}
use cameleon.GenApi.Formula.Lexer.{
  Token, Utf8, l_paren, r_paren, double_star, tilde, colon, question,
}
use cameleon.GenApi.Formula.Lexer
use cameleon.GenApi.Formula.Lexer.Print.{print, IsPrintable, next_token-print}
use cameleon.GenApi.Formula.Parser.{Parser, Goal, expression, unary, expect, called, next_call}
use cameleon.GenApi.Formula.Parser.{level, closed, atom, primary, call, pow, unop, expr, same}
use cameleon.GenApi.Formula.Parser.Operators.{Begins, starts_with, eat-print}

module _ {F : Type 0} ⦃O : Floats F⦄ ⦃U : Utf8⦄ where
  expect-print :
      (tok : Token F) (ts : List (Token F)) (rest : List ℕ)
      → Begins ts
      → starts_with tok ts ≡ some rest
      → expect tok (print ts) ≡ ok rest
  unfolding expect
  expect-print tok ts rest h e = rw (eat-print tok ts h, e, expect) refl

  pub next_call-print :
      (t : Token F) (ts : List (Token F))
      → IsPrintable t
      → next_call F (print (t ∷ ts)) ≡ ok (called (some (t, print ts)))
  unfolding next_call
  next_call-print t ts h = rw (next_token-print t ts h, next_call) refl

  module _ (self : Goal → Parser F) where
    pub closed_reads :
        (c : List ℕ) (e : Expr F) (ts : List (Token F))
        → self expression c ≡ ok (e, print (r_paren ∷ ts))
        → closed self c ≡ ok (e, print ts)
    unfolding same
    closed_reads c e ts h = rw (h, expect-print r_paren (r_paren ∷ ts) (print ts) tt refl) refl

    -- A pair of parentheses.
    pub paren_reads :
        (more : List (Token F)) (e : Expr F) (ts : List (Token F))
        → self expression (print more) ≡ ok (e, print (r_paren ∷ ts))
        → call self (print (l_paren ∷ more)) ≡ ok (e, print ts)
    unfolding call primary same called
    paren_reads more e ts h =
        rw
          (
            next_call-print l_paren more tt,
            eat-print l_paren (l_paren ∷ more) tt,
            closed_reads (print more) e ts h,
            call,
            primary,
          )
          refl

    -- A function and its argument.
    pub call_reads :
        (s : List ℕ) (op : UnOpKind) (more : List (Token F)) (e : Expr F) (ts : List (Token F))
        → IsPrintable {F = F} (Lexer.ident s)
        → called {F = F} (some (Lexer.ident s, print (l_paren ∷ more)))
          ≡ some (op, print (l_paren ∷ more))
        → self expression (print more) ≡ ok (e, print (r_paren ∷ ts))
        → call self (print (Lexer.ident s ∷ (l_paren ∷ more))) ≡ ok (un_op op e, print ts)
    unfolding call same
    call_reads s op more e ts plain named h =
        rw
          (
            next_call-print (Lexer.ident s) (l_paren ∷ more) plain,
            named,
            expect-print l_paren (l_paren ∷ more) (print more) tt refl,
            closed_reads (print more) e ts h,
            call,
          )
          refl

    -- A token that is an expression.
    pub atom_reads :
        (t : Token F) (e : Expr F) (ts : List (Token F))
        → IsPrintable t
        → called (some (t, print ts)) ≡ none
        → same l_paren t ≡ false
        → atom (some (t, print ts)) ≡ ok (e, print ts)
        → call self (print (t ∷ ts)) ≡ ok (e, print ts)
    unfolding call primary
    atom_reads t e ts plain no_call no_paren h =
        rw
          (
            next_call-print t ts plain,
            no_call,
            eat-print l_paren (t ∷ ts) plain,
            no_paren,
            next_token-print t ts plain,
            h,
            call,
            primary,
          )
          refl

    pub pow_reads :
        (c : List ℕ) (e : Expr F) (ts : List (Token F))
        → Begins ts
        → starts_with double_star ts ≡ none
        → call self c ≡ ok (e, print ts)
        → pow self c ≡ ok (e, print ts)
    unfolding pow
    pow_reads c e ts b no_power h = rw (h, eat-print double_star ts b, no_power, pow) refl

    pub power_reads :
        (c : List ℕ) (a b : Expr F) (more ts : List (Token F))
        → call self c ≡ ok (a, print (double_star ∷ more))
        → self unary (print more) ≡ ok (b, print ts)
        → pow self c ≡ ok (bin_op BinOpKind.pow a b, print ts)
    unfolding pow same
    power_reads c a b more ts h k =
        rw (h, eat-print double_star (double_star ∷ more) tt, k, pow) refl

    -- An expression without a sign.
    pub unsigned_reads :
        (t : Token F) (more : List (Token F)) (e : Expr F) (ts : List (Token F))
        → IsPrintable t
        → same tilde t ≡ false
        → same Token.minus t ≡ false
        → same Token.plus t ≡ false
        → pow self (print (t ∷ more)) ≡ ok (e, print ts)
        → unop self (print (t ∷ more)) ≡ ok (e, print ts)
    unfolding unop
    unsigned_reads t more e ts plain no_tilde no_minus no_plus h =
        rw
          (
            eat-print tilde (t ∷ more) plain,
            no_tilde,
            eat-print Token.minus (t ∷ more) plain,
            no_minus,
            eat-print Token.plus (t ∷ more) plain,
            no_plus,
            h,
            unop,
          )
          refl

    pub not_reads :
        (more : List (Token F)) (e : Expr F) (ts : List (Token F))
        → self unary (print more) ≡ ok (e, print ts)
        → unop self (print (tilde ∷ more)) ≡ ok (un_op UnOpKind.not e, print ts)
    unfolding unop same
    not_reads more e ts h = rw (eat-print tilde (tilde ∷ more) tt, h, unop) refl

    pub neg_reads :
        (more : List (Token F)) (e : Expr F) (ts : List (Token F))
        → self unary (print more) ≡ ok (e, print ts)
        → unop self (print (Token.minus ∷ more)) ≡ ok (un_op UnOpKind.neg e, print ts)
    unfolding unop same
    neg_reads more e ts h =
        rw
          (
            eat-print tilde (Token.minus ∷ more) tt,
            eat-print Token.minus (Token.minus ∷ more) tt,
            h,
            unop,
          )
          refl

    pub plain_reads :
        (c : List ℕ) (e : Expr F) (ts : List (Token F))
        → Begins ts
        → starts_with question ts ≡ none
        → level 10 (self unary) c ≡ ok (e, print ts)
        → expr self c ≡ ok (e, print ts)
    unfolding expr
    plain_reads c e ts b no_if h = rw (h, eat-print question ts b, no_if, expr) refl

    pub if_reads :
        (c : List ℕ) (test t e : Expr F) (then_tokens else_tokens ts : List (Token F))
        → level 10 (self unary) c ≡ ok (test, print (question ∷ then_tokens))
        → self expression (print then_tokens) ≡ ok (t, print (colon ∷ else_tokens))
        → self expression (print else_tokens) ≡ ok (e, print ts)
        → expr self c ≡ ok (if_else test t e, print ts)
    unfolding expr same
    if_reads c test t e then_tokens else_tokens ts h k l =
        rw
          (
            h,
            eat-print question (question ∷ then_tokens) tt,
            k,
            expect-print colon (colon ∷ else_tokens) (print else_tokens) tt refl,
            l,
            expr,
          )
          refl
