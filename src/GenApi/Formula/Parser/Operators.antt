-- ===== src/GenApi/Formula/Parser/Operators.antt =====
-- What the levels of operators read from printed tokens.
use cameleon.Prelude.{ℕ, suc, List, [], ◌∷◌, ◌≡◌, refl}
use cameleon.Prelude.{
  Option, none, some, if◌then◌else◌, Bool-cases, inl, inr, ◌≢◌, if-true_eq, if-false_eq, ◌∙◌, ap,
}
use cameleon.Result.{ok}
use cameleon.GenApi.Formula.{Floats, Expr, bin_op, BinOpKind}
use cameleon.GenApi.Formula.Lexer
use cameleon.GenApi.Formula.Lexer.{
  Token, Utf8, next_token, l_paren, r_paren, double_star, tilde, colon, question,
}
use cameleon.GenApi.Formula.Lexer.Print.{print, IsPrintable, next_token-print, length-print}
use cameleon.GenApi.Formula.Parser.{Parser, same, eat}
use cameleon.GenApi.Formula.Parser.{eat_operator, operands, parse_binop, operators, level}
use cameleon.GenApi.Formula.Parser.Show.{op_token, show, find, Climbs}
use cameleon.GenApi.Formula.Parser.Show.{
  same_level, next_level, level_of, Climbs-to_op, Climbs-from_op,
}
use cameleon.GenApi.Formula.Parser.Show.{Climbs-to_end, find-r_paren}

some-ne-none : {A : Type 0} {a : A} → some a ≢ none
some-ne-none e = cc

some-inj : {A : Type 0} {a b : A} → some a ≡ some b → a ≡ b
some-inj e = cc

module _ {F : Type 0} ⦃O : Floats F⦄ ⦃U : Utf8⦄ where
  -- The first token, if there is one, can be printed.
  abbrev pub Begins : List (Token F) → Type 0
  Begins [] = Unit
  Begins (t ∷ ts) = IsPrintable t

  abbrev pub starts_with : Token F → List (Token F) → Option (List ℕ)
  starts_with tok [] = none
  starts_with tok (t ∷ ts) = if same tok t then some (print ts) else none

  pub eat-print :
      (tok : Token F) (ts : List (Token F))
      → Begins ts
      → eat tok (print ts) ≡ ok (starts_with tok ts)
  unfolding eat print next_token Lexer.eat_while Lexer.peek_char
  eat-print tok [] h = refl
  eat-print tok (t ∷ ts) h = rw (next_token-print t ts h, eat) refl

  find_nil : (ops : List (Token F × BinOpKind)) → find ops [] ≡ none
  find_nil [] = refl
  find_nil ((tok, op) ∷ more) = refl

  eat_operator_none :
      (ops : List (Token F × BinOpKind)) (ts : List (Token F))
      → Begins ts
      → find ops ts ≡ none
      → eat_operator ops (print ts) ≡ ok none
  unfolding eat_operator
  eat_operator_none [] ts h e = refl
  eat_operator_none ((tok, op) ∷ more) [] h e =
      rw (eat-print tok [] h, eat_operator) (eat_operator_none more [] h (find_nil more))
  eat_operator_none ((tok, op) ∷ more) (t ∷ ts) h e = elim (Bool-cases (same tok t)) [
    | inl yes_same ↦ absurd (some-ne-none (if-true_eq _ yes_same e))
    | inr no_same ↦
        rw (eat-print tok (t ∷ ts) h, no_same, eat_operator)
          (eat_operator_none more (t ∷ ts) h (if-false_eq _ no_same e))
  ]

  eat_operator-some :
      (ops : List (Token F × BinOpKind)) (t : Token F) (ts : List (Token F)) (op : BinOpKind)
      → IsPrintable t
      → find ops (t ∷ ts) ≡ some op
      → eat_operator ops (print (t ∷ ts)) ≡ ok (some (op, print ts))
  unfolding eat_operator
  eat_operator-some [] t ts op h e = cc
  eat_operator-some ((tok, op') ∷ more) t ts op h e = elim (Bool-cases (same tok t)) [
    | inl yes_same ↦
        rw (eat-print tok (t ∷ ts) h, yes_same, eat_operator)
          (ap (λ o. ok (some (o, print ts))) (some-inj (if-true_eq _ yes_same e)))
    | inr no_same ↦
        rw (eat-print tok (t ∷ ts) h, no_same, eat_operator)
          (eat_operator-some more t ts op h (if-false_eq _ no_same e))
  ]

  pub level-Climbs :
      {ts : List (Token F)} {low high : ℕ} (next : Parser F) (c : List ℕ) (e : Expr F)
      → Climbs ts low high
      → Begins ts
      → level low next c ≡ ok (e, print ts)
      → level high next c ≡ ok (e, print ts)
  unfolding level parse_binop operands
  level-Climbs next c e same_level b h = h
  level-Climbs {ts} next c e (next_level {high} absent k) b h =
      rw
        (
          level-Climbs next c e k b h,
          eat_operator_none (operators high) ts b absent,
          level,
          parse_binop,
          operands,
        )
        refl

  operands_one :
      (n : ℕ) (ops : List (Token F × BinOpKind)) (next : Parser F) (op : BinOpKind) (a b : Expr F)
      (t : Token F) (more ts : List (Token F))
      → IsPrintable t
      → find ops (t ∷ more) ≡ some op
      → next (print more) ≡ ok (b, print ts)
      → Begins ts
      → find ops ts ≡ none
      → operands (suc (suc n)) ops next a (print (t ∷ more)) ≡ ok (bin_op op a b, print ts)
  unfolding operands
  operands_one n ops next op a b t more ts h found right h' absent =
      rw
        (
          eat_operator-some ops t more op h found,
          right,
          eat_operator_none ops ts h' absent,
          operands,
        )
        refl

  parse_binop_one :
      (ops : List (Token F × BinOpKind)) (next : Parser F) (op : BinOpKind) (a b : Expr F)
      (c : List ℕ) (t : Token F) (more ts : List (Token F))
      → IsPrintable t
      → find ops (t ∷ more) ≡ some op
      → next c ≡ ok (a, print (t ∷ more))
      → next (print more) ≡ ok (b, print ts)
      → Begins ts
      → find ops ts ≡ none
      → parse_binop ops next c ≡ ok (bin_op op a b, print ts)
  unfolding parse_binop
  parse_binop_one ops next op a b c t more ts h found left right h' absent =
      rw (left, parse_binop)
        (ap (λ n. operands (suc n) ops next a (print (t ∷ more))) (length-print t more)
          ∙ operands_one _ ops next op a b t more ts h found right h' absent)

  -- An operator between two expressions that its level reads.
  pub level_operator :
      (next : Parser F) (c : List ℕ) (op : BinOpKind) (a b : Expr F) (ts : List (Token F))
      → find (operators (level_of op)) (op_token op ∷ show b (r_paren ∷ ts)) ≡ some op
      → IsPrintable (op_token {F = F} op)
      → next c ≡ ok (a, print (op_token op ∷ show b (r_paren ∷ ts)))
      → next (print (show b (r_paren ∷ ts))) ≡ ok (b, print (r_paren ∷ ts))
      → level 10 next c ≡ ok (bin_op op a b, print (r_paren ∷ ts))
  unfolding level
  level_operator next c op a b ts found plain ha hb =
      let k = level_of op in
      let left = level-Climbs next c a (Climbs-to_op op (show b (r_paren ∷ ts))) plain ha in
      let right = level-Climbs next _ b (Climbs-to_end op ts) tt hb in
      level-Climbs next c (bin_op op a b) (Climbs-from_op op ts) tt (
        parse_binop_one (operators k) (level k next) op a b c (op_token op) _ _ plain found left
          right tt (find-r_paren op ts))
