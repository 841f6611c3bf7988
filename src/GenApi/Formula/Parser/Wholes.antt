-- ===== src/GenApi/Formula/Parser/Wholes.antt =====
-- What `expr` reads from the tokens inside a pair of parentheses.
use cameleon.Prelude.{ℕ, suc, List, [], ◌∷◌, ◌≡◌, refl, arith}
use cameleon.Prelude.{none, some, false}
use cameleon.Result.{ok}
use cameleon.GenApi.Formula.{Floats, Expr, bin_op, un_op, if_else, BinOpKind, UnOpKind}
use cameleon.GenApi.Formula.Lexer.{Token, Utf8, r_paren, double_star, tilde, colon, question}
use cameleon.GenApi.Formula.Lexer.{is_alphabetic, is_name_char, is_numeric}
use cameleon.GenApi.Formula.Lexer.Print.{print, IsPrintable}
use cameleon.GenApi.Formula.Parser.{expression, unary, same, operators, level}
use cameleon.GenApi.Formula.Parser.{call, unop, parse_goal}
use cameleon.GenApi.Formula.Parser.Show.{op_token, first, others, show, IsSource, find, Climbs}
use cameleon.GenApi.Formula.Parser.Show.{same_level, next_level, level_of}
use cameleon.GenApi.Formula.Parser.Operators.{Begins, starts_with, level-Climbs, level_operator}
use cameleon.GenApi.Formula.Parser.Layers.{pow_reads, power_reads}
use cameleon.GenApi.Formula.Parser.Layers.{unsigned_reads, plain_reads, if_reads}

module _ {F : Type 0} ⦃O : Floats F⦄ ⦃U : Utf8⦄ where
  -- The token is read as a whole expression or begins one that has no sign.
  abbrev pub Starts : Token F → Type 0
  Starts t =
      IsPrintable t
      × (same tilde t ≡ false)
      × (same Token.minus t ≡ false)
      × (same Token.plus t ≡ false)

  -- `call` reads the expression, whatever follows it.
  abbrev pub Reads : ℕ → Expr F → Type 0
  Reads fuel e =
      (ts : List (Token F))
      → Begins ts
      → call (parse_goal fuel) (print (show e ts)) ≡ ok (e, print ts)

  pub unary-Reads :
      (fuel : ℕ) (e : Expr F) (ts : List (Token F))
      → Starts (first e)
      → Reads fuel e
      → Begins ts
      → starts_with double_star ts ≡ none
      → parse_goal (suc fuel) unary (print (show e ts)) ≡ ok (e, print ts)
  unfolding parse_goal
  unary-Reads fuel e ts (plain, no_tilde, no_minus, no_plus) reads b no_power =
      unsigned_reads (parse_goal fuel) (first e) (others e ts) e ts plain no_tilde no_minus no_plus
        (pow_reads (parse_goal fuel) _ e ts b no_power (reads ts b))

  level-Reads :
      (fuel : ℕ) (e : Expr F) (ts : List (Token F))
      → Starts (first e)
      → Reads fuel e
      → Begins ts
      → starts_with double_star ts ≡ none
      → Climbs ts 0 10
      → level 10 (parse_goal (suc fuel) unary) (print (show e ts)) ≡ ok (e, print ts)
  unfolding level
  level-Reads fuel e ts start reads b no_power climbs =
      level-Climbs (parse_goal (suc fuel) unary) _ e climbs b
        (unary-Reads fuel e ts start reads b no_power)

  -- Before a token that ends an expression.
  pub whole-Reads :
      (fuel : ℕ) (e : Expr F) (ts : List (Token F))
      → Starts (first e)
      → Reads fuel e
      → Begins ts
      → starts_with double_star ts ≡ none
      → starts_with question ts ≡ none
      → Climbs ts 0 10
      → parse_goal (suc (suc fuel)) expression (print (show e ts)) ≡ ok (e, print ts)
  unfolding parse_goal
  whole-Reads fuel e ts start reads b no_power no_if climbs =
      plain_reads (parse_goal (suc fuel)) _ e ts b no_if
        (level-Reads fuel e ts start reads b no_power climbs)

  pub Climbs-paren : (ts : List (Token F)) → Climbs (r_paren ∷ ts) 0 10
  unfolding operators same
  Climbs-paren ts = search (same_level, next_level) depth 30

  pub Climbs-nil : Climbs {F = F} [] 0 10
  unfolding operators
  Climbs-nil = search (same_level, next_level) depth 30

  Climbs-question : (ts : List (Token F)) → Climbs (question ∷ ts) 0 10
  unfolding operators same
  Climbs-question ts = search (same_level, next_level) depth 30

  Climbs-colon : (ts : List (Token F)) → Climbs (colon ∷ ts) 0 10
  unfolding operators same
  Climbs-colon ts = search (same_level, next_level) depth 30

  pub first-Starts : (e : Expr F) → IsSource e → Starts (first e)
  unfolding same is_alphabetic is_name_char is_numeric
  first-Starts (bin_op _ _ _) h = (tt, refl, refl, refl)
  first-Starts (if_else _ _ _) h = (tt, refl, refl, refl)
  first-Starts (un_op UnOpKind.not _) h = (tt, refl, refl, refl)
  first-Starts (un_op UnOpKind.neg _) h = (tt, refl, refl, refl)
  first-Starts (un_op UnOpKind.sgn _) h = elim h [ ]
  first-Starts (un_op op _) h = (ground arith, refl, refl, refl)
  first-Starts (Expr.integer _) h = (h, refl, refl, refl)
  first-Starts (Expr.float _) h = elim h [ ]
  first-Starts (Expr.ident _) h = (h.0, refl, refl, refl)

  -- What stands between the parentheses of an operation, by kind.
  pub binary-Reads :
      (fuel : ℕ) (op : BinOpKind) (a b : Expr F) (ts : List (Token F))
      → find (operators (level_of op)) (op_token op ∷ show b (r_paren ∷ ts)) ≡ some op
      → IsPrintable (op_token {F = F} op)
      → same {F = F} double_star (op_token op) ≡ false
      → Starts (first a)
      → Starts (first b)
      → Reads fuel a
      → Reads fuel b
      → parse_goal
          (suc (suc fuel))
          expression
          (print (show a (op_token op ∷ show b (r_paren ∷ ts))))
        ≡ ok (bin_op op a b, print (r_paren ∷ ts))
  unfolding parse_goal same
  binary-Reads fuel op a b ts found plain no_power start_a start_b reads_a reads_b =
      plain_reads (parse_goal (suc fuel)) _ (bin_op op a b) (r_paren ∷ ts) tt refl (
        level_operator (parse_goal (suc fuel) unary) _ op a b ts found plain
          (unary-Reads fuel a (op_token op ∷ show b (r_paren ∷ ts)) start_a reads_a plain
            (rw no_power refl))
          (unary-Reads fuel b (r_paren ∷ ts) start_b reads_b tt refl))

  pub power_whole :
      (fuel : ℕ) (a b : Expr F) (ts : List (Token F))
      → Starts (first a)
      → Starts (first b)
      → Reads (suc fuel) a
      → Reads fuel b
      → parse_goal
          (suc (suc (suc fuel)))
          expression
          (print (show a (double_star ∷ show b (r_paren ∷ ts))))
        ≡ ok (bin_op BinOpKind.pow a b, print (r_paren ∷ ts))
  unfolding parse_goal same level
  power_whole fuel a b ts (plain, no_tilde, no_minus, no_plus) start_b reads_a reads_b =
      let e = bin_op BinOpKind.pow a b in
      plain_reads (parse_goal (suc (suc fuel))) _ e (r_paren ∷ ts) tt refl (
        level-Climbs (parse_goal (suc (suc fuel)) unary) _ e (Climbs-paren ts) tt (
          unsigned_reads (parse_goal (suc fuel)) (first a) (others a _) e _ plain no_tilde no_minus
            no_plus
            (power_reads (parse_goal (suc fuel)) _ a b _ _ (reads_a (double_star ∷ _) tt)
              (unary-Reads fuel b (r_paren ∷ ts) start_b reads_b tt refl))))

  -- An operation with a sign, of which `reads` says what `unop` returns.
  pub sign_whole :
      (fuel : ℕ) (more : List (Token F)) (e : Expr F) (ts : List (Token F))
      → unop (parse_goal (suc fuel)) (print more) ≡ ok (e, print (r_paren ∷ ts))
      → parse_goal (suc (suc (suc fuel))) expression (print more) ≡ ok (e, print (r_paren ∷ ts))
  unfolding parse_goal same level
  sign_whole fuel more e ts reads =
      plain_reads (parse_goal (suc (suc fuel))) _ e (r_paren ∷ ts) tt refl
        (level-Climbs (parse_goal (suc (suc fuel)) unary) _ e (Climbs-paren ts) tt reads)

  pub if_whole :
      (fuel : ℕ) (c t e : Expr F) (ts : List (Token F))
      → Starts (first c)
      → Starts (first t)
      → Starts (first e)
      → Reads (suc fuel) c
      → Reads fuel t
      → Reads fuel e
      → parse_goal
          (suc (suc (suc fuel)))
          expression
          (print (show c (question ∷ show t (colon ∷ show e (r_paren ∷ ts)))))
        ≡ ok (if_else c t e, print (r_paren ∷ ts))
  unfolding parse_goal same
  if_whole fuel c t e ts start_c start_t start_e reads_c reads_t reads_e =
      if_reads (parse_goal (suc (suc fuel))) _ c t e _ _ (r_paren ∷ ts)
        (level-Reads (suc fuel) c (question ∷ _) start_c reads_c tt refl (Climbs-question _))
        (whole-Reads fuel t (colon ∷ _) start_t reads_t tt refl refl (Climbs-colon _))
        (whole-Reads fuel e (r_paren ∷ ts) start_e reads_e tt refl refl (Climbs-paren ts))
