-- ===== src/GenApi/Formula/Parser/Ends.antt =====
-- The parser ends on every source, and takes at least one byte for an expression.
use cameleon.Prelude.{ℕ, zero, suc, ◌+◌, ◌*◌, ◌≤◌, ◌<◌, List, [], ◌∷◌, length}
use cameleon.Prelude.{◌≢◌, arith, Option, none, some}
use cameleon.Result.{ok, stuck, Halts, Halts-bind, Halts-if, Halts-mono}
use cameleon.Result.{ends_ok, ends_panic, Halts-ne-stuck}
use cameleon.GenApi.{GenApiError}
use cameleon.GenApi.Formula.{Floats, Expr, bin_op, BinOpKind, UnOpKind}
use cameleon.GenApi.Formula.Lexer.{Token, Utf8, next_token, unwrap}
use cameleon.GenApi.Formula.Lexer
use cameleon.GenApi.Formula.Lexer.Ends.{
  Optional, Optional-if, missing, present, Shorter, Halts-elim,
}
use cameleon.GenApi.Formula.Lexer.Ends.{next_token-Shorter}
use cameleon.GenApi.Formula.Parser.{
  Parser, Goal, expression, unary, same, eat, expect, called, next_call,
}
use cameleon.GenApi.Formula.Parser.{eat_operator, operands, parse_binop, operators, level, closed}
use cameleon.GenApi.Formula.Parser.{atom, primary, call, call_kind, pow, prefixed, unop, expr}
use cameleon.GenApi.Formula.Parser.{parse_goal, parse}

unwrap-Shorter :
    (c : List ℕ) {o : Option (List ℕ)} → Optional (Shorter c) o → Halts (Shorter c) (unwrap o)
unwrap-Shorter c missing = ends_panic
unwrap-Shorter c (present h) = ends_ok h

abbrev Called : List ℕ → Option (UnOpKind × List ℕ) → Type 0
Called c = Optional (λ r. Shorter c (r.1))

operation-Shorter :
    (c rest : List ℕ) (o : Option UnOpKind)
    → Shorter c rest
    → Called c (elim o [ none ↦ none | some op ↦ some (op, rest) ])
operation-Shorter c rest none h = missing
operation-Shorter c rest (some op) h = present h

called-Shorter :
    {F : Type 0} (c : List ℕ) {t : Option (Token F × List ℕ)}
    → Optional (λ r. Shorter c (r.1)) t
    → Called c (called t)
unfolding called
called-Shorter c missing = missing
called-Shorter c (present {a = (Lexer.ident s, rest)} h) = operation-Shorter c rest (call_kind s) h
called-Shorter c (present h) = missing

next_call_shorter :
    (F : Type 0) ⦃O : Floats F⦄ ⦃U : Utf8⦄ (c : List ℕ) → Halts (Called c) (next_call F c)
unfolding next_call
next_call_shorter F c =
    Halts-bind (next_token-Shorter {F = F} c) λ t h. ends_ok (called-Shorter c h)

module _ {F : Type 0} ⦃O : Floats F⦄ ⦃U : Utf8⦄ where
  -- The parser function ends on `c`, and takes at least one byte.
  abbrev Consumes : Parser F → List ℕ → Type 0
  Consumes p c = Halts (λ r. Shorter c (r.1)) (p c)

  -- It does so on every source with fewer than `n` bytes.
  abbrev Below : ℕ → Parser F → Type 0
  Below n p = (c : List ℕ) → length c < n → Consumes p c

  eat-Shorter : (tok : Token F) (c : List ℕ) → Halts (Optional (Shorter c)) (eat tok c)
  unfolding eat
  eat-Shorter tok c = Halts-bind (next_token-Shorter c) λ t h.
      Halts-elim h (ends_ok missing)
        λ r less. ends_ok (Optional-if (same tok (r.0)) (present less) missing)

  expect-Shorter : (tok : Token F) (c : List ℕ) → Halts (Shorter c) (expect tok c)
  unfolding expect
  expect-Shorter tok c = Halts-bind (eat-Shorter tok c) λ r h. unwrap-Shorter c h

  eat_operator-Shorter :
      (ops : List (Token F × BinOpKind)) (c : List ℕ)
      → Halts (Optional (λ r. Shorter c (r.1))) (eat_operator ops c)
  unfolding eat_operator
  eat_operator-Shorter [] c = ends_ok missing
  eat_operator-Shorter ((tok, op) ∷ more) c =
      Halts-bind (eat-Shorter tok c)
        λ r h. Halts-elim h (eat_operator-Shorter more c) λ rest less. ends_ok (present less)

  returned :
      (c : List ℕ) {rest : List ℕ} {e : Expr F}
      → Shorter c rest
      → Halts {E = GenApiError} {A = Expr F × List ℕ} (λ r. Shorter c (r.1)) (ok (e, rest))
  returned c h = ends_ok h

  atom-Shorter :
      (c : List ℕ) {t : Option (Token F × List ℕ)}
      → Optional (λ r. Shorter c (r.1)) t
      → Halts (λ r. Shorter c (r.1)) (atom t)
  unfolding atom
  atom-Shorter c missing = ends_panic
  atom-Shorter c (present {a = (Lexer.ident s, rest)} h) = search (Halts-if, returned)
  atom-Shorter c (present {a = (Lexer.integer i, rest)} h) = ends_ok h
  atom-Shorter c (present {a = (Lexer.float i, rest)} h) = ends_ok h
  atom-Shorter c (present h) = ends_panic

  operands_shorter :
      (rounds : ℕ) (ops : List (Token F × BinOpKind)) (next : Parser F) (lhs : Expr F) (c : List ℕ)
      → Below (length c) next
      → length c < rounds
      → Halts (λ r. length (r.1) ≤ length c) (operands rounds ops next lhs c)
  unfolding operands
  operands_shorter zero ops next lhs c below enough = elim enough [ ]
  operands_shorter (suc rounds) ops next lhs c below enough =
      Halts-bind (eat_operator-Shorter ops c) λ r h. Halts-elim h (ends_ok (omega arith)) λ o less.
        Halts-bind (below (o.1) less) λ e shorter.
          Halts-mono
            (operands_shorter rounds ops next (bin_op (o.0) lhs (e.0)) (e.1)
              (λ c' l. below c' (omega arith)) (omega arith))
            λ r' l. omega arith

  parse_binop-Below :
      (n : ℕ) (ops : List (Token F × BinOpKind)) (next : Parser F)
      → Below n next
      → Below n (parse_binop ops next)
  unfolding parse_binop
  parse_binop-Below n ops next below c l = Halts-bind (below c l) λ e shorter.
      Halts-mono
        (operands_shorter (suc (length (e.1))) ops next (e.0) (e.1)
          (λ c' l'. below c' (omega arith)) (omega arith))
        λ r l'. omega arith

  level-Below : (n k : ℕ) (next : Parser F) → Below n next → Below n (level k next)
  unfolding level
  level-Below n zero next below = below
  level-Below n (suc k) next below =
      parse_binop-Below n (operators k) (level k next) (level-Below n k next below)

  module _ (self : Goal → Parser F) (n : ℕ) (below : Below n (self expression)) where
    closed-Below : Below n (closed self)
    closed-Below c l =
        Halts-bind (below c l)
          λ e shorter. Halts-bind (expect-Shorter _ (e.1)) λ c' less. ends_ok (omega arith)

    primary-Below : Below (suc n) (primary self)
    unfolding primary
    primary-Below c l = Halts-bind (eat-Shorter _ c) λ r h.
        Halts-elim h (Halts-bind (next_token-Shorter c) λ t k. atom-Shorter c k)
          λ rest less. Halts-mono (closed-Below rest (omega arith)) λ r' less'. omega arith

    call-Below : Below (suc n) (call self)
    unfolding call
    call-Below c l = Halts-bind (next_call_shorter F c) λ r h.
        Halts-elim h (primary-Below c l) λ o less.
          Halts-bind (expect-Shorter _ (o.1))
            λ c' less'. Halts-bind (closed-Below c' (omega arith)) λ e less''. ends_ok (omega arith)

    module _ (unary_below : Below n (self unary)) where
      pow-Below : Below (suc n) (pow self)
      unfolding pow
      pow-Below c l = Halts-bind (call-Below c l) λ e less. Halts-bind (eat-Shorter _ (e.1)) λ r h.
          Halts-elim h (ends_ok less) λ rest less'.
            Halts-bind (unary_below rest (omega arith)) λ rhs less''. ends_ok (omega arith)

      prefixed-Shorter :
          (op : UnOpKind) (c rest : List ℕ)
          → length c < suc n
          → Shorter c rest
          → Halts (λ r. Shorter c (r.1)) (prefixed self op rest)
      prefixed-Shorter op c rest l less =
          Halts-bind (unary_below rest (omega arith)) λ e less'. ends_ok (omega arith)

      unop-Below : Below (suc n) (unop self)
      unfolding unop
      unop-Below c l = Halts-bind (eat-Shorter _ c) λ r h.
          Halts-elim h
            (Halts-bind (eat-Shorter _ c) λ r' h'.
              Halts-elim h'
                (Halts-bind (eat-Shorter _ c) λ r'' h''.
                  Halts-elim h'' (pow-Below c l)
                    λ rest less. Halts-mono (pow-Below rest (omega arith)) λ e less'. omega arith)
                (λ rest less. prefixed-Shorter _ c rest l less))
            (λ rest less. prefixed-Shorter _ c rest l less)

    expr-Below : Below (suc n) (self unary) → Below (suc n) (expr self)
    unfolding expr
    expr-Below unary_below c l =
        Halts-bind (level-Below (suc n) 10 (self unary) unary_below c l) λ e less.
          Halts-bind (eat-Shorter _ (e.1)) λ r h. Halts-elim h (ends_ok less) λ rest less'.
            Halts-bind (below rest (omega arith)) λ t l1.
              Halts-bind (expect-Shorter _ (t.1))
                λ c' l2. Halts-bind (below c' (omega arith)) λ f l3. ends_ok (omega arith)

  parse_goal-Below :
      (fuel n : ℕ)
      → (2 * n ≤ fuel → Below n (parse_goal fuel expression))
        × (2 * n ≤ suc fuel → Below n (parse_goal fuel unary))
  unfolding parse_goal
  parse_goal-Below zero n = (λ h c l. absurd (omega arith), λ h c l. absurd (omega arith))
  parse_goal-Below (suc fuel) zero = (λ h c l. elim l [ ], λ h c l. elim l [ ])
  parse_goal-Below (suc fuel) (suc n) = (
    λ h.
        expr-Below (parse_goal fuel) n ((parse_goal-Below fuel n).0 (omega arith))
          ((parse_goal-Below fuel (suc n)).1 (omega arith)),
    λ h.
        unop-Below (parse_goal fuel) n ((parse_goal-Below fuel n).0 (omega arith))
          ((parse_goal-Below fuel n).1 (omega arith)),
  )

  -- The parser ends on every source: its loops and its recursion never run out of fuel.
  pub parse_ends : (s : List ℕ) → parse {F = F} s ≢ stuck
  unfolding parse
  parse_ends s = Halts-ne-stuck {P = λ _. Unit {0}} (
      Halts-bind
        ((parse_goal-Below (2 * length s + 2) (suc (length s))).0 (omega arith) s (omega arith))
        λ e less. ends_ok tt)
