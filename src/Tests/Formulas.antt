-- ===== src/Tests/Formulas.antt =====
-- Formulas: the floating-point numbers are those of a type with one element.
use cameleon.Prelude.{ℕ, true, [], ◌≡◌, ◌≢◌, ◌↔◌, refl, arith}
use cameleon.Prelude.{Option, some, none, false, Bool, ◌<◌, ◌≤◌}
use mathlib.Core.Path.{subst}
use cameleon.Result.{ok, panic, stuck}
use cameleon.GenApi.Formula.{Floats, Expr, bin_op, un_op, if_else, integer, ident, BinOpKind}
use cameleon.GenApi.Formula.{UnOpKind, EvaluationResult, Name}
use cameleon.GenApi.Formula.Eval.{eval}
use cameleon.GenApi.Formula.Eval.BigStep.{Evaluates, eval-Evaluates_iff}
use cameleon.GenApi.Formula.Eval.Ranked.{IsRanked, Names, depth, eval_ends}
use cameleon.GenApi.Formula.Lexer.{Utf8, is_alphabetic, is_name_char, is_numeric, is_blank}
use cameleon.GenApi.Formula.Lexer.{next_token, token_at, name, number, decimal_or_float, contains}
use cameleon.GenApi.Formula.Lexer.{parse_int, digits_from, peek_char, starts, eat_char, eat_while}
use cameleon.GenApi.Formula.Lexer.Print.{print}
use cameleon.GenApi.Formula.Parser.{parse, bytes_of, name_eq, call_kind, parse_goal, expr, level}
use cameleon.GenApi.Formula.Parser.{parse_binop, operands, eat_operator, operators, unop, pow, call}
use cameleon.GenApi.Formula.Parser.{primary, atom, same, eat, expect, called, next_call}
use cameleon.GenApi.Formula.Parser.Ends.{parse_ends}
use cameleon.GenApi.Formula.Parser.RoundTrip.{parse-print}
use cameleon.GenApi.Formula.Parser.Show.{show}

instance abbrev unit_floats : Floats Unit
unit_floats = record {
  add = λ x y. x;
  sub = λ x y. x;
  mul = λ x y. x;
  div = λ x y. x;
  rem = λ x y. x;
  powf = λ x y. x;
  eq = λ x y. true;
  lt = λ x y. false;
  le = λ x y. true;
  abs = λ x. x;
  signum = λ x. x;
  neg = λ x. x;
  sin = λ x. x;
  cos = λ x. x;
  tan = λ x. x;
  asin = λ x. x;
  acos = λ x. x;
  atan = λ x. x;
  exp = λ x. x;
  ln = λ x. x;
  log10 = λ x. x;
  sqrt = λ x. x;
  trunc = λ x. x;
  floor = λ x. x;
  ceil = λ x. x;
  round = λ x. x;
  of_i64 = λ i. tt;
  to_i64 = λ f. 0;
  zero = tt;
  pi = tt;
  e = tt;
  from_str = λ s. some tt;
  to_i64-IsI64 = λ f. omega arith;
}

instance abbrev bytes_utf8 : Utf8
bytes_utf8 = record { is_utf8 = λ bs. true; is_utf8_ascii = λ bs p. refl }

none-ne-some : {A : Type 0} {a : A} → none ≢ some a
none-ne-some h = cc

some_inj : {A : Type 0} {a b : A} → some a ≡ some b → a ≡ b
some_inj h = cc

abbrev no_variables : Name → Option (Expr Unit)
no_variables s = none

-- Precedence, entities and blanks.
product_first :
    parse {F = Unit} (bytes_of "1 + A.B*(2 &lt;&lt; 3)")
    ≡ ok (
        bin_op BinOpKind.add (integer 1) (
          bin_op BinOpKind.mul
            (ident (bytes_of "A.B"))
            (bin_op BinOpKind.shl (integer 2) (integer 3))))
unfolding parse parse_goal expr level parse_binop operands eat_operator operators unop pow call
    primary atom same eat expect called next_call call_kind name_eq next_token token_at name number
    decimal_or_float parse_int digits_from contains peek_char starts eat_char eat_while is_blank
    is_alphabetic is_numeric is_name_char
product_first = refl

-- A unary minus binds weaker than the power.
power_first :
    parse {F = Unit} (bytes_of "-2 ** 4")
    ≡ ok (un_op UnOpKind.neg (bin_op BinOpKind.pow (integer 2) (integer 4)))
unfolding parse parse_goal expr level parse_binop operands eat_operator operators unop pow call
    primary atom same eat expect called next_call call_kind name_eq next_token token_at name number
    decimal_or_float parse_int digits_from contains peek_char starts eat_char eat_while is_blank
    is_alphabetic is_numeric is_name_char
power_first = refl

-- What follows an expression is dropped.
rest_dropped : parse {F = Unit} (bytes_of "1 2)") ≡ ok (integer 1)
unfolding parse parse_goal expr level parse_binop operands eat_operator operators unop pow call
    primary atom same eat expect called next_call call_kind name_eq next_token token_at name number
    decimal_or_float parse_int digits_from contains peek_char starts eat_char eat_while is_blank
    is_alphabetic is_numeric is_name_char
rest_dropped = refl

-- `SGN` is read as a name.
sgn_is_no_function : parse {F = Unit} (bytes_of "SGN(1)") ≡ ok (ident (bytes_of "SGN"))
unfolding parse parse_goal expr level parse_binop operands eat_operator operators unop pow call
    primary atom same eat expect called next_call call_kind name_eq next_token token_at name number
    decimal_or_float parse_int digits_from contains peek_char starts eat_char eat_while is_blank
    is_alphabetic is_numeric is_name_char
sgn_is_no_function = refl

unclosed : parse {F = Unit} (bytes_of "(1") ≡ panic
unfolding parse parse_goal expr level parse_binop operands eat_operator operators unop pow call
    primary atom same eat expect called next_call call_kind name_eq next_token token_at name number
    decimal_or_float parse_int digits_from contains peek_char starts eat_char eat_while is_blank
    is_alphabetic is_numeric is_name_char
unclosed = refl

abbrev conditional : Expr Unit
conditional =
    if_else (bin_op BinOpKind.lt (ident (bytes_of "A")) (integer 30))
      (un_op UnOpKind.sin (un_op UnOpKind.neg (ident (bytes_of "B.Max"))))
      (bin_op BinOpKind.pow (integer 2) (un_op UnOpKind.not (integer 7)))

parse-print_example : parse (print (show conditional [])) ≡ ok conditional
unfolding is_alphabetic is_name_char is_numeric call_kind name_eq
parse-print_example = parse-print conditional (ground arith)

parse_ends_example : parse {F = Unit} (bytes_of "(1 +") ≢ stuck
parse_ends_example = parse_ends (bytes_of "(1 +")

-- The right operand of `||` has no value here, and the expression has one.
abbrev decided : Expr Unit
decided = bin_op BinOpKind.or (integer 1) (ident (bytes_of "X"))

eval-Evaluates_iff_example :
    ((fuel : ℕ) × (eval fuel no_variables decided ≡ ok (EvaluationResult.integer 1)))
    ↔ Evaluates no_variables decided (EvaluationResult.integer 1)
eval-Evaluates_iff_example = eval-Evaluates_iff no_variables decided (EvaluationResult.integer 1)

-- `A` stands for B + 1, and `B` for 5.
abbrev definition : Bool → Bool → Option (Expr Unit)
definition true _ = some (bin_op BinOpKind.add (ident (bytes_of "B")) (integer 1))
definition false true = some (integer 5)
definition false false = none

abbrev rank_of : Bool → ℕ
rank_of true = 1
rank_of false = 0

abbrev rank : Name → ℕ
rank s = rank_of (name_eq s (bytes_of "A"))

abbrev a_and_b : Name → Option (Expr Unit)
a_and_b s = definition (name_eq s (bytes_of "A")) (name_eq s (bytes_of "B"))

definition-Names :
    (a b : Bool) (e : Expr Unit) → definition a b ≡ some e → Names (λ x. rank x < rank_of a) e
unfolding name_eq
definition-Names true b e h = subst (Names (λ x. rank x < 1)) (some_inj h) (omega arith, tt)
definition-Names false true e h = subst (Names (λ x. rank x < 0)) (some_inj h) tt
definition-Names false false e h = absurd (none-ne-some h)

definition_shallow : (a b : Bool) (e : Expr Unit) → definition a b ≡ some e → depth e ≤ 2
definition_shallow true b e h = subst (λ e. depth e ≤ 2) (some_inj h) (omega arith)
definition_shallow false true e h = subst (λ e. depth e ≤ 2) (some_inj h) (omega arith)
definition_shallow false false e h = absurd (none-ne-some h)

a_and_b-IsRanked : IsRanked a_and_b rank 2
a_and_b-IsRanked = record {
  names = λ s e h. definition-Names (name_eq s (bytes_of "A")) (name_eq s (bytes_of "B")) e h;
  depths = λ s e h. definition_shallow (name_eq s (bytes_of "A")) (name_eq s (bytes_of "B")) e h;
}

eval_ends_example : eval 5 a_and_b (ident (bytes_of "A")) ≢ stuck
unfolding name_eq
eval_ends_example =
    eval_ends a_and_b rank 2 a_and_b-IsRanked (ident (bytes_of "A")) 2 5 (omega arith) (omega arith)
