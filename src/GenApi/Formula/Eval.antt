-- ===== src/GenApi/Formula/Eval.antt =====
-- genapi/src/formula.rs: the evaluation of expressions. The variables are a function from names. An
-- expression that a variable stands for may name variables in turn, so the recursion is on fuel.
pub mod BigStep
pub mod Ranked
pub mod Words
use cameleon.Prelude.{ℕ, zero, suc, Bool, true, false, not, ◌&&◌, ◌||◌, ◌==◌, leb, if◌then◌else◌}
use cameleon.Prelude.{Option, none, some}
use cameleon.Prelude
use cameleon.Result.{Result, ok, err, panic, stuck, ◌>>=◌}
use cameleon.GenApi.{GenApiError, invalid_node}
use cameleon.GenApi.I64
use cameleon.GenApi.I64.{wrapping_add, wrapping_sub, wrapping_mul, wrapping_rem, wrapping_pow}
use cameleon.GenApi.I64.{wrapping_shl, wrapping_shr, complement, is_negative}
use cameleon.GenApi.Formula.{Expr, bin_op, un_op, if_else, integer, float, ident, Name}
use cameleon.GenApi.Formula.{BinOpKind, UnOpKind, EvaluationResult, Floats}
use cameleon.GenApi.Formula.{from_bool, as_integer, as_float, as_bool}

-- `var_env.get`
abbrev pub Env : Type 0 → Type 0
Env F = Name → Option (Expr F)

module _ {F : Type 0} ⦃O : Floats F⦄ where
  -- `apply_arithmetic_op!`
  abbrev pub arithmetic :
      (ℕ → ℕ → Result GenApiError ℕ)
      → (F → F → F)
      → EvaluationResult F
      → EvaluationResult F
      → Result GenApiError (EvaluationResult F)
  arithmetic int_op float_op (integer a) (integer b) = do r ← int_op a b; ok (integer r)
  arithmetic int_op float_op lhs rhs = ok (float (float_op (as_float lhs) (as_float rhs)))

  -- `apply_cmp_op!`
  abbrev pub comparison :
      (ℕ → ℕ → Bool)
      → (F → F → Bool)
      → EvaluationResult F
      → EvaluationResult F
      → Result GenApiError (EvaluationResult F)
  comparison int_op float_op (integer a) (integer b) = ok (from_bool (int_op a b))
  comparison int_op float_op lhs rhs = ok (from_bool (float_op (as_float lhs) (as_float rhs)))

  -- The operators that take integers only.
  abbrev pub integral :
      (ℕ → ℕ → ℕ)
      → EvaluationResult F
      → EvaluationResult F
      → Result GenApiError (EvaluationResult F)
  integral int_op lhs rhs = ok (integer (int_op (as_integer lhs) (as_integer rhs)))

  abbrev pub power :
      EvaluationResult F → EvaluationResult F → Result GenApiError (EvaluationResult F)
  power (integer a) (integer b) =
      if is_negative b
      then ok (float (O.powf (O.of_i64 a) (O.of_i64 b)))
      else ok (integer (wrapping_pow a b))
  power lhs rhs = ok (float (O.powf (as_float lhs) (as_float rhs)))

  -- The inner `match` of `eval_binop`: `&&` and `||` do not come here.
  unfoldable pub apply_binop :
      BinOpKind → EvaluationResult F → EvaluationResult F → Result GenApiError (EvaluationResult F)
  apply_binop BinOpKind.add = arithmetic (λ a b. ok (wrapping_add a b)) O.add
  apply_binop BinOpKind.sub = arithmetic (λ a b. ok (wrapping_sub a b)) O.sub
  apply_binop BinOpKind.mul = arithmetic (λ a b. ok (wrapping_mul a b)) O.mul
  apply_binop BinOpKind.div = λ lhs rhs. ok (float (O.div (as_float lhs) (as_float rhs)))
  apply_binop BinOpKind.rem = arithmetic wrapping_rem O.rem
  apply_binop BinOpKind.pow = power
  apply_binop BinOpKind.eq = comparison (λ a b. a == b) O.eq
  apply_binop BinOpKind.ne = comparison (λ a b. not (a == b)) (λ a b. not (O.eq a b))
  apply_binop BinOpKind.lt = comparison I64.lt O.lt
  apply_binop BinOpKind.le = comparison I64.le O.le
  apply_binop BinOpKind.gt = comparison (λ a b. I64.lt b a) (λ a b. O.lt b a)
  apply_binop BinOpKind.ge = comparison (λ a b. I64.le b a) (λ a b. O.le b a)
  apply_binop BinOpKind.shl = integral wrapping_shl
  apply_binop BinOpKind.shr = integral wrapping_shr
  apply_binop BinOpKind.bit_and = integral Prelude.bit_and
  apply_binop BinOpKind.bit_or = integral Prelude.bit_or
  apply_binop BinOpKind.xor = integral Prelude.bit_xor
  apply_binop BinOpKind.and = λ _ _. panic
  apply_binop BinOpKind.or = λ _ _. panic

  -- `apply_op!` of `eval_unop`
  abbrev pub either :
      (ℕ → Result GenApiError ℕ)
      → (F → F)
      → EvaluationResult F
      → Result GenApiError (EvaluationResult F)
  either int_op float_op (integer i) = do r ← int_op i; ok (integer r)
  either int_op float_op (float f) = ok (float (float_op f))

  abbrev pub floating : (F → F) → EvaluationResult F → Result GenApiError (EvaluationResult F)
  floating op res = ok (float (op (as_float res)))

  unfoldable pub apply_unop :
      UnOpKind → EvaluationResult F → Result GenApiError (EvaluationResult F)
  apply_unop UnOpKind.not = λ res. ok (integer (complement (as_integer res)))
  apply_unop UnOpKind.abs = either I64.abs O.abs
  apply_unop UnOpKind.sgn = either (λ i. ok (I64.signum i)) O.signum
  apply_unop UnOpKind.neg = either I64.neg O.neg
  apply_unop UnOpKind.sin = floating O.sin
  apply_unop UnOpKind.cos = floating O.cos
  apply_unop UnOpKind.tan = floating O.tan
  apply_unop UnOpKind.asin = floating O.asin
  apply_unop UnOpKind.acos = floating O.acos
  apply_unop UnOpKind.atan = floating O.atan
  apply_unop UnOpKind.exp = floating O.exp
  apply_unop UnOpKind.ln = floating O.ln
  apply_unop UnOpKind.lg = floating O.log10
  apply_unop UnOpKind.sqrt = floating O.sqrt
  apply_unop UnOpKind.trunc = floating O.trunc
  apply_unop UnOpKind.floor = floating O.floor
  apply_unop UnOpKind.ceil = floating O.ceil
  apply_unop UnOpKind.round = floating O.round

  -- `eval_binop`, with the evaluation of an operand for `eval`.
  unfoldable pub eval_binop :
      (Expr F → Result GenApiError (EvaluationResult F))
      → BinOpKind
      → Expr F
      → Expr F
      → Result GenApiError (EvaluationResult F)
  eval_binop eval BinOpKind.and lhs rhs = do
    l ← eval lhs
    if as_bool l then (do r ← eval rhs; ok (from_bool (as_bool r))) else ok (from_bool false)
  eval_binop eval BinOpKind.or lhs rhs = do
    l ← eval lhs
    if as_bool l then ok (from_bool true) else (do r ← eval rhs; ok (from_bool (as_bool r)))
  eval_binop eval op lhs rhs = do l ← eval lhs; r ← eval rhs; apply_binop op l r

  -- `Expr::eval`
  unfoldable pub eval : ℕ → Env F → Expr F → Result GenApiError (EvaluationResult F)
  eval zero env e = stuck
  eval (suc fuel) env (bin_op op lhs rhs) = eval_binop (eval fuel env) op lhs rhs
  eval (suc fuel) env (un_op op e) = do res ← eval fuel env e; apply_unop op res
  eval (suc fuel) env (if_else c t e) =
      let then_value = eval fuel env t in
      let else_value = eval fuel env e in
      do test ← eval fuel env c; if as_bool test then then_value else else_value
  eval (suc fuel) env (integer i) = ok (integer i)
  eval (suc fuel) env (float f) = ok (float f)
  eval (suc fuel) env (ident s) = elim (env s) [
    | none ↦ err invalid_node
    | some e ↦ eval fuel env e
  ]
