-- ===== src/GenApi/Formula/Eval/Words.antt =====
-- The integers of an evaluation stay within 64 bits.
use cameleon.Prelude.{
  ℕ, zero, suc, ◌+◌, ◌-◌, ◌*◌, ◌%◌, ◌<◌, ◌^◌, Bool, true, false, ◌≡◌, refl, arith, some, Bool-cases,
  inl, inr,
}
use cameleon.Prelude
use cameleon.Prelude.Bits.Digits.{bit_and-lt, bit_or-lt, bit_xor-lt}
use native.Mathlib.Nat.{div-le_self, mod-le}
use cameleon.Result.{Result, ok, err, panic, stuck, ◌>>=◌}
use cameleon.GenApi.{GenApiError}
use cameleon.GenApi.I64
use cameleon.GenApi.I64.{
  IsI64, magnitude, is_negative, of_bool, wrapping_add, wrapping_sub, wrapping_mul, wrapping_rem,
}
use cameleon.GenApi.I64.{wrapping_pow, wrapping_shl, wrapping_shr, complement, signum}
use cameleon.GenApi.Formula.{Expr, bin_op, un_op, if_else, Name, BinOpKind, UnOpKind}
use cameleon.GenApi.Formula.{EvaluationResult, Floats, from_bool, as_bool, as_integer}
use cameleon.GenApi.Formula.Eval.{Env, apply_binop, apply_unop, eval, arithmetic, comparison}
use cameleon.GenApi.Formula.Eval.{power, either}
use cameleon.GenApi.Formula.Eval.BigStep.{Evaluates, eval-Evaluates_iff}
use cameleon.GenApi.Formula.Eval.BigStep

of_bool-IsI64 : (b : Bool) → IsI64 (of_bool b)
of_bool-IsI64 true = omega arith
of_bool-IsI64 false = omega arith

wrapping_shr-IsI64 : (a n : ℕ) → IsI64 a → IsI64 (wrapping_shr a n)
unfolding wrapping_shr
wrapping_shr-IsI64 a n h =
    ground (arith, div-le_self (2 ^ 64 - 1 - a) (2 ^ (n % 64)), div-le_self a (2 ^ (n % 64)))

rem-IsI64 : (a b i : ℕ) → ◌≡◌ {A = Result GenApiError ℕ} (wrapping_rem a b) (ok i) → IsI64 i
unfolding wrapping_rem
rem-IsI64 a b i e = ground (arith, mod-le (magnitude a) (magnitude b))

modular-IsI64 : (n i : ℕ) → ◌≡◌ {A = Result GenApiError ℕ} (ok (n % 2 ^ 64)) (ok i) → IsI64 i
modular-IsI64 n i e = ground arith

signum-IsI64 : (a : ℕ) → IsI64 (signum a)
unfolding signum
signum-IsI64 a = ground arith

module _ {F : Type 0} where
  abbrev pub IsValue : EvaluationResult F → Type 0
  IsValue (EvaluationResult.integer i) = IsI64 i
  IsValue (EvaluationResult.float _) = Unit

  -- Every integer in the expression is an `i64`.
  abbrev pub HasI64 : Expr F → Type 0
  HasI64 (bin_op _ a b) = HasI64 a × HasI64 b
  HasI64 (un_op _ e) = HasI64 e
  HasI64 (if_else c t e) = HasI64 c × (HasI64 t × HasI64 e)
  HasI64 (Expr.integer i) = IsI64 i
  HasI64 (Expr.float _) = Unit
  HasI64 (Expr.ident _) = Unit

module _ {F : Type 0} ⦃O : Floats F⦄ where
  as_integer-IsI64 : (v : EvaluationResult F) → IsValue v → IsI64 (as_integer v)
  as_integer-IsI64 (EvaluationResult.integer i) h = h
  as_integer-IsI64 (EvaluationResult.float f) h = O.to_i64-IsI64 f

  -- A returned result is a value.
  abbrev Keeps : Result GenApiError (EvaluationResult F) → Type 0
  Keeps run = (r : EvaluationResult F) → run ≡ ok r → IsValue r

  integer-Keeps : (i : ℕ) → IsI64 i → Keeps (ok (EvaluationResult.integer i))
  integer-Keeps i h (EvaluationResult.integer j) e = ground arith
  integer-Keeps i h (EvaluationResult.float f) e = tt

  float-Keeps : (f : F) → Keeps (ok (EvaluationResult.float f))
  float-Keeps f (EvaluationResult.integer j) e = cc
  float-Keeps f (EvaluationResult.float g) e = tt

  bool-Keeps : (b : Bool) → Keeps (ok (from_bool b))
  bool-Keeps b = integer-Keeps (of_bool b) (of_bool-IsI64 b)

  bind-Keeps :
      (run : Result GenApiError ℕ)
      → ((i : ℕ) → run ≡ ok i → IsI64 i)
      → Keeps (do i ← run; ok (EvaluationResult.integer i))
  bind-Keeps (ok i) h = integer-Keeps i (h i refl)
  bind-Keeps (err e) h = λ r p. cc
  bind-Keeps panic h = λ r p. cc
  bind-Keeps stuck h = λ r p. cc

  arithmetic-Keeps :
      (int_op : ℕ → ℕ → Result GenApiError ℕ) (float_op : F → F → F) (v w : EvaluationResult F)
      → ((a b i : ℕ) → int_op a b ≡ ok i → IsI64 i)
      → Keeps (arithmetic int_op float_op v w)
  arithmetic-Keeps int_op float_op (EvaluationResult.integer a) (EvaluationResult.integer b) h =
      bind-Keeps (int_op a b) (h a b)
  arithmetic-Keeps int_op float_op (EvaluationResult.integer a) (EvaluationResult.float g) h =
      float-Keeps _
  arithmetic-Keeps int_op float_op (EvaluationResult.float f) w h = float-Keeps _

  comparison-Keeps :
      (int_op : ℕ → ℕ → Bool) (float_op : F → F → Bool) (v w : EvaluationResult F)
      → Keeps (comparison int_op float_op v w)
  comparison-Keeps int_op float_op (EvaluationResult.integer a) (EvaluationResult.integer b) =
      bool-Keeps _
  comparison-Keeps int_op float_op (EvaluationResult.integer a) (EvaluationResult.float g) =
      bool-Keeps _
  comparison-Keeps int_op float_op (EvaluationResult.float f) w = bool-Keeps _

  power-Keeps : (v w : EvaluationResult F) → Keeps (power v w)
  unfolding wrapping_pow
  power-Keeps (EvaluationResult.integer a) (EvaluationResult.integer b) =
      elim (Bool-cases (is_negative b)) [
        | inl yes_sign ↦ rw yes_sign (float-Keeps _)
        | inr no_sign ↦ rw no_sign (integer-Keeps _ (omega arith))
      ]
  power-Keeps (EvaluationResult.integer a) (EvaluationResult.float g) = float-Keeps _
  power-Keeps (EvaluationResult.float f) w = float-Keeps _

  either-Keeps :
      (int_op : ℕ → Result GenApiError ℕ) (float_op : F → F) (v : EvaluationResult F)
      → ((a i : ℕ) → int_op a ≡ ok i → IsI64 i)
      → Keeps (either int_op float_op v)
  either-Keeps int_op float_op (EvaluationResult.integer a) h = bind-Keeps (int_op a) (h a)
  either-Keeps int_op float_op (EvaluationResult.float f) h = float-Keeps _

  apply_binop-Keeps :
      (op : BinOpKind) (v w : EvaluationResult F)
      → IsValue v
      → IsValue w
      → Keeps (apply_binop op v w)
  unfolding apply_binop wrapping_add wrapping_sub wrapping_mul wrapping_rem wrapping_shl
  apply_binop-Keeps BinOpKind.add v w hv hw =
      arithmetic-Keeps (λ a b. ok (wrapping_add a b)) O.add v w (λ a b. modular-IsI64 (a + b))
  apply_binop-Keeps BinOpKind.sub v w hv hw =
      arithmetic-Keeps (λ a b. ok (wrapping_sub a b)) O.sub v w
        (λ a b. modular-IsI64 (a + 2 ^ 64 - b))
  apply_binop-Keeps BinOpKind.mul v w hv hw =
      arithmetic-Keeps (λ a b. ok (wrapping_mul a b)) O.mul v w (λ a b. modular-IsI64 (a * b))
  apply_binop-Keeps BinOpKind.rem v w hv hw = arithmetic-Keeps wrapping_rem O.rem v w rem-IsI64
  apply_binop-Keeps BinOpKind.div v w hv hw = float-Keeps _
  apply_binop-Keeps BinOpKind.pow v w hv hw = power-Keeps v w
  apply_binop-Keeps BinOpKind.eq v w hv hw = comparison-Keeps _ O.eq v w
  apply_binop-Keeps BinOpKind.ne v w hv hw = comparison-Keeps _ (λ a b. Prelude.not (O.eq a b)) v w
  apply_binop-Keeps BinOpKind.lt v w hv hw = comparison-Keeps _ O.lt v w
  apply_binop-Keeps BinOpKind.le v w hv hw = comparison-Keeps _ O.le v w
  apply_binop-Keeps BinOpKind.gt v w hv hw = comparison-Keeps _ (λ a b. O.lt b a) v w
  apply_binop-Keeps BinOpKind.ge v w hv hw = comparison-Keeps _ (λ a b. O.le b a) v w
  apply_binop-Keeps BinOpKind.shl v w hv hw = integer-Keeps _ (omega arith)
  apply_binop-Keeps BinOpKind.shr v w hv hw =
      integer-Keeps _ (wrapping_shr-IsI64 (as_integer v) (as_integer w) (as_integer-IsI64 v hv))
  apply_binop-Keeps BinOpKind.bit_and v w hv hw =
      integer-Keeps _ (bit_and-lt 64 _ _ (as_integer-IsI64 v hv) (as_integer-IsI64 w hw))
  apply_binop-Keeps BinOpKind.bit_or v w hv hw =
      integer-Keeps _ (bit_or-lt 64 _ _ (as_integer-IsI64 v hv) (as_integer-IsI64 w hw))
  apply_binop-Keeps BinOpKind.xor v w hv hw =
      integer-Keeps _ (bit_xor-lt 64 _ _ (as_integer-IsI64 v hv) (as_integer-IsI64 w hw))
  apply_binop-Keeps BinOpKind.and v w hv hw = λ r e. cc
  apply_binop-Keeps BinOpKind.or v w hv hw = λ r e. cc

  apply_unop-Keeps : (op : UnOpKind) (v : EvaluationResult F) → IsValue v → Keeps (apply_unop op v)
  unfolding apply_unop I64.neg I64.abs complement
  apply_unop-Keeps UnOpKind.not v h = integer-Keeps _ (omega arith)
  apply_unop-Keeps UnOpKind.abs (EvaluationResult.integer i) h =
      bind-Keeps (I64.abs i) (λ j e. ground arith)
  apply_unop-Keeps UnOpKind.abs (EvaluationResult.float f) h = float-Keeps _
  apply_unop-Keeps UnOpKind.sgn v h =
      either-Keeps (λ i. ok (signum i)) O.signum v (λ a i e. ground (arith, signum-IsI64 a))
  apply_unop-Keeps UnOpKind.neg v h = either-Keeps I64.neg O.neg v (λ a i e. ground arith)
  apply_unop-Keeps UnOpKind.sin v h = float-Keeps _
  apply_unop-Keeps _ v h = float-Keeps _

  module _ (env : Env F) (words : (s : Name) (e : Expr F) → env s ≡ some e → HasI64 e) where
    Evaluates-IsValue :
        (e : Expr F) (r : EvaluationResult F) → HasI64 e → Evaluates env e r → IsValue r
    Evaluates-IsValue _ _ h (BigStep.integer i) = h
    Evaluates-IsValue _ _ h (BigStep.float f) = tt
    Evaluates-IsValue _ _ h (BigStep.ident {s} {e} {r} found d) =
        Evaluates-IsValue e r (words s e found) d
    Evaluates-IsValue _ _ h (BigStep.if_true {t} {r} _ _ d) = Evaluates-IsValue t r h.1.0 d
    Evaluates-IsValue _ _ h (BigStep.if_false {e} {r} _ _ d) = Evaluates-IsValue e r h.1.1 d
    Evaluates-IsValue _ _ h (BigStep.unary {op} {e} {v} {r} d last) =
        apply_unop-Keeps op v (Evaluates-IsValue e v h d) r last
    Evaluates-IsValue _ _ h (BigStep.and_false _ _) = omega arith
    Evaluates-IsValue _ _ h (BigStep.and_true {w} _ _ _) = of_bool-IsI64 (as_bool w)
    Evaluates-IsValue _ _ h (BigStep.or_true _ _) = omega arith
    Evaluates-IsValue _ _ h (BigStep.or_false {w} _ _ _) = of_bool-IsI64 (as_bool w)
    Evaluates-IsValue _ _ h (BigStep.strict {op} {a} {b} {v} {w} {r} da db last) =
        apply_binop-Keeps op v w (Evaluates-IsValue a v h.0 da) (Evaluates-IsValue b w h.1 db) r
          last

    -- Where the integers of an expression and of the variables' expressions are `i64`, an integer that
    -- its evaluation returns is an `i64` too: every operation wraps around or is checked.
    pub eval-IsValue :
        (fuel : ℕ) (e : Expr F) (r : EvaluationResult F)
        → HasI64 e
        → eval fuel env e ≡ ok r
        → IsValue r
    eval-IsValue fuel e r h run =
        Evaluates-IsValue e r h ((eval-Evaluates_iff env e r).0 (fuel, run))
