-- ===== src/GenApi/Formula.antt =====
-- genapi/src/formula.rs: the expressions of a formula and their values. The type `f64` and its
-- operations are the parameter `Floats`, and an `i64` is the number of its bits. A `String` is the
-- list of its bytes.
pub mod Eval
pub mod Lexer
pub mod Parser
use cameleon.Prelude.{ℕ, ◌<◌, ◌^◌, List, Bool, Option, ◌==◌}
use cameleon.Prelude
use cameleon.GenApi.I64.{of_bool, IsI64}

pub data BinOpKind : Type 0 where
  add sub mul div rem pow shl shr and or eq ne lt le gt ge bit_and bit_or xor : BinOpKind

pub data UnOpKind : Type 0 where
  not abs sgn neg sin cos tan asin acos atan exp ln lg sqrt trunc floor ceil round : UnOpKind

abbrev pub Name : Type 0
Name = List ℕ

pub data Expr (F : Type 0) : Type 0 where
  bin_op : BinOpKind → Expr F → Expr F → Expr F
  un_op : UnOpKind → Expr F → Expr F
  if_else : Expr F → Expr F → Expr F → Expr F
  integer : ℕ → Expr F
  float : F → Expr F
  ident : Name → Expr F

pub data EvaluationResult (F : Type 0) : Type 0 where
  integer : ℕ → EvaluationResult F
  float : F → EvaluationResult F

-- `f64`: its operations, the casts from and to `i64`, `f64::from_str`, and the constants `PI`
-- and `E`. What is relied on is only that a cast to `i64` gives an `i64`.
pub record Floats (F : Type 0) : Type 0 where
  pub add : F → F → F
  pub sub : F → F → F
  pub mul : F → F → F
  pub div : F → F → F
  pub rem : F → F → F
  pub powf : F → F → F
  pub eq : F → F → Bool
  pub lt : F → F → Bool
  pub le : F → F → Bool
  pub abs : F → F
  pub signum : F → F
  pub neg : F → F
  pub sin : F → F
  pub cos : F → F
  pub tan : F → F
  pub asin : F → F
  pub acos : F → F
  pub atan : F → F
  pub exp : F → F
  pub ln : F → F
  pub log10 : F → F
  pub sqrt : F → F
  pub trunc : F → F
  pub floor : F → F
  pub ceil : F → F
  pub round : F → F
  pub of_i64 : ℕ → F
  pub to_i64 : F → ℕ
  pub zero : F
  pub pi : F
  pub e : F
  pub from_str : List ℕ → Option F
  pub to_i64-IsI64 : (f : F) → IsI64 (to_i64 f)

module _ {F : Type 0} where
  -- `From<bool>`
  abbrev pub from_bool : Bool → EvaluationResult F
  from_bool b = integer (of_bool b)

  module _ ⦃O : Floats F⦄ where
    -- `EvaluationResult::as_integer`, `as_float`, `as_bool`
    abbrev pub as_integer : EvaluationResult F → ℕ
    as_integer (integer i) = i
    as_integer (float f) = O.to_i64 f

    abbrev pub as_float : EvaluationResult F → F
    as_float (integer i) = O.of_i64 i
    as_float (float f) = f

    unfoldable pub as_bool : EvaluationResult F → Bool
    as_bool (integer i) = Prelude.not (i == 0)
    as_bool (float f) = Prelude.not (O.eq f O.zero)
