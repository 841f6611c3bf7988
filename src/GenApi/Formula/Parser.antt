-- ===== src/GenApi/Formula/Parser.antt =====
-- genapi/src/formula.rs: the parser, by recursive descent. A parser function takes what is left of
-- the source and returns an expression and what is left then.
pub mod Ends
pub mod Show
pub mod Operators
pub mod Layers
pub mod Wholes
pub mod RoundTrip
use Prim.Native.Char.{code}
use Prim.Native.String.{String}
use cameleon.Prelude.{ℕ, zero, suc, ◌+◌, ◌*◌, List, [], ◌∷◌, length, Bool, true, false, ◌&&◌, ◌==◌}
use cameleon.Prelude.{if◌then◌else◌, Option, none, some}
use cameleon.Result.{Result, ok, panic, stuck, ◌>>=◌}
use cameleon.GenApi.{GenApiError}
use cameleon.GenApi.Formula.{Name, Expr, bin_op, un_op, if_else, BinOpKind, UnOpKind, Floats}
use cameleon.GenApi.Formula.Lexer.{Token, Utf8, next_token, unwrap, ident}
use cameleon.GenApi.Formula.Lexer.{l_paren, r_paren, double_star, caret, tilde, colon, question}

-- The bytes of an ASCII text.
abbrev pub bytes_of : String → List ℕ
bytes_of String.[] = []
bytes_of (String.◌∷◌ c s) = code c ∷ bytes_of s

unfoldable pub name_eq : Name → Name → Bool
name_eq [] [] = true
name_eq (x ∷ xs) (y ∷ ys) = x == y && name_eq xs ys
name_eq _ _ = false

-- The `match` of `next_call`.
unfoldable pub call_kind : Name → Option UnOpKind
call_kind s =
    if name_eq s (bytes_of "NEG")
    then some UnOpKind.neg
    else if name_eq s (bytes_of "SIN")
    then some UnOpKind.sin
    else if name_eq s (bytes_of "COS")
    then some UnOpKind.cos
    else if name_eq s (bytes_of "TAN")
    then some UnOpKind.tan
    else if name_eq s (bytes_of "ASIN")
    then some UnOpKind.asin
    else if name_eq s (bytes_of "ACOS")
    then some UnOpKind.acos
    else if name_eq s (bytes_of "ATAN")
    then some UnOpKind.atan
    else if name_eq s (bytes_of "ABS")
    then some UnOpKind.abs
    else if name_eq s (bytes_of "EXP")
    then some UnOpKind.exp
    else if name_eq s (bytes_of "LN")
    then some UnOpKind.ln
    else if name_eq s (bytes_of "LG")
    then some UnOpKind.lg
    else if name_eq s (bytes_of "SQRT")
    then some UnOpKind.sqrt
    else if name_eq s (bytes_of "TRUNC")
    then some UnOpKind.trunc
    else if name_eq s (bytes_of "FLOOR")
    then some UnOpKind.floor
    else if name_eq s (bytes_of "CEIL")
    then some UnOpKind.ceil
    else if name_eq s (bytes_of "ROUND")
    then some UnOpKind.round
    else none

-- The operation that the token names, and what is left after it.
unfoldable pub called : {F : Type 0} → Option (Token F × List ℕ) → Option (UnOpKind × List ℕ)
called (some (ident s, rest)) = elim (call_kind s) [ none ↦ none | some op ↦ some (op, rest) ]
called _ = none

unfoldable pub next_call :
    (F : Type 0)
    → ⦃O : Floats F⦄ → ⦃U : Utf8⦄ → List ℕ
    → Result GenApiError (Option (UnOpKind × List ℕ))
next_call F c = do t ← next_token {F = F} c; ok (called t)

-- What the parser functions call again: `expr` and `unop`.
pub data Goal : Type 0 where
  expression unary : Goal

abbrev pub Parser : Type 0 → Type 0
Parser F = List ℕ → Result GenApiError (Expr F × List ℕ)

module _ {F : Type 0} where
  -- A number for each token without content, and 0 for the others.
  abbrev pub token_code : Token F → ℕ
  token_code l_paren = 1
  token_code r_paren = 2
  token_code Token.plus = 3
  token_code Token.minus = 4
  token_code Token.star = 5
  token_code double_star = 6
  token_code Token.slash = 7
  token_code Token.percent = 8
  token_code Token.and = 9
  token_code Token.double_and = 10
  token_code Token.or = 11
  token_code Token.double_or = 12
  token_code caret = 13
  token_code tilde = 14
  token_code Token.eq = 15
  token_code Token.ne = 16
  token_code colon = 17
  token_code question = 18
  token_code Token.lt = 19
  token_code Token.le = 20
  token_code Token.gt = 21
  token_code Token.ge = 22
  token_code Token.shl = 23
  token_code Token.shr = 24
  token_code _ = 0

  -- `peek == tok`, for a token without content.
  unfoldable pub same : Token F → Token F → Bool
  same tok peek = token_code tok == token_code peek

  -- The operators of `factor`, `term`, `bit_shift`, `rel`, `eq`, `bitwise_and`, `bitwise_xor`,
  -- `bitwise_or`, `logical_and` and `logical_or`, from the tightest on.
  unfoldable pub operators : ℕ → List (Token F × BinOpKind)
  operators zero =
      (Token.star, BinOpKind.mul)
      ∷ (Token.slash, BinOpKind.div)
      ∷ (Token.percent, BinOpKind.rem)
      ∷ []
  operators (suc zero) = (Token.plus, BinOpKind.add) ∷ (Token.minus, BinOpKind.sub) ∷ []
  operators (suc (suc zero)) = (Token.shl, BinOpKind.shl) ∷ (Token.shr, BinOpKind.shr) ∷ []
  operators (suc (suc (suc zero))) =
      (Token.lt, BinOpKind.lt)
      ∷ (Token.le, BinOpKind.le)
      ∷ (Token.gt, BinOpKind.gt)
      ∷ (Token.ge, BinOpKind.ge)
      ∷ []
  operators (suc (suc (suc (suc zero)))) = (Token.eq, BinOpKind.eq) ∷ (Token.ne, BinOpKind.ne) ∷ []
  operators (suc (suc (suc (suc (suc zero))))) = (Token.and, BinOpKind.bit_and) ∷ []
  operators (suc (suc (suc (suc (suc (suc zero)))))) = (caret, BinOpKind.xor) ∷ []
  operators (suc (suc (suc (suc (suc (suc (suc zero))))))) = (Token.or, BinOpKind.bit_or) ∷ []
  operators (suc (suc (suc (suc (suc (suc (suc (suc zero)))))))) =
      (Token.double_and, BinOpKind.and) ∷ []
  operators (suc (suc (suc (suc (suc (suc (suc (suc (suc zero))))))))) =
      (Token.double_or, BinOpKind.or) ∷ []
  operators _ = []

  module _ ⦃O : Floats F⦄ ⦃U : Utf8⦄ where
    unfoldable pub eat : Token F → List ℕ → Result GenApiError (Option (List ℕ))
    eat tok c = do
      t ← next_token {F = F} c
      elim t [ none ↦ ok none | some (t, rest) ↦ ok (if same tok t then some rest else none) ]

    unfoldable pub expect : Token F → List ℕ → Result GenApiError (List ℕ)
    expect tok c = do r ← eat tok c; unwrap r

    -- The chain of `eat`s of `parse_binop!`.
    unfoldable pub eat_operator :
        List (Token F × BinOpKind) → List ℕ → Result GenApiError (Option (BinOpKind × List ℕ))
    eat_operator [] c = ok none
    eat_operator ((tok, op) ∷ more) c = do
      r ← eat tok c
      elim r [ none ↦ eat_operator more c | some rest ↦ ok (some (op, rest)) ]

    -- The loop of `parse_binop!`.
    unfoldable pub operands : ℕ → List (Token F × BinOpKind) → Parser F → Expr F → Parser F
    operands zero ops next lhs c = stuck
    operands (suc rounds) ops next lhs c = do
      op ← eat_operator ops c
      elim op [
        | none ↦ ok (lhs, c)
        | some (op, c) ↦ do (rhs, c) ← next c; operands rounds ops next (bin_op op lhs rhs) c
      ]

    -- `parse_binop!`: each round takes at least one byte.
    unfoldable pub parse_binop : List (Token F × BinOpKind) → Parser F → Parser F
    parse_binop ops next c = do (lhs, c) ← next c; operands (suc (length c)) ops next lhs c

    -- The function of the `n`-th level of operators, with `unop` for `next`.
    unfoldable pub level : ℕ → Parser F → Parser F
    level zero next = next
    level (suc n) next = parse_binop (operators n) (level n next)

    -- `next_integer`, `next_float` and `next_ident`, for the next token.
    unfoldable pub atom : Option (Token F × List ℕ) → Result GenApiError (Expr F × List ℕ)
    atom (some (Token.integer i, rest)) = ok (Expr.integer i, rest)
    atom (some (Token.float f, rest)) = ok (Expr.float f, rest)
    atom (some (ident s, rest)) =
        if name_eq s (bytes_of "PI")
        then ok (Expr.float O.pi, rest)
        else if name_eq s (bytes_of "E")
        then ok (Expr.float O.e, rest)
        else ok (Expr.ident s, rest)
    atom _ = panic

    module _ (self : Goal → Parser F) where
      abbrev pub closed : List ℕ → Result GenApiError (Expr F × List ℕ)
      closed c = do (e, c) ← self expression c; c ← expect r_paren c; ok (e, c)

      unfoldable pub primary : Parser F
      primary c = do
        paren ← eat l_paren c
        elim paren [ some c ↦ closed c | none ↦ do t ← next_token {F = F} c; atom t ]

      unfoldable pub call : Parser F
      call c = do
        op ← next_call F c
        elim op [
          | none ↦ primary c
          | some (op, c) ↦ do c ← expect l_paren c; (e, c) ← closed c; ok (un_op op e, c)
        ]

      unfoldable pub pow : Parser F
      pow c = do
        (e, c) ← call c
        r ← eat double_star c
        elim r [
          | none ↦ ok (e, c)
          | some c ↦ do (rhs, c) ← self unary c; ok (bin_op BinOpKind.pow e rhs, c)
        ]

      abbrev pub prefixed : UnOpKind → Parser F
      prefixed op c = do (e, c) ← self unary c; ok (un_op op e, c)

      unfoldable pub unop : Parser F
      unop c = do
        r ← eat tilde c
        elim r [
          | some c ↦ prefixed UnOpKind.not c
          | none ↦ do
            r ← eat Token.minus c
            elim r [
              | some c ↦ prefixed UnOpKind.neg c
              | none ↦ do r ← eat Token.plus c; elim r [ none ↦ pow c | some c ↦ pow c ]
            ]
        ]

      unfoldable pub expr : Parser F
      expr c = do
        (e, c) ← level 10 (self unary) c
        r ← eat question c
        elim r [
          | none ↦ ok (e, c)
          | some c ↦ do
            (t, c) ← self expression c
            c ← expect colon c
            (f, c) ← self expression c
            ok (if_else e t f, c)
        ]

    unfoldable pub parse_goal : ℕ → Goal → Parser F
    parse_goal zero goal c = stuck
    parse_goal (suc fuel) expression c = expr (parse_goal fuel) c
    parse_goal (suc fuel) unary c = unop (parse_goal fuel) c

    -- `parse`: what is left of the source is dropped. A call takes a byte or is followed by one that
    -- does, so twice the length is enough fuel.
    unfoldable pub parse : List ℕ → Result GenApiError (Expr F)
    parse s = do (e, _) ← parse_goal (2 * length s + 2) expression s; ok e
