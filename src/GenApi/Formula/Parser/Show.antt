-- ===== src/GenApi/Formula/Parser/Show.antt =====
-- The tokens of an expression, with a pair of parentheses around every operation.
use cameleon.Prelude.{
  ℕ, suc, max, ◌^◌, ◌<◌, List, [], ◌∷◌, ◌≡◌, refl, Option, none, some, if◌then◌else◌, false,
}
use cameleon.GenApi.Formula.{Name, Expr, bin_op, un_op, if_else, BinOpKind, UnOpKind}
use cameleon.GenApi.Formula.Lexer
use cameleon.GenApi.Formula.Lexer.{
  Token, l_paren, r_paren, double_star, caret, tilde, colon, question,
}
use cameleon.GenApi.Formula.Lexer.Scan.{IsName}
use cameleon.GenApi.Formula.Parser.{bytes_of, name_eq, call_kind, operators, same}

-- The level of operators that reads the operation, which is no power.
abbrev pub level_of : BinOpKind → ℕ
level_of BinOpKind.mul = 0
level_of BinOpKind.div = 0
level_of BinOpKind.rem = 0
level_of BinOpKind.add = 1
level_of BinOpKind.sub = 1
level_of BinOpKind.shl = 2
level_of BinOpKind.shr = 2
level_of BinOpKind.lt = 3
level_of BinOpKind.le = 3
level_of BinOpKind.gt = 3
level_of BinOpKind.ge = 3
level_of BinOpKind.eq = 4
level_of BinOpKind.ne = 4
level_of BinOpKind.bit_and = 5
level_of BinOpKind.xor = 6
level_of BinOpKind.bit_or = 7
level_of BinOpKind.and = 8
level_of BinOpKind.or = 9
level_of BinOpKind.pow = 0

-- The function that an operation is written as, if it is written as one.
abbrev pub call_name : UnOpKind → Name
call_name UnOpKind.sin = bytes_of "SIN"
call_name UnOpKind.cos = bytes_of "COS"
call_name UnOpKind.tan = bytes_of "TAN"
call_name UnOpKind.asin = bytes_of "ASIN"
call_name UnOpKind.acos = bytes_of "ACOS"
call_name UnOpKind.atan = bytes_of "ATAN"
call_name UnOpKind.abs = bytes_of "ABS"
call_name UnOpKind.exp = bytes_of "EXP"
call_name UnOpKind.ln = bytes_of "LN"
call_name UnOpKind.lg = bytes_of "LG"
call_name UnOpKind.sqrt = bytes_of "SQRT"
call_name UnOpKind.trunc = bytes_of "TRUNC"
call_name UnOpKind.floor = bytes_of "FLOOR"
call_name UnOpKind.ceil = bytes_of "CEIL"
call_name UnOpKind.round = bytes_of "ROUND"
call_name UnOpKind.neg = bytes_of "NEG"
call_name UnOpKind.not = []
call_name UnOpKind.sgn = []

module _ {F : Type 0} where
  abbrev pub op_token : BinOpKind → Token F
  op_token BinOpKind.add = Token.plus
  op_token BinOpKind.sub = Token.minus
  op_token BinOpKind.mul = Token.star
  op_token BinOpKind.div = Token.slash
  op_token BinOpKind.rem = Token.percent
  op_token BinOpKind.pow = double_star
  op_token BinOpKind.shl = Token.shl
  op_token BinOpKind.shr = Token.shr
  op_token BinOpKind.and = Token.double_and
  op_token BinOpKind.or = Token.double_or
  op_token BinOpKind.eq = Token.eq
  op_token BinOpKind.ne = Token.ne
  op_token BinOpKind.lt = Token.lt
  op_token BinOpKind.le = Token.le
  op_token BinOpKind.gt = Token.gt
  op_token BinOpKind.ge = Token.ge
  op_token BinOpKind.bit_and = Token.and
  op_token BinOpKind.bit_or = Token.or
  op_token BinOpKind.xor = caret

  -- The tokens of an expression, followed by `ts`: the first one, and the others.
  abbrev pub first : Expr F → Token F
  first (bin_op _ _ _) = l_paren
  first (un_op UnOpKind.not _) = l_paren
  first (un_op UnOpKind.neg _) = l_paren
  first (un_op op _) = Lexer.ident (call_name op)
  first (if_else _ _ _) = l_paren
  first (Expr.integer i) = Lexer.integer i
  first (Expr.float f) = Lexer.float f
  first (Expr.ident s) = Lexer.ident s

  abbrev pub others : Expr F → List (Token F) → List (Token F)
  others (bin_op op a b) ts = first a ∷ others a (op_token op ∷ (first b ∷ others b (r_paren ∷ ts)))
  others (un_op UnOpKind.not a) ts = tilde ∷ (first a ∷ others a (r_paren ∷ ts))
  others (un_op UnOpKind.neg a) ts = Token.minus ∷ (first a ∷ others a (r_paren ∷ ts))
  others (un_op op a) ts = l_paren ∷ (first a ∷ others a (r_paren ∷ ts))
  others (if_else c t e) ts =
      first c
      ∷ others c (question ∷ (first t ∷ others t (colon ∷ (first e ∷ others e (r_paren ∷ ts)))))
  others (Expr.integer i) ts = ts
  others (Expr.float f) ts = ts
  others (Expr.ident s) ts = ts

  abbrev pub show : Expr F → List (Token F) → List (Token F)
  show e ts = first e ∷ others e ts

  -- How deep the parentheses are.
  abbrev pub nesting : Expr F → ℕ
  nesting (bin_op _ a b) = suc (max (nesting a) (nesting b))
  nesting (un_op _ a) = suc (nesting a)
  nesting (if_else c t e) = suc (max (nesting c) (max (nesting t) (nesting e)))
  nesting (Expr.integer _) = 0
  nesting (Expr.float _) = 0
  nesting (Expr.ident _) = 0

  -- What a source can spell: positive constants, no floating-point ones, names that are neither
  -- functions nor constants, and no `SGN`, which the parser does not know.
  abbrev pub IsSource : Expr F → Type 0
  IsSource (bin_op _ a b) = IsSource a × IsSource b
  IsSource (un_op UnOpKind.sgn _) = ⊥
  IsSource (un_op _ a) = IsSource a
  IsSource (if_else c t e) = IsSource c × (IsSource t × IsSource e)
  IsSource (Expr.integer i) = i < 2 ^ 63
  IsSource (Expr.float _) = ⊥
  IsSource (Expr.ident s) =
      IsName s
      × ((call_kind s ≡ none)
          × ((name_eq s (bytes_of "PI") ≡ false) × (name_eq s (bytes_of "E") ≡ false)))

  -- The operator that the tokens begin with.
  abbrev pub find : List (Token F × BinOpKind) → List (Token F) → Option BinOpKind
  find [] ts = none
  find ((tok, op) ∷ more) [] = none
  find ((tok, op) ∷ more) (t ∷ ts) = if same tok t then some op else find more (t ∷ ts)

  -- The levels of operators from `low` to below `high` have no operator that `ts` begins with.
  pub data Climbs (ts : List (Token F)) (low : ℕ) : ℕ → Type 0 where
    same_level : Climbs ts low low
    next_level :
        {high : ℕ} → find (operators high) ts ≡ none → Climbs ts low high → Climbs ts low (suc high)

  pub Climbs-to_op :
      (op : BinOpKind) (ts : List (Token F)) → Climbs (op_token op ∷ ts) 0 (level_of op)
  unfolding operators same
  Climbs-to_op BinOpKind.add ts = search (same_level, next_level) depth 30
  Climbs-to_op _ ts = search (same_level, next_level) depth 30

  pub Climbs-from_op :
      (op : BinOpKind) (ts : List (Token F)) → Climbs (r_paren ∷ ts) (suc (level_of op)) 10
  unfolding operators same
  Climbs-from_op BinOpKind.add ts = search (same_level, next_level) depth 30
  Climbs-from_op _ ts = search (same_level, next_level) depth 30

  pub Climbs-to_end : (op : BinOpKind) (ts : List (Token F)) → Climbs (r_paren ∷ ts) 0 (level_of op)
  unfolding operators same
  Climbs-to_end BinOpKind.add ts = search (same_level, next_level) depth 30
  Climbs-to_end _ ts = search (same_level, next_level) depth 30

  pub find-r_paren :
      (op : BinOpKind) (ts : List (Token F)) → find (operators (level_of op)) (r_paren ∷ ts) ≡ none
  unfolding operators same
  find-r_paren BinOpKind.add ts = refl
  find-r_paren _ ts = refl
