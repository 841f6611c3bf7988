-- ===== src/GenApi/Formula/Parser/RoundTrip.antt =====
-- The parser reads a printed expression back.
use cameleon.Prelude.{ℕ, zero, suc, ◌+◌, ◌*◌, ◌≤◌, List, [], ◌∷◌, length, ◌≡◌, refl, arith}
use cameleon.Result.{ok}
use cameleon.GenApi.Formula.{Floats, Expr, bin_op, un_op, if_else, BinOpKind, UnOpKind}
use cameleon.GenApi.Formula.Lexer
use cameleon.GenApi.Formula.Lexer.{
  Token, Utf8, l_paren, r_paren, double_star, tilde, colon, question,
}
use cameleon.GenApi.Formula.Lexer.{is_alphabetic, is_name_char, is_numeric}
use cameleon.GenApi.Formula.Lexer.Print.{print, print_longer}
use cameleon.GenApi.Formula.Parser.{same, operators, name_eq}
use cameleon.GenApi.Formula.Parser.{call_kind, called, atom, parse_goal, parse}
use cameleon.GenApi.Formula.Parser.Show.{op_token, first, show, IsSource, call_name}
use cameleon.GenApi.Formula.Parser.Show.{nesting}
use cameleon.GenApi.Formula.Parser.Layers.{paren_reads, call_reads, atom_reads}
use cameleon.GenApi.Formula.Parser.Layers.{not_reads, neg_reads}
use cameleon.GenApi.Formula.Parser.Wholes.{unary-Reads, whole-Reads, Climbs-paren, Climbs-nil}
use cameleon.GenApi.Formula.Parser.Wholes.{first-Starts, binary-Reads, power_whole, sign_whole}
use cameleon.GenApi.Formula.Parser.Wholes.{if_whole, Reads}

two_more : (n : ℕ) → n + 2 ≡ suc (suc n)
two_more n = omega arith

module _ {F : Type 0} ⦃O : Floats F⦄ ⦃U : Utf8⦄ where
  call-Reads : (e : Expr F) → IsSource e → (fuel : ℕ) → 3 * nesting e ≤ fuel → Reads fuel e
  unfolding same called call_kind name_eq operators atom is_alphabetic is_name_char is_numeric
  call-Reads (bin_op BinOpKind.pow a b) h (suc (suc (suc g))) l ts begins =
      paren_reads (parse_goal (suc (suc (suc g)))) _ (bin_op BinOpKind.pow a b) ts (
        power_whole g a b ts (first-Starts a h.0) (first-Starts b h.1)
          (call-Reads a h.0 (suc g) (omega arith)) (call-Reads b h.1 g (omega arith)))
  call-Reads (bin_op op a b) h (suc (suc (suc g))) l ts begins =
      paren_reads (parse_goal (suc (suc (suc g)))) _ (bin_op op a b) ts (
        binary-Reads (suc g) op a b ts refl tt refl (first-Starts a h.0) (first-Starts b h.1)
          (call-Reads a h.0 (suc g) (omega arith)) (call-Reads b h.1 (suc g) (omega arith)))
  call-Reads (if_else c t e) h (suc (suc (suc g))) l ts begins =
      paren_reads (parse_goal (suc (suc (suc g)))) _ (if_else c t e) ts (
        if_whole g c t e ts (first-Starts c h.0) (first-Starts t h.1.0) (first-Starts e h.1.1)
          (call-Reads c h.0 (suc g) (omega arith)) (call-Reads t h.1.0 g (omega arith))
          (call-Reads e h.1.1 g (omega arith)))
  call-Reads (un_op UnOpKind.sgn a) h fuel l ts begins = elim h [ ]
  call-Reads (un_op UnOpKind.not a) h (suc (suc (suc g))) l ts begins =
      paren_reads (parse_goal (suc (suc (suc g)))) _ (un_op UnOpKind.not a) ts (
        sign_whole g _ (un_op UnOpKind.not a) ts (
          not_reads (parse_goal (suc g)) _ a (r_paren ∷ ts) (
            unary-Reads g a (r_paren ∷ ts) (first-Starts a h) (call-Reads a h g (omega arith)) tt
              refl)))
  call-Reads (un_op UnOpKind.neg a) h (suc (suc (suc g))) l ts begins =
      paren_reads (parse_goal (suc (suc (suc g)))) _ (un_op UnOpKind.neg a) ts (
        sign_whole g _ (un_op UnOpKind.neg a) ts (
          neg_reads (parse_goal (suc g)) _ a (r_paren ∷ ts) (
            unary-Reads g a (r_paren ∷ ts) (first-Starts a h) (call-Reads a h g (omega arith)) tt
              refl)))
  call-Reads (un_op op a) h (suc (suc (suc g))) l ts begins =
      call_reads (parse_goal (suc (suc (suc g)))) (call_name op) op _ a ts
        (first-Starts (un_op op a) h).0 refl
        (whole-Reads (suc g) a (r_paren ∷ ts) (first-Starts a h)
          (call-Reads a h (suc g) (omega arith)) tt refl refl (Climbs-paren ts))
  call-Reads (Expr.integer i) h fuel l ts begins =
      atom_reads (parse_goal fuel) (Lexer.integer i) (Expr.integer i) ts h refl refl refl
  call-Reads (Expr.float f) h fuel l ts begins = elim h [ ]
  call-Reads (Expr.ident s) h fuel l ts begins =
      atom_reads (parse_goal fuel) (Lexer.ident s) (Expr.ident s) ts h.0 (rw (h.1.0, called) refl)
        refl (rw (h.1.1.0, h.1.1.1, atom) refl)
  call-Reads e h zero l ts begins = absurd (omega arith)
  call-Reads e h (suc zero) l ts begins = absurd (omega arith)
  call-Reads e h (suc (suc zero)) l ts begins = absurd (omega arith)

  enclosed_deep :
      (sign : Token F) (a : Expr F) (ts : List (Token F))
      → 3 * nesting a + 2 * length (print (r_paren ∷ ts))
        ≤ 2 * length (print (show a (r_paren ∷ ts)))
      → 3 * suc (nesting a) + 2 * length (print ts)
        ≤ 2 * length (print (l_paren ∷ (sign ∷ show a (r_paren ∷ ts))))
  enclosed_deep sign a ts h = omega (
    arith,
    print_longer r_paren ts,
    print_longer sign (show a (r_paren ∷ ts)),
    print_longer l_paren (sign ∷ show a (r_paren ∷ ts)),
  )

  -- The text of an expression is longer than its parentheses are deep.
  print_deep :
      (e : Expr F) (ts : List (Token F))
      → IsSource e
      → 3 * nesting e + 2 * length (print ts) ≤ 2 * length (print (show e ts))
  print_deep (bin_op op a b) ts h =
      let right = print_deep b (r_paren ∷ ts) h.1 in
      let left = print_deep a (op_token op ∷ show b (r_paren ∷ ts)) h.0 in
      omega (
        arith,
        left,
        right,
        print_longer r_paren ts,
        print_longer l_paren (show a (op_token op ∷ show b (r_paren ∷ ts))),
        print_longer (op_token op) (show b (r_paren ∷ ts)),
      )
  print_deep (un_op UnOpKind.sgn a) ts h = elim h [ ]
  print_deep (un_op UnOpKind.not a) ts h = enclosed_deep tilde a ts (print_deep a (r_paren ∷ ts) h)
  print_deep (un_op UnOpKind.neg a) ts h =
      enclosed_deep Token.minus a ts (print_deep a (r_paren ∷ ts) h)
  print_deep (un_op op a) ts h = omega (
    arith,
    print_deep a (r_paren ∷ ts) h,
    print_longer r_paren ts,
    print_longer (first (un_op op a)) (l_paren ∷ show a (r_paren ∷ ts)),
    print_longer l_paren (show a (r_paren ∷ ts)),
  )
  print_deep (if_else c t e) ts h =
      let last = print_deep e (r_paren ∷ ts) h.1.1 in
      let middle = print_deep t (colon ∷ show e (r_paren ∷ ts)) h.1.0 in
      let start = print_deep c (question ∷ show t (colon ∷ show e (r_paren ∷ ts))) h.0 in
      omega (
        arith,
        last,
        middle,
        start,
        print_longer r_paren ts,
        print_longer colon (show e (r_paren ∷ ts)),
        print_longer question (show t (colon ∷ show e (r_paren ∷ ts))),
        print_longer l_paren (show c (question ∷ show t (colon ∷ show e (r_paren ∷ ts)))),
      )
  print_deep (Expr.integer i) ts h = omega (arith, print_longer (Lexer.integer i) ts)
  print_deep (Expr.float f) ts h = elim h [ ]
  print_deep (Expr.ident s) ts h = omega (arith, print_longer (Lexer.ident s) ts)

  -- The text of an expression, with a pair of parentheses around every operation and a blank before
  -- every token, parses to that expression. Its integers are below 2 ^ 63, its names are ASCII and
  -- neither functions nor constants, and it has no floating-point constant and no `SGN`.
  pub parse-print : (e : Expr F) → IsSource e → parse (print (show e [])) ≡ ok e
  unfolding parse
  parse-print e h =
      let fuel = 2 * length (print (show e [])) in
      let enough = two_more fuel in
      let reads = call-Reads e h fuel (omega (arith, print_deep e [] h)) in
      rw (enough, whole-Reads fuel e [] (first-Starts e h) reads tt refl refl Climbs-nil, parse)
        refl
