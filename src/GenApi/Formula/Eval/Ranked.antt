-- ===== src/GenApi/Formula/Eval/Ranked.antt =====
-- When an evaluation ends: variables that do not refer to themselves.
use cameleon.Prelude.{
  ℕ, zero, suc, ◌+◌, ◌*◌, ◌≤◌, ◌<◌, max, Bool, true, false, ◌≡◌, ◌≢◌, refl, arith,
}
use cameleon.Prelude.{some, Option-cases, inl, inr, if◌then◌else◌}
use cameleon.Result.{Result, stuck, >>=-ne-stuck}
use cameleon.GenApi.{GenApiError}
use cameleon.GenApi.I64
use cameleon.GenApi.I64.{wrapping_rem, is_negative}
use cameleon.GenApi.Formula.{Expr, bin_op, un_op, if_else, Name, BinOpKind, UnOpKind}
use cameleon.GenApi.Formula.{EvaluationResult, Floats, as_bool}
use cameleon.GenApi.Formula.Eval.{Env, apply_binop, apply_unop, eval_binop, eval}

one_rank_less :
    (d deepest r bound n : ℕ)
    → d ≤ deepest
    → r < bound
    → 1 + bound * deepest ≤ suc n
    → d + r * deepest ≤ n
one_rank_less d deepest r bound n hd hr h = grind arith

if-ne-stuck :
    {A : Type 0} (b : Bool) (x y : Result GenApiError A)
    → x ≢ stuck
    → y ≢ stuck
    → (if b then x else y) ≢ stuck
if-ne-stuck true x y hx hy = hx
if-ne-stuck false x y hx hy = hy

module _ {F : Type 0} where
  -- Every name in the expression satisfies `P`.
  abbrev pub Names : (Name → Type 0) → Expr F → Type 0
  Names P (bin_op _ a b) = Names P a × Names P b
  Names P (un_op _ e) = Names P e
  Names P (if_else c t e) = Names P c × (Names P t × Names P e)
  Names P (Expr.integer _) = Unit
  Names P (Expr.float _) = Unit
  Names P (Expr.ident s) = P s

  abbrev pub depth : Expr F → ℕ
  depth (bin_op _ a b) = suc (max (depth a) (depth b))
  depth (un_op _ e) = suc (depth e)
  depth (if_else c t e) = suc (max (depth c) (max (depth t) (depth e)))
  depth (Expr.integer _) = 1
  depth (Expr.float _) = 1
  depth (Expr.ident _) = 1

  -- The variables can be put in an order in which each one's expression names earlier ones only, and
  -- no expression is deeper than `deepest`.
  pub record IsRanked (env : Env F) (rank : Name → ℕ) (deepest : ℕ) : Type 0 where
    pub names : (s : Name) (e : Expr F) → env s ≡ some e → Names (λ x. rank x < rank s) e
    pub depths : (s : Name) (e : Expr F) → env s ≡ some e → depth e ≤ deepest

module _ {F : Type 0} ⦃O : Floats F⦄ where
  apply_binop-ne-stuck : (op : BinOpKind) (v w : EvaluationResult F) → apply_binop op v w ≢ stuck
  unfolding apply_binop wrapping_rem
  apply_binop-ne-stuck op v w h = ground arith

  apply_unop-ne-stuck : (op : UnOpKind) (v : EvaluationResult F) → apply_unop op v ≢ stuck
  unfolding apply_unop I64.neg I64.abs
  apply_unop-ne-stuck op v h = ground arith

  eval_binop-ne-stuck :
      (rec : Expr F → Result GenApiError (EvaluationResult F)) (op : BinOpKind) (a b : Expr F)
      → rec a ≢ stuck
      → rec b ≢ stuck
      → eval_binop rec op a b ≢ stuck
  unfolding eval_binop
  eval_binop-ne-stuck rec BinOpKind.and a b ha hb =
      >>=-ne-stuck (rec a) _ ha
        λ v. if-ne-stuck (as_bool v) _ _ (>>=-ne-stuck (rec b) _ hb λ w h. cc) λ h. cc
  eval_binop-ne-stuck rec BinOpKind.or a b ha hb =
      >>=-ne-stuck (rec a) _ ha
        λ v. if-ne-stuck (as_bool v) _ _ (λ h. cc) (>>=-ne-stuck (rec b) _ hb λ w h. cc)
  eval_binop-ne-stuck rec BinOpKind.add a b ha hb =
      >>=-ne-stuck (rec a) _ ha λ v. >>=-ne-stuck (rec b) _ hb λ w. apply_binop-ne-stuck _ v w
  eval_binop-ne-stuck rec op a b ha hb =
      >>=-ne-stuck (rec a) _ ha λ v. >>=-ne-stuck (rec b) _ hb λ w. apply_binop-ne-stuck _ v w

  module _ (env : Env F) (rank : Name → ℕ) (deepest : ℕ) (ranked : IsRanked env rank deepest) where
    -- Where the variables are ranked, the evaluation of an expression whose names have ranks below
    -- `bound` ends: its depth, and the deepest expression once for each rank, are enough fuel.
    pub eval_ends :
        (e : Expr F) (bound fuel : ℕ)
        → Names (λ x. rank x < bound) e
        → depth e + bound * deepest ≤ fuel
        → eval fuel env e ≢ stuck
    unfolding eval
    eval_ends (bin_op op a b) bound zero h l = absurd (omega arith)
    eval_ends (bin_op op a b) bound (suc n) h l =
        eval_binop-ne-stuck (eval n env) op a b (eval_ends a bound n h.0 (omega arith))
          (eval_ends b bound n h.1 (omega arith))
    eval_ends (un_op op e) bound zero h l = absurd (omega arith)
    eval_ends (un_op op e) bound (suc n) h l =
        >>=-ne-stuck (eval n env e) _ (eval_ends e bound n h (omega arith)) (apply_unop-ne-stuck op)
    eval_ends (if_else c t e) bound zero h l = absurd (omega arith)
    eval_ends (if_else c t e) bound (suc n) h l =
        >>=-ne-stuck (eval n env c) _ (eval_ends c bound n h.0 (omega arith)) λ v.
          if-ne-stuck (as_bool v) _ _ (eval_ends t bound n h.1.0 (omega arith))
            (eval_ends e bound n h.1.1 (omega arith))
    eval_ends (Expr.integer i) bound zero h l = absurd (omega arith)
    eval_ends (Expr.integer i) bound (suc n) h l = λ p. cc
    eval_ends (Expr.float f) bound zero h l = absurd (omega arith)
    eval_ends (Expr.float f) bound (suc n) h l = λ p. cc
    eval_ends (Expr.ident s) bound zero h l = absurd (omega arith)
    eval_ends (Expr.ident s) bound (suc n) h l = elim (Option-cases (env s)) [
      | inl missing ↦ rw (missing, eval) (λ p. cc)
      | inr (e, found) ↦
          let enough =
            one_rank_less (depth e) deepest (rank s) bound n (ranked.depths s e found) h l in
          rw (found, eval) (eval_ends e (rank s) n (ranked.names s e found) enough)
    ]

  -- A variable that stands for its own name: no fuel is enough, and the program recurses without
  -- end.
  pub eval_cycle :
      (env : Env F) (s : Name) (fuel : ℕ)
      → env s ≡ some (Expr.ident s)
      → eval fuel env (Expr.ident s) ≡ stuck
  unfolding eval
  eval_cycle env s zero h = refl
  eval_cycle env s (suc n) h = rw (h, eval) (eval_cycle env s n h)
