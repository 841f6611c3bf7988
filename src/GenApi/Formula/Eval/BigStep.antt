-- ===== src/GenApi/Formula/Eval/BigStep.antt =====
-- What an expression evaluates to, with no fuel: the relation that `eval` decides.
use cameleon.Prelude.{ℕ, zero, suc, ◌≤◌, max, true, false, ◌≡◌, ◌≢◌, refl, ◌↔◌, arith, inl, inr}
use cameleon.Prelude.{some, Bool-cases, Option-cases}
use mathlib.Core.Path.{subst, sym, ◌∙◌}
use cameleon.Result.{Result, ok, err, ◌>>=◌, >>=-eq-ok}
use cameleon.GenApi.{GenApiError}
use cameleon.GenApi.Formula.{Expr, bin_op, un_op, if_else, Name, BinOpKind, UnOpKind}
use cameleon.GenApi.Formula.{EvaluationResult, Floats, from_bool, as_bool}
use cameleon.GenApi.Formula.Eval.{Env, apply_binop, apply_unop, eval_binop, eval}

ok_inj : {A : Type 0} {x y : A} → ◌≡◌ {A = Result GenApiError A} (ok x) (ok y) → x ≡ y
ok_inj p = cc

err-ne-ok : {A : Type 0} {x : A} {e : GenApiError} → ◌≢◌ {A = Result GenApiError A} (err e) (ok x)
err-ne-ok p = cc

-- More than `n` of fuel is a successor.
spend : {n : ℕ} (P : ℕ → Type 0) → ((f : ℕ) → n ≤ f → P (suc f)) → (f : ℕ) → suc n ≤ f → P f
spend P k zero h = absurd (omega arith)
spend P k (suc f) h = k f (omega arith)

module _ {F : Type 0} ⦃O : Floats F⦄ where
  -- The right operand of `&&` and `||` has to have a value only where the left one does not decide.
  pub data Evaluates (env : Env F) : Expr F → EvaluationResult F → Type 0 where
    integer : (i : ℕ) → Evaluates env (Expr.integer i) (EvaluationResult.integer i)
    float : (f : F) → Evaluates env (Expr.float f) (EvaluationResult.float f)
    ident :
        {s : Name} {e : Expr F} {r : EvaluationResult F}
        → env s ≡ some e
        → Evaluates env e r
        → Evaluates env (Expr.ident s) r
    if_true :
        {c t e : Expr F} {v r : EvaluationResult F}
        → Evaluates env c v
        → as_bool v ≡ true
        → Evaluates env t r
        → Evaluates env (if_else c t e) r
    if_false :
        {c t e : Expr F} {v r : EvaluationResult F}
        → Evaluates env c v
        → as_bool v ≡ false
        → Evaluates env e r
        → Evaluates env (if_else c t e) r
    unary :
        {op : UnOpKind} {e : Expr F} {v r : EvaluationResult F}
        → Evaluates env e v
        → apply_unop op v ≡ ok r
        → Evaluates env (un_op op e) r
    and_false :
        {a b : Expr F} {v : EvaluationResult F}
        → Evaluates env a v
        → as_bool v ≡ false
        → Evaluates env (bin_op BinOpKind.and a b) (from_bool false)
    and_true :
        {a b : Expr F} {v w : EvaluationResult F}
        → Evaluates env a v
        → as_bool v ≡ true
        → Evaluates env b w
        → Evaluates env (bin_op BinOpKind.and a b) (from_bool (as_bool w))
    or_true :
        {a b : Expr F} {v : EvaluationResult F}
        → Evaluates env a v
        → as_bool v ≡ true
        → Evaluates env (bin_op BinOpKind.or a b) (from_bool true)
    or_false :
        {a b : Expr F} {v w : EvaluationResult F}
        → Evaluates env a v
        → as_bool v ≡ false
        → Evaluates env b w
        → Evaluates env (bin_op BinOpKind.or a b) (from_bool (as_bool w))
    strict :
        {op : BinOpKind} {a b : Expr F} {v w r : EvaluationResult F}
        → Evaluates env a v
        → Evaluates env b w
        → apply_binop op v w ≡ ok r
        → Evaluates env (bin_op op a b) r

  module _ (env : Env F) where
    Sound : (Expr F → Result GenApiError (EvaluationResult F)) → Type 0
    Sound rec = (e : Expr F) (r : EvaluationResult F) → rec e ≡ ok r → Evaluates env e r

    strict-Sound :
        (rec : Expr F → Result GenApiError (EvaluationResult F)) (op : BinOpKind) (a b : Expr F)
        (r : EvaluationResult F)
        → Sound rec
        → (do v ← rec a; w ← rec b; apply_binop op v w) ≡ ok r
        → Evaluates env (bin_op op a b) r
    unfolding Sound
    strict-Sound rec op a b r s h =
        let (v, hv, rest) = >>=-eq-ok (rec a) _ h in
        let (w, hw, last) = >>=-eq-ok (rec b) _ rest in strict (s a v hv) (s b w hw) last

    eval_binop-Sound :
        (rec : Expr F → Result GenApiError (EvaluationResult F)) (op : BinOpKind) (a b : Expr F)
        (r : EvaluationResult F)
        → Sound rec
        → eval_binop rec op a b ≡ ok r
        → Evaluates env (bin_op op a b) r
    unfolding eval_binop Sound
    eval_binop-Sound rec BinOpKind.and a b r s h =
        let (v, hv, rest) = >>=-eq-ok (rec a) _ h in
        elim (Bool-cases (as_bool v)) [
          | inl yes_left ↦
              let (w, hw, last) = >>=-eq-ok (rec b) _ (rw yes_left at rest) in
              subst (Evaluates env (bin_op BinOpKind.and a b)) (ok_inj last)
                (and_true (s a v hv) yes_left (s b w hw))
          | inr no_left ↦
              subst (Evaluates env (bin_op BinOpKind.and a b)) (ok_inj (rw no_left at rest))
                (and_false (s a v hv) no_left)
        ]
    eval_binop-Sound rec BinOpKind.or a b r s h =
        let (v, hv, rest) = >>=-eq-ok (rec a) _ h in
        elim (Bool-cases (as_bool v)) [
          | inl yes_left ↦
              subst (Evaluates env (bin_op BinOpKind.or a b)) (ok_inj (rw yes_left at rest))
                (or_true (s a v hv) yes_left)
          | inr no_left ↦
              let (w, hw, last) = >>=-eq-ok (rec b) _ (rw no_left at rest) in
              subst (Evaluates env (bin_op BinOpKind.or a b)) (ok_inj last)
                (or_false (s a v hv) no_left (s b w hw))
        ]
    eval_binop-Sound rec BinOpKind.add a b r s h = strict-Sound rec _ a b r s h
    eval_binop-Sound rec op a b r s h = strict-Sound rec _ a b r s h

    eval-Sound : (fuel : ℕ) → Sound (eval fuel env)
    unfolding eval Sound
    eval-Sound zero e r h = cc
    eval-Sound (suc n) (bin_op op a b) r h = eval_binop-Sound (eval n env) op a b r (eval-Sound n) h
    eval-Sound (suc n) (un_op op e) r h =
        let (v, hv, last) = >>=-eq-ok (eval n env e) _ h in unary (eval-Sound n e v hv) last
    eval-Sound (suc n) (if_else c t e) r h =
        let (v, hv, rest) = >>=-eq-ok (eval n env c) _ h in
        elim (Bool-cases (as_bool v)) [
          | inl yes_test ↦
              if_true (eval-Sound n c v hv) yes_test (eval-Sound n t r (rw yes_test at rest))
          | inr no_test ↦
              if_false (eval-Sound n c v hv) no_test (eval-Sound n e r (rw no_test at rest))
        ]
    eval-Sound (suc n) (Expr.integer i) r h =
        subst (Evaluates env (Expr.integer i)) (ok_inj h) (integer i)
    eval-Sound (suc n) (Expr.float f) r h =
        subst (Evaluates env (Expr.float f)) (ok_inj h) (float f)
    eval-Sound (suc n) (Expr.ident s) r h = elim (Option-cases (env s)) [
      | inl missing ↦ absurd (err-ne-ok (rw (missing, eval) at h))
      | inr (e, found) ↦ ident found (eval-Sound n e r (rw (found, eval) at h))
    ]

    eval_strict :
        (rec : Expr F → Result GenApiError (EvaluationResult F)) (op : BinOpKind) (a b : Expr F)
        (v w r : EvaluationResult F)
        → rec a ≡ ok v
        → rec b ≡ ok w
        → apply_binop op v w ≡ ok r
        → eval_binop rec op a b ≡ ok r
    unfolding eval_binop apply_binop
    eval_strict rec BinOpKind.and a b v w r hv hw last = cc
    eval_strict rec BinOpKind.or a b v w r hv hw last = cc
    eval_strict rec BinOpKind.add a b v w r hv hw last = rw (hv, hw) last
    eval_strict rec op a b v w r hv hw last = rw (hv, hw) last

    -- With `n` of fuel or more the value is `r`.
    abbrev Total : Expr F → EvaluationResult F → ℕ → Type 0
    Total e r n = (fuel : ℕ) → n ≤ fuel → eval fuel env e ≡ ok r

    IsTotal : Expr F → EvaluationResult F → Type 0
    IsTotal e r = (n : ℕ) × Total e r n

    eval-IsTotal : (e : Expr F) (r : EvaluationResult F) → Evaluates env e r → IsTotal e r
    unfolding eval eval_binop apply_binop IsTotal
    eval-IsTotal _ _ (integer i) = (1, spend _ λ f h. refl)
    eval-IsTotal _ _ (float x) = (1, spend _ λ f h. refl)
    eval-IsTotal _ _ (ident {s} {e} {r} found d) =
        let (n, k) = eval-IsTotal e r d in (suc n, spend _ λ f h. rw (found, eval) (k f h))
    eval-IsTotal _ _ (if_true {c} {t} {e} {v} {r} dc yes_test dt) =
        let (n, k) = eval-IsTotal c v dc in
        let (m, l) = eval-IsTotal t r dt in
        (suc (max n m), spend _ λ f h. simp (k f (omega arith), yes_test, l f (omega arith)))
    eval-IsTotal _ _ (if_false {c} {t} {e} {v} {r} dc no_test de) =
        let (n, k) = eval-IsTotal c v dc in
        let (m, l) = eval-IsTotal e r de in
        (suc (max n m), spend _ λ f h. simp (k f (omega arith), no_test, l f (omega arith)))
    eval-IsTotal _ _ (unary {op} {e} {v} d last) =
        let (n, k) = eval-IsTotal e v d in (suc n, spend _ λ f h. rw (k f h) last)
    eval-IsTotal _ _ (and_false {a} {b} {v} da no_left) =
        let (n, k) = eval-IsTotal a v da in (suc n, spend _ λ f h. simp (k f h, no_left))
    eval-IsTotal _ _ (and_true {a} {b} {v} {w} da yes_left db) =
        let (n, k) = eval-IsTotal a v da in
        let (m, l) = eval-IsTotal b w db in
        (suc (max n m), spend _ λ f h. simp (k f (omega arith), yes_left, l f (omega arith)))
    eval-IsTotal _ _ (or_true {a} {b} {v} da yes_left) =
        let (n, k) = eval-IsTotal a v da in (suc n, spend _ λ f h. simp (k f h, yes_left))
    eval-IsTotal _ _ (or_false {a} {b} {v} {w} da no_left db) =
        let (n, k) = eval-IsTotal a v da in
        let (m, l) = eval-IsTotal b w db in
        (suc (max n m), spend _ λ f h. simp (k f (omega arith), no_left, l f (omega arith)))
    eval-IsTotal _ _ (strict {op} {a} {b} {v} {w} {r} da db last) =
        let (n, k) = eval-IsTotal a v da in
        let (m, l) = eval-IsTotal b w db in
        (
          suc (max n m),
          spend _ λ f h.
              eval_strict (eval f env) op a b v w r (k f (omega arith)) (l f (omega arith)) last,
        )

    -- An expression has a value by the rules exactly when `eval` returns that value with some fuel.
    -- By the rules the right operand of `&&` and `||` needs a value only where the left one does not
    -- decide, and an `If` only that of the branch taken.
    pub eval-Evaluates_iff :
        (e : Expr F) (r : EvaluationResult F)
        → ((fuel : ℕ) × (eval fuel env e ≡ ok r)) ↔ Evaluates env e r
    unfolding Sound IsTotal
    eval-Evaluates_iff e r = (
      λ (fuel, h). eval-Sound fuel e r h,
      λ d. let (n, k) = eval-IsTotal e r d in (n, k n (omega arith)),
    )

    -- A value does not depend on the fuel: two runs that return a value return the same.
    pub eval_unique :
        (e : Expr F) (r s : EvaluationResult F) (m n : ℕ)
        → eval m env e ≡ ok r
        → eval n env e ≡ ok s
        → r ≡ s
    unfolding Sound IsTotal
    eval_unique e r s m n h k =
        let (i, p) = eval-IsTotal e r (eval-Sound m e r h) in
        let (j, q) = eval-IsTotal e s (eval-Sound n e s k) in
        ok_inj (sym (p (max i j) (omega arith)) ∙ q (max i j) (omega arith))
