-- ===== src/Memory/Raw/Observers.antt =====
-- Which observers a write notifies.
use cameleon.Prelude.{ℕ, ◌<◌, ◌≤◌, List, [], ◌∷◌, true, false, arith, All, max}
use cameleon.Prelude.{◌≡◌, ◌↔◌, ◌⊎◌, inl, inr, Bool-cases}
use cameleon.Memory.Raw.{MemoryRange, is_apart, notify_all}

-- The two ranges have an address in common.
abbrev pub Shares : MemoryRange → MemoryRange → Type 0
Shares w r = (a : ℕ) × (w.start ≤ a) × (a < w.end) × (r.start ≤ a) × (a < r.end)

abbrev pub Occurs : ℕ → List ℕ → Type 0
Occurs o [] = ⊥
Occurs o (x ∷ xs) = (o ≡ x) ⊎ Occurs o xs

-- The observer is registered for a range that shares an address with `w`.
abbrev pub Touched : ℕ → MemoryRange → List (MemoryRange × ℕ) → Type 0
Touched o w [] = ⊥
Touched o w ((r, x) ∷ rest) = ((o ≡ x) × Shares w r) ⊎ Touched o w rest

abbrev pub IsNotEmpty : MemoryRange × ℕ → Type 0
IsNotEmpty (r, o) = r.start < r.end

apart→not : (w r : MemoryRange) → is_apart w r ≡ true → ¬ Shares w r
unfolding is_apart
apart→not w r h (a, p, q, s, t) = ground arith

shares : (w r : MemoryRange) → w.start < w.end → r.start < r.end → is_apart w r ≡ false → Shares w r
unfolding is_apart
shares w r hw hr h = (max w.start r.start, omega arith, ground arith, omega arith, ground arith)

module _ (o : ℕ) (w : MemoryRange) (hw : w.start < w.end) where
  notified→touched :
      (obs : List (MemoryRange × ℕ))
      → All IsNotEmpty obs
      → Occurs o (notify_all obs w)
      → Touched o w obs
  unfolding notify_all
  notified→touched [] h m = m
  notified→touched ((r, x) ∷ rest) h m = elim (Bool-cases (is_apart w r)) [
    | inl apart ↦ inr (notified→touched rest h.1 (rw apart at m))
    | inr near ↦
        let m' : Occurs o (x ∷ notify_all rest w) = rw near at m in
        elim m' [
          | inl e ↦ inl (e, shares w r hw h.0 near)
          | inr later ↦ inr (notified→touched rest h.1 later)
        ]
  ]

  touched→notified : (obs : List (MemoryRange × ℕ)) → Touched o w obs → Occurs o (notify_all obs w)
  unfolding notify_all
  touched→notified [] t = t
  touched→notified ((r, x) ∷ rest) (inl (e, s)) = elim (Bool-cases (is_apart w r)) [
    | inl apart ↦ absurd (apart→not w r apart s)
    | inr near ↦ rw near (inl e)
  ]
  touched→notified ((r, x) ∷ rest) (inr t) = elim (Bool-cases (is_apart w r)) [
    | inl apart ↦ rw apart (touched→notified rest t)
    | inr near ↦ rw near (inr (touched→notified rest t))
  ]

-- For a written range and registered ranges that are not empty: an observer is notified exactly when
-- it is registered for a range that shares an address with what was written.
pub notify_all_iff :
    (o : ℕ) (w : MemoryRange) (observers : List (MemoryRange × ℕ))
    → w.start < w.end
    → All IsNotEmpty observers
    → Occurs o (notify_all observers w) ↔ Touched o w observers
notify_all_iff o w observers hw h =
    (notified→touched o w hw observers h, touched→notified o w hw observers)
