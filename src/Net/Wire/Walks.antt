-- ===== src/Net/Wire/Walks.antt =====
-- Where a walk along fuzed wires ends.
use inet_lisp.Base.{
  >>=-eq-ok, Bool-cases, inl, inr, subst, ok_injective, ap, sym, ◌∙◌, ℕ, zero, suc, ◌+◌, ◌≤◌, ◌<◌,
  ◌≡◌, refl, true, false, ok, arith,
}
use inet_lisp.Net.Heap.{Value, wire, null, is_null, is_wire, Heap, load_fuzed}
use inet_lisp.Net.Wire.{walk}

-- A walk from the first value ends at the second, after that many rounds of the loop.
pub data Walks (h : Heap) : ℕ → Value → Value → Type 0 where
  non_wire : (v : Value) → is_wire v ≡ false → Walks h 1 v v
  unfuzed : (w : ℕ) → load_fuzed h w ≡ ok null → Walks h 1 (wire w) (wire w)
  fuzed :
      {n : ℕ} {r : Value} (w : ℕ) (u : Value)
      → load_fuzed h w ≡ ok u
      → is_null u ≡ false
      → Walks h n u r
      → Walks h (suc n) (wire w) r

null_of_is_null : (v : Value) → is_null v ≡ true → v ≡ null
null_of_is_null null e = refl
null_of_is_null _ e = cc

walk-non_wire : (f : ℕ) (h : Heap) (v : Value) → is_wire v ≡ false → walk (suc f) h v ≡ ok v
unfolding walk
walk-non_wire f h (wire w) e = cc
walk-non_wire f h _ e = refl

-- A walk takes at least one round.
Walks-pos : {h : Heap} {n : ℕ} {v r : Value} → Walks h n v r → 0 < n
Walks-pos (non_wire v e) = omega arith
Walks-pos (unfuzed w e) = omega arith
Walks-pos (fuzed w u e p k) = omega arith

-- With fuel for its rounds, `walk` returns where the walk ends.
pub walk-Walks :
    {h : Heap} {n : ℕ} {v r : Value} → Walks h n v r → (f : ℕ) → n ≤ f → walk f h v ≡ ok r
unfolding walk
walk-Walks w zero l = absurd (omega (arith, Walks-pos w))
walk-Walks (non_wire v e) (suc f) l = walk-non_wire f _ v e
walk-Walks (unfuzed w e) (suc f) l = rw e refl
walk-Walks (fuzed w u e p k) (suc f) l = rw (e, p) (walk-Walks k f (omega arith))

-- What `walk` returns is where the walk ends, within the fuel.
pub Walks-walk :
    (h : Heap) (f : ℕ) (v : Value) {r : Value}
    → walk f h v ≡ ok r
    → (n : ℕ) × (n ≤ f) × Walks h n v r
unfolding walk
Walks-walk h zero v e = cc
Walks-walk h (suc f) (wire w) {r} e =
    let (u, p, q) = >>=-eq-ok (load_fuzed h w) _ e in
    elim (Bool-cases (is_null u)) [
      | inl stop ↦ (
        1,
        omega arith,
        subst (Walks h 1 (wire w)) (ok_injective (rw stop at q))
            (unfuzed w (p ∙ ap ok (null_of_is_null u stop))),
      )
      | inr more ↦
          let (n, l, k) = Walks-walk h f u (rw more at q) in
          (suc n, omega arith, fuzed w u p more k)
    ]
Walks-walk h (suc f) _ e = (1, omega arith, subst (Walks h 1 _) (ok_injective e) (non_wire _ refl))

-- No walk has two ends.
pub Walks-unique : {h : Heap} {n m : ℕ} {v r s : Value} → Walks h n v r → Walks h m v s → r ≡ s
Walks-unique {n} {m} k l =
    ok_injective (sym (walk-Walks k (n + m) (omega arith)) ∙ walk-Walks l (n + m) (omega arith))
