-- ===== src/Core/Connect/Union.antt =====
-- core/connect.c, `fuze` on a wire that is not fuzed: what walks see of it.
use mathlib.Core.Bool.{false≢true}
use inet_lisp.Base.{
  ok_injective, ℕ, suc, ◌+◌, ◌≡◌, ◌≢◌, refl, false, none, ok, arith, ap, subst, sym, ◌∙◌,
}
use inet_lisp.Net.Heap.{Value, null, wire, is_null, Heap, load_fuzed, store_fuzed}
use inet_lisp.Net.Heap.Laws.{load_fuzed-store_fuzed}
use inet_lisp.Net.Wire.Walks.{Walks, non_wire, unfuzed, fuzed}
use inet_lisp.Core.Mod.{Mod}
use inet_lisp.Core.Connect.{connect}

-- the address of a wire
abbrev pub address : Value → ℕ
address (wire w) = w
address _ = 0

Walks-rounds : {h : Heap} {n k : ℕ} {u r : Value} → n ≡ k → Walks h n u r → Walks h k u r
Walks-rounds {h} {u} {r} e l = subst (λ i. Walks h i u r) e l

module _ (h : Heap) (w : ℕ) (v : Value) (free : load_fuzed h w ≡ ok null) where
  pub load_other : (j : ℕ) → w ≢ j → load_fuzed (store_fuzed h w v) j ≡ load_fuzed h j
  load_other j ne = ground (arith, load_fuzed-store_fuzed h w j v free)

  pub load_self : load_fuzed (store_fuzed h w v) w ≡ ok v
  load_self = ground (arith, load_fuzed-store_fuzed h w w v free)

  -- A fuzed wire is another.
  not_free : (j : ℕ) (u : Value) → load_fuzed h j ≡ ok u → is_null u ≡ false → w ≢ j
  not_free j u e p q =
      false≢true (sym p ∙ ap is_null (ok_injective (sym e ∙ (ap (load_fuzed h) (sym q) ∙ free))))

  -- A walk that ends elsewhere is not changed.
  keep_walk : {k : ℕ} {u t : Value} → Walks h k u t → t ≢ wire w → Walks (store_fuzed h w v) k u t
  keep_walk (non_wire u e) ne = non_wire u e
  keep_walk (unfuzed j e) ne = unfuzed j (load_other j (λ p. ne (ap wire (sym p))) ∙ e)
  keep_walk (fuzed j u e p k) ne =
      fuzed j u (load_other j (λ q. not_free j u e p q) ∙ e) p (keep_walk k ne)

  -- A walk that ended at the wire goes on along the value.
  extend_walk :
      {k n : ℕ} {u t r : Value}
      → Walks h k u t
      → t ≡ wire w
      → is_null v ≡ false
      → Walks (store_fuzed h w v) n v r
      → Walks (store_fuzed h w v) (k + n) u r
  extend_walk (non_wire u e) q p l = cc
  extend_walk (unfuzed j e) q p l =
      let j_eq : w ≡ j = sym (ap address q) in
      Walks-rounds (omega arith)
        (fuzed j v (subst (λ i. load_fuzed (store_fuzed h w v) i ≡ ok v) j_eq load_self) p l)
  extend_walk (fuzed j u e o k) q p l =
      Walks-rounds (omega arith)
        (fuzed j u (load_other j (λ s. not_free j u e o s) ∙ e) o (extend_walk k q p l))

module _ (m : Mod) (f : ℕ) (h : Heap) (w : ℕ) (v : Value) (free : load_fuzed h w ≡ ok null)
    (nonnull : is_null v ≡ false) where
  pub connect-free : connect (suc f) m (wire w) v h ≡ ok (none, store_fuzed h w v)
  unfolding connect
  connect-free = rw free refl

  -- Connecting a free wire, on the left, to a value that is not null and whose walk ends at r,
  -- which is not that wire, merges the two: every walk that ended at the wire now ends at r, and
  -- every other walk ends where it did. No task arises.
  pub connect_merges :
      {n : ℕ} {r : Value}
      → Walks h n v r
      → r ≢ wire w
      → (h' : Heap) × (connect (suc f) m (wire w) v h ≡ ok (none, h'))
        × ((k : ℕ) (u : Value) → Walks h k u (wire w) → Walks h' (k + n) u r)
        × ((k : ℕ) (u t : Value) → Walks h k u t → t ≢ wire w → Walks h' k u t)
  connect_merges l ne = (
    store_fuzed h w v,
    connect-free,
    λ k u a. extend_walk h w v free a refl nonnull (keep_walk h w v free l ne),
    λ k u t a d. keep_walk h w v free a d,
  )
