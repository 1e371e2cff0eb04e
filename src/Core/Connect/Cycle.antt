-- ===== src/Core/Connect/Cycle.antt =====
-- core/connect.c, `fuze` of a wire to itself, directly or along other wires.
use mathlib.Core.Bool.{false≢true}
use inet_lisp.Base.{
  ℕ, suc, ◌≡◌, ◌≢◌, refl, false, none, ok, ap, sym, ◌∙◌, subst, ok_injective, ℕ_discrete,
}
use inet_lisp.Net.Heap.{Value, null, wire, is_null, is_wire, Heap, load_fuzed, store_fuzed}
use inet_lisp.Net.Wire.{walk}
use inet_lisp.Net.Wire.Walks.{Walks, non_wire, unfuzed, fuzed, Walks-unique, Walks-walk}
use inet_lisp.Core.Mod.{Mod}
use inet_lisp.Core.Connect.{connect}
use inet_lisp.Core.Connect.Union.{address, load_self, load_other, connect-free}

-- The step that a walk takes at a fuzed wire.
Walks-next :
    {h : Heap} {n : ℕ} {v t : Value} (j : ℕ) (u : Value)
    → Walks h n v t
    → v ≡ wire j
    → load_fuzed h j ≡ ok u
    → is_null u ≡ false
    → (k : ℕ) × Walks h k u t
Walks-next j u (non_wire v e) q l p = absurd (false≢true (sym e ∙ ap is_wire q))
Walks-next {h} j u (unfuzed i e) q l p = absurd (
    false≢true
      (sym p ∙ ap is_null (ok_injective (sym l ∙ (ap (load_fuzed h) (sym (ap address q)) ∙ e)))))
Walks-next {h} {t} j u (fuzed {n = n} i u' e p' k) q l p = (
  n,
  subst (λ x. Walks h n x t) (ok_injective (sym e ∙ (ap (load_fuzed h) (ap address q) ∙ l))) k,
)

module _ (h : Heap) (w : ℕ) (v : Value) (free : load_fuzed h w ≡ ok null)
    (nonnull : is_null v ≡ false) {n₀ : ℕ} (loops : Walks h n₀ v (wire w)) where
  no_walk : {k n : ℕ} {u r : Value} → Walks (store_fuzed h w v) k u r → Walks h n u (wire w) → ⊥
  no_walk (non_wire u e) a = false≢true (sym e ∙ ap is_wire (Walks-unique (non_wire u e) a))
  no_walk (unfuzed j e) a = elim (ℕ_discrete w j) [
    | yes q ↦ false≢true (
        sym nonnull
        ∙ ap is_null (
            ok_injective
              (sym (load_self h w v free) ∙ (ap (load_fuzed (store_fuzed h w v)) q ∙ e))))
    | no q ↦ q (sym (ap address (Walks-unique (unfuzed j (sym (load_other h w v free j q) ∙ e)) a)))
  ]
  no_walk {k = suc k} (fuzed {r = r} j u e p l) a = elim (ℕ_discrete w j) [
    | yes q ↦ no_walk l (
        subst (λ x. Walks h n₀ x (wire w))
          (ok_injective (sym (load_self h w v free) ∙ (ap (load_fuzed (store_fuzed h w v)) q ∙ e)))
          loops)
    | no q ↦ no_walk l (Walks-next j u a refl (sym (load_other h w v free j q) ∙ e) p).1
  ]

  -- Connecting a free wire to a value whose walk ends at that same wire succeeds, and after it no
  -- walk from the wire ends: `walk` returns with no amount of fuel.
  pub connect_cycle :
      (m : Mod) (f : ℕ)
      → (h' : Heap) × (connect (suc f) m (wire w) v h ≡ ok (none, h'))
        × ((fuel : ℕ) (r : Value) → walk fuel h' (wire w) ≢ ok r)
  connect_cycle m f = (
    store_fuzed h w v,
    connect-free m f h w v free nonnull,
    λ fuel r e. no_walk (Walks-walk (store_fuzed h w v) fuel (wire w) e).2 (unfuzed w free),
  )
