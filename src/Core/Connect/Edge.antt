-- ===== src/Core/Connect/Edge.antt =====
-- core/connect.c: a wire joins the two values that its ends are connected to.
use inet_lisp.Base.{ℕ, suc, ◌≡◌, refl, false, ok, ◌>>=◌, ◌∙◌}
use inet_lisp.Net.Heap.{
  Value, null, wire, is_null, is_wire, Heap, load_fuzed, store_fuzed, wire_destroy,
}
use inet_lisp.Net.Heap.Laws.{wire_destroy-store_fuzed}
use inet_lisp.Core.Mod.{Mod}
use inet_lisp.Core.Connect.{connect}
use inet_lisp.Core.Connect.Union.{load_self, connect-free}

-- A wire is taken from the right when the left side is none.
connect-wire_right :
    (m : Mod) (f w : ℕ) (v : Value) (h : Heap)
    → is_wire v ≡ false
    → connect (suc f) m v (wire w) h ≡ connect (suc f) m (wire w) v h
unfolding connect
connect-wire_right m f w (wire j) h e = cc
connect-wire_right m f w _ h e = refl

module _ (m : Mod) (f : ℕ) (h : Heap) (w : ℕ) (x y : Value) (free : load_fuzed h w ≡ ok null)
    (nonnull : is_null x ≡ false) where
  -- The second end, on the left.
  connect-second :
      connect (suc f) m (wire w) y (store_fuzed h w x) ≡ connect f m x y (wire_destroy h w)
  unfolding connect
  connect-second = rw (load_self h w x free, nonnull, wire_destroy-store_fuzed) refl

  -- Connecting one end of a free wire to x, which is not null, and then the other to y, with the
  -- wire on the left both times, frees the wire, and does to the rest exactly what connecting x to
  -- y does.
  pub connect_both_ends :
      (connect (suc f) m (wire w) x h >>= λ a. connect (suc f) m (wire w) y a.1)
      ≡ connect f m x y (wire_destroy h w)
  connect_both_ends = rw (connect-free m f h w x free nonnull) connect-second

  -- Connecting a free wire, on the left, to x, which is not null, and then y, which is no wire, to
  -- the free wire, on the right, does what connecting x to y does after the wire is freed.
  pub connect_both_ends_right :
      is_wire y ≡ false
      → (connect (suc f) m (wire w) x h >>= λ a. connect (suc f) m y (wire w) a.1)
        ≡ connect f m x y (wire_destroy h w)
  connect_both_ends_right e =
      rw (connect-free m f h w x free nonnull) (connect-wire_right m f w y _ e ∙ connect-second)
