-- ===== src/Core/Frame/Laws.antt =====
-- core/frame.c: variables are linear.
use inet_lisp.Base.{ℕ, ◌≡◌, refl, false, ◌==◌, if◌then◌else◌, ok, arith}
use inet_lisp.Std.Array.{Array, array_get, array_set}
use inet_lisp.Std.Array.Laws
use inet_lisp.Std.Array.Laws.{array_set_lem}
use inet_lisp.Net.Heap.{Value, null, is_null}
use inet_lisp.Core.Frame.{Frame, frame_get_variable, frame_set_variable}

-- what a slot of a frame holds
abbrev pub variable : Frame → ℕ → Value
variable f i = array_get null f.variable_array i

-- `f'` is `f` with the value in one slot, its cursor and function unchanged.
pub record Stored (f f' : Frame) (i : ℕ) (v : Value) : Type 0 where
  pub valid : Laws.IsValid f'.variable_array
  pub cursor : f'.cursor ≡ f.cursor
  pub function : f'.function ≡ f.function
  pub slots : (j : ℕ) → variable f' j ≡ (if i == j then v else variable f j)

pub slot-Stored :
    (f : Frame) (i : ℕ)
    → Laws.IsValid f.variable_array
    → (v : Value)
    → (a : Array Value) × (array_set null f.variable_array i v ≡ ok a)
      × Stored f (record f { variable_array = a }) i v
slot-Stored f i valid v =
    let (a, e, w, c, r) = array_set_lem null f.variable_array i v valid in
    (a, e, record { valid = w; cursor = refl; function = refl; slots = r })

module _ (f : Frame) (i : ℕ) (valid : Laws.IsValid f.variable_array) where
  -- A variable that is set, at any index, is read back once: the read gives the value and empties
  -- the slot. Other slots are left alone by both.
  pub get-set_variable :
      (v : Value)
      → is_null v ≡ false
      → variable f i ≡ null
      → (f₁ f₂ : Frame) × (frame_set_variable f i v ≡ ok f₁)
        × Stored f f₁ i v
        × (frame_get_variable f₁ i ≡ ok (v, f₂))
        × Stored f₁ f₂ i null
  unfolding frame_set_variable frame_get_variable
  get-set_variable v n e =
      let (a, p, s) = slot-Stored f i valid v in
      let f₁ : Frame = record f { variable_array = a } in
      let (b, q, t) = slot-Stored f₁ i s.valid null in
      let found : variable f₁ i ≡ v = ground (arith, s.slots i) in
      (f₁, record f₁ { variable_array = b }, rw (e, p) refl, s, rw (found, n, q) refl, t)
