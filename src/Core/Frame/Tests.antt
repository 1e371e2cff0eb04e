-- ===== src/Core/Frame/Tests.antt =====
-- Runs of core/frame.c on a new frame.
use inet_lisp.Base.{
  Bool, true, false, leb, if◌then◌else◌, ℕ, zero, suc, List, [], ◌∷◌, none, some, replicate, get_or,
  ◌≡◌, refl, ok, arith,
}
use inet_lisp.Std.Array.{array_new_auto, array_new, array_get}
use inet_lisp.Std.Array.Laws.{IsValid, array_new-IsValid}
use inet_lisp.Net.Heap.{Value, null, word}
use inet_lisp.Core.Frame.{Frame, frame_new, frame_get_variable, frame_set_variable}
use inet_lisp.Core.Frame.Linear.{
  Access, get, set, run_accesses, linear, or_exited, Holds, run_accesses-linear,
}
use inet_lisp.Core.Frame.Laws.{variable, Stored, get-set_variable}

frame_new-IsValid : IsValid (frame_new 0).variable_array
unfolding frame_new array_new_auto
frame_new-IsValid = array_new-IsValid null 64 (omega arith)

variable_unset : variable (frame_new 0) 100 ≡ null
unfolding frame_new array_new_auto array_new array_get
variable_unset = refl

-- a slot past the 64 that a new frame has
get-set_variable_example :
    (f₁ f₂ : Frame) × (frame_set_variable (frame_new 0) 100 (word 7) ≡ ok f₁)
    × Stored (frame_new 0) f₁ 100 (word 7)
    × (frame_get_variable f₁ 100 ≡ ok (word 7, f₂))
    × Stored f₁ f₂ 100 null
get-set_variable_example =
    get-set_variable (frame_new 0) 100 frame_new-IsValid (word 7) refl variable_unset

get_or-replicate : (n i : ℕ) → get_or (replicate n null) i null ≡ null
get_or-replicate zero i = refl
get_or-replicate (suc n) zero = refl
get_or-replicate (suc n) (suc i) = get_or-replicate n i

null_either_way : (b : Bool) {v : Value} → v ≡ null → (if b then null else v) ≡ null
null_either_way true e = refl
null_either_way false e = e

frame_new-Holds : Holds (frame_new 0) (λ i. none)
unfolding frame_new array_new_auto array_new array_get
frame_new-Holds = record {
  valid = frame_new-IsValid;
  slots = λ i. null_either_way (leb 64 i) (get_or-replicate 64 i);
}

-- written, read, written again over the empty slot, read, and read once more
abbrev accesses : List Access
accesses = set 100 (word 7) ∷ get 100 ∷ set 100 (word 8) ∷ get 100 ∷ get 100 ∷ []

run_accesses-linear_example :
    run_accesses accesses (frame_new 0) ≡ or_exited (linear accesses (λ i. none))
run_accesses-linear_example =
    run_accesses-linear accesses (refl, (refl, tt)) (frame_new 0) (λ i. none) frame_new-Holds

linear_stops : linear accesses (λ i. none) ≡ none
unfolding linear
linear_stops = refl

-- Without the last read there are two values.
linear_reads :
    linear (set 100 (word 7) ∷ get 100 ∷ set 3 (word 8) ∷ get 3 ∷ []) (λ i. none)
    ≡ some (word 7 ∷ word 8 ∷ [])
unfolding linear
linear_reads = refl
