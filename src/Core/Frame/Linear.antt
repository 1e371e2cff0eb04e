-- ===== src/Core/Frame/Linear.antt =====
-- core/frame.c: a frame's variables over any sequence of reads and writes.
use inet_lisp.Base.{
  ℕ, List, [], ◌∷◌, Bool, true, false, ◌==◌, if◌then◌else◌, Option, none, some, Result, ok, err,
  exited, ◌>>=◌, ◌≡◌, refl, sym, subst,
}
use inet_lisp.Std.Array.Laws
use inet_lisp.Net.Heap.{Value, null, is_null}
use inet_lisp.Core.Frame.{Frame, frame_get_variable, frame_set_variable}
use inet_lisp.Core.Frame.Laws.{variable, Stored, slot-Stored}

-- What the opcodes ask of a frame.
pub data Access : Type 0 where
  get : ℕ → Access
  set : ℕ → Value → Access

-- The values that are read, until the process stops.
unfoldable pub run_accesses : List Access → Frame → Result (List Value)
unfolding frame_get_variable frame_set_variable
run_accesses [] f = ok []
run_accesses (get i ∷ accesses) f = do
  (value, next) ← frame_get_variable f i
  values ← run_accesses accesses next
  ok (value ∷ values)
run_accesses (set i value ∷ accesses) f = do
  next ← frame_set_variable f i value
  run_accesses accesses next

-- Variables without an array: a variable has a value or none.
abbrev pub update : (ℕ → Option Value) → ℕ → Option Value → ℕ → Option Value
update variables i o j = if i == j then o else variables j

abbrev pub with_value : Value → Option (List Value) → Option (List Value)
with_value value none = none
with_value value (some values) = some (value ∷ values)

-- A read takes the value out, and a write needs a variable without a value.
abbrev pub after_read : Option Value → Option (List Value) → Option (List Value)
after_read none rest = none
after_read (some value) rest = with_value value rest

abbrev pub after_write : Option Value → Option (List Value) → Option (List Value)
after_write none rest = rest
after_write (some old) rest = none

unfoldable pub linear : List Access → (ℕ → Option Value) → Option (List Value)
linear [] variables = some []
linear (get i ∷ accesses) variables =
    after_read (variables i) (linear accesses (update variables i none))
linear (set i value ∷ accesses) variables =
    after_write (variables i) (linear accesses (update variables i (some value)))

abbrev pub or_exited : Option (List Value) → Result (List Value)
or_exited none = err exited
or_exited (some values) = ok values

-- No value that is written is NULL.
abbrev pub NonNull : List Access → Type 0
NonNull [] = Unit {0}
NonNull (get i ∷ accesses) = NonNull accesses
NonNull (set i value ∷ accesses) = (is_null value ≡ false) × NonNull accesses

-- A slot holds the variable's value, and NULL for none.
abbrev pub Slot : Value → Option Value → Type 0
Slot v none = v ≡ null
Slot v (some value) = (v ≡ value) × (is_null value ≡ false)

pub record Holds (f : Frame) (variables : ℕ → Option Value) : Type 0 where
  pub valid : Laws.IsValid f.variable_array
  pub slots : (i : ℕ) → Slot (variable f i) (variables i)

update-Slot :
    (b : Bool) (v w : Value) (o p : Option Value)
    → Slot v o
    → Slot w p
    → Slot (if b then v else w) (if b then o else p)
update-Slot true v w o p s t = s
update-Slot false v w o p s t = t

Stored-Holds :
    (f f' : Frame) (i : ℕ) (v : Value) (o : Option Value) (variables : ℕ → Option Value)
    → Stored f f' i v
    → Slot v o
    → Holds f variables
    → Holds f' (update variables i o)
Stored-Holds f f' i v o variables s t h = record {
  valid = s.valid;
  slots = λ j.
      subst (λ x. Slot x (update variables i o j)) (sym (s.slots j))
        (update-Slot (i == j) v (variable f j) o (variables j) t (h.slots j));
}

module _ (f : Frame) (i : ℕ) (variables : ℕ → Option Value) where
  abbrev Gets : Option Value → Type 0
  Gets none = frame_get_variable f i ≡ err exited
  Gets (some v) =
      (f' : Frame) × (frame_get_variable f i ≡ ok (v, f')) × Holds f' (update variables i none)

  gets : Holds f variables → (o : Option Value) → variables i ≡ o → Gets o
  unfolding frame_get_variable
  gets h none e = rw (subst (Slot (variable f i)) e (h.slots i))
  gets h (some v) e =
      let (found, filled) = subst (Slot (variable f i)) e (h.slots i) in
      let (a, q, t) = slot-Stored f i h.valid null in
      let f' : Frame = record f { variable_array = a } in
      (f', rw (found, filled, q) refl, Stored-Holds f f' i null none variables t refl h)

  abbrev Sets : Value → Option Value → Type 0
  Sets v none =
      (f' : Frame) × (frame_set_variable f i v ≡ ok f') × Holds f' (update variables i (some v))
  Sets v (some old) = frame_set_variable f i v ≡ err exited

  sets :
      Holds f variables
      → (v : Value) → is_null v ≡ false
      → (o : Option Value) → variables i ≡ o
      → Sets v o
  unfolding frame_set_variable
  sets h v n none e =
      let (a, q, t) = slot-Stored f i h.valid v in
      let f' : Frame = record f { variable_array = a } in
      (
        f',
        rw (subst (Slot (variable f i)) e (h.slots i), q) refl,
        Stored-Holds f f' i v (some v) variables t (refl, n) h,
      )
  sets h v n (some old) e =
      let (found, filled) = subst (Slot (variable f i)) e (h.slots i) in rw (found, filled)

more_values :
    (value : Value) (rest : Option (List Value))
    → (or_exited rest >>= (λ values. ok (value ∷ values))) ≡ or_exited (with_value value rest)
more_values value none = refl
more_values value (some values) = refl

-- One access, given what the later ones do.
module _ (accesses : List Access) where
  abbrev Refines : Type 0
  Refines =
      (f : Frame) (variables : ℕ → Option Value)
      → Holds f variables
      → run_accesses accesses f ≡ or_exited (linear accesses variables)

  get_first :
      (i : ℕ) (f : Frame) (variables : ℕ → Option Value)
      → Refines
      → (o : Option Value) → Gets f i variables o
      → run_accesses (get i ∷ accesses) f
        ≡ or_exited (after_read o (linear accesses (update variables i none)))
  unfolding run_accesses
  get_first i f variables later none g = rw g
  get_first i f variables later (some v) (f', g, h) =
      rw (g, later f' (update variables i none) h)
        (more_values v (linear accesses (update variables i none)))

  set_first :
      (i : ℕ) (v : Value) (f : Frame) (variables : ℕ → Option Value)
      → Refines
      → (o : Option Value) → Sets f i variables v o
      → run_accesses (set i v ∷ accesses) f
        ≡ or_exited (after_write o (linear accesses (update variables i (some v))))
  unfolding run_accesses
  set_first i v f variables later none (f', g, h) = rw g (later f' (update variables i (some v)) h)
  set_first i v f variables later (some old) g = rw g

-- A frame whose array is well formed, over any sequence of reads and of writes of values that are not
-- NULL, gives what linear variables give: a value is read once, and only from where it was written
-- last; a read of a variable without a value, and a write of one with a value, end the process.
pub run_accesses-linear :
    (accesses : List Access)
    → NonNull accesses
    → (f : Frame) (variables : ℕ → Option Value) → Holds f variables
    → run_accesses accesses f ≡ or_exited (linear accesses variables)
unfolding run_accesses linear
run_accesses-linear [] n f variables h = refl
run_accesses-linear (get i ∷ accesses) n f variables h =
    get_first accesses i f variables (run_accesses-linear accesses n) (variables i)
      (gets f i variables h (variables i) refl)
run_accesses-linear (set i v ∷ accesses) n f variables h =
    set_first accesses i v f variables (run_accesses-linear accesses n.1) (variables i)
      (sets f i variables h v n.0 (variables i) refl)
