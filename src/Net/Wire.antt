-- ===== src/Net/Wire.antt =====
-- net/wire.c: walking along fuzed wires.
pub mod Walks
use inet_lisp.Base.{
  ℕ, zero, suc, ◌+◌, Bool, true, false, ◌&&◌, ◌||◌, ◌==◌, if◌then◌else◌, Option, none, some, Result,
  ok, err, out_of_fuel, ◌>>=◌,
}
use inet_lisp.Net.Heap.{
  Value, null, wire, principal_wire, is_null, is_wire, Heap, load_fuzed, wire_destroy,
  load_principal,
}

-- The fuel counts the rounds of the `while` loop. `Walks` says when the loop ends.
unfoldable pub walk : ℕ → Heap → Value → Result Value
walk zero h value = err out_of_fuel
walk (suc fuel) h (wire w) = do
  fuzed_value ← load_fuzed h w
  let rest = walk fuel h fuzed_value
  if is_null fuzed_value then ok (wire w) else rest
walk (suc fuel) h value = ok value

-- `defuze` frees each wire that it passes.
unfoldable pub defuze : ℕ → Heap → Value → Result (Value × Heap)
defuze zero h value = err out_of_fuel
defuze (suc fuel) h (wire w) = do
  fuzed_value ← load_fuzed h w
  let rest = defuze fuel (wire_destroy h w) fuzed_value
  if is_null fuzed_value then ok (wire w, h) else rest
defuze (suc fuel) h value = ok (value, h)

-- both are wires, at one address
abbrev pub same_wire : Value → Value → Bool
same_wire (wire x) (wire y) = x == y
same_wire _ _ = false

unfoldable pub is_fuzed : ℕ → Heap → Value → Value → Result Bool
unfolding walk
is_fuzed fuel h x y = do x' ← walk fuel h x; y' ← walk fuel h y; ok (same_wire x' y')

-- `as_principal_wire (x)->oppsite == y`
abbrev pub is_oppsite : Option ℕ → ℕ → Bool
is_oppsite none q = false
is_oppsite (some p) q = p == q

abbrev pub same_edge : Heap → Value → Value → Result Bool
same_edge h (principal_wire p) (principal_wire q) = do
  left ← load_principal h p
  right ← load_principal h q
  ok (p == q || (is_oppsite left.oppsite q && is_oppsite right.oppsite p))
same_edge h x y = ok (same_wire x y)

unfoldable pub is_connected : ℕ → Heap → Value → Value → Result Bool
unfolding walk
is_connected fuel h x y = do x' ← walk fuel h x; y' ← walk fuel h y; same_edge h x' y'
