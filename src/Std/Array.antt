-- ===== src/Std/Array.antt =====
-- packages/std/array: the growable array of pointers, with a cursor that marks its length.
-- The slots hold values of a type with a null element, which is what calloc leaves there.
pub mod Laws
mod Tests
use inet_lisp.Base.{
  ℕ, ◌+◌, ◌-◌, ◌≡◌, List, ◌++◌, Bool, true, false, ltb, leb, ◌==◌, if◌then◌else◌, length, get_or,
  set, replicate, Result, ok, ◌>>=◌, ◌>>◌, check,
}

-- `array_t`, less the destroy function. `values` is the memory block, `size` slots long.
pub record Array {ℓ} (A : Type ℓ) : Type ℓ where
  pub size : ℕ
  pub grow_step : ℕ
  pub cursor : ℕ
  pub values : List A

-- `ARRAY_AUTO_SIZE`
abbrev pub auto_size : ℕ
auto_size = 64

module _ {ℓ} {A : Type ℓ} (null : A) where
  unfoldable pub array_new : ℕ → Array A
  array_new size = record {
    size = size;
    grow_step = size;
    cursor = 0;
    values = replicate size null;
  }

  unfoldable pub array_new_auto : Array A
  unfolding array_new
  array_new_auto = array_new auto_size

  -- Without a destroy function: the block is cleared.
  unfoldable pub array_purge : Array A → Array A
  array_purge self = record self { cursor = 0; values = replicate self.size null }

  unfoldable pub array_resize : Array A → ℕ → Result (Array A)
  array_resize self larger_size = do
    check (leb self.size larger_size)
    let grown = self.values ++ replicate (larger_size - self.size) null
    if larger_size == self.size
        then ok self
        else ok (record self { size = larger_size; values = grown })

  unfoldable pub array_get : Array A → ℕ → A
  array_get self index = if leb self.size index then null else get_or self.values index null

  unfoldable pub array_top : Array A → Result A
  array_top self = do check (ltb 0 self.cursor); ok (get_or self.values (self.cursor - 1) null)

  unfoldable pub array_pop : Array A → Result (A × Array A)
  array_pop self = do
    check (ltb 0 self.cursor)
    let cursor = self.cursor - 1
    let value = get_or self.values cursor null
    ok (value, record self { cursor = cursor; values = set self.values cursor null })

  unfoldable pub array_pick : Array A → ℕ → Result A
  unfolding array_get
  array_pick self back_index = do
    check (ltb back_index self.cursor)
    ok (array_get self (self.cursor - 1 - back_index))

  unfoldable pub array_push : Array A → A → Result (Array A)
  unfolding array_resize
  array_push self value = do
    grown ←
        if self.cursor == self.size then array_resize self (self.size + self.grow_step) else ok self
    ok (record grown { cursor = grown.cursor + 1; values = set grown.values grown.cursor value })

  unfoldable pub array_set : Array A → ℕ → A → Result (Array A)
  unfolding array_resize
  array_set self index value = do
    grown ← if leb self.size index then array_resize self (index + self.grow_step) else ok self
    let cursor = if leb grown.cursor index then index + 1 else grown.cursor
    ok (record grown { cursor = cursor; values = set grown.values index value })

module _ {ℓ} {A : Type ℓ} where
  unfoldable pub array_length : Array A → ℕ
  array_length self = self.cursor

  unfoldable pub array_is_empty : Array A → Bool
  array_is_empty self = self.cursor == 0

  unfoldable pub array_is_full : Array A → Bool
  array_is_full self = self.cursor == self.size
