-- ===== src/Std/Queue.antt =====
-- packages/std/queue/queue.c: a circular queue for one producer and one consumer. Cursors are words
-- of 64 bits that wrap. The loads and stores of the cursors are in the order of the source, for
-- calls that do not overlap.
pub mod Mask
pub mod Laws
pub mod Push
pub mod Pop
pub mod New
mod Tests
use Prim.Native.Nat.{bit_and}
use inet_lisp.Base.{
  ℕ, zero, suc, ◌+◌, ◌-◌, ◌%◌, ◌^◌, List, [], ◌∷◌, Bool, true, false, ltb, ◌&&◌, ◌==◌,
  if◌then◌else◌, get_or, set, replicate, Result, ok, ◌>>=◌, ◌>>◌, check,
}

-- `queue_t`, less the destroy function
pub record Queue {ℓ} (A : Type ℓ) : Type ℓ where
  pub size : ℕ
  pub mask : ℕ
  pub values : List A
  pub front_cursor : ℕ
  pub back_cursor : ℕ
  pub cached_front_cursor : ℕ
  pub cached_back_cursor : ℕ

-- the number of values of `size_t`
abbrev pub cursor_mod : ℕ
cursor_mod = 2 ^ 64

-- `back_cursor - front_cursor`, on `size_t`
abbrev pub distance : ℕ → ℕ → ℕ
distance back_cursor front_cursor = (back_cursor + cursor_mod - front_cursor) % cursor_mod

unfoldable pub is_power_of_two : ℕ → Bool
is_power_of_two n = ltb 0 n && (bit_and n (n - 1) == 0)

module _ {ℓ} {A : Type ℓ} where
  unfoldable pub queue_length : Queue A → ℕ
  queue_length self = distance self.back_cursor self.front_cursor

  unfoldable pub is_full : Queue A → ℕ → ℕ → Bool
  is_full self front_cursor back_cursor = distance back_cursor front_cursor == self.size

  unfoldable pub is_empty : Queue A → ℕ → ℕ → Bool
  is_empty self front_cursor back_cursor = back_cursor == front_cursor

  unfoldable pub queue_is_full : Queue A → Bool
  unfolding is_full
  queue_is_full self = is_full self self.front_cursor self.back_cursor

  unfoldable pub queue_is_empty : Queue A → Bool
  unfolding is_empty
  queue_is_empty self = is_empty self self.front_cursor self.back_cursor

  unfoldable pub set_value : Queue A → ℕ → A → Queue A
  set_value self cursor value = record self {
    values = set self.values (bit_and cursor self.mask) value;
  }

  -- the end of `queue_push_back`, when there is room
  unfoldable pub push_value : Queue A → A → Queue A
  unfolding set_value
  push_value self value = record (set_value self self.back_cursor value) {
    back_cursor = (self.back_cursor + 1) % cursor_mod;
  }

  unfoldable pub queue_push_back : Queue A → A → Bool × Queue A
  unfolding is_full push_value
  queue_push_back self value =
      let fresh : Queue A = record self { cached_front_cursor = self.front_cursor } in
      if is_full self self.cached_front_cursor self.back_cursor
      then (if is_full fresh fresh.cached_front_cursor fresh.back_cursor
          then (false, fresh)
          else (true, push_value fresh value))
      else (true, push_value self value)

module _ {ℓ} {A : Type ℓ} (null : A) where
  unfoldable pub queue_new : ℕ → Result (Queue A)
  unfolding is_power_of_two
  queue_new size = do
    check (ltb 1 size)
    check (is_power_of_two size)
    ok (record {
      size = size;
      mask = size - 1;
      values = replicate size null;
      front_cursor = 0;
      back_cursor = 0;
      cached_front_cursor = 0;
      cached_back_cursor = 0;
    })

  unfoldable pub get_value : Queue A → ℕ → A
  get_value self cursor = get_or self.values (bit_and cursor self.mask) null

  -- the end of `queue_pop_front`, when there is a value
  unfoldable pub pop_value : Queue A → A × Queue A
  unfolding get_value
  pop_value self = (
    get_value self self.front_cursor,
    record self { front_cursor = (self.front_cursor + 1) % cursor_mod },
  )

  -- NULL is the answer of an empty queue.
  unfoldable pub queue_pop_front : Queue A → A × Queue A
  unfolding is_empty pop_value
  queue_pop_front self =
      let fresh : Queue A = record self { cached_back_cursor = self.back_cursor } in
      if is_empty self self.front_cursor self.cached_back_cursor
      then (if is_empty fresh fresh.front_cursor fresh.cached_back_cursor
          then (null, fresh)
          else pop_value fresh)
      else pop_value self

  unfoldable pub queue_get : Queue A → ℕ → A × Queue A
  unfolding is_empty get_value
  queue_get self index =
      let fresh : Queue A = record self { cached_back_cursor = self.back_cursor } in
      let cursor = (self.front_cursor + index) % cursor_mod in
      if is_empty self self.front_cursor self.cached_back_cursor
      then (if is_empty fresh fresh.front_cursor fresh.cached_back_cursor
          then (null, fresh)
          else (get_value fresh cursor, fresh))
      else (get_value self cursor, self)
