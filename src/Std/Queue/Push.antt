-- ===== src/Std/Queue/Push.antt =====
-- packages/std/queue/queue.c, `queue_push_back` as an operation of a bounded list.
use inet_lisp.Base.{
  ℕ, ◌+◌, ◌-◌, ◌^◌, ◌≤◌, ◌<◌, ◌≡◌, inl, inr, refl, sym, ap, subst, ◌∙◌, List, [], ◌∷◌, ◌++◌, Bool,
  true, false, ltb, lt→ltb, ◌==◌, if◌then◌else◌, length, arith, Bool-cases,
}
use inet_lisp.Std.Queue.{Queue, is_full, set_value, push_value, queue_push_back}
use inet_lisp.Std.Queue.Laws.{Holds, is_full_lem, see_front, push_value-Holds}

not_full : (a b m : ℕ) → (a - b == m) ≡ false → b ≤ a → a ≤ b + m → a < b + m
not_full a b m e h k = ground arith

full : (a b m : ℕ) → (a - b == m) ≡ true → b ≤ a → a ≡ b + m
full a b m e h = ground arith

not_lt : (a m : ℕ) → a ≡ m → ltb a m ≡ false
not_lt a m e = ground arith

module _ {A : Type 0} (null : A) where
  push-room :
      (q : Queue A) (v : A)
      → is_full q q.cached_front_cursor q.back_cursor ≡ false
      → queue_push_back q v ≡ (true, push_value q v)
  unfolding queue_push_back
  push-room q v e = rw e refl

  push-refreshed :
      (q : Queue A) (v : A)
      → is_full q q.cached_front_cursor q.back_cursor ≡ true
      → is_full q q.front_cursor q.back_cursor ≡ false
      → queue_push_back q v
        ≡ (true, push_value (record q { cached_front_cursor = q.front_cursor }) v)
  unfolding queue_push_back is_full
  push-refreshed q v e r = rw (e, r) refl

  push-full :
      (q : Queue A) (v : A)
      → is_full q q.cached_front_cursor q.back_cursor ≡ true
      → is_full q q.front_cursor q.back_cursor ≡ true
      → queue_push_back q v ≡ (false, record q { cached_front_cursor = q.front_cursor })
  unfolding queue_push_back is_full
  push-full q v e r = rw (e, r) refl

  -- what a push leaves in the list, and what it answers
  abbrev pub Pushed : Queue A → List A → A → Type 0
  Pushed q xs v =
      (q' : Queue A) × (queue_push_back q v ≡ (ltb (length xs) q.size, q'))
      × Holds null q' (if ltb (length xs) q.size then xs ++ v ∷ [] else xs)
      × (q'.size ≡ q.size)

  done :
      (q q' : Queue A) (xs : List A) (v : A) (b : Bool)
      → ltb (length xs) q.size ≡ b
      → queue_push_back q v ≡ (b, q')
      → Holds null q' (if b then xs ++ v ∷ [] else xs)
      → q'.size ≡ q.size
      → Pushed q xs v
  done q q' xs v b e p h s = (
    q',
    p ∙ ap (λ c. (c, q')) (sym e),
    subst (λ c. Holds null q' (if c then xs ++ v ∷ [] else xs)) (sym e) h,
    s,
  )

  -- A push on a queue with room answers true and puts the value behind the items; on a full queue it
  -- answers false and leaves the items. The cached cursor decides nothing, however far it lags, and
  -- neither does the wrap-around of the cursors.
  pub queue_push_back_lem : (q : Queue A) (xs : List A) (v : A) → Holds null q xs → Pushed q xs v
  unfolding push_value set_value is_full
  queue_push_back_lem q xs v h = elim (Bool-cases (is_full q q.cached_front_cursor q.back_cursor)) [
    | inl old ↦
        let h' = see_front null q xs h in
        let q' : Queue A = record q { cached_front_cursor = q.front_cursor } in
        elim (Bool-cases (is_full q q.front_cursor q.back_cursor)) [
          | inl now ↦
              let same =
                full (h.front + length xs) h.front (2 ^ h.k) (sym (is_full_lem null q' xs h') ∙ now)
                  (omega arith) in
              done q q' xs v false (not_lt (length xs) q.size (omega (arith, h.sized, same)))
                (push-full q v old now) h' refl
          | inr now ↦
              let near =
                not_full (h.front + length xs) h.front (2 ^ h.k)
                  (sym (is_full_lem null q' xs h') ∙ now) (omega arith) (omega (arith, h.fits)) in
              let less : length xs < 2 ^ h.k = omega (arith, near) in
              done q (push_value q' v) xs v true
                (lt→ltb (length xs) q.size (omega (arith, h.sized, less)))
                (push-refreshed q v old now) (push_value-Holds null q' xs h' v less near) refl
        ]
    | inr room ↦
        let near =
          not_full (h.front + length xs) h.seen_front (2 ^ h.k)
            (sym (is_full_lem null q xs h) ∙ room) (omega (arith, h.front_lags)) h.front_near in
        let less : length xs < 2 ^ h.k = omega (arith, near, h.front_lags) in
        done q (push_value q v) xs v true (lt→ltb (length xs) q.size (omega (arith, h.sized, less)))
          (push-room q v room) (push_value-Holds null q xs h v less near) refl
  ]
