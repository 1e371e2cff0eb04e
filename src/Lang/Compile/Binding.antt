-- ===== src/Lang/Compile/Binding.antt =====
-- lang/compile.c, `compile_set_variable_list`, with core/worker_run_until.c: names get their values.
pub mod Run
use inet_lisp.Base.{
  ℕ, zero, suc, ◌+◌, ◌-◌, ◌<◌, ◌≡◌, ◌≢◌, refl, sym, ap, ◌∙◌, subst, List, [], ◌∷◌, ◌++◌, Bool, true,
  false, ◌&&◌, ◌==◌, if◌then◌else◌, Option, none, some, length, get_elem?, length-append,
  get_elem?-append_left, get_elem?-append_end, arith, dec_lt,
}
use inet_lisp.Net.Ctor.{Name}
use inet_lisp.Std.String.Laws.{string_equal_refl}
use inet_lisp.Std.String.{string_equal}
use inet_lisp.Core.Mod.{Function, Opcode, set_variable}
use inet_lisp.Lang.Compile.{
  hash_get_entry, function_new, function_add_opcode, compile_set_variable,
  compile_set_variable_list,
}

-- The name is none of the list.
abbrev pub Fresh : Name → List Name → Type 0
Fresh name [] = Unit
Fresh name (n ∷ names) = (string_equal n name ≡ false) × Fresh name names

-- No name of the list stands in it twice.
abbrev pub Distinct : List Name → Type 0
Distinct [] = Unit
Distinct (name ∷ names) = Fresh name names × Distinct names

-- the entries and opcodes of a list of names, the last name first
abbrev pub entries : List Name → List (Name × ℕ)
entries [] = []
entries (name ∷ names) = entries names ++ (name, length names) ∷ []

abbrev pub opcodes : List Name → List Opcode
opcodes [] = []
opcodes (name ∷ names) = opcodes names ++ set_variable (length names) ∷ []

pub hash_get_entry-append :
    (xs ys : List (Name × ℕ)) (key : Name)
    → hash_get_entry (xs ++ ys) key
      ≡ elim (hash_get_entry xs key) [ none ↦ hash_get_entry ys key | some v ↦ some v ]
unfolding hash_get_entry
hash_get_entry-append [] ys key = refl
hash_get_entry-append ((k, v) ∷ xs) ys key =
    go (hash_get_entry-append xs ys key) (string_equal k key)
  where
    go :
        hash_get_entry (xs ++ ys) key
          ≡ elim (hash_get_entry xs key) [ none ↦ hash_get_entry ys key | some u ↦ some u ]
        → (b : Bool)
        → (if b then some v else hash_get_entry (xs ++ ys) key)
          ≡ elim (if b then some v else hash_get_entry xs key) [
            | none ↦ hash_get_entry ys key
            | some u ↦ some u
          ]
    go ih true = refl
    go ih false = ih

entries-Fresh :
    (name : Name) (names : List Name)
    → Fresh name names
    → hash_get_entry (entries names) name ≡ none
unfolding hash_get_entry
entries-Fresh name [] h = refl
entries-Fresh name (n ∷ names) h =
    hash_get_entry-append (entries names) _ name ∙ rw (entries-Fresh name names h.1, h.0) refl

-- The index of the name at a position, counted from the end.
pub entries-found :
    (names : List Name) (i : ℕ) (name : Name)
    → Distinct names
    → get_elem? names i ≡ some name
    → hash_get_entry (entries names) name ≡ some (length names - 1 - i)
unfolding hash_get_entry
entries-found [] i name d e = cc
entries-found (n ∷ names) zero name d e =
    let q : n ≡ name = cc in
    subst (λ x. hash_get_entry (entries (n ∷ names)) x ≡ some (suc (length names) - 1 - 0)) q
      (hash_get_entry-append (entries names) _ n
        ∙ rw (entries-Fresh n names d.0, string_equal_refl n) (ap some (omega arith)))
entries-found (n ∷ names) (suc i) name d e =
    hash_get_entry-append (entries names) _ name
    ∙ rw (entries-found names i name d.1 e) (ap some (omega arith))

pub length-entries : (names : List Name) → length (entries names) ≡ length names
length-entries [] = refl
length-entries (n ∷ names) =
    omega (arith, length-append (entries names) ((n, length names) ∷ []), length-entries names)

pub length-opcodes : (names : List Name) → length (opcodes names) ≡ length names
length-opcodes [] = refl
length-opcodes (n ∷ names) =
    omega (
      arith,
      length-append (opcodes names) (set_variable (length names) ∷ []),
      length-opcodes names,
    )

-- The opcode at a position sets the variable of that index.
pub opcodes-at :
    (names : List Name) (j : ℕ)
    → j < length names
    → get_elem? (opcodes names) j ≡ some (set_variable j)
opcodes-at [] j h = elim h [ ]
opcodes-at (n ∷ names) j h = elim (dec_lt j (length names)) [
  | yes l ↦
      get_elem?-append_left (opcodes names) _ j (omega (arith, length-opcodes names))
      ∙ opcodes-at names j l
  | no l ↦
      let last : length names ≡ j = omega arith in
      subst (λ i. get_elem? (opcodes (n ∷ names)) i ≡ some (set_variable i)) last
        (subst (λ i. get_elem? (opcodes (n ∷ names)) i ≡ some (set_variable (length names)))
          (length-opcodes names)
          (get_elem?-append_end (opcodes names) (set_variable (length names))))
]

pub compile_set_variable-new :
    (f : Function) (name : Name)
    → hash_get_entry f.local_index_hash name ≡ none
    → compile_set_variable f name ≡ record f {
      local_index_hash = f.local_index_hash ++ (name, length f.local_index_hash) ∷ [];
      opcode_array = f.opcode_array ++ set_variable (length f.local_index_hash) ∷ [];
    }
unfolding compile_set_variable function_add_opcode
compile_set_variable-new f name e =
    let index = length f.local_index_hash in
    ap
      (λ o. elim o [
        | some old_index ↦ function_add_opcode f (set_variable old_index)
        | none ↦
            function_add_opcode
              (record f { local_index_hash = f.local_index_hash ++ (name, index) ∷ [] })
              (set_variable index)
      ])
      e

-- What distinct names compile to, in a new function.
pub compile_set_variable_list_lem :
    (arity : ℕ) (names : List Name)
    → Distinct names
    → ((compile_set_variable_list (function_new arity) names).local_index_hash ≡ entries names)
      × ((compile_set_variable_list (function_new arity) names).opcode_array ≡ opcodes names)
unfolding compile_set_variable_list function_new
compile_set_variable_list_lem arity [] d = (refl, refl)
compile_set_variable_list_lem arity (n ∷ names) d =
    let f = compile_set_variable_list (function_new arity) names in
    let (hash, array) = compile_set_variable_list_lem arity names d.1 in
    let new : hash_get_entry f.local_index_hash n ≡ none =
      ap (λ l. hash_get_entry l n) hash ∙ entries-Fresh n names d.0 in
    let size : length f.local_index_hash ≡ length names = ap length hash ∙ length-entries names in
    let step = compile_set_variable-new f n new in
    (
      ap (λ g. g.local_index_hash) step ∙ rw (size, hash) refl,
      ap (λ g. g.opcode_array) step ∙ rw (size, array) refl,
    )
