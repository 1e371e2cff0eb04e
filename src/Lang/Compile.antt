-- ===== src/Lang/Compile.antt =====
-- lang/compile.c, with the parts of core/function.c and core/mod.c that it calls. A hash with
-- strings as keys is an association list, in the order of insertion.
pub mod Binding
pub mod Extends
use inet_lisp.Base.{
  ℕ, suc, ◌+◌, List, [], ◌∷◌, ◌++◌, Bool, true, false, if◌then◌else◌, Option, none, some, length,
  Result, ok, err, exited, dangling, assertion_failed, ◌>>=◌,
}
use inet_lisp.Value.Xint.{xint}
use inet_lisp.Value.Tags.{xfloat_of_bits}
use inet_lisp.Net.Ctor.{Name}
use inet_lisp.Std.String.{string_equal}
use inet_lisp.Net.Heap.{Value, null, word, is_null}
use inet_lisp.Core.Mod.{Mod, Function, Opcode, apply, literal, get_variable, set_variable}
use inet_lisp.Lang.Exp.{
  Exp, ExpList, exp_var, exp_ap, exp_assign, exp_int, exp_float, exp_null, exp_nil, exp_cons,
}

module _ {A : Type 0} where
  -- `hash_get_entry`, with the entry's value
  unfoldable pub hash_get_entry : List (Name × A) → Name → Option A
  hash_get_entry [] key = none
  hash_get_entry ((k, value) ∷ entries) key =
      let rest = hash_get_entry entries key in if string_equal k key then some value else rest

-- `mod_find`, with NULL for a name that is not defined
unfoldable pub mod_find : Mod → Name → Value
unfolding hash_get_entry
mod_find self name = elim (hash_get_entry self.value_hash name) [ none ↦ null | some value ↦ value ]

unfoldable pub function_new : ℕ → Function
function_new arity = record { name = []; arity = arity; local_index_hash = []; opcode_array = [] }

unfoldable pub function_add_opcode : Function → Opcode → Function
function_add_opcode self opcode = record self { opcode_array = self.opcode_array ++ opcode ∷ [] }

-- A name that the function has keeps its index; a new one has the next index. The `hash_set` of a
-- name that the hash does not have is true, so its assertion holds.
unfoldable pub compile_set_variable : Function → Name → Function
unfolding hash_get_entry function_add_opcode
compile_set_variable function name =
    let index = length function.local_index_hash in
    elim (hash_get_entry function.local_index_hash name) [
      | some old_index ↦ function_add_opcode function (set_variable old_index)
      | none ↦
          function_add_opcode
            (record function { local_index_hash = function.local_index_hash ++ (name, index) ∷ [] })
            (set_variable index)
    ]

-- from the last name to the first
unfoldable pub compile_set_variable_list : Function → List Name → Function
unfolding compile_set_variable
compile_set_variable_list function [] = function
compile_set_variable_list function (name ∷ name_list) =
    compile_set_variable (compile_set_variable_list function name_list) name

unfoldable pub maybe_compile_get_variable : Function → Name → Option Function
unfolding hash_get_entry function_add_opcode
maybe_compile_get_variable function name = elim (hash_get_entry function.local_index_hash name) [
  | none ↦ none
  | some index ↦ some (function_add_opcode function (get_variable index))
]

unfoldable pub compile_literal : Mod → Function → Name → Result Function
unfolding mod_find function_add_opcode
compile_literal m function name =
    let value = mod_find m name in
    if is_null value then err exited else ok (function_add_opcode function (literal value))

-- `list_length` of a list of expressions
unfoldable pub exp_list_length : ExpList → ℕ
exp_list_length exp_nil = 0
exp_list_length (exp_cons exp exp_list) = suc (exp_list_length exp_list)

unfoldable mutual
  unfolding compile_set_variable_list maybe_compile_get_variable compile_literal exp_list_length

  pub compile_exp : Mod → Function → Exp → Result Function
  compile_exp m function (exp_var name) = elim (maybe_compile_get_variable function name) [
    | some compiled ↦ ok compiled
    | none ↦ compile_literal m function name
  ]
  compile_exp m function (exp_ap target arg_list) = compile_exp_list m function arg_list >>= λ args.
      compile_exp m args target >>= λ compiled.
      ok (function_add_opcode compiled (apply (exp_list_length arg_list)))
  compile_exp m function (exp_assign name_list exp) =
      compile_exp m function exp >>= λ compiled. ok (compile_set_variable_list compiled name_list)
  compile_exp m function (exp_int target) =
      ok (function_add_opcode function (literal (word (xint target))))
  compile_exp m function (exp_float target) =
      ok (function_add_opcode function (literal (word (xfloat_of_bits target))))
  compile_exp m function exp_null = err dangling

  pub compile_exp_list : Mod → Function → ExpList → Result Function
  compile_exp_list m function exp_nil = ok function
  compile_exp_list m function (exp_cons exp exp_list) =
      compile_exp m function exp >>= λ compiled. compile_exp_list m compiled exp_list
