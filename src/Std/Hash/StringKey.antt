-- ===== src/Std/Hash/StringKey.antt =====
-- packages/std/hash/hash.c: `hash_of_string_key`, a hash whose keys are strings.
use inet_lisp.Base.{◌≡◌, ap, none, some, Result, ok, ◌>>=◌, []}
use inet_lisp.Std.String.{String, string_equal, string_bernstein_hash}
use inet_lisp.Std.String.Laws.{string_equal_refl, string_equal_sym, string_equal_eq}
use inet_lisp.Std.Hash.Chain.{KeyLaws}
use inet_lisp.Std.Hash.Rehash.{IsValid, find}
use inet_lisp.Std.Hash.Purge.{hash_init-Models}
use inet_lisp.Std.Hash.{Pointer, Hash, hash_init, hash_new, hash_set_hash_fn, hash_set_key_equal_fn}

module _ {V : Type 0} where
  unfoldable pub hash_of_string_key : Result (Hash String V)
  unfolding hash_new hash_set_key_equal_fn hash_set_hash_fn
  hash_of_string_key = do
    self ← hash_new
    ok (hash_set_hash_fn (hash_set_key_equal_fn self string_equal) string_bernstein_hash)

string_laws : KeyLaws string_equal string_bernstein_hash
string_laws = record {
  equal_refl = string_equal_refl;
  equal_sym = string_equal_sym;
  equal_trans = λ a b c h k. rw (string_equal_eq a b h) k;
  base-equal = λ a b h. ap string_bernstein_hash (string_equal_eq a b h);
}

module _ (V : Type 0) ⦃pointer : Pointer String⦄ where
  -- Strings may be keys: they are compared and hashed by their bytes, and no string is found yet.
  pub hash_of_string_key-IsValid :
      (next : Hash String V) × (hash_of_string_key ≡ ok next)
      × (IsValid next × ((q : String) → find next q ≡ none))
  unfolding hash_of_string_key hash_init
  hash_of_string_key-IsValid =
      let start : Hash String V = record {
        prime_index = 0;
        used_indexes_size = 0;
        length = 0;
        entries = [];
        cursor_index = 0;
        cursor_entry = [];
        cursor_key = none;
        hash_fn = some string_bernstein_hash;
        key_equal_fn = some string_equal;
      } in
      let (next, runs, m) = hash_init-Models start string_laws in (next, runs, (m.valid, m.finds))
