-- ===== src/Std/String.antt =====
-- packages/std/string/string.c: C strings as the bytes before their NUL. `strtol` is the C library's,
-- for the bases that the code names; letters are those of the C locale.
pub mod Laws
use Prim.Native.Nat.{bit_xor}
use inet_lisp.Base.{
  ℕ, zero, suc, ◌+◌, ◌-◌, ◌*◌, ◌%◌, ◌^◌, List, [], ◌∷◌, ◌++◌, Bool, true, false, not, ◌&&◌, ◌||◌,
  ◌==◌, ltb, leb, if◌then◌else◌, Option, none, some, length, take, drop, map, Result, ok, ◌>>=◌,
  ◌>>◌, check,
}
use inet_lisp.Base.Int.{ℤ, pos, negsuc, ◌-ℤ◌}

abbrev pub String : Type 0
String = List ℕ

unfoldable pub string_length : String → ℕ
string_length self = length self

unfoldable pub string_copy : String → String
string_copy self = self

unfoldable pub string_equal : String → String → Bool
string_equal [] [] = true
string_equal (x ∷ xs) (y ∷ ys) = x == y && string_equal xs ys
string_equal _ _ = false

unfoldable pub string_is_empty : String → Bool
unfolding string_equal
string_is_empty self = string_equal self []

-- a `char`, which is signed, as a `size_t`
abbrev pub size_of_char : ℕ → ℕ
size_of_char c = if ltb c 128 then c else c + (2 ^ 64 - 256)

unfoldable pub bernstein_from : ℕ → String → ℕ
bernstein_from hash [] = hash
bernstein_from hash (c ∷ cs) = bernstein_from (bit_xor (33 * hash % 2 ^ 64) (size_of_char c)) cs

unfoldable pub string_bernstein_hash : String → ℕ
unfolding bernstein_from
string_bernstein_hash self = bernstein_from 0 self

-- `isspace`
unfoldable pub isspace : ℕ → Bool
isspace c = c == 32 || (leb 9 c && leb c 13)

-- the value of a digit
unfoldable pub digit_value : ℕ → Option ℕ
digit_value c =
    if leb b'0' c && leb c b'9'
    then some (c - b'0')
    else if leb b'a' c && leb c b'z'
    then some (c - b'a' + 10)
    else if leb b'A' c && leb c b'Z'
    then some (c - b'A' + 10)
    else none

-- the value of a digit of a base
unfoldable pub digit_of_base : ℕ → ℕ → Option ℕ
unfolding digit_value
digit_of_base base c = elim (digit_value c) [
  | none ↦ none
  | some d ↦ if ltb d base then some d else none
]

-- the digits at the start of a string, and the rest
unfoldable pub take_digits : ℕ → ℕ → String → ℕ × String
unfolding digit_of_base
take_digits base n [] = (n, [])
take_digits base n (c ∷ cs) =
    let more : ℕ → ℕ × String = λ d. take_digits base (n * base + d) cs in
    elim (digit_of_base base c) [ none ↦ (n, c ∷ cs) | some d ↦ more d ]

unfoldable pub skip_space : String → String
skip_space [] = []
skip_space (c ∷ cs) = let rest = skip_space cs in if isspace c then rest else c ∷ cs

unfoldable starts_with_digit : ℕ → String → Bool
unfolding digit_of_base
starts_with_digit base [] = false
starts_with_digit base (c ∷ cs) = elim (digit_of_base base c) [ none ↦ false | some d ↦ true ]

-- `0x` goes before hexadecimal digits.
unfoldable skip_prefix : ℕ → String → String
unfolding starts_with_digit
skip_prefix base (zero_char ∷ x ∷ cs) =
    if base == 16 && zero_char == b'0' && (x == b'x' || x == b'X') && starts_with_digit 16 cs
    then cs
    else zero_char ∷ x ∷ cs
skip_prefix base self = self

-- A number out of range is the nearest that `long` has.
abbrev clamp_long : Bool → ℕ → ℤ
clamp_long true n = if ltb n (2 ^ 63) then pos 0 -ℤ pos n else negsuc (2 ^ 63 - 1)
clamp_long false n = pos (if ltb n (2 ^ 63) then n else 2 ^ 63 - 1)

unfoldable unsigned_strtol : ℕ → Bool → String → Option (ℤ × String)
unfolding skip_prefix take_digits starts_with_digit
unsigned_strtol base negative self =
    let digits = skip_prefix base self in
    if starts_with_digit base digits
    then (let (n, rest) = take_digits base 0 digits in some (clamp_long negative n, rest))
    else none

-- `strtol`: the number and the rest, or `none` where the end is the start
unfoldable pub strtol : ℕ → String → Option (ℤ × String)
unfolding unsigned_strtol skip_space
strtol base self = elim (skip_space self) [
  | [] ↦ none
  | c ∷ cs ↦
      if c == b'-'
      then unsigned_strtol base true cs
      else if c == b'+'
      then unsigned_strtol base false cs
      else unsigned_strtol base false (c ∷ cs)
]

unfoldable pub string_is_int_of_base : String → ℕ → Bool
unfolding strtol string_is_empty
string_is_int_of_base self base = elim (strtol base self) [
  | none ↦ false
  | some (n, rest) ↦ string_is_empty rest
]

unfoldable pub string_parse_int : String → ℕ → ℤ
unfolding strtol
string_parse_int self base = elim (strtol base self) [ none ↦ pos 0 | some (n, rest) ↦ n ]

unfoldable pub string_starts_with : String → String → Bool
unfolding string_equal
string_starts_with target prefix =
    if ltb (length target) (length prefix)
    then false
    else string_equal (take (length prefix) target) prefix

unfoldable pub string_ends_with : String → String → Bool
unfolding string_equal
string_ends_with target postfix =
    if ltb (length target) (length postfix)
    then false
    else string_equal (drop (length target - length postfix) target) postfix

unfoldable pub string_append : String → String → String
string_append left right = left ++ right

unfoldable pub string_slice : String → ℕ → ℕ → Result String
string_slice self start end =
    check (leb start end)
    >> check (leb end (length self))
    >> ok (take (end - start) (drop start self))

-- the index of the first `ch`; `strchr` finds the NUL at the end as well
unfoldable pub index_from : ℕ → ℕ → String → ℤ
index_from i ch [] = if ch == 0 then pos i else negsuc 0
index_from i ch (c ∷ cs) = let rest = index_from (i + 1) ch cs in if c == ch then pos i else rest

unfoldable pub string_find_index : String → ℕ → ℤ
unfolding index_from
string_find_index self ch = index_from 0 ch self

unfoldable pub string_count_char : String → ℕ → ℕ
string_count_char [] ch = 0
string_count_char (c ∷ cs) ch = (if c == ch then 1 else 0) + string_count_char cs ch

unfoldable pub string_has_char : String → ℕ → Bool
unfolding string_count_char
string_has_char self ch = ltb 0 (string_count_char self ch)

unfoldable pub string_count_substring : String → String → ℕ
unfolding string_starts_with
string_count_substring [] substring = 0
string_count_substring (c ∷ cs) substring =
    (if string_starts_with (c ∷ cs) substring then 1 else 0) + string_count_substring cs substring

abbrev tolower : ℕ → ℕ
tolower c = if leb b'A' c && leb c b'Z' then c + 32 else c

abbrev toupper : ℕ → ℕ
toupper c = if leb b'a' c && leb c b'z' then c - 32 else c

unfoldable pub string_to_lower_case : String → String
string_to_lower_case self = map (λ c. tolower c) self

unfoldable pub string_to_upper_case : String → String
string_to_upper_case self = map (λ c. toupper c) self

unfoldable pub string_equal_mod_case : String → String → Bool
unfolding string_to_upper_case string_equal
string_equal_mod_case left right =
    string_equal (string_to_upper_case left) (string_to_upper_case right)

-- the rest behind the first newline, or NULL where nothing is behind it
unfoldable pub string_next_line : String → Option String
unfolding string_find_index
string_next_line self = elim (string_find_index self b'\n') [
  | negsuc n ↦ none
  | pos i ↦ elim (drop (i + 1) self) [ [] ↦ none | c ∷ cs ↦ some (c ∷ cs) ]
]

abbrev starts_with_sign : String → Bool
starts_with_sign [] = false
starts_with_sign (c ∷ cs) = c == b'-' || c == b'+'

-- `string_is_xint` on a string that does not start with a sign
unfoldable pub unsigned_is_xint : String → Bool
unfolding string_is_int_of_base string_starts_with
unsigned_is_xint self =
    if string_starts_with self (b'0' ∷ b'x' ∷ [])
    then string_is_int_of_base (drop 2 self) 16
    else if string_starts_with self (b'0' ∷ b'o' ∷ [])
    then string_is_int_of_base (drop 2 self) 8
    else string_is_int_of_base self 10

-- A string behind a sign is tried again only if it does not start with a sign.
unfoldable pub string_is_xint : String → Bool
unfolding unsigned_is_xint
string_is_xint self =
    if starts_with_sign self
    then (if starts_with_sign (drop 1 self) then false else unsigned_is_xint (drop 1 self))
    else unsigned_is_xint self

-- `string_parse_xint` on a string that does not start with a sign
unfoldable pub unsigned_parse_xint : String → ℤ
unfolding string_parse_int string_starts_with
unsigned_parse_xint self =
    if string_starts_with self (b'0' ∷ b'x' ∷ [])
    then string_parse_int (drop 2 self) 16
    else if string_starts_with self (b'0' ∷ b'o' ∷ [])
    then string_parse_int (drop 2 self) 8
    else if string_starts_with self (b'0' ∷ b'b' ∷ [])
    then string_parse_int (drop 2 self) 2
    else string_parse_int self 10

unfoldable pub string_parse_xint : String → ℤ
unfolding unsigned_parse_xint
string_parse_xint [] = unsigned_parse_xint []
string_parse_xint (c ∷ cs) =
    let rest = string_parse_xint cs in
    if c == b'-' then pos 0 -ℤ rest else if c == b'+' then rest else unsigned_parse_xint (c ∷ cs)
