-- ===== src/Std/Lexer.antt =====
-- packages/std/lexer: the lexer and its tokens. The string and its cursor are the bytes still to read
-- and the number of the bytes read.
pub mod Steps
pub mod Termination
use inet_lisp.Base.{
  ℕ, zero, suc, ◌+◌, ◌-◌, List, [], ◌∷◌, ◌++◌, Bool, true, false, ◌&&◌, ◌||◌, ◌==◌, leb,
  if◌then◌else◌, Option, none, some, length, map, Result, ok, err, assertion_failed, out_of_fuel,
  ◌>>=◌, ◌>>◌, check,
}
use inet_lisp.Base.Int.{ℤ}
use inet_lisp.Std.String.{
  String, isspace, string_length, string_starts_with, string_is_xint, string_parse_xint,
}

-- `token_kind_t`
pub data TokenKind : Type 0 where
  generic_token delimiter_token int_token float_token string_token : TokenKind

-- the union of `token_t`; a double is its bits
pub data TokenValue : Type 0 where
  no_value : TokenValue
  int_value : ℤ → TokenValue
  float_value : ℕ → TokenValue

-- `token_t`
pub record Token : Type 0 where
  pub string : String
  pub kind : TokenKind
  pub start : ℕ
  pub end : ℕ
  pub lineno : ℕ
  pub column : ℕ
  pub value : TokenValue

unfoldable pub token_new : String → TokenKind → ℕ → ℕ → ℕ → ℕ → Token
token_new string kind start end lineno column = record {
  string = string;
  kind = kind;
  start = start;
  end = end;
  lineno = lineno;
  column = column;
  value = no_value;
}

-- `lexer_t`
pub record Lexer : Type 0 where
  pub rest : String
  pub cursor : ℕ
  pub lineno : ℕ
  pub column : ℕ
  pub buffer : String
  pub token_list : List Token
  pub line_comment : Option String
  pub delimiter_list : List String
  pub enable_int : Bool
  pub enable_float : Bool
  pub enable_string : Bool

unfoldable pub lexer_init : Lexer → Lexer
lexer_init self = record self { cursor = 0; lineno = 1; column = 1; buffer = [] }

unfoldable pub lexer_new : Lexer
unfolding lexer_init
lexer_new = lexer_init (record {
  rest = [];
  cursor = 0;
  lineno = 0;
  column = 0;
  buffer = [];
  token_list = [];
  line_comment = none;
  delimiter_list = [];
  enable_int = false;
  enable_float = false;
  enable_string = false;
})

unfoldable pub lexer_add_delimiter : Lexer → String → Lexer
lexer_add_delimiter self delimiter = record self {
  delimiter_list = self.delimiter_list ++ delimiter ∷ [];
}

abbrev pub first_char : String → ℕ
first_char [] = 0
first_char (c ∷ cs) = c

-- At the end of the string this is the NUL.
unfoldable pub current_char : Lexer → ℕ
current_char self = first_char self.rest

abbrev pub match_first : List String → String → Option String
match_first [] rest = none
match_first (d ∷ ds) rest =
    let later = match_first ds rest in if string_starts_with rest d then some d else later

unfoldable pub match_delimiter : Lexer → Option String
match_delimiter self = match_first self.delimiter_list self.rest

-- one step over the byte `c`, before `cs`
abbrev pub step_over : ℕ → String → Lexer → Lexer
step_over c cs self = record self {
  rest = cs;
  cursor = self.cursor + 1;
  lineno = (if c == b'\n' then self.lineno + 1 else self.lineno);
  column = (if c == b'\n' then 1 else self.column + 1);
}

-- `step`, given the bytes still to read
unfoldable pub step_from : String → Lexer → Result Lexer
step_from [] self = err assertion_failed
step_from (c ∷ cs) self = ok (step_over c cs self)

unfoldable pub step : Lexer → Result Lexer
unfolding step_from
step self = step_from self.rest self

unfoldable pub forward : Lexer → ℕ → Result Lexer
unfolding step
forward self zero = ok self
forward self (suc length) = do next ← step self; forward next length

-- the loop of `ignore_space`, over the bytes still to read
unfoldable pub skip_spaces : String → Lexer → Result Lexer
unfolding step
skip_spaces [] self = ok self
skip_spaces (c ∷ cs) self = elim (isspace c) [
  | true ↦ step self >>= skip_spaces cs
  | false ↦ ok self
]

-- `ignore_space`, given whether the byte is a space
unfoldable pub ignore_space_from : Bool → Lexer → Result (Bool × Lexer)
unfolding skip_spaces
ignore_space_from false self = ok (false, self)
ignore_space_from true self = do next ← skip_spaces self.rest self; ok (true, next)

unfoldable pub ignore_space : Lexer → Result (Bool × Lexer)
unfolding ignore_space_from current_char
ignore_space self = ignore_space_from (isspace (current_char self)) self

-- the loop of `ignore_comment`, to the end of the line
unfoldable pub skip_line : String → Lexer → Result Lexer
unfolding step
skip_line [] self = ok self
skip_line (c ∷ cs) self = elim (c == b'\n') [
  | true ↦ step self
  | false ↦ step self >>= skip_line cs
]

-- `ignore_comment`, given `self->line_comment`
unfoldable pub ignore_line : Option String → Lexer → Result (Bool × Lexer)
unfolding forward skip_line string_length
ignore_line none self = ok (false, self)
ignore_line (some line_comment) self = elim (string_starts_with self.rest line_comment) [
  | false ↦ ok (false, self)
  | true ↦ do
    behind ← forward self (string_length line_comment)
    next ← skip_line behind.rest behind
    ok (true, next)
]

unfoldable pub ignore_comment : Lexer → Result (Bool × Lexer)
unfolding ignore_line
ignore_comment self = ignore_line self.line_comment self

unfoldable pub push_token : Lexer → Token → Lexer
push_token self token = record self { token_list = self.token_list ++ token ∷ [] }

-- `collect_delimiter`, given the delimiter that matches
unfoldable pub collect_matched : Option String → Lexer → Result (Bool × Lexer)
unfolding forward string_length token_new push_token
collect_matched none self = ok (false, self)
collect_matched (some delimiter) self = do
  next ← forward self (string_length delimiter)
  ok (
    true,
    push_token next (
        token_new delimiter delimiter_token self.cursor (self.cursor + string_length delimiter)
          next.lineno next.column),
  )

unfoldable pub collect_delimiter : Lexer → Result (Bool × Lexer)
unfolding match_delimiter collect_matched
collect_delimiter self = collect_matched (match_delimiter self) self

-- The length is asserted to be at most `MAX_TOKEN_LENGTH`.
unfoldable pub collect_char : Lexer → ℕ → Result Lexer
collect_char self c = do
  check (leb (length self.buffer + 1) 1024)
  ok (record self { buffer = self.buffer ++ c ∷ [] })

-- The buffer as a C string ends at its first NUL.
unfoldable pub until_nul : String → String
until_nul [] = []
until_nul (c ∷ cs) = let rest = until_nul cs in if c == 0 then [] else c ∷ rest

-- a token of the buffer, up to the cursor; the buffer is emptied
unfoldable pub push_buffer : TokenKind → Lexer → Lexer
unfolding until_nul token_new push_token
push_buffer kind self =
    let string = until_nul self.buffer in
    record (push_token self
      (token_new string kind (self.cursor - length string) self.cursor self.lineno self.column)) {
        buffer = [];
      }

-- the byte that an escaped byte stands for
unfoldable pub escaped_char : ℕ → Option ℕ
escaped_char c =
    if c == b'n'
    then some 10
    else if c == b't'
    then some 9
    else if c == b'b'
    then some 8
    else if c == b'f'
    then some 12
    else if c == b'r'
    then some 13
    else if c == b'0'
    then some 0
    else if c == b'"'
    then some b'"'
    else if c == b'\\'
    then some b'\\'
    else none

-- The loop of `collect_string`, over the bytes still to read. The end of the string fails an assertion,
-- also behind a backslash, where the NUL is no byte to escape.
unfoldable pub collect_string_loop : String → Lexer → Result Lexer
unfolding step collect_char push_buffer escaped_char
collect_string_loop [] self = err assertion_failed
collect_string_loop (c ∷ []) self = elim (c == b'"') [
  | true ↦ step (push_buffer string_token self)
  | false ↦ err assertion_failed
]
collect_string_loop (c ∷ d ∷ cs) self = elim (c == b'\\') [
  | true ↦ elim (escaped_char d) [
    | none ↦ err assertion_failed
    | some e ↦ do
      behind ← step self
      collected ← collect_char behind e
      next ← step collected
      collect_string_loop cs next
  ]
  | false ↦ elim (c == b'"') [
    | true ↦ step (push_buffer string_token self)
    | false ↦ do
      collected ← collect_char self c
      next ← step collected
      collect_string_loop (d ∷ cs) next
  ]
]

-- `collect_string`, given whether the byte is a quote
unfoldable pub collect_quoted : Bool → Lexer → Result (Bool × Lexer)
unfolding step collect_string_loop
collect_quoted false self = ok (false, self)
collect_quoted true self = do
  behind ← step (record self { buffer = [] })
  next ← collect_string_loop behind.rest behind
  ok (true, next)

unfoldable pub collect_string : Lexer → Result (Bool × Lexer)
unfolding collect_quoted current_char
collect_string self = collect_quoted (current_char self == b'"') self

abbrev pub is_some : Option String → Bool
is_some none = false
is_some (some s) = true

-- the loop of `collect_generic`, over the bytes still to read
unfoldable pub collect_generic_loop : String → Lexer → Result Lexer
unfolding step collect_char push_buffer match_delimiter
collect_generic_loop [] self = ok (push_buffer generic_token self)
collect_generic_loop (c ∷ cs) self = elim (isspace c || is_some (match_delimiter self)) [
  | true ↦ ok (push_buffer generic_token self)
  | false ↦ do collected ← collect_char self c; next ← step collected; collect_generic_loop cs next
]

unfoldable pub collect_generic : Lexer → Result Lexer
unfolding collect_generic_loop
collect_generic self = collect_generic_loop self.rest (record self { buffer = [] })

-- `if (f (self)) return;` before the rest of `lexer_step`
unfoldable pub try_first : Result (Bool × Lexer) → (Lexer → Result Lexer) → Result Lexer
try_first first rest = do (done, next) ← first; elim done [ true ↦ ok next | false ↦ rest next ]

-- `self->enable_string && collect_string (self)`
unfoldable pub collect_if : Bool → Lexer → Result (Bool × Lexer)
unfolding collect_string
collect_if false self = ok (false, self)
collect_if true self = collect_string self

-- `lexer_step` behind its first three returns, behind two, and behind one
unfoldable pub step_string : Lexer → Result Lexer
unfolding collect_if collect_generic try_first
step_string self = try_first (collect_if self.enable_string self) collect_generic

unfoldable pub step_delimiter : Lexer → Result Lexer
unfolding collect_delimiter try_first step_string
step_delimiter self = try_first (collect_delimiter self) step_string

unfoldable pub step_comment : Lexer → Result Lexer
unfolding ignore_comment try_first step_delimiter
step_comment self = try_first (ignore_comment self) step_delimiter

unfoldable pub lexer_step : Lexer → Result Lexer
unfolding ignore_space try_first step_comment
lexer_step self = try_first (ignore_space self) step_comment

abbrev is_generic : TokenKind → Bool
is_generic generic_token = true
is_generic _ = false

unfoldable pub postprocess_int : Token → Token
postprocess_int token =
    if is_generic token.kind && string_is_xint token.string
    then record token { kind = int_token; value = int_value (string_parse_xint token.string) }
    else token

-- The loop of `lexer_run`. Each step reads a byte at least.
unfoldable pub lexer_loop : ℕ → Lexer → Result Lexer
unfolding lexer_step
lexer_loop zero self = elim self.rest [ [] ↦ ok self | c ∷ cs ↦ err out_of_fuel ]
lexer_loop (suc fuel) self = elim self.rest [
  | [] ↦ ok self
  | c ∷ cs ↦ lexer_step self >>= lexer_loop fuel
]

unfoldable pub with_double : Option ℕ → Token → Token
with_double none token = token
with_double (some bits) token = record token { kind = float_token; value = float_value bits }

-- `strtod` of the C library: the bits of the double, and whether the number is the whole string
module _ (strtod : String → Option ℕ) where
  unfoldable pub postprocess_float : Token → Token
  unfolding with_double
  postprocess_float token =
      if is_generic token.kind then with_double (strtod token.string) token else token

  unfoldable pub lexer_run : Lexer → String → Result Lexer
  unfolding lexer_loop lexer_init postprocess_int postprocess_float
  lexer_run self string = do
    next ← lexer_loop (length string) (record (lexer_init self) { rest = string; token_list = [] })
    let ints = if next.enable_int then map postprocess_int next.token_list else next.token_list in
        let floats = if next.enable_float then map postprocess_float ints else ints in
        ok (record next { token_list = floats })
