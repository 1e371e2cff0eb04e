-- ===== src/Std/Sexp/Lexing.antt =====
-- packages/std/sexp/sexp.c with packages/std/lexer: the lexer on words, spaces and parentheses.
use mathlib.Core.List.{append_assoc, append-nil}
use inet_lisp.Base.{
  ℕ, zero, suc, ◌+◌, ◌≤◌, ◌≡◌, refl, sym, ap, ◌∙◌, inr, List, [], ◌∷◌, ◌++◌, Bool, true, false, not,
  ◌&&◌, ◌||◌, ◌==◌, if◌then◌else◌, leb, none, some, length, length-append, arith, ok, ◌>>=◌,
}
use inet_lisp.Std.String.{String, isspace, string_length, string_starts_with}
use inet_lisp.Std.String.Laws.{starts_with_cons, starts_with_nil}
use inet_lisp.Std.Lexer.{
  Token, generic_token, Lexer, token_new, match_first, match_delimiter, is_some, step, step_from,
  forward, skip_spaces, push_token, push_buffer, until_nul, collect_char, collect_generic_loop,
  lexer_step, lexer_loop,
}
use inet_lisp.Std.Lexer.Steps.{lexer_step-space, lexer_step-delimiter, lexer_step-generic}
use inet_lisp.Std.Lexer.Termination.{NoneEmpty, lexer_step-shorter}
use inet_lisp.Std.Sexp.{left_paren, right_paren}
use inet_lisp.Std.Sexp.Parse.{texts}

pub record Position : Type 0 where
  pub cursor : ℕ
  pub lineno : ℕ
  pub column : ℕ

-- The lexer of s-expressions on its way, with an empty buffer between two steps.
abbrev pub state : Position → String → List Token → String → Lexer
state p buffer tokens rest = record {
  rest = rest;
  cursor = p.cursor;
  lineno = p.lineno;
  column = p.column;
  buffer = buffer;
  token_list = tokens;
  line_comment = some (b';' ∷ []);
  delimiter_list = left_paren ∷ right_paren ∷ [];
  enable_int = true;
  enable_float = true;
  enable_string = true;
}

abbrev pub delimiters : List String
delimiters = left_paren ∷ right_paren ∷ []

-- a byte of a word: no space, no parenthesis and no NUL
unfoldable pub word_byte : ℕ → Bool
word_byte c = not (isspace c) && not (c == b'(') && not (c == b')') && not (c == 0)

abbrev pub AllWordBytes : String → Type 0
AllWordBytes [] = Unit
AllWordBytes (c ∷ cs) = (word_byte c ≡ true) × AllWordBytes cs

-- A word is not empty, starts no comment and no string, and fits the buffer of the lexer.
abbrev pub IsWord : String → Type 0
IsWord [] = ⊥
IsWord (c ∷ cs) =
    (AllWordBytes (c ∷ cs) × (length (c ∷ cs) ≤ 1024))
    × ((c == b';') ≡ false)
    × ((c == b'"') ≡ false)

-- a text at which a word ends
abbrev pub StopsWord : String → Type 0
StopsWord [] = Unit
StopsWord (c ∷ cs) = (isspace c || is_some (match_first delimiters (c ∷ cs))) ≡ true

and_true : (b : Bool) → (b && true) ≡ b
and_true true = refl
and_true false = refl

starts_with_byte : (c d : ℕ) (cs : String) → string_starts_with (c ∷ cs) (d ∷ []) ≡ (c == d)
starts_with_byte c d cs = rw (starts_with_cons c d cs [], starts_with_nil cs) (and_true (c == d))

match_word : (c : ℕ) (cs : String) → word_byte c ≡ true → match_first delimiters (c ∷ cs) ≡ none
unfolding word_byte
match_word c cs plain = ground (arith, starts_with_byte c b'(' cs, starts_with_byte c b')' cs)

pub match_left : (cs : String) → match_first delimiters (b'(' ∷ cs) ≡ some left_paren
match_left cs = rw (starts_with_byte b'(' b'(' cs) refl

pub match_right : (cs : String) → match_first delimiters (b')' ∷ cs) ≡ some right_paren
match_right cs = rw (starts_with_byte b')' b'(' cs, starts_with_byte b')' b')' cs) refl

until_nul_lem : (w : String) → AllWordBytes w → until_nul w ≡ w
unfolding until_nul word_byte
until_nul_lem [] plain = refl
until_nul_lem (c ∷ cs) plain = ground (arith, until_nul_lem cs)

-- behind the byte `c`
abbrev pub over : ℕ → Position → Position
over c p = record {
  cursor = p.cursor + 1;
  lineno = (if c == b'\n' then p.lineno + 1 else p.lineno);
  column = (if c == b'\n' then 1 else p.column + 1);
}

-- The loop of `collect_generic` on the bytes `w` and then `rest`.
collect_word :
    (w rest buffer : String) (tokens : List Token) (p : Position)
    → AllWordBytes w
    → StopsWord rest
    → length buffer + length w ≤ 1024
    → (q : Position) × (collect_generic_loop (w ++ rest) (state p buffer tokens (w ++ rest))
        ≡ ok (push_buffer generic_token (state q (buffer ++ w) tokens rest)))
unfolding collect_generic_loop match_delimiter collect_char step step_from word_byte
collect_word [] [] buffer tokens p plain stops fits =
    (p, ap (λ b. ok (push_buffer generic_token (state p b tokens []))) (sym (append-nil buffer)))
collect_word [] (c ∷ rest) buffer tokens p plain stops fits = (
  p,
  rw (stops, collect_generic_loop)
      (ap (λ b. ok (push_buffer generic_token (state p b tokens (c ∷ rest))))
        (sym (append-nil buffer))),
)
collect_word (c ∷ cs) rest buffer tokens p plain stops fits =
    let other : isspace c ≡ false = ground arith in
    let none_found = match_word c (cs ++ rest) plain.0 in
    let room : leb (length buffer + 1) 1024 ≡ true = ground arith in
    let (q, runs) =
      collect_word cs rest (buffer ++ c ∷ []) tokens (over c p) plain.1 stops
        (omega (arith, length-append buffer (c ∷ []))) in
    let goes_on : (isspace c || is_some (match_first delimiters (c ∷ cs ++ rest))) ≡ false =
      rw (other, none_found) refl in
    let collected : collect_char (state p buffer tokens (c ∷ cs ++ rest)) c
        ≡ ok (state p (buffer ++ c ∷ []) tokens (c ∷ cs ++ rest)) =
      rw (room, collect_char) refl in
    let first : collect_generic_loop (c ∷ cs ++ rest) (state p buffer tokens (c ∷ cs ++ rest))
        ≡ collect_generic_loop (cs ++ rest)
            (state (over c p) (buffer ++ c ∷ []) tokens (cs ++ rest)) =
      rw (goes_on, collect_generic_loop, collected) refl in
    (
      q,
      first
          ∙ runs
          ∙ ap (λ b. ok (push_buffer generic_token (state q b tokens rest)))
              (append_assoc buffer (c ∷ []) cs),
    )

-- A lexer whose loop ends, with tokens of the strings `ss`, within as many steps as there are bytes.
pub record Lexed (ss : List String) (self : Lexer) : Type 0 where
  pub last : Lexer
  pub runs : (fuel : ℕ) → length self.rest ≤ fuel → lexer_loop fuel self ≡ ok last
  pub same : texts last.token_list ≡ ss

pub full : NoneEmpty delimiters
full = ((λ e. cc), ((λ e. cc), tt))

pub lex_end : (p : Position) (tokens : List Token) → Lexed (texts tokens) (state p [] tokens [])
unfolding lexer_loop
lex_end p tokens = record { last = state p [] tokens []; runs = loop_end; same = refl }
  where
    loop_end :
        (fuel : ℕ) → 0 ≤ fuel → lexer_loop fuel (state p [] tokens []) ≡ ok (state p [] tokens [])
    loop_end zero h = refl
    loop_end (suc fuel) h = refl

lex_step :
    (ss : List String) (p : Position) (tokens : List Token) (c : ℕ) (cs : String) (next : Lexer)
    → lexer_step (state p [] tokens (c ∷ cs)) ≡ ok next
    → Lexed ss next
    → Lexed ss (state p [] tokens (c ∷ cs))
unfolding lexer_loop
lex_step ss p tokens c cs next stepped l = record { last = l.last; runs = loop_step; same = l.same }
  where
    loop_step :
        (fuel : ℕ)
        → length (c ∷ cs) ≤ fuel
        → lexer_loop fuel (state p [] tokens (c ∷ cs)) ≡ ok l.last
    loop_step zero h = elim h [ ]
    loop_step (suc fuel) h =
        let shorter = lexer_step-shorter (state p [] tokens (c ∷ cs)) c cs full stepped in
        rw (stepped, ◌>>=◌) (l.runs fuel (omega arith))

-- A word becomes a token.
pub lex_word :
    (ss : List String) (p : Position) (tokens : List Token) (w rest : String)
    → IsWord w
    → StopsWord rest
    → ((q : Position) (token : Token)
        → token.string ≡ w
        → Lexed ss (state q [] (tokens ++ token ∷ []) rest))
    → Lexed ss (state p [] tokens (w ++ rest))
unfolding push_buffer push_token token_new word_byte
lex_word ss p tokens [] rest word stops next = absurd word
lex_word ss p tokens (c ∷ cs) rest ((plain, fits), no_comment, no_quote) stops next =
    let w : String = c ∷ cs in
    let other : isspace c ≡ false = ground (arith, plain.0) in
    let (q, runs) = collect_word w rest [] tokens p plain stops (omega arith) in
    let stepped =
      lexer_step-generic (state p [] tokens (w ++ rest)) c (cs ++ rest) other
        (starts_with_byte c b';' (cs ++ rest) ∙ no_comment) (match_word c (cs ++ rest) plain.0)
        (inr no_quote) in
    lex_step ss p tokens c (cs ++ rest) _ (stepped ∙ runs) (next q _ (until_nul_lem w plain))

-- A parenthesis becomes a token.
pub lex_paren :
    (ss : List String) (p : Position) (tokens : List Token) (c : ℕ) (rest : String)
    → isspace c ≡ false
    → (c == b';') ≡ false
    → match_first delimiters (c ∷ rest) ≡ some (c ∷ [])
    → ((q : Position) (token : Token)
        → token.string ≡ c ∷ []
        → Lexed ss (state q [] (tokens ++ token ∷ []) rest))
    → Lexed ss (state p [] tokens (c ∷ rest))
unfolding forward step step_from string_length push_token token_new
lex_paren ss p tokens c rest other no_comment found next =
    let stepped =
      lexer_step-delimiter (state p [] tokens (c ∷ rest)) c rest other
        (starts_with_byte c b';' rest ∙ no_comment) found in
    lex_step ss p tokens c rest _ stepped (next (over c p) _ refl)

-- A space before what is no space is passed over.
pub lex_space :
    (ss : List String) (p : Position) (tokens : List Token) (c : ℕ) (rest : String)
    → isspace c ≡ false
    → ((q : Position) → Lexed ss (state q [] tokens (c ∷ rest)))
    → Lexed ss (state p [] tokens (b' ' ∷ c ∷ rest))
unfolding skip_spaces step step_from isspace
lex_space ss p tokens c rest other next =
    let stepped = lexer_step-space (state p [] tokens (b' ' ∷ c ∷ rest)) b' ' (c ∷ rest) refl in
    let over_space : skip_spaces (b' ' ∷ c ∷ rest) (state p [] tokens (b' ' ∷ c ∷ rest))
        ≡ ok (state (over b' ' p) [] tokens (c ∷ rest)) =
      rw (other, skip_spaces) refl in
    lex_step ss p tokens b' ' (c ∷ rest) _ (stepped ∙ over_space) (next (over b' ' p))
