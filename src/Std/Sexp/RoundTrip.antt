-- ===== src/Std/Sexp/RoundTrip.antt =====
-- packages/std/sexp/sexp.c: an s-expression of words, printed and read again.
use mathlib.Core.List.{append_assoc, append-nil}
use inet_lisp.Base.{
  ℕ, ◌+◌, ◌*◌, ◌≡◌, refl, sym, ap, subst, ◌∙◌, List, [], ◌∷◌, ◌++◌, map, Bool, true, false,
  if◌then◌else◌, Option, none, some, length, arith, ok, ◌>>=◌,
}
use inet_lisp.Std.String.{String, isspace, string_equal}
use inet_lisp.Std.Lexer.{
  Lexer, TokenKind, generic_token, delimiter_token, int_token, float_token, string_token, Token,
  lexer_new, lexer_init, lexer_add_delimiter, lexer_run, postprocess_int, postprocess_float,
  with_double,
}
use inet_lisp.Std.Sexp.{
  Sexp, SexpList, atom_sexp, list_sexp, sexp_nil, sexp_cons, left_paren, right_paren, sexp_lexer,
  sexp_parse_list, token_print, atom_sexp_print, sexp_print, sexp_list_print, is_empty,
}
use inet_lisp.Std.Sexp.Parse.{
  shape, shapes, strings_of, strings_of_list, IsAtom, AllLeaves, AllLeavesOf, texts, parse_list_lem,
}
use inet_lisp.Std.Sexp.Lexing.{
  Position, state, word_byte, IsWord, StopsWord, match_left, match_right, Lexed, lex_end, lex_word,
  lex_paren, lex_space,
}

abbrev IsPrintedPlain : TokenKind → Type 0
IsPrintedPlain string_token = ⊥
IsPrintedPlain _ = Unit

-- An s-expression whose atoms are words, and no strings in quotes.
unfoldable mutual
  pub IsPlain : Sexp → Type 0
  IsPlain (atom_sexp token) = IsPrintedPlain token.kind × IsWord token.string
  IsPlain (list_sexp start_token end_token sexp_list) = IsPlainList sexp_list

  pub IsPlainList : SexpList → Type 0
  IsPlainList sexp_nil = Unit
  IsPlainList (sexp_cons sexp sexp_list) = IsPlain sexp × IsPlainList sexp_list

print_plain : (kind : TokenKind) (s : String) → IsPrintedPlain kind → token_print kind s ≡ s
unfolding token_print
print_plain generic_token s plain = refl
print_plain delimiter_token s plain = refl
print_plain int_token s plain = refl
print_plain float_token s plain = refl
print_plain string_token s plain = absurd plain

word_start : (w : String) → IsWord w → (c : ℕ) × (cs : String) × (w ≡ c ∷ cs) × (isspace c ≡ false)
unfolding word_byte
word_start [] word = absurd word
word_start (c ∷ cs) ((plain, fits), no_comment, no_quote) = (c, cs, refl, ground (arith, plain.0))

-- The print of an s-expression does not start with a space.
print_start :
    (s : Sexp) → IsPlain s → (c : ℕ) × (cs : String) × (sexp_print s ≡ c ∷ cs) × (isspace c ≡ false)
unfolding sexp_print IsPlain atom_sexp_print isspace
print_start (atom_sexp token) (printed, word) =
    let (c, cs, e, other) = word_start token.string word in
    (c, cs, print_plain token.kind token.string printed ∙ e, other)
print_start (list_sexp start_token end_token sexp_list) plain = (b'(', _, refl, refl)

list_start :
    (s : Sexp) (l : SexpList)
    → IsPlain s
    → (c : ℕ) × (cs : String) × (sexp_list_print (sexp_cons s l) ≡ c ∷ cs) × (isspace c ≡ false)
unfolding sexp_list_print
list_start s sexp_nil plain = print_start s plain
list_start s (sexp_cons next l) plain =
    let (c, cs, e, other) = print_start s plain in
    (c, cs ++ b' ' ∷ sexp_list_print (sexp_cons next l), rw e refl, other)

texts-append :
    (a : List Token) (token : Token) → texts (a ++ token ∷ []) ≡ texts a ++ token.string ∷ []
texts-append [] token = refl
texts-append (t ∷ a) token = ap (λ l. t.string ∷ l) (texts-append a token)

-- Any lexer with tokens of the strings `from` and then `more`, at `rest`.
abbrev Continues : List String → List String → List String → String → Type 0
Continues ss from more rest =
    (q : Position) (tokens : List Token)
    → texts tokens ≡ from ++ more
    → Lexed ss (state q [] tokens rest)

stops_right : (rest : String) → StopsWord (b')' ∷ rest)
unfolding isspace
stops_right rest = rw (match_right rest) refl

brackets :
    (from ss : List String)
    → ((from ++ left_paren ∷ []) ++ ss) ++ right_paren ∷ []
      ≡ from ++ (left_paren ∷ (ss ++ (right_paren ∷ [])))
brackets from ss =
    append_assoc (from ++ left_paren ∷ []) ss (right_paren ∷ [])
    ∙ append_assoc from (left_paren ∷ []) (ss ++ right_paren ∷ [])

mutual
  unfolding sexp_print sexp_list_print IsPlain IsPlainList shape shapes strings_of strings_of_list
      atom_sexp_print isspace

  lex_sexp :
      (ss from : List String) (s : Sexp) (p : Position) (tokens : List Token) (rest : String)
      → IsPlain s
      → StopsWord rest
      → texts tokens ≡ from
      → Continues ss from (strings_of (shape s)) rest
      → Lexed ss (state p [] tokens (sexp_print s ++ rest))
  lex_sexp ss from (atom_sexp token) p tokens rest (printed, word) stops at_from next =
      rw (print_plain token.kind token.string printed) (
        lex_word ss p tokens token.string rest word stops
          λ q t same. next q (tokens ++ t ∷ []) (texts-append tokens t ∙ rw (at_from, same) refl))
  lex_sexp ss from (list_sexp start_token end_token l) p tokens rest plain stops at_from next =
      let text = sexp_list_print l in
      lex_paren ss p tokens b'(' ((text ++ b')' ∷ []) ++ rest) refl refl (match_left _) λ q t same.
        rw (append_assoc text (b')' ∷ []) rest) (
          lex_list ss (from ++ left_paren ∷ []) l q (tokens ++ t ∷ []) (b')' ∷ rest) plain
            (stops_right rest) (texts-append tokens t ∙ rw (at_from, same) refl)
            λ q₂ tokens₂ at₂.
              lex_paren ss q₂ tokens₂ b')' rest refl refl (match_right rest) λ q₃ t₃ same₃.
                next q₃ (tokens₂ ++ t₃ ∷ []) (
                  texts-append tokens₂ t₃
                  ∙ rw (at₂, same₃) (brackets from (strings_of_list (shapes l)))))

  lex_list :
      (ss from : List String) (l : SexpList) (p : Position) (tokens : List Token) (rest : String)
      → IsPlainList l
      → StopsWord rest
      → texts tokens ≡ from
      → Continues ss from (strings_of_list (shapes l)) rest
      → Lexed ss (state p [] tokens (sexp_list_print l ++ rest))
  lex_list ss from sexp_nil p tokens rest plain stops at_from next =
      next p tokens (at_from ∙ sym (append-nil from))
  lex_list ss from (sexp_cons s sexp_nil) p tokens rest plain stops at_from next =
      lex_sexp ss from s p tokens rest plain.0 stops at_from λ q tokens₁ at₁.
        next q tokens₁ (at₁ ∙ ap (λ x. from ++ x) (sym (append-nil (strings_of (shape s)))))
  lex_list ss from (sexp_cons s (sexp_cons t l)) p tokens rest plain stops at_from next =
      let text = sexp_list_print (sexp_cons t l) in
      let (c, cs, start, other) = list_start t l plain.1.0 in
      rw (append_assoc (sexp_print s) (b' ' ∷ text) rest) (
        lex_sexp ss from s p tokens (b' ' ∷ text ++ rest) plain.0 refl at_from λ q tokens₁ at₁.
          rw start (
            lex_space ss q tokens₁ c (cs ++ rest) other λ q₂.
              subst (λ x. Lexed ss (state q₂ [] tokens₁ (x ++ rest))) start
                (lex_list ss (from ++ strings_of (shape s)) (sexp_cons t l) q₂ tokens₁ rest plain.1
                  stops at₁
                  λ q₃ tokens₃ at₃. next q₃ tokens₃ (
                    at₃
                    ∙ append_assoc from (strings_of (shape s))
                        (strings_of_list (shapes (sexp_cons t l)))))))

texts-map :
    (f : Token → Token) (tokens : List Token)
    → ((t : Token) → (f t).string ≡ t.string)
    → texts (map f tokens) ≡ texts tokens
texts-map f [] h = refl
texts-map f (t ∷ tokens) h = rw (h t, texts-map f tokens h) refl

string-postprocess_int : (t : Token) → (postprocess_int t).string ≡ t.string
unfolding postprocess_int
string-postprocess_int t = ground arith

string-with_double : (o : Option ℕ) (t : Token) → (with_double o t).string ≡ t.string
unfolding with_double
string-with_double none t = refl
string-with_double (some bits) t = refl

string-postprocess_float :
    (strtod : String → Option ℕ) (t : Token) → (postprocess_float strtod t).string ≡ t.string
unfolding postprocess_float
string-postprocess_float strtod t = ground (arith, string-with_double (strtod t.string) t)

texts-if :
    (b : Bool) (f : List Token → List Token) (tokens : List Token)
    → ((ts : List Token) → texts (f ts) ≡ texts ts)
    → texts (if b then f tokens else tokens) ≡ texts tokens
texts-if true f tokens h = h tokens
texts-if false f tokens h = refl

-- A word is no parenthesis.
IsWord-IsAtom : (w : String) → IsWord w → IsAtom w
unfolding string_equal word_byte
IsWord-IsAtom [] word = absurd word
IsWord-IsAtom (c ∷ cs) ((plain, fits), no_comment, no_quote) = record {
  not_left = ground (arith, plain.0);
  not_right = ground (arith, plain.0);
}

mutual
  unfolding IsPlain IsPlainList AllLeaves AllLeavesOf shape shapes

  plain_leaves : (s : Sexp) → IsPlain s → AllLeaves IsAtom (shape s)
  plain_leaves (atom_sexp token) plain = IsWord-IsAtom token.string plain.1
  plain_leaves (list_sexp start_token end_token l) plain = plain_leaves_list l plain

  plain_leaves_list : (l : SexpList) → IsPlainList l → AllLeavesOf IsAtom (shapes l)
  plain_leaves_list sexp_nil plain = tt
  plain_leaves_list (sexp_cons s l) plain = (plain_leaves s plain.0, plain_leaves_list l plain.1)

-- What is left of the tokens is nothing.
no_texts : (tokens : List Token) → texts tokens ≡ [] → is_empty tokens ≡ true
no_texts [] e = refl
no_texts (t ∷ tokens) e = cc

module _ (strtod : String → Option ℕ) where
  -- A run of the lexer has tokens of the strings that its loop gives.
  lexer_run-Lexed :
      (text : String) (ss : List String)
      → Lexed ss (state (record { cursor = 0; lineno = 1; column = 1 }) [] [] text)
      → (last : Lexer) × (lexer_run strtod sexp_lexer text ≡ ok last) × (texts last.token_list ≡ ss)
  unfolding lexer_run sexp_lexer lexer_new lexer_init lexer_add_delimiter
  lexer_run-Lexed text ss lexed =
      let last = lexed.last in
      let ints = if last.enable_int then map postprocess_int last.token_list else last.token_list in
      let float : List Token → List Token = λ ts. map (postprocess_float strtod) ts in
      (
        record last {
          token_list = (if last.enable_float then map (postprocess_float strtod) ints else ints);
        },
        rw (lexed.runs (length text) (omega arith)) refl,
        texts-if last.enable_float float ints
              (λ ts. texts-map (postprocess_float strtod) ts (string-postprocess_float strtod))
            ∙ texts-if last.enable_int (λ ts. map postprocess_int ts) last.token_list
                (λ ts. texts-map postprocess_int ts string-postprocess_int)
            ∙ lexed.same,
      )

  -- A list of s-expressions whose atoms are words, printed with spaces between its elements, is read
  -- again: `sexp_parse_list` does not fail, and gives s-expressions of the same strings, whatever the
  -- C library takes for a double.
  pub sexp_parse_list-print :
      (l : SexpList)
      → IsPlainList l
      → (read : SexpList) × (sexp_parse_list strtod (sexp_list_print l) ≡ ok read)
        × (shapes read ≡ shapes l)
  unfolding sexp_parse_list
  sexp_parse_list-print l plain =
      let start : Position = record { cursor = 0; lineno = 1; column = 1 } in
      let text = sexp_list_print l in
      let strings = strings_of_list (shapes l) in
      let lexed : Lexed strings (state start [] [] (text ++ [])) =
        lex_list strings [] l start [] [] plain tt refl
          (λ q tokens at. subst (λ ss. Lexed ss (state q [] tokens [])) at (lex_end q tokens)) in
      let (last, runs, same) =
        lexer_run-Lexed text strings
          (subst (λ x. Lexed strings (state start [] [] x)) (append-nil text) lexed) in
      let tokens = last.token_list in
      let p =
        parse_list_lem (2 * length tokens + 1) (shapes l) tokens [] (plain_leaves_list l plain) tt
          (same ∙ sym (append-nil strings)) (omega arith) in
      (p.sexp_list, rw (runs, ◌>>=◌, p.runs, no_texts p.left p.behind) refl, p.same)
