-- ===== src/Std/Sexp/Parse.antt =====
-- packages/std/sexp/sexp.c: `parse_list` on the tokens of trees of strings.
use mathlib.Core.List.{append_assoc}
use inet_lisp.Base.{
  ℕ, zero, suc, ◌+◌, ◌*◌, ◌≤◌, ◌≡◌, refl, sym, ap, subst, ◌∙◌, length-append, List, [], ◌∷◌, ◌++◌,
  map, true, false, some, length, arith, Result, ok, ◌>>=◌,
}
use inet_lisp.Std.String.{String, string_equal}
use inet_lisp.Std.Lexer.{Token}
use inet_lisp.Std.Sexp.{
  Sexp, SexpList, atom_sexp, list_sexp, sexp_nil, sexp_cons, left_paren, right_paren, parse_sexp,
  parse_list,
}

-- What an s-expression says: its strings, without the positions and the kinds of its tokens.
mutual
  pub data Tree : Type 0 where
    leaf : String → Tree
    node : TreeList → Tree

  pub data TreeList : Type 0 where
    tree_nil : TreeList
    tree_cons : Tree → TreeList → TreeList

unfoldable mutual
  pub shape : Sexp → Tree
  shape (atom_sexp token) = leaf token.string
  shape (list_sexp start_token end_token sexp_list) = node (shapes sexp_list)

  pub shapes : SexpList → TreeList
  shapes sexp_nil = tree_nil
  shapes (sexp_cons sexp sexp_list) = tree_cons (shape sexp) (shapes sexp_list)

unfoldable mutual
  pub strings_of : Tree → List String
  strings_of (leaf s) = s ∷ []
  strings_of (node ts) = left_paren ∷ strings_of_list ts ++ right_paren ∷ []

  pub strings_of_list : TreeList → List String
  strings_of_list tree_nil = []
  strings_of_list (tree_cons t ts) = strings_of t ++ strings_of_list ts

-- A string that is not a parenthesis.
pub record IsAtom (s : String) : Type 0 where
  pub not_left : string_equal s left_paren ≡ false
  pub not_right : string_equal s right_paren ≡ false

unfoldable mutual
  pub AllLeaves : (String → Type 0) → Tree → Type 0
  AllLeaves P (leaf s) = P s
  AllLeaves P (node ts) = AllLeavesOf P ts

  pub AllLeavesOf : (String → Type 0) → TreeList → Type 0
  AllLeavesOf P tree_nil = Unit
  AllLeavesOf P (tree_cons t ts) = AllLeaves P t × AllLeavesOf P ts

abbrev pub texts : List Token → List String
texts tokens = map (λ t. t.string) tokens

-- the strings at which a list ends
abbrev pub Stops : List String → Type 0
Stops [] = Unit
Stops (s ∷ rest) = s ≡ right_paren

abbrev head_or : String → List String → String
head_or d [] = d
head_or d (s ∷ ss) = s

abbrev tail_of : List String → List String
tail_of [] = []
tail_of (s ∷ ss) = ss

-- A token list whose strings are known to start with `s`.
token_at :
    (tokens : List Token) (s : String) (ss : List String)
    → texts tokens ≡ s ∷ ss
    → (token : Token) × (rest : List Token) × (tokens ≡ token ∷ rest)
      × (token.string ≡ s)
      × (texts rest ≡ ss)
token_at [] s ss e = cc
token_at (token ∷ rest) s ss e = (token, rest, refl, ap (head_or s) e, ap tail_of e)

-- The first string of a tree is not a right parenthesis.
first_of :
    (t : Tree)
    → AllLeaves IsAtom t
    → (s : String) × (ss : List String) × (strings_of t ≡ s ∷ ss)
      × (string_equal s right_paren ≡ false)
unfolding strings_of AllLeaves string_equal
first_of (leaf s) plain = (s, [], refl, plain.not_right)
first_of (node ts) plain = (left_paren, _, refl, refl)

length-texts : (tokens : List Token) → length (texts tokens) ≡ length tokens
length-texts [] = refl
length-texts (token ∷ tokens) = ap suc (length-texts tokens)

first_token :
    (t : Tree) (tokens : List Token) (rest : List String)
    → AllLeaves IsAtom t
    → texts tokens ≡ strings_of t ++ rest
    → (token : Token) × (left : List Token) × (tokens ≡ token ∷ left)
      × (string_equal token.string right_paren ≡ false)
first_token t tokens rest plain e =
    let (s, ss, strings, other) = first_of t plain in
    let (token, left, at_token, same, behind) =
      token_at tokens s (ss ++ rest) (e ∙ ap (λ l. l ++ rest) strings) in
    (token, left, at_token, rw same other)

-- Behind a tree there are fewer tokens.
fewer :
    (t : Tree) (tokens left : List Token) (rest : List String)
    → AllLeaves IsAtom t
    → texts tokens ≡ strings_of t ++ rest
    → texts left ≡ rest
    → suc (length left) ≤ length tokens
fewer t tokens left rest plain e behind =
    let (s, ss, strings, other) = first_of t plain in
    let total = ap length e ∙ length-append (strings_of t) rest in
    omega
      (arith, length-texts tokens, length-texts left, total, ap length behind, ap length strings)

-- What `parse_sexp` gives on the strings of `t` and then `rest`.
record Parsed (t : Tree) (rest : List String) (run : Result (Sexp × List Token)) : Type 0 where
  sexp : Sexp
  left : List Token
  runs : run ≡ ok (sexp, left)
  same : shape sexp ≡ t
  behind : texts left ≡ rest

pub record ParsedList (ts : TreeList) (rest : List String) (run : Result (SexpList × List Token))
    : Type 0 where
  pub sexp_list : SexpList
  pub left : List Token
  pub runs : run ≡ ok (sexp_list, left)
  pub same : shapes sexp_list ≡ ts
  pub behind : texts left ≡ rest

module _ (fuel : ℕ) {tokens : List Token} {token : Token} {left : List Token}
    (at_token : tokens ≡ token ∷ left) where
  parse_sexp-leaf :
      string_equal token.string left_paren ≡ false
      → parse_sexp (suc fuel) tokens ≡ ok (atom_sexp token, left)
  unfolding parse_sexp
  parse_sexp-leaf other = rw (at_token, other) refl

  parse_sexp-node :
      {sexp_list : SexpList} {rest after : List Token} {end_token : Token}
      → token.string ≡ left_paren
      → parse_list fuel left ≡ ok (sexp_list, rest)
      → rest ≡ end_token ∷ after
      → parse_sexp (suc fuel) tokens ≡ ok (list_sexp token (some end_token) sexp_list, after)
  unfolding parse_sexp string_equal
  parse_sexp-node is_left inner at_end =
      let opens : string_equal token.string left_paren ≡ true = rw is_left refl in
      rw (at_token, opens, inner, at_end) refl

  parse_list-cons :
      {sexp : Sexp} {sexp_list : SexpList} {rest after : List Token}
      → string_equal token.string right_paren ≡ false
      → parse_sexp fuel tokens ≡ ok (sexp, rest)
      → parse_list fuel rest ≡ ok (sexp_list, after)
      → parse_list (suc fuel) tokens ≡ ok (sexp_cons sexp sexp_list, after)
  unfolding parse_list
  parse_list-cons other first later =
      let first_at : parse_sexp fuel (token ∷ left) ≡ ok _ = rw at_token at first in
      rw (at_token, other, first_at, ◌>>=◌, later) refl

mutual
  unfolding parse_sexp parse_list strings_of strings_of_list AllLeaves AllLeavesOf shape shapes
      string_equal

  parse_sexp_lem :
      (fuel : ℕ) (t : Tree) (tokens : List Token) (rest : List String)
      → AllLeaves IsAtom t
      → texts tokens ≡ strings_of t ++ rest
      → 2 * length tokens ≤ fuel
      → Parsed t rest (parse_sexp fuel tokens)
  parse_sexp_lem zero t tokens rest plain e enough =
      let (token, left, at_token, other) = first_token t tokens rest plain e in
      absurd (omega (arith, ap length at_token))
  parse_sexp_lem (suc fuel) (leaf s) tokens rest plain e enough =
      let (token, left, at_token, same, behind) = token_at tokens s rest e in
      record {
        sexp = atom_sexp token;
        left = left;
        runs = parse_sexp-leaf fuel at_token (rw same plain.not_left);
        same = ap leaf same;
        behind = behind;
      }
  parse_sexp_lem (suc fuel) (node ts) tokens rest plain e enough =
      let inner : List String = strings_of_list ts in
      let (token, left, at_token, same, behind) =
        token_at tokens left_paren ((inner ++ right_paren ∷ []) ++ rest) e in
      let p =
        parse_list_lem fuel ts left (right_paren ∷ rest) plain refl
          (behind ∙ append_assoc inner (right_paren ∷ []) rest)
          (omega (arith, ap length at_token)) in
      let (end_token, behind_end, at_end, same_end, after) =
        token_at p.left right_paren rest p.behind in
      record {
        sexp = list_sexp token (some end_token) p.sexp_list;
        left = behind_end;
        runs = parse_sexp-node fuel at_token same p.runs at_end;
        same = ap node p.same;
        behind = after;
      }

  pub parse_list_lem :
      (fuel : ℕ) (ts : TreeList) (tokens : List Token) (rest : List String)
      → AllLeavesOf IsAtom ts
      → Stops rest
      → texts tokens ≡ strings_of_list ts ++ rest
      → 2 * length tokens + 1 ≤ fuel
      → ParsedList ts rest (parse_list fuel tokens)
  parse_list_lem zero ts tokens rest plain stops e enough = absurd (omega arith)
  parse_list_lem (suc fuel) tree_nil [] rest plain stops e enough = record {
    sexp_list = sexp_nil;
    left = [];
    runs = refl;
    same = refl;
    behind = e;
  }
  parse_list_lem (suc fuel) tree_nil (token ∷ tokens) rest plain stops e enough =
      let is_right : token.string ≡ right_paren = subst (λ l. Stops l) (sym e) stops in
      record {
        sexp_list = sexp_nil;
        left = token ∷ tokens;
        runs = rw is_right refl;
        same = refl;
        behind = e;
      }
  parse_list_lem (suc fuel) (tree_cons t ts) tokens rest plain stops e enough =
      let later : List String = strings_of_list ts ++ rest in
      let split : texts tokens ≡ strings_of t ++ later =
        e ∙ append_assoc (strings_of t) (strings_of_list ts) rest in
      let (token, left, at_token, other) = first_token t tokens later plain.0 split in
      let p = parse_sexp_lem fuel t tokens later plain.0 split (omega arith) in
      let shorter = fewer t tokens p.left later plain.0 split p.behind in
      let q = parse_list_lem fuel ts p.left rest plain.1 stops p.behind (omega arith) in
      record {
        sexp_list = sexp_cons p.sexp q.sexp_list;
        left = q.left;
        runs = parse_list-cons fuel at_token other p.runs q.runs;
        same = rw (p.same, q.same) refl;
        behind = q.behind;
      }
