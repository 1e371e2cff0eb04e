-- ===== src/Lang/Parse/Grammar.antt =====
-- lang/parse_exp.c against the grammar of expressions, as rules.
use inet_lisp.Base.{
  ℕ, ◌≡◌, ◌≢◌, ◌↔◌, ◌||◌, refl, sym, ap, subst, ◌∙◌, inl, inr, List, [], ◌∷◌, true, false, Option,
  Result, ok, ◌>>=◌, Bool-cases, >>=-eq-ok, ok_injective,
}
use inet_lisp.Net.Ctor.{Name}
use inet_lisp.Std.String.{String, string_copy, string_equal, string_parse_xint}
use inet_lisp.Std.Lexer.{
  Token, TokenKind, int_token, float_token, generic_token, delimiter_token, string_token,
}
use mathlib.Core.Bool.{false≢true, or-true}
use inet_lisp.Std.String.Laws.{string_equal_refl, string_equal_eq}
use inet_lisp.Std.Sexp.{
  Sexp, SexpList, atom_sexp, list_sexp, sexp_nil, sexp_cons, sexp_string, sexp_starts_with,
}
use inet_lisp.Lang.Exp.{
  Exp, ExpList, exp_var, exp_int, exp_float, exp_null, exp_ap, exp_assign, exp_nil, exp_cons,
}
use inet_lisp.Lang.Parse.{
  equals_name, assign_name, is_assign, parse_atom, parse_exp, parse_exp_list, parse_assign,
}

-- The two words that open an assignment.
pub data OpensAssign : Sexp → Type 0 where
  equals_sign : (t : Token) → t.string ≡ b'=' ∷ [] → OpensAssign (atom_sexp t)
  assign_word :
      (t : Token)
      → t.string ≡ b'a' ∷ b's' ∷ b's' ∷ b'i' ∷ b'g' ∷ b'n' ∷ []
      → OpensAssign (atom_sexp t)

module _ (a : Token) (z : Option Token) (l : SexpList) where
  opened : {s : Sexp} → OpensAssign s → is_assign (list_sexp a z (sexp_cons s l)) ≡ true
  unfolding is_assign sexp_starts_with
  opened (equals_sign t e) = rw (e, string_equal_refl equals_name)
  opened (assign_word t e) =
      rw (e, string_equal_refl assign_name) (or-true (string_equal assign_name equals_name))

  opens : (s : Sexp) → is_assign (list_sexp a z (sexp_cons s l)) ≡ true → OpensAssign s
  unfolding is_assign sexp_starts_with
  opens (list_sexp b y k) e = cc
  opens (atom_sexp t) e = elim (Bool-cases (string_equal t.string equals_name)) [
    | inl same ↦ equals_sign t (string_equal_eq _ _ same)
    | inr other ↦
        assign_word t
          (string_equal_eq _ _ (sym (ap (λ b. b || string_equal t.string assign_name) other) ∙ e))
  ]

  unopened : (s : Sexp) → ¬ OpensAssign s → is_assign (list_sexp a z (sexp_cons s l)) ≡ false
  unopened s plain = elim (Bool-cases (is_assign (list_sexp a z (sexp_cons s l)))) [
    | inl assign ↦ absurd (plain (opens s assign))
    | inr other ↦ other
  ]

module _ (string_parse_double : String → ℕ) where
  atom-var :
      (k : TokenKind) (s : String)
      → k ≢ int_token
      → k ≢ float_token
      → parse_atom string_parse_double k s ≡ exp_var s
  unfolding parse_atom string_copy
  atom-var int_token s p q = absurd (p refl)
  atom-var float_token s p q = absurd (q refl)
  atom-var _ s p q = refl

  -- The grammar: a token is an integer, a double or else a name; a list that starts with one of the
  -- two words has names and an expression at its end, or nothing; any other list that is not empty
  -- is an application.
  mutual
    pub data Writes : Sexp → Exp → Type 0 where
      writes_int :
          (t : Token)
          → t.kind ≡ int_token
          → Writes (atom_sexp t) (exp_int (string_parse_xint t.string))
      writes_float :
          (t : Token)
          → t.kind ≡ float_token
          → Writes (atom_sexp t) (exp_float (string_parse_double t.string))
      writes_var :
          (t : Token)
          → t.kind ≢ int_token
          → t.kind ≢ float_token
          → Writes (atom_sexp t) (exp_var t.string)
      writes_ap :
          {a : Token} {z : Option Token} {s : Sexp} {l : SexpList} {e : Exp} {es : ExpList}
          → ¬ OpensAssign s
          → Writes s e
          → WritesList l es
          → Writes (list_sexp a z (sexp_cons s l)) (exp_ap e es)
      writes_assign :
          {a : Token} {z : Option Token} {s : Sexp} {l : SexpList} {ns : List Name} {e : Exp}
          → OpensAssign s
          → WritesAssign l ns e
          → Writes (list_sexp a z (sexp_cons s l)) (exp_assign ns e)

    pub data WritesList : SexpList → ExpList → Type 0 where
      writes_nil : WritesList sexp_nil exp_nil
      writes_cons :
          {s : Sexp} {l : SexpList} {e : Exp} {es : ExpList}
          → Writes s e
          → WritesList l es
          → WritesList (sexp_cons s l) (exp_cons e es)

    pub data WritesAssign : SexpList → List Name → Exp → Type 0 where
      writes_nothing : WritesAssign sexp_nil [] exp_null
      writes_value : {s : Sexp} {e : Exp} → Writes s e → WritesAssign (sexp_cons s sexp_nil) [] e
      writes_name :
          {t : Token} {s : Sexp} {l : SexpList} {ns : List Name} {e : Exp}
          → WritesAssign (sexp_cons s l) ns e
          → WritesAssign (sexp_cons (atom_sexp t) (sexp_cons s l)) (t.string ∷ ns) e

  atom-Writes :
      (t : Token) (k : TokenKind)
      → t.kind ≡ k
      → Writes (atom_sexp t) (parse_atom string_parse_double k t.string)
  unfolding parse_atom string_copy
  atom-Writes t int_token e = writes_int t e
  atom-Writes t float_token e = writes_float t e
  atom-Writes t generic_token e = writes_var t (λ i. cc) (λ i. cc)
  atom-Writes t delimiter_token e = writes_var t (λ i. cc) (λ i. cc)
  atom-Writes t string_token e = writes_var t (λ i. cc) (λ i. cc)

  module _ (a : Token) (z : Option Token) (s : Sexp) (l : SexpList) where
    abbrev as_assign : Result Exp
    as_assign = parse_assign string_parse_double l >>= (λ r. ok (exp_assign r.0 r.1))

    abbrev as_ap : Result Exp
    as_ap = parse_exp string_parse_double s >>= (λ target.
        parse_exp_list string_parse_double l >>= (λ arg_list. ok (exp_ap target arg_list)))

    parse_exp-ap :
        is_assign (list_sexp a z (sexp_cons s l)) ≡ false
        → parse_exp string_parse_double (list_sexp a z (sexp_cons s l)) ≡ as_ap
    unfolding parse_exp
    parse_exp-ap plain = ap (λ b. elim b [ true ↦ as_assign | false ↦ as_ap ]) plain

    parse_exp-assign :
        is_assign (list_sexp a z (sexp_cons s l)) ≡ true
        → parse_exp string_parse_double (list_sexp a z (sexp_cons s l)) ≡ as_assign
    unfolding parse_exp
    parse_exp-assign assign = ap (λ b. elim b [ true ↦ as_assign | false ↦ as_ap ]) assign

  mutual
    unfolding parse_exp sexp_string

    written_exp : {s : Sexp} {e : Exp} → Writes s e → parse_exp string_parse_double s ≡ ok e
    written_exp (writes_int t k) = ap (λ x. ok (parse_atom string_parse_double x t.string)) k
    written_exp (writes_float t k) = ap (λ x. ok (parse_atom string_parse_double x t.string)) k
    written_exp (writes_var t p q) = ap ok (atom-var t.kind t.string p q)
    written_exp (writes_ap {a} {z} {s} {l} plain w ws) =
        parse_exp-ap a z s l (unopened a z l s plain)
        ∙ rw (written_exp w, ◌>>=◌, written_list ws) refl
    written_exp (writes_assign {a} {z} {s} {l} opening w) =
        parse_exp-assign a z s l (opened a z l opening) ∙ rw (written_assign w, ◌>>=◌) refl

    written_list :
        {l : SexpList} {es : ExpList}
        → WritesList l es
        → parse_exp_list string_parse_double l ≡ ok es
    written_list writes_nil = refl
    written_list (writes_cons w ws) = rw (written_exp w, ◌>>=◌, written_list ws) refl

    written_assign :
        {l : SexpList} {ns : List Name} {e : Exp}
        → WritesAssign l ns e
        → parse_assign string_parse_double l ≡ ok (ns, e)
    written_assign writes_nothing = refl
    written_assign (writes_value w) = rw (written_exp w, ◌>>=◌) refl
    written_assign (writes_name w) = rw (written_assign w, ◌>>=◌) refl

  mutual
    unfolding parse_exp sexp_string

    parsed_exp : (s : Sexp) {e : Exp} → parse_exp string_parse_double s ≡ ok e → Writes s e
    parsed_exp (atom_sexp t) h =
        subst (λ e. Writes (atom_sexp t) e) (ok_injective h) (atom-Writes t t.kind refl)
    parsed_exp (list_sexp a z sexp_nil) h = cc
    parsed_exp (list_sexp a z (sexp_cons s l)) {e} h =
        elim (Bool-cases (is_assign (list_sexp a z (sexp_cons s l)))) [
          | inl assign ↦
              let (r, run, same) =
                >>=-eq-ok (parse_assign string_parse_double l) (λ r. ok (exp_assign r.0 r.1))
                  (sym (parse_exp-assign a z s l assign) ∙ h) in
              subst (λ x. Writes (list_sexp a z (sexp_cons s l)) x) (ok_injective same)
                (writes_assign (opens a z l s assign) (parsed_assign l run))
          | inr plain ↦
              let (f, run, more) =
                >>=-eq-ok (parse_exp string_parse_double s)
                  (λ target.
                    parse_exp_list string_parse_double l
                    >>= (λ arg_list. ok (exp_ap target arg_list)))
                  (sym (parse_exp-ap a z s l plain) ∙ h) in
              let (es, runs, same) =
                >>=-eq-ok (parse_exp_list string_parse_double l)
                  (λ arg_list. ok (exp_ap f arg_list)) more in
              subst (λ x. Writes (list_sexp a z (sexp_cons s l)) x) (ok_injective same)
                (writes_ap (λ o. false≢true (sym plain ∙ opened a z l o)) (parsed_exp s run)
                  (parsed_list l runs))
        ]

    parsed_list :
        (l : SexpList) {es : ExpList}
        → parse_exp_list string_parse_double l ≡ ok es
        → WritesList l es
    parsed_list sexp_nil h = subst (λ es. WritesList sexp_nil es) (ok_injective h) writes_nil
    parsed_list (sexp_cons s l) h =
        let (e, run, more) = >>=-eq-ok (parse_exp string_parse_double s) _ h in
        let (es, runs, same) = >>=-eq-ok (parse_exp_list string_parse_double l) _ more in
        subst (λ x. WritesList (sexp_cons s l) x) (ok_injective same)
          (writes_cons (parsed_exp s run) (parsed_list l runs))

    parsed_assign :
        (l : SexpList) {ns : List Name} {e : Exp}
        → parse_assign string_parse_double l ≡ ok (ns, e)
        → WritesAssign l ns e
    parsed_assign sexp_nil h =
        subst (λ r. WritesAssign sexp_nil r.0 r.1) (ok_injective h) writes_nothing
    parsed_assign (sexp_cons s sexp_nil) {ns} {e} h =
        let (x, run, same) = >>=-eq-ok (parse_exp string_parse_double s) (λ exp. ok ([], exp)) h in
        let both = ok_injective same in
        subst (λ r. WritesAssign (sexp_cons s sexp_nil) r.0 r.1) both
          (writes_value (parsed_exp s run))
    parsed_assign (sexp_cons (atom_sexp t) (sexp_cons s l)) h =
        let (r, run, same) =
          >>=-eq-ok (parse_assign string_parse_double (sexp_cons s l))
            (λ r. ok (t.string ∷ r.0, r.1)) h in
        subst (λ q. WritesAssign (sexp_cons (atom_sexp t) (sexp_cons s l)) q.0 q.1)
          (ok_injective same) (writes_name (parsed_assign (sexp_cons s l) run))
    parsed_assign (sexp_cons (list_sexp a z k) (sexp_cons s l)) h = cc

  -- `parse_exp` gives an expression exactly where the grammar has the s-expression write it.
  pub parse_exp-Writes :
      (s : Sexp) (e : Exp) → (parse_exp string_parse_double s ≡ ok e) ↔ Writes s e
  parse_exp-Writes s e = (parsed_exp s, written_exp)
