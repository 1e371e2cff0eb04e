-- ===== src/Core/Connect/Rules.antt =====
-- core/connect.c, `rule_match` and `connect_active_pair`: which task an active pair becomes.
use inet_lisp.Base.{
  ◌∙◌, ap, subst, ℕ, zero, suc, ◌<◌, ◌≡◌, ◌⊎◌, refl, List, [], ◌∷◌, Option, none, some, get_elem?,
  arith,
}
use inet_lisp.Net.Ctor.{Rule}
use inet_lisp.Core.Mod.{Task, active_pair}
use inet_lisp.Core.Connect.{rule_match, find_rule, or_else}

-- A rule is for the two constructors, in one order or the other.
abbrev pub Matches : ℕ → ℕ → Rule → Type 0
Matches cl cr rule =
    ((rule.left_node_ctor ≡ cl) × (rule.right_node_ctor ≡ cr))
    ⊎ ((rule.left_node_ctor ≡ cr) × (rule.right_node_ctor ≡ cl))

-- The task runs the rule with the principal wires in the order of the rule's constructors.
abbrev pub Fires : ℕ → ℕ → ℕ → ℕ → Rule → Task → Type 0
Fires left cl right cr rule task =
    ((task ≡ active_pair left right rule)
      × (rule.left_node_ctor ≡ cl)
      × (rule.right_node_ctor ≡ cr))
    ⊎ ((task ≡ active_pair right left rule)
        × (rule.left_node_ctor ≡ cr)
        × (rule.right_node_ctor ≡ cl))

-- The task is that of the first rule of the list that matches.
abbrev pub FirstFires : ℕ → ℕ → ℕ → ℕ → List Rule → Task → Type 0
FirstFires left cl right cr rules task =
    (i : ℕ) × (rule : Rule) × (get_elem? rules i ≡ some rule)
    × Fires left cl right cr rule task
    × ((j : ℕ) (other : Rule) → j < i → get_elem? rules j ≡ some other → ¬ Matches cl cr other)

or_else-none : (a b : Option Task) → or_else a b ≡ none → (a ≡ none) × (b ≡ none)
or_else-none none b e = (refl, e)
or_else-none (some t) b e = cc

get_or_rule : Rule → Option Rule → Rule
get_or_rule d none = d
get_or_rule d (some r) = r

module _ (left cl right cr : ℕ) where
  rule_match-some :
      (rule : Rule) {task : Task}
      → rule_match rule left cl right cr ≡ some task
      → Fires left cl right cr rule task
  unfolding rule_match
  rule_match-some rule e = ground arith

  rule_match-none : (rule : Rule) → rule_match rule left cl right cr ≡ none → ¬ Matches cl cr rule
  unfolding rule_match
  rule_match-none rule e = ground arith

  pub find_rule-some :
      (rules : List Rule) {task : Task}
      → find_rule rules left cl right cr ≡ some task
      → FirstFires left cl right cr rules task
  unfolding find_rule get_or_rule
  find_rule-some [] e = cc
  find_rule-some (rule ∷ rules) {task} e =
      go (λ t q. find_rule-some rules q) (rule_match rule left cl right cr) refl e
    where
      later :
          (i : ℕ)
          → ((j : ℕ) (o : Rule) → j < i → get_elem? rules j ≡ some o → ¬ Matches cl cr o)
          → rule_match rule left cl right cr ≡ none
          → (j : ℕ) (o : Rule) → j < suc i
          → get_elem? (rule ∷ rules) j ≡ some o
          → ¬ Matches cl cr o
      later i first p zero o l g =
          subst (λ r. ¬ Matches cl cr r) (ap (get_or_rule rule) g) (rule_match-none rule p)
      later i first p (suc j) o l g = first j o (omega arith) g

      go :
          ((t : Task)
            → find_rule rules left cl right cr ≡ some t
            → FirstFires left cl right cr rules t)
          → (o : Option Task) → rule_match rule left cl right cr ≡ o
          → or_else o (find_rule rules left cl right cr) ≡ some task
          → FirstFires left cl right cr (rule ∷ rules) task
      go ih (some t) p e = (0, rule, refl, rule_match-some rule (p ∙ e), λ j o l. elim l [ ])
      go ih none p e =
          let (i, r, g, fires, first) = ih task e in (suc i, r, g, fires, later i first p)

  pub find_rule-none :
      (rules : List Rule)
      → find_rule rules left cl right cr ≡ none
      → (i : ℕ) (rule : Rule) → get_elem? rules i ≡ some rule
      → ¬ Matches cl cr rule
  unfolding find_rule get_or_rule
  find_rule-none [] e i rule g = cc
  find_rule-none (r ∷ rules) e zero rule g =
      subst (λ r. ¬ Matches cl cr r) (ap (get_or_rule r) g)
        (rule_match-none r (or_else-none (rule_match r left cl right cr) _ e).0)
  find_rule-none (r ∷ rules) e (suc i) rule g =
      find_rule-none rules (or_else-none (rule_match r left cl right cr) _ e).1 i rule g
