-- ===== src/Core/Connect/Pair.antt =====
-- core/connect.c, `connect_active_pair` as a whole.
use inet_lisp.Base.{
  ℕ, suc, ◌≡◌, ◌≢◌, refl, List, [], ◌∷◌, ◌++◌, ◌==◌, if◌then◌else◌, Option, none, some, get_elem?,
  ok, arith, ap, ◌∙◌,
}
use inet_lisp.Net.Ctor.{NodeCtor, Rule}
use inet_lisp.Net.Heap.{
  principal_wire, Heap, PrincipalWire, load_principal, store_principal, load_node,
}
use inet_lisp.Net.Heap.Laws.{load_principal-store_principal}
use inet_lisp.Core.Mod.{Mod, Task, load_ctor, node_ctor_pointer}
use inet_lisp.Core.Connect.{
  rule_match, find_rule, or_else, set_oppsite, connect_active_pair, connect,
}
use inet_lisp.Core.Connect.Rules.{Matches, FirstFires, find_rule-some, find_rule-none}

-- What a search through the rules may answer: the first that matches, or none if none does.
abbrev pub Chosen : ℕ → ℕ → ℕ → ℕ → List Rule → Option Task → Type 0
Chosen left cl right cr rules (some task) = FirstFires left cl right cr rules task
Chosen left cl right cr rules none =
    (i : ℕ) (rule : Rule) → get_elem? rules i ≡ some rule → ¬ Matches cl cr rule

module _ (left cl right cr : ℕ) where
  find_rule-append :
      (xs ys : List Rule)
      → find_rule (xs ++ ys) left cl right cr
        ≡ or_else (find_rule xs left cl right cr) (find_rule ys left cl right cr)
  unfolding find_rule
  find_rule-append [] ys = refl
  find_rule-append (x ∷ xs) ys =
      ap (or_else (rule_match x left cl right cr)) (find_rule-append xs ys)
      ∙ or_else_assoc (rule_match x left cl right cr) _ _
    where
      or_else_assoc : (a b c : Option Task) → or_else a (or_else b c) ≡ or_else (or_else a b) c
      or_else_assoc none b c = refl
      or_else_assoc (some t) b c = refl

  find_rule-Chosen :
      (rules : List Rule) (task : Option Task)
      → find_rule rules left cl right cr ≡ task
      → Chosen left cl right cr rules task
  find_rule-Chosen rules none e = find_rule-none left cl right cr rules e
  find_rule-Chosen rules (some t) e = find_rule-some left cl right cr rules e

-- The two principal wires point at one another, and the rest of the heap is as it was.
pub record Linked (h h' : Heap) (left right : ℕ) (l r : PrincipalWire) : Type 0 where
  pub left_linked : load_principal h' left ≡ ok (record l { oppsite = some right })
  pub right_linked : load_principal h' right ≡ ok (record r { oppsite = some left })
  pub others : (q : ℕ) → left ≢ q → right ≢ q → load_principal h' q ≡ load_principal h q
  pub wires : h'.wires ≡ h.wires
  pub nodes : h'.nodes ≡ h.nodes

module _ (m : Mod) (h : Heap) (left right : ℕ) (l r : PrincipalWire)
    (hl : load_principal h left ≡ ok l) (hr : load_principal h right ≡ ok r) where
  abbrev first : Heap
  first = store_principal h left (record l { oppsite = some right })

  abbrev both : Heap
  both = store_principal first right (record r { oppsite = some left })

  -- After the first write the second wire still stands, with its node and port.
  first_right : (o : Option ℕ) × (load_principal first right ≡ ok (record r { oppsite = o }))
  first_right = (
    if left == right then some right else r.oppsite,
    ground
        (arith, load_principal-store_principal h left right (record l { oppsite = some right }) hl),
  )

  set_first : set_oppsite h left right ≡ ok first
  unfolding set_oppsite
  set_first = rw hl refl

  set_second : set_oppsite first right left ≡ ok both
  unfolding set_oppsite
  set_second = rw first_right.1 refl

  -- Principal wires do not touch the nodes.
  pointer_both : (n : ℕ) → node_ctor_pointer both n ≡ node_ctor_pointer h n
  unfolding node_ctor_pointer load_node store_principal
  pointer_both n = refl

  both_at :
      (q : ℕ)
      → load_principal both q
        ≡ (if right == q then ok (record r { oppsite = some left }) else load_principal first q)
  both_at q = load_principal-store_principal first right q _ first_right.1

  first_at :
      (q : ℕ)
      → load_principal first q
        ≡ (if left == q then ok (record l { oppsite = some right }) else load_principal h q)
  first_at q = load_principal-store_principal h left q _ hl

  both-Linked : Linked h both left right l r
  unfolding store_principal
  both-Linked = record {
    left_linked = ground (arith, both_at left, first_at left);
    right_linked = ground (arith, both_at right);
    others = λ q a b. ground (arith, both_at q, first_at q);
    wires = refl;
    nodes = refl;
  }

  -- On two live principal wires whose nodes have constructors, `connect` succeeds. It makes each the
  -- opposite of the other and changes nothing else. The task is that of the first rule, of the left
  -- constructor's rules and then the right's, which is for these two constructors, with the wires
  -- in the rule's order; there is no task exactly when no rule is for them.
  pub connect_active_pair_lem :
      (cl cr : ℕ) (lc rc : NodeCtor)
      → node_ctor_pointer h l.node ≡ ok cl
      → node_ctor_pointer h r.node ≡ ok cr
      → load_ctor m cl ≡ ok lc
      → load_ctor m cr ≡ ok rc
      → (task : Option Task) × (h' : Heap) × ((f : ℕ)
          → connect (suc f) m (principal_wire left) (principal_wire right) h ≡ ok (task, h'))
        × Linked h h' left right l r
        × Chosen left cl right cr (lc.rule_array ++ rc.rule_array) task
  unfolding connect connect_active_pair
  connect_active_pair_lem cl cr lc rc nl nr ml mr = (
    find_rule (lc.rule_array ++ rc.rule_array) left cl right cr,
    both,
    λ f.
        rw
          (
            set_first, set_second, both-Linked.left_linked, both-Linked.right_linked, pointer_both,
            nl, pointer_both, nr, ml, mr, find_rule-append,
          )
          refl,
    both-Linked,
    find_rule-Chosen left cl right cr _ _ refl,
  )
