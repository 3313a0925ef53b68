-- ===== src/Mux/Selected.antt =====
-- The rules that a `ruleSelector` of larking/mux.go gives a name, told from the list of all rules.
use larking.Base.{
  Bool, true, false, ◌&&◌, Option, none, some, List, [], ◌∷◌, ◌++◌, ◌≡◌, refl, sym, ap, ◌∙◌,
  append-nil, append_assoc, if◌then◌else◌, Bytes, codes, beq, beq_iff, Bool-cases, inl, inr,
}
use larking.Rules.Fields.{HttpRule, split}
use larking.Mux.Selector.{
  Selector, selector, Children, no_children, child, empty_selector, is_empty, get_rules, get_child,
  write_child, add_here, at_child, set_rule, set_rules,
}

-- The rules of one node.
unfoldable mutual
  pub rules_at : Selector → List Bytes → List HttpRule
  rules_at (selector kids rules) [] = rules
  rules_at (selector kids rules) (tag ∷ q) = child_at kids tag q

  pub child_at : Children → Bytes → List Bytes → List HttpRule
  child_at no_children tag q = []
  child_at (child key s more) tag q =
      let here = rules_at s q in
      let later = child_at more tag q in if beq key tag then here else later

-- What a function has along a path, the root first.
unfoldable pub gather : (List Bytes → List HttpRule) → List Bytes → List HttpRule
gather f [] = f []
gather f (tag ∷ names) = f [] ++ gather (λ q. f (tag ∷ q)) names

-- The node that a selector names: a wildcard counts as the name in front of it.
unfoldable pub stem : List Bytes → List Bytes
stem [] = []
stem (tag ∷ names) =
    let below = tag ∷ stem names in
    if beq tag (codes "*") then [] else if beq tag [] then [] else below

unfoldable pub is_same : List Bytes → List Bytes → Bool
is_same [] [] = true
is_same [] (y ∷ ys) = false
is_same (x ∷ xs) [] = false
is_same (x ∷ xs) (y ∷ ys) = beq x y && is_same xs ys

-- The rules whose selectors name the node, in their order.
unfoldable pub rules_for : List HttpRule → List Bytes → List HttpRule
unfolding stem is_same
rules_for [] q = []
rules_for (rule ∷ rules) q =
    (if is_same (stem (split b'.' rule.selector)) q then rule ∷ [] else []) ++ rules_for rules q

-- No component is "".
unfoldable pub HasNames : List Bytes → Type 0
HasNames [] = Unit
HasNames (tag ∷ names) = (beq tag [] ≡ false) × HasNames names

gather-nil : (names : List Bytes) → gather (λ q. []) names ≡ []
unfolding gather
gather-nil [] = refl
gather-nil (tag ∷ names) = gather-nil names

gather-cong :
    (f g : List Bytes → List HttpRule) (names : List Bytes)
    → ((q : List Bytes) → f q ≡ g q)
    → gather f names ≡ gather g names
unfolding gather
gather-cong f g [] e = e []
gather-cong f g (tag ∷ names) e =
    rw (e [], gather-cong (λ q. f (tag ∷ q)) (λ q. g (tag ∷ q)) names (λ q. e (tag ∷ q))) refl

-- The search gathers.
mutual
  unfolding gather get_rules get_child rules_at child_at HasNames

  get_rules-gather :
      (s : Selector) (names : List Bytes)
      → HasNames names
      → get_rules s names ≡ gather (rules_at s) names
  get_rules-gather (selector kids rules) [] q = refl
  get_rules-gather (selector kids rules) (tag ∷ []) (n, q) =
      rw n (ap (λ t. rules ++ t) (get_child-gather kids tag [] q))
  get_rules-gather (selector kids rules) (tag ∷ t ∷ ts) (n, q) =
      ap (λ x. rules ++ x) (get_child-gather kids tag (t ∷ ts) q)

  get_child-gather :
      (kids : Children) (tag : Bytes) (names : List Bytes)
      → HasNames names
      → get_child kids tag names ≡ gather (child_at kids tag) names
  get_child-gather no_children tag names q = sym (gather-nil names)
  get_child-gather (child key s more) tag names q = elim (Bool-cases (beq key tag)) [
    | inl same ↦
        let found : get_child (child key s more) tag names ≡ gather (rules_at s) names =
          rw same (get_rules-gather s names q) in
        found ∙ gather-cong (rules_at s) (child_at (child key s more) tag) names (λ p. rw same refl)
    | inr other ↦
        let found : get_child (child key s more) tag names ≡ gather (child_at more tag) names =
          rw other (get_child-gather more tag names q) in
        found
        ∙ gather-cong (child_at more tag) (child_at (child key s more) tag) names
            (λ p. rw other refl)
  ]

-- A write adds a rule at one node.
abbrev AddsAt : HttpRule → List Bytes → (Selector → Selector) → Type 0
AddsAt rule p act =
    (s : Selector) (q : List Bytes)
    → rules_at (act s) q ≡ rules_at s q ++ (if is_same p q then rule ∷ [] else [])

empty-rules_at : (q : List Bytes) → rules_at empty_selector q ≡ []
unfolding rules_at child_at
empty-rules_at [] = refl
empty-rules_at (t ∷ q) = refl

write_child-adds :
    (rule : HttpRule) (tag : Bytes) (p : List Bytes) (act : Selector → Selector)
    → AddsAt rule p act
    → (kids : Children) (t : Bytes) (q : List Bytes)
    → child_at (write_child tag act kids) t q
      ≡ child_at kids t q ++ (if is_same (tag ∷ p) (t ∷ q) then rule ∷ [] else [])
unfolding write_child child_at is_same rules_at
write_child-adds rule tag p act adds no_children t q = elim (Bool-cases (beq tag t)) [
  | inl e ↦ rw e (
      adds empty_selector q
      ∙ ap (λ x. x ++ (if is_same p q then rule ∷ [] else [])) (empty-rules_at q))
  | inr e ↦ rw e refl
]
write_child-adds rule tag p act adds (child key s more) t q = elim (Bool-cases (beq key tag)) [
  | inl same ↦
      let k : key ≡ tag = (beq_iff key tag).0 same in
      elim (Bool-cases (beq key t)) [
        | inl e ↦ let e' : beq tag t ≡ true = rw k at e in rw (same, e, e') (adds s q)
        | inr e ↦
            let e' : beq tag t ≡ false = rw k at e in
            rw (same, e, e') (sym (append-nil (child_at more t q)))
      ]
  | inr other ↦ elim (Bool-cases (beq key t)) [
    | inl e ↦ rw (other, e, elsewhere ((beq_iff key t).0 e) other) (sym (append-nil (rules_at s q)))
    | inr e ↦ rw (other, e) (write_child-adds rule tag p act adds more t q)
  ]
]
  where
    elsewhere : key ≡ t → beq key tag ≡ false → beq tag t ≡ false
    elsewhere k other = elim (Bool-cases (beq tag t)) [
      | inl e ↦ absurd (
          let same : beq key tag ≡ true = (beq_iff key tag).1 (k ∙ sym ((beq_iff tag t).0 e)) in cc)
      | inr e ↦ e
    ]

at_child-AddsAt :
    (rule : HttpRule) (tag : Bytes) (p : List Bytes) (act : Selector → Selector)
    → AddsAt rule p act
    → AddsAt rule (tag ∷ p) (at_child tag act)
unfolding rules_at is_same
at_child-AddsAt rule tag p act adds (selector kids rules) [] = sym (append-nil rules)
at_child-AddsAt rule tag p act adds (selector kids rules) (t ∷ q) =
    write_child-adds rule tag p act adds kids t q

add_here-AddsAt : (rule : HttpRule) → AddsAt rule [] (add_here rule)
unfolding rules_at is_same
add_here-AddsAt rule (selector kids rules) [] = refl
add_here-AddsAt rule (selector kids rules) (t ∷ q) = sym (append-nil (child_at kids t q))

-- What holds of the function of a rule, if its selector is none that panics.
abbrev Sets : HttpRule → List Bytes → Option (Selector → Selector) → Type 0
Sets rule p none = Unit
Sets rule p (some act) = AddsAt rule p act

set_rule-Sets :
    (rule : HttpRule) (names : List Bytes) → Sets rule (stem names) (set_rule rule names)
unfolding set_rule stem
set_rule-Sets rule [] = add_here-AddsAt rule
set_rule-Sets rule (tag ∷ names) = elim (Bool-cases (beq tag (codes "*"))) [
  | inl wild ↦ rw wild (last (is_empty names))
  | inr plain ↦ elim (Bool-cases (beq tag [])) [
    | inl e ↦ rw (plain, e) (add_here-AddsAt rule)
    | inr e ↦ rw (plain, e) (below (set_rule rule names) (set_rule-Sets rule names))
  ]
]
  where
    last : (b : Bool) → Sets rule [] (if b then some (add_here rule) else none)
    last true = add_here-AddsAt rule
    last false = tt

    below :
        (o : Option (Selector → Selector))
        → Sets rule (stem names) o
        → Sets rule (tag ∷ stem names) (elim o [ none ↦ none | some act ↦ some (at_child tag act) ])
    below none q = tt
    below (some act) q = at_child-AddsAt rule tag (stem names) act q

-- The rules of each node, behind those that were there.
abbrev AllSet : List HttpRule → Selector → Option Selector → Type 0
AllSet rules s none = Unit
AllSet rules s (some s') = (q : List Bytes) → rules_at s' q ≡ rules_at s q ++ rules_for rules q

set_rules-AllSet : (rules : List HttpRule) (s : Selector) → AllSet rules s (set_rules s rules)
unfolding set_rules rules_for
set_rules-AllSet [] s = λ q. sym (append-nil (rules_at s q))
set_rules-AllSet (rule ∷ rules) s =
    go (set_rule rule (split b'.' rule.selector)) (set_rule-Sets rule (split b'.' rule.selector))
      (set_rules-AllSet rules)
  where
    go :
        (o : Option (Selector → Selector))
        → Sets rule (stem (split b'.' rule.selector)) o
        → ((s' : Selector) → AllSet rules s' (set_rules s' rules))
        → AllSet (rule ∷ rules) s (elim o [ none ↦ none | some act ↦ set_rules (act s) rules ])
    go none q later = tt
    go (some act) q later = with_first (act s) (set_rules (act s) rules) (later (act s)) (q s)
      where
        with_first :
            (s₁ : Selector) (r : Option Selector)
            → AllSet rules s₁ r
            → ((q : List Bytes)
                → rules_at s₁ q
                  ≡ rules_at s q
                    ++ (if is_same (stem (split b'.' rule.selector)) q then rule ∷ [] else []))
            → AllSet (rule ∷ rules) s r
        with_first s₁ none e f = tt
        with_first s₁ (some s') e f = λ q.
            e q
            ∙ ap (λ t. t ++ rules_for rules q) (f q)
            ∙ append_assoc (rules_at s q) _ (rules_for rules q)

-- The rules that a mux finds for a name, of those that it was configured with, if no selector panics
-- and no component of the name is empty: those whose selector is a name in front of it, or the name
-- itself, with a wildcard behind it or not; the shorter selectors come first, and those of one
-- selector in their order.
pub get_rules-set_rules :
    (rules : List HttpRule) (s : Selector) (names : List Bytes)
    → set_rules empty_selector rules ≡ some s
    → HasNames names
    → get_rules s names ≡ gather (rules_for rules) names
get_rules-set_rules rules s names e q =
    get_rules-gather s names q
    ∙ gather-cong (rules_at s) (rules_for rules) names
        (of_some (set_rules empty_selector rules) e (set_rules-AllSet rules empty_selector))
  where
    of_some :
        (r : Option Selector)
        → r ≡ some s
        → AllSet rules empty_selector r
        → (p : List Bytes) → rules_at s p ≡ rules_for rules p
    of_some r e' all p = (rw e' at all) p ∙ ap (λ t. t ++ rules_for rules p) (empty-rules_at p)
