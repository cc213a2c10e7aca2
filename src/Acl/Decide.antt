-- ===== src/Acl/Decide.antt =====
-- What `acl_check` decides: the first rule that has an opinion, and what learning more about the
-- subject can change.
use librustyaxe.Prelude.{
  Option-cases, Bool-cases, true, false, none, some, List, [], ◌∷◌, ◌≡◌, refl, ◌≢◌, ◌⊎◌, inl, inr,
  arith, sym, ◌∙◌, ap, ◌↔◌,
}
use native.Mathlib.Decide.{ℕ_discrete}
use librustyaxe.Acl.Types.{AclResult, no_match, allow, deny, defer, any, Rule, Subject}
use librustyaxe.Acl.Match.{
  rule_match, acl_rule_match, first_match, acl_check, principal_match, network_match, known,
}

-- The answer of a list of rules: that of the first rule that matches the subject or must wait, or
-- deny where no rule does.
pub data Decides (subject : Subject) : List Rule → AclResult → Type 0 where
  implicit_deny : Decides subject [] deny
  skip :
      {rule : Rule} {rules : List Rule} {result : AclResult}
      → rule_match rule subject ≡ no_match
      → Decides subject rules result
      → Decides subject (rule ∷ rules) result
  here :
      {rule : Rule} {rules : List Rule}
      → rule_match rule subject ≢ no_match
      → Decides subject (rule ∷ rules) (rule_match rule subject)

no_match-cases : (r : AclResult) → (r ≡ no_match) ⊎ (r ≢ no_match)
no_match-cases no_match = inl refl
no_match-cases allow = inr (λ e. ground arith)
no_match-cases deny = inr (λ e. ground arith)
no_match-cases defer = inr (λ e. ground arith)

module _ (rule : Rule) (rules : List Rule) (subject : Subject) where
  first_match_skip :
      rule_match rule subject ≡ no_match
      → first_match (rule ∷ rules) subject ≡ first_match rules subject
  unfolding first_match acl_rule_match
  first_match_skip e = ground arith

  first_match_here :
      rule_match rule subject ≢ no_match
      → first_match (rule ∷ rules) subject ≡ rule_match rule subject
  unfolding first_match acl_rule_match
  first_match_here n = ground arith

first_match-Decides :
    (rules : List Rule) (subject : Subject) → Decides subject rules (first_match rules subject)
unfolding first_match
first_match-Decides [] subject = implicit_deny
first_match-Decides (rule ∷ rules) subject = elim (no_match-cases (rule_match rule subject)) [
  | inl e ↦ rw (first_match_skip rule rules subject e) (skip e (first_match-Decides rules subject))
  | inr n ↦ rw (first_match_here rule rules subject n) (here n)
]

Decides-unique :
    {subject : Subject} {rules : List Rule} {r : AclResult}
    → Decides subject rules r
    → first_match rules subject ≡ r
unfolding first_match
Decides-unique implicit_deny = refl
Decides-unique (skip {rule = rule} {rules = rules} e d) =
    first_match_skip rule rules _ e ∙ Decides-unique d
Decides-unique (here {rule = rule} {rules = rules} n) = first_match_here rule rules _ n

first_match_decided : (rules : List Rule) (subject : Subject) → first_match rules subject ≢ no_match
unfolding first_match
first_match_decided [] subject = λ e. ground arith
first_match_decided (rule ∷ rules) subject = elim (no_match-cases (rule_match rule subject)) [
  | inl e ↦ rw (first_match_skip rule rules subject e) (first_match_decided rules subject)
  | inr n ↦ rw (first_match_here rule rules subject n) n
]

-- `acl_check` gives the answer of the first rule that matches the subject or must wait for it, and
-- deny where no rule does; it gives no other answer, and it is never no_match.
pub acl_check-Decides :
    (rules : List Rule) (subject : Subject) (result : AclResult)
    → (Decides subject rules result ↔ (acl_check (some rules) (some subject) ≡ result))
      × (acl_check (some rules) (some subject) ≢ no_match)
unfolding acl_check
acl_check-Decides rules subject result = (
  (Decides-unique, λ e. (rw (sym e) (first_match-Decides rules subject))),
  first_match_decided rules subject,
)

-- `later` is the subject `early` once its address, its user name or both have become known.
pub record Learns (early later : Subject) : Type 0 where
  pub address_kept :
      early.family ≢ 0 → (later.family ≡ early.family) × (later.address ≡ early.address)
  pub name_kept : early.user_name ≢ none → later.user_name ≡ early.user_name
  pub in_group_kept : later.in_group ≡ early.in_group
  pub ignore_case_kept : later.ignore_case ≡ early.ignore_case

-- What a rule whose principal asks for nothing says, whoever the subject is.
no_name_any :
    (rule : Rule) (subject : Subject)
    → subject.user_name ≡ none
    → principal_match rule subject ≢ some defer
    → rule.kind ≡ any
unfolding principal_match
no_name_any rule subject e n = ground arith

pub any_passes :
    (rule : Rule) (subject : Subject) → rule.kind ≡ any → principal_match rule subject ≡ none
unfolding principal_match
any_passes rule subject e = rw (principal_match, e) refl

principal_result :
    (rule : Rule) (subject : Subject) {v : AclResult}
    → principal_match rule subject ≡ some v
    → (v ≡ no_match) ⊎ (v ≡ defer)
unfolding principal_match
principal_result rule subject e = ground arith

module _ {early later : Subject} (learns : Learns early later) (rule : Rule) where
  principal_match_stable :
      principal_match rule early ≢ some defer
      → principal_match rule later ≡ principal_match rule early
  unfolding principal_match
  principal_match_stable n = elim (Option-cases early.user_name) [
    | inl e ↦
        let free = no_name_any rule early e n in
        any_passes rule later free ∙ sym (any_passes rule early free)
    | inr (name, e) ↦
        let kept = learns.name_kept (λ x. ground arith) in
        ap (λ x. principal_match rule (record later { user_name = x })) kept
        ∙ ap
            (λ x.
              principal_match rule (record early { in_group = x; ignore_case = later.ignore_case }))
            learns.in_group_kept
        ∙ ap (λ x. principal_match rule (record early { ignore_case = x })) learns.ignore_case_kept
  ]

  network_match_stable : early.family ≢ 0 → network_match rule later ≡ network_match rule early
  unfolding network_match
  network_match_stable known =
      let (family, address) = learns.address_kept known in rw (network_match, family, address)

  -- Where the address is unknown, an answer is final only if it is no_match.
  unknown_stable :
      early.family ≡ 0
      → known rule.family ≡ true
      → rule_match rule early ≢ defer
      → rule_match rule later ≡ rule_match rule early
  unfolding rule_match
  unknown_stable e k n = elim (Option-cases (principal_match rule early)) [
    | inl f ↦ ground arith
    | inr (v, f) ↦
        let m = principal_match_stable (λ x. ground arith) in
        let cases = principal_result rule early f in ground arith
  ]

  open_stable :
      known rule.family ≡ false
      → rule_match rule early ≢ defer
      → rule_match rule later ≡ rule_match rule early
  unfolding rule_match
  open_stable k n = let m = principal_match_stable (λ x. ground arith) in ground arith

  addressed_stable :
      early.family ≢ 0
      → rule_match rule early ≢ defer
      → rule_match rule later ≡ rule_match rule early
  unfolding rule_match
  addressed_stable e n =
      let (family, address) = learns.address_kept e in
      let net = network_match_stable e in
      elim (Bool-cases (network_match rule early)) [
        | inr f ↦ elim (Bool-cases (known rule.family)) [
          | inl k ↦ ground arith
          | inr k ↦ open_stable k n
        ]
        | inl f ↦ let m = principal_match_stable (λ x. ground arith) in ground arith
      ]

  rule_match_stable : rule_match rule early ≢ defer → rule_match rule later ≡ rule_match rule early
  rule_match_stable n = elim (ℕ_discrete early.family 0) [
    | yes e ↦ elim (Bool-cases (known rule.family)) [
      | inl k ↦ unknown_stable e k n
      | inr k ↦ open_stable k n
    ]
    | no e ↦ addressed_stable e n
  ]

first_match_stable :
    {early later : Subject}
    → Learns early later
    → (rules : List Rule) → first_match rules early ≢ defer
    → first_match rules later ≡ first_match rules early
unfolding first_match
first_match_stable learns [] n = refl
first_match_stable {early = early} {later = later} learns (rule ∷ rules) n =
    elim (no_match-cases (rule_match rule early)) [
      | inl e ↦
          let now = first_match_skip rule rules early e in
          let kept = rule_match_stable learns rule (λ x. ground arith) in
          let then = first_match_skip rule rules later (kept ∙ e) in
          let rest = first_match_stable learns rules (λ x. n (now ∙ x)) in then ∙ rest ∙ sym now
      | inr w ↦
          let now = first_match_here rule rules early w in
          let kept = rule_match_stable learns rule (λ x. n (now ∙ x)) in
          first_match_here rule rules later (λ x. w (sym kept ∙ x)) ∙ kept ∙ sym now
    ]

-- An answer that `acl_check` gives a subject stays the answer once the subject's address, user name
-- or both become known, unless it was to defer.
pub acl_check_stable :
    (rules : List Rule) {early later : Subject}
    → Learns early later
    → acl_check (some rules) (some early) ≢ defer
    → acl_check (some rules) (some later) ≡ acl_check (some rules) (some early)
unfolding acl_check
acl_check_stable rules learns n = first_match_stable learns rules n
