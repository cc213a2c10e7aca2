-- ===== src/Acl/Match.antt =====
-- `acl_rule_match` and `acl_check` of acl.c.
use librustyaxe.Prelude.{
  ℕ, ◌-◌, ◌*◌, ◌/◌, ◌%◌, ◌^◌, Bool, not, ◌&&◌, ◌||◌, Option, none, some, List, [], ◌∷◌, ltb, ◌==◌,
  if◌then◌else◌, Bytes, bytes_eq, bytes_eq_nocase, bit_and, bit_xor, take, get_or,
}
use librustyaxe.Acl.Types.{AclResult, no_match, allow, deny, defer, any, user, group, Rule, Subject}

-- The two tests of the address bytes: whole bytes, then the bits that are left.
unfoldable pub prefix_match : ℕ → Bytes → Bytes → Bool
unfolding bytes_eq
prefix_match prefix a b =
    let bytes = prefix / 8 in
    let bits = prefix % 8 in
    bytes_eq (take bytes a) (take bytes b)
    && (bits == 0
        || bit_and (bit_xor (get_or a bytes 0) (get_or b bytes 0)) (0xff * 2 ^ (8 - bits)) == 0)

-- The guards and tests where both families are known.
unfoldable pub network_match : Rule → Subject → Bool
network_match rule subject =
    (rule.family == 4 || rule.family == 6)
    && not (ltb (if rule.family == 4 then 32 else 128) rule.prefix)
    && rule.family == subject.family
    && prefix_match rule.prefix rule.address subject.address

-- What the tests of the principal say: the match goes on, fails, or waits for the identity.
unfoldable pub principal_match : Rule → Subject → Option AclResult
unfolding bytes_eq
principal_match rule subject = elim rule.kind [
  | any ↦ none
  | user ↦ elim subject.user_name [
    | none ↦ some defer
    | some name ↦
        if (if subject.ignore_case
          then bytes_eq_nocase rule.principal name
          else bytes_eq rule.principal name)
        then none
        else some no_match
  ]
  | group ↦ elim subject.user_name [
    | none ↦ some defer
    | some name ↦ elim subject.in_group [
      | none ↦ some no_match
      | some member ↦ if member rule.principal then none else some no_match
    ]
  ]
]

-- The families 0 of the rule and of the subject.
abbrev pub known : ℕ → Bool
known family = not (family == 0)

unfoldable pub rule_match : Rule → Subject → AclResult
rule_match rule subject =
    let pending = known rule.family && not (known subject.family) in
    if known rule.family && known subject.family && not (network_match rule subject)
    then no_match
    else elim (principal_match rule subject) [
      | some result ↦ result
      | none ↦ if pending then defer else if rule.allow_it then allow else deny
    ]

unfoldable pub acl_rule_match : Option Rule → Option Subject → AclResult
acl_rule_match none subject = no_match
acl_rule_match (some rule) none = no_match
acl_rule_match (some rule) (some subject) = rule_match rule subject

-- The loop over the rules.
unfoldable pub first_match : List Rule → Subject → AclResult
first_match [] subject = deny
first_match (rule ∷ rules) subject = elim (acl_rule_match (some rule) (some subject)) [
  | no_match ↦ first_match rules subject
  | result ↦ result
]

unfoldable pub acl_check : Option (List Rule) → Option Subject → AclResult
acl_check none subject = deny
acl_check (some rules) none = deny
acl_check (some rules) (some subject) = first_match rules subject
