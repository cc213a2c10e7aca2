-- ===== src/Tests/AclRuns.antt =====
-- Runs of acl.c over a table of addresses in place of `inet_pton`.
use librustyaxe.Prelude.{
  ◌≡◌, refl, Bool, true, Option, none, some, [], ◌∷◌, ◌++◌, Bytes, codes, bytes_eq, if◌then◌else◌,
  replicate, has_byte, split_first, split_last, ◌>>=◌,
}
use librustyaxe.Acl.Types.{AclResult, allow, deny, defer, Inet}
use librustyaxe.Acl.Parse.{
  mapped, address_parse, prefix_digits, network_finish, network_text, network_parse, parts_bare,
  parts, principal_parse, network_part, acl_rule_parse, acl_subject_init,
}
use librustyaxe.Acl.Match.{
  prefix_match, network_match, principal_match, rule_match, acl_rule_match, first_match, acl_check,
}

-- What a test of acl.c computes with.
unfoldable pub acl_program : Unit {0}
unfolding bytes_eq has_byte split_first split_last mapped address_parse prefix_digits network_finish
    network_text network_parse parts_bare parts principal_parse network_part acl_rule_parse
    acl_subject_init prefix_match network_match principal_match rule_match acl_rule_match
    first_match acl_check
acl_program = tt

abbrev pub net : Inet
unfolding bytes_eq
net = record {
  pton4 = λ ip.
      if bytes_eq ip (codes "10.0.0.0")
      then some (10 ∷ 0 ∷ 0 ∷ 0 ∷ [])
      else if bytes_eq ip (codes "10.200.4.5")
      then some (10 ∷ 200 ∷ 4 ∷ 5 ∷ [])
      else none;
  pton6 = λ ip.
      if bytes_eq ip (codes "::ffff:10.2.3.4")
      then some (replicate 10 0 ++ 0xff ∷ 0xff ∷ 10 ∷ 2 ∷ 3 ∷ 4 ∷ [])
      else none;
}

abbrev pub members : Bytes → Bool
unfolding bytes_eq
members name = bytes_eq name (codes "admin")

-- `match` of tests/acl.c
abbrev match_once : Bool → Bytes → Option Bytes → Option Bytes → Option AclResult
match_once allowed selector ip name = do
  rule ← acl_rule_parse net allowed (some selector)
  some (acl_check (some (rule ∷ [])) (some (acl_subject_init net ip name (some members)).1))

in_network :
    match_once true (codes "10.0.0.0/8") (some (codes "10.200.4.5")) (some (codes "guest"))
    ≡ some allow
unfolding acl_program
in_network = refl

mapped_address :
    match_once true (codes "10.0.0.0/8") (some (codes "::ffff:10.2.3.4")) (some (codes "guest"))
    ≡ some allow
unfolding acl_program
mapped_address = refl

group_in_network :
    match_once true (codes "@admin@10.0.0.0/8") (some (codes "10.200.4.5")) (some (codes "user"))
    ≡ some allow
unfolding acl_program
group_in_network = refl

no_address : match_once true (codes "10.0.0.0/8") none (some (codes "guest")) ≡ some defer
unfolding acl_program
no_address = refl

wrong_user : match_once true (codes "guest@10.0.0.0/8") none (some (codes "operator")) ≡ some deny
unfolding acl_program
wrong_user = refl

too_long : acl_rule_parse net true (some (codes "10.0.0.0/33")) ≡ none
unfolding acl_program
too_long = refl

two_at : acl_rule_parse net true (some (codes "user@@all")) ≡ none
unfolding acl_program
two_at = refl

all_with_prefix : acl_rule_parse net true (some (codes "all/0")) ≡ none
unfolding acl_program
all_with_prefix = refl
