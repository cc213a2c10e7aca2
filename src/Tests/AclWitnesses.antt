-- ===== src/Tests/AclWitnesses.antt =====
-- The theorems about acl.c at rules and subjects that runs of it produce.
use librustyaxe.Prelude.{
  ◌≡◌, refl, sym, ◌≢◌, ◌↔◌, true, false, Option, none, some, [], ◌∷◌, Bytes, codes, arith, if-cases,
  some-injective, bytes_eq, if◌then◌else◌, replicate, inl, inr,
}
use librustyaxe.Acl.Types.{no_match, allow, deny, defer, any, user, Rule, Subject, IsInet}
use librustyaxe.Acl.Parse.{acl_rule_parse, acl_subject_init}
use librustyaxe.Acl.Match.{rule_match, network_match, acl_check}
use librustyaxe.Acl.Network.{Inside, network_match-Inside}
use librustyaxe.Acl.Decide.{Decides, acl_check-Decides, Learns, acl_check_stable}
use librustyaxe.Acl.Valid.{IsPrincipal, IsNetwork}
use librustyaxe.Acl.Parsed.{
  IsSubject, acl_rule_parse-IsRule, acl_subject_init-IsSubject, parsed_rule_match,
}
use librustyaxe.Tests.AclRuns.{acl_program, net, members}

-- The table of addresses has addresses of the right sizes.
net-IsInet : IsInet net
unfolding acl_program
net-IsInet = record {
  four = λ ip a h. elim (if-cases (bytes_eq ip (codes "10.0.0.0")) _ _ h) [
    | inl (b, e) ↦ rw (sym (some-injective e)) (omega arith, omega arith)
    | inr (b, e) ↦ elim (if-cases (bytes_eq ip (codes "10.200.4.5")) _ _ e) [
      | inl (b, e) ↦ rw (sym (some-injective e)) (omega arith, omega arith)
      | inr (b, e) ↦ ground arith
    ]
  ];
  sixteen = λ ip a h. elim (if-cases (bytes_eq ip (codes "::ffff:10.2.3.4")) _ _ h) [
    | inl (b, e) ↦ rw (sym (some-injective e)) (omega arith, omega arith)
    | inr (b, e) ↦ ground arith
  ];
}

-- allow=10.0.0.0/8
abbrev ten : Rule
ten = record {
  address = 10 ∷ replicate 15 0;
  family = 4;
  prefix = 8;
  kind = any;
  principal = [];
  allow_it = true;
}

-- deny=guest
abbrev no_guest : Rule
no_guest = record ten {
  family = 0;
  address = replicate 16 0;
  prefix = 0;
  kind = user;
  principal = codes "guest";
  allow_it = false;
}

ten_parsed : acl_rule_parse net true (some (codes "10.0.0.0/8")) ≡ some ten
unfolding acl_program
ten_parsed = refl

-- A guest at 10.200.4.5, whose name comes to be known.
abbrev guest : Subject
guest = record {
  address = 10 ∷ 200 ∷ 4 ∷ 5 ∷ replicate 12 0;
  family = 4;
  user_name = some (codes "guest");
  in_group = some members;
  ignore_case = false;
}

abbrev unnamed : Subject
unnamed = record guest { user_name = none }

unnamed-Learns : Learns unnamed guest
unnamed-Learns = record {
  address_kept = λ n. (refl, refl);
  name_kept = λ n. absurd (n refl);
  in_group_kept = refl;
  ignore_case_kept = refl;
}

acl_check-Decides_example :
    (Decides guest (no_guest ∷ ten ∷ []) deny
      ↔ (acl_check (some (no_guest ∷ ten ∷ [])) (some guest) ≡ deny))
    × (acl_check (some (no_guest ∷ ten ∷ [])) (some guest) ≢ no_match)
acl_check-Decides_example = acl_check-Decides (no_guest ∷ ten ∷ []) guest deny

allowed-unnamed : acl_check (some (ten ∷ no_guest ∷ [])) (some unnamed) ≢ defer
unfolding acl_program
allowed-unnamed = λ e. ground arith

acl_check_stable_example :
    acl_check (some (ten ∷ no_guest ∷ [])) (some guest)
    ≡ acl_check (some (ten ∷ no_guest ∷ [])) (some unnamed)
acl_check_stable_example = acl_check_stable (ten ∷ no_guest ∷ []) unnamed-Learns allowed-unnamed

network_match-Inside_example : (network_match ten guest ≡ true) ↔ Inside ten guest
network_match-Inside_example =
    network_match-Inside ten guest (omega arith, omega arith) (omega arith, omega arith)

acl_rule_parse-IsRule_example : IsPrincipal ten × IsNetwork ten × (ten.allow_it ≡ true)
acl_rule_parse-IsRule_example =
    acl_rule_parse-IsRule net net-IsInet true (codes "10.0.0.0/8") ten_parsed

acl_subject_init-IsSubject_example :
    let result =
      acl_subject_init net (some (codes "10.200.4.5")) (some (codes "guest")) (some members) in
    IsSubject result.1
    × (result.0 ≡ true
        → ◌≢◌ {A = Option Bytes} (some (codes "10.200.4.5")) none
        → result.1.family ≢ 0)
    × (result.1.user_name ≡ some (codes "guest"))
    × (result.1.in_group ≡ some members)
acl_subject_init-IsSubject_example =
    acl_subject_init-IsSubject net net-IsInet (some (codes "10.200.4.5")) (some (codes "guest"))
      (some members)

parsed_rule_match_example :
    let subject =
      (acl_subject_init net (some (codes "10.200.4.5")) (some (codes "guest")) (some members)).1 in
    (Inside ten subject → rule_match ten subject ≡ (if true then allow else deny))
    × (subject.family ≢ 0 → ¬ Inside ten subject → rule_match ten subject ≡ no_match)
    × (subject.family ≡ 0 → rule_match ten subject ≡ defer)
parsed_rule_match_example =
    parsed_rule_match net net-IsInet true (codes "10.0.0.0/8") ten (some (codes "10.200.4.5"))
      (some (codes "guest")) (some members) ten_parsed refl (λ e. omega arith)
