-- ===== src/Acl/Parsed.antt =====
-- What `acl_rule_parse` and `acl_subject_init` leave on success, and how a parsed rule then meets an
-- initialised subject.
use librustyaxe.Prelude.{
  ℕ, Bool, true, false, not, ◌&&◌, ◌||◌, Option, none, some, Bytes, ◌≡◌, refl, sym, ap, ◌∙◌, ◌≢◌,
  ◌⊎◌, inl, inr, arith, ◌==◌, leb, if◌then◌else◌, length, >>=-eq-some, guard-eq-some, Option-cases,
  Bool-cases, all_bytes, is_space,
}
use librustyaxe.Acl.Types.{no_match, allow, deny, defer, any, Rule, Subject, IsBytes, Inet, IsInet}
use librustyaxe.Acl.Parse.{
  mapped, address_parse, parts, principal_parse, blank_rule, acl_rule_parse, acl_subject_init,
}
use librustyaxe.Acl.Match.{rule_match, network_match}
use librustyaxe.Acl.Decide.{any_passes}
use librustyaxe.Acl.Network.{Inside, network_match-Inside}
use librustyaxe.Acl.Valid.{
  IsPrincipal, IsNetwork, Named, principal_parse-Named, network_part-Placed, address_parse-IsBytes,
  unmap-IsBytes, zeros-IsBytes,
}

IsPrincipal-along :
    {a b : Rule} → b.kind ≡ a.kind → b.principal ≡ a.principal → IsPrincipal a → IsPrincipal b
IsPrincipal-along k p ok = record {
  nobody = λ e. p ∙ ok.nobody (sym k ∙ e);
  named = λ n. rw p (ok.named (λ e. n (k ∙ e)));
}

blank-IsNetwork : {rule : Rule} (allowed : Bool) → Named (blank_rule allowed) rule → IsNetwork rule
blank-IsNetwork allowed named = record {
  sixteen = rw (named.address) (zeros-IsBytes 16);
  family = inl (named.family, named.prefix);
  unmapped = λ e. let kind = named.family in absurd (omega arith);
}

-- The well-formed subjects: 16 bytes of address, and no IPv4 address that is spelt as IPv6.
pub record IsSubject (subject : Subject) : Type 0 where
  pub sixteen : IsBytes 16 subject.address
  pub family : (subject.family ≡ 0) ⊎ (subject.family ≡ 4) ⊎ (subject.family ≡ 6)
  pub unmapped : subject.family ≡ 6 → mapped subject.address ≡ false

module _ (net : Inet) (inet : IsInet net) where
  -- Where `inet_pton` writes addresses of the right sizes, a rule that `acl_rule_parse` returns has a well-formed principal and a well-formed network, and
  -- allows or denies as it was told to.
  pub acl_rule_parse-IsRule :
      (allowed : Bool) (selector : Bytes) {result : Rule}
      → acl_rule_parse net allowed (some selector) ≡ some result
      → IsPrincipal result × IsNetwork result × (result.allow_it ≡ allowed)
  unfolding acl_rule_parse
  acl_rule_parse-IsRule allowed selector {result = result} h =
      let (_, h) = guard-eq-some (leb (length selector) 0 || leb 256 (length selector)) _ h in
      let (_, h) =
        guard-eq-some (not (all_bytes (λ p. not (is_space p || p == b'=')) selector)) _ h in
      let (split, _, h) = >>=-eq-some (parts net selector) _ h in
      let (rule, e, h) = >>=-eq-some (principal_parse (blank_rule allowed) split.principal) _ h in
      let named = principal_parse-Named (blank_rule allowed) split.principal refl refl e in
      let placed =
        network_part-Placed net inet rule split.network (blank-IsNetwork allowed named) h in
      (
        IsPrincipal-along placed.kind placed.principal named.ok,
        placed.ok,
        placed.allow_it ∙ named.allow_it,
      )

  acl_subject_init_known :
      (text : Bytes) (name : Option Bytes) (in_group : Option (Bytes → Bool)) {address : Bytes}
      {family : ℕ}
      → address_parse net text ≡ some (address, family)
      → let result = acl_subject_init net (some text) name in_group in
        IsSubject result.1
        × (result.1.family ≢ 0)
        × (result.1.user_name ≡ name)
        × (result.1.in_group ≡ in_group)
  unfolding acl_subject_init mapped
  acl_subject_init_known text name in_group {address = address} {family = family} e =
      let (bytes, kind) = address_parse-IsBytes net inet text e in
      elim (Bool-cases (family == 6 && mapped address)) [
        | inl m ↦
            rw (acl_subject_init, e, m)
              (
                record {
                  sixteen = unmap-IsBytes address bytes;
                  family = inr (inl refl);
                  unmapped = λ e. absurd (omega arith);
                },
                λ z. omega arith,
                refl,
                refl,
              )
        | inr m ↦
            rw (acl_subject_init, e, m)
              (
                record { sixteen = bytes; family = inr kind; unmapped = λ e. ground arith },
                λ z. omega arith,
                refl,
                refl,
              )
      ]

  -- Where `inet_pton` writes addresses of the right sizes, `acl_subject_init` leaves a well-formed
  -- subject, also where it fails, with the name and the
  -- groups that it was given; where it succeeds on an address, the address family is known.
  pub acl_subject_init-IsSubject :
      (ip name : Option Bytes) (in_group : Option (Bytes → Bool))
      → let result = acl_subject_init net ip name in_group in
        IsSubject result.1
        × (result.0 ≡ true → ip ≢ none → result.1.family ≢ 0)
        × (result.1.user_name ≡ name)
        × (result.1.in_group ≡ in_group)
  unfolding acl_subject_init
  acl_subject_init-IsSubject none name in_group = (
    record { sixteen = zeros-IsBytes 16; family = inl refl; unmapped = λ e. absurd (omega arith) },
    λ t n. absurd (n refl),
    refl,
    refl,
  )
  acl_subject_init-IsSubject (some text) name in_group =
      elim (Option-cases (address_parse net text)) [
        | inl n ↦
            rw (acl_subject_init, n)
              (
                record {
                  sixteen = zeros-IsBytes 16;
                  family = inl refl;
                  unmapped = λ e. absurd (omega arith);
                },
                λ t n. ground arith,
                refl,
                refl,
              )
        | inr ((address, family), e) ↦
            let (ok, family, called, groups) = acl_subject_init_known text name in_group e in
            (ok, λ t n. family, called, groups)
      ]

-- What a rule for a network and no principal says.
module _ (rule : Rule) (subject : Subject) (k : rule.kind ≡ any) (f : rule.family ≢ 0) where
  matched :
      network_match rule subject ≡ true
      → subject.family ≢ 0
      → rule_match rule subject ≡ (if rule.allow_it then allow else deny)
  unfolding rule_match
  matched m g = let free = any_passes rule subject k in ground arith

  elsewhere :
      network_match rule subject ≡ false → subject.family ≢ 0 → rule_match rule subject ≡ no_match
  unfolding rule_match
  elsewhere m g = ground arith

  waits : subject.family ≡ 0 → rule_match rule subject ≡ defer
  unfolding rule_match
  waits e = let free = any_passes rule subject k in ground arith

-- Where `inet_pton` writes addresses of the right sizes, a rule for a network and no principal, as
-- parsed, allows or denies an initialised subject whose address lies in the network, and does not match one whose address lies elsewhere; a subject of
-- unknown address must wait.
pub parsed_rule_match :
    (net : Inet)
    → IsInet net
    → (allowed : Bool) (selector : Bytes) (rule : Rule) (ip name : Option Bytes)
      (in_group : Option (Bytes → Bool))
    → acl_rule_parse net allowed (some selector) ≡ some rule
    → rule.kind ≡ any
    → rule.family ≢ 0
    → let subject = (acl_subject_init net ip name in_group).1 in
      (Inside rule subject → rule_match rule subject ≡ (if allowed then allow else deny))
      × (subject.family ≢ 0 → ¬ Inside rule subject → rule_match rule subject ≡ no_match)
      × (subject.family ≡ 0 → rule_match rule subject ≡ defer)
parsed_rule_match net inet allowed selector rule ip name in_group h k f =
    let subject = (acl_subject_init net ip name in_group).1 in
    let (_, network, same) = acl_rule_parse-IsRule net inet allowed selector h in
    let (ok, _, _, _) = acl_subject_init-IsSubject net inet ip name in_group in
    let iff = network_match-Inside rule subject network.sixteen ok.sixteen in
    (
      λ inside.
          let family : subject.family ≢ 0 = λ z. f (inside.same_family ∙ z) in
          matched rule subject k f (iff.1 inside) family ∙ ap (λ b. if b then allow else deny) same,
      λ g out. elim (Bool-cases (network_match rule subject)) [
        | inl m ↦ absurd (out (iff.0 m))
        | inr m ↦ elsewhere rule subject k f m g
      ],
      λ e. waits rule subject k f e,
    )
