-- ===== src/Acl/Parse.antt =====
-- The parsers of acl.c over an `inet_pton`. `none` is the result false; the rule is an out
-- parameter, which only a successful parse writes.
use librustyaxe.Prelude.{
  ℕ, ◌+◌, ◌-◌, ◌*◌, Bool, true, false, not, ◌&&◌, ◌||◌, Option, none, some, [], ◌∷◌, ◌++◌, ltb, leb,
  ◌==◌, if◌then◌else◌, ◌>>=◌, Bytes, codes, bytes_eq, has_byte, split_first, split_last, all_bytes,
  is_digit, is_space, length, take, drop, replicate,
}
use librustyaxe.Acl.Types.{Principal, any, user, group, Rule, Subject, principal_max, Inet}

-- `memcmp` with ten zeros and two 0xff
abbrev pub mapped_prefix : Bytes
mapped_prefix = replicate 10 0 ++ 0xff ∷ 0xff ∷ []

unfoldable pub mapped : Bytes → Bool
unfolding bytes_eq
mapped address = bytes_eq (take 12 address) mapped_prefix

-- `memmove(address, address + 12, 4)` on an array of 16 bytes
abbrev pub unmap : Bytes → Bytes
unmap address = take 4 (drop 12 address) ++ drop 4 address

-- `address_parse` clears the 16 bytes first. The result is the address with its family.
unfoldable pub address_parse : Inet → Bytes → Option (Bytes × ℕ)
address_parse net ip = elim (net.pton4 ip) [
  | some a ↦ some (a ++ replicate 12 0, 4)
  | none ↦ elim (net.pton6 ip) [ some a ↦ some (a, 6) | none ↦ none ]
]

-- The loop over the digits behind the slash.
unfoldable pub prefix_digits : ℕ → Bytes → Option ℕ
prefix_digits prefix [] = some prefix
prefix_digits prefix (p ∷ rest) =
    let next = prefix_digits (prefix * 10 + (p - 48)) rest in
    if not (is_digit p) || ltb 128 prefix then none else next

-- What stands behind the slash, if there is one.
abbrev pub prefix_text : Bytes → Option ℕ
prefix_text [] = none
prefix_text text = prefix_digits 0 text

abbrev pub bits_of : ℕ → ℕ
bits_of family = if family == 4 then 32 else 128

-- The end of `network_parse`: the bounds of the prefix, and a mapped network becomes an IPv4 one.
unfoldable pub network_finish : Rule → Bytes → ℕ → ℕ → Option Rule
unfolding mapped
network_finish rule address family prefix =
    if ltb (bits_of family) prefix
    then none
    else if family == 6 && mapped address && leb 96 prefix
    then some (record rule { address = unmap address; family = 4; prefix = prefix - 96 })
    else some (record rule { address = address; family = family; prefix = prefix })

-- `network_parse` behind its guards: an address, perhaps with a prefix.
unfoldable pub network_text : Inet → Rule → Bytes → Option Rule
unfolding split_first
network_text net rule text = elim (split_first b'/' text) [
  | none ↦ do
    (address, family) ← address_parse net text
    network_finish rule address family (bits_of family)
  | some (ip, digits) ↦ do
    prefix ← prefix_text digits
    (address, family) ← address_parse net ip
    network_finish rule address family prefix
]

unfoldable pub network_parse : Inet → Rule → Bytes → Option Rule
unfolding bytes_eq
network_parse net rule text =
    if bytes_eq text (codes "all") || bytes_eq text (codes "*")
    then some rule
    else if leb 64 (length text)
    then none
    else network_text net rule text

-- Which part of a selector names a principal and which names a network.
pub record Parts : Type 0 where
  pub principal : Option Bytes
  pub network : Option Bytes

abbrev only_principal : Bytes → Option Parts
only_principal copy = some (record { principal = some copy; network = none })

abbrev only_network : Bytes → Option Parts
only_network copy = some (record { principal = none; network = some copy })

abbrev is_some {ℓ} : {A : Type ℓ} → Option A → Bool
is_some none = false
is_some (some a) = true

-- A selector with no `@` in it, or with one at its start.
unfoldable pub parts_bare : Inet → Bytes → Option Parts
unfolding bytes_eq has_byte
parts_bare net [] = none
parts_bare net (c ∷ rest) =
    let copy = c ∷ rest in
    if c == b'@'
    then only_principal copy
    else if bytes_eq copy (codes "all")
        || bytes_eq copy (codes "*")
        || has_byte b'/' copy
        || has_byte b':' copy
        || is_some (address_parse net copy)
    then only_network copy
    else if all_bytes (λ b. is_digit b || b == b'.') copy && has_byte b'.' copy
    then none
    else only_principal copy

unfoldable pub parts : Inet → Bytes → Option Parts
unfolding parts_bare split_last
parts net copy = elim (split_last b'@' copy) [
  | some (c ∷ principal, network) ↦
      some (record { principal = some (c ∷ principal); network = some network })
  | _ ↦ parts_bare net copy
]

abbrev pub check_principal : Rule → Principal → Bytes → Option Rule
check_principal rule kind name =
    if leb (length name) 0 || ltb principal_max (length name) || has_byte b'@' name
    then none
    else some (record rule { kind = kind; principal = name })

-- The principal of a rule: a name, or a group behind `@`.
unfoldable pub principal_parse : Rule → Option Bytes → Option Rule
unfolding has_byte
principal_parse rule none = some rule
principal_parse rule (some []) = none
principal_parse rule (some (c ∷ name)) =
    if c == b'@' then check_principal rule group name else check_principal rule user (c ∷ name)

abbrev pub blank_rule : Bool → Rule
blank_rule allow = record {
  address = replicate 16 0;
  family = 0;
  prefix = 0;
  kind = any;
  principal = [];
  allow_it = allow;
}

unfoldable pub network_part : Inet → Rule → Option Bytes → Option Rule
network_part net rule none = some rule
network_part net rule (some text) = network_parse net rule text

unfoldable pub acl_rule_parse : Inet → Bool → Option Bytes → Option Rule
unfolding network_part
acl_rule_parse net allow none = none
acl_rule_parse net allow (some selector) =
    if leb (length selector) 0 || leb 256 (length selector)
    then none
    else if not (all_bytes (λ p. not (is_space p || p == b'=')) selector)
    then none
    else do
      split ← parts net selector
      rule ← principal_parse (blank_rule allow) split.principal
      network_part net rule split.network

-- The result, and the subject that the call leaves.
unfoldable pub acl_subject_init :
    Inet → Option Bytes → Option Bytes → Option (Bytes → Bool) → Bool × Subject
unfolding address_parse mapped
acl_subject_init net ip name in_group =
    let blank : Subject = record {
      address = replicate 16 0;
      family = 0;
      user_name = name;
      in_group = in_group;
      ignore_case = false;
    } in
    elim ip [
      | none ↦ (true, blank)
      | some text ↦ elim (address_parse net text) [
        | none ↦ (false, blank)
        | some (address, family) ↦
            if family == 6 && mapped address
            then (true, record blank { address = unmap address; family = 4 })
            else (true, record blank { address = address; family = family })
      ]
    ]
