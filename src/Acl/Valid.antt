-- ===== src/Acl/Valid.antt =====
-- What a successful parse of a rule or of a subject leaves in the structure.
use librustyaxe.Prelude.{
  ℕ, zero, suc, ◌+◌, ◌-◌, ◌≤◌, ◌<◌, true, false, ◌&&◌, ◌||◌, Option, none, some, [], ◌∷◌, ◌++◌,
  Bytes, ◌≡◌, refl, sym, ap, ◌≢◌, ◌⊎◌, inl, inr, arith, ◌==◌, ltb, leb, if◌then◌else◌, bytes_eq,
  has_byte, length, length-take, length-drop, take, drop, replicate, All, >>=-eq-some, ◌>>=◌, codes,
  guard-eq-some, some-injective, if-cases, some-pair, split_first, Option-cases,
}
use librustyaxe.Acl.Types.{Principal, any, user, group, Rule, IsBytes, Inet, IsInet, principal_max}
use librustyaxe.Acl.Parse.{
  mapped, unmap, address_parse, bits_of, network_finish, network_parse, network_text, prefix_text,
  check_principal, principal_parse, network_part,
}

-- The principal of a rule is empty for everyone, and otherwise a name of 1 to 127 bytes with no `@`.
pub record IsPrincipal (rule : Rule) : Type 0 where
  pub nobody : rule.kind ≡ any → rule.principal ≡ []
  pub named :
      rule.kind ≢ any
      → (1 ≤ length rule.principal)
        × (length rule.principal ≤ principal_max)
        × (has_byte b'@' rule.principal ≡ false)

-- The network of a rule: none at all, or an IPv4 or IPv6 one with a prefix in its range, never an
-- IPv4 one that is spelt as IPv6.
pub record IsNetwork (rule : Rule) : Type 0 where
  pub sixteen : IsBytes 16 rule.address
  pub family :
      ((rule.family ≡ 0) × (rule.prefix ≡ 0))
      ⊎ ((rule.family ≡ 4) × (rule.prefix ≤ 32))
      ⊎ ((rule.family ≡ 6) × (rule.prefix ≤ 128))
  pub unmapped : rule.family ≡ 6 → mapped rule.address ≡ true → rule.prefix < 96

-- What the parse of the principal keeps of the rule.
pub record Named (rule result : Rule) : Type 0 where
  pub ok : IsPrincipal result
  pub address : result.address ≡ rule.address
  pub family : result.family ≡ rule.family
  pub prefix : result.prefix ≡ rule.prefix
  pub allow_it : result.allow_it ≡ rule.allow_it

check_principal-Named :
    (rule : Rule) (kind : Principal) (name : Bytes) {result : Rule}
    → kind ≢ any
    → check_principal rule kind name ≡ some result
    → Named rule result
check_principal-Named rule kind name {result = result} k h =
    let (good, e) = guard-eq-some _ (some (record rule { kind = kind; principal = name })) h in
    rw (sym (some-injective e)) (record {
      ok = record { nobody = λ e. absurd (k e); named = λ n. ground arith };
      address = refl;
      family = refl;
      prefix = refl;
      allow_it = refl;
    })

pub principal_parse-Named :
    (rule : Rule) (name : Option Bytes) {result : Rule}
    → rule.kind ≡ any
    → rule.principal ≡ []
    → principal_parse rule name ≡ some result
    → Named rule result
unfolding principal_parse
principal_parse-Named rule none {result = result} k p h = rw (sym (some-injective h)) (record {
  ok = record { nobody = λ e. p; named = λ n. absurd (n k) };
  address = refl;
  family = refl;
  prefix = refl;
  allow_it = refl;
})
principal_parse-Named rule (some []) k p h = ground arith
principal_parse-Named rule (some (c ∷ name)) k p h = elim (if-cases (c == b'@') _ _ h) [
  | inl (e, h) ↦ check_principal-Named rule group name (λ x. ground arith) h
  | inr (e, h) ↦ check_principal-Named rule user (c ∷ name) (λ x. ground arith) h
]

pub zeros-IsBytes : (n : ℕ) → IsBytes n (replicate n 0)
zeros-IsBytes zero = (refl, tt)
zeros-IsBytes (suc n) = let h = zeros-IsBytes n in (ap suc h.0, (omega arith, h.1))

append-IsBytes : (a b : Bytes) {m n : ℕ} → IsBytes m a → IsBytes n b → IsBytes (m + n) (a ++ b)
append-IsBytes [] b {m = m} {n = n} p q = (omega arith, q.1)
append-IsBytes (x ∷ a) b {m = zero} p q = absurd (omega arith)
append-IsBytes (x ∷ a) b {m = suc m} (l, (f, r)) q =
    let rest = append-IsBytes a b {m = m} (omega arith, r) q in (omega arith, (f, rest.1))

All-split :
    (n : ℕ) (a : Bytes)
    → All (λ b. b < 256) a
    → All (λ b. b < 256) (take n a) × All (λ b. b < 256) (drop n a)
All-split zero a h = (tt, h)
All-split (suc n) [] h = (tt, tt)
All-split (suc n) (x ∷ a) (h, rest) = let (l, r) = All-split n a rest in ((h, l), r)

pub unmap-IsBytes : (a : Bytes) → IsBytes 16 a → IsBytes 16 (unmap a)
unmap-IsBytes a (l, h) =
    let low = All-split 4 a h in
    let tail = All-split 4 (drop 12 a) ((All-split 12 a h).1) in
    let tail_size = length-take 4 (drop 12 a) in
    let far_size = length-drop 12 a in
    let near_size = length-drop 4 a in
    append-IsBytes (take 4 (drop 12 a)) (drop 4 a) {m = 4} {n = 12} (omega arith, tail.0)
      (omega arith, low.1)

-- What the parse of the network keeps of the rule.
pub record Placed (rule result : Rule) : Type 0 where
  pub ok : IsNetwork result
  pub kind : result.kind ≡ rule.kind
  pub principal : result.principal ≡ rule.principal
  pub allow_it : result.allow_it ≡ rule.allow_it

network_finish-Placed :
    (rule : Rule) (address : Bytes) (family prefix : ℕ) {result : Rule}
    → IsBytes 16 address
    → (family ≡ 4) ⊎ (family ≡ 6)
    → network_finish rule address family prefix ≡ some result
    → Placed rule result
unfolding network_finish mapped
network_finish-Placed rule address family prefix {result = result} bytes kind h =
    let (fits, h) = guard-eq-some (ltb (bits_of family) prefix) _ h in
    let bound : prefix ≤ bits_of family = ground arith in
    elim (if-cases (family == 6 && mapped address && leb 96 prefix)
      (some (record rule { address = unmap address; family = 4; prefix = prefix - 96 }))
      (some (record rule { address = address; family = family; prefix = prefix })) h) [
        | inl (m, e) ↦ rw (sym (some-injective e)) (record {
          ok = record {
            sixteen = unmap-IsBytes address bytes;
            family = inr (inl (refl, ground arith));
            unmapped = λ e. absurd (omega arith);
          };
          kind = refl;
          principal = refl;
          allow_it = refl;
        })
        | inr (m, e) ↦ rw (sym (some-injective e)) (record {
          ok = record { sixteen = bytes; family = ground arith; unmapped = λ f g. ground arith };
          kind = refl;
          principal = refl;
          allow_it = refl;
        })
      ]

module _ (net : Inet) (inet : IsInet net) where
  pub address_parse-IsBytes :
      (ip : Bytes) {address : Bytes} {family : ℕ}
      → address_parse net ip ≡ some (address, family)
      → IsBytes 16 address × ((family ≡ 4) ⊎ (family ≡ 6))
  unfolding address_parse
  address_parse-IsBytes ip {address = address} {family = family} h =
      elim (Option-cases (net.pton4 ip)) [
        | inr (a, e) ↦
            let four = append-IsBytes a (replicate 12 0) (inet.four ip a e) (zeros-IsBytes 12) in
            let found : some (a ++ replicate 12 0, 4) ≡ some (address, family) = ground arith in
            let (same, kind) = some-pair found in (rw (sym same) four, inl (sym kind))
        | inl n ↦ elim (Option-cases (net.pton6 ip)) [
          | inr (a, e) ↦
              let six = inet.sixteen ip a e in
              let found : some (a, 6) ≡ some (address, family) = ground arith in
              let (same, kind) = some-pair found in (rw (sym same) six, inr (sym kind))
          | inl m ↦ ground arith
        ]
      ]

  network_text-Placed :
      (rule : Rule) (text : Bytes) {result : Rule}
      → network_text net rule text ≡ some result
      → Placed rule result
  unfolding network_text
  network_text-Placed rule text {result = result} h = elim (Option-cases (split_first b'/' text)) [
    | inl n ↦
        let h' : (address_parse net text >>= (λ (a, f). network_finish rule a f (bits_of f)))
            ≡ some result =
          ground arith in
        let ((address, family), e, h) = >>=-eq-some (address_parse net text) _ h' in
        let (bytes, kind) = address_parse-IsBytes text e in
        network_finish-Placed rule address family (bits_of family) bytes kind h
    | inr ((ip, digits), e) ↦
        let h' : (prefix_text digits
              >>= (λ p. address_parse net ip >>= (λ (a, f). network_finish rule a f p)))
            ≡ some result =
          ground arith in
        let (prefix, _, h) = >>=-eq-some (prefix_text digits) _ h' in
        let ((address, family), e, h) = >>=-eq-some (address_parse net ip) _ h in
        let (bytes, kind) = address_parse-IsBytes ip e in
        network_finish-Placed rule address family prefix bytes kind h
  ]

  network_parse-Placed :
      (rule : Rule) (text : Bytes) {result : Rule}
      → IsNetwork rule
      → network_parse net rule text ≡ some result
      → Placed rule result
  unfolding network_parse
  network_parse-Placed rule text {result = result} ok h =
      elim (if-cases (bytes_eq text (codes "all") || bytes_eq text (codes "*")) (some rule)
        (if leb 64 (length text) then none else network_text net rule text) h) [
          | inl (b, e) ↦
              rw (sym (some-injective e))
                (record { ok = ok; kind = refl; principal = refl; allow_it = refl })
          | inr (b, e) ↦
              network_text-Placed rule text
                ((guard-eq-some (leb 64 (length text)) (network_text net rule text) e).1)
        ]

  pub network_part-Placed :
      (rule : Rule) (text : Option Bytes) {result : Rule}
      → IsNetwork rule
      → network_part net rule text ≡ some result
      → Placed rule result
  unfolding network_part
  network_part-Placed rule none ok h =
      rw (sym (some-injective h))
        (record { ok = ok; kind = refl; principal = refl; allow_it = refl })
  network_part-Placed rule (some text) ok h = network_parse-Placed rule text ok h
