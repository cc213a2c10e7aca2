-- ===== src/Acl/Network.antt =====
-- The address test of `acl_rule_match` against the definition of a network: two addresses share
-- their first `prefix` bits.
use librustyaxe.Prelude.{
  ℕ, zero, suc, ◌+◌, ◌-◌, ◌*◌, ◌/◌, ◌%◌, ◌^◌, ◌≤◌, ◌<◌, Bool, true, ◌&&◌, [], ◌∷◌, Bytes, ◌≡◌, refl,
  sym, ap, ◌∙◌, ◌↔◌, ◌⊎◌, inl, inr, arith, ◌==◌, bytes_eq, bit_and, bit_xor, bit_xor-div,
  bit_and-high, take, length, All, two-pow-pos, bit_xor-lt, if◌then◌else◌, length-take,
}
use native.Mathlib.Nat.{
  div-lt_iff_lt-mul, mul-le-mul_right, div-le_self, div-div-eq-div-mul, mod-eq_of_lt,
  mul-add-div_right, div-eq_of_lt, two-pow-succ,
}
use mathlib.Core.Path.{subst}
use native.Mathlib.Decide.{ℕ_discrete}
use librustyaxe.Acl.Types.{Rule, Subject, IsBytes}
use librustyaxe.Acl.Match.{prefix_match, network_match}

-- The number that bytes in network order stand for.
abbrev pub number : Bytes → ℕ
number [] = 0
number (x ∷ a) = x * 2 ^ (8 * length a) + number a

two-pow-add : (m n : ℕ) → 2 ^ (m + n) ≡ 2 ^ m * 2 ^ n
two-pow-add zero n = let same : 0 + n ≡ n = omega arith in rw same (omega arith)
two-pow-add (suc m) n =
    let step : 2 ^ (suc m + n) ≡ 2 ^ (m + n) + 2 ^ (m + n) =
      ap (λ k. 2 ^ k) (omega arith) ∙ two-pow-succ (m + n) in
    rw (step, two-pow-succ m, two-pow-add m n) (grind arith)

number-lt : (a : Bytes) → All (λ b. b < 256) a → number a < 2 ^ (8 * length a)
number-lt [] h = omega arith
number-lt (x ∷ a) (h, rest) =
    let low = number-lt a rest in
    let split = two-pow-add 8 (8 * length a) in
    let top : 2 ^ (8 * suc (length a)) ≡ 256 * 2 ^ (8 * length a) =
      ap (λ n. 2 ^ n) (omega arith) ∙ split in
    let scaled : x * 2 ^ (8 * length a) ≤ 255 * 2 ^ (8 * length a) =
      mul-le-mul_right (2 ^ (8 * length a)) (omega arith) in
    omega arith

-- The leading digit, and the comparison of two numbers by their leading digits and the rest.
lead : (m x u : ℕ) → u < m → (x * m + u) / m ≡ x
lead m x u p = mul-add-div_right (omega arith) x u ∙ ap (λ d. x + d) (div-eq_of_lt p) ∙ omega arith

base_eq : (m x y u v : ℕ) → u < m → v < m → (x * m + u ≡ y * m + v) ↔ ((x ≡ y) × (u ≡ v))
base_eq m x y u v p q = (
  λ h.
      let first : x ≡ y = sym (lead m x u p) ∙ ap (λ n. n / m) h ∙ lead m y v q in
      let same = ap (λ n. n * m) first in (first, omega arith),
  λ h. rw (h.0, h.1),
)

mul_pos_zero : (n m : ℕ) → 0 < m → (n * m ≡ 0) ↔ (n ≡ 0)
mul_pos_zero n m h = grind arith

-- The test of the bits that are left of a byte.
byte_bits :
    (t x y : ℕ)
    → x < 256
    → y < 256
    → (bit_and (bit_xor x y) (0xff * 2 ^ t) ≡ 0) ↔ (x / 2 ^ t ≡ y / 2 ^ t)
byte_bits t x y p q =
    let small = bit_xor-lt 8 x y p q in
    let masked = bit_and-high t 8 (bit_xor x y) in
    let high = bit_xor-div t x y in
    let pos = two-pow-pos t in
    let below : bit_xor x y / 2 ^ t < 256 =
      let le = div-le_self (bit_xor x y) (2 ^ t) in omega arith in
    let rest : bit_xor x y / 2 ^ t % 256 ≡ bit_xor x y / 2 ^ t = mod-eq_of_lt below in
    let zero_iff = mul_pos_zero (bit_xor x y / 2 ^ t) (2 ^ t) pos in
    rw (masked, rest) (ground arith)

-- What a division by a power of two keeps of the leading byte and of the rest.
high_div :
    (m q x u : ℕ)
    → q ≤ m
    → u < 2 ^ m
    → ((x * 2 ^ m + u) / 2 ^ (m - q) ≡ x * 2 ^ q + u / 2 ^ (m - q)) × (u / 2 ^ (m - q) < 2 ^ q)
high_div m q x u h p =
    let back : m ≡ q + (m - q) = omega arith in
    let split : 2 ^ m ≡ 2 ^ q * 2 ^ (m - q) = ap (λ k. 2 ^ k) back ∙ two-pow-add q (m - q) in
    let pos = two-pow-pos (m - q) in
    let regroup : x * 2 ^ m ≡ x * 2 ^ q * 2 ^ (m - q) = grind arith in
    (
      ap (λ n. (n + u) / 2 ^ (m - q)) regroup ∙ mul-add-div_right pos (x * 2 ^ q) u,
      (div-lt_iff_lt-mul pos).1 (omega arith),
    )

low_div : (m t x u : ℕ) → u < 2 ^ m → (x * 2 ^ m + u) / 2 ^ (m + t) ≡ x / 2 ^ t
low_div m t x u p =
    rw
      (
        two-pow-add m t,
        sym (div-div-eq-div-mul (x * 2 ^ m + u) (2 ^ m) (2 ^ t)),
        lead (2 ^ m) x u p,
      )
      refl

module _ (x y : ℕ) (a b : Bytes) where
  prefix_step : (p : ℕ) → prefix_match (p + 8) (x ∷ a) (y ∷ b) ≡ (x == y && prefix_match p a b)
  unfolding prefix_match bytes_eq
  prefix_step p =
      let bytes : (p + 8) / 8 ≡ suc (p / 8) = omega arith in
      let bits : (p + 8) % 8 ≡ p % 8 = omega arith in rw (bytes, bits) (ground arith)

  prefix_bits :
      (p : ℕ)
      → p < 8
      → x < 256
      → y < 256
      → (prefix_match p (x ∷ a) (y ∷ b) ≡ true) ↔ (x / 2 ^ (8 - p) ≡ y / 2 ^ (8 - p))
  unfolding prefix_match bytes_eq
  prefix_bits p h g k =
      let bytes : p / 8 ≡ 0 = omega arith in
      let bits : p % 8 ≡ p = omega arith in
      let byte = byte_bits (8 - p) x y g k in
      rw (bytes, bits)
        (elim (ℕ_discrete p 0) [
          | yes e ↦ let z : x / 2 ^ (8 - p) ≡ y / 2 ^ (8 - p) = rw e (omega arith) in ground arith
          | no n ↦ ground arith
        ])

All-take : (w : ℕ) (a : Bytes) → All (λ b. b < 256) a → All (λ b. b < 256) (take w a)
All-take zero a h = tt
All-take (suc w) [] h = tt
All-take (suc w) (x ∷ a) (h, rest) = (h, All-take w a rest)

taken :
    (w : ℕ) (a : Bytes)
    → w ≤ length a
    → All (λ b. b < 256) a
    → (length (take w a) ≡ w) × (number (take w a) < 2 ^ (8 * w))
taken w a h bytes =
    let len : length (take w a) ≡ w = omega (arith, length-take w a) in
    let lt = number-lt (take w a) (All-take w a bytes) in
    (len, subst (λ n. number (take w a) < 2 ^ (8 * n)) len lt)

-- The two ways that a network divides a number with its leading byte.
module _ (w x y u v : ℕ) (p : u < 2 ^ (8 * w)) (q : v < 2 ^ (8 * w)) where
  inner :
      (n : ℕ)
      → n ≤ 8 * w
      → ((x ≡ y) × (u / 2 ^ (8 * w - n) ≡ v / 2 ^ (8 * w - n))) ↔ (
          (x * 2 ^ (8 * w) + u) / 2 ^ (8 * suc w - (n + 8))
          ≡ (y * 2 ^ (8 * w) + v) / 2 ^ (8 * suc w - (n + 8)))
  inner n h =
      let (left, small) = high_div (8 * w) n x u h p in
      let (right, small') = high_div (8 * w) n y v h q in
      let exponent : 8 * suc w - (n + 8) ≡ 8 * w - n = omega arith in
      let digits = base_eq (2 ^ n) x y _ _ small small' in
      rw (exponent, left, right) (digits.1, digits.0)

  outer :
      (n : ℕ)
      → n < 8
      → (x / 2 ^ (8 - n) ≡ y / 2 ^ (8 - n)) ↔ (
          (x * 2 ^ (8 * w) + u) / 2 ^ (8 * suc w - n) ≡ (y * 2 ^ (8 * w) + v) / 2 ^ (8 * suc w - n))
  outer n h =
      let exponent : 8 * suc w - n ≡ 8 * w + (8 - n) = omega arith in
      rw (exponent, low_div (8 * w) (8 - n) x u p, low_div (8 * w) (8 - n) y v q) (λ e. e, λ e. e)

zero_prefix : (p : ℕ) (a b : Bytes) → p ≡ 0 → prefix_match p a b ≡ true
unfolding prefix_match bytes_eq
zero_prefix p a b e = rw e refl

both : (x y : ℕ) (t : Bool) → ((x == y && t) ≡ true) ↔ ((x ≡ y) × (t ≡ true))
both x y t = ground arith

leb_cases : (m n : ℕ) → (m ≤ n) ⊎ (n < m)
leb_cases m n = omega arith

-- Addresses of `w` bytes at least pass the test just if their first `w` bytes, as numbers, agree once
-- the bits behind the prefix are cut off.
prefix_match_iff :
    (w p : ℕ) (a b : Bytes)
    → p ≤ 8 * w
    → w ≤ length a
    → w ≤ length b
    → All (λ b. b < 256) a
    → All (λ b. b < 256) b
    → (prefix_match p a b ≡ true)
      ↔ (number (take w a) / 2 ^ (8 * w - p) ≡ number (take w b) / 2 ^ (8 * w - p))
unfolding prefix_match bytes_eq
prefix_match_iff zero p a b h k l f g = (λ e. refl, λ e. zero_prefix p a b (omega arith))
prefix_match_iff (suc w) p [] b h k l f g = absurd (omega arith)
prefix_match_iff (suc w) p (x ∷ a) [] h k l f g = absurd (omega arith)
prefix_match_iff (suc w) p (x ∷ a) (y ∷ b) h k l f g =
    let (len, small) = taken w a (omega arith) f.1 in
    let (len', small') = taken w b (omega arith) g.1 in
    elim (leb_cases 8 p) [
      | inl long ↦
          let q = p - 8 in
          let back : p ≡ q + 8 = omega arith in
          let rest = prefix_match_iff w q a b (omega arith) (omega arith) (omega arith) f.1 g.1 in
          let step = prefix_step x y a b q in
          let parts = inner w x y _ _ small small' q (omega arith) in
          rw (len, len', back, step)
            (
              λ e. let h = (both x y (prefix_match q a b)).0 e in parts.0 (h.0, rest.0 h.1),
              λ e. let h = parts.1 e in (both x y (prefix_match q a b)).1 (h.0, rest.1 h.1),
            )
      | inr short ↦
          let bits = prefix_bits x y a b p short f.0 g.0 in
          let parts = outer w x y _ _ small small' p short in
          rw (len, len') (λ e. parts.0 (bits.0 e), λ e. bits.1 (parts.1 e))
    ]

-- The bytes and the bits of an address of a family.
abbrev pub bytes_of : ℕ → ℕ
bytes_of family = if family == 4 then 4 else 16

-- Where the address of `subject` lies in the network of `rule`: the families agree, and the two
-- addresses, as numbers of that family's width, agree above the bits that the prefix leaves free.
pub record Inside (rule : Rule) (subject : Subject) : Type 0 where
  pub is_ip : (rule.family ≡ 4) ⊎ (rule.family ≡ 6)
  pub same_family : rule.family ≡ subject.family
  pub in_range : rule.prefix ≤ 8 * bytes_of rule.family
  pub same_prefix :
      number (take (bytes_of rule.family) rule.address)
        / 2 ^ (8 * bytes_of rule.family - rule.prefix)
      ≡ number (take (bytes_of rule.family) subject.address)
        / 2 ^ (8 * bytes_of rule.family - rule.prefix)

-- Of 16-byte addresses, network_match holds just where the subject's address lies in the rule's
-- network.
pub network_match-Inside :
    (rule : Rule) (subject : Subject)
    → IsBytes 16 rule.address
    → IsBytes 16 subject.address
    → (network_match rule subject ≡ true) ↔ Inside rule subject
unfolding network_match
network_match-Inside rule subject a b =
    let w = bytes_of rule.family in
    let wide : w ≤ 16 = ground arith in
    (
      λ h.
          let in_range : rule.prefix ≤ 8 * w = ground arith in
          let iff =
            prefix_match_iff w rule.prefix rule.address subject.address in_range (omega arith)
              (omega arith) a.1 b.1 in
          record {
            is_ip = ground arith;
            same_family = ground arith;
            in_range = in_range;
            same_prefix = iff.0 (ground arith);
          },
      λ inside.
          let iff =
            prefix_match_iff w rule.prefix rule.address subject.address inside.in_range
              (omega arith) (omega arith) a.1 b.1 in
          let shared = iff.1 inside.same_prefix in
          let family = inside.same_family in
          let in_range = inside.in_range in
          elim inside.is_ip [ inl e ↦ ground arith | inr e ↦ ground arith ],
    )
