-- ===== src/Irc/Print.antt =====
-- A printer of colour codes, and the round trip through `irc_color_parse`.
use librustyaxe.Prelude.{
  ℕ, zero, suc, ◌+◌, ◌-◌, ◌*◌, ◌/◌, ◌%◌, ◌^◌, ◌≤◌, ◌<◌, Bool, true, false, not, ◌&&◌, ◌||◌, some,
  [], ◌∷◌, ◌++◌, Bytes, ltb, ◌==◌, if◌then◌else◌, drop, ◌≡◌, refl, sym, ap, ◌∙◌, arith,
}
use native.Mathlib.Nat.{
  mod-one, one-le-pow, add-mul-mod_self_left, mul-le-mul_right, pow-zero, pow-suc, div-add-mod,
  mod-eq_of_lt, mod-lt,
}
use librustyaxe.Irc.Parse.{
  base_of, digit_of, component_loop, limit_of, color_component, background_parse, irc_color_parse,
}
use librustyaxe.Irc.Bounds.{color_end, base_pos}

-- A digit as a byte, in lower case.
abbrev pub digit_byte : ℕ → ℕ
digit_byte d = if ltb d 10 then b'0' + d else b'a' + (d - 10)

-- The lowest `k` digits of a number, the highest of them first.
abbrev pub print_digits : Bool → ℕ → ℕ → Bytes
print_digits hex zero n = []
print_digits hex (suc k) n = digit_byte (n / base_of hex ^ k % base_of hex) ∷ print_digits hex k n

digit-digit : (hex : Bool) (d : ℕ) → d < base_of hex → digit_of hex (digit_byte d) ≡ some d
digit-digit true d h = ground arith
digit-digit false d h = ground arith

-- A remainder by one more factor, from the remainder of the quotient.
mod_more : (p b n : ℕ) → 0 < p → 0 < b → n % (p * b) ≡ n / p % b * p + n % p
mod_more p b n h k =
    let low = mod-lt n h in
    let digit = mod-lt (n / p) k in
    let whole = div-add-mod n p in
    let part = div-add-mod (n / p) b in
    let regroup : p * (n / p) ≡ p * (n / p % b) + p * b * (n / p / b) =
      ap (λ q. p * q) (sym part) ∙ grind arith in
    let turn : p * (n / p % b) ≡ n / p % b * p = grind arith in
    let split : n ≡ n / p % b * p + n % p + p * b * (n / p / b) = omega arith in
    let scaled : (n / p % b + 1) * p ≤ b * p = mul-le-mul_right p (omega arith) in
    let open_up : (n / p % b + 1) * p ≡ n / p % b * p + p = grind arith in
    let same : b * p ≡ p * b = grind arith in
    let small : n / p % b * p + n % p < p * b = omega arith in
    ap (λ x. x % (p * b)) split
    ∙ add-mul-mod_self_left (n / p % b * p + n % p) (p * b) (n / p / b)
    ∙ mod-eq_of_lt small

-- The lowest digits of a number, from its highest one on.
shift_digit :
    (b k n r : ℕ)
    → 0 < b
    → (r * b + n / b ^ k % b) * b ^ k + n % b ^ k ≡ r * b ^ suc k + n % b ^ suc k
shift_digit b k n r h =
    let pos = one-le-pow k b h in
    let more = mod_more (b ^ k) b n pos h in rw (pow-suc b k, more) (grind arith)

pair_eq : {a b c d : ℕ} → a ≡ b → c ≡ d → ◌≡◌ {A = ℕ × ℕ} (a, c) (b, d)
pair_eq p q = rw (p, q) refl

component_loop-print :
    (k : ℕ) (hex : Bool) (count result n : ℕ) (rest : Bytes)
    → component_loop k hex count result (print_digits hex k n ++ rest)
      ≡ (count + k, result * base_of hex ^ k + n % base_of hex ^ k)
unfolding component_loop
component_loop-print zero hex count result n rest =
    let unit = pow-zero (base_of hex) in
    let none_left : n % base_of hex ^ 0 ≡ 0 = rw unit (omega arith) in
    let value : result * base_of hex ^ 0 + n % base_of hex ^ 0 ≡ result =
      rw (unit, mod-one) (omega arith) in
    let counted : count ≡ count + 0 = omega arith in rw (value, sym counted) refl
component_loop-print (suc k) hex count result n rest =
    let digit = n / base_of hex ^ k % base_of hex in
    let read = digit-digit hex digit (mod-lt _ (base_pos hex)) in
    let loop = component_loop-print k hex (count + 1) (result * base_of hex + digit) n rest in
    rw (component_loop, read, loop)
      (pair_eq (omega arith) (shift_digit (base_of hex) k n result (base_pos hex)))

color_power : (hex : Bool) → base_of hex ^ limit_of hex ≡ color_end hex
color_power true = refl
color_power false = refl

full_component : (hex : Bool) → (hex && not (limit_of hex == 6)) ≡ false
full_component true = refl
full_component false = refl

some_component : (hex : Bool) → (limit_of hex == 0) ≡ false
some_component true = refl
some_component false = refl

color_component-print :
    (hex : Bool) (n value : ℕ) (rest : Bytes)
    → n < color_end hex
    → color_component (print_digits hex (limit_of hex) n ++ rest) hex value ≡ (limit_of hex, n)
unfolding color_component
color_component-print hex n value rest h =
    let power = color_power hex in
    let whole : n % base_of hex ^ limit_of hex ≡ n = rw power (mod-eq_of_lt h) in
    let loop : component_loop (limit_of hex) hex 0 0 (print_digits hex (limit_of hex) n ++ rest)
        ≡ (limit_of hex, n) =
      component_loop-print (limit_of hex) hex 0 0 n rest ∙ pair_eq (omega arith) (omega arith) in
    rw (color_component, loop, full_component hex) refl

drop-print : (hex : Bool) (k n : ℕ) (rest : Bytes) → drop k (print_digits hex k n ++ rest) ≡ rest
drop-print hex zero n rest = refl
drop-print hex (suc k) n rest = drop-print hex k n rest

-- The first byte of a code.
abbrev pub start_of : Bool → ℕ
start_of hex = if hex then 4 else 3

starts :
    (hex : Bool) → let c = start_of hex in ((not (c == 3 || c == 4)) ≡ false) × ((c == 4) ≡ hex)
starts true = (refl, refl)
starts false = (refl, refl)

-- The code of a foreground and a background.
abbrev pub print_colors : Bool → ℕ → ℕ → Bytes → Bytes
print_colors hex foreground bg rest =
    start_of hex
    ∷ (print_digits hex (limit_of hex) foreground
        ++ b',' ∷ (print_digits hex (limit_of hex) bg ++ rest))

-- `irc_color_parse` reads the code of two colours, printed with all their digits, back as those
-- colours, and leaves what follows it, whatever that is, if the colours are below 2^24 in a
-- hexadecimal code and below 100 in a decimal one.
pub irc_color_parse-print_colors :
    (hex : Bool) (foreground bg : ℕ) (rest : Bytes)
    → foreground < color_end hex
    → bg < color_end hex
    → irc_color_parse (some (print_colors hex foreground bg rest)) ≡ (
      2 + limit_of hex + limit_of hex,
      record { hex = hex; reset = false; background = true; foreground = foreground; bg = bg },
    )
unfolding irc_color_parse background_parse
irc_color_parse-print_colors hex foreground bg rest f g =
    let (start, mode) = starts hex in
    let tail = b',' ∷ (print_digits hex (limit_of hex) bg ++ rest) in
    let front = color_component-print hex foreground 0 tail f in
    let back = color_component-print hex bg 0 rest g in
    let left = drop-print hex (limit_of hex) foreground tail in
    let total : 1 + limit_of hex + (1 + limit_of hex) ≡ 2 + limit_of hex + limit_of hex =
      omega arith in
    rw
      (
        irc_color_parse,
        start,
        mode,
        front,
        some_component hex,
        left,
        background_parse,
        back,
        some_component hex,
      )
      (rw total refl)
