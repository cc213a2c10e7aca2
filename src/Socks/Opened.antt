-- ===== src/Socks/Opened.antt =====
-- The transcript of the handshake through the rounds of `rr_socks_event`.
use librustyaxe.Prelude.{
  ℕ, suc, ◌+◌, ◌≤◌, ◌≡◌, refl, ◌≢◌, [], ◌∷◌, Bytes, length, take, drop, get_or, arith, ◌⊎◌, inl,
  inr, length-take, length-drop,
}
use librustyaxe.Socks.Types.{ready, Socks, Conn}
use librustyaxe.Socks.Event.{
  opened, return, connect_round, address_round, hostname_round, fail, consume, at, finish,
}
use librustyaxe.Socks.Transcript.{IsReply, ipv4, ipv6, name}

take_four :
    (k : ℕ) (a : Bytes)
    → 4 + k ≤ length a
    → take (suc (suc (suc (suc k)))) a
      ≡ get_or a 0 0 ∷ get_or a 1 0 ∷ get_or a 2 0 ∷ get_or a 3 0 ∷ take k (drop 4 a)
take_four k [] h = absurd (omega arith)
take_four k (x ∷ []) h = absurd (omega arith)
take_four k (x ∷ y ∷ []) h = absurd (omega arith)
take_four k (x ∷ y ∷ z ∷ []) h = absurd (omega arith)
take_four k (x ∷ y ∷ z ∷ w ∷ a) h = refl

length-rest : (n k : ℕ) (a : Bytes) → n + k ≤ length a → length (take k (drop n a)) ≡ k
length-rest n k a h = omega (arith, length-take k (drop n a), length-drop n a)

split_seven : (n : ℕ) → 7 + n ≡ suc (suc (suc (suc (suc (n + 2)))))
split_seven n = omega arith

take_five :
    (k : ℕ) (a : Bytes)
    → 5 + k ≤ length a
    → take (suc k) (drop 4 a) ≡ get_or a 4 0 ∷ take k (drop 5 a)
take_five k [] h = absurd (omega arith)
take_five k (x ∷ []) h = absurd (omega arith)
take_five k (x ∷ y ∷ []) h = absurd (omega arith)
take_five k (x ∷ y ∷ z ∷ []) h = absurd (omega arith)
take_five k (x ∷ y ∷ z ∷ w ∷ []) h = absurd (omega arith)
take_five k (x ∷ y ∷ z ∷ w ∷ v ∷ a) h = refl

-- The end of the connect stage: `n` bytes of a reply.
pub record Opens (s : Socks) (c : Conn) (s' : Socks) (c' : Conn) : Type 0 where
  pub size : ℕ
  pub reply : IsReply (take size c.recv)
  pub stage : s' ≡ record s { stage = ready }
  pub rest : c' ≡ consume size c

-- The tests that a reply has passed.
module _ (s : Socks) (c : Conn) {s' : Socks} {c' : Conn} where
  hostname-opened :
      hostname_round s c ≡ return (opened, s', c')
      → (at c 4 ≢ 0) × (finish (7 + at c 4) s c ≡ return (opened, s', c'))
  unfolding hostname_round fail
  hostname-opened h = (λ z. ground arith, ground arith)

  address-opened :
      address_round s c ≡ return (opened, s', c')
      → ((at c 3 ≡ 1) × (finish 10 s c ≡ return (opened, s', c')))
        ⊎ (((at c 3 ≡ 4) × (finish 22 s c ≡ return (opened, s', c')))
            ⊎ ((at c 3 ≡ 3) × (hostname_round s c ≡ return (opened, s', c'))))
  unfolding address_round fail
  address-opened h = ground arith

  connect-opened :
      connect_round s c ≡ return (opened, s', c')
      → (at c 0 ≡ 5) × (at c 1 ≡ 0) × (at c 2 ≡ 0) × (address_round s c ≡ return (opened, s', c'))
  unfolding connect_round fail
  connect-opened h = ground arith

module _ (s : Socks) (c : Conn) {s' : Socks} {c' : Conn} (five : at c 0 ≡ 5) (ok : at c 1 ≡ 0)
    (zero_byte : at c 2 ≡ 0) where
  finish-opened :
      (n : ℕ)
      → finish n s c ≡ return (opened, s', c')
      → (n ≤ length c.recv) × (s' ≡ record s { stage = ready }) × (c' ≡ consume n c)
  finish-opened n h = ground arith

  ipv4-Opens : at c 3 ≡ 1 → finish 10 s c ≡ return (opened, s', c') → Opens s c s' c'
  ipv4-Opens kind h =
      let (enough, x, y) = finish-opened 10 h in
      record {
        size = 10;
        reply =
            rw (take_four 6 c.recv enough, five, ok, zero_byte, kind)
              (ipv4 _ (length-rest 4 6 c.recv enough));
        stage = x;
        rest = y;
      }

  ipv6-Opens : at c 3 ≡ 4 → finish 22 s c ≡ return (opened, s', c') → Opens s c s' c'
  ipv6-Opens kind h =
      let (enough, x, y) = finish-opened 22 h in
      record {
        size = 22;
        reply =
            rw (take_four 18 c.recv enough, five, ok, zero_byte, kind)
              (ipv6 _ (length-rest 4 18 c.recv enough));
        stage = x;
        rest = y;
      }

  name-Opens :
      at c 3 ≡ 3 → at c 4 ≢ 0 → finish (7 + at c 4) s c ≡ return (opened, s', c') → Opens s c s' c'
  name-Opens kind ne h =
      let n = at c 4 in
      let (enough, x, y) = finish-opened (7 + n) h in
      record {
        size = 7 + n;
        reply =
            rw
              (
                split_seven n,
                take_four (suc (n + 2)) c.recv (omega (arith, enough)),
                take_five (n + 2) c.recv (omega (arith, enough)),
                five,
                ok,
                zero_byte,
                kind,
              )
              (name n _ ne (length-rest 5 (n + 2) c.recv (omega (arith, enough))));
        stage = x;
        rest = y;
      }

  hostname-Opens : at c 3 ≡ 3 → hostname_round s c ≡ return (opened, s', c') → Opens s c s' c'
  hostname-Opens kind h = let (ne, e) = hostname-opened s c h in name-Opens kind ne e

  address-Opens : address_round s c ≡ return (opened, s', c') → Opens s c s' c'
  address-Opens h = elim (address-opened s c h) [
    | inl (kind, e) ↦ ipv4-Opens kind e
    | inr (inl (kind, e)) ↦ ipv6-Opens kind e
    | inr (inr (kind, e)) ↦ hostname-Opens kind e
  ]

pub connect-Opens :
    (s : Socks) (c : Conn) {s' : Socks} {c' : Conn}
    → connect_round s c ≡ return (opened, s', c')
    → Opens s c s' c'
connect-Opens s c h =
    let (five, ok, zero_byte, e) = connect-opened s c h in address-Opens s c five ok zero_byte e
