-- ===== src/Socks/Rounds.antt =====
-- The loop of `rr_socks_event`: what a round does to the stage, and that four rounds are enough.
use librustyaxe.Prelude.{
  ℕ, zero, suc, ◌<◌, ◌≡◌, refl, ◌∙◌, Bool, true, false, some, Bytes, arith, ◌⊎◌, inl, inr,
  Bool-cases,
}
use librustyaxe.Acl.Types.{Inet}
use librustyaxe.Socks.Types.{Stage, greeting, auth, connect, Socks, Conn}
use librustyaxe.Socks.Event.{
  broken, negotiating, Reply, Round, return, again, round, rounds, connect_request, send_auth,
  mg_send, consume, finish,
}

-- How many rounds may still follow.
abbrev pub rank : Stage → ℕ
rank greeting = 2
rank auth = 1
rank _ = 0

module _ (net : Inet) (queues : Bytes → Bool) where
  again-connect :
      (s : Socks) (c : Conn) {s' : Socks} {c' : Conn}
      → connect_request net queues s c ≡ again s' c'
      → (s'.stage ≡ connect) × (c'.is_closing ≡ c.is_closing)
  unfolding connect_request mg_send
  again-connect s c h = ground arith

  again-auth :
      (s : Socks) (c : Conn) {s' : Socks} {c' : Conn}
      → send_auth queues s c ≡ again s' c'
      → (s'.stage ≡ auth) × (c'.is_closing ≡ c.is_closing)
  unfolding send_auth mg_send
  again-auth s c h = ground arith

  pub round-lowers :
      (s : Socks) (c : Conn) {s' : Socks} {c' : Conn}
      → round net queues s c ≡ again s' c'
      → (rank s'.stage < rank s.stage) × (c'.is_closing ≡ c.is_closing)
  unfolding round
  round-lowers s c h = ground (arith, again-connect s (consume 2 c), again-auth s (consume 2 c))

  finish-waits :
      (n : ℕ) (s : Socks) (c : Conn) {s' : Socks} {c' : Conn}
      → finish n s c ≡ return (negotiating, s', c')
      → (s' ≡ s) × (c' ≡ c)
  finish-waits n s c h = ground arith

  -- A round that returns 0 changes nothing.
  pub round-waits :
      (s : Socks) (c : Conn) {s' : Socks} {c' : Conn}
      → round net queues s c ≡ return (negotiating, s', c')
      → (s' ≡ s) × (c' ≡ c)
  unfolding round
  round-waits s c h = ground arith

  pub Round-cases :
      (r : Round)
      → ((reply : Reply) × (r ≡ return reply)) ⊎ ((s : Socks) × (c : Conn) × (r ≡ again s c))
  Round-cases (return reply) = inl (reply, refl)
  Round-cases (again s c) = inr (s, c, refl)

  module _ (fuel : ℕ) (s : Socks) (c : Conn) where
    pub rounds-closing :
        c.is_closing ≡ true → rounds (suc fuel) net queues s c ≡ some (broken, s, c)
    unfolding rounds
    rounds-closing closing = rw closing

    pub rounds-return :
        {r : Reply}
        → c.is_closing ≡ false
        → round net queues s c ≡ return r
        → rounds (suc fuel) net queues s c ≡ some r
    unfolding rounds
    rounds-return running e = rw (e, running)

    pub rounds-again :
        {s' : Socks} {c' : Conn}
        → c.is_closing ≡ false
        → round net queues s c ≡ again s' c'
        → rounds (suc fuel) net queues s c ≡ rounds fuel net queues s' c'
    unfolding rounds
    rounds-again running e = rw (rounds, e, running)

  -- A loop with more rounds than the stage needs returns, and as with any other such number.
  pub rounds_total :
      (m n : ℕ) (s : Socks) (c : Conn)
      → rank s.stage < m
      → rank s.stage < n
      → (r : Reply) × (rounds m net queues s c ≡ some r) × (rounds n net queues s c ≡ some r)
  rounds_total zero n s c h k = absurd (omega arith)
  rounds_total (suc m) zero s c h k = absurd (omega arith)
  rounds_total (suc m) (suc n) s c h k = elim (Bool-cases c.is_closing) [
    | inl e ↦ (_, rounds-closing m s c e, rounds-closing n s c e)
    | inr e ↦ elim (Round-cases (round net queues s c)) [
      | inl (r, ret) ↦ (r, rounds-return m s c e ret, rounds-return n s c e ret)
      | inr (s', c', go) ↦
          let (lower, same) = round-lowers s c go in
          let (r, left, right) = rounds_total m n s' c' (omega arith) (omega arith) in
          (r, rounds-again m s c e go ∙ left, rounds-again n s c e go ∙ right)
    ]
  ]
