-- ===== src/Socks/Split.antt =====
-- The handshake does not depend on how the proxy's bytes are cut into reads.
use librustyaxe.Prelude.{
  ℕ, zero, suc, ◌+◌, ◌≤◌, ◌<◌, ◌≡◌, refl, sym, ◌∙◌, Bool, false, not, ◌||◌, Option, some, [], ◌∷◌,
  ◌++◌, Bytes, length, ltb, ◌==◌, drop, get_or, arith, ◌⊎◌, inl, inr, Bool-cases, length-append,
  some-injective,
}
use librustyaxe.Acl.Types.{Inet}
use librustyaxe.Socks.Types.{Stage, off, greeting, auth, connect, ready, failed, Socks, Conn}
use librustyaxe.Socks.Event.{
  broken, negotiating, opened, Reply, Round, return, again, round, rounds, greeting_round,
  auth_round, connect_round, connect_request, send_auth, mg_send, fail, consume, at, finish,
  hostname_round, address_round, stage_round,
}
use librustyaxe.Socks.Rounds.{
  rank, rounds_total, rounds-closing, rounds-return, rounds-again, round-lowers, Round-cases,
  round-waits,
}

-- More bytes arrive.
abbrev pub feed : Conn → Bytes → Conn
feed c b = record c { recv = c.recv ++ b }

get_or-append : (a b : Bytes) (i : ℕ) → i < length a → get_or (a ++ b) i 0 ≡ get_or a i 0
get_or-append [] b i h = absurd (omega arith)
get_or-append (x ∷ a) b zero h = refl
get_or-append (x ∷ a) b (suc i) h = get_or-append a b i (omega arith)

drop-append : (n : ℕ) (a b : Bytes) → n ≤ length a → drop n (a ++ b) ≡ drop n a ++ b
drop-append zero a b h = refl
drop-append (suc n) [] b h = absurd (omega arith)
drop-append (suc n) (x ∷ a) b h = drop-append n a b (omega arith)

-- What a round that has bytes enough makes of more bytes behind them.
abbrev feed_round : Round → Bytes → Round
feed_round (return (r, s, c)) b = return (r, s, feed c b)
feed_round (again s c) b = again s (feed c b)

module _ (net : Inet) (queues : Bytes → Bool) (b : Bytes) where
  send_auth-feed :
      (s : Socks) (c : Conn) → send_auth queues s (feed c b) ≡ feed_round (send_auth queues s c) b
  unfolding send_auth mg_send fail
  send_auth-feed s c = ground arith

  connect_request-feed :
      (s : Socks) (c : Conn)
      → connect_request net queues s (feed c b) ≡ feed_round (connect_request net queues s c) b
  unfolding connect_request mg_send fail
  connect_request-feed s c = ground arith

  -- A round returns 0 and leaves all as it was, or it does the same with more bytes.
  abbrev Feeds : Round → Round → Socks → Conn → Type 0
  Feeds r more s c = (r ≡ return (negotiating, s, c)) ⊎ (more ≡ feed_round r b)

  consume-feed :
      (n : ℕ) (c : Conn) → n ≤ length c.recv → consume n (feed c b) ≡ feed (consume n c) b
  consume-feed n c h = rw (drop-append n c.recv b h)

  longer :
      (n : ℕ) (c : Conn) → ltb (length c.recv) n ≡ false → ltb (length (feed c b).recv) n ≡ false
  longer n c h = ground (arith, length-append c.recv b)

  at-feed : (c : Conn) (i : ℕ) → i < length c.recv → at (feed c b) i ≡ at c i
  at-feed c i h = get_or-append c.recv b i h

  greeting-Feeds :
      (s : Socks) (c : Conn)
      → Feeds (greeting_round net queues s c) (greeting_round net queues s (feed c b)) s c
  unfolding greeting_round fail
  greeting-Feeds s c = elim (Bool-cases (ltb (length c.recv) 2)) [
    | inl e ↦ inl (rw (greeting_round, e))
    | inr e ↦ inr (
        rw
          (
            greeting_round,
            longer 2 c e,
            e,
            at-feed c 0 (ground arith),
            at-feed c 1 (ground arith),
            drop-append 2 c.recv b (ground arith),
          )
          (ground arith))
  ]

  auth-Feeds :
      (s : Socks) (c : Conn)
      → Feeds (auth_round net queues s c) (auth_round net queues s (feed c b)) s c
  unfolding auth_round fail
  auth-Feeds s c = elim (Bool-cases (ltb (length c.recv) 2)) [
    | inl e ↦ inl (rw (auth_round, e))
    | inr e ↦ inr (
        rw
          (
            auth_round,
            longer 2 c e,
            e,
            at-feed c 0 (ground arith),
            at-feed c 1 (ground arith),
            drop-append 2 c.recv b (ground arith),
          )
          (ground arith))
  ]

  finish-Feeds : (n : ℕ) (s : Socks) (c : Conn) → Feeds (finish n s c) (finish n s (feed c b)) s c
  finish-Feeds n s c = elim (Bool-cases (ltb (length c.recv) n)) [
    | inl e ↦ inl (rw e)
    | inr e ↦ inr (rw (longer n c e, e, drop-append n c.recv b (ground arith)))
  ]

  fifth-Feeds :
      (s : Socks) (c : Conn) → Feeds (hostname_round s c) (hostname_round s (feed c b)) s c
  unfolding hostname_round fail
  fifth-Feeds s c = elim (Bool-cases (ltb (length c.recv) 5)) [
    | inl e ↦ inl (rw (hostname_round, e))
    | inr e ↦ elim (Bool-cases (at c 4 == 0)) [
      | inl z ↦ inr (rw (hostname_round, longer 5 c e, e, at-feed c 4 (ground arith), z))
      | inr z ↦
          rw (hostname_round, longer 5 c e, e, at-feed c 4 (ground arith), z)
            (finish-Feeds (7 + at c 4) s c)
    ]
  ]

  address-Feeds :
      (s : Socks) (c : Conn)
      → 4 ≤ length c.recv
      → Feeds (address_round s c) (address_round s (feed c b)) s c
  unfolding address_round fail
  address-Feeds s c h =
      rw (address_round, at-feed c 3 (omega arith))
        (elim (Bool-cases (at c 3 == 1)) [
          | inl e ↦ rw e (finish-Feeds 10 s c)
          | inr e ↦ rw e (elim (Bool-cases (at c 3 == 4)) [
            | inl e' ↦ rw e' (finish-Feeds 22 s c)
            | inr e' ↦ rw e' (elim (Bool-cases (at c 3 == 3)) [
              | inl e'' ↦ rw e'' (fifth-Feeds s c)
              | inr e'' ↦ rw e'' (inr refl)
            ])
          ])
        ])

  connect-Feeds :
      (s : Socks) (c : Conn) → Feeds (connect_round s c) (connect_round s (feed c b)) s c
  unfolding connect_round fail
  connect-Feeds s c = elim (Bool-cases (ltb (length c.recv) 4)) [
    | inl e ↦ inl (rw (connect_round, e))
    | inr e ↦
        let h : 4 ≤ length c.recv = ground arith in
        rw
          (
            connect_round,
            longer 4 c e,
            e,
            at-feed c 0 (omega arith),
            at-feed c 1 (omega arith),
            at-feed c 2 (omega arith),
          )
          (elim (Bool-cases (not (at c 0 == 5) || not (at c 2 == 0))) [
            | inl x ↦ rw x (inr refl)
            | inr x ↦ rw x (elim (Bool-cases (not (at c 1 == 0))) [
              | inl y ↦ rw y (inr refl)
              | inr y ↦ rw y (address-Feeds s c h)
            ])
          ])
  ]

  stage-Feeds :
      (st : Stage) (s : Socks) (c : Conn)
      → Feeds (stage_round st net queues s c) (stage_round st net queues s (feed c b)) s c
  unfolding stage_round
  stage-Feeds greeting s c = greeting-Feeds s c
  stage-Feeds auth s c = auth-Feeds s c
  stage-Feeds connect s c = connect-Feeds s c
  stage-Feeds off s c = inl refl
  stage-Feeds ready s c = inl refl
  stage-Feeds failed s c = inl refl

  round-Feeds :
      (s : Socks) (c : Conn) → Feeds (round net queues s c) (round net queues s (feed c b)) s c
  unfolding round
  round-Feeds s c = stage-Feeds s.stage s c

  -- What follows a reply when more bytes arrive.
  unfoldable pub resume : Reply → Option Reply
  resume (negotiating, s, c) = rounds 4 net queues s (feed c b)
  resume (r, s, c) = some (r, s, feed c b)

  rounds-four :
      (fuel : ℕ) (s : Socks) (c : Conn)
      → rank s.stage < fuel
      → rounds fuel net queues s c ≡ rounds 4 net queues s c
  rounds-four fuel s c h =
      let (r, left, right) = rounds_total net queues fuel 4 s c h (ground arith) in left ∙ sym right

  return-feed :
      (fuel : ℕ) (s : Socks) (c : Conn) (r : Reply)
      → rank s.stage < suc fuel
      → c.is_closing ≡ false
      → round net queues s c ≡ return r
      → rounds (suc fuel) net queues s (feed c b) ≡ resume r
  unfolding resume
  return-feed fuel s c (negotiating, s', c') h running e =
      let (x, y) = round-waits net queues s c e in rounds-four (suc fuel) s (feed c b) h ∙ rw (x, y)
  return-feed fuel s c (opened, s', c') h running e = elim (round-Feeds s c) [
    | inl stalled ↦ absurd (cc (e, stalled))
    | inr more ↦ rounds-return net queues fuel s (feed c b) running (more ∙ rw e)
  ]
  return-feed fuel s c (broken, s', c') h running e = elim (round-Feeds s c) [
    | inl stalled ↦ absurd (cc (e, stalled))
    | inr more ↦ rounds-return net queues fuel s (feed c b) running (more ∙ rw e)
  ]

  -- The loop, with more rounds than the stage needs.
  pub rounds-feed :
      (fuel : ℕ) (s : Socks) (c : Conn) {r : Reply}
      → rank s.stage < fuel
      → rounds fuel net queues s c ≡ some r
      → rounds fuel net queues s (feed c b) ≡ resume r
  unfolding resume
  rounds-feed zero s c h run = absurd (omega arith)
  rounds-feed (suc fuel) s c {r} h run = elim (Bool-cases c.is_closing) [
    | inl e ↦
        let same : (broken, s, c) ≡ r =
          some-injective (sym (rounds-closing net queues fuel s c e) ∙ run) in
        rounds-closing net queues fuel s (feed c b) e ∙ rw (← same)
    | inr e ↦ elim (Round-cases net queues (round net queues s c)) [
      | inl (reply, ret) ↦
          let same : reply ≡ r =
            some-injective (sym (rounds-return net queues fuel s c e ret) ∙ run) in
          return-feed fuel s c reply h e ret ∙ rw same
      | inr (s', c', go) ↦ elim (round-Feeds s c) [
        | inl stalled ↦ absurd (cc (go, stalled))
        | inr more ↦
            let (lower, same) = round-lowers net queues s c go in
            let rest = sym (rounds-again net queues fuel s c e go) ∙ run in
            rounds-again net queues fuel s (feed c b) e (more ∙ rw go)
            ∙ rounds-feed fuel s' c' (omega arith) rest
      ]
    ]
  ]
