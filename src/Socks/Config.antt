-- ===== src/Socks/Config.antt =====
-- `rr_socks_event` changes no field of the tunnel but the stage.
use librustyaxe.Prelude.{
  ℕ, zero, suc, ◌≡◌, refl, sym, ap, ◌∙◌, Bool, true, some, Bytes, arith, inl, inr, Bool-cases,
  some-injective, if-cases, ◌||◌, ◌+◌,
}
use librustyaxe.Acl.Types.{Inet}
use librustyaxe.Socks.Types.{
  Stage, off, greeting, auth, connect, ready, failed, Socks, Conn, MgEvent, ev_error, ev_close,
  ev_poll, ev_connect, ev_read, ev_other,
}
use librustyaxe.Socks.Event.{
  broken, Reply, Round, return, again, round, stage_round, rounds, greeting_round, auth_round,
  connect_round, address_round, hostname_round, connect_request, send_auth, mg_send, fail, consume,
  at, finish, dispatch, in_stage, is_down, rr_socks_event,
}
use librustyaxe.Socks.Rounds.{rounds-return, rounds-again, Round-cases}
use librustyaxe.Socks.Rounds.{rounds-closing}

-- The same tunnel in another stage.
abbrev pub Same : Socks → Socks → Type 0
Same s s' = record s { stage = s'.stage } ≡ s'

abbrev pub SameRound : Socks → Round → Type 0
SameRound s (return (r, s', c)) = Same s s'
SameRound s (again s' c) = Same s s'

pub Same-trans : (s s' s'' : Socks) → Same s s' → Same s' s'' → Same s s''
Same-trans s s' s'' e f = ap (λ (t : Socks). record t { stage = s''.stage }) e ∙ f

module _ (s : Socks) (c : Conn) where
  fail-Same : SameRound s (return (fail s c))
  unfolding fail
  fail-Same = refl

  send_auth-Same : (queues : Bytes → Bool) → SameRound s (send_auth queues s c)
  unfolding send_auth mg_send fail
  send_auth-Same queues = ground arith

  connect_request-Same :
      (net : Inet) (queues : Bytes → Bool) → SameRound s (connect_request net queues s c)
  unfolding connect_request mg_send fail
  connect_request-Same net queues = ground arith

  finish-Same : (n : ℕ) → SameRound s (finish n s c)
  finish-Same n = ground arith

  hostname-Same : SameRound s (hostname_round s c)
  unfolding hostname_round fail
  hostname-Same = ground (arith, finish-Same (7 + at c 4))

  address-Same : SameRound s (address_round s c)
  unfolding address_round fail
  address-Same = ground (arith, finish-Same 10, finish-Same 22, hostname-Same)

  connect-Same : SameRound s (connect_round s c)
  unfolding connect_round fail
  connect-Same = ground (arith, address-Same)

module _ (net : Inet) (queues : Bytes → Bool) where
  stage-Same : (st : Stage) (s : Socks) (c : Conn) → SameRound s (stage_round st net queues s c)
  unfolding stage_round greeting_round auth_round fail
  stage-Same greeting s c = ground (
    arith,
    send_auth-Same s (consume 2 c) queues,
    connect_request-Same s (consume 2 c) net queues,
  )
  stage-Same auth s c = ground (arith, connect_request-Same s (consume 2 c) net queues)
  stage-Same connect s c = connect-Same s c
  stage-Same off s c = refl
  stage-Same ready s c = refl
  stage-Same failed s c = refl

  round-Same : (s : Socks) (c : Conn) → SameRound s (round net queues s c)
  unfolding round
  round-Same s c = stage-Same s.stage s c

  rounds-Same :
      (fuel : ℕ) (s : Socks) (c : Conn) {r : Reply}
      → rounds fuel net queues s c ≡ some r
      → Same s r.1
  rounds-Same zero s c run = absurd (unfold rounds in cc run)
  rounds-Same (suc fuel) s c run = elim (Bool-cases c.is_closing) [
    | inl e ↦ rw (← some-injective (sym (rounds-closing net queues fuel s c e) ∙ run)) refl
    | inr e ↦ elim (Round-cases net queues (round net queues s c)) [
      | inl (reply, ret) ↦
          let same = some-injective (sym (rounds-return net queues fuel s c e ret) ∙ run) in
          let kept : SameRound s (return reply) = rw ret at (round-Same s c) in rw (← same) kept
      | inr (s', c', go) ↦
          let first : SameRound s (again s' c') = rw go at (round-Same s c) in
          Same-trans s s' _ first
            (rounds-Same fuel s' c' (sym (rounds-again net queues fuel s c e go) ∙ run))
    ]
  ]

  module _ (now : ℕ) (s : Socks) (c : Conn) where
    dispatch-Same :
        (event : MgEvent) {r : Reply} → dispatch net queues now event s c ≡ some r → Same s r.1
    unfolding dispatch mg_send fail
    dispatch-Same ev_read run = rounds-Same 4 s c run
    dispatch-Same ev_poll run = ground arith
    dispatch-Same ev_connect run = ground arith
    dispatch-Same ev_error run = rw (← some-injective run) refl
    dispatch-Same ev_close run = rw (← some-injective run) refl
    dispatch-Same ev_other run = rw (← some-injective run) refl

    in_stage-Same :
        (st : Stage) (event : MgEvent) {r : Reply}
        → in_stage st net queues now event s c ≡ some r
        → Same s r.1
    unfolding in_stage
    in_stage-Same failed event run = rw (← some-injective run) refl
    in_stage-Same ready event run = rw (← some-injective run) refl
    in_stage-Same off event run = dispatch-Same event run
    in_stage-Same greeting event run = dispatch-Same event run
    in_stage-Same auth event run = dispatch-Same event run
    in_stage-Same connect event run = dispatch-Same event run

    pub event-Same :
        (event : MgEvent) {r : Reply}
        → rr_socks_event net queues now event s c ≡ some r
        → Same s r.1
    unfolding rr_socks_event
    event-Same event run =
        elim (if-cases (is_down event || c.is_closing)
          (some (broken, record s { stage = failed }, record c { is_closing = true }))
          (in_stage s.stage net queues now event s c) run) [
            | inl (d, same) ↦ rw (← some-injective same) refl
            | inr (d, same) ↦ in_stage-Same s.stage event same
          ]
