-- ===== src/Socks/Settled.antt =====
-- What `rr_socks_event` returns against the stage and the connection that it leaves.
use librustyaxe.Prelude.{
  ℕ, zero, suc, ◌≡◌, ◌≢◌, refl, sym, ◌∙◌, Bool, true, false, some, Bytes, arith, inl, inr,
  Bool-cases, some-injective, ◌||◌, [], ◌∷◌, ◌++◌, ◌+◌, leb,
}
use librustyaxe.Acl.Types.{Inet}
use librustyaxe.Socks.Types.{
  Stage, off, greeting, auth, connect, ready, failed, Socks, Conn, MgEvent, ev_poll, ev_connect,
  ev_read,
}
use librustyaxe.Socks.Event.{
  broken, negotiating, opened, Reply, Round, return, again, round, stage_round, rounds,
  greeting_round, auth_round, connect_round, address_round, hostname_round, connect_request,
  send_auth, mg_send, fail, consume, at, finish, dispatch, in_stage, is_down, greeting_packet,
  rr_socks_event,
}
use librustyaxe.Socks.Rounds.{rounds_total, rounds-return, rounds-again, Round-cases}

abbrev pub is_active : Stage → Bool
is_active ready = false
is_active failed = false
is_active _ = true

-- 0: the handshake goes on. 1: the tunnel is open. -1: it has failed and the connection closes.
abbrev pub Settled : Reply → Type 0
Settled (negotiating, s, c) = (c.is_closing ≡ false) × (is_active s.stage ≡ true)
Settled (opened, s, c) = (c.is_closing ≡ false) × (s.stage ≡ ready)
Settled (broken, s, c) = (c.is_closing ≡ true) × (s.stage ≡ failed)

abbrev pub SettledRound : Round → Type 0
SettledRound (return r) = Settled r
SettledRound (again s c) = (c.is_closing ≡ false) × (is_active s.stage ≡ true)

fail-Settled : (s : Socks) (c : Conn) → Settled (fail s c)
unfolding fail
fail-Settled s c = (refl, refl)

module _ (net : Inet) (queues : Bytes → Bool) where
  send_auth-Settled :
      (s : Socks) (c : Conn) → c.is_closing ≡ false → SettledRound (send_auth queues s c)
  unfolding send_auth mg_send fail
  send_auth-Settled s c h = ground arith

  connect_request-Settled :
      (s : Socks) (c : Conn) → c.is_closing ≡ false → SettledRound (connect_request net queues s c)
  unfolding connect_request mg_send fail
  connect_request-Settled s c h = ground arith

module _ (s : Socks) (c : Conn) (h : c.is_closing ≡ false) (live : is_active s.stage ≡ true) where
  finish-Settled : (n : ℕ) → SettledRound (finish n s c)
  finish-Settled n = ground arith

  hostname-Settled : SettledRound (hostname_round s c)
  unfolding hostname_round fail
  hostname-Settled = ground (arith, finish-Settled (7 + at c 4))

  address-Settled : SettledRound (address_round s c)
  unfolding address_round fail
  address-Settled = ground (arith, finish-Settled 10, finish-Settled 22, hostname-Settled)

  connect-Settled : SettledRound (connect_round s c)
  unfolding connect_round fail
  connect-Settled = ground (arith, address-Settled)

  module _ (net : Inet) (queues : Bytes → Bool) where
    greeting-Settled : SettledRound (greeting_round net queues s c)
    unfolding greeting_round fail
    greeting-Settled = ground (
      arith,
      send_auth-Settled net queues s (consume 2 c),
      connect_request-Settled net queues s (consume 2 c),
    )

    auth-Settled : SettledRound (auth_round net queues s c)
    unfolding auth_round fail
    auth-Settled = ground (arith, connect_request-Settled net queues s (consume 2 c))

    stage-Settled : (st : Stage) → SettledRound (stage_round st net queues s c)
    unfolding stage_round
    stage-Settled greeting = greeting-Settled
    stage-Settled auth = auth-Settled
    stage-Settled connect = connect-Settled
    stage-Settled off = (h, live)
    stage-Settled ready = (h, live)
    stage-Settled failed = (h, live)

module _ (net : Inet) (queues : Bytes → Bool) where
  round-Settled :
      (s : Socks) (c : Conn)
      → c.is_closing ≡ false
      → is_active s.stage ≡ true
      → SettledRound (round net queues s c)
  unfolding round
  round-Settled s c h live = stage-Settled s c h live net queues s.stage

  pub rounds-Settled :
      (fuel : ℕ) (s : Socks) (c : Conn) {r : Reply}
      → c.is_closing ≡ false
      → is_active s.stage ≡ true
      → rounds fuel net queues s c ≡ some r
      → Settled r
  rounds-Settled zero s c h live run = absurd (unfold rounds in cc run)
  rounds-Settled (suc fuel) s c h live run =
      let settled = round-Settled s c h live in
      elim (Round-cases net queues (round net queues s c)) [
        | inl (reply, ret) ↦
            let same = some-injective (sym (rounds-return net queues fuel s c h ret) ∙ run) in
            rw (← same) (rw ret at settled)
        | inr (s', c', go) ↦
            let (running, live') : SettledRound (again s' c') = rw go at settled in
            rounds-Settled fuel s' c' running live'
              (sym (rounds-again net queues fuel s c h go) ∙ run)
      ]

  dispatch_total :
      (now : ℕ) (event : MgEvent) (s : Socks) (c : Conn)
      → c.is_closing ≡ false
      → is_active s.stage ≡ true
      → (r : Reply) × (dispatch net queues now event s c ≡ some r) × Settled r
  unfolding dispatch
  dispatch_total now ev_read s c h live =
      let (r, run, same) = rounds_total net queues 4 4 s c (ground arith) (ground arith) in
      (r, run, rounds-Settled 4 s c h live run)
  dispatch_total now ev_poll s c h live = elim (Bool-cases (leb s.deadline_ms now)) [
    | inl e ↦ (fail s c, rw e, fail-Settled s c)
    | inr e ↦ ((negotiating, s, c), rw e, (h, live))
  ]
  dispatch_total now ev_connect s c h live =
      let packet = greeting_packet s in
      elim (Bool-cases (queues packet)) [
        | inl e ↦ (
          (negotiating, s, record c { sent = c.sent ++ (packet ∷ []) }),
          rw (dispatch, mg_send, e),
          (h, live),
        )
        | inr e ↦ (fail s c, rw (dispatch, mg_send, e), fail-Settled s c)
      ]
  dispatch_total now _ s c h live = (_, refl, (h, live))

pub closed : (event : MgEvent) {b : Bool} → is_down event || b ≡ false → b ≡ false
closed event h = ground arith

-- What a call may return in a stage.
abbrev pub Lands : Stage → Reply → Type 0
Lands before (negotiating, s, c) =
    (c.is_closing ≡ false) × (s.stage ≢ failed) × (s.stage ≡ ready → before ≡ ready)
Lands before (opened, s, c) = (c.is_closing ≡ false) × (s.stage ≡ ready) × (is_active before ≡ true)
Lands before (broken, s, c) = (c.is_closing ≡ true) × (s.stage ≡ failed)

Settled-Lands : (st : Stage) (r : Reply) → is_active st ≡ true → Settled r → Lands st r
Settled-Lands st (negotiating, s, c) live h = ground arith
Settled-Lands st (opened, s, c) live h = ground arith
Settled-Lands st (broken, s, c) live h = h

in_stage_total :
    (net : Inet) (queues : Bytes → Bool) (now : ℕ) (event : MgEvent) (st : Stage) (s : Socks)
    (c : Conn)
    → c.is_closing ≡ false
    → s.stage ≡ st
    → (r : Reply) × (in_stage st net queues now event s c ≡ some r) × Lands st r
unfolding in_stage
in_stage_total net queues now event failed s c h e = (_, refl, (refl, e))
in_stage_total net queues now event ready s c h e = (_, refl, (h, λ f. cc (e, f), λ f. refl))
in_stage_total net queues now event off s c h e =
    let (r, run, settled) = dispatch_total net queues now event s c h (rw e) in
    (r, run, Settled-Lands off r refl settled)
in_stage_total net queues now event greeting s c h e =
    let (r, run, settled) = dispatch_total net queues now event s c h (rw e) in
    (r, run, Settled-Lands greeting r refl settled)
in_stage_total net queues now event auth s c h e =
    let (r, run, settled) = dispatch_total net queues now event s c h (rw e) in
    (r, run, Settled-Lands auth r refl settled)
in_stage_total net queues now event connect s c h e =
    let (r, run, settled) = dispatch_total net queues now event s c h (rw e) in
    (r, run, Settled-Lands connect r refl settled)

-- `rr_socks_event` returns for every event in every stage. It returns -1 exactly where it leaves the stage failed
-- and the connection closing; 1 only from a stage of the handshake, leaving the tunnel ready; and after 0
-- the connection is open, and the tunnel is ready only if it was before.
pub rr_socks_event_total :
    (net : Inet) (queues : Bytes → Bool) (now : ℕ) (event : MgEvent) (s : Socks) (c : Conn)
    → (r : Reply) × (rr_socks_event net queues now event s c ≡ some r) × Lands s.stage r
unfolding rr_socks_event
rr_socks_event_total net queues now event s c = elim (Bool-cases (is_down event || c.is_closing)) [
  | inl e ↦
      ((broken, record s { stage = failed }, record c { is_closing = true }), rw e, (refl, refl))
  | inr e ↦
      let (r, run, lands) = in_stage_total net queues now event s.stage s c (closed event e) refl in
      (r, rw (rr_socks_event, e) run, lands)
]
