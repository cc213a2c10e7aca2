-- ===== src/Socks/Protocol.antt =====
-- `rr_socks_event` over any sequence of events, with bytes of the proxy that arrive between them.
use librustyaxe.Prelude.{
  ℕ, ◌≡◌, refl, sym, ap, ◌∙◌, Bool, true, false, ◌||◌, Option, some, List, [], ◌∷◌, ◌++◌, Bytes,
  leb, if◌then◌else◌, ◌⊎◌, inl, inr, Bool-cases, ◌>>=◌, some-injective, if-cases,
}
use mathlib.Core.List.{append_assoc, append-nil}
use librustyaxe.Acl.Types.{Inet}
use librustyaxe.Socks.Types.{
  Stage, off, greeting, auth, connect, ready, failed, Socks, Conn, MgEvent, ev_error, ev_close,
  ev_poll, ev_connect, ev_read, ev_other,
}
use librustyaxe.Socks.Event.{
  broken, negotiating, opened, Reply, greeting_packet, rr_socks_event, in_stage, dispatch, is_down,
  mg_send, fail,
}
use librustyaxe.Socks.Settled.{Lands, rr_socks_event_total, closed}
use librustyaxe.Socks.Config.{Same, Same-trans, event-Same}
use librustyaxe.Socks.Split.{feed}
use librustyaxe.Socks.Transcript.{Transcript, Passed, requests-greeting}
use librustyaxe.Socks.Traces.{Kept, rounds-Kept}

module _ (net : Inet) where
  -- Another greeting changes no request.
  Passed-greeting :
      (st : Stage) (s : Socks) (consumed : Bytes) (sent : List Bytes)
      → Passed net st s consumed sent
      → Passed net st s consumed (sent ++ (greeting_packet s ∷ []))
  Passed-greeting greeting s consumed sent p = rw (requests-greeting s sent) p
  Passed-greeting auth s consumed sent p = rw (requests-greeting s sent) p
  Passed-greeting connect s consumed sent p = rw (requests-greeting s sent) p
  Passed-greeting ready s consumed sent p = rw (requests-greeting s sent) p
  Passed-greeting off s consumed sent p = tt
  Passed-greeting failed s consumed sent p = tt

  greeted : Socks → Conn → Conn
  greeted s c = record c { sent = c.sent ++ (greeting_packet s ∷ []) }

  dispatch-connect :
      (queues : Bytes → Bool) (now : ℕ) (s : Socks) (c : Conn)
      → dispatch net queues now ev_connect s c ≡ (
          if queues (greeting_packet s)
          then some (negotiating, s, greeted s c)
          else some (fail s c))
  unfolding dispatch greeted
  dispatch-connect queues now s c = elim (Bool-cases (queues (greeting_packet s))) [
    | inl e ↦ rw (dispatch, mg_send, e)
    | inr e ↦ rw (dispatch, mg_send, e)
  ]

  module _ (queues : Bytes → Bool) (now : ℕ) (input : Bytes) (s : Socks) (c : Conn)
      (t : Transcript net input s c) (running : c.is_closing ≡ false) where
    dispatch-Kept :
        (event : MgEvent) {r : Reply}
        → dispatch net queues now event s c ≡ some r
        → Kept net queues input r
    unfolding dispatch greeted
    dispatch-Kept ev_read run = rounds-Kept net queues input 4 s c running t run
    dispatch-Kept ev_poll run =
        elim (if-cases (leb s.deadline_ms now) (some (fail s c)) (some (negotiating, s, c)) run) [
          | inl (e, same) ↦ rw (← some-injective same) tt
          | inr (e, same) ↦ rw (← some-injective same) t
        ]
    dispatch-Kept ev_connect run =
        elim (if-cases (queues (greeting_packet s)) (some (negotiating, s, greeted s c))
          (some (fail s c)) (sym (dispatch-connect queues now s c) ∙ run)) [
            | inl (e, same) ↦ rw (← some-injective same) (record {
              consumed = t.consumed;
              all = t.all;
              passed = Passed-greeting s.stage s t.consumed c.sent t.passed;
            })
            | inr (e, same) ↦ rw (← some-injective same) tt
          ]
    dispatch-Kept ev_error run = rw (← some-injective run) t
    dispatch-Kept ev_close run = rw (← some-injective run) t
    dispatch-Kept ev_other run = rw (← some-injective run) t

    in_stage-Kept :
        (st : Stage) (event : MgEvent) {r : Reply}
        → in_stage st net queues now event s c ≡ some r
        → Kept net queues input r
    unfolding in_stage
    in_stage-Kept failed event run = rw (← some-injective run) tt
    in_stage-Kept ready event run = rw (← some-injective run) t
    in_stage-Kept off event run = dispatch-Kept event run
    in_stage-Kept greeting event run = dispatch-Kept event run
    in_stage-Kept auth event run = dispatch-Kept event run
    in_stage-Kept connect event run = dispatch-Kept event run

  event-Kept :
      (queues : Bytes → Bool) (now : ℕ) (event : MgEvent) (input : Bytes) (s : Socks) (c : Conn)
      {r : Reply}
      → Transcript net input s c
      → rr_socks_event net queues now event s c ≡ some r
      → Kept net queues input r
  unfolding rr_socks_event
  event-Kept queues now event input s c t run =
      elim (if-cases (is_down event || c.is_closing)
        (some (broken, record s { stage = failed }, record c { is_closing = true }))
        (in_stage s.stage net queues now event s c) run) [
          | inl (e, same) ↦ rw (← some-injective same) tt
          | inr (e, same) ↦ in_stage-Kept queues now input s c t (closed event e) s.stage event same
        ]

  -- The state between two events: it has failed, or its transcript is in order.
  abbrev Holds : Bytes → Socks → Conn → Type 0
  Holds input s c = (s.stage ≡ failed) ⊎ Transcript net input s c

  -- The stage that a call leaves, in a stage that has failed and after a result of -1.
  stays_failed :
      (queues : Bytes → Bool) (now : ℕ) (event : MgEvent) (s : Socks) (c : Conn) {r : Reply}
      → s.stage ≡ failed
      → rr_socks_event net queues now event s c ≡ some r
      → r.1.stage ≡ failed
  unfolding rr_socks_event in_stage
  stays_failed queues now event s c e run =
      elim (if-cases (is_down event || c.is_closing)
        (some (broken, record s { stage = failed }, record c { is_closing = true }))
        (in_stage s.stage net queues now event s c) run) [
          | inl (d, same) ↦ rw (← some-injective same) refl
          | inr (d, same) ↦
              let stays = ap (λ st. in_stage st net queues now event s c) (sym e) ∙ same in
              rw (← some-injective stays) e
        ]

  broken_failed :
      (queues : Bytes → Bool) (now : ℕ) (event : MgEvent) (s : Socks) (c : Conn) {s' : Socks}
      {c' : Conn}
      → rr_socks_event net queues now event s c ≡ some (broken, s', c')
      → s'.stage ≡ failed
  broken_failed queues now event s c {s'} {c'} run =
      let (r, run', lands) = rr_socks_event_total net queues now event s c in
      let same : r ≡ (broken, s', c') = some-injective (sym run' ∙ run) in
      let (shut, e) : Lands s.stage (broken, s', c') = rw same at lands in e

  Kept-Holds :
      (queues : Bytes → Bool) (now : ℕ) (event : MgEvent) (input : Bytes) (s : Socks) (c : Conn)
      (r : Reply)
      → rr_socks_event net queues now event s c ≡ some r
      → Kept net queues input r
      → Holds input r.1 r.2
  Kept-Holds queues now event input s c (broken, s', c') run kept =
      inl (broken_failed queues now event s c run)
  Kept-Holds queues now event input s c (negotiating, s', c') run kept = inr kept
  Kept-Holds queues now event input s c (opened, s', c') run kept = inr kept

  event-Holds :
      (queues : Bytes → Bool) (now : ℕ) (event : MgEvent) (input b : Bytes) (s : Socks) (c : Conn)
      {r : Reply}
      → Holds input s c
      → rr_socks_event net queues now event s (feed c b) ≡ some r
      → Holds (input ++ b) r.1 r.2
  event-Holds queues now event input b s c (inl e) run =
      inl (stays_failed queues now event s (feed c b) e run)
  event-Holds queues now event input b s c {r} (inr t) run =
      let fed : Transcript net (input ++ b) s (feed c b) = record {
        consumed = t.consumed;
        all = rw t.all (append_assoc t.consumed c.recv b);
        passed = t.passed;
      } in
      Kept-Holds queues now event (input ++ b) s (feed c b) r run
        (event-Kept queues now event (input ++ b) s (feed c b) fed run)

-- An event with the bytes that have arrived before it, the time, and what `mg_send` would queue.
pub record Happens : Type 0 where
  pub bytes : Bytes
  pub event : MgEvent
  pub now : ℕ
  pub queues : Bytes → Bool

abbrev pub arrived : List Happens → Bytes
arrived [] = []
arrived (h ∷ hs) = h.bytes ++ arrived hs

-- The calls for a sequence of events.
unfoldable pub run : Inet → List Happens → Socks → Conn → Option (Socks × Conn)
run net [] s c = some (s, c)
run net (h ∷ hs) s c = do
  (r, s', c') ← rr_socks_event net h.queues h.now h.event s (feed c h.bytes)
  run net hs s' c'

run-Holds :
    (net : Inet) (hs : List Happens) (input : Bytes) (s : Socks) (c : Conn)
    → Holds net input s c
    → (s' : Socks) × (c' : Conn) × (run net hs s c ≡ some (s', c'))
      × Same s s'
      × Holds net (input ++ arrived hs) s' c'
unfolding run
run-Holds net [] input s c h = (s, c, refl, refl, rw append-nil h)
run-Holds net (x ∷ hs) input s c h =
    let ((r, s', c'), step, lands) =
      rr_socks_event_total net x.queues x.now x.event s (feed c x.bytes) in
    let next = event-Holds net x.queues x.now x.event input x.bytes s c h step in
    let kept = event-Same net x.queues x.now s (feed c x.bytes) x.event step in
    let (s'', c'', rest, same, holds) = run-Holds net hs (input ++ x.bytes) s' c' next in
    (
      s'',
      c'',
      rw (run, step) rest,
      Same-trans s s' s'' kept same,
      rw (← append_assoc input x.bytes (arrived hs)) holds,
    )

-- A new connection.
abbrev pub fresh : Conn
fresh = record { is_closing = false; recv = []; sent = [] }

-- Whatever events come in whatever order, with whatever bytes of the proxy before each of them, the calls
-- that start from the greeting stage on a new connection return, change no field but the stage, and leave a stage that has failed or a transcript in order: the
-- bytes of the proxy are those that the stage calls for, in order, followed by those not read yet; and besides greetings the
-- credentials have been sent once, if there are any, and only after the proxy has asked for them, and the destination
-- once, and only after the proxy has let the user in.
pub run-Transcript :
    (net : Inet) (hs : List Happens) (s : Socks)
    → s.stage ≡ greeting
    → (s' : Socks) × (c' : Conn) × (run net hs s fresh ≡ some (s', c'))
      × Same s s'
      × ((s'.stage ≡ failed) ⊎ Transcript net (arrived hs) s' c')
run-Transcript net hs s e =
    run-Holds net hs [] s fresh
      (inr (record { consumed = []; all = refl; passed = rw e (refl, refl) }))
