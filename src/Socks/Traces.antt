-- ===== src/Socks/Traces.antt =====
-- The transcript of the handshake through any sequence of events.
use librustyaxe.Prelude.{
  ℕ, zero, suc, ◌≡◌, sym, ◌∙◌, Bool, false, some, ◌++◌, Bytes, take, arith, inl, inr,
  some-injective,
}
use librustyaxe.Acl.Types.{Inet}
use librustyaxe.Socks.Types.{Stage, off, greeting, auth, connect, ready, failed, Socks, Conn}
use librustyaxe.Socks.Event.{
  broken, negotiating, opened, Reply, return, again, round, rounds, stage_round, greeting_round,
  auth_round, connect_round, connect_request, consume, greeting_packet, auth_packet, connect_packet,
  fail,
}
use librustyaxe.Socks.Rounds.{rounds-return, rounds-again, round-lowers, Round-cases, round-waits}
use librustyaxe.Socks.Transcript.{
  Transcript, Passed, requests, credentials, login, requests-append, auth_not_greeting,
  connect_not_greeting, take_two, consume_all, again-connect, again-auth, greeting-again,
  auth-again,
}
use librustyaxe.Socks.Opened.{connect-Opens}

-- The connect stage is the last to go on, and the only one to open the tunnel.
no_again : (s : Socks) (c : Conn) {s' : Socks} {c' : Conn} → ¬ (connect_round s c ≡ again s' c')
unfolding connect_round
no_again s c h = ground arith

greeting_closed :
    (net : Inet) (queues : Bytes → Bool) (s : Socks) (c : Conn) {s' : Socks} {c' : Conn}
    → ¬ (greeting_round net queues s c ≡ return (opened, s', c'))
unfolding greeting_round fail
greeting_closed net queues s c h = ground arith

auth_closed :
    (net : Inet) (queues : Bytes → Bool) (s : Socks) (c : Conn) {s' : Socks} {c' : Conn}
    → ¬ (auth_round net queues s c ≡ return (opened, s', c'))
unfolding auth_round fail
auth_closed net queues s c h = ground arith

module _ (net : Inet) (queues : Bytes → Bool) (input : Bytes) where
  -- The next stage, with two more bytes consumed.
  to_connect :
      (s : Socks) (c : Conn) {s' : Socks} {c' : Conn} (consumed : Bytes)
      → input ≡ consumed ++ c.recv
      → consumed ++ take 2 c.recv ≡ login s
      → requests s c.sent ≡ credentials s
      → connect_request net queues s (consume 2 c) ≡ again s' c'
      → Transcript net input s' c'
  unfolding greeting_packet auth_packet connect_packet
  to_connect s c consumed all read asked go =
      let (x, y) = again-connect net queues s (consume 2 c) go in
      rw (x, y)
        (record {
          consumed = consumed ++ take 2 c.recv;
          all = consume_all 2 consumed c.recv all;
          passed = (
            read,
            requests-append s c.sent (connect_packet net s) (connect_not_greeting net s) ∙ rw asked,
          );
        })

  greeting-Transcript :
      (s : Socks) (c : Conn) {s' : Socks} {c' : Conn} (consumed : Bytes)
      → input ≡ consumed ++ c.recv
      → Passed net greeting s consumed c.sent
      → greeting_round net queues s c ≡ again s' c'
      → Transcript net input s' c'
  unfolding greeting_packet auth_packet
  greeting-Transcript s c consumed all (start, asked) h =
      let (enough, five, which) = greeting-again net queues s c h in
      elim which [
        | inl (user, two, go) ↦
            let (x, y) = again-auth net queues s (consume 2 c) go in
            rw (x, y)
              (record {
                consumed = consumed ++ take 2 c.recv;
                all = consume_all 2 consumed c.recv all;
                passed = (
                  user,
                  rw (start, take_two c.recv enough, five, two),
                  requests-append s c.sent (auth_packet s) (auth_not_greeting s) ∙ rw asked,
                );
              })
        | inr (anonymous, none_asked, go) ↦
            to_connect s c consumed all
              (rw (start, take_two c.recv enough, five, none_asked, anonymous))
              (rw (asked, anonymous)) go
      ]

  auth-Transcript :
      (s : Socks) (c : Conn) {s' : Socks} {c' : Conn} (consumed : Bytes)
      → input ≡ consumed ++ c.recv
      → Passed net auth s consumed c.sent
      → auth_round net queues s c ≡ again s' c'
      → Transcript net input s' c'
  auth-Transcript s c consumed all (user, start, asked) h =
      let (enough, one, ok, go) = auth-again net queues s c h in
      to_connect s c consumed all (rw (start, take_two c.recv enough, one, ok, user))
        (rw (asked, user)) go

  connect-Transcript :
      (s : Socks) (c : Conn) {s' : Socks} {c' : Conn} (consumed : Bytes)
      → input ≡ consumed ++ c.recv
      → Passed net connect s consumed c.sent
      → connect_round s c ≡ return (opened, s', c')
      → Transcript net input s' c'
  unfolding greeting_packet auth_packet connect_packet
  connect-Transcript s c consumed all (start, asked) h =
      let o = connect-Opens s c h in
      rw (o.stage, o.rest)
        (record {
          consumed = consumed ++ take o.size c.recv;
          all = consume_all o.size consumed c.recv all;
          passed = ((take o.size c.recv, rw start, o.reply), asked);
        })

  stage_again :
      (st : Stage) (s : Socks) (c : Conn) {s' : Socks} {c' : Conn} (consumed : Bytes)
      → input ≡ consumed ++ c.recv
      → Passed net st s consumed c.sent
      → stage_round st net queues s c ≡ again s' c'
      → Transcript net input s' c'
  unfolding stage_round
  stage_again greeting s c consumed all p h = greeting-Transcript s c consumed all p h
  stage_again auth s c consumed all p h = auth-Transcript s c consumed all p h
  stage_again connect s c consumed all p h = absurd (no_again s c h)
  stage_again off s c consumed all p h = absurd (cc h)
  stage_again ready s c consumed all p h = absurd (cc h)
  stage_again failed s c consumed all p h = absurd (cc h)

  stage_opened :
      (st : Stage) (s : Socks) (c : Conn) {s' : Socks} {c' : Conn} (consumed : Bytes)
      → input ≡ consumed ++ c.recv
      → Passed net st s consumed c.sent
      → stage_round st net queues s c ≡ return (opened, s', c')
      → Transcript net input s' c'
  unfolding stage_round
  stage_opened greeting s c consumed all p h = absurd (greeting_closed net queues s c h)
  stage_opened auth s c consumed all p h = absurd (auth_closed net queues s c h)
  stage_opened connect s c consumed all p h = connect-Transcript s c consumed all p h
  stage_opened off s c consumed all p h = absurd (ground arith)
  stage_opened ready s c consumed all p h = absurd (ground arith)
  stage_opened failed s c consumed all p h = absurd (ground arith)

  -- What a reply keeps; a call that fails promises nothing.
  abbrev pub Kept : Reply → Type 0
  Kept (broken, s, c) = Unit
  Kept (_, s, c) = Transcript net input s c

  return-Kept :
      (s : Socks) (c : Conn) (r : Reply)
      → Transcript net input s c
      → round net queues s c ≡ return r
      → Kept r
  unfolding round
  return-Kept s c (broken, s', c') t h = tt
  return-Kept s c (negotiating, s', c') t h =
      let (x, y) = round-waits net queues s c h in rw (x, y) t
  return-Kept s c (opened, s', c') t h = stage_opened s.stage s c t.consumed t.all t.passed h

  pub rounds-Kept :
      (fuel : ℕ) (s : Socks) (c : Conn) {r : Reply}
      → c.is_closing ≡ false
      → Transcript net input s c
      → rounds fuel net queues s c ≡ some r
      → Kept r
  unfolding round
  rounds-Kept zero s c running t run = absurd (unfold rounds in cc run)
  rounds-Kept (suc fuel) s c running t run = elim (Round-cases net queues (round net queues s c)) [
    | inl (reply, ret) ↦
        let same = some-injective (sym (rounds-return net queues fuel s c running ret) ∙ run) in
        rw (← same) (return-Kept s c reply t ret)
    | inr (s', c', go) ↦
        let (lower, still) = round-lowers net queues s c go in
        rounds-Kept fuel s' c' (still ∙ running)
          (stage_again s.stage s c t.consumed t.all t.passed go)
          (sym (rounds-again net queues fuel s c running go) ∙ run)
  ]
