-- ===== src/Socks/Reads.antt =====
-- `rr_socks_event` on bytes that come in two reads, and in one.
use librustyaxe.Prelude.{
  ℕ, ◌≡◌, refl, sym, ap, ◌∙◌, Bool, true, false, Option, none, some, Bytes, arith, inl, inr,
  Bool-cases, ◌>>=◌,
}
use librustyaxe.Acl.Types.{Inet}
use librustyaxe.Socks.Types.{
  Stage, off, greeting, auth, connect, ready, failed, Socks, Conn, ev_read,
}
use librustyaxe.Socks.Event.{
  Result, broken, negotiating, opened, Reply, rounds, dispatch, in_stage, rr_socks_event,
}
use librustyaxe.Socks.Rounds.{rounds_total}
use librustyaxe.Socks.Settled.{is_active, Settled, rounds-Settled}
use librustyaxe.Socks.Split.{feed, resume, rounds-feed}

-- The result of two calls: that the tunnel was opened, or what the later one says.
abbrev pub later : Result → Result → Result
later opened r = opened
later _ r = r

bind-same : (o : Option Reply) → (do (r, s, c) ← o; some (r, s, c)) ≡ o
bind-same none = refl
bind-same (some r) = refl

module _ (net : Inet) (queues : Bytes → Bool) (now : ℕ) where
  abbrev pub read : Socks → Conn → Option Reply
  read s c = rr_socks_event net queues now ev_read s c

  -- Some bytes are read, and then those that have arrived since.
  abbrev pub read_twice : Socks → Conn → Bytes → Option Reply
  read_twice s c b = do
    (r, s', c') ← read s c
    (r', s'', c'') ← read s' (feed c' b)
    some (later r r', s'', c'')

  read-closing :
      (s : Socks) (c : Conn)
      → c.is_closing ≡ true
      → read s c ≡ some (broken, record s { stage = failed }, record c { is_closing = true })
  unfolding rr_socks_event
  read-closing s c h = rw h

  read-stage :
      (s : Socks) (c : Conn)
      → c.is_closing ≡ false
      → read s c ≡ in_stage s.stage net queues now ev_read s c
  unfolding rr_socks_event
  read-stage s c h = rw (rr_socks_event, h)

  in_stage-active :
      (st : Stage) (s : Socks) (c : Conn)
      → is_active st ≡ true
      → in_stage st net queues now ev_read s c ≡ rounds 4 net queues s c
  unfolding in_stage dispatch
  in_stage-active off s c h = refl
  in_stage-active greeting s c h = refl
  in_stage-active auth s c h = refl
  in_stage-active connect s c h = refl
  in_stage-active ready s c h = absurd (cc h)
  in_stage-active failed s c h = absurd (cc h)

  read-ready :
      (s : Socks) (c : Conn)
      → c.is_closing ≡ false
      → s.stage ≡ ready
      → read s c ≡ some (negotiating, s, c)
  unfolding in_stage
  read-ready s c h e = read-stage s c h ∙ ap (λ st. in_stage st net queues now ev_read s c) e

  read-failed :
      (s : Socks) (c : Conn)
      → c.is_closing ≡ false
      → s.stage ≡ failed
      → read s c ≡ some (broken, s, record c { is_closing = true })
  unfolding in_stage
  read-failed s c h e = read-stage s c h ∙ ap (λ st. in_stage st net queues now ev_read s c) e

  read-active :
      (s : Socks) (c : Conn)
      → c.is_closing ≡ false
      → is_active s.stage ≡ true
      → read s c ≡ rounds 4 net queues s c
  read-active s c h live = read-stage s c h ∙ in_stage-active s.stage s c live

  then_again : Bytes → Reply → Option Reply
  then_again b (r, s, c) = do (r', s', c') ← read s (feed c b); some (later r r', s', c')

  -- The second read, after each result of the first.
  read_again : (b : Bytes) (r : Reply) → Settled r → then_again b r ≡ resume net queues b r
  unfolding resume then_again
  read_again b (negotiating, s, c) (h, live) =
      rw (read-active s (feed c b) h live) (bind-same (rounds 4 net queues s (feed c b)))
  read_again b (opened, s, c) (h, e) = rw (read-ready s (feed c b) h e)
  read_again b (broken, s, c) (h, e) = rw (read-closing s (feed c b) h) (ground arith)

  pub read-split_active :
      (s : Socks) (c : Conn) (b : Bytes)
      → c.is_closing ≡ false
      → is_active s.stage ≡ true
      → read_twice s c b ≡ read s (feed c b)
  unfolding then_again
  read-split_active s c b h live =
      let (r, run, same) = rounds_total net queues 4 4 s c (ground arith) (ground arith) in
      let settled = rounds-Settled net queues 4 s c h live run in
      let first : read_twice s c b ≡ then_again b r = rw (read-active s c h live, run) in
      first
      ∙ read_again b r settled
      ∙ sym (rounds-feed net queues b 4 s c (ground arith) run)
      ∙ sym (read-active s (feed c b) h live)

  read-split_stage :
      (st : Stage) (s : Socks) (c : Conn) (b : Bytes)
      → c.is_closing ≡ false
      → s.stage ≡ st
      → read_twice s c b ≡ read s (feed c b)
  unfolding then_again resume
  read-split_stage ready s c b h e = rw (read-ready s c h e, read-ready s (feed c b) h e)
  read-split_stage failed s c b h e =
      rw (read-failed s c h e, read-failed s (feed c b) h e)
        (read_again b (broken, s, record c { is_closing = true }) (refl, e))
  read-split_stage off s c b h e = read-split_active s c b h (rw e)
  read-split_stage greeting s c b h e = read-split_active s c b h (rw e)
  read-split_stage auth s c b h e = read-split_active s c b h (rw e)
  read-split_stage connect s c b h e = read-split_active s c b h (rw e)

  -- However the bytes of the proxy are cut into two reads, in any stage, the two calls leave the same
  -- stage, the same bytes unread and the same packets sent as one call on all the bytes, and they say together
  -- what it says.
  pub read-split : (s : Socks) (c : Conn) (b : Bytes) → read_twice s c b ≡ read s (feed c b)
  unfolding rr_socks_event
  read-split s c b = elim (Bool-cases c.is_closing) [
    | inl e ↦
        rw (read-closing s c e, read-closing s (feed c b) e)
          (read-closing (record s { stage = failed }) (record (feed c b) { is_closing = true })
            refl)
    | inr e ↦ read-split_stage s.stage s c b e refl
  ]
