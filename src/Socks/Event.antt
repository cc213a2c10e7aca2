-- ===== src/Socks/Event.antt =====
-- `rr_socks_event` with its helpers. Whether `mg_send` queues a packet is the parameter `queues`.
use librustyaxe.Prelude.{
  ℕ, zero, suc, ◌+◌, ◌/◌, ◌%◌, Bool, true, false, not, ◌||◌, Option, none, some, [], ◌∷◌, ◌++◌,
  Bytes, length, ltb, leb, ◌==◌, if◌then◌else◌, take, drop, get_or,
}
use librustyaxe.Acl.Types.{Inet}
use librustyaxe.Socks.Types.{
  Stage, greeting, auth, connect, ready, failed, Socks, Conn, MgEvent, ev_error, ev_close, ev_poll,
  ev_connect, ev_read,
}
use librustyaxe.Socks.Init.{is_empty}

-- What a call returns: -1, 0 and 1.
pub data Result : Type 0 where
  broken negotiating opened : Result

abbrev pub Reply : Type 0
Reply = Result × Socks × Conn

-- `fail`; `mg_error` is the log and the close.
unfoldable pub fail : Socks → Conn → Reply
fail s c = (broken, record s { stage = failed }, record c { is_closing = true })

-- `mg_send`: the packet is queued, or nothing is.
unfoldable pub mg_send : (Bytes → Bool) → Conn → Bytes → Bool × Conn
mg_send queues c packet =
    if queues packet then (true, record c { sent = c.sent ++ (packet ∷ []) }) else (false, c)

-- `mg_iobuf_del(&c->recv, 0, n)`
abbrev pub consume : ℕ → Conn → Conn
consume n c = record c { recv = drop n c.recv }

-- The packets. The length of a name is cut to a byte.
unfoldable pub greeting_packet : Socks → Bytes
greeting_packet s = 5 ∷ 1 ∷ (if is_empty s.user then 0 else 2) ∷ []

unfoldable pub auth_packet : Socks → Bytes
auth_packet s = 1 ∷ length s.user % 256 ∷ s.user ++ (length s.pass % 256 ∷ s.pass)

unfoldable pub destination : Inet → Bytes → Bytes
destination net host = elim (net.pton4 host) [
  | some ip ↦ 1 ∷ ip
  | none ↦ elim (net.pton6 host) [
    | some ip ↦ 4 ∷ ip
    | none ↦ 3 ∷ length host % 256 ∷ take (length host % 256) host
  ]
]

unfoldable pub connect_packet : Inet → Socks → Bytes
unfolding destination
connect_packet net s =
    5 ∷ 1 ∷ 0 ∷ (destination net s.host ++ (s.port / 256 % 256 ∷ s.port % 256 ∷ []))

-- One round of the loop: it returns, or goes round again.
pub data Round : Type 0 where
  return : Reply → Round
  again : Socks → Conn → Round

unfoldable pub connect_request : Inet → (Bytes → Bool) → Socks → Conn → Round
unfolding connect_packet mg_send fail
connect_request net queues s c =
    let waiting = record s { stage = connect } in
    let (queued, c') = mg_send queues c (connect_packet net s) in
    if queued then again waiting c' else return (fail waiting c')

unfoldable pub send_auth : (Bytes → Bool) → Socks → Conn → Round
unfolding auth_packet mg_send fail
send_auth queues s c =
    let waiting = record s { stage = auth } in
    let (queued, c') = mg_send queues c (auth_packet s) in
    if queued then again waiting c' else return (fail waiting c')

-- `p[i]`
abbrev pub at : Conn → ℕ → ℕ
at c i = get_or c.recv i 0

unfoldable pub greeting_round : Inet → (Bytes → Bool) → Socks → Conn → Round
unfolding send_auth connect_request
greeting_round net queues s c =
    if ltb (length c.recv) 2
    then return (negotiating, s, c)
    else if not (at c 0 == 5) || not (at c 1 == (if is_empty s.user then 0 else 2))
    then return (fail s c)
    else if not (is_empty s.user)
    then send_auth queues s (consume 2 c)
    else connect_request net queues s (consume 2 c)

unfoldable pub auth_round : Inet → (Bytes → Bool) → Socks → Conn → Round
unfolding connect_request
auth_round net queues s c =
    if ltb (length c.recv) 2
    then return (negotiating, s, c)
    else if not (at c 0 == 1) || not (at c 1 == 0)
    then return (fail s c)
    else connect_request net queues s (consume 2 c)

-- The end of the connect stage, for a reply of this length.
abbrev pub finish : ℕ → Socks → Conn → Round
finish size s c =
    if ltb (length c.recv) size
    then return (negotiating, s, c)
    else return (opened, record s { stage = ready }, consume size c)

-- A reply that names a host: its length stands before the name.
unfoldable pub hostname_round : Socks → Conn → Round
unfolding fail
hostname_round s c =
    if ltb (length c.recv) 5
    then return (negotiating, s, c)
    else if at c 4 == 0
    then return (fail s c)
    else finish (7 + at c 4) s c

-- The reply from its fourth byte on, the type of the address.
unfoldable pub address_round : Socks → Conn → Round
unfolding hostname_round fail
address_round s c =
    if at c 3 == 1
    then finish 10 s c
    else if at c 3 == 4
    then finish 22 s c
    else if at c 3 == 3
    then hostname_round s c
    else return (fail s c)

unfoldable pub connect_round : Socks → Conn → Round
unfolding address_round fail
connect_round s c =
    if ltb (length c.recv) 4
    then return (negotiating, s, c)
    else if not (at c 0 == 5) || not (at c 2 == 0)
    then return (fail s c)
    else if not (at c 1 == 0)
    then return (fail s c)
    else address_round s c

unfoldable pub stage_round : Stage → Inet → (Bytes → Bool) → Socks → Conn → Round
unfolding greeting_round auth_round connect_round
stage_round greeting net queues s c = greeting_round net queues s c
stage_round auth net queues s c = auth_round net queues s c
stage_round connect net queues s c = connect_round s c
stage_round _ net queues s c = return (negotiating, s, c)

unfoldable pub round : Inet → (Bytes → Bool) → Socks → Conn → Round
unfolding stage_round
round net queues s c = stage_round s.stage net queues s c

-- `while (!c->is_closing)`, with the rounds left; none is a loop that goes on.
unfoldable pub rounds : ℕ → Inet → (Bytes → Bool) → Socks → Conn → Option Reply
rounds zero net queues s c = none
rounds (suc fuel) net queues s c =
    if c.is_closing then some (broken, s, c) else elim (round net queues s c) [
      | return r ↦ some r
      | again s' c' ↦ rounds fuel net queues s' c'
    ]

-- The events after the checks of the stage.
unfoldable pub dispatch : Inet → (Bytes → Bool) → ℕ → MgEvent → Socks → Conn → Option Reply
unfolding fail mg_send greeting_packet round rounds
dispatch net queues now ev_poll s c =
    if leb s.deadline_ms now then some (fail s c) else some (negotiating, s, c)
dispatch net queues now ev_connect s c =
    let (queued, c') = mg_send queues c (greeting_packet s) in
    if queued then some (negotiating, s, c') else some (fail s c')
dispatch net queues now ev_read s c = rounds 4 net queues s c
dispatch net queues now _ s c = some (negotiating, s, c)

abbrev pub is_down : MgEvent → Bool
is_down ev_error = true
is_down ev_close = true
is_down _ = false

unfoldable pub in_stage : Stage → Inet → (Bytes → Bool) → ℕ → MgEvent → Socks → Conn → Option Reply
in_stage failed net queues now event s c = some (broken, s, record c { is_closing = true })
in_stage ready net queues now event s c = some (negotiating, s, c)
in_stage _ net queues now event s c = dispatch net queues now event s c

unfoldable pub rr_socks_event : Inet → (Bytes → Bool) → ℕ → MgEvent → Socks → Conn → Option Reply
rr_socks_event net queues now event s c =
    if is_down event || c.is_closing
    then some (broken, record s { stage = failed }, record c { is_closing = true })
    else in_stage s.stage net queues now event s c
