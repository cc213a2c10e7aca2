-- ===== src/Tests/SocksRuns.antt =====
-- Runs of socks.c, and its theorems at a concrete handshake.
use librustyaxe.Prelude.{
  ◌≡◌, ◌⊎◌, refl, ◌<◌, Bool, true, false, Option, none, some, List, [], ◌∷◌, Bytes, codes, arith,
  bytes_eq, if◌then◌else◌,
}
use librustyaxe.Acl.Types.{Inet, IsInet}
use librustyaxe.Socks.Types.{greeting, failed, Socks, Conn, ev_connect, ev_read, ev_poll}
use librustyaxe.Socks.Init.{rr_socks_init}
use librustyaxe.Socks.Event.{Result, opened, Reply, rr_socks_event, in_stage, dispatch}
use librustyaxe.Socks.Settled.{Lands, rr_socks_event_total}
use librustyaxe.Socks.Split.{feed}
use librustyaxe.Socks.Reads.{read, read_twice, read-split}
use librustyaxe.Socks.Config.{Same}
use librustyaxe.Socks.Transcript.{Transcript}
use librustyaxe.Socks.Protocol.{Happens, arrived, run, fresh, run-Transcript}
use librustyaxe.Socks.Ready.{IsTunnel, Packed, rr_socks_init-IsTunnel}

-- An `inet_pton` that knows one address.
abbrev net : Inet
net = record {
  pton4 = λ ip. if bytes_eq ip (codes "10.0.0.1") then some (10 ∷ 0 ∷ 0 ∷ 1 ∷ []) else none;
  pton6 = λ ip. none;
}

net-IsInet : IsInet net
net-IsInet = record { four = λ ip a e. ground arith; sixteen = λ ip a e. ground arith }

-- A tunnel to port 443 of a host, with a user.
abbrev tunnel : Socks
tunnel = record {
  url = codes "tcp://proxy.example:9050";
  host = codes "radio.example";
  user = codes "op";
  pass = codes "73";
  port = 443;
  stage = greeting;
  deadline_ms = 30005;
}

set_up_tunnel :
    rr_socks_init net 5
      (some (codes "socks5h://proxy.example:9050/"))
      (some (codes "op"))
      (some (codes "73"))
      (some (codes "radio.example"))
      443
    ≡ (true, tunnel)
unfolding rr_socks_init bytes_eq
set_up_tunnel = refl

rr_socks_init-IsTunnel_example :
    IsTunnel tunnel
    × Packed net tunnel
    × (tunnel.host ≡ codes "radio.example")
    × (tunnel.port ≡ 443)
    × (0 < tunnel.port)
rr_socks_init-IsTunnel_example =
    rr_socks_init-IsTunnel net 5 (codes "socks5h://proxy.example:9050/") (codes "radio.example")
      (some (codes "op")) (some (codes "73")) 443 tunnel net-IsInet set_up_tunnel

abbrev all : Bytes → Bool
all packet = true

-- The replies of a proxy, with two bytes of the tunnel's data behind them.
abbrev replies : Bytes
replies = 5 ∷ 2 ∷ 1 ∷ 0 ∷ 5 ∷ 0 ∷ 0 ∷ 1 ∷ 10 ∷ 0 ∷ 0 ∷ 1 ∷ 1 ∷ 187 ∷ 104 ∷ 105 ∷ []

abbrev with : Bytes → Conn
with bytes = record { is_closing = false; recv = bytes; sent = [] }

abbrev left : Option Reply → Option (Result × Bytes)
left none = none
left (some (r, s, c)) = some (r, c.recv)

handshake : left (read net all 6 tunnel (with replies)) ≡ some (opened, 104 ∷ 105 ∷ [])
unfolding rr_socks_event in_stage dispatch bytes_eq
handshake = refl

read-split_example :
    read_twice net all 6 tunnel (with (5 ∷ 2 ∷ 1 ∷ [])) (0 ∷ 5 ∷ 0 ∷ [])
    ≡ read net all 6 tunnel (feed (with (5 ∷ 2 ∷ 1 ∷ [])) (0 ∷ 5 ∷ 0 ∷ []))
read-split_example = read-split net all 6 tunnel (with (5 ∷ 2 ∷ 1 ∷ [])) (0 ∷ 5 ∷ 0 ∷ [])

rr_socks_event_total_example :
    (r : Reply) × (rr_socks_event net all 40000 ev_poll tunnel (with []) ≡ some r)
    × Lands tunnel.stage r
rr_socks_event_total_example = rr_socks_event_total net all 40000 ev_poll tunnel (with [])

abbrev happens : List Happens
happens =
    record { bytes = []; event = ev_connect; now = 6; queues = all }
    ∷ record { bytes = 5 ∷ 2 ∷ 1 ∷ []; event = ev_read; now = 7; queues = all }
    ∷ record { bytes = 0 ∷ 5 ∷ 0 ∷ 0 ∷ []; event = ev_read; now = 8; queues = all }
    ∷ record {
      bytes = 1 ∷ 10 ∷ 0 ∷ 0 ∷ 1 ∷ 1 ∷ 187 ∷ 104 ∷ [];
      event = ev_read;
      now = 9;
      queues = all;
    }
    ∷ []

run-Transcript_example :
    (s : Socks) × (c : Conn) × (run net happens tunnel fresh ≡ some (s, c))
    × Same tunnel s
    × ((s.stage ≡ failed) ⊎ Transcript net (arrived happens) s c)
run-Transcript_example = run-Transcript net happens tunnel refl
