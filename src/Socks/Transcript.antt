-- ===== src/Socks/Transcript.antt =====
-- What the proxy has sent, and what it has been sent, in each stage of the handshake.
use librustyaxe.Prelude.{
  ℕ, ◌+◌, ◌≤◌, ◌≡◌, refl, sym, ap, ◌∙◌, ◌≢◌, Bool, true, false, List, [], ◌∷◌, ◌++◌, Bytes, length,
  if◌then◌else◌, take, drop, get_or, arith, ◌⊎◌, bytes_eq, bytes_eq_refl, take-append-drop,
}
use mathlib.Core.List.{append_assoc}
use librustyaxe.Acl.Types.{Inet}
use librustyaxe.Socks.Types.{Stage, off, greeting, auth, connect, ready, failed, Socks, Conn}
use librustyaxe.Socks.Init.{is_empty}
use librustyaxe.Socks.Event.{
  again, greeting_round, auth_round, connect_request, send_auth, mg_send, consume, at,
  greeting_packet, auth_packet, connect_packet,
}

-- The packets other than the greeting, in order.
abbrev pub requests : Socks → List Bytes → List Bytes
requests s [] = []
requests s (p ∷ sent) =
    if bytes_eq p (greeting_packet s) then requests s sent else p ∷ requests s sent

-- Those that a stage has sent: the credentials if there are any, and the destination.
abbrev pub credentials : Socks → List Bytes
credentials s = if is_empty s.user then [] else auth_packet s ∷ []

-- The replies before the connect stage.
abbrev pub login : Socks → Bytes
login s = if is_empty s.user then 5 ∷ 0 ∷ [] else 5 ∷ 2 ∷ 1 ∷ 0 ∷ []

-- A reply of success as RFC 1928 has it, with the address of its type and a port.
pub data IsReply : Bytes → Type 0 where
  ipv4 : (a : Bytes) → length a ≡ 6 → IsReply (5 ∷ 0 ∷ 0 ∷ 1 ∷ a)
  ipv6 : (a : Bytes) → length a ≡ 18 → IsReply (5 ∷ 0 ∷ 0 ∷ 4 ∷ a)
  name : (n : ℕ) (a : Bytes) → n ≢ 0 → length a ≡ n + 2 → IsReply (5 ∷ 0 ∷ 0 ∷ 3 ∷ n ∷ a)

-- The bytes that a stage has consumed, and the packets that it has sent.
abbrev pub Passed : Inet → Stage → Socks → Bytes → List Bytes → Type 0
Passed net greeting s consumed sent = (consumed ≡ []) × (requests s sent ≡ [])
Passed net auth s consumed sent =
    (is_empty s.user ≡ false) × (consumed ≡ 5 ∷ 2 ∷ []) × (requests s sent ≡ auth_packet s ∷ [])
Passed net connect s consumed sent =
    (consumed ≡ login s) × (requests s sent ≡ credentials s ++ (connect_packet net s ∷ []))
Passed net ready s consumed sent =
    ((reply : Bytes) × (consumed ≡ login s ++ reply) × IsReply reply)
    × (requests s sent ≡ credentials s ++ (connect_packet net s ∷ []))
Passed net off s consumed sent = Unit
Passed net failed s consumed sent = Unit

-- All the bytes that have come are consumed or wait to be read.
pub record Transcript (net : Inet) (input : Bytes) (s : Socks) (c : Conn) : Type 0 where
  pub consumed : Bytes
  pub all : input ≡ consumed ++ c.recv
  pub passed : Passed net s.stage s consumed c.sent

-- The new packets are no greetings.
pub auth_not_greeting : (s : Socks) → bytes_eq (auth_packet s) (greeting_packet s) ≡ false
unfolding auth_packet greeting_packet bytes_eq
auth_not_greeting s = refl

pub connect_not_greeting :
    (net : Inet) (s : Socks) → bytes_eq (connect_packet net s) (greeting_packet s) ≡ false
unfolding connect_packet greeting_packet bytes_eq
connect_not_greeting net s = ground arith

pub requests-append :
    (s : Socks) (sent : List Bytes) (p : Bytes)
    → bytes_eq p (greeting_packet s) ≡ false
    → requests s (sent ++ (p ∷ [])) ≡ requests s sent ++ (p ∷ [])
requests-append s [] p h = rw h
requests-append s (q ∷ sent) p h = ground (arith, requests-append s sent p h)

pub requests-greeting :
    (s : Socks) (sent : List Bytes)
    → requests s (sent ++ (greeting_packet s ∷ [])) ≡ requests s sent
requests-greeting s [] = rw (bytes_eq_refl (greeting_packet s))
requests-greeting s (q ∷ sent) = ground (arith, requests-greeting s sent)

-- The bytes at the front.
pub take_two : (a : Bytes) → 2 ≤ length a → take 2 a ≡ get_or a 0 0 ∷ get_or a 1 0 ∷ []
take_two [] h = absurd (omega arith)
take_two (x ∷ []) h = absurd (omega arith)
take_two (x ∷ y ∷ a) h = refl

-- The bytes that a round consumes join those consumed before.
pub consume_all :
    (n : ℕ) {input : Bytes} (consumed recv : Bytes)
    → input ≡ consumed ++ recv
    → input ≡ (consumed ++ take n recv) ++ drop n recv
consume_all n consumed recv e =
    e
    ∙ ap (λ (t : Bytes). consumed ++ t) (sym (take-append-drop n recv))
    ∙ sym (append_assoc consumed (take n recv) (drop n recv))

module _ (net : Inet) (queues : Bytes → Bool) where
  pub again-connect :
      (s : Socks) (c : Conn) {s' : Socks} {c' : Conn}
      → connect_request net queues s c ≡ again s' c'
      → (s' ≡ record s { stage = connect })
        × (c' ≡ record c { sent = c.sent ++ (connect_packet net s ∷ []) })
  unfolding connect_request mg_send
  again-connect s c h = ground arith

  pub again-auth :
      (s : Socks) (c : Conn) {s' : Socks} {c' : Conn}
      → send_auth queues s c ≡ again s' c'
      → (s' ≡ record s { stage = auth }) × (c' ≡ record c { sent = c.sent ++ (auth_packet s ∷ []) })
  unfolding send_auth mg_send
  again-auth s c h = ground arith

  -- A round goes on from the greeting with the method that the user calls for.
  pub greeting-again :
      (s : Socks) (c : Conn) {s' : Socks} {c' : Conn}
      → greeting_round net queues s c ≡ again s' c'
      → (2 ≤ length c.recv)
        × (at c 0 ≡ 5)
        × (((is_empty s.user ≡ false)
              × (at c 1 ≡ 2)
              × (send_auth queues s (consume 2 c) ≡ again s' c'))
            ⊎ ((is_empty s.user ≡ true)
                × (at c 1 ≡ 0)
                × (connect_request net queues s (consume 2 c) ≡ again s' c')))
  unfolding greeting_round
  greeting-again s c h = ground arith

  pub auth-again :
      (s : Socks) (c : Conn) {s' : Socks} {c' : Conn}
      → auth_round net queues s c ≡ again s' c'
      → (2 ≤ length c.recv)
        × (at c 0 ≡ 1)
        × (at c 1 ≡ 0)
        × (connect_request net queues s (consume 2 c) ≡ again s' c')
  unfolding auth_round
  auth-again s c h = ground arith
