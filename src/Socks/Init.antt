-- ===== src/Socks/Init.antt =====
-- `rr_socks_init`: the proxy's URL and the credentials are checked, and the first stage is set.
use librustyaxe.Prelude.{
  ℕ, zero, suc, ◌+◌, ◌-◌, ◌*◌, ◌/◌, ◌%◌, Bool, true, false, not, ◌&&◌, ◌||◌, Option, none, some, [],
  ◌∷◌, ◌++◌, Bytes, codes, bytes_eq, split_first, all_bytes, is_digit, length, ltb, leb, ◌==◌,
  if◌then◌else◌, ◌>>=◌,
}
use librustyaxe.Acl.Types.{Inet}
use librustyaxe.Socks.Types.{greeting, failed, Socks}

abbrev pub is_alnum : ℕ → Bool
is_alnum c = is_digit c || (leb 65 c && leb c 90) || (leb 97 c && leb c 122)

abbrev pub is_empty : Bytes → Bool
is_empty [] = true
is_empty (c ∷ s) = false

-- `memset`, and the stage that stands if the function fails.
abbrev pub blank : Socks
blank = record {
  url = [];
  host = [];
  user = [];
  pass = [];
  port = 0;
  stage = failed;
  deadline_ms = 0;
}

-- `!strncmp(s, prefix, n)` for a prefix of `n` bytes, and what follows it.
unfoldable pub strip : Bytes → Bytes → Option Bytes
strip [] s = some s
strip (p ∷ prefix) [] = none
strip (p ∷ prefix) (c ∷ s) = if p == c then strip prefix s else none

-- `strcspn(s, ":/")`: what stands before the first of the two bytes, and what begins with it.
abbrev pub host_part : Bytes → Bytes × Bytes
host_part [] = ([], [])
host_part (c ∷ s) =
    let (name, suffix) = host_part s in
    if c == b':' || c == b'/' then ([], c ∷ s) else (c ∷ name, suffix)

-- The digits of the port, from the value so far; none as soon as it passes 65535.
unfoldable pub port_digits : ℕ → Bytes → Option (ℕ × Bytes)
port_digits n [] = some (n, [])
port_digits n (c ∷ s) =
    let value = n * 10 + (c - 48) in
    let rest = port_digits value s in
    if not (is_digit c) then some (n, c ∷ s) else if ltb 65535 value then none else rest

starts_digit : Bytes → Bool
starts_digit [] = false
starts_digit (c ∷ s) = is_digit c

-- The port after the host, 1080 if there is none, with what follows it.
unfoldable pub proxy_port : Bytes → Option (ℕ × Bytes)
unfolding port_digits starts_digit
proxy_port [] = some (1080, [])
proxy_port (c ∷ s) =
    if not (c == b':')
    then some (1080, c ∷ s)
    else if not (starts_digit s)
    then none
    else (do (port, rest) ← port_digits 0 s; if port == 0 then none else some (port, rest))

-- The name of the proxy: whether it is an IPv6 address in brackets, the name, and what follows.
unfoldable pub proxy_host : Inet → Bytes → Option (Bool × Bytes × Bytes)
unfolding split_first
proxy_host net [] = none
proxy_host net (c ∷ s) =
    let bracketed = (do
      (name, suffix) ← split_first b']' s
      if is_empty name || leb 256 (length name)
          then none
          else (do ip ← net.pton6 name; some (true, name, suffix))) in
    let (name, suffix) = host_part (c ∷ s) in
    if c == b'['
    then bracketed
    else if is_empty name || leb 256 (length name)
    then none
    else if all_bytes (λ b. is_alnum b || b == b'.' || b == b'-') name
    then some (false, name, suffix)
    else none

-- The destination: an IPv6 address, or a name of these bytes.
unfoldable pub is_destination : Inet → Bytes → Bool
is_destination net host = elim (net.pton6 host) [
  | some ip ↦ true
  | none ↦ all_bytes (λ b. is_alnum b || b == b'.' || b == b'-' || b == b'_') host
]

-- A NULL credential is the empty one.
abbrev pub or_empty : Option Bytes → Bytes
or_empty none = []
or_empty (some s) = s

-- `strlen` of both is at most 255, and both are given or none is.
abbrev pub are_credentials : Bytes → Bytes → Bool
are_credentials user pass = not (
    ltb 255 (length user)
    || ltb 255 (length pass)
    || (not (is_empty user) && is_empty pass)
    || (is_empty user && not (is_empty pass)))

-- The decimal digits of a port.
unfoldable pub show_port : ℕ → ℕ → Bytes
show_port zero n = []
show_port (suc fuel) n =
    let front = show_port fuel (n / 10) in (if n == 0 then [] else front ++ ((48 + n % 10) ∷ []))

-- `snprintf` of "tcp://%s%s%s:%u"; the array is larger than the longest text.
unfoldable pub proxy_url : Bool → Bytes → ℕ → Bytes
unfolding show_port
proxy_url ipv6 name port =
    codes "tcp://"
    ++ (if ipv6 then codes "[" else [])
    ++ name
    ++ (if ipv6 then codes "]" else [])
    ++ codes ":"
    ++ show_port 5 port

-- `url` after its scheme
unfoldable pub address_of : Bytes → Option Bytes
unfolding strip
address_of url = elim (strip (codes "socks5h://") url) [
  | some address ↦ some address
  | none ↦ strip (codes "socks5://") url
]

-- The last checks, after the proxy's name and port are read; none is the result false.
unfoldable pub set_up : Inet → ℕ → Bytes → Bytes → Bytes → ℕ → Bytes → Bytes → Option Socks
unfolding is_destination bytes_eq
set_up net now user pass host port proxy rest =
    if not (is_empty rest || bytes_eq rest (codes "/"))
    then none
    else if not (is_destination net host)
    then none
    else if not (are_credentials user pass)
    then none
    else some (record {
      url = proxy;
      host = host;
      user = user;
      pass = pass;
      port = port;
      stage = greeting;
      deadline_ms = now + 30000;
    })

-- The checks, in their order; `now` is `mono_ms()`.
unfoldable pub checked : Inet → ℕ → Bytes → Bytes → Bytes → Bytes → ℕ → Option Socks
unfolding address_of proxy_host proxy_port proxy_url set_up
checked net now url user pass host port = do
  address ← address_of url
  (ipv6, name, suffix) ← proxy_host net address
  (proxy, rest) ← proxy_port suffix
  set_up net now user pass host port (proxy_url ipv6 name proxy) rest

unfoldable pub rr_socks_init :
    Inet → ℕ → Option Bytes → Option Bytes → Option Bytes → Option Bytes → ℕ → Bool × Socks
unfolding checked
rr_socks_init net now (some url) user pass (some host) port =
    if is_empty url || is_empty host || ltb 255 (length host) || port == 0
    then (false, blank)
    else elim (checked net now url (or_empty user) (or_empty pass) host port) [
      | none ↦ (false, blank)
      | some s ↦ (true, s)
    ]
rr_socks_init net now url user pass host port = (false, blank)
