-- ===== src/Socks/Ready.antt =====
-- What `rr_socks_init` promises of a tunnel, and the sizes of the packets that are built from it.
use librustyaxe.Prelude.{
  ℕ, ◌+◌, ◌/◌, ◌%◌, ◌≤◌, ◌<◌, ◌≡◌, sym, ap, ◌∙◌, Bool, true, false, not, ◌||◌, Option, some, [],
  ◌∷◌, Bytes, length, length-append, length-take, ltb, ◌==◌, arith, inl, inr, Bool-cases,
  Option-cases, >>=-eq-some, guard-eq-some, some-injective,
}
use librustyaxe.Acl.Types.{Inet, IsInet}
use librustyaxe.Socks.Types.{greeting, Socks}
use librustyaxe.Socks.Init.{
  is_empty, blank, or_empty, set_up, checked, rr_socks_init, address_of, proxy_host, proxy_port,
  proxy_url, are_credentials,
}
use librustyaxe.Socks.Event.{destination, auth_packet, connect_packet}

-- A tunnel that may start: what the arrays hold fits, the credentials are complete, the port is one.
pub record IsTunnel (s : Socks) : Type 0 where
  pub host_size : length s.host ≤ 255
  pub user_size : length s.user ≤ 255
  pub pass_size : length s.pass ≤ 255
  pub both : is_empty s.user ≡ is_empty s.pass
  pub start : s.stage ≡ greeting

-- The lengths with which each packet says how long its parts are, and what the code's arrays hold.
pub record Packed (net : Inet) (s : Socks) : Type 0 where
  pub auth_size : length (auth_packet s) ≡ 3 + length s.user + length s.pass
  pub auth_fits : length (auth_packet s) ≤ 513
  pub connect_fits : length (connect_packet net s) ≤ 262

length-auth : (s : Socks) → length (auth_packet s) ≡ 3 + length s.user + length s.pass
unfolding auth_packet
length-auth s = omega (arith, length-append s.user (length s.pass % 256 ∷ s.pass))

destination-le :
    (net : Inet) (host : Bytes)
    → IsInet net
    → length host ≤ 255
    → length (destination net host) ≤ 257
unfolding destination
destination-le net host inet h = elim (Option-cases (net.pton4 host)) [
  | inr (ip, e) ↦ rw (destination, e) (omega (arith, (inet.four host ip e).0))
  | inl e ↦ elim (Option-cases (net.pton6 host)) [
    | inr (ip, e') ↦ rw (destination, e, e') (omega (arith, (inet.sixteen host ip e').0))
    | inl e' ↦ rw (destination, e, e') (omega (arith, length-take (length host % 256) host))
  ]
]

length-connect :
    (net : Inet) (s : Socks)
    → IsInet net
    → length s.host ≤ 255
    → length (connect_packet net s) ≤ 262
unfolding connect_packet
length-connect net s inet h =
    let ports : Bytes = s.port / 256 % 256 ∷ s.port % 256 ∷ [] in
    omega (arith, destination-le net s.host inet h, length-append (destination net s.host) ports)

are_credentials-IsTunnel :
    (user pass : Bytes)
    → are_credentials user pass ≡ true
    → (length user ≤ 255) × (length pass ≤ 255) × (is_empty user ≡ is_empty pass)
are_credentials-IsTunnel user pass h = ground arith

-- The checks of the last step.
pub record Configured (user pass host : Bytes) (port : ℕ) (s : Socks) : Type 0 where
  pub start : s.stage ≡ greeting
  pub host_kept : s.host ≡ host
  pub user_kept : s.user ≡ user
  pub pass_kept : s.pass ≡ pass
  pub port_kept : s.port ≡ port
  pub complete : are_credentials user pass ≡ true

set_up-Configured :
    (net : Inet) (now : ℕ) (user pass host : Bytes) (port : ℕ) (proxy rest : Bytes) {s : Socks}
    → set_up net now user pass host port proxy rest ≡ some s
    → Configured user pass host port s
unfolding set_up
set_up-Configured net now user pass host port proxy rest run =
    let (ends, run₁) = guard-eq-some _ _ run in
    let (named, run₂) = guard-eq-some _ _ run₁ in
    let (complete, run₃) = guard-eq-some (not (are_credentials user pass)) _ run₂ in
    let same = some-injective run₃ in
    record {
      start = ap (λ (t : Socks). t.stage) (sym same);
      host_kept = ap (λ (t : Socks). t.host) (sym same);
      user_kept = ap (λ (t : Socks). t.user) (sym same);
      pass_kept = ap (λ (t : Socks). t.pass) (sym same);
      port_kept = ap (λ (t : Socks). t.port) (sym same);
      complete = ground (arith, complete);
    }

checked-Configured :
    (net : Inet) (now : ℕ) (url user pass host : Bytes) (port : ℕ) {s : Socks}
    → checked net now url user pass host port ≡ some s
    → Configured user pass host port s
unfolding checked
checked-Configured net now url user pass host port run =
    let (address, e₁, run₁) = >>=-eq-some (address_of url) _ run in
    let (named, e₂, run₂) = >>=-eq-some (proxy_host net address) _ run₁ in
    let (ported, e₃, run₃) = >>=-eq-some (proxy_port named.2) _ run₂ in
    set_up-Configured net now user pass host port (proxy_url named.0 named.1 ported.0) ported.1 run₃

non_empty : (s : Bytes) → is_empty s ≡ false → 0 < length s
non_empty [] h = absurd (cc h)
non_empty (c ∷ s) h = omega arith

init-Configured :
    (net : Inet) (now : ℕ) (url host : Bytes) (user pass : Option Bytes) (port : ℕ) {s : Socks}
    → rr_socks_init net now (some url) user pass (some host) port ≡ (true, s)
    → (length host ≤ 255)
      × (0 < port)
      × (0 < length host)
      × Configured (or_empty user) (or_empty pass) host port s
unfolding rr_socks_init
init-Configured net now url host user pass port {s} run =
    elim (Bool-cases (is_empty url || is_empty host || ltb 255 (length host) || port == 0)) [
      | inl e ↦ let stop : (false, blank) ≡ (true, s) = rw e at run in absurd (ground (arith, stop))
      | inr e ↦
          elim (Option-cases (checked net now url (or_empty user) (or_empty pass) host port)) [
            | inl e' ↦
                let stop : (false, blank) ≡ (true, s) = rw (e, e') at run in
                absurd (ground (arith, stop))
            | inr (t, e') ↦
                let go : (true, t) ≡ (true, s) = rw (e, e') at run in
                let same : t ≡ s = ap (λ (r : Bool × Socks). r.1) go in
                (
                  ground arith,
                  ground arith,
                  ground (arith, non_empty host),
                  checked-Configured net now url (or_empty user) (or_empty pass) host port
                      (e' ∙ rw same),
                )
          ]
    ]

-- Where `inet_pton` writes addresses of the right sizes and `rr_socks_init` returns true, the stage is the greeting and the port and the destination are those given; each name fits its array, the user and the
-- password are both given or neither is; and the packets that are built from them fit the arrays of
-- `rr_socks_event`, whose bytes for the lengths hold them.
pub rr_socks_init-IsTunnel :
    (net : Inet) (now : ℕ) (url host : Bytes) (user pass : Option Bytes) (port : ℕ) (s : Socks)
    → IsInet net
    → rr_socks_init net now (some url) user pass (some host) port ≡ (true, s)
    → IsTunnel s × Packed net s × (s.host ≡ host) × (s.port ≡ port) × (0 < port)
rr_socks_init-IsTunnel net now url host user pass port s inet run =
    let (short, some_port, some_host, c) = init-Configured net now url host user pass port run in
    let (u, p, both) = are_credentials-IsTunnel (or_empty user) (or_empty pass) c.complete in
    let host_size : length s.host ≤ 255 = rw c.host_kept short in
    let user_size : length s.user ≤ 255 = rw c.user_kept u in
    let pass_size : length s.pass ≤ 255 = rw c.pass_kept p in
    (
      record {
        host_size = host_size;
        user_size = user_size;
        pass_size = pass_size;
        both = rw (c.user_kept, c.pass_kept) both;
        start = c.start;
      },
      record {
        auth_size = length-auth s;
        auth_fits = omega (arith, length-auth s, user_size, pass_size);
        connect_fits = length-connect net s inet host_size;
      },
      c.host_kept,
      c.port_kept,
      some_port,
    )
