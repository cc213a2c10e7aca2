-- ===== src/Acl/Types.antt =====
-- acl.h. An address is an array of 16 bytes; the address family is 4, 6, or 0 for unknown.
use librustyaxe.Prelude.{ℕ, Bool, Option, some, Bytes, ◌≡◌, ◌<◌, All, length}

pub data AclResult : Type 0 where
  no_match allow deny defer : AclResult

-- `acl_principal_t`
pub data Principal : Type 0 where
  any user group : Principal

pub record Rule : Type 0 where
  pub address : Bytes
  pub family : ℕ
  pub prefix : ℕ
  pub kind : Principal
  pub principal : Bytes
  pub allow_it : Bool

-- `in_group` is the callback with its context; both it and `user` may be NULL.
pub record Subject : Type 0 where
  pub address : Bytes
  pub family : ℕ
  pub user_name : Option Bytes
  pub in_group : Option (Bytes → Bool)
  pub ignore_case : Bool

abbrev pub principal_max : ℕ
principal_max = 127

-- `inet_pton` for AF_INET and AF_INET6, as the bytes that it writes.
pub record Inet : Type 0 where
  pub pton4 : Bytes → Option Bytes
  pub pton6 : Bytes → Option Bytes

-- An array of `n` bytes.
abbrev pub IsBytes : ℕ → Bytes → Type 0
IsBytes n a = (length a ≡ n) × All (λ b. b < 256) a

-- What POSIX says of `inet_pton`: an IPv4 address has 4 bytes and an IPv6 address has 16.
pub record IsInet (net : Inet) : Type 0 where
  pub four : (ip a : Bytes) → net.pton4 ip ≡ some a → IsBytes 4 a
  pub sixteen : (ip a : Bytes) → net.pton6 ip ≡ some a → IsBytes 16 a
