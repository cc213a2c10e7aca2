-- ===== src/Socks/Types.antt =====
-- socks.h, and what socks.c uses of a connection.
use librustyaxe.Prelude.{ℕ, Bool, List, Bytes}

-- The stages of a tunnel; `SOCKS_OFF` is what zeroed memory has.
pub data Stage : Type 0 where
  off greeting auth connect ready failed : Stage

-- `rr_socks_t`
pub record Socks : Type 0 where
  pub url : Bytes
  pub host : Bytes
  pub user : Bytes
  pub pass : Bytes
  pub port : ℕ
  pub stage : Stage
  pub deadline_ms : ℕ

-- A connection: whether it is closing, the bytes that wait to be read, and the packets queued for
-- sending, in order.
pub record Conn : Type 0 where
  pub is_closing : Bool
  pub recv : Bytes
  pub sent : List Bytes

-- The events that `rr_socks_event` tells apart.
pub data MgEvent : Type 0 where
  ev_error ev_close ev_poll ev_connect ev_read ev_other : MgEvent
