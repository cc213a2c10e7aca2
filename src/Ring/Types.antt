-- ===== src/Ring/Types.antt =====
-- ringbuffer.h, and the store that its nodes live in.
use librustyaxe.Prelude.{ℕ, Bool, Option, none, some, List, Bytes, ◌==◌, if◌then◌else◌}

-- `struct timespec`
pub record Time : Type 0 where
  pub tv_sec : ℕ
  pub tv_nsec : ℕ

-- `rb_node_t`; a data pointer is its address, 0 for NULL.
pub record Node : Type 0 where
  pub payload : ℕ
  pub needs_freed : Bool
  pub timestamp : Time
  pub next : Option ℕ

-- `rb_buffer_t`
pub record Buffer : Type 0 where
  pub max_size : ℕ
  pub current_size : ℕ
  pub head : Option ℕ
  pub tail : Option ℕ
  pub name : Bytes

-- The nodes by their addresses, `none` where no node is allocated; and the data that has been freed,
-- the last one first.
pub record Store : Type 0 where
  pub cells : ℕ → Option Node
  pub released : List ℕ

-- How a call ends: it returns, the program exits, or it has used a pointer that it must not use or
-- an integer that has overflowed.
pub data Outcome {ℓ} (A : Type ℓ) : Type ℓ where
  ok : A → Outcome A
  out_of_memory fault : Outcome A

abbrev pub and_then {ℓ κ} : {A : Type ℓ} {B : Type κ} → Outcome A → (A → Outcome B) → Outcome B
and_then (ok a) f = f a
and_then out_of_memory f = out_of_memory
and_then fault f = fault

-- The node behind a pointer.
abbrev pub fetch : Store → Option ℕ → Outcome Node
fetch st none = fault
fetch st (some a) = elim (st.cells a) [ none ↦ fault | some node ↦ ok node ]

-- A store with another cell at the address `a`.
abbrev pub put : Store → ℕ → Option Node → Store
put st a cell = record st { cells = λ b. if b == a then cell else st.cells b }

abbrev pub size_bits : ℕ
size_bits = 64
