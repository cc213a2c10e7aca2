-- ===== src/Ring/Buffer.antt =====
-- The operations of ringbuffer.c on an explicit store of nodes. `malloc` is an argument: the address
-- that it returns, or `none`; log lines are left out.
use librustyaxe.Prelude.{
  ℕ, zero, suc, ◌+◌, ◌-◌, ◌%◌, ◌^◌, Bool, not, ◌&&◌, ◌||◌, Option, none, some, List, [], ◌∷◌, Bytes,
  ltb, leb, ◌==◌, if◌then◌else◌, take, ℤ, pos, negsuc,
}
use librustyaxe.Ring.Types.{
  Time, Node, Buffer, Store, Outcome, ok, out_of_memory, fault, and_then, fetch, put, size_bits,
}

-- The conversion of an `int` to `size_t`.
abbrev pub to_size : ℤ → ℕ
to_size (pos n) = n % 2 ^ size_bits
to_size (negsuc n) = (2 ^ size_bits - (n + 1)) % 2 ^ size_bits

-- `sizeof(buffer->name)`, the size of a pointer.
abbrev pub name_size : ℕ
name_size = 8

-- `granted` says whether both allocations succeed.
unfoldable pub rb_create : Bool → ℤ → Option Bytes → Outcome Buffer
rb_create granted max_size name =
    let safe_name : Bytes = elim name [ none ↦ [] | some text ↦ text ] in
    if granted
    then ok (record {
      max_size = to_size max_size;
      current_size = 0;
      head = none;
      tail = none;
      name = take name_size safe_name;
    })
    else out_of_memory

-- `free` of the payload of a node that owns it, and of the node.
unfoldable pub free_node : Store → ℕ → Node → Store
free_node st a node =
    let freed = put st a none in
    if node.needs_freed && not (node.payload == 0)
    then record freed { released = node.payload ∷ freed.released }
    else freed

-- The oldest node goes where the buffer is full.
unfoldable pub evict : Store → Buffer → Outcome (Store × Buffer)
unfolding free_node
evict st buffer =
    if buffer.current_size == buffer.max_size
    then elim buffer.head [
      | none ↦ fault
      | some a ↦ and_then (fetch st (some a)) (λ first. ok (
        free_node st a first,
        record buffer { head = first.next; current_size = buffer.current_size - 1 },
      ))
    ]
    else ok (st, buffer)

-- The new node behind the last one.
unfoldable pub append : Store → Buffer → ℕ → Outcome (Store × Buffer)
append st buffer n = elim buffer.tail [
  | none ↦ fault
  | some t ↦ and_then (fetch st (some t)) (λ last. ok (
    put st t (some (record last { next = some n })),
    record buffer { tail = some n; current_size = (buffer.current_size + 1) % 2 ^ size_bits },
  ))
]

-- The result is the address of the new node, in the store and the buffer that the call leaves.
unfoldable pub rb_add : Store → Buffer → ℕ → Bool → Time → Option ℕ → Outcome (ℕ × Store × Buffer)
unfolding evict append
rb_add st buffer payload needs_freed timestamp none = out_of_memory
rb_add st buffer payload needs_freed timestamp (some n) =
    let node : Node = record {
      payload = payload;
      needs_freed = needs_freed;
      timestamp = timestamp;
      next = none;
    } in
    let st' = put st n (some node) in
    if buffer.current_size == 0
    then ok (
      n,
      st',
      record buffer {
        head = some n;
        tail = some n;
        current_size = (buffer.current_size + 1) % 2 ^ size_bits;
      },
    )
    else and_then (evict st' buffer) (λ (kept, shrunk).
      and_then (append kept shrunk n) (λ (grown, queued). ok (n, grown, queued)))

-- Whether the first time is after the second.
abbrev pub after : Time → Time → Bool
after a b = ltb b.tv_sec a.tv_sec || (a.tv_sec == b.tv_sec && ltb b.tv_nsec a.tv_nsec)

-- The loop of `rb_get_most_recent`, on fuel: the latest node so far, at the address `best`.
unfoldable pub latest : ℕ → Store → Option ℕ → ℕ → Node → Outcome ℕ
latest fuel st none best node = ok best
latest zero st (some a) best node = fault
latest (suc fuel) st (some a) best node = elim (st.cells a) [
  | none ↦ fault
  | some current ↦
      if after current.timestamp node.timestamp
      then latest fuel st current.next a current
      else latest fuel st current.next best node
]

-- The address of the node, or `none` for NULL. The fuel is the count of the nodes.
unfoldable pub rb_get_most_recent : Store → Option Buffer → Outcome (Option ℕ)
unfolding latest
rb_get_most_recent st none = ok none
rb_get_most_recent st (some buffer) =
    if buffer.current_size == 0 then ok none else elim buffer.head [
      | none ↦ fault
      | some a ↦ and_then (fetch st (some a)) (λ first.
          and_then (latest buffer.current_size st (some a) a first) (λ best. ok (some best)))
    ]

-- The loop that walks to the first node of a range.
unfoldable pub skip : ℕ → Store → Option ℕ → Outcome (Option ℕ)
skip zero st current = ok current
skip (suc i) st current = and_then (fetch st current) (λ node. skip i st node.next)

-- The loop that copies the data of a range.
unfoldable pub collect : ℕ → Store → Option ℕ → Outcome (List ℕ)
collect zero st current = ok []
collect (suc i) st current =
    and_then (fetch st current)
      (λ node. and_then (collect i st node.next) (λ rest. ok (node.payload ∷ rest)))

-- The array, or `none` for NULL; `granted` says whether the allocation succeeds. The sum of two
-- `int` values may overflow.
unfoldable pub rb_get_range : Bool → Store → Buffer → ℤ → ℤ → Outcome (Option (List ℕ))
unfolding skip collect
rb_get_range granted st buffer (negsuc start) count = ok none
rb_get_range granted st buffer (pos start) (negsuc count) = ok none
rb_get_range granted st buffer (pos start) (pos count) =
    if buffer.current_size == 0 || leb buffer.current_size start || ltb count 1
    then ok none
    else if leb (2 ^ 31) (start + count)
    then fault
    else if ltb buffer.current_size (start + count)
    then ok none
    else if not granted
    then out_of_memory
    else and_then (skip start st buffer.head)
        (λ current. and_then (collect count st current) (λ array. ok (some array)))

-- The loop of `rb_destroy`, on fuel.
unfoldable pub destroy_nodes : ℕ → Store → Option ℕ → Outcome Store
unfolding free_node
destroy_nodes fuel st none = ok st
destroy_nodes zero st (some a) = fault
destroy_nodes (suc fuel) st (some a) = elim (st.cells a) [
  | none ↦ fault
  | some node ↦ destroy_nodes fuel (free_node st a node) node.next
]

-- The store of the nodes that the call leaves. The fuel is the count of the nodes. The name and the
-- buffer, which are freed after the nodes, are not in the store.
unfoldable pub rb_destroy : Store → Option Buffer → Outcome Store
unfolding destroy_nodes
rb_destroy st none = ok st
rb_destroy st (some buffer) = destroy_nodes buffer.current_size st buffer.head
