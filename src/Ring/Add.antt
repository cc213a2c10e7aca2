-- ===== src/Ring/Add.antt =====
-- `rb_add` as a queue of the newest entries, and the buffer of one entry, which it does not support.
use librustyaxe.Prelude.{
  ℕ, ◌+◌, ◌-◌, ◌≤◌, ◌<◌, ◌%◌, ◌^◌, true, false, Option, none, some, List, [], ◌∷◌, ◌++◌, ◌≡◌, refl,
  ap, ◌∙◌, ◌≢◌, arith, ◌==◌, length, length-append, take, drop,
}
use native.Mathlib.Decide.{ℕ_discrete}
use librustyaxe.Ring.Types.{Node, Buffer, Store, put, fetch, Outcome, ok, fault, size_bits}
use librustyaxe.Ring.Buffer.{rb_add, evict, append, free_node}
use librustyaxe.Ring.Chain.{Entry, Placed, cell, Holds, Linked-put, Apart-fresh, fetch_found}
use librustyaxe.Ring.Evict.{owned, free_node_cells, free_node_released, append-Holds, evict-Holds}

-- The newest `n` entries of a list, the oldest first, and those before them.
abbrev pub newest : ℕ → List Placed → List Placed
newest n xs = drop (length xs - n) xs

abbrev pub outdated : ℕ → List Placed → List Placed
outdated n xs = take (length xs - n) xs

-- What `rb_add` makes of a buffer with the entries `xs`.
pub record Adds (st : Store) (buffer : Buffer) (xs : List Placed) (n : ℕ) (e : Entry) (st' : Store)
    (buffer' : Buffer) : Type 0 where
  pub holds : Holds st' buffer' (newest buffer.max_size (xs ++ (n, e) ∷ []))
  pub released : st'.released ≡ owned (outdated buffer.max_size (xs ++ (n, e) ∷ [])) ++ st.released
  pub same_max : buffer'.max_size ≡ buffer.max_size

-- The buffer holds the same entries once the new node is written.
written :
    (st : Store) (buffer : Buffer) (xs : List Placed) (n : ℕ) (c : Option Node)
    → Holds st buffer xs
    → st.cells n ≡ none
    → Holds (put st n c) buffer xs
written st buffer xs n c holds free = record {
  linked = Linked-put st n c xs (Apart-fresh st n xs free holds.linked) holds.linked;
  distinct = holds.distinct;
  head = holds.head;
  tail = holds.tail;
  counted = holds.counted;
}

evict_idle :
    (st : Store) (buffer : Buffer)
    → buffer.current_size ≢ buffer.max_size
    → evict st buffer ≡ ok (st, buffer)
unfolding evict
evict_idle st buffer ne =
    let test : (buffer.current_size == buffer.max_size) ≡ false = ground arith in
    rw (evict, test) refl

module _ (st : Store) (buffer : Buffer) (n : ℕ) (e : Entry) where
  abbrev call : Outcome (ℕ × Store × Buffer)
  call = rb_add st buffer e.payload e.needs_freed e.timestamp (some n)

  add_first :
      Holds st buffer []
      → 2 ≤ buffer.max_size
      → (st' : Store) × (buffer' : Buffer) × (call ≡ ok (n, st', buffer'))
        × Adds st buffer [] n e st' buffer'
  unfolding rb_add
  add_first holds two =
      let count = holds.counted in
      let empty : (buffer.current_size == 0) ≡ true = ground arith in
      let keep : 1 - buffer.max_size ≡ 0 = omega arith in
      let one : (buffer.current_size + 1) % 2 ^ size_bits ≡ 1 = omega arith in
      (
        put st n (some (cell e none)),
        record buffer {
          head = some n;
          tail = some n;
          current_size = (buffer.current_size + 1) % 2 ^ size_bits;
        },
        rw (rb_add, empty) refl,
        record {
          holds = rw keep (record {
            linked = (ground arith, tt);
            distinct = (tt, tt);
            head = refl;
            tail = refl;
            counted = one;
          });
          released = rw keep refl;
          same_max = refl;
        },
      )

  add_behind :
      (x : Placed) (xs : List Placed)
      → Holds st buffer (x ∷ xs)
      → length (x ∷ xs) < buffer.max_size
      → buffer.max_size < 2 ^ size_bits
      → st.cells n ≡ none
      → (st' : Store) × (buffer' : Buffer) × (call ≡ ok (n, st', buffer'))
        × Adds st buffer (x ∷ xs) n e st' buffer'
  unfolding rb_add evict
  add_behind x xs holds room small free =
      let st1 = put st n (some (cell e none)) in
      let count = holds.counted in
      let empty : (buffer.current_size == 0) ≡ false = ground arith in
      let kept = evict_idle st1 buffer (λ z. omega arith) in
      let apart = Apart-fresh st n (x ∷ xs) free holds.linked in
      let (st', buffer', run, queued, freed, max) =
        append-Holds st1 buffer (x ∷ xs) n e
          (written st buffer (x ∷ xs) n (some (cell e none)) holds free) (λ z. ground arith) apart
          (ground arith) (omega arith) in
      let len = length-append (x ∷ xs) ((n, e) ∷ []) in
      let keep : length ((x ∷ xs) ++ (n, e) ∷ []) - buffer.max_size ≡ 0 = omega arith in
      (
        st',
        buffer',
        rw (rb_add, empty, kept, run) refl,
        record { holds = rw keep queued; released = rw keep freed; same_max = max },
      )

  add_full :
      (x y : Placed) (xs : List Placed)
      → Holds st buffer (x ∷ y ∷ xs)
      → length (x ∷ y ∷ xs) ≡ buffer.max_size
      → buffer.max_size < 2 ^ size_bits
      → st.cells n ≡ none
      → (st' : Store) × (buffer' : Buffer) × (call ≡ ok (n, st', buffer'))
        × Adds st buffer (x ∷ y ∷ xs) n e st' buffer'
  unfolding rb_add
  add_full x y xs holds full small free =
      let (a, old) = x in
      let st1 = put st n (some (cell e none)) in
      let count = holds.counted in
      let empty : (buffer.current_size == 0) ≡ false = ground arith in
      let (apart_a, apart) = Apart-fresh st n (x ∷ y ∷ xs) free holds.linked in
      let (shrunk, kept, short, max) =
        evict-Holds st1 buffer a old (y ∷ xs)
          (written st buffer (x ∷ y ∷ xs) n (some (cell e none)) holds free) (omega arith)
          (λ z. ground arith) in
      let freed = free_node st1 a (cell old (some y.0)) in
      let new : freed.cells n ≡ some (cell e none) =
        ap (λ f. f n) (free_node_cells st1 a (cell old (some y.0))) ∙ ground arith in
      let (st', buffer', run, queued, same, max') =
        append-Holds freed shrunk (y ∷ xs) n e short (λ z. ground arith) apart new (omega arith) in
      let len = length-append (x ∷ y ∷ xs) ((n, e) ∷ []) in
      let keep : length ((x ∷ y ∷ xs) ++ (n, e) ∷ []) - buffer.max_size ≡ 1 = omega arith in
      (
        st',
        buffer',
        rw (rb_add, empty, kept, run) refl,
        record {
          holds = rw keep queued;
          released = rw keep (same ∙ free_node_released st1 a old (some y.0));
          same_max = max' ∙ max;
        },
      )

-- `rb_add` of a new node to a buffer for two entries at least, which holds as many as fit at most,
-- leaves the newest entries that fit, the new one last, and frees the payload that it drops if the
-- entry owns one.
pub rb_add-Adds :
    (st : Store) (buffer : Buffer) (xs : List Placed) (n : ℕ) (e : Entry)
    → Holds st buffer xs
    → 2 ≤ buffer.max_size
    → buffer.max_size < 2 ^ size_bits
    → length xs ≤ buffer.max_size
    → st.cells n ≡ none
    → (st' : Store) × (buffer' : Buffer) × (rb_add st buffer e.payload e.needs_freed e.timestamp
          (some n)
        ≡ ok (n, st', buffer'))
      × Adds st buffer xs n e st' buffer'
rb_add-Adds st buffer [] n e holds two small fits free = add_first st buffer n e holds two
rb_add-Adds st buffer (x ∷ []) n e holds two small fits free =
    add_behind st buffer n e x [] holds (omega arith) small free
rb_add-Adds st buffer (x ∷ y ∷ xs) n e holds two small fits free =
    elim (ℕ_discrete (length (x ∷ y ∷ xs)) buffer.max_size) [
      | yes full ↦ add_full st buffer n e x y xs holds full small free
      | no room ↦ add_behind st buffer n e x (y ∷ xs) holds (omega arith) small free
    ]

-- A call of `rb_add` on a buffer for one entry that holds one reads the node that it has just freed.
pub rb_add_single :
    (st : Store) (buffer : Buffer) (a n : ℕ) (old e : Entry)
    → Holds st buffer ((a, old) ∷ [])
    → buffer.max_size ≡ 1
    → st.cells n ≡ none
    → rb_add st buffer e.payload e.needs_freed e.timestamp (some n) ≡ fault
unfolding rb_add evict append
rb_add_single st buffer a n old e holds one free =
    let st1 = put st n (some (cell e none)) in
    let count = holds.counted in
    let (apart, _) = Apart-fresh st n ((a, old) ∷ []) free holds.linked in
    let (here, _) = (written st buffer ((a, old) ∷ []) n (some (cell e none)) holds free).linked in
    let empty : (buffer.current_size == 0) ≡ false = ground arith in
    let full : (buffer.current_size == buffer.max_size) ≡ true = ground arith in
    let freed = free_node st1 a (cell old none) in
    let gone : freed.cells a ≡ none =
      ap (λ f. f a) (free_node_cells st1 a (cell old none)) ∙ ground arith in
    let head = holds.head in
    let tail = holds.tail in
    let lost : fetch freed (some a) ≡ fault = rw (fetch, gone) refl in
    rw (rb_add, empty, evict, full, head, fetch_found st1 a here, append, tail, lost) refl
