-- ===== src/Ring/Evict.antt =====
-- The two parts of `rb_add` of ringbuffer.c: the oldest node is dropped, the new one is linked in.
use librustyaxe.Prelude.{
  ℕ, ◌+◌, ◌-◌, ◌<◌, ◌%◌, ◌^◌, true, not, ◌&&◌, Option, none, some, List, [], ◌∷◌, ◌++◌, ◌≡◌, refl,
  sym, ◌∙◌, inl, inr, arith, ◌==◌, if◌then◌else◌, length, length-append, Bool-cases,
}
use librustyaxe.Ring.Types.{Node, Buffer, Store, put, ok, size_bits}
use librustyaxe.Ring.Buffer.{evict, append, free_node}
use librustyaxe.Ring.Chain.{
  Entry, Placed, cell, first, Apart, Holds, Linked-put, Linked-same, Distinct-append, last-append,
  last-Linked, fetch_found, last-cons,
}

-- The payloads that the entries own.
abbrev pub owned : List Placed → List ℕ
owned [] = []
owned ((a, e) ∷ xs) =
    if e.needs_freed && not (e.payload == 0) then e.payload ∷ owned xs else owned xs

first-append :
    (xs : List Placed) (n : ℕ) (e : Entry) → ¬ (xs ≡ []) → first (xs ++ (n, e) ∷ []) ≡ first xs
first-append [] n e ne = absurd (ne refl)
first-append (x ∷ xs) n e ne = refl

pub free_node_cells :
    (st : Store) (a : ℕ) (node : Node) → (free_node st a node).cells ≡ (put st a none).cells
unfolding free_node
free_node_cells st a node = elim (Bool-cases (node.needs_freed && not (node.payload == 0))) [
  | inl e ↦ rw (free_node, e) refl
  | inr e ↦ rw (free_node, e) refl
]

pub free_node_released :
    (st : Store) (a : ℕ) (e : Entry) (next : Option ℕ)
    → (free_node st a (cell e next)).released ≡ owned ((a, e) ∷ []) ++ st.released
unfolding free_node
free_node_released st a e next = elim (Bool-cases (e.needs_freed && not (e.payload == 0))) [
  | inl e ↦ rw (free_node, e) refl
  | inr e ↦ rw (free_node, e) refl
]

pub append-Holds :
    (st : Store) (buffer : Buffer) (xs : List Placed) (n : ℕ) (e : Entry)
    → Holds st buffer xs
    → ¬ (xs ≡ [])
    → Apart n xs
    → st.cells n ≡ some (cell e none)
    → length xs + 1 < 2 ^ size_bits
    → (st' : Store) × (buffer' : Buffer) × (append st buffer n ≡ ok (st', buffer'))
      × Holds st' buffer' (xs ++ (n, e) ∷ [])
      × (st'.released ≡ st.released)
      × (buffer'.max_size ≡ buffer.max_size)
unfolding append
append-Holds st buffer xs n e holds ne apart new bound =
    let (t, f, l, old, grown) = last-Linked st xs n e ne holds.linked holds.distinct apart new in
    let tail : buffer.tail ≡ some t = holds.tail ∙ l in
    (
      put st t (some (cell f (some n))),
      record buffer { tail = some n; current_size = (buffer.current_size + 1) % 2 ^ size_bits },
      rw (append, tail, fetch_found st t old) refl,
      record {
        linked = grown;
        distinct = Distinct-append xs n e apart holds.distinct;
        head = holds.head ∙ sym (first-append xs n e ne);
        tail = sym (last-append xs n e);
        counted =
            let count = holds.counted in let len = length-append xs ((n, e) ∷ []) in omega arith;
      },
      refl,
      refl,
    )

pub evict-Holds :
    (st : Store) (buffer : Buffer) (a : ℕ) (e : Entry) (xs : List Placed)
    → Holds st buffer ((a, e) ∷ xs)
    → buffer.current_size ≡ buffer.max_size
    → ¬ (xs ≡ [])
    → (buffer' : Buffer) × (evict st buffer ≡ ok (free_node st a (cell e (first xs)), buffer'))
      × Holds (free_node st a (cell e (first xs))) buffer' xs
      × (buffer'.max_size ≡ buffer.max_size)
unfolding evict
evict-Holds st buffer a e xs holds full ne =
    let (here, linked) = holds.linked in
    let (alone, distinct) = holds.distinct in
    let freed = free_node st a (cell e (first xs)) in
    let head = holds.head in
    let test : (buffer.current_size == buffer.max_size) ≡ true = ground arith in
    (
      record buffer { head = first xs; current_size = buffer.current_size - 1 },
      rw (evict, test, head, fetch_found st a here) refl,
      record {
        linked =
            Linked-same (put st a none) freed xs (free_node_cells st a (cell e (first xs)))
              (Linked-put st a none xs alone linked);
        distinct = distinct;
        head = refl;
        tail = holds.tail ∙ last-cons (a, e) xs ne;
        counted = let count = holds.counted in omega arith;
      },
      refl,
    )
