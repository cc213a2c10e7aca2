-- ===== src/Ring/Destroy.antt =====
-- `rb_destroy` frees every node of a buffer and the payloads that they own.
use librustyaxe.Prelude.{
  ℕ, not, ◌&&◌, none, some, List, [], ◌∷◌, ◌++◌, ◌≡◌, refl, ap, ◌∙◌, inl, inr, arith, ◌==◌, All,
  length, Bool-cases,
}
use librustyaxe.Ring.Types.{Buffer, Store, put, ok}
use librustyaxe.Ring.Buffer.{free_node, destroy_nodes, rb_destroy}
use librustyaxe.Ring.Chain.{
  Entry, Placed, cell, first, Linked, Apart, Distinct, Holds, Linked-put, Linked-same,
}
use librustyaxe.Ring.Evict.{owned, free_node_cells, free_node_released}

-- The payloads in the order of the list, the last one on top.
abbrev pub push_all : List ℕ → List ℕ → List ℕ
push_all [] stack = stack
push_all (x ∷ xs) stack = push_all xs (x ∷ stack)

-- What is left of the store once the nodes `xs` are freed.
pub record Freed (st : Store) (xs : List Placed) (st' : Store) : Type 0 where
  pub gone : All (λ (a, e). st'.cells a ≡ none) xs
  pub others : (b : ℕ) → Apart b xs → st'.cells b ≡ st.cells b
  pub released : st'.released ≡ push_all (owned xs) st.released

owned_push :
    (a : ℕ) (e : Entry) (xs : List Placed) (stack : List ℕ)
    → push_all (owned xs) (owned ((a, e) ∷ []) ++ stack) ≡ push_all (owned ((a, e) ∷ xs)) stack
owned_push a e xs stack = elim (Bool-cases (e.needs_freed && not (e.payload == 0))) [
  | inl h ↦ rw h refl
  | inr h ↦ rw h refl
]

destroy_nodes-Freed :
    (st : Store) (xs : List Placed)
    → Linked st xs
    → Distinct xs
    → (st' : Store) × (destroy_nodes (length xs) st (first xs) ≡ ok st') × Freed st xs st'
unfolding destroy_nodes
destroy_nodes-Freed st [] linked distinct =
    (st, refl, record { gone = tt; others = λ b apart. refl; released = refl })
destroy_nodes-Freed st ((a, e) ∷ xs) (found, linked) (alone, distinct) =
    let freed = free_node st a (cell e (first xs)) in
    let cells = free_node_cells st a (cell e (first xs)) in
    let rest = Linked-same (put st a none) freed xs cells (Linked-put st a none xs alone linked) in
    let (st', run, done) = destroy_nodes-Freed freed xs rest distinct in
    (
      st',
      rw (destroy_nodes, found, run) refl,
      record {
        gone = (done.others a alone ∙ ap (λ f. f a) cells ∙ ground arith, done.gone);
        others = λ b (ne, apart). done.others b apart ∙ ap (λ f. f b) cells ∙ ground arith;
        released =
            done.released
            ∙ ap (push_all (owned xs)) (free_node_released st a e (first xs))
            ∙ owned_push a e xs st.released;
      },
    )

-- `rb_destroy` of a buffer frees each of its nodes, no other node, and the payloads that the entries
-- own, each once and in the order of the buffer.
pub rb_destroy-Freed :
    (st : Store) (buffer : Buffer) (xs : List Placed)
    → Holds st buffer xs
    → (st' : Store) × (rb_destroy st (some buffer) ≡ ok st') × Freed st xs st'
unfolding rb_destroy
rb_destroy-Freed st buffer xs holds =
    let size = holds.counted in
    let head = holds.head in
    let (st', run, freed) = destroy_nodes-Freed st xs holds.linked holds.distinct in
    (st', rw (rb_destroy, size, head) run, freed)
