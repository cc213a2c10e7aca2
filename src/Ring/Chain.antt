-- ===== src/Ring/Chain.antt =====
-- The chain of nodes that a ring buffer's pointers make, and what writes to the store do to it.
use librustyaxe.Prelude.{
  ℕ, Bool, Option, none, some, List, [], ◌∷◌, ◌++◌, ◌≡◌, refl, sym, ap, ◌∙◌, ◌≢◌, arith, All,
  length,
}
use librustyaxe.Ring.Types.{Time, Node, Buffer, Store, put, fetch, ok}

-- What a caller put into a node, without its place in the chain.
pub record Entry : Type 0 where
  pub payload : ℕ
  pub needs_freed : Bool
  pub timestamp : Time

-- An entry at the address of its node.
abbrev pub Placed : Type 0
Placed = ℕ × Entry

abbrev pub cell : Entry → Option ℕ → Node
cell e next = record {
  payload = e.payload;
  needs_freed = e.needs_freed;
  timestamp = e.timestamp;
  next = next;
}

abbrev pub first : List Placed → Option ℕ
first [] = none
first ((a, e) ∷ xs) = some a

abbrev pub last : List Placed → Option ℕ
last [] = none
last ((a, e) ∷ []) = some a
last (x ∷ y ∷ xs) = last (y ∷ xs)

-- Every node is where the one before it points.
abbrev pub Linked : Store → List Placed → Type 0
Linked st [] = Unit
Linked st ((a, e) ∷ xs) = (st.cells a ≡ some (cell e (first xs))) × Linked st xs

abbrev pub Apart : ℕ → List Placed → Type 0
Apart a xs = All (λ (b, e). a ≢ b) xs

-- No two nodes share an address.
abbrev pub Distinct : List Placed → Type 0
Distinct [] = Unit
Distinct ((a, e) ∷ xs) = Apart a xs × Distinct xs

-- A buffer that holds the entries `xs`, the oldest first.
pub record Holds (st : Store) (buffer : Buffer) (xs : List Placed) : Type 0 where
  pub linked : Linked st xs
  pub distinct : Distinct xs
  pub head : buffer.head ≡ first xs
  pub tail : buffer.tail ≡ last xs
  pub counted : buffer.current_size ≡ length xs

pub Linked-put :
    (st : Store) (a : ℕ) (c : Option Node) (xs : List Placed)
    → Apart a xs
    → Linked st xs
    → Linked (put st a c) xs
Linked-put st a c [] apart linked = tt
Linked-put st a c ((b, e) ∷ xs) (ne, apart) (here, linked) =
    (ground arith, Linked-put st a c xs apart linked)

-- A store whose nodes are the same has the same chains, whatever was freed.
pub Linked-same :
    (st st' : Store) (xs : List Placed) → st'.cells ≡ st.cells → Linked st xs → Linked st' xs
Linked-same st st' [] e linked = tt
Linked-same st st' ((b, x) ∷ xs) e (here, linked) =
    (ap (λ f. f b) e ∙ here, Linked-same st st' xs e linked)

pub Apart-last : (a t : ℕ) (xs : List Placed) → Apart a xs → last xs ≡ some t → a ≢ t
Apart-last a t [] apart l = ground arith
Apart-last a t ((b, e) ∷ []) (ne, apart) l = λ x. ground arith
Apart-last a t ((b, e) ∷ y ∷ xs) (ne, apart) l = Apart-last a t (y ∷ xs) apart l

pub Apart-append :
    (a : ℕ) (xs : List Placed) (n : ℕ) (e : Entry)
    → Apart a xs
    → a ≢ n
    → Apart a (xs ++ (n, e) ∷ [])
Apart-append a [] n e apart ne = (ne, tt)
Apart-append a ((b, f) ∷ xs) n e (other, apart) ne = (other, Apart-append a xs n e apart ne)

pub Distinct-append :
    (xs : List Placed) (n : ℕ) (e : Entry) → Apart n xs → Distinct xs → Distinct (xs ++ (n, e) ∷ [])
Distinct-append [] n e apart distinct = (tt, tt)
Distinct-append ((b, f) ∷ xs) n e (ne, apart) (alone, distinct) =
    (Apart-append b xs n e alone (λ x. ne (sym x)), Distinct-append xs n e apart distinct)

pub last-append : (xs : List Placed) (n : ℕ) (e : Entry) → last (xs ++ (n, e) ∷ []) ≡ some n
last-append [] n e = refl
last-append (x ∷ []) n e = refl
last-append (x ∷ y ∷ xs) n e = last-append (y ∷ xs) n e

-- An address where no node was is none of the chain's.
pub Apart-fresh :
    (st : Store) (n : ℕ) (xs : List Placed) → st.cells n ≡ none → Linked st xs → Apart n xs
Apart-fresh st n [] free linked = tt
Apart-fresh st n ((b, e) ∷ xs) free (here, linked) =
    (λ x. ground arith, Apart-fresh st n xs free linked)

-- The last node of a chain, and the chain once it points to a new one.
pub last-Linked :
    (st : Store) (xs : List Placed) (n : ℕ) (e : Entry)
    → ¬ (xs ≡ [])
    → Linked st xs
    → Distinct xs
    → Apart n xs
    → st.cells n ≡ some (cell e none)
    → (t : ℕ) × (f : Entry) × (last xs ≡ some t)
      × (st.cells t ≡ some (cell f none))
      × Linked (put st t (some (cell f (some n)))) (xs ++ (n, e) ∷ [])
last-Linked st [] n e ne linked distinct apart new = absurd (ne refl)
last-Linked st ((a, f) ∷ []) n e ne (here, linked) distinct (other, apart) new =
    (a, f, refl, here, (ground arith, (ground arith, tt)))
last-Linked st ((a, f) ∷ (b, g) ∷ xs) n e ne (here, linked) (alone, distinct) (apart_a, apart) new =
    let (t, h, l, old, grown) =
      last-Linked st ((b, g) ∷ xs) n e (λ x. ground arith) linked distinct apart new in
    let other = Apart-last a t ((b, g) ∷ xs) alone l in (t, h, l, old, (ground arith, grown))

pub fetch_found :
    (st : Store) (a : ℕ) {node : Node} → st.cells a ≡ some node → fetch st (some a) ≡ ok node
fetch_found st a e = rw (fetch, e) refl

pub last-cons : (x : Placed) (xs : List Placed) → ¬ (xs ≡ []) → last (x ∷ xs) ≡ last xs
last-cons x [] ne = absurd (ne refl)
last-cons x (y ∷ xs) ne = refl
