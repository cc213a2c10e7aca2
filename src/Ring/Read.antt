-- ===== src/Ring/Read.antt =====
-- The readers of a ring buffer: a range of payloads, and the entry of the latest time.
use librustyaxe.Prelude.{
  ℕ, zero, suc, ◌+◌, ◌≤◌, ◌<◌, ◌^◌, Bool, true, false, ◌&&◌, ◌||◌, Option, none, some, List, [],
  ◌∷◌, ◌≡◌, refl, ◌⊎◌, inl, inr, arith, ◌==◌, leb, ltb, if◌then◌else◌, All, length, take, drop,
  Bool-cases, pos, length-drop,
}
use librustyaxe.Ring.Types.{Time, Buffer, Store, ok}
use librustyaxe.Ring.Buffer.{skip, collect, rb_get_range, after, latest, rb_get_most_recent}
use librustyaxe.Ring.Chain.{Entry, Placed, cell, first, Linked, Holds, fetch_found}

abbrev pub payloads : List Placed → List ℕ
payloads [] = []
payloads ((a, e) ∷ xs) = e.payload ∷ payloads xs

skip-drop :
    (st : Store) (i : ℕ) (xs : List Placed)
    → Linked st xs
    → i ≤ length xs
    → (skip i st (first xs) ≡ ok (first (drop i xs))) × Linked st (drop i xs)
unfolding skip
skip-drop st zero xs linked h = (refl, linked)
skip-drop st (suc i) [] linked h = absurd (omega arith)
skip-drop st (suc i) ((a, e) ∷ xs) (here, linked) h =
    let (run, rest) = skip-drop st i xs linked (omega arith) in
    (rw (skip, fetch_found st a here, run) refl, rest)

collect-take :
    (st : Store) (i : ℕ) (xs : List Placed)
    → Linked st xs
    → i ≤ length xs
    → collect i st (first xs) ≡ ok (payloads (take i xs))
unfolding collect
collect-take st zero xs linked h = refl
collect-take st (suc i) [] linked h = absurd (omega arith)
collect-take st (suc i) ((a, e) ∷ xs) (here, linked) h =
    rw (collect, fetch_found st a here, collect-take st i xs linked (omega arith)) refl

no_overflow : (n : ℕ) → n < 2 ^ 31 → leb (2 ^ 31) n ≡ false
no_overflow n h = ground arith

range_bounds :
    (size start count : ℕ)
    → (leb 1 count && leb (start + count) size) ≡ true
    → (1 ≤ count) × (start + count ≤ size)
range_bounds size start count h = ground arith

-- The three ways through the tests of a range.
abbrev refused : ℕ → ℕ → ℕ → Bool
refused size start count = size == 0 || leb size start || ltb count 1

range_tests :
    (size start count : ℕ)
    → (((leb 1 count && leb (start + count) size) ≡ true)
        × (refused size start count ≡ false)
        × (ltb size (start + count) ≡ false))
      ⊎ (((leb 1 count && leb (start + count) size) ≡ false) × (refused size start count ≡ true))
      ⊎ (((leb 1 count && leb (start + count) size) ≡ false)
          × (refused size start count ≡ false)
          × (ltb size (start + count) ≡ true))
range_tests size start count = ground arith

-- Of a buffer with the entries `xs`, `rb_get_range` with memory returns the payloads of the `count`
-- entries from the entry `start` on where there are that many and `count` is not 0, and NULL
-- otherwise, if the sum of the two is no overflow.
pub rb_get_range-payloads :
    (st : Store) (buffer : Buffer) (xs : List Placed) (start count : ℕ)
    → Holds st buffer xs
    → start + count < 2 ^ 31
    → rb_get_range true st buffer (pos start) (pos count)
      ≡ ok (
          if leb 1 count && leb (start + count) (length xs)
          then some (payloads (take count (drop start xs)))
          else none)
unfolding rb_get_range
rb_get_range-payloads st buffer xs start count holds small =
    let size = holds.counted in
    let head = holds.head in
    let room : leb (2 ^ 31) (start + count) ≡ false = no_overflow (start + count) small in
    elim (range_tests (length xs) start count) [
      | inl (inside, guard, fits) ↦
          let le = range_bounds (length xs) start count inside in
          let (walk, rest) = skip-drop st start xs holds.linked (omega arith) in
          let left = length-drop start xs in
          let copied = collect-take st count (drop start xs) rest (omega arith) in
          rw (rb_get_range, size, guard, room, fits, head, walk, copied, inside) refl
      | inr (inl (outside, guard)) ↦ rw (rb_get_range, size, guard, outside) refl
      | inr (inr (outside, guard, over)) ↦ rw (rb_get_range, size, guard, room, over, outside) refl
    ]

abbrev pub AfterNone : Entry → List Placed → Type 0
AfterNone f xs = All (λ (b, e). after e.timestamp f.timestamp ≡ false) xs

-- The address and the entry of one of a list.
pub data Among (a : ℕ) (e : Entry) : List Placed → Type 0 where
  here : {xs : List Placed} → Among a e ((a, e) ∷ xs)
  there : {x : Placed} {xs : List Placed} → Among a e xs → Among a e (x ∷ xs)

Among-second :
    {b a c : ℕ} {f e g : Entry} {xs : List Placed}
    → Among b f ((a, e) ∷ xs)
    → Among b f ((a, e) ∷ (c, g) ∷ xs)
Among-second here = here
Among-second (there among) = there (there among)

after_chain : (a b c : Time) → after b a ≡ true → after b c ≡ false → after a c ≡ false
after_chain a b c h k = ground arith

after_below : (a b c : Time) → after b a ≡ false → after a c ≡ false → after b c ≡ false
after_below a b c h k = ground arith

after_self : (a : Time) → after a a ≡ false
after_self a = ground arith

latest-Among :
    (st : Store) (xs : List Placed) (a : ℕ) (e : Entry) (next : Option ℕ)
    → Linked st xs
    → (b : ℕ) × (f : Entry) × (latest (length xs) st (first xs) a (cell e next) ≡ ok b)
      × Among b f ((a, e) ∷ xs)
      × AfterNone f ((a, e) ∷ xs)
unfolding latest
latest-Among st [] a e next linked = (a, e, refl, here, (ground arith, tt))
latest-Among st ((c, g) ∷ xs) a e next (found, linked) =
    elim (Bool-cases (after g.timestamp e.timestamp)) [
      | inl newer ↦
          let (b, f, run, among, (top, none_after)) = latest-Among st xs c g (first xs) linked in
          (
            b,
            f,
            rw (latest, found, newer, run) refl,
            there among,
            (after_chain e.timestamp g.timestamp f.timestamp newer top, (top, none_after)),
          )
      | inr older ↦
          let (b, f, run, among, (top, none_after)) = latest-Among st xs a e next linked in
          (
            b,
            f,
            rw (latest, found, older, run) refl,
            Among-second among,
            (top, (after_below e.timestamp g.timestamp f.timestamp older top, none_after)),
          )
    ]

-- `rb_get_most_recent` returns a node of a buffer that has one, and the time of no other is after its
-- time; it returns NULL for an empty buffer.
pub rb_get_most_recent-Among :
    (st : Store) (buffer : Buffer) (xs : List Placed)
    → Holds st buffer xs
    → ((xs ≡ []) × (rb_get_most_recent st (some buffer) ≡ ok none))
      ⊎ ((b : ℕ) × (f : Entry) × (rb_get_most_recent st (some buffer) ≡ ok (some b))
          × Among b f xs
          × AfterNone f xs)
unfolding rb_get_most_recent latest
rb_get_most_recent-Among st buffer [] holds =
    let size = holds.counted in inl (refl, rw (rb_get_most_recent, size) refl)
rb_get_most_recent-Among st buffer ((a, e) ∷ xs) holds =
    let size = holds.counted in
    let head = holds.head in
    let (found, linked) = holds.linked in
    let (b, f, run, among, (top, none_after)) = latest-Among st xs a e (first xs) linked in
    let same = after_self e.timestamp in
    let filled : (buffer.current_size == 0) ≡ false = rw size (ground arith) in
    let loop : latest (length ((a, e) ∷ xs)) st (some a) a (cell e (first xs)) ≡ ok b =
      rw (latest, found, same) run in
    inr (
      b,
      f,
      rw (rb_get_most_recent, filled, head, fetch_found st a found, size, loop) refl,
      among,
      (top, none_after),
    )
