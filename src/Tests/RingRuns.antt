-- ===== src/Tests/RingRuns.antt =====
-- Runs of ringbuffer.c, and its theorems at the buffers that they reach.
use librustyaxe.Prelude.{
  ℕ, ◌+◌, ◌≡◌, refl, true, none, some, List, [], ◌∷◌, arith, pos, codes, leb, ◌&&◌, if◌then◌else◌,
  ◌⊎◌, take, drop, length,
}
use librustyaxe.Ring.Types.{Buffer, Store, Outcome, ok, fault, and_then}
use librustyaxe.Ring.Buffer.{
  rb_create, free_node, evict, append, rb_add, latest, rb_get_most_recent, skip, collect,
  rb_get_range, destroy_nodes, rb_destroy,
}
use librustyaxe.Ring.Chain.{Entry, Placed, Holds}
use librustyaxe.Ring.Add.{Adds, rb_add-Adds, rb_add_single}
use librustyaxe.Ring.Read.{
  payloads, rb_get_range-payloads, Among, AfterNone, rb_get_most_recent-Among,
}
use librustyaxe.Ring.Destroy.{Freed, rb_destroy-Freed}

-- What a test of ringbuffer.c computes with.
unfoldable pub ring_program : Unit {0}
unfolding rb_create free_node evict append rb_add latest rb_get_most_recent skip collect
    rb_get_range destroy_nodes rb_destroy
ring_program = tt

abbrev empty_store : Store
empty_store = record { cells = λ a. none; released = [] }

abbrev entry : ℕ → ℕ → Entry
entry payload seconds = record {
  payload = payload;
  needs_freed = true;
  timestamp = record { tv_sec = seconds; tv_nsec = 0 };
}

abbrev of_size : ℕ → Buffer
of_size n = record {
  max_size = n;
  current_size = 0;
  head = none;
  tail = none;
  name = codes "audio";
}

created : rb_create true (pos 2) (some (codes "audio")) ≡ ok (of_size 2)
unfolding ring_program
created = refl

-- A name of more than eight bytes loses its end.
cut_name :
    rb_create true (pos 2) (some (codes "audio-output"))
    ≡ ok (record (of_size 2) { name = codes "audio-ou" })
unfolding ring_program
cut_name = refl

abbrev State : Type 0
State = ℕ × Store × Buffer

abbrev add : Entry → ℕ → State → Outcome State
unfolding ring_program
add e n (last, st, buffer) = rb_add st buffer e.payload e.needs_freed e.timestamp (some n)

abbrev after_three : Outcome State
unfolding ring_program
after_three =
    and_then (add (entry 70 5) 1 (0, empty_store, of_size 2))
      (λ s. and_then (add (entry 71 9) 2 s) (λ s. add (entry 72 7) 3 s))

-- The third entry of a buffer for two pushes the first one out.
third :
    and_then after_three (λ (n, st, buffer). rb_get_range true st buffer (pos 0) (pos 2))
    ≡ ok (some (71 ∷ 72 ∷ []))
unfolding ring_program
third = refl

third_freed : and_then after_three (λ (n, st, buffer). ok st.released) ≡ ok (70 ∷ [])
unfolding ring_program
third_freed = refl

third_recent :
    and_then after_three (λ (n, st, buffer). rb_get_most_recent st (some buffer)) ≡ ok (some 2)
unfolding ring_program
third_recent = refl

-- Two entries in a buffer for `size`.
abbrev two : List Placed
two = (1, entry 70 5) ∷ (2, entry 71 9) ∷ []

abbrev two_store : Store
unfolding ring_program
two_store =
    elim (and_then (add (entry 70 5) 1 (0, empty_store, of_size 2)) (λ s. add (entry 71 9) 2 s)) [
      | ok (n, st, buffer) ↦ st
      | _ ↦ empty_store
    ]

abbrev two_buffer : Buffer
two_buffer = record (of_size 2) { current_size = 2; head = some 1; tail = some 2 }

two-Holds : Holds two_store two_buffer two
unfolding ring_program
two-Holds = record {
  linked = (refl, (refl, tt));
  distinct = ((λ e. omega arith, tt), (tt, tt));
  head = refl;
  tail = refl;
  counted = refl;
}

three_free : two_store.cells 3 ≡ none
unfolding ring_program
three_free = refl

rb_add-Adds_example :
    (st' : Store) × (buffer' : Buffer) × (rb_add two_store two_buffer 72 true
        (record { tv_sec = 7; tv_nsec = 0 })
        (some 3)
      ≡ ok (3, st', buffer'))
    × Adds two_store two_buffer two 3 (entry 72 7) st' buffer'
rb_add-Adds_example =
    rb_add-Adds two_store two_buffer two 3 (entry 72 7) two-Holds (omega arith) (omega arith)
      (omega arith) three_free

-- One entry in a buffer for one.
abbrev one_store : Store
unfolding ring_program
one_store = elim (add (entry 70 5) 1 (0, empty_store, of_size 1)) [
  | ok (n, st, buffer) ↦ st
  | _ ↦ empty_store
]

abbrev one_buffer : Buffer
one_buffer = record (of_size 1) { current_size = 1; head = some 1; tail = some 1 }

one-Holds : Holds one_store one_buffer ((1, entry 70 5) ∷ [])
unfolding ring_program
one-Holds = record {
  linked = (refl, tt);
  distinct = (tt, tt);
  head = refl;
  tail = refl;
  counted = refl;
}

two_free : one_store.cells 2 ≡ none
unfolding ring_program
two_free = refl

rb_add_single_example :
    rb_add one_store one_buffer 71 true (record { tv_sec = 9; tv_nsec = 0 }) (some 2) ≡ fault
rb_add_single_example =
    rb_add_single one_store one_buffer 1 2 (entry 70 5) (entry 71 9) one-Holds refl two_free

rb_get_range-payloads_example :
    rb_get_range true two_store two_buffer (pos 1) (pos 1)
    ≡ ok (
        if leb 1 1 && leb (1 + 1) (length two) then some (payloads (take 1 (drop 1 two))) else none)
rb_get_range-payloads_example =
    rb_get_range-payloads two_store two_buffer two 1 1 two-Holds (omega arith)

rb_get_most_recent-Among_example :
    ((two ≡ []) × (rb_get_most_recent two_store (some two_buffer) ≡ ok none))
    ⊎ ((b : ℕ) × (f : Entry) × (rb_get_most_recent two_store (some two_buffer) ≡ ok (some b))
        × Among b f two
        × AfterNone f two)
rb_get_most_recent-Among_example = rb_get_most_recent-Among two_store two_buffer two two-Holds

rb_destroy-Freed_example :
    (st' : Store) × (rb_destroy two_store (some two_buffer) ≡ ok st') × Freed two_store two st'
rb_destroy-Freed_example = rb_destroy-Freed two_store two_buffer two two-Holds
