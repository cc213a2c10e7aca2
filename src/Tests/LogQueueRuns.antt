-- ===== src/Tests/LogQueueRuns.antt =====
-- Runs of log-queue.c, and its theorems at a queue for two records.
use librustyaxe.Prelude.{
  ℕ, ◌≡◌, refl, ◌<◌, ◌++◌, ◌⊎◌, true, false, some, [], ◌∷◌, codes, arith, take, drop, length,
  get_or, ◌+◌, ◌%◌, zero, suc,
}
use librustyaxe.LogQueue.Queue.{
  LogQueue, blank, count_up, fill_record, ra_log_queue_new, ra_log_queue_push, ra_log_queue_drain,
}
use librustyaxe.LogQueue.Fifo.{
  Queued, ra_log_queue_new-Queued, ra_log_queue_push-Queued, ra_log_queue_drain-Queued,
}

-- What a test of log-queue.c computes with.
unfoldable pub queue_program : Unit {0}
unfolding ra_log_queue_new ra_log_queue_push ra_log_queue_drain
queue_program = tt

abbrev new_queue : LogQueue
new_queue = record {
  capacity = 2;
  head = 0;
  tail = 0;
  length = 0;
  dropped = 0;
  contention_dropped = 0;
  full_dropped = 0;
  records = blank ∷ blank ∷ [];
}

made : ra_log_queue_new 128 1112 true true 2 ≡ some new_queue
unfolding queue_program
made = refl

abbrev one_queued : LogQueue
unfolding queue_program
one_queued = (ra_log_queue_push false new_queue 3 (7, 0) (codes "radio") (codes "on air")).1

-- Round the array: three submissions and two deliveries in between.
wrapped :
    let q = one_queued in
    let (items, q) = ra_log_queue_drain q 5 in
    let (a, q) = ra_log_queue_push false q 4 (8, 0) (codes "radio") (codes "one") in
    let (b, q) = ra_log_queue_push false q 4 (9, 0) (codes "radio") (codes "two") in
    let (c, q) = ra_log_queue_push false q 4 (9, 5) (codes "radio") (codes "three") in
    let (items, q) = ra_log_queue_drain q 5 in
    (c ≡ false)
    × (items
        ≡ fill_record 4 (8, 0) (codes "radio") (codes "one")
          ∷ fill_record 4 (9, 0) (codes "radio") (codes "two")
          ∷ [])
    × (q.full_dropped ≡ 1)
unfolding queue_program
wrapped = (refl, refl, refl)

new_queue-Queued : Queued new_queue [] × (new_queue.capacity ≡ 2)
new_queue-Queued = ra_log_queue_new-Queued 128 1112 2 true true made

first_item :
    (i : ℕ)
    → i < 1
    → get_or one_queued.records (i % 2) blank
      ≡ get_or (fill_record 3 (7, 0) (codes "radio") (codes "on air") ∷ []) i blank
unfolding queue_program
first_item zero h = refl
first_item (suc i) h = absurd (omega arith)

one-Queued : Queued one_queued (fill_record 3 (7, 0) (codes "radio") (codes "on air") ∷ [])
unfolding queue_program
one-Queued = record {
  room = omega arith;
  sized = refl;
  head = omega arith;
  tail = refl;
  counted = refl;
  fits = omega arith;
  items = λ i h. (let none_added : 0 + i ≡ i = omega arith in rw none_added (first_item i h));
}

ra_log_queue_push-Queued_example :
    let first = fill_record 3 (7, 0) (codes "radio") (codes "on air") in
    let (pushed, q') = ra_log_queue_push false one_queued 4 (8, 0) (codes "radio") (codes "two") in
    ((pushed ≡ true)
      × (length (first ∷ []) < one_queued.capacity)
      × Queued q' ((first ∷ []) ++ fill_record 4 (8, 0) (codes "radio") (codes "two") ∷ []))
    ⊎ ((pushed ≡ false)
        × (length (first ∷ []) ≡ one_queued.capacity)
        × Queued q' (first ∷ [])
        × (q'.full_dropped ≡ count_up one_queued.full_dropped))
ra_log_queue_push-Queued_example =
    ra_log_queue_push-Queued one_queued (fill_record 3 (7, 0) (codes "radio") (codes "on air") ∷ [])
      4 (8, 0) (codes "radio") (codes "two") one-Queued

ra_log_queue_drain-Queued_example :
    let xs = fill_record 3 (7, 0) (codes "radio") (codes "on air") ∷ [] in
    ((ra_log_queue_drain one_queued 5).0 ≡ take 5 xs)
    × Queued (ra_log_queue_drain one_queued 5).1 (drop 5 xs)
ra_log_queue_drain-Queued_example =
    ra_log_queue_drain-Queued 5 one_queued
      (fill_record 3 (7, 0) (codes "radio") (codes "on air") ∷ []) one-Queued
