-- ===== src/LogQueue/Fifo.antt =====
-- The circular array as a queue: records are delivered in the order of their submission.
use librustyaxe.Prelude.{
  ℕ, zero, suc, ◌+◌, ◌-◌, ◌*◌, ◌%◌, ◌≤◌, ◌<◌, Bool, true, false, List, [], ◌∷◌, ◌++◌, ◌==◌, leb,
  if◌then◌else◌, take, drop, get_or, set, length, length-append, length-set, get_or-set, ◌≡◌, refl,
  sym, ap, ◌∙◌, ◌≢◌, ◌⊎◌, ◌/◌, ◌^◌, ◌||◌, ◌&&◌, not, ltb, some, guard-eq-some, some-injective,
  length-replicate, arith, Bool-cases, inl, inr, Bytes,
}
use native.Mathlib.Nat.{zero-mod, mod-eq_of_lt, mod-lt, add-mul-mod_self_left}
use librustyaxe.LogQueue.Queue.{
  ra_log_queue_new, LogRecord, LogQueue, blank, count_up, fill_record, ra_log_queue_push,
  ra_log_queue_drain,
}

-- A queue with the records `xs`, the oldest first.
pub record Queued (q : LogQueue) (xs : List LogRecord) : Type 0 where
  pub room : 0 < q.capacity
  pub sized : length q.records ≡ q.capacity
  pub head : q.head < q.capacity
  pub tail : q.tail ≡ (q.head + length xs) % q.capacity
  pub counted : q.length ≡ length xs
  pub fits : length xs ≤ q.capacity
  pub items :
      (i : ℕ)
      → i < length xs
      → get_or q.records ((q.head + i) % q.capacity) blank ≡ get_or xs i blank

-- A queue that `ra_log_queue_new` makes has the capacity that was asked for and no records.
pub ra_log_queue_new-Queued :
    (header each capacity : ℕ) (granted locked : Bool) {q : LogQueue}
    → ra_log_queue_new header each granted locked capacity ≡ some q
    → Queued q [] × (q.capacity ≡ capacity)
unfolding ra_log_queue_new
ra_log_queue_new-Queued header each capacity granted locked h =
    let (sane, h) =
      guard-eq-some (capacity == 0 || ltb ((2 ^ 64 - 1 - header) / each) capacity) _ h in
    let (_, h) = guard-eq-some (not (granted && locked)) _ h in
    let positive : 0 < capacity = ground arith in
    rw (sym (some-injective h)) (
      record {
        room = positive;
        sized = length-replicate capacity blank;
        head = positive;
        tail = sym (zero-mod capacity);
        counted = refl;
        fits = omega arith;
        items = λ i k. absurd (omega arith);
      },
      refl,
    )

-- A remainder of a sum of two numbers below the modulus.
mod_wrap : (c a : ℕ) → a < c + c → a % c ≡ (if leb c a then a - c else a)
mod_wrap c a h = elim (Bool-cases (leb c a)) [
  | inl le ↦
      let above : c ≤ a = ground arith in
      let split : a ≡ (a - c) + c * 1 = omega arith in
      rw le (ap (λ x. x % c) split ∙ add-mul-mod_self_left (a - c) c 1 ∙ mod-eq_of_lt (omega arith))
  | inr lt ↦ let under : a < c = ground arith in rw lt (mod-eq_of_lt under)
]

slots_differ : (c h i n : ℕ) → h < c → i < n → n < c → (h + i) % c ≢ (h + n) % c
slots_differ c h i n p q r =
    let left = mod_wrap c (h + i) (omega arith) in
    let right = mod_wrap c (h + n) (omega arith) in λ e. ground arith

tail_slot :
    (c h n m t : ℕ) → h < c → n < c → t ≡ (h + n) % c → m ≡ n + 1 → (t + 1) % c ≡ (h + m) % c
tail_slot c h n m t p q e k =
    let last = mod_wrap c (h + n) (omega arith) in
    let sum = mod_wrap c (h + (n + 1)) (omega arith) in
    let low = mod_wrap c ((h + n) % c + 1) (ground arith) in rw (e, k) (ground arith)

next_slot : (c h i : ℕ) → h < c → i < c → ((h + 1) % c + i) % c ≡ (h + (i + 1)) % c
next_slot c h i p q =
    let one = mod_wrap c (h + 1) (omega arith) in
    let sum = mod_wrap c (h + (i + 1)) (omega arith) in
    let low = mod_wrap c ((h + 1) % c + i) (ground arith) in ground arith

get_or-append :
    (xs : List LogRecord) (x : LogRecord) (i : ℕ)
    → i ≤ length xs
    → get_or (xs ++ x ∷ []) i blank ≡ (if i == length xs then x else get_or xs i blank)
get_or-append [] x zero h = refl
get_or-append [] x (suc i) h = absurd (omega arith)
get_or-append (y ∷ xs) x zero h = ground arith
get_or-append (y ∷ xs) x (suc i) h = let rest = get_or-append xs x i (omega arith) in ground arith

differ_false : (m n : ℕ) → m ≢ n → (m == n) ≡ false
differ_false m n h = ground arith

-- What a submission of the record `r` leaves.
push-items :
    (q : LogQueue) (xs : List LogRecord) (r : LogRecord)
    → Queued q xs
    → length xs < q.capacity
    → (i : ℕ) → i < length (xs ++ r ∷ [])
    → get_or (set q.records q.tail r) ((q.head + i) % q.capacity) blank
      ≡ get_or (xs ++ r ∷ []) i blank
push-items q xs r queued room i h =
    let len = length-append xs (r ∷ []) in
    let tail = queued.tail in
    let sized = queued.sized in
    let inside = mod-lt (q.head + length xs) queued.room in
    let write = get_or-set q.records q.tail ((q.head + i) % q.capacity) r blank (omega arith) in
    let read = get_or-append xs r i (omega arith) in
    elim (Bool-cases (i == length xs)) [
      | inl last ↦
          let same : i ≡ length xs = ground arith in
          let hit : (q.tail == (q.head + i) % q.capacity) ≡ true = rw (same, tail) (ground arith) in
          write ∙ rw (hit, read, last) refl
      | inr early ↦
          let before : i < length xs = ground arith in
          let apart = slots_differ q.capacity q.head i (length xs) queued.head before room in
          let miss : (q.tail == (q.head + i) % q.capacity) ≡ false =
            rw tail (differ_false _ _ (λ e. apart (sym e))) in
          write ∙ rw (miss, read, early) (queued.items i before)
    ]

-- `ra_log_queue_push` to a queue with the records `xs` that another thread does not hold puts the
-- record, as it is cut, behind them if there is room, and otherwise leaves them alone, says so and counts the
-- record as dropped from a full queue.
pub ra_log_queue_push-Queued :
    (q : LogQueue) (xs : List LogRecord) (level : ℕ) (now : ℕ × ℕ) (subsys message : Bytes)
    → Queued q xs
    → let (pushed, q') = ra_log_queue_push false q level now subsys message in
      ((pushed ≡ true)
        × (length xs < q.capacity)
        × Queued q' (xs ++ fill_record level now subsys message ∷ []))
      ⊎ ((pushed ≡ false)
          × (length xs ≡ q.capacity)
          × Queued q' xs
          × (q'.full_dropped ≡ count_up q.full_dropped))
unfolding ra_log_queue_push
ra_log_queue_push-Queued q xs level now subsys message queued =
    let count = queued.counted in
    let fits = queued.fits in
    let r = fill_record level now subsys message in
    let len = length-append xs (r ∷ []) in
    elim (Bool-cases (q.length == q.capacity)) [
      | inl full ↦
          let same : length xs ≡ q.capacity = ground arith in
          rw (ra_log_queue_push, full)
            (inr (
              refl,
              same,
              record {
                room = queued.room;
                sized = queued.sized;
                head = queued.head;
                tail = queued.tail;
                counted = queued.counted;
                fits = queued.fits;
                items = queued.items;
              },
              refl,
            ))
      | inr free ↦
          let room : length xs < q.capacity = ground arith in
          rw (ra_log_queue_push, free)
            (inl (
              refl,
              room,
              record {
                room = queued.room;
                sized = length-set q.records q.tail r ∙ queued.sized;
                head = queued.head;
                tail =
                    tail_slot q.capacity q.head (length xs) (length (xs ++ r ∷ [])) q.tail
                      queued.head room queued.tail len;
                counted = omega arith;
                fits = omega arith;
                items = push-items q xs r queued room;
              },
            ))
    ]

popped :
    (q : LogQueue) (x : LogRecord) (xs : List LogRecord)
    → Queued q (x ∷ xs)
    → Queued (record q { head = (q.head + 1) % q.capacity; length = q.length - 1 }) xs
popped q x xs queued =
    let count = queued.counted in
    let fits = queued.fits in
    let last : q.head + suc (length xs) ≡ q.head + (length xs + 1) = omega arith in
    record {
      room = queued.room;
      sized = queued.sized;
      head = mod-lt (q.head + 1) queued.room;
      tail =
          queued.tail
          ∙ ap (λ k. k % q.capacity) last
          ∙ sym (next_slot q.capacity q.head (length xs) queued.head (omega arith));
      counted = omega arith;
      fits = omega arith;
      items = λ i h.
          let step : q.head + (i + 1) ≡ q.head + suc i = omega arith in
          ap (λ k. get_or q.records k blank)
            (next_slot q.capacity q.head i queued.head (omega arith))
          ∙ ap (λ k. get_or q.records (k % q.capacity) blank) step
          ∙ queued.items (suc i) (omega arith);
    }

-- `ra_log_queue_drain` of at most `n` records of a queue delivers its `n` oldest records, or all if
-- there are fewer, in the order of their submission, and leaves the others.
pub ra_log_queue_drain-Queued :
    (n : ℕ) (q : LogQueue) (xs : List LogRecord)
    → Queued q xs
    → ((ra_log_queue_drain q n).0 ≡ take n xs) × Queued (ra_log_queue_drain q n).1 (drop n xs)
unfolding ra_log_queue_drain
ra_log_queue_drain-Queued zero q xs queued = (refl, queued)
ra_log_queue_drain-Queued (suc n) q [] queued =
    let count = queued.counted in
    let empty : (q.length == 0) ≡ true = ground arith in
    rw (ra_log_queue_drain, empty) (refl, queued)
ra_log_queue_drain-Queued (suc n) q (x ∷ xs) queued =
    let count = queued.counted in
    let some_left : (q.length == 0) ≡ false = ground arith in
    let first = queued.items 0 (omega arith) in
    let at_head : (q.head + 0) % q.capacity ≡ q.head =
      (let none_added : q.head + 0 ≡ q.head = omega arith in
        ap (λ k. k % q.capacity) none_added ∙ mod-eq_of_lt queued.head) in
    let shrunk : LogQueue = record q { head = (q.head + 1) % q.capacity; length = q.length - 1 } in
    let (delivered, left) = ra_log_queue_drain-Queued n shrunk xs (popped q x xs queued) in
    rw (ra_log_queue_drain, some_left)
      (
        ap (λ y. y ∷ (ra_log_queue_drain shrunk n).0)
              (ap (λ k. get_or q.records k blank) (sym at_head) ∙ first)
            ∙ ap (λ t. x ∷ t) delivered,
        left,
      )
