-- ===== src/LogQueue/Queue.antt =====
-- The operations of log-queue.c. The clock and whether the lock is taken are arguments; the records
-- that are delivered are a result.
use librustyaxe.Prelude.{
  ℕ, zero, suc, ◌+◌, ◌-◌, ◌%◌, ◌/◌, ◌^◌, ◌||◌, ◌&&◌, not, ltb, Bool, true, false, Option, none,
  some, List, [], ◌∷◌, Bytes, ◌==◌, if◌then◌else◌, take, get_or, set, replicate,
}

-- `ra_log_record_t`; the time is that of the submission.
pub record LogRecord : Type 0 where
  pub level : ℕ
  pub submitted : ℕ × ℕ
  pub subsystem : Bytes
  pub message : Bytes

abbrev pub blank : LogRecord
blank = record { level = 0; submitted = (0, 0); subsystem = []; message = [] }

-- `struct ra_log_queue`
pub record LogQueue : Type 0 where
  pub capacity : ℕ
  pub head : ℕ
  pub tail : ℕ
  pub length : ℕ
  pub dropped : ℕ
  pub contention_dropped : ℕ
  pub full_dropped : ℕ
  pub records : List LogRecord

-- `atomic_fetch_add_explicit` of 1 to a counter of 64 bits
abbrev pub count_up : ℕ → ℕ
count_up n = (n + 1) % 2 ^ 64

-- A record as `snprintf` cuts it to the arrays of 64 and 1024 bytes.
abbrev pub fill_record : ℕ → ℕ × ℕ → Bytes → Bytes → LogRecord
fill_record level now subsys message = record {
  level = level;
  submitted = now;
  subsystem = take 63 subsys;
  message = take 1023 message;
}

-- `header` and `each` are the sizes of the structure and of a record; `granted` and `locked` say
-- whether the allocation and the initialisation of the lock succeed.
unfoldable pub ra_log_queue_new : ℕ → ℕ → Bool → Bool → ℕ → Option LogQueue
ra_log_queue_new header each granted locked capacity =
    if capacity == 0 || ltb ((2 ^ 64 - 1 - header) / each) capacity
    then none
    else if not (granted && locked)
    then none
    else some (record {
      capacity = capacity;
      head = 0;
      tail = 0;
      length = 0;
      dropped = 0;
      contention_dropped = 0;
      full_dropped = 0;
      records = replicate capacity blank;
    })

-- The calls of a queue that is not NULL, with strings that are not; `busy` says whether another thread
-- has the lock. The result, and the queue that the call leaves.
unfoldable pub ra_log_queue_push : Bool → LogQueue → ℕ → ℕ × ℕ → Bytes → Bytes → Bool × LogQueue
ra_log_queue_push busy q level now subsys message =
    if busy
    then (
      false,
      record q { contention_dropped = count_up q.contention_dropped; dropped = count_up q.dropped },
    )
    else if q.length == q.capacity
    then (false, record q { full_dropped = count_up q.full_dropped; dropped = count_up q.dropped })
    else (
      true,
      record q {
        records = set q.records q.tail (fill_record level now subsys message);
        tail = (q.tail + 1) % q.capacity;
        length = q.length + 1;
      },
    )

-- The records that the loop delivers in `left` rounds, the oldest first, and the queue that it leaves.
unfoldable pub ra_log_queue_drain : LogQueue → ℕ → List LogRecord × LogQueue
ra_log_queue_drain q zero = ([], q)
ra_log_queue_drain q (suc left) =
    let shrunk = record q { head = (q.head + 1) % q.capacity; length = q.length - 1 } in
    let (items, rest) = ra_log_queue_drain shrunk left in
    if q.length == 0 then ([], q) else (get_or q.records q.head blank ∷ items, rest)
