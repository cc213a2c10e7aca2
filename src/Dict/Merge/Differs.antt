-- ===== src/Dict/Merge/Differs.antt =====
-- `dict_diff` against the maps that the dictionaries stand for.
use librustyaxe.Prelude.{
  ℕ, suc, ◌+◌, ◌^◌, ◌≤◌, ◌<◌, ◌≡◌, ◌≢◌, refl, ◌∙◌, inl, inr, Bool, true, false, Option, none, some,
  arith, Bytes, Bool-cases, if◌then◌else◌,
}
use librustyaxe.Dict.Types.{Value, null, Dict}
use librustyaxe.Dict.View.{view, first_some}
use librustyaxe.Dict.Counts.{unused_count}
use librustyaxe.Dict.Sound.{IsSound}
use librustyaxe.Dict.Refines.{Status-cases}
use librustyaxe.Dict.Store.{Alloc, all_granted, dict_new}
use librustyaxe.Dict.Merge.{dict_values_equal, dict_diff, or_null}
use librustyaxe.Dict.Merge.Loop.{Choice, pick}
use librustyaxe.Dict.Merge.Fold.{each_entry_total}
use librustyaxe.Dict.Merge.Returned.{Returned, refused-Returned, failed-Returned, last-Returned}
use librustyaxe.Dict.Merge.Copies.{whole, dict_new-Fits, new_empty}
use librustyaxe.Dict.Tidy.{IsTidy}
use librustyaxe.Dict.Merge.Equal.{Same, dict_values_equal-Same}
use librustyaxe.Dict.Merge.Bodies.{changed, removed, changed_body-Works, removed_body-Works}

-- What the two loops leave under a key.
abbrev diff_value : Option Value → Option Value → Option Value
diff_value none none = none
diff_value none (some v) = some v
diff_value (some u) none = some null
diff_value (some u) (some v) = if dict_values_equal u v then none else some v

loops_value :
    (f g : Choice) (q : Bytes) (x y : Option Value)
    → ((v : Value) → f q v ≡ removed y)
    → ((v : Value) → g q v ≡ changed x v)
    → first_some (pick f q x) (first_some (pick g q y) none) ≡ diff_value x y
unfolding first_some
loops_value f g q none none hf hg = refl
loops_value f g q none (some v) hf hg = rw (hg v) refl
loops_value f g q (some u) none hf hg = rw (hf u) refl
loops_value f g q (some u) (some v) hf hg = elim (Bool-cases (dict_values_equal u v)) [
  | inl e ↦ rw (hf u, hg v) (rw e refl)
  | inr e ↦ rw (hf u, hg v) (rw e refl)
]

-- The result, of the code's own test of equality.
dict_diff-value :
    (granted : Bool) (first second : ℕ → Alloc) (a b : Dict)
    → IsSound a
    → IsSound b
    → 0 < unused_count a
    → 0 < unused_count b
    → a.size + b.size ≤ 2 ^ 26
    → (r : Option Dict) × (dict_diff granted first second a b ≡ some r)
      × Returned granted
          (((i : ℕ) → first i ≡ all_granted) × ((i : ℕ) → second i ≡ all_granted))
          (λ q. diff_value (view a q) (view b q))
          r
unfolding dict_diff
dict_diff-value false first second a b sa sb ra rb h = (none, refl, refused-Returned refl)
dict_diff-value true first second a b sa sb ra rb h =
    let (status, d', run, one, ok) =
      each_entry_total sb (changed_body-Works first a sa ra) b.size 0 (suc b.size) dict_new
        (omega arith) (omega arith) (dict_new-Fits b.size (omega arith)) in
    let fresh = dict_new-Fits (a.size + b.size) h in
    elim (Status-cases status) [
      | inr e ↦ (none, rw (run, e) refl, failed-Returned (λ (x, y). absurd (cc (ok x, e))))
      | inl e ↦
          let (status', all, run', two, ok') =
            each_entry_total sa (removed_body-Works second b sb rb) a.size 0 (suc a.size) d'
              (omega arith) (omega arith)
              (record {
                tidy = one.tidy;
                room = one.room;
                used_le = omega (arith, one.used_le, fresh.used_le);
                fill_lt = omega (arith, one.fill_le, fresh.fill_lt);
              }) in
          (
            or_null status' all,
            rw (run, e, run') refl,
            last-Returned two.tidy
                (λ e' q.
                  let first_reads = rw (whole sb q, new_empty q) at (one.reads e q) in
                  let second_reads = rw (whole sa q, first_reads) at (two.reads e' q) in
                  second_reads
                  ∙ loops_value (λ k v. removed (view b k)) (λ k v. changed (view a k) v) q
                      (view a q) (view b q) (λ v. refl) (λ v. refl))
                (λ (x, y). ok' y),
          )
    ]

-- The entry of a difference of A and B under a key, of what A and B hold there: nothing if neither has
-- the key or both have the same value, the value of B if A has none or another, null if only A has one.
pub data Diff : Option Value → Option Value → Option Value → Type 0 where
  neither : Diff none none none
  only_b : (v : Value) → Diff none (some v) (some v)
  only_a : (u : Value) → Diff (some u) none (some null)
  kept : (u v : Value) → Same u v → Diff (some u) (some v) none
  replaced : (u v : Value) → ¬ Same u v → Diff (some u) (some v) (some v)

diff_value-Diff : (x y : Option Value) → Diff x y (diff_value x y)
diff_value-Diff none none = neither
diff_value-Diff none (some v) = only_b v
diff_value-Diff (some u) none = only_a u
diff_value-Diff (some u) (some v) = elim (Bool-cases (dict_values_equal u v)) [
  | inl e ↦ rw e (kept u v ((dict_values_equal-Same u v).0 e))
  | inr e ↦ rw e (replaced u v (λ s. absurd (cc ((dict_values_equal-Same u v).1 s, e))))
]

-- What `dict_diff` returns: a dictionary that holds the differences, and one if it has memory.
pub record Differs (granted : Bool) (all : Type 0) (a b : Dict) (r : Option Dict) : Type 0 where
  pub reads :
      (d : Dict) → r ≡ some d → IsTidy d × ((q : Bytes) → Diff (view a q) (view b q) (view d q))
  pub given : granted ≡ true → all → r ≢ none

-- `dict_diff` of two sound dictionaries, each with a never-used entry and together of at most 2^26
-- slots, returns. A dictionary that it returns holds, under each key, nothing if neither has the key
-- or both have the same value, the value of B if A has none or another, and null if only A has one. It
-- returns one if every allocation succeeds. Values are the same if they have one type and are equal
-- in it; Booleans are equal if both or none are true, and a NaN, VAL_END or a pointer to a
-- floating-point number is the same as no value.
pub dict_diff-Returned :
    (granted : Bool) (first second : ℕ → Alloc) (a b : Dict)
    → IsSound a
    → IsSound b
    → 0 < unused_count a
    → 0 < unused_count b
    → a.size + b.size ≤ 2 ^ 26
    → (r : Option Dict) × (dict_diff granted first second a b ≡ some r)
      × Differs granted
          (((i : ℕ) → first i ≡ all_granted) × ((i : ℕ) → second i ≡ all_granted))
          a
          b
          r
dict_diff-Returned granted first second a b sa sb ra rb h =
    let (r, run, returned) = dict_diff-value granted first second a b sa sb ra rb h in
    (
      r,
      run,
      record {
        reads = λ d e.
            let (tidy, reads) = returned.reads d e in
            (tidy, λ q. rw (reads q) (diff_value-Diff (view a q) (view b q)));
        given = returned.given;
      },
    )
