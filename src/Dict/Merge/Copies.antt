-- ===== src/Dict/Merge/Copies.antt =====
-- `dict_merge`, `dict_clone` and `dict_merge_new` against the maps that the dictionaries stand for.
use librustyaxe.Prelude.{
  ℕ, suc, ◌+◌, ◌^◌, ◌≤◌, ◌<◌, ◌≡◌, refl, sym, ap, ◌∙◌, ◌⊎◌, inl, inr, Bool, true, false, Option,
  none, some, arith, Bytes, length,
}
use librustyaxe.Dict.Types.{Value, Dict, Status, done}
use librustyaxe.Dict.View.{view, first_some, find_value}
use librustyaxe.Dict.Counts.{unused_count, weigh, live-replicate}
use librustyaxe.Dict.Sound.{IsSound}
use librustyaxe.Dict.Resize.{IsDict, fresh-IsSound}
use librustyaxe.Dict.Tidy.{IsTidy, dict_new-IsTidy}
use librustyaxe.Dict.Room.{dict_store-Kept}
use librustyaxe.Dict.Refines.{dict_store-Stores, Status-cases, grants}
use librustyaxe.Dict.Store.{Alloc, all_granted, dict_store, dict_new}
use librustyaxe.Dict.Merge.{
  copy_body, dict_copy_entry, dict_merge, dict_clone, dict_merge_new, or_null,
}
use librustyaxe.Dict.Merge.Loop.{find_from, find_from_all, Choice, pick, Writes}
use librustyaxe.Dict.Merge.Fold.{Fits, Works, each_entry_total}
use librustyaxe.Dict.Merge.Returned.{Returned, refused-Returned, failed-Returned, last-Returned}

all_grants : (v : Value) → grants all_granted v ≡ true
all_grants v = ground arith

-- A store of the chosen value, if there is room.
pub store-Writes :
    (a : Alloc) (choice : Choice) (k : Bytes) (v w : Value) (acc : Dict)
    → choice k v ≡ some w
    → Fits 1 acc
    → (status : Status) × (acc' : Dict) × (dict_store a acc k w ≡ some (status, acc'))
      × Writes choice k v acc status acc'
      × (a ≡ all_granted → status ≡ done)
unfolding first_some
store-Writes a choice k v w acc chosen fits =
    let (status, acc', run, st, ok) = dict_store-Stores acc k w a fits.tidy.good fits.room in
    let kept =
      dict_store-Kept a acc fits.tidy k w (omega (arith, fits.used_le))
        (omega (arith, fits.fill_lt)) fits.room run in
    (
      status,
      acc',
      run,
      record { kept = kept; reads = λ e q. st.reads q ∙ rw (chosen, e) refl; atomic = st.atomic },
      λ all. ok (rw all (all_grants w)),
    )

-- A chosen entry is the one that is there.
abbrev copied : Choice
copied k v = some v

copy_body-Works : (a : ℕ → Alloc) → Works copied ((i : ℕ) → a i ≡ all_granted) (copy_body a)
unfolding copy_body dict_copy_entry
copy_body-Works a next k v acc fits =
    let (status, acc', run, writes, ok) = store-Writes (a next) copied k v v acc refl fits in
    (status, acc', run, writes, λ all. ok (all next))

pub whole : {src : Dict} → IsSound src → (q : Bytes) → find_from src.size src.table 0 q ≡ view src q
unfolding view
whole {src} sound q =
    let z = sound.sized in
    let same : src.size ≡ length src.table = z.size ∙ sym z.entries in
    rw same (find_from_all src.table q)

-- What a merge leaves.
pub record Merged (dst src : Dict) (status : Status) (d' : Dict) : Type 0 where
  pub tidy : IsTidy d'
  pub room : 0 < unused_count d'
  pub used_le : d'.used ≤ dst.used + src.size
  pub fill_le : d'.fill ≤ dst.fill + src.size
  pub reads : status ≡ done → (q : Bytes) → view d' q ≡ first_some (view src q) (view dst q)
  pub partial :
      (q : Bytes) → (view d' q ≡ view dst q) ⊎ (view d' q ≡ first_some (view src q) (view dst q))

picked : (o : Option Value) (q : Bytes) → pick copied q o ≡ o
picked none q = refl
picked (some v) q = refl

-- A merge returns: on success the source's entries stand over the destination's, after a failure
-- each key has the one or the other, and it succeeds if all allocations do.
pub dict_merge-Merged :
    (a : ℕ → Alloc) (dst src : Dict)
    → IsSound src
    → Fits src.size dst
    → (status : Status) × (d' : Dict) × (dict_merge a dst src ≡ some (status, d'))
      × Merged dst src status d'
      × (((i : ℕ) → a i ≡ all_granted) → status ≡ done)
unfolding dict_merge
dict_merge-Merged a dst src sound fits =
    let (status, d', run, folds, ok) =
      each_entry_total sound (copy_body-Works a) src.size 0 (suc src.size) dst (omega arith)
        (omega arith) fits in
    let same : (q : Bytes) → pick copied q (find_from src.size src.table 0 q) ≡ view src q =
      λ q. picked (find_from src.size src.table 0 q) q ∙ whole sound q in
    (
      status,
      d',
      run,
      record {
        tidy = folds.tidy;
        room = folds.room;
        used_le = folds.used_le;
        fill_le = folds.fill_le;
        reads =
            λ e q. folds.reads e q ∙ ap (λ (o : Option Value). first_some o (view dst q)) (same q);
        partial = λ q. elim (folds.partial q) [
          | inl e ↦ inl e
          | inr e ↦ inr (e ∙ ap (λ (o : Option Value). first_some o (view dst q)) (same q))
        ];
      },
      ok,
    )

pub dict_new-Fits : (n : ℕ) → n ≤ 2 ^ 26 → Fits n dict_new
unfolding dict_new weigh
dict_new-Fits n h =
    let good : IsDict dict_new = record {
      sound = fresh-IsSound 3 (omega arith);
      counted = sym (live-replicate 8);
      small = omega arith;
    } in
    record {
      tidy = dict_new-IsTidy good;
      room = omega arith;
      used_le = omega arith;
      fill_lt = omega arith;
    }

pub new_empty : (q : Bytes) → view dict_new q ≡ none
unfolding view find_value dict_new
new_empty q = refl

over_none : (o : Option Value) → first_some o none ≡ o
unfolding first_some
over_none none = refl
over_none (some v) = refl

-- `dict_clone` returns; a copy that it returns reads as the source does.
pub dict_clone-Returned :
    (granted : Bool) (a : ℕ → Alloc) (source : Dict)
    → IsSound source
    → source.size ≤ 2 ^ 26
    → (r : Option Dict) × (dict_clone granted a source ≡ some r)
      × Returned granted ((i : ℕ) → a i ≡ all_granted) (view source) r
unfolding dict_clone
dict_clone-Returned false a source sound h = (none, refl, refused-Returned refl)
dict_clone-Returned true a source sound h =
    let (status, d', run, merged, ok) =
      dict_merge-Merged a dict_new source sound (dict_new-Fits source.size h) in
    (
      or_null status d',
      rw run refl,
      last-Returned merged.tidy
          (λ e q.
            merged.reads e q
            ∙ ap (first_some (view source q)) (new_empty q)
            ∙ over_none (view source q))
          ok,
    )

-- `dict_merge_new` returns; in a dictionary that it returns the entries of b stand over those of a.
pub dict_merge_new-Returned :
    (granted : Bool) (first second : ℕ → Alloc) (a b : Dict)
    → IsSound a
    → IsSound b
    → a.size + b.size ≤ 2 ^ 26
    → (r : Option Dict) × (dict_merge_new granted first second a b ≡ some r)
      × Returned granted
          (((i : ℕ) → first i ≡ all_granted) × ((i : ℕ) → second i ≡ all_granted))
          (λ q. first_some (view b q) (view a q))
          r
unfolding dict_merge_new
dict_merge_new-Returned false first second a b sa sb h = (none, refl, refused-Returned refl)
dict_merge_new-Returned true first second a b sa sb h =
    let (status, d', run, merged, ok) =
      dict_merge-Merged first dict_new a sa (dict_new-Fits a.size (omega arith)) in
    let fresh = dict_new-Fits (a.size + b.size) h in
    elim (Status-cases status) [
      | inr e ↦ (none, rw (run, e) refl, failed-Returned (λ (x, y). absurd (cc (ok x, e))))
      | inl e ↦
          let (status', both, run', over, ok') = dict_merge-Merged second d' b sb (record {
            tidy = merged.tidy;
            room = merged.room;
            used_le = omega (arith, merged.used_le, fresh.used_le);
            fill_lt = omega (arith, merged.fill_le, fresh.fill_lt);
          }) in
          (
            or_null status' both,
            rw (run, e, run') refl,
            last-Returned over.tidy
                (λ e' q.
                  over.reads e' q
                  ∙ ap (first_some (view b q)) (
                      merged.reads e q
                      ∙ ap (first_some (view a q)) (new_empty q)
                      ∙ over_none (view a q)))
                (λ (x, y). ok' y),
          )
    ]
