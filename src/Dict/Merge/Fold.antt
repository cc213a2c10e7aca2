-- ===== src/Dict/Merge/Fold.antt =====
-- A loop over the entries of a dictionary whose body writes at most one value under each key.
use librustyaxe.Prelude.{
  ℕ, zero, suc, ◌+◌, ◌^◌, ◌≤◌, ◌<◌, ◌≡◌, refl, ap, ◌∙◌, inl, inr, false, none, some, arith, Bytes,
}
use librustyaxe.Dict.Types.{Value, Dict, Key-cases, slot, is_live, Status, done, failed}
use librustyaxe.Dict.View.{view, first_some}
use librustyaxe.Dict.Counts.{unused_count}
use librustyaxe.Dict.Sound.{IsSound}
use librustyaxe.Dict.Tidy.{IsTidy}
use librustyaxe.Dict.Access.{dict_enumerate_typed}
use librustyaxe.Dict.Refines.{Status-cases}
use librustyaxe.Dict.Merge.{Body, each_entry}
use librustyaxe.Dict.Merge.Loop.{
  enumerate_end, enumerate_skip, enumerate_here, find_from, Choice, Writes, Folds,
}
use librustyaxe.Dict.Merge.Entries.{skip_entry, take_entry}

-- A step of the loop.
module _ (body : Body) (src : Dict) (fuel rank : ℕ) (acc : Dict) where
  each_end :
      dict_enumerate_typed src rank ≡ none
      → each_entry (suc fuel) body src rank acc ≡ some (done, acc)
  unfolding each_entry
  each_end e = rw (each_entry, e) refl

  each_same :
      (rank' : ℕ)
      → dict_enumerate_typed src rank ≡ dict_enumerate_typed src rank'
      → each_entry (suc fuel) body src rank acc ≡ each_entry (suc fuel) body src rank' acc
  unfolding each_entry
  each_same rank' e = rw (each_entry, e) refl

  each_failed :
      {next : ℕ} {k : Bytes} {v : Value} {acc' : Dict}
      → dict_enumerate_typed src rank ≡ some (next, k, v)
      → body next k v acc ≡ some (failed, acc')
      → each_entry (suc fuel) body src rank acc ≡ some (failed, acc')
  unfolding each_entry
  each_failed e run = rw (each_entry, e, run) refl

  each_done :
      {next : ℕ} {k : Bytes} {v : Value} {acc' : Dict}
      → dict_enumerate_typed src rank ≡ some (next, k, v)
      → body next k v acc ≡ some (done, acc')
      → each_entry (suc fuel) body src rank acc ≡ each_entry fuel body src next acc'
  unfolding each_entry
  each_done e run = rw (each_entry, e, run) refl

-- The loop has room for n more entries.
pub record Fits (n : ℕ) (acc : Dict) : Type 0 where
  pub tidy : IsTidy acc
  pub room : 0 < unused_count acc
  pub used_le : acc.used + n ≤ 2 ^ 26
  pub fill_lt : acc.fill + n < 2 ^ 30

shrink : (n : ℕ) (acc : Dict) → Fits (suc n) acc → Fits n acc
shrink n acc fits = record {
  tidy = fits.tidy;
  room = fits.room;
  used_le = omega (arith, fits.used_le);
  fill_lt = omega (arith, fits.fill_lt);
}

one_more : (n : ℕ) (acc : Dict) → Fits (suc n) acc → Fits 1 acc
one_more n acc fits = record {
  tidy = fits.tidy;
  room = fits.room;
  used_le = omega (arith, fits.used_le);
  fill_lt = omega (arith, fits.fill_lt);
}

-- A body that returns and writes its choice.
abbrev pub Works : Choice → Type 0 → Body → Type 0
Works choice Granted body =
    (next : ℕ) (k : Bytes) (v : Value) (acc : Dict)
    → Fits 1 acc
    → (status : Status) × (acc' : Dict) × (body next k v acc ≡ some (status, acc'))
      × Writes choice k v acc status acc'
      × (Granted → status ≡ done)

nothing-Folds :
    (choice : Choice) (src : Dict) (r : ℕ) (acc : Dict)
    → Fits 0 acc
    → Folds choice src 0 r acc done acc
unfolding find_from first_some
nothing-Folds choice src r acc fits = record {
  tidy = fits.tidy;
  room = fits.room;
  used_le = omega arith;
  fill_le = omega arith;
  reads = λ ok q. refl;
  partial = λ q. inl refl;
}

-- The body's failure ends the loop.
failed-Folds :
    (choice : Choice) (src : Dict) (n r : ℕ) (k : Bytes) (v : Value) (acc acc' : Dict)
    → Writes choice k v acc failed acc'
    → Folds choice src (suc n) r acc failed acc'
failed-Folds choice src n r k v acc acc' writes = record {
  tidy = writes.kept.tidy;
  room = writes.kept.room;
  used_le = omega (arith, writes.kept.used_le);
  fill_le = omega (arith, writes.kept.fill_le);
  reads = λ ok q. absurd (cc ok);
  partial = λ q. inl (ap (λ (t : Dict). view t q) (writes.atomic refl));
}

module _ {src : Dict} (sound : IsSound src) {choice : Choice} {Granted : Type 0} {body : Body}
    (works : Works choice Granted body) where
  -- What a run of the loop shows.
  abbrev Runs : ℕ → ℕ → ℕ → Dict → Type 0
  Runs n r fuel acc =
      (status : Status) × (acc' : Dict) × (each_entry fuel body src r acc ≡ some (status, acc'))
      × Folds choice src n r acc status acc'
      × (Granted → status ≡ done)

  -- An entry that is not live is passed over.
  passes :
      (n r fuel : ℕ) (acc : Dict)
      → r < src.size
      → is_live (slot src r).key ≡ false
      → Runs n (suc r) (suc fuel) acc
      → Runs (suc n) r (suc fuel) acc
  passes n r fuel acc inside free (status, acc', run, folds, ok) =
      let step : r + 1 ≡ suc r = omega arith in
      let same = enumerate_skip src r inside free ∙ ap (dict_enumerate_typed src) step in
      (
        status,
        acc',
        each_same body src fuel r acc (suc r) same ∙ run,
        skip_entry sound choice free folds,
        ok,
      )

  -- The loop returns.
  pub each_entry_total :
      (n r fuel : ℕ) (acc : Dict) → n + r ≡ src.size → n < fuel → Fits n acc → Runs n r fuel acc
  each_entry_total n r zero acc at h fits = absurd (omega arith)
  each_entry_total zero r (suc fuel) acc at h fits = (
    done,
    acc,
    each_end body src fuel r acc (enumerate_end src r (omega arith)),
    nothing-Folds choice src r acc fits,
    λ g. refl,
  )
  each_entry_total (suc n) r (suc fuel) acc at h fits = elim (Key-cases (slot src r).key) [
    | inl e ↦
        let free : is_live (slot src r).key ≡ false = rw e refl in
        passes n r fuel acc (omega arith) free (
          each_entry_total n (suc r) (suc fuel) acc (omega arith) (omega arith) (shrink n acc fits))
    | inr (inl e) ↦
        let free : is_live (slot src r).key ≡ false = rw e refl in
        passes n r fuel acc (omega arith) free (
          each_entry_total n (suc r) (suc fuel) acc (omega arith) (omega arith) (shrink n acc fits))
    | inr (inr (k, here)) ↦
        let inside : r < src.size = omega arith in
        let found = enumerate_here src r inside here in
        let (st, acc₁, run, writes, given) =
          works (r + 1) k (slot src r).val acc (one_more n acc fits) in
        elim (Status-cases st) [
          | inr e ↦ (
            failed,
            acc₁,
            each_failed body src fuel r acc found (rw e at run),
            failed-Folds choice src n r k (slot src r).val acc acc₁ (rw e at writes),
            rw e at given,
          )
          | inl e ↦
              let writes₁ : Writes choice k (slot src r).val acc done acc₁ = rw e at writes in
              let (status, acc', rest, folds, ok) =
                each_entry_total n (suc r) fuel acc₁ (omega arith) (omega arith) (record {
                  tidy = writes₁.kept.tidy;
                  room = writes₁.kept.room;
                  used_le = omega (arith, fits.used_le, writes₁.kept.used_le);
                  fill_lt = omega (arith, fits.fill_lt, writes₁.kept.fill_le);
                }) in
              let next : each_entry (suc fuel) body src r acc
                  ≡ each_entry fuel body src (r + 1) acc₁ =
                each_done body src fuel r acc found (rw e at run) in
              let step : r + 1 ≡ suc r = omega arith in
              (
                status,
                acc',
                next ∙ ap (λ (x : ℕ). each_entry fuel body src x acc₁) step ∙ rest,
                take_entry sound choice here writes₁ folds,
                ok,
              )
        ]
  ]
