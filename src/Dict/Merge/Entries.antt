-- ===== src/Dict/Merge/Entries.antt =====
-- What an entry of the source adds to what the loop has written.
use librustyaxe.Prelude.{
  ℕ, suc, ◌≡◌, refl, sym, ap, ◌∙◌, ◌⊎◌, inl, inr, false, Option, none, some, List, arith, Bytes,
  Bool-cases, if◌then◌else◌, get_or, bytes_eq, bytes_eq_sound,
}
use librustyaxe.Dict.Types.{
  Value, Dict, KeyPair, Key-cases, live, vacant, slot, is_live, Status, done,
}
use librustyaxe.Dict.View.{view, entry_value, first_some}
use librustyaxe.Dict.Sound.{IsSound}
use librustyaxe.Dict.Merge.Loop.{find_from, find_from-absent, Choice, pick, Writes, Folds}

module _ (t : List KeyPair) (n r : ℕ) (q : Bytes) where
  find_from_free :
      is_live (get_or t r vacant).key ≡ false → find_from (suc n) t r q ≡ find_from n t (suc r) q
  unfolding find_from entry_value first_some
  find_from_free free = elim (Key-cases (get_or t r vacant).key) [
    | inl e ↦ rw e refl
    | inr (inl e) ↦ rw e refl
    | inr (inr (b, e)) ↦ absurd (ground arith)
  ]

  find_from_here :
      {k : Bytes}
      → (get_or t r vacant).key ≡ live k
      → find_from (suc n) t r q
        ≡ (if bytes_eq k q then some (get_or t r vacant).val else find_from n t (suc r) q)
  unfolding find_from entry_value first_some
  find_from_here {k} here = elim (Bool-cases (bytes_eq k q)) [
    | inl e ↦ rw (here, e) refl
    | inr e ↦ rw (here, e) refl
  ]

first_some_over : (a : Option Value) → first_some none a ≡ a
unfolding first_some
first_some_over a = refl

module _ {src : Dict} (sound : IsSound src) (choice : Choice) where
  pub skip_entry :
      {n r : ℕ} {acc acc' : Dict} {status : Status}
      → is_live (slot src r).key ≡ false
      → Folds choice src n (suc r) acc status acc'
      → Folds choice src (suc n) r acc status acc'
  skip_entry {n} {r} free folds = record {
    tidy = folds.tidy;
    room = folds.room;
    used_le = omega (arith, folds.used_le);
    fill_le = omega (arith, folds.fill_le);
    reads = λ ok q. rw (find_from_free src.table n r q free) (folds.reads ok q);
    partial = λ q. rw (find_from_free src.table n r q free) (folds.partial q);
  }

  -- What is left of a key after an entry has been handled.
  after_entry :
      (n r : ℕ) {k : Bytes} {acc acc₁ : Dict}
      → (slot src r).key ≡ live k
      → Writes choice k (slot src r).val acc done acc₁
      → (q : Bytes)
      → (first_some (pick choice q (find_from n src.table (suc r) q)) (view acc₁ q)
          ≡ first_some (pick choice q (find_from (suc n) src.table r q)) (view acc q))
        × ((view acc₁ q ≡ view acc q) ⊎ (find_from n src.table (suc r) q ≡ none))
  after_entry n r {k} {acc} {acc₁} here writes q = elim (Bool-cases (bytes_eq k q)) [
    | inl e ↦
        let same : k ≡ q = bytes_eq_sound k q e in
        let gone : find_from n src.table (suc r) q ≡ none =
          find_from-absent n src.table (suc r) q (λ s le there.
            absurd (omega (arith, sound.unique r s q (here ∙ ap live same) there))) in
        let at : view acc₁ q ≡ first_some (choice q (slot src r).val) (view acc q) =
          (rw e at (writes.reads refl q))
          ∙ ap (λ (x : Bytes). first_some (choice x (slot src r).val) (view acc q)) same in
        (
          rw (gone, find_from_here src.table n r q here, e) (first_some_over (view acc₁ q) ∙ at),
          inr gone,
        )
    | inr e ↦
        let at : view acc₁ q ≡ view acc q = rw e at (writes.reads refl q) in
        (rw (find_from_here src.table n r q here, e, at) refl, inl at)
  ]

  pub take_entry :
      {n r : ℕ} {k : Bytes} {acc acc₁ acc' : Dict} {status : Status}
      → (slot src r).key ≡ live k
      → Writes choice k (slot src r).val acc done acc₁
      → Folds choice src n (suc r) acc₁ status acc'
      → Folds choice src (suc n) r acc status acc'
  take_entry {n} {r} {k} {acc} {acc₁} {acc'} here writes folds = record {
    tidy = folds.tidy;
    room = folds.room;
    used_le = omega (arith, folds.used_le, writes.kept.used_le);
    fill_le = omega (arith, folds.fill_le, writes.kept.fill_le);
    reads = λ ok q. folds.reads ok q ∙ (after_entry n r here writes q).0;
    partial = λ q.
        let (over, left) = after_entry n r here writes q in
        elim (folds.partial q) [
          | inr e ↦ inr (e ∙ over)
          | inl e ↦ elim left [
            | inl same ↦ inl (e ∙ same)
            | inr gone ↦
                let last : first_some (pick choice q none) (view acc₁ q) ≡ view acc₁ q =
                  first_some_over (view acc₁ q) in
                inr (e ∙ sym last ∙ rw gone at over)
          ]
        ];
  }
