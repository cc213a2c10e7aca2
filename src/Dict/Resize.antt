-- ===== src/Dict/Resize.antt =====
-- `dict_resize`: the loop that chooses the new size, and the loop that moves the entries.
use native.Mathlib.Decide.{ℕ_discrete}
use librustyaxe.Prelude.{
  ℕ, ◌+◌, ◌*◌, ◌^◌, ◌≤◌, ◌<◌, ◌≡◌, refl, sym, ap, ◌∙◌, ◌≢◌, inl, inr, Bool, true, false, none, some,
  arith, Bytes, get_or, wrap32, replicate, length-replicate, get_or-replicate, Bool-cases,
}
use librustyaxe.Dict.Types.{Dict, KeyPair, live, vacant, Status, done, failed}
use librustyaxe.Dict.View.{view, find_value, first_some, find_value-eq-none}
use librustyaxe.Dict.Counts.{
  live_count, unused_count, weigh-replicate, live-replicate, live-unused-le,
}
use librustyaxe.Dict.Sound.{IsSound}
use librustyaxe.Dict.Grow.{grow_size-pow, grow_size_total}
use librustyaxe.Dict.Move.{IsApart, move_entries_total}
use librustyaxe.Dict.Store.{grow_size, move_entries, growth_factor, dict_resize}

abbrev pub fresh : ℕ → Dict
fresh size = record { fill = 0; used = 0; size = size; table = replicate size vacant }

unused_everywhere : (n s : ℕ) (q : Bytes) → (get_or (replicate n vacant) s vacant).key ≢ live q
unused_everywhere n s q e = cc (ap (λ (kp : KeyPair). kp.key) (get_or-replicate n s vacant), e)

-- A table of unused entries is sound and holds nothing.
pub fresh-IsSound : (k : ℕ) → k < 32 → IsSound (fresh (2 ^ k))
fresh-IsSound k word = record {
  bits = k;
  sized = record { word = word; size = refl; entries = length-replicate (2 ^ k) vacant };
  hashed = λ s q e. absurd (unused_everywhere (2 ^ k) s q e);
  reached = λ s q e. absurd (unused_everywhere (2 ^ k) s q e);
  unique = λ s u q e e'. absurd (unused_everywhere (2 ^ k) s q e);
}

pub view-fresh : (size : ℕ) (q : Bytes) → view (fresh size) q ≡ none
unfolding view
view-fresh size q = find_value-eq-none (replicate size vacant) q (λ s. unused_everywhere size s q)

first_some-fresh :
    (d : Dict) (size : ℕ) (q : Bytes)
    → first_some (view (fresh size) q) (find_value d.table q) ≡ view d q
unfolding first_some
first_some-fresh d size q = rw (view-fresh size q) (unfold view in refl)

-- `used` counts the live entries, and the doubled size does not wrap around.
pub record IsDict (d : Dict) : Type 0 where
  pub sound : IsSound d
  pub counted : d.used ≡ live_count d
  pub small : d.size ≤ 2 ^ 30

-- What a resize keeps.
pub record Resized (d d' : Dict) : Type 0 where
  pub sound : IsSound d'
  pub counted : d'.used ≡ live_count d'
  pub reads : (q : Bytes) → view d' q ≡ view d q
  pub grows : d.size ≤ d'.size
  pub room : 0 < unused_count d'
  pub spare : d.size ≤ unused_count d + live_count d → d'.size ≤ unused_count d' + live_count d

module _ (d : Dict) (good : IsDict d) (pos : 0 < unused_count d) where
  abbrev bound : ℕ
  bound = wrap32 (growth_factor d.size * d.used)

  -- The bound leaves half of the new table free.
  bound-le : (2 * d.used ≤ bound) × (bound < 2 ^ 31)
  unfolding growth_factor
  bound-le =
      let z = good.sound.sized in
      ground (arith, live-unused-le d.table, good.counted, good.small, z.size, z.entries)

  unchanged : Resized d d
  unchanged = record {
    sound = good.sound;
    counted = good.counted;
    reads = λ q. refl;
    grows = omega arith;
    room = pos;
    spare = λ h. h;
  }

  module _ (granted : Bool) {m : ℕ} (grown : grow_size 33 bound d.size ≡ some m) where
    resize_same : m ≡ d.size → dict_resize granted d ≡ some (done, d)
    unfolding dict_resize
    resize_same e = ground arith

    resize_denied : m ≢ d.size → granted ≡ false → dict_resize granted d ≡ some (failed, d)
    unfolding dict_resize
    resize_denied e no_memory = ground arith

    resize_moves :
        m ≢ d.size → granted ≡ true → dict_resize granted d ≡ move_entries d.table (fresh m) d
    unfolding dict_resize
    resize_moves e memory = ground arith

  moved :
      (j : ℕ)
      → j < 32
      → bound < 2 ^ j
      → d.size ≤ 2 ^ j
      → (d' : Dict) × (move_entries d.table (fresh (2 ^ j)) d ≡ some (done, d')) × Resized d d'
  moved j word above more =
      let apart : IsApart d.table (fresh (2 ^ j)) = record {
        unique = good.sound.unique;
        absent = λ s q e. view-fresh (2 ^ j) q;
      } in
      let spare = weigh-replicate (2 ^ j) in
      let (twice, low) = bound-le in
      let (d', run, m) =
        move_entries_total d.table (fresh (2 ^ j)) d (fresh-IsSound j word) apart
          (omega (arith, good.counted)) in
      (
        d',
        run,
        record {
          sound = m.sound;
          counted = m.counted (sym (live-replicate (2 ^ j)));
          reads = λ q. m.reads q ∙ first_some-fresh d (2 ^ j) q;
          grows = omega (arith, m.size);
          room = omega (arith, m.room, good.counted);
          spare = λ h. omega (arith, m.size, m.room);
        },
      )

  -- A resize returns. Whether it moved the entries, kept the table or lacked memory, the
  -- dictionary stays sound and reads the same.
  pub dict_resize_total :
      (granted : Bool)
      → (status : Status) × (d' : Dict) × (dict_resize granted d ≡ some (status, d'))
        × Resized d d'
        × (granted ≡ true → status ≡ done)
        × (status ≡ failed → d' ≡ d)
  dict_resize_total granted =
      let z = good.sound.sized in
      let k = good.sound.bits in
      let low = bound-le.1 in
      let (m, run) = grow_size_total 33 bound k (omega (arith, z.word)) (omega arith) low in
      let grown = ap (grow_size 33 bound) z.size ∙ run in
      let (j, word, e, above, more) = grow_size-pow 33 bound k z.word run in
      elim (ℕ_discrete m d.size) [
        | yes same ↦
            (done, d, resize_same granted grown same, unchanged, λ g. refl, λ f. absurd (cc f))
        | no ne ↦ elim (Bool-cases granted) [
          | inr denied ↦ (
            failed,
            d,
            resize_denied granted grown ne denied,
            unchanged,
            λ g. absurd (cc (g, denied)),
            λ f. refl,
          )
          | inl given ↦
              let (d', moves, kept) =
                moved j word (omega (arith, e)) (omega (arith, e, more, z.size)) in
              (
                done,
                d',
                resize_moves granted grown ne given ∙ rw e moves,
                kept,
                λ g. refl,
                λ f. absurd (cc f),
              )
        ]
      ]
