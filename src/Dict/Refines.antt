-- ===== src/Dict/Refines.antt =====
-- The operations of dict.c against the map that a dictionary stands for.
use librustyaxe.Prelude.{
  ℕ, ◌<◌, ◌≡◌, refl, ◌∙◌, ◌⊎◌, inl, inr, Bool, true, false, not, ◌&&◌, ◌||◌, Option, some, arith,
  Bytes, if◌then◌else◌, bytes_eq, Bool-cases,
}
use librustyaxe.Dict.Types.{Value, Dict, slot, is_live, Status, done, failed}
use librustyaxe.Dict.Hash.{dict_hash}
use librustyaxe.Dict.View.{view}
use librustyaxe.Dict.Counts.{live_count, unused_count, unused_exists}
use librustyaxe.Dict.Lookup.{dict_lookup}
use librustyaxe.Dict.Sound.{IsSound, Finds, dict_lookup-Finds_total}
use librustyaxe.Dict.Commit.{commit-Stored, commit-counted}
use librustyaxe.Dict.Resize.{IsDict, Resized, dict_resize_total}
use librustyaxe.Dict.Store.{Alloc, copies_string, is_crowded, commit, dict_resize, dict_store}

-- The map after a call of `dict_store` with this status.
abbrev pub stored_view : Status → Dict → Bytes → Value → Bytes → Option Value
stored_view done d key val q = if bytes_eq key q then some val else view d q
stored_view failed d key val q = view d q

-- What `dict_store` leaves.
pub record Stores (d : Dict) (key : Bytes) (val : Value) (status : Status) (d' : Dict)
    : Type 0 where
  pub sound : IsSound d'
  pub counted : d'.used ≡ live_count d'
  pub reads : (q : Bytes) → view d' q ≡ stored_view status d key val q
  pub atomic : status ≡ failed → d' ≡ d

-- Which allocations the call needs at most.
abbrev pub grants : Alloc → Value → Bool
grants a val = a.newkey && (not (copies_string val) || a.newstr) && a.newtable

pub Status-cases : (s : Status) → (s ≡ done) ⊎ (s ≡ failed)
Status-cases done = inl refl
Status-cases failed = inr refl

pub lookup-Finds :
    {d : Dict}
    → IsSound d
    → (key : Bytes) → 0 < unused_count d
    → (r : ℕ) × (dict_lookup d key (dict_hash key) ≡ some r) × Finds d key r
lookup-Finds {d} sound key pos =
    let z = sound.sized in
    let (s, lt, at) = unused_exists d.table pos in
    dict_lookup-Finds_total sound key (s, omega (arith, z.size, z.entries), at)

-- The parts of `dict_store`.
module _ (d : Dict) (key : Bytes) (val : Value) where
  commit-Stores :
      {r : ℕ}
      → IsSound d
      → Finds d key r
      → d.used ≡ live_count d
      → Stores d key val done (commit d r key val)
  commit-Stores sound finds counted =
      let st = commit-Stored val sound finds in
      record {
        sound = st.sound;
        counted = commit-counted val sound finds counted;
        reads = st.reads;
        atomic = λ e. absurd (cc e);
      }

  refused-Stores : IsSound d → d.used ≡ live_count d → Stores d key val failed d
  refused-Stores sound counted = record {
    sound = sound;
    counted = counted;
    reads = λ q. refl;
    atomic = λ e. refl;
  }

  -- A store into a dictionary that a resize has changed is a store into the old one.
  Stores-Resized :
      {d₁ d' : Dict} {status : Status}
      → Resized d d₁
      → (status ≡ failed → d' ≡ d)
      → Stores d₁ key val status d'
      → Stores d key val status d'
  Stores-Resized {status = status} moved atomic st = record {
    sound = st.sound;
    counted = st.counted;
    reads = λ q. st.reads q ∙ ground (arith, moved.reads q);
    atomic = atomic;
  }

  module _ (a : Alloc) {i : ℕ} (found : dict_lookup d key (dict_hash key) ≡ some i) where
    abbrev wants_room : Bool
    wants_room = not (is_live (slot d i).key) && is_crowded d

    store_no_key : a.newkey ≡ false → dict_store a d key val ≡ some (failed, d)
    unfolding dict_store
    store_no_key no_key = rw (found, no_key)

    store_no_str :
        a.newkey ≡ true
        → copies_string val && not a.newstr ≡ true
        → dict_store a d key val ≡ some (failed, d)
    unfolding dict_store
    store_no_str got no_str = rw (found, got, no_str)

    module _ (got : a.newkey ≡ true) (copied : copies_string val && not a.newstr ≡ false) where
      store_commits : wants_room ≡ false → dict_store a d key val ≡ some (done, commit d i key val)
      unfolding dict_store
      store_commits roomy = rw (found, got, copied, roomy)

      store_resize_failed :
          {d₁ : Dict}
          → wants_room ≡ true
          → dict_resize a.newtable d ≡ some (failed, d₁)
          → dict_store a d key val ≡ some (failed, d₁)
      unfolding dict_store
      store_resize_failed crowded run = rw (found, got, copied, crowded, run)

      store_resized :
          {d₁ : Dict} {j : ℕ}
          → wants_room ≡ true
          → dict_resize a.newtable d ≡ some (done, d₁)
          → dict_lookup d₁ key (dict_hash key) ≡ some j
          → dict_store a d key val ≡ some (done, commit d₁ j key val)
      unfolding dict_store
      store_resized crowded run again = rw (found, got, copied, crowded, run, again)

module _ (d : Dict) (key : Bytes) (val : Value) where
  abbrev StoreResult : Alloc → Type 0
  StoreResult a =
      (status : Status) × (d' : Dict) × (dict_store a d key val ≡ some (status, d'))
      × Stores d key val status d'
      × (grants a val ≡ true → status ≡ done)

  module _ (a : Alloc) (good : IsDict d) (pos : 0 < unused_count d) where
    -- The branch that resizes first.
    store_crowded :
        {i : ℕ}
        → dict_lookup d key (dict_hash key) ≡ some i
        → a.newkey ≡ true
        → copies_string val && not a.newstr ≡ false
        → not (is_live (slot d i).key) && is_crowded d ≡ true
        → StoreResult a
    store_crowded found got copied crowded =
        let (status, d₁, run, moved, given, kept) = dict_resize_total d good pos a.newtable in
        elim (Status-cases status) [
          | inr failed_it ↦
              let run' : dict_resize a.newtable d ≡ some (failed, d₁) = rw failed_it at run in
              let same = kept failed_it in
              (
                failed,
                d₁,
                store_resize_failed d key val a found got copied crowded run',
                rw same (refused-Stores d key val good.sound good.counted),
                λ all. absurd (ground (arith, given (ground arith))),
              )
          | inl done_it ↦
              let run' : dict_resize a.newtable d ≡ some (done, d₁) = rw done_it at run in
              let (j, again, finds) = lookup-Finds moved.sound key moved.room in
              (
                done,
                commit d₁ j key val,
                store_resized d key val a found got copied crowded run' again,
                Stores-Resized d key val moved (λ e. absurd (cc e))
                    (commit-Stores d₁ key val moved.sound finds moved.counted),
                λ all. refl,
              )
        ]

    -- `dict_store` returns, and refines the update of a map: on success the key maps to the value
    -- and all other keys are as before, on failure the dictionary is the old one, and it succeeds if
    -- all the allocations that it needs succeed.
    pub dict_store-Stores : StoreResult a
    dict_store-Stores =
        let (i, found, finds) = lookup-Finds good.sound key pos in
        elim (Bool-cases a.newkey) [
          | inr refused ↦ (
            failed,
            d,
            store_no_key d key val a found refused,
            refused-Stores d key val good.sound good.counted,
            λ all. absurd (ground arith),
          )
          | inl got ↦ elim (Bool-cases (copies_string val && not a.newstr)) [
            | inl refused ↦ (
              failed,
              d,
              store_no_str d key val a found got refused,
              refused-Stores d key val good.sound good.counted,
              λ all. absurd (ground arith),
            )
            | inr copied ↦ elim (Bool-cases (not (is_live (slot d i).key) && is_crowded d)) [
              | inl crowded ↦ store_crowded found got copied crowded
              | inr roomy ↦ (
                done,
                commit d i key val,
                store_commits d key val a found got copied roomy,
                commit-Stores d key val good.sound finds good.counted,
                λ all. refl,
              )
            ]
          ]
        ]
