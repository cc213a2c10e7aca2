-- ===== src/Dict/Merge/Loop.antt =====
-- The loop over the entries of a dictionary, by `dict_enumerate_typed`.
use librustyaxe.Prelude.{
  ℕ, zero, suc, ◌+◌, ◌-◌, ◌≤◌, ◌<◌, ◌≡◌, refl, ap, ◌≢◌, ◌⊎◌, false, Option, none, some, List, [],
  ◌∷◌, arith, Bytes, leb, if◌then◌else◌, length, get_or, bytes_eq,
}
use librustyaxe.Dict.Types.{Value, Dict, KeyPair, live, vacant, slot, is_live, Status, done, failed}
use librustyaxe.Dict.View.{view, entry_value, first_some, find_value, entry_value-eq-none}
use librustyaxe.Dict.Tidy.{IsTidy}
use librustyaxe.Dict.Room.{Kept}
use librustyaxe.Dict.Counts.{unused_count}
use librustyaxe.Dict.Access.{dict_enumerate_typed, next_live, entry_at}

module _ (d : Dict) (r : ℕ) where
  pub enumerate_end : d.size ≤ r → dict_enumerate_typed d r ≡ none
  unfolding dict_enumerate_typed next_live
  enumerate_end h = let gone : d.size - r ≡ 0 = omega arith in rw gone (ground arith)

  pub enumerate_skip :
      r < d.size
      → is_live (slot d r).key ≡ false
      → dict_enumerate_typed d r ≡ dict_enumerate_typed d (r + 1)
  unfolding dict_enumerate_typed next_live
  enumerate_skip h free =
      let left : d.size - r ≡ suc (d.size - (r + 1)) = omega arith in rw (left, free) refl

  pub enumerate_here :
      {k : Bytes}
      → r < d.size
      → (slot d r).key ≡ live k
      → dict_enumerate_typed d r ≡ some (r + 1, k, (slot d r).val)
  unfolding dict_enumerate_typed next_live entry_at
  enumerate_here h here =
      let left : d.size - r ≡ suc (d.size - (r + 1)) = omega arith in
      let inside : leb d.size r ≡ false = ground arith in
      rw (left, here, inside) (rw (entry_at, here) refl)

-- The value under a key in the entries from a rank on.
unfoldable pub find_from : ℕ → List KeyPair → ℕ → Bytes → Option Value
unfolding entry_value first_some
find_from zero t r q = none
find_from (suc n) t r q =
    first_some (entry_value (get_or t r vacant).key (get_or t r vacant).val q)
      (find_from n t (suc r) q)

find_from-tail :
    (n : ℕ) (kp : KeyPair) (t : List KeyPair) (r : ℕ) (q : Bytes)
    → find_from n (kp ∷ t) (suc r) q ≡ find_from n t r q
unfolding find_from
find_from-tail zero kp t r q = refl
find_from-tail (suc n) kp t r q =
    ap (first_some (entry_value (get_or t r vacant).key (get_or t r vacant).val q))
      (find_from-tail n kp t (suc r) q)

pub find_from_all : (t : List KeyPair) (q : Bytes) → find_from (length t) t 0 q ≡ find_value t q
unfolding find_from find_value
find_from_all [] q = refl
find_from_all (kp ∷ t) q = rw (find_from-tail (length t) kp t 0 q, find_from_all t q) refl

pub find_from-absent :
    (n : ℕ) (t : List KeyPair) (r : ℕ) (q : Bytes)
    → ((s : ℕ) → r ≤ s → (get_or t s vacant).key ≢ live q)
    → find_from n t r q ≡ none
unfolding find_from
find_from-absent zero t r q h = refl
find_from-absent (suc n) t r q h =
    rw
      (
        entry_value-eq-none (get_or t r vacant).key (get_or t r vacant).val q (h r (omega arith)),
        find_from-absent n t (suc r) q (λ s le. h s (omega arith)),
      )
      refl

-- What a loop writes under a key, of what it found there.
abbrev pub Choice : Type 0
Choice = Bytes → Value → Option Value

abbrev pub pick : Choice → Bytes → Option Value → Option Value
pick choice q none = none
pick choice q (some v) = choice q v

-- A call of the body: it writes the choice under the key, if there is one.
pub record Writes (choice : Choice) (k : Bytes) (v : Value) (acc : Dict) (status : Status)
    (acc' : Dict) : Type 0 where
  pub kept : Kept acc acc'
  pub reads :
      status ≡ done
      → (q : Bytes)
      → view acc' q ≡ (if bytes_eq k q then first_some (choice k v) (view acc q) else view acc q)
  pub atomic : status ≡ failed → acc' ≡ acc

-- A run of the loop over the last n entries: if it ends in success then what was chosen stands over
-- what was there, and in any case each key has the one or the other.
pub record Folds (choice : Choice) (src : Dict) (n r : ℕ) (acc : Dict) (status : Status)
    (acc' : Dict) : Type 0 where
  pub tidy : IsTidy acc'
  pub room : 0 < unused_count acc'
  pub used_le : acc'.used ≤ acc.used + n
  pub fill_le : acc'.fill ≤ acc.fill + n
  pub reads :
      status ≡ done
      → (q : Bytes)
      → view acc' q ≡ first_some (pick choice q (find_from n src.table r q)) (view acc q)
  pub partial :
      (q : Bytes)
      → (view acc' q ≡ view acc q)
        ⊎ (view acc' q ≡ first_some (pick choice q (find_from n src.table r q)) (view acc q))
