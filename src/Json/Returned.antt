-- ===== src/Json/Returned.antt =====
-- `json2dict` over the dictionary of dict.c returns.
use librustyaxe.Prelude.{
  ℕ, suc, ◌+◌, ◌*◌, ◌^◌, ◌≤◌, ◌<◌, ◌≡◌, refl, Option, none, some, [], ◌∷◌, Bool, Bytes, length,
  arith, some-injective, Bool-cases, inl, inr,
}
use librustyaxe.Dict.Types.{Value, Dict}
use librustyaxe.Dict.Counts.{unused_count}
use librustyaxe.Dict.Tidy.{IsTidy}
use librustyaxe.Dict.Room.{dict_store-Kept}
use librustyaxe.Dict.Refines.{dict_store-Stores}
use librustyaxe.Dict.Reads.{type_in, dict_get_type-view}
use librustyaxe.Dict.View.{view}
use librustyaxe.Dict.Store.{all_granted}
use librustyaxe.Dict.Merge.Fold.{Fits}
use librustyaxe.Dict.Merge.Copies.{dict_new-Fits}
use librustyaxe.Json.Parse.{skip_ws}
use librustyaxe.Json.Keyed.{dict_keys, is_there, is_done}
use librustyaxe.Json.Value.{is_end, whole, json2dict}
use librustyaxe.Json.Room.{IsTotal, Shorter}
use librustyaxe.Json.Total.{json_parse_value_total}

Fits-le : (m n : ℕ) (d : Dict) → m ≤ n → Fits n d → Fits m d
Fits-le m n d le fits = record {
  tidy = fits.tidy;
  room = fits.room;
  used_le = omega (arith, le, fits.used_le);
  fill_lt = omega (arith, le, fits.fill_lt);
}

dict_keys-has :
    (n : ℕ) (d : Dict) (k : Bytes) → Fits n d → (b : Bool) × (dict_keys.has d k ≡ some b)
dict_keys-has n d k fits =
    (is_there (type_in (view d k)), rw (dict_get_type-view fits.tidy.good.sound fits.room k) refl)

dict_keys-add :
    (n : ℕ) (d : Dict) (k : Bytes) (v : Value)
    → Fits (suc n) d
    → (r : Bool × Dict) × (dict_keys.add d k v ≡ some r) × Fits n r.1
dict_keys-add n d k v fits =
    let (status, d', run, x, y) = dict_store-Stores d k v all_granted fits.tidy.good fits.room in
    let kept =
      dict_store-Kept all_granted d fits.tidy k v (omega (arith, fits.used_le))
        (omega (arith, fits.fill_lt)) fits.room run in
    (
      (is_done status, d'),
      rw run refl,
      record {
        tidy = kept.tidy;
        room = kept.room;
        used_le = omega (arith, kept.used_le, fits.used_le);
        fill_lt = omega (arith, kept.fill_le, fits.fill_lt);
      },
    )

-- A dictionary without deleted entries and with a never-used one has room, up to 2^26 entries.
pub dict_keys-IsTotal : IsTotal dict_keys
dict_keys-IsTotal = record {
  HasRoom = Fits;
  limit = 2 ^ 26;
  empty = dict_new-Fits (2 ^ 26) (omega arith);
  less = Fits-le;
  has = dict_keys-has;
  add = dict_keys-add;
}

module _ (to_double : Bytes → Option ℕ) where
  whole-IsTidy :
      (s : Bytes) (d : Dict) (result : Option Bytes)
      → Shorter dict_keys to_double dict_keys-IsTotal s (d, result)
      → (d' : Dict) → whole dict_keys to_double d result ≡ some d'
      → IsTidy d' × (0 < unused_count d')
  unfolding whole dict_keys-IsTotal
  whole-IsTidy s d none fits d' e = absurd (cc e)
  whole-IsTidy s d (some rest) (l, fits) d' e = elim (Bool-cases (is_end (skip_ws rest))) [
    | inl h ↦ let same : d ≡ d' = some-injective (rw h at e) in rw (← same) (fits.tidy, fits.room)
    | inr h ↦ absurd (cc (rw h at e))
  ]

  -- For every text of at most 2^26 bytes, whatever its nesting and whatever `strtod` gives, `json2dict`
  -- over the dictionary of dict.c returns if the allocations succeed; and a dictionary that it returns
  -- is sound, has no deleted entries and a never-used one.
  pub json2dict_total :
      (s : Bytes)
      → length s ≤ 2 ^ 26
      → (r : Option Dict) × (json2dict dict_keys to_double s ≡ some r)
        × ((d : Dict) → r ≡ some d → IsTidy d × (0 < unused_count d))
  unfolding json2dict dict_keys-IsTotal
  json2dict_total [] h = (none, refl, λ d e. absurd (cc e))
  json2dict_total (c ∷ s) h =
      let fits = dict_new-Fits (length (c ∷ s)) h in
      let ((d, result), run, left) =
        json_parse_value_total dict_keys to_double dict_keys-IsTotal (2 * length (c ∷ s) + 1)
          (c ∷ s) [] dict_keys.empty 0 (omega arith) h fits in
      (whole dict_keys to_double d result, rw run refl, whole-IsTidy (c ∷ s) d result left)
