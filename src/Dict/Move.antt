-- ===== src/Dict/Move.antt =====
-- The loop of `dict_resize` that moves the entries of the old table.
use librustyaxe.Prelude.{
  ℕ, suc, ◌+◌, ◌≤◌, ◌<◌, ◌≡◌, refl, ◌∙◌, inl, inr, true, false, Option, none, some, List, [], ◌∷◌,
  arith, Bytes, get_or, bytes_eq, bytes_eq_sound, Bool-cases,
}
use librustyaxe.Dict.Types.{Value, Dict, KeyPair, Key-cases, live, vacant, is_live, done}
use librustyaxe.Dict.View.{view, find_value, first_some, entry_value, IsUnique}
use librustyaxe.Dict.Counts.{one_live, weigh, live_count, unused_count, weigh-cons}
use librustyaxe.Dict.Sound.{IsSound}
use librustyaxe.Dict.Commit.{Stored, dict_add_p_total}
use librustyaxe.Dict.Store.{dict_add_p, move_entries}

module _ (kp : KeyPair) (rest : List KeyPair) (n old : Dict) where
  pub move_skip : is_live kp.key ≡ false → move_entries (kp ∷ rest) n old ≡ move_entries rest n old
  unfolding move_entries
  move_skip e = ground arith

  pub move_next :
      {n' : Dict}
      → is_live kp.key ≡ true
      → dict_add_p n kp ≡ some (done, n')
      → move_entries (kp ∷ rest) n old ≡ move_entries rest n' old
  unfolding move_entries
  move_next e run = ground arith

-- A sound dictionary that holds what `n` does and, for other keys, what the list does.
pub record Moved (rest : List KeyPair) (n d' : Dict) : Type 0 where
  pub sound : IsSound d'
  pub reads : (q : Bytes) → view d' q ≡ first_some (view n q) (find_value rest q)
  pub size : d'.size ≡ n.size
  pub room : unused_count n ≤ unused_count d' + weigh one_live rest
  pub counted : n.used ≡ live_count n → d'.used ≡ live_count d'

-- None of the keys of a list is in `n`, and each is there once.
pub record IsApart (rest : List KeyPair) (n : Dict) : Type 0 where
  pub unique : IsUnique rest
  pub absent : (s : ℕ) (q : Bytes) → (get_or rest s vacant).key ≡ live q → view n q ≡ none

IsApart-tail :
    {kp : KeyPair} {rest : List KeyPair} {n : Dict} → IsApart (kp ∷ rest) n → IsApart rest n
IsApart-tail h = record {
  unique = λ s u q a b. omega (arith, h.unique (suc s) (suc u) q a b);
  absent = λ s q e. h.absent (suc s) q e;
}

first_some-none : (a : Option Value) → a ≡ first_some a none
unfolding first_some
first_some-none none = refl
first_some-none (some a) = refl

Moved-nil : (n : Dict) → IsSound n → Moved [] n n
unfolding find_value weigh
Moved-nil n sound = record {
  sound = sound;
  reads = λ q. first_some-none (view n q);
  size = refl;
  room = omega arith;
  counted = λ c. c;
}

Moved-skip :
    (kp : KeyPair) {rest : List KeyPair} {n d' : Dict}
    → is_live kp.key ≡ false
    → Moved rest n d'
    → Moved (kp ∷ rest) n d'
unfolding find_value entry_value first_some weigh
Moved-skip kp {rest} {n} free h = record {
  sound = h.sound;
  reads = λ q. ground (arith, h.reads q);
  size = h.size;
  room = ground (arith, h.room);
  counted = h.counted;
}

Moved-step :
    (kp : KeyPair) {rest : List KeyPair} {n n' d' : Dict} {b : Bytes}
    → kp.key ≡ live b
    → view n b ≡ none
    → Stored n b kp.val n'
    → (n.used ≡ live_count n → n'.used ≡ live_count n')
    → Moved rest n' d'
    → Moved (kp ∷ rest) n d'
unfolding find_value entry_value first_some weigh
Moved-step kp {rest} {n} {b = b} e new st counts h = record {
  sound = h.sound;
  reads = λ q. ground (arith, h.reads q, st.reads q, bytes_eq_sound b q);
  size = h.size ∙ st.size;
  room = ground (arith, h.room, st.room);
  counted = λ c. h.counted (counts c);
}

-- The keys that are left are apart from the dictionary with the first one added.
IsApart-step :
    (kp : KeyPair) {rest : List KeyPair} {n n' : Dict} {b : Bytes}
    → kp.key ≡ live b
    → Stored n b kp.val n'
    → IsApart (kp ∷ rest) n
    → IsApart rest n'
IsApart-step kp {rest} {n} {n'} {b} e st h = record {
  unique = λ s u q x y. omega (arith, h.unique (suc s) (suc u) q x y);
  absent = λ s q x. elim (Bool-cases (bytes_eq b q)) [
    | inl same ↦
        let twice = h.unique 0 (suc s) q (rw (bytes_eq_sound b q same) at e) x in
        absurd (omega (arith, twice))
    | inr differs ↦ ground (arith, st.reads q, h.absent (suc s) q x)
  ];
}

skip_total :
    (kp : KeyPair) (rest : List KeyPair) (n old : Dict)
    → is_live kp.key ≡ false
    → (d' : Dict) × (move_entries rest n old ≡ some (done, d')) × Moved rest n d'
    → (d' : Dict) × (move_entries (kp ∷ rest) n old ≡ some (done, d')) × Moved (kp ∷ rest) n d'
skip_total kp rest n old free (d', run, m) =
    (d', move_skip kp rest n old free ∙ run, Moved-skip kp free m)

pub free_weight :
    (kp : KeyPair) (rest : List KeyPair)
    → is_live kp.key ≡ false
    → weigh one_live (kp ∷ rest) ≡ weigh one_live rest
free_weight kp rest free = ground (arith, weigh-cons one_live kp rest)

pub live_weight :
    (kp : KeyPair) (rest : List KeyPair)
    → is_live kp.key ≡ true
    → weigh one_live (kp ∷ rest) ≡ weigh one_live rest + 1
live_weight kp rest used = ground (arith, weigh-cons one_live kp rest)

-- With a free entry for each, all live entries of a list are moved.
pub move_entries_total :
    (rest : List KeyPair) (n old : Dict)
    → IsSound n
    → IsApart rest n
    → weigh one_live rest < unused_count n
    → (d' : Dict) × (move_entries rest n old ≡ some (done, d')) × Moved rest n d'
move_entries_total [] n old sound apart room = (n, unfold move_entries in refl, Moved-nil n sound)
move_entries_total (kp ∷ rest) n old sound apart room = elim (Key-cases kp.key) [
  | inl e ↦ skip_total kp rest n old (rw e) (
      move_entries_total rest n old sound (IsApart-tail apart)
        (omega (arith, free_weight kp rest (rw e))))
  | inr (inl e) ↦ skip_total kp rest n old (rw e) (
      move_entries_total rest n old sound (IsApart-tail apart)
        (omega (arith, free_weight kp rest (rw e))))
  | inr (inr (b, e)) ↦
      let (n', run, st, counts) = dict_add_p_total n kp e sound (omega arith) in
      let more = live_weight kp rest (rw e) in
      let (d', moved, m) =
        move_entries_total rest n' old st.sound (IsApart-step kp e st apart)
          (omega (arith, st.room, more)) in
      (
        d',
        move_next kp rest n old (rw e) run ∙ moved,
        Moved-step kp e (apart.absent 0 b e) st (counts (apart.absent 0 b e)) m,
      )
]
