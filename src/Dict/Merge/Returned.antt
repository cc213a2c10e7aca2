-- ===== src/Dict/Merge/Returned.antt =====
-- What a function of dict.c that returns a new dictionary promises of it.
use librustyaxe.Prelude.{
  ◌≡◌, refl, ◌≢◌, Bool, true, false, Option, none, some, Bytes, some-injective,
}
use librustyaxe.Dict.Types.{Value, Dict, Status, done, failed}
use librustyaxe.Dict.View.{view}
use librustyaxe.Dict.Tidy.{IsTidy}
use librustyaxe.Dict.Merge.{or_null}

-- A dictionary that is returned reads as said; with memory one is returned.
pub record Returned (granted : Bool) (all : Type 0) (map : Bytes → Option Value) (r : Option Dict)
    : Type 0 where
  pub reads : (d : Dict) → r ≡ some d → IsTidy d × ((q : Bytes) → view d q ≡ map q)
  pub given : granted ≡ true → all → r ≢ none

-- What is returned when the table of the new dictionary cannot be allocated.
pub refused-Returned :
    {granted : Bool} {all : Type 0} {map : Bytes → Option Value}
    → granted ≡ false
    → Returned granted all map none
refused-Returned e = record { reads = λ d x. absurd (cc x); given = λ g x y. absurd (cc (e, g)) }

-- What is returned after a call that failed is NULL.
pub failed-Returned :
    {granted : Bool} {all : Type 0} {map : Bytes → Option Value}
    → ¬ all
    → Returned granted all map none
failed-Returned h = record { reads = λ d x. absurd (cc x); given = λ g all y. h all }

pub some-Returned :
    {granted : Bool} {all : Type 0} {map : Bytes → Option Value} {d : Dict}
    → IsTidy d
    → ((q : Bytes) → view d q ≡ map q)
    → Returned granted all map (some d)
some-Returned {map = map} {d = d} tidy reads = record {
  reads = λ d₁ x. let same : d ≡ d₁ = some-injective x in rw (← same) (tidy, reads);
  given = λ g all y. absurd (cc y);
}

pub last-Returned :
    {granted : Bool} {all : Type 0} {map : Bytes → Option Value} {status : Status} {d : Dict}
    → IsTidy d
    → (status ≡ done → (q : Bytes) → view d q ≡ map q)
    → (all → status ≡ done)
    → Returned granted all map (or_null status d)
last-Returned {status = done} tidy reads ok = some-Returned tidy (reads refl)
last-Returned {status = failed} tidy reads ok = failed-Returned (λ all. absurd (cc (ok all)))
