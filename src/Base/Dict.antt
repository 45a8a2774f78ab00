-- ===== src/Base/Dict.antt =====
-- Hash maps and sets keyed by numbers, as association lists and lists without order.
use Prim.Native.Nat.{ℕ}
use mathlib.Core.Path.{◌≡◌}
use mathlib.Core.Bool.{Bool, false, ◌||◌}
use mathlib.Core.Option.{Option, none, some}
use mathlib.Core.List.{List, [], ◌∷◌}
use native.Mathlib.Omega.{arith}
use enzarb.Base.Tests.{◌==◌, if◌then◌else◌, is_some}

module _ {ℓ} {V : Type ℓ} where
  abbrev pub lookup : ℕ → List (ℕ × V) → Option V
  lookup k [] = none
  lookup k (e ∷ d) = if e.0 == k then some e.1 else lookup k d

  abbrev pub contains : ℕ → List (ℕ × V) → Bool
  contains k d = is_some (lookup k d)

  abbrev pub erase : ℕ → List (ℕ × V) → List (ℕ × V)
  erase k [] = []
  erase k (e ∷ d) = if e.0 == k then erase k d else e ∷ erase k d

  abbrev pub insert : ℕ → V → List (ℕ × V) → List (ℕ × V)
  insert k v d = (k, v) ∷ erase k d

  pub lookup-erase :
      (j k : ℕ) (d : List (ℕ × V)) → lookup j (erase k d) ≡ (if k == j then none else lookup j d)
  lookup-erase j k [] = ground arith
  lookup-erase j k (e ∷ d) = ground (arith, lookup-erase j k d)

  pub lookup-insert :
      (j k : ℕ) (v : V) (d : List (ℕ × V))
      → lookup j (insert k v d) ≡ (if k == j then some v else lookup j d)
  lookup-insert j k v d = ground (arith, lookup-erase j k d)

abbrev pub mem : ℕ → List ℕ → Bool
mem k [] = false
mem k (x ∷ xs) = x == k || mem k xs

abbrev pub remove : ℕ → List ℕ → List ℕ
remove k [] = []
remove k (x ∷ xs) = if x == k then remove k xs else x ∷ remove k xs

abbrev pub add : ℕ → List ℕ → List ℕ
add k xs = k ∷ remove k xs

pub mem-remove :
    (j k : ℕ) (xs : List ℕ) → mem j (remove k xs) ≡ (if k == j then false else mem j xs)
mem-remove j k [] = ground arith
mem-remove j k (x ∷ xs) = ground (arith, mem-remove j k xs)
