-- ===== src/Base/Strings.antt =====
-- The operations of `str` that the program uses, and maps keyed by strings in the order of insertion.
use Prim.Native.Nat.{ℕ}
use mathlib.Core.Path.{◌≡◌, refl}
use mathlib.Core.Logic.{◌⊎◌, inl, inr}
use mathlib.Core.Bool.{Bool, true, false, ◌&&◌, ◌||◌}
use mathlib.Core.Option.{Option, none, some}
use mathlib.Core.List.{List, [], ◌∷◌, ◌++◌, map}
use native.Mathlib.Omega.{arith}
use enzarb.Base.Tests.{ltb, ◌==◌, if◌then◌else◌, is_some, Bool-cases, some_inj}
use enzarb.Base.Lists.{any}
use enzarb.Base.Text.{Str, between}

-- `==` of two strings.
unfoldable pub str_eq : Str → Str → Bool
str_eq [] [] = true
str_eq [] (y ∷ ys) = false
str_eq (x ∷ xs) [] = false
str_eq (x ∷ xs) (y ∷ ys) = x == y && str_eq xs ys

pub str_eq_refl : (a : Str) → str_eq a a ≡ true
unfolding str_eq
str_eq_refl [] = refl
str_eq_refl (x ∷ a) = ground (arith, str_eq_refl a)

pub str_eq_sound : (a b : Str) → str_eq a b ≡ true → a ≡ b
unfolding str_eq
str_eq_sound [] [] h = refl
str_eq_sound [] (y ∷ b) h = ground arith
str_eq_sound (x ∷ a) [] h = ground arith
str_eq_sound (x ∷ a) (y ∷ b) h = ground (arith, str_eq_sound a b)

-- `<` of two strings: by their bytes.
unfoldable pub str_lt : Str → Str → Bool
str_lt [] [] = false
str_lt [] (y ∷ ys) = true
str_lt (x ∷ xs) [] = false
str_lt (x ∷ xs) (y ∷ ys) = ltb x y || (x == y && str_lt xs ys)

-- `msg.starts_with(part)`
unfoldable pub starts_with : Str → Str → Bool
starts_with [] msg = true
starts_with (p ∷ part) [] = false
starts_with (p ∷ part) (m ∷ msg) = p == m && starts_with part msg

-- `msg.contains(part)`
unfoldable pub contains_str : Str → Str → Bool
unfolding starts_with
contains_str [] part = starts_with part []
contains_str (m ∷ msg) part = starts_with part (m ∷ msg) || contains_str msg part

-- `list.contains(&s)`
abbrev pub has : List Str → Str → Bool
has xs s = any (λ x. str_eq x s) xs

-- `s.split(c)`, never empty: the first part, and the others.
unfoldable pub split_parts : ℕ → Str → Str × List Str
split_parts c [] = ([], [])
split_parts c (x ∷ xs) =
    let (first, rest) = split_parts c xs in if x == c then ([], first ∷ rest) else (x ∷ first, rest)

-- `s.split_once(c)`
unfoldable pub split_once : ℕ → Str → Option (Str × Str)
split_once c [] = none
split_once c (x ∷ xs) =
    let rest = split_once c xs in
    if x == c then some ([], xs) else elim rest [ none ↦ none | some p ↦ some (x ∷ p.0, p.1) ]

-- `parts.join(sep)`
unfoldable pub join : Str → List Str → Str
join sep [] = []
join sep (s ∷ []) = s
join sep (s ∷ t ∷ rest) = s ++ sep ++ join sep (t ∷ rest)

-- Characters with the property White_Space, by the bytes of their UTF-8 forms.
abbrev white_one : ℕ → Bool
white_one a = between 9 13 a || a == 32

abbrev white_two : ℕ → ℕ → Bool
white_two a b = a == 0xc2 && (b == 0x85 || b == 0xa0)

abbrev white_three : ℕ → ℕ → ℕ → Bool
white_three a b c =
    (a == 0xe1 && (b == 0x9a && c == 0x80))
    || (a == 0xe2 && (b == 0x80 && (between 0x80 0x8a c || (between 0xa8 0xa9 c || c == 0xaf))))
    || (a == 0xe2 && (b == 0x81 && c == 0x9f))
    || (a == 0xe3 && (b == 0x80 && c == 0x80))

-- Drops the white space in front; the tests say which two and which three bytes are white space.
strip : (ℕ → ℕ → Bool) → (ℕ → ℕ → ℕ → Bool) → Str → Str
strip two three [] = []
strip two three (a ∷ []) = if white_one a then [] else a ∷ []
strip two three (a ∷ b ∷ []) =
    let rest = strip two three (b ∷ []) in
    if white_one a then rest else if two a b then [] else a ∷ b ∷ []
strip two three (a ∷ b ∷ c ∷ s) =
    let one = strip two three (b ∷ c ∷ s) in
    let rest = strip two three (c ∷ s) in
    let far = strip two three s in
    if white_one a
    then one
    else if two a b
    then rest
    else if three a b c
    then far
    else a ∷ b ∷ c ∷ s

reversed : Str → Str → Str
reversed [] acc = acc
reversed (x ∷ xs) acc = reversed xs (x ∷ acc)

-- `s.trim()`; its end is stripped over the reversed bytes.
unfoldable pub trim : Str → Str
unfolding strip reversed
trim s =
    let front = strip white_two white_three s in
    reversed (strip (λ b a. white_two a b) (λ c b a. white_three a b c) (reversed front [])) []

-- An `IndexMap<String, V>` or `BTreeMap<String, V>`: its entries, the keys distinct.
module _ {ℓ} {V : Type ℓ} where
  -- `map.get(key)`
  unfoldable pub find : Str → List (Str × V) → Option V
  find k [] = none
  find k (e ∷ d) = if str_eq e.0 k then some e.1 else find k d

  -- `map.contains_key(key)`
  abbrev pub has_key : Str → List (Str × V) → Bool
  has_key k d = is_some (find k d)

  -- `map.keys()`
  abbrev pub keys : List (Str × V) → List Str
  keys d = map (λ e. e.0) d

  pub find-cases :
      (k : Str) (e : Str × V) (d : List (Str × V)) (v : V)
      → find k (e ∷ d) ≡ some v
      → ((e.0 ≡ k) × (e.1 ≡ v)) ⊎ ((str_eq e.0 k ≡ false) × (find k d ≡ some v))
  unfolding find
  find-cases k e d v f = elim (Bool-cases (str_eq e.0 k)) [
    | inl h ↦ inl (str_eq_sound e.0 k h, some_inj (rw h at f))
    | inr h ↦ inr (h, rw h at f)
  ]

  pub find-nil : (k : Str) (v : V) → find k [] ≡ some v → ⊥
  unfolding find
  find-nil k v f = ground arith

-- `"a é ".trim()` and the white space of two forms around a letter.
trim_letter : trim (32 ∷ 0xc2 ∷ 0xa0 ∷ 97 ∷ 0xe2 ∷ 0x80 ∷ 0xa8 ∷ 10 ∷ []) ≡ 97 ∷ []
unfolding trim strip reversed
trim_letter = refl
