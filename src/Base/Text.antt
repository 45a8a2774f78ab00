-- ===== src/Base/Text.antt =====
-- Texts as the bytes of their UTF-8 form: `str::from_utf8`, literals, and `Display` of a number.
use Prim.Native.Nat.{ℕ, zero, suc, ◌+◌, ◌/◌, ◌%◌, ◌<◌}
use Prim.Native.Char.{code}
use Prim.Native.String.{String}
use mathlib.Core.Path.{◌≡◌, refl}
use mathlib.Core.Bool.{Bool, true, false, ◌&&◌}
use mathlib.Core.List.{List, [], ◌∷◌}
use enzarb.Base.Tests.{ltb, leb, ◌==◌, if◌then◌else◌}

-- A Rust `String` or `&str`.
abbrev pub Str : Type 0
Str = List ℕ

abbrev pub IsByte : ℕ → Type 0
IsByte b = b < 256

-- The bytes of an ASCII literal.
unfoldable pub text : String → Str
text String.[] = []
text (String.◌∷◌ c s) = code c ∷ text s

-- `Display` of an unsigned integer. `n + 1` digits are more than enough for `n`.
show_digits : ℕ → ℕ → Str → Str
show_digits zero n rest = rest
show_digits (suc fuel) n rest =
    let tail = (b'0' + n % 10) ∷ rest in
    let more = show_digits fuel (n / 10) tail in if n / 10 == 0 then tail else more

unfoldable pub show : ℕ → Str
unfolding show_digits
show n = show_digits (suc n) n []

-- A byte between two bounds, as the tables of the UTF-8 standard give them.
abbrev pub between : ℕ → ℕ → ℕ → Bool
between lo hi b = leb lo b && leb b hi

abbrev continuation : ℕ → Bool
continuation = between 0x80 0xbf

abbrev starts_pair : ℕ → ℕ → Bool
starts_pair a b = between 0xc2 0xdf a && continuation b

-- The second byte of a form of three bytes: no overlong form and no surrogate.
abbrev starts_triple : ℕ → ℕ → Bool
starts_triple a b =
    between 0xe0 0xef a
    && between (if a == 0xe0 then 0xa0 else 0x80) (if a == 0xed then 0x9f else 0xbf) b

-- The second byte of a form of four bytes: nothing overlong, nothing past U+10FFFF.
abbrev starts_quad : ℕ → ℕ → Bool
starts_quad a b =
    between 0xf0 0xf4 a
    && between (if a == 0xf0 then 0x90 else 0x80) (if a == 0xf4 then 0x8f else 0xbf) b

-- Whether `std::str::from_utf8` accepts the bytes.
unfoldable pub is_utf8 : List ℕ → Bool
is_utf8 [] = true
is_utf8 (a ∷ []) = ltb a 0x80
is_utf8 (a ∷ b ∷ []) = let one = is_utf8 (b ∷ []) in if ltb a 0x80 then one else starts_pair a b
is_utf8 (a ∷ b ∷ c ∷ []) =
    let one = is_utf8 (b ∷ c ∷ []) in
    let two = is_utf8 (c ∷ []) in
    if ltb a 0x80 then one else if starts_pair a b then two else starts_triple a b && continuation c
is_utf8 (a ∷ b ∷ c ∷ d ∷ rest) =
    let one = is_utf8 (b ∷ c ∷ d ∷ rest) in
    let two = is_utf8 (c ∷ d ∷ rest) in
    let three = is_utf8 (d ∷ rest) in
    let four = is_utf8 rest in
    if ltb a 0x80
    then one
    else if starts_pair a b
    then two
    else if starts_triple a b && continuation c
    then three
    else if starts_quad a b && continuation c && continuation d
    then four
    else false

show_2050 : show 2050 ≡ text "2050"
unfolding show text
show_2050 = refl

-- "é€" is two forms, of two and three bytes.
is_utf8_two_forms : is_utf8 (0xc3 ∷ 0xa9 ∷ 0xe2 ∷ 0x82 ∷ 0xac ∷ []) ≡ true
unfolding is_utf8
is_utf8_two_forms = refl

is_utf8_surrogate : is_utf8 (0xed ∷ 0xa0 ∷ 0x80 ∷ []) ≡ false
unfolding is_utf8
is_utf8_surrogate = refl
