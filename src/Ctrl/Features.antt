-- ===== src/Ctrl/Features.antt =====
-- ctrl.rs, `sanitize_features`, and lib.rs, `negotiate_version`: what the handshake agrees on.
use enzarb.Base.{
  ℕ, zero, suc, ◌≤◌, max, Bool, true, false, not, ◌&&◌, Option, none, some, List, [], ◌∷◌, ◌≡◌,
  refl, ap, arith, leb, ◌==◌, if◌then◌else◌, length, take, is_empty, All, ◌⊎◌, inl, inr,
  Option-cases, Bool-cases, ==_refl, length-take, take_all,
}
use enzarb.Base.Text.{Str}
use enzarb.Base.Dict.{mem}

abbrev pub max_features : ℕ
max_features = 64

abbrev pub max_feature_len : ℕ
max_feature_len = 64

abbrev keeps : Str → Bool
keeps f = not (is_empty f) && leb (length f) max_feature_len

filter_features : List Str → List Str
filter_features [] = []
filter_features (f ∷ fs) = if keeps f then f ∷ filter_features fs else filter_features fs

abbrev unwrap_or_default : Option (List Str) → List Str
unwrap_or_default none = []
unwrap_or_default (some fs) = fs

unfoldable pub sanitize_features : Option (List Str) → List Str
unfolding filter_features
sanitize_features features = take max_features (filter_features (unwrap_or_default features))

-- `pub const SUPPORTED_VERSIONS`
abbrev pub supported_versions : List ℕ
supported_versions = 1 ∷ []

-- `.filter(|v| supported.contains(v))`
common : List ℕ → List ℕ → List ℕ
common [] supported = []
common (v ∷ vs) supported = if mem v supported then v ∷ common vs supported else common vs supported

-- `Iterator::max`
maximum : List ℕ → Option ℕ
maximum [] = none
maximum (v ∷ vs) = some (elim (maximum vs) [ none ↦ v | some m ↦ max v m ])

unfoldable pub negotiate_version : List ℕ → List ℕ → Option ℕ
unfolding common maximum
negotiate_version client_versions supported = maximum (common client_versions supported)

-- A feature that the list may hold.
abbrev pub IsFeature : Str → Type 0
IsFeature f = (1 ≤ length f) × (length f ≤ max_feature_len)

IsFeature-keeps : (f : Str) → keeps f ≡ true → IsFeature f
IsFeature-keeps [] h = cc
IsFeature-keeps (x ∷ f) h = ground arith

keeps-IsFeature : (f : Str) → IsFeature f → keeps f ≡ true
keeps-IsFeature [] h = absurd (omega arith)
keeps-IsFeature (x ∷ f) h = ground arith

filter_features-IsFeature : (fs : List Str) → All IsFeature (filter_features fs)
unfolding filter_features
filter_features-IsFeature [] = tt
filter_features-IsFeature (f ∷ fs) = elim (Bool-cases (keeps f)) [
  | inl k ↦ rw k (IsFeature-keeps f k, filter_features-IsFeature fs)
  | inr k ↦ rw k (filter_features-IsFeature fs)
]

take-All : (n : ℕ) (fs : List Str) → All IsFeature fs → All IsFeature (take n fs)
take-All zero fs h = tt
take-All (suc n) [] h = tt
take-All (suc n) (f ∷ fs) h = (h.0, take-All n fs h.1)

-- Whatever a peer sends, at most 64 features are kept, each of 1 to 64 bytes.
pub sanitize_features_bounds :
    (features : Option (List Str))
    → All IsFeature (sanitize_features features)
      × (length (sanitize_features features) ≤ max_features)
unfolding sanitize_features
sanitize_features_bounds features =
    let fs = filter_features (unwrap_or_default features) in
    (
      take-All max_features fs (filter_features-IsFeature (unwrap_or_default features)),
      omega (arith, length-take max_features fs),
    )

filter_features_id : (fs : List Str) → All IsFeature fs → filter_features fs ≡ fs
unfolding filter_features
filter_features_id [] h = refl
filter_features_id (f ∷ fs) h =
    rw (keeps-IsFeature f h.0) (ap (λ l. f ∷ l) (filter_features_id fs h.1))

-- A list of at most 64 well-formed features passes unchanged, so nothing an up-to-date peer
-- advertises is lost.
pub sanitize_features_id :
    (fs : List Str) → All IsFeature fs → length fs ≤ max_features → sanitize_features (some fs) ≡ fs
unfolding sanitize_features
sanitize_features_id fs h n = rw (filter_features_id fs h) (take_all max_features fs n)

maximum-mem : (vs : List ℕ) (v : ℕ) → maximum vs ≡ some v → mem v vs ≡ true
unfolding maximum
maximum-mem [] v h = cc
maximum-mem (x ∷ vs) v h = elim (Option-cases (maximum vs)) [
  | inl e ↦ ground (arith, e)
  | inr (m, e) ↦ ground (arith, e, maximum-mem vs m e)
]

maximum-none : (vs : List ℕ) (u : ℕ) → maximum vs ≡ none → mem u vs ≡ false
unfolding maximum
maximum-none [] u h = refl
maximum-none (x ∷ vs) u h = cc

maximum-le : (vs : List ℕ) (v u : ℕ) → maximum vs ≡ some v → mem u vs ≡ true → u ≤ v
unfolding maximum
maximum-le [] v u h k = cc
maximum-le (x ∷ vs) v u h k = elim (Option-cases (maximum vs)) [
  | inl e ↦ ground (arith, e, maximum-none vs u e)
  | inr (m, e) ↦ ground (arith, e, maximum-le vs m u e)
]

mem-common : (v : ℕ) (vs s : List ℕ) → mem v (common vs s) ≡ (mem v vs && mem v s)
unfolding common
mem-common v [] s = refl
mem-common v (x ∷ vs) s = elim (Bool-cases (x == v)) [
  | inl e ↦ let q : x ≡ v = ground arith in rw q (ground (arith, mem-common v vs s, ==_refl v))
  | inr e ↦ ground (arith, mem-common v vs s)
]

-- The version agreed on is in both lists.
pub negotiate_version-mem :
    (client supported : List ℕ) (v : ℕ)
    → negotiate_version client supported ≡ some v
    → (mem v client ≡ true) × (mem v supported ≡ true)
unfolding negotiate_version
negotiate_version-mem client supported v h =
    let m = mem-common v client supported in
    let k = maximum-mem (common client supported) v h in
    (ground (arith, m, k), ground (arith, m, k))

-- The version agreed on is one that both sides speak, and no version that both speak is higher.
negotiate_version-some :
    (client supported : List ℕ) (v u : ℕ)
    → negotiate_version client supported ≡ some v
    → mem u client ≡ true
    → mem u supported ≡ true
    → (mem v client ≡ true) × (mem v supported ≡ true) × (u ≤ v)
unfolding negotiate_version
negotiate_version-some client supported v u h a b =
    let (m, k) = negotiate_version-mem client supported v h in
    (m, k, maximum-le (common client supported) v u h (rw (mem-common u client supported, a, b)))

-- No version is agreed on only if the sides share none.
negotiate_version-none :
    (client supported : List ℕ) (u : ℕ)
    → negotiate_version client supported ≡ none
    → mem u client ≡ true
    → mem u supported ≡ false
unfolding negotiate_version
negotiate_version-none client supported u h a =
    ground (arith, mem-common u client supported, maximum-none (common client supported) u h)

all_of-mem : {P : ℕ → Type 0} (vs : List ℕ) → ((u : ℕ) → mem u vs ≡ true → P u) → All P vs
all_of-mem [] h = tt
all_of-mem (x ∷ vs) h =
    (h x (ground (arith, ==_refl x)), all_of-mem vs (λ u k. h u (ground (arith, k))))

-- Each version that the client offers is one that the server lacks, or is not above the one agreed on.
pub negotiate_version-highest :
    (client supported : List ℕ) (v : ℕ)
    → negotiate_version client supported ≡ some v
    → All (λ u. (mem u supported ≡ false) ⊎ (u ≤ v)) client
negotiate_version-highest client supported v h = all_of-mem client (λ u k.
    elim (Bool-cases (mem u supported)) [
      | inl t ↦ inr (negotiate_version-some client supported v u h k t).2
      | inr f ↦ inl f
    ])

-- Without an agreement the server lacks each version that the client offers.
pub negotiate_version-apart :
    (client supported : List ℕ)
    → negotiate_version client supported ≡ none
    → All (λ u. mem u supported ≡ false) client
negotiate_version-apart client supported h =
    all_of-mem client (λ u k. negotiate_version-none client supported u h k)
