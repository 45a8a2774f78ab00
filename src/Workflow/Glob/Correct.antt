-- ===== src/Workflow/Glob/Correct.antt =====
-- A glob matches exactly the names that its text describes.
use enzarb.Base.{
  ℕ, ◌≡◌, ◌≢◌, refl, sym, ap, ◌∙◌, ◌↔◌, inl, inr, true, false, List, [], ◌∷◌, ◌++◌, append_assoc,
  ◌==◌, Bool-cases, arith,
}
use enzarb.Base.Text.{Str}
use enzarb.Base.Strings.{str_eq_refl, str_eq_sound, split_parts}
use enzarb.Workflow.Glob.{last_of, before_last, matches_parts, glob_matches}
use enzarb.Workflow.Glob.Search.{InOrder, InParts, matches_parts_sound, matches_parts_complete}

-- `*` matches any run of characters; everything else is literal.
pub data Matches : Str → Str → Type 0 where
  empty : Matches [] []
  literal : {c : ℕ} {g n : Str} → c ≢ b'*' → Matches g n → Matches (c ∷ g) (c ∷ n)
  star : (gap : Str) {g n m : Str} → m ≡ gap ++ n → Matches g n → Matches (b'*' ∷ g) m

-- The parts of a glob, each behind a gap.
Pieces : Str → List Str → Str → Type 0
Pieces first [] n = n ≡ first
Pieces first (p ∷ ps) n = (gap : Str) × (r : Str) × (n ≡ first ++ (gap ++ r)) × Pieces p ps r

regroup : (a b c d : Str) → (a ++ (b ++ c)) ++ d ≡ a ++ (b ++ (c ++ d))
regroup a b c d = append_assoc a (b ++ c) d ∙ ap (λ l. a ++ l) (append_assoc b c d)

Pieces-InParts :
    (first p : Str) (ps : List Str) (n : Str) → Pieces first (p ∷ ps) n → InParts first p ps n
unfolding Pieces InParts InOrder last_of before_last
Pieces-InParts first p [] n (gap, r, e, q) = (gap, e ∙ ap (λ l. first ++ (gap ++ l)) q, tt)
Pieces-InParts first p (q ∷ qs) n (gap, r, e, w) =
    let (mid, f, i) = Pieces-InParts p q qs r w in
    (
      gap ++ (p ++ mid),
      e
          ∙ ap (λ l. first ++ (gap ++ l)) f
          ∙ ap (λ l. first ++ l) (sym (regroup gap p mid (last_of q qs))),
      (gap, mid, refl, i),
    )

InParts-Pieces :
    (first p : Str) (ps : List Str) (n : Str) → InParts first p ps n → Pieces first (p ∷ ps) n
unfolding Pieces InParts InOrder last_of before_last
InParts-Pieces first p [] n (mid, e, i) = (mid, p, e, refl)
InParts-Pieces first p (q ∷ qs) n (mid, e, (gap, m, f, i)) = (
  gap,
  p ++ (m ++ last_of q qs),
  e
      ∙ ap (λ l. first ++ (l ++ last_of q qs)) f
      ∙ ap (λ l. first ++ l) (regroup gap p m (last_of q qs)),
  InParts-Pieces p q qs (p ++ (m ++ last_of q qs)) (m, refl, i),
)

Pieces-cons :
    (c : ℕ) (first : Str) (ps : List Str) (n : Str)
    → Pieces first ps n
    → Pieces (c ∷ first) ps (c ∷ n)
unfolding Pieces
Pieces-cons c first [] n w = ap (λ l. c ∷ l) w
Pieces-cons c first (p ∷ ps) n (gap, r, e, w) = (gap, r, ap (λ l. c ∷ l) e, w)

Pieces-uncons :
    (c : ℕ) (first : Str) (ps : List Str) (n : Str)
    → Pieces (c ∷ first) ps n
    → (m : Str) × (n ≡ c ∷ m) × Pieces first ps m
unfolding Pieces
Pieces-uncons c first [] n w = (first, w, refl)
Pieces-uncons c first (p ∷ ps) n (gap, r, e, w) = (first ++ (gap ++ r), e, (gap, r, refl, w))

unfoldable first_of : Str → Str
first_of g = (split_parts b'*' g).0

unfoldable rest_of : Str → List Str
rest_of g = (split_parts b'*' g).1

first_of-star : (g : Str) → first_of (b'*' ∷ g) ≡ []
unfolding first_of split_parts
first_of-star g = refl

rest_of-star : (g : Str) → rest_of (b'*' ∷ g) ≡ first_of g ∷ rest_of g
unfolding first_of rest_of split_parts
rest_of-star g = refl

first_of-other : (c : ℕ) (g : Str) → (c == b'*') ≡ false → first_of (c ∷ g) ≡ c ∷ first_of g
unfolding first_of split_parts
first_of-other c g h = rw (h, first_of) refl

rest_of-other : (c : ℕ) (g : Str) → (c == b'*') ≡ false → rest_of (c ∷ g) ≡ rest_of g
unfolding rest_of split_parts
rest_of-other c g h = rw (h, rest_of) refl

first_of-nil : first_of [] ≡ []
unfolding first_of split_parts
first_of-nil = refl

Pieces-star :
    (f : Str) (ps : List Str) (n gap r : Str) → n ≡ gap ++ r → Pieces f ps r → Pieces [] (f ∷ ps) n
unfolding Pieces
Pieces-star f ps n gap r e w = (gap, r, e, w)

star-Pieces :
    (f : Str) (ps : List Str) (n : Str)
    → Pieces [] (f ∷ ps) n
    → (gap : Str) × (r : Str) × (n ≡ gap ++ r) × Pieces f ps r
unfolding Pieces
star-Pieces f ps n w = w

Pieces-nil : (n : Str) → Pieces (first_of []) (rest_of []) n ↔ (n ≡ [])
unfolding Pieces split_parts first_of rest_of
Pieces-nil n = (λ w. w, λ w. w)

Matches-Pieces : (g n : Str) → Matches g n → Pieces (first_of g) (rest_of g) n
Matches-Pieces _ _ empty = (Pieces-nil []).1 refl
Matches-Pieces _ _ (literal {c = c} {g = g} {n = n} d m) =
    let h : (c == b'*') ≡ false = ground arith in
    rw (first_of-other c g h, rest_of-other c g h)
      (Pieces-cons c (first_of g) (rest_of g) n (Matches-Pieces g n m))
Matches-Pieces _ _ (star gap {g = g} {n = n} {m = m} e w) =
    rw (first_of-star g, rest_of-star g)
      (Pieces-star (first_of g) (rest_of g) m gap n e (Matches-Pieces g n w))

Pieces-Matches : (g n : Str) → Pieces (first_of g) (rest_of g) n → Matches g n
Pieces-Matches [] n w = rw ((Pieces-nil n).0 w) empty
Pieces-Matches (c ∷ g) n w = elim (Bool-cases (c == b'*')) [
  | inl h ↦
      let k : c ≡ b'*' = ground arith in
      let w' : Pieces (first_of (b'*' ∷ g)) (rest_of (b'*' ∷ g)) n = rw (← k) w in
      let (gap, r, e, v) =
        star-Pieces (first_of g) (rest_of g) n (rw (first_of-star g, rest_of-star g) at w') in
      rw (k) (star gap e (Pieces-Matches g r v))
  | inr h ↦
      let (m, e, v) =
        Pieces-uncons c (first_of g) (rest_of g) n
          (rw (first_of-other c g h, rest_of-other c g h) at w) in
      rw (e) (literal (λ q. ground (arith, h, q)) (Pieces-Matches g m v))
]

-- A glob without a star is its only part.
rest_of-whole : (g : Str) → rest_of g ≡ [] → first_of g ≡ g
rest_of-whole [] h = first_of-nil
rest_of-whole (c ∷ g) h = elim (Bool-cases (c == b'*')) [
  | inl k ↦
      let q : c ≡ b'*' = ground arith in
      let h' : rest_of (b'*' ∷ g) ≡ [] = rw (← q) h in
      absurd (ground (arith, rw (rest_of-star g) at h'))
  | inr k ↦
      rw (first_of-other c g k) (ap (λ l. c ∷ l) (rest_of-whole g (rw (rest_of-other c g k) at h)))
]

matches_parts_iff :
    (glob first : Str) (ps : List Str) (n : Str)
    → (ps ≡ [] → first ≡ glob)
    → (matches_parts glob first ps n ≡ true) ↔ Pieces first ps n
unfolding Pieces matches_parts
matches_parts_iff glob first [] n h =
    (λ e. sym (h refl ∙ str_eq_sound glob n e), λ w. rw (w, h refl) (str_eq_refl glob))
matches_parts_iff glob first (p ∷ ps) n h = (
  λ e. InParts-Pieces first p ps n (matches_parts_sound glob first p ps n e),
  λ w. matches_parts_complete glob first p ps n (Pieces-InParts first p ps n w),
)

-- A glob of `mcp_tools` matches a name exactly when the name is the glob's text with each `*` replaced by some run of bytes.
pub glob_matches_iff : (glob name : Str) → (glob_matches glob name ≡ true) ↔ Matches glob name
unfolding glob_matches first_of rest_of
glob_matches_iff glob name =
    let q = matches_parts_iff glob (first_of glob) (rest_of glob) name (rest_of-whole glob) in
    (λ e. Pieces-Matches glob name (q.0 e), λ m. q.1 (Matches-Pieces glob name m))
