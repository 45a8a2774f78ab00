-- ===== src/Workflow/Glob/Search.antt =====
-- The search for the parts of a glob: it takes the first place for each, and misses nothing by that.
use enzarb.Base.{
  ℕ, zero, suc, ◌+◌, ◌-◌, ◌≤◌, ◌≡◌, refl, sym, ap, ◌∙◌, inl, inr, true, false, some, List, [], ◌∷◌,
  ◌++◌, append_assoc, length, length-append, take, drop, take-append, drop-append, take-append-drop,
  ltb, Bool-cases, Option-cases, some_inj, arith,
}
use enzarb.Base.Text.{Str}
use enzarb.Base.Strings.{str_eq_refl, str_eq_sound, starts_with}
use enzarb.Workflow.Glob.{ends_with, after, last_of, before_last, in_order, matches_parts}

starts_with_sound : (p n : Str) → starts_with p n ≡ true → n ≡ p ++ drop (length p) n
unfolding starts_with
starts_with_sound [] n h = refl
starts_with_sound (x ∷ p) [] h = ground (arith, h)
starts_with_sound (x ∷ p) (y ∷ n) h =
    let e : y ≡ x = ground (arith, h) in
    let r = starts_with_sound p n (ground (arith, h)) in rw (e) (ap (λ l. x ∷ l) r)

starts_with-append : (p r : Str) → starts_with p (p ++ r) ≡ true
unfolding starts_with
starts_with-append [] r = refl
starts_with-append (x ∷ p) r = ground (arith, starts_with-append p r)

-- The middle parts stand one behind another, with gaps.
unfoldable pub InOrder : List Str → Str → Type 0
InOrder [] r = Unit
InOrder (m ∷ ms) r = (gap : Str) × (q : Str) × (r ≡ gap ++ (m ++ q)) × InOrder ms q

InOrder-append : (ms : List Str) (x q : Str) → InOrder ms q → InOrder ms (x ++ q)
unfolding InOrder
InOrder-append [] x q i = tt
InOrder-append (m ∷ ms) x q (gap, r, e, i) =
    (x ++ gap, r, ap (λ l. x ++ l) e ∙ sym (append_assoc x gap (m ++ r)), i)

drop-nil : (k : ℕ) → ◌≡◌ {A = Str} (drop k []) []
drop-nil zero = refl
drop-nil (suc k) = refl

drop_in_front : (k : ℕ) (a b : Str) → k ≤ length a → drop k (a ++ b) ≡ drop k a ++ b
drop_in_front zero a b h = refl
drop_in_front (suc k) [] b h = absurd (omega arith)
drop_in_front (suc k) (x ∷ a) b h = drop_in_front k a b (omega arith)

after_sound : (m r q : Str) → after m r ≡ some q → (gap : Str) × (r ≡ gap ++ (m ++ q))
unfolding after
after_sound m [] q e = elim (Bool-cases (starts_with m [])) [
  | inl h ↦
      ([], starts_with_sound m [] h ∙ ap (λ l. m ++ l) (drop-nil (length m) ∙ some_inj (rw h at e)))
  | inr h ↦ absurd (ground (arith, rw h at e))
]
after_sound m (c ∷ r) q e = elim (Bool-cases (starts_with m (c ∷ r))) [
  | inl h ↦ ([], starts_with_sound m (c ∷ r) h ∙ ap (λ l. m ++ l) (some_inj (rw h at e)))
  | inr h ↦ let (gap, f) = after_sound m r q (rw h at e) in (c ∷ gap, ap (λ l. c ∷ l) f)
]

after-here : (m r : Str) → starts_with m r ≡ true → after m r ≡ some (drop (length m) r)
unfolding after
after-here m [] h = rw (h) (ap some (sym (drop-nil (length m))))
after-here m (c ∷ r) h = rw (h) refl

-- The first place leaves at least as much as any other.
after-leftmost :
    (m gap q : Str) → (p : Str) × (x : Str) × (after m (gap ++ (m ++ q)) ≡ some p) × (p ≡ x ++ q)
unfolding after
after-leftmost m [] q =
    (q, [], after-here m (m ++ q) (starts_with-append m q) ∙ ap some (drop-append m q), refl)
after-leftmost m (c ∷ gap) q = elim (Bool-cases (starts_with m (c ∷ gap ++ (m ++ q)))) [
  | inl h ↦
      let k = length-append gap m in
      let d = drop_in_front (length m) (c ∷ gap ++ m) q (omega (arith, k)) in
      (
        drop (length m) (c ∷ gap ++ (m ++ q)),
        drop (length m) (c ∷ gap ++ m),
        after-here m (c ∷ gap ++ (m ++ q)) h,
        ap (λ l. drop (length m) (c ∷ l)) (sym (append_assoc gap m q)) ∙ d,
      )
  | inr h ↦ let (p, x, e, f) = after-leftmost m gap q in (p, x, rw (h) e, f)
]

in_order_sound : (ms : List Str) (r : Str) → in_order ms r ≡ true → InOrder ms r
unfolding in_order InOrder
in_order_sound [] r h = tt
in_order_sound (m ∷ ms) r h = elim (Option-cases (after m r)) [
  | inl e ↦ absurd (ground (arith, rw (e, in_order) at h))
  | inr (q, e) ↦
      let (gap, f) = after_sound m r q e in (gap, q, f, in_order_sound ms q (rw (e, in_order) at h))
]

in_order_complete : (ms : List Str) (r : Str) → InOrder ms r → in_order ms r ≡ true
unfolding in_order InOrder
in_order_complete [] r i = refl
in_order_complete (m ∷ ms) r (gap, q, e, i) =
    let (p, x, f, g) = after-leftmost m gap q in
    let j : InOrder ms p = rw (g) (InOrder-append ms x q i) in
    rw (e) (rw (f, in_order) (in_order_complete ms p j))

-- The first part, the last part, and the others between them.
unfoldable pub InParts : Str → Str → List Str → Str → Type 0
InParts first p ps n =
    (mid : Str) × (n ≡ first ++ (mid ++ last_of p ps)) × InOrder (before_last p ps) mid

ends_with_sound :
    (part s : Str)
    → ends_with part s ≡ true
    → (drop (length s - length part) s ≡ part) × (length part ≤ length s)
unfolding ends_with
ends_with_sound part s h = (str_eq_sound _ part (ground (arith, h)), ground (arith, h))

ends_with-append : (a part : Str) → ends_with part (a ++ part) ≡ true
unfolding ends_with
ends_with-append a part =
    let l = length-append a part in
    let k : length (a ++ part) - length part ≡ length a = omega (arith, l) in
    rw (k, drop-append a part, str_eq_refl part) (ground (arith, l))

drop-drop : (j k : ℕ) (n : Str) → drop k (drop j n) ≡ drop (j + k) n
drop-drop zero k n = let e : 0 + k ≡ k = omega arith in rw (e) refl
drop-drop (suc j) k [] = drop-nil k ∙ sym (drop-nil (suc j + k))
drop-drop (suc j) k (x ∷ n) =
    let e : suc j + k ≡ suc (j + k) = omega arith in rw (e) (drop-drop j k n)

-- What the three tests on the ends of a name say together.
ends_sound :
    (first last n : Str)
    → starts_with first n ≡ true
    → ltb (length n) (length first + length last) ≡ false
    → ends_with last n ≡ true
    → n ≡ first ++ (take (length n - length last - length first) (drop (length first) n) ++ last)
ends_sound first last n s l e =
    let d = drop (length first) n in
    let k = length n - length last - length first in
    let f = ends_with_sound last n e in
    let j : length first + k ≡ length n - length last = ground arith in
    let b : drop k d ≡ last = drop-drop (length first) k n ∙ ap (λ i. drop i n) j ∙ f.0 in
    starts_with_sound first n s
    ∙ ap (λ r. first ++ r) (sym (take-append-drop k d) ∙ ap (λ r. take k d ++ r) b)

-- A name between its ends: the tests hold, and the middle is found again.
middle-append :
    (first mid last : Str)
    → take
        (length (first ++ (mid ++ last)) - length last - length first)
        (drop (length first) (first ++ (mid ++ last)))
      ≡ mid
middle-append first mid last =
    let a = length-append first (mid ++ last) in
    let b = length-append mid last in
    let k : length (first ++ (mid ++ last)) - length last - length first ≡ length mid =
      omega (arith, a, b) in
    rw (k, drop-append first (mid ++ last)) (take-append mid last)

pub matches_parts_sound :
    (glob first p : Str) (ps : List Str) (n : Str)
    → matches_parts glob first (p ∷ ps) n ≡ true
    → InParts first p ps n
unfolding matches_parts InParts
matches_parts_sound glob first p ps n h =
    let s : starts_with first n ≡ true = ground (arith, h) in
    let l : ltb (length n) (length first + length (last_of p ps)) ≡ false = ground (arith, h) in
    let e : ends_with (last_of p ps) n ≡ true = ground (arith, h) in
    (
      take (length n - length (last_of p ps) - length first) (drop (length first) n),
      ends_sound first (last_of p ps) n s l e,
      in_order_sound (before_last p ps) _ (ground (arith, h)),
    )

pub matches_parts_complete :
    (glob first p : Str) (ps : List Str) (n : Str)
    → InParts first p ps n
    → matches_parts glob first (p ∷ ps) n ≡ true
unfolding matches_parts InParts
matches_parts_complete glob first p ps n (mid, e, i) =
    let last = last_of p ps in
    let a = length-append first (mid ++ last) in
    let b = length-append mid last in
    let s = starts_with-append first (mid ++ last) in
    let l : ltb (length (first ++ (mid ++ last))) (length first + length last) ≡ false =
      ground (arith, a, b) in
    let w : ends_with last (first ++ (mid ++ last)) ≡ true =
      rw (← append_assoc first mid last) (ends_with-append (first ++ mid) last) in
    rw (e) (rw (s, l, w, middle-append first mid last) (in_order_complete (before_last p ps) mid i))
