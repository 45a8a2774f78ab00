-- ===== src/Workflow/Validate/Reach/Passes.antt =====
-- The reverse search finds exactly the nodes from which a path of edges leads to an `end`.
use enzarb.Base.{
  ℕ, zero, suc, ◌+◌, ◌≤◌, ◌<◌, ◌≡◌, refl, ◌↔◌, ◌⊎◌, inl, inr, Bool, true, false, not, ◌&&◌, ◌||◌,
  List, [], ◌∷◌, All, any, length, ◌==◌, ==_refl, if◌then◌else◌, Bool-cases, arith,
}
use enzarb.Base.Text.{Str}
use enzarb.Base.Strings.{str_eq, str_eq_refl, str_eq_sound, has}
use enzarb.Workflow.Schema.{Node}
use enzarb.Workflow.Validate.Reach.{targets, is_end, end_ids, pass, passes, can_end}

abbrev pub Mem : {A : Type 0} → A → List A → Type 0
Mem x [] = ⊥
Mem x (y ∷ ys) = (x ≡ y) ⊎ Mem x ys

-- A path of edges leads from the node to an `end`.
pub data CanEnd (nodes : List (Str × Node)) : Str → Type 0 where
  ends : (e : Str × Node) → Mem e nodes → is_end e.1 ≡ true → CanEnd nodes e.0
  goes :
      (e : Str × Node) (t : Str)
      → Mem e nodes
      → has (targets e.1) t ≡ true
      → CanEnd nodes t
      → CanEnd nodes e.0

or_left : (a b : Bool) → a ≡ true → (a || b) ≡ true
or_left a b h = ground arith

or_right : (a b : Bool) → b ≡ true → (a || b) ≡ true
or_right a b h = ground arith

has-All : (P : Str → Type 0) (xs : List Str) (s : Str) → All P xs → has xs s ≡ true → P s
has-All P [] s a h = absurd (ground arith)
has-All P (x ∷ xs) s a h = elim (Bool-cases (str_eq x s)) [
  | inl k ↦ rw (← str_eq_sound x s k) a.0
  | inr k ↦ has-All P xs s a.1 (rw k at h)
]

-- Some target that is in `can`
any-has :
    (can ts : List Str)
    → any (has can) ts ≡ true
    → (t : Str) × (has ts t ≡ true) × (has can t ≡ true)
any-has can [] h = absurd (ground arith)
any-has can (t ∷ ts) h = elim (Bool-cases (has can t)) [
  | inl k ↦ (t, ground (arith, str_eq_refl t), k)
  | inr k ↦ let (u, p, q) = any-has can ts (rw k at h) in (u, or_right (str_eq t u) (has ts u) p, q)
]

has-any :
    (can ts : List Str) (t : Str) → has ts t ≡ true → has can t ≡ true → any (has can) ts ≡ true
has-any can [] t h k = absurd (ground arith)
has-any can (u ∷ ts) t h k = elim (Bool-cases (str_eq u t)) [
  | inl q ↦
      (let e = str_eq_sound u t q in
        let k' : has can u ≡ true = rw (e) k in or_left (has can u) (any (has can) ts) k')
  | inr q ↦ or_right (has can u) (any (has can) ts) (has-any can ts t (rw q at h) k)
]

end_ids-All :
    (nodes ns : List (Str × Node)) → All (λ e. Mem e nodes) ns → All (CanEnd nodes) (end_ids ns)
unfolding end_ids
end_ids-All nodes [] m = tt
end_ids-All nodes (e ∷ ns) m = elim (Bool-cases (is_end e.1)) [
  | inl h ↦ rw (h) (ends e m.0 h, end_ids-All nodes ns m.1)
  | inr h ↦ rw (h) (end_ids-All nodes ns m.1)
]

-- The test of one turn of a pass
abbrev joins : List Str → Str × Node → Bool
joins can e = not (has can e.0) && any (has can) (targets e.1)

pass-All :
    (nodes ns : List (Str × Node)) (can : List Str)
    → All (λ e. Mem e nodes) ns
    → All (CanEnd nodes) can
    → All (CanEnd nodes) (pass ns can)
unfolding pass
pass-All nodes [] can m a = a
pass-All nodes (e ∷ ns) can m a = elim (Bool-cases (joins can e)) [
  | inl h ↦
      let (t, p, q) = any-has can (targets e.1) (ground arith) in
      rw (h)
        (pass-All nodes ns (e.0 ∷ can) m.1 (goes e t m.0 p (has-All (CanEnd nodes) can t a q), a))
  | inr h ↦ rw (h) (pass-All nodes ns can m.1 a)
]

passes-All :
    (fuel : ℕ) (nodes : List (Str × Node)) (can : List Str)
    → All (λ e. Mem e nodes) nodes
    → All (CanEnd nodes) can
    → All (CanEnd nodes) (passes fuel nodes can)
unfolding passes
passes-All zero nodes can m a = a
passes-All (suc fuel) nodes can m a = elim (Bool-cases (length (pass nodes can) == length can)) [
  | inl h ↦ rw (h) (pass-All nodes nodes can m a)
  | inr h ↦ rw (h) (passes-All fuel nodes (pass nodes can) m (pass-All nodes nodes can m a))
]

All-Mem :
    (zs xs : List (Str × Node)) → ((e : Str × Node) → Mem e xs → Mem e zs) → All (λ e. Mem e zs) xs
All-Mem zs [] f = tt
All-Mem zs (x ∷ xs) f = (f x (inl refl), All-Mem zs xs (λ e m. f e (inr m)))

-- The entries whose ids are not in `can`
missing : List (Str × Node) → List Str → ℕ
missing [] can = 0
missing (e ∷ ns) can = (if has can e.0 then 0 else 1) + missing ns can

missing_mono :
    (ns : List (Str × Node)) (k : Str) (can : List Str) → missing ns (k ∷ can) ≤ missing ns can
unfolding missing
missing_mono [] k can = omega arith
missing_mono (e ∷ ns) k can = ground (arith, missing_mono ns k can)

missing-strict :
    (ns : List (Str × Node)) (e : Str × Node) (can : List Str)
    → Mem e ns
    → has can e.0 ≡ false
    → missing ns (e.0 ∷ can) < missing ns can
unfolding missing
missing-strict [] e can m h = absurd m
missing-strict (f ∷ ns) e can (inl q) h =
    let h' : has can f.0 ≡ false = rw (← q) h in
    let r : str_eq e.0 f.0 ≡ true = rw (q) (str_eq_refl f.0) in
    ground (arith, missing_mono ns e.0 can)
missing-strict (f ∷ ns) e can (inr m) h = ground (arith, missing-strict ns e can m h)

missing-length : (ns : List (Str × Node)) (can : List Str) → missing ns can ≤ length ns
unfolding missing
missing-length [] can = omega arith
missing-length (e ∷ ns) can = ground (arith, missing-length ns can)

pass_mono :
    (nodes ns : List (Str × Node)) (can : List Str)
    → (length can ≤ length (pass ns can)) × (missing nodes (pass ns can) ≤ missing nodes can)
unfolding pass
pass_mono nodes [] can = (omega arith, omega arith)
pass_mono nodes (e ∷ ns) can = elim (Bool-cases (joins can e)) [
  | inl h ↦
      let r = pass_mono nodes ns (e.0 ∷ can) in
      let k = missing_mono nodes e.0 can in rw (h) (omega (arith, r.0), omega (arith, r.1, k))
  | inr h ↦ rw (h) (pass_mono nodes ns can)
]

-- A pass adds nothing, and then no entry joins, or it adds an id that was missing.
pass-cases :
    (nodes ns : List (Str × Node)) (can : List Str)
    → All (λ e. Mem e nodes) ns
    → ((pass ns can ≡ can) × All (λ e. joins can e ≡ false) ns)
      ⊎ ((length can < length (pass ns can)) × (missing nodes (pass ns can) < missing nodes can))
unfolding pass
pass-cases nodes [] can m = inl (refl, tt)
pass-cases nodes (e ∷ ns) can m = elim (Bool-cases (joins can e)) [
  | inl h ↦
      let r = pass_mono nodes ns (e.0 ∷ can) in
      let k = missing-strict nodes e can m.0 (ground arith) in
      rw (h) (inr (omega (arith, r.0), omega (arith, r.1, k)))
  | inr h ↦
      rw (h) (elim (pass-cases nodes ns can m.1) [ inl r ↦ inl (r.0, (refl, r.1)) | inr r ↦ inr r ])
]

has-pass :
    (ns : List (Str × Node)) (can : List Str) (x : Str)
    → has can x ≡ true
    → has (pass ns can) x ≡ true
unfolding pass
has-pass [] can x h = h
has-pass (e ∷ ns) can x h = elim (Bool-cases (joins can e)) [
  | inl k ↦ rw (k) (has-pass ns (e.0 ∷ can) x (or_right (str_eq e.0 x) (has can x) h))
  | inr k ↦ rw (k) (has-pass ns can x h)
]

-- Enough passes reach a set that no entry joins, and that keeps what it had.
passes-closed :
    (fuel : ℕ) (nodes : List (Str × Node)) (can : List Str)
    → All (λ e. Mem e nodes) nodes
    → missing nodes can < fuel
    → All (λ e. joins (passes fuel nodes can) e ≡ false) nodes
      × ((x : Str) → has can x ≡ true → has (passes fuel nodes can) x ≡ true)
unfolding passes
passes-closed zero nodes can m b = absurd (omega arith)
passes-closed (suc fuel) nodes can m b = elim (pass-cases nodes nodes can m) [
  | inl (q, j) ↦
      let h : (length (pass nodes can) == length can) ≡ true = rw (q) (==_refl (length can)) in
      rw (h) (rw (q) (j, λ x k. k))
  | inr (l, d) ↦
      let h : (length (pass nodes can) == length can) ≡ false = ground arith in
      let (j, keep) = passes-closed fuel nodes (pass nodes can) m (omega (arith, d, b)) in
      rw (h) (j, λ x k. keep x (has-pass nodes can x k))
]

All-at :
    (P : Str × Node → Type 0) (ns : List (Str × Node)) (e : Str × Node) → All P ns → Mem e ns → P e
All-at P [] e a m = absurd m
All-at P (f ∷ ns) e a (inl q) = rw (q) a.0
All-at P (f ∷ ns) e a (inr m) = All-at P ns e a.1 m

pub has-end_ids :
    (ns : List (Str × Node)) (e : Str × Node)
    → Mem e ns
    → is_end e.1 ≡ true
    → has (end_ids ns) e.0 ≡ true
unfolding end_ids
has-end_ids [] e m h = absurd m
has-end_ids (f ∷ ns) e (inl q) h =
    let h' : is_end f.1 ≡ true = rw (← q) h in
    let r : str_eq f.0 e.0 ≡ true = rw (q) (str_eq_refl f.0) in
    rw (h') (or_left (str_eq f.0 e.0) (has (end_ids ns) e.0) r)
has-end_ids (f ∷ ns) e (inr m) h = elim (Bool-cases (is_end f.1)) [
  | inl k ↦ rw (k) (or_right (str_eq f.0 e.0) (has (end_ids ns) e.0) (has-end_ids ns e m h))
  | inr k ↦ rw (k) (has-end_ids ns e m h)
]

module _ (nodes : List (Str × Node)) where
  members : All (λ e. Mem e nodes) nodes
  members = All-Mem nodes nodes (λ e m. m)

  can_end_sound : All (CanEnd nodes) (can_end nodes)
  unfolding can_end
  can_end_sound =
      passes-All (suc (length nodes)) nodes (end_ids nodes) members
        (end_ids-All nodes nodes members)

  closed :
      All (λ e. joins (can_end nodes) e ≡ false) nodes
      × ((x : Str) → has (end_ids nodes) x ≡ true → has (can_end nodes) x ≡ true)
  unfolding can_end
  closed =
      passes-closed (suc (length nodes)) nodes (end_ids nodes) members
        (omega (arith, missing-length nodes (end_ids nodes)))

  can_end_complete : (id : Str) → CanEnd nodes id → has (can_end nodes) id ≡ true
  can_end_complete _ (ends e m h) = closed.1 e.0 (has-end_ids nodes e m h)
  can_end_complete _ (goes e t m h p) =
      let k = has-any (can_end nodes) (targets e.1) t h (can_end_complete t p) in
      let j = All-at (λ f. joins (can_end nodes) f ≡ false) nodes e closed.0 m in
      ground (arith, j, k)

  pub can_end_iff : (id : Str) → (has (can_end nodes) id ≡ true) ↔ CanEnd nodes id
  can_end_iff id =
      (λ h. has-All (CanEnd nodes) (can_end nodes) id can_end_sound h, can_end_complete id)
