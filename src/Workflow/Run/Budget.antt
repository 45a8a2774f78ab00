-- ===== src/Workflow/Run/Budget.antt =====
-- The visits that the limits of a workflow's nodes allow, and what one visit takes of them.
use enzarb.Base.{
  ℕ, suc, ◌+◌, ◌-◌, ◌%◌, ◌^◌, ◌≤◌, ◌<◌, ◌≡◌, refl, inl, inr, some, List, [], ◌∷◌, All, Bool-cases,
  if◌then◌else◌, arith,
}
use enzarb.Base.Text.{Str}
use enzarb.Base.Strings.{str_eq, str_eq_refl, str_eq_sound, find, find-cases, find-nil}
use enzarb.Workflow.Schema.{Node, max_visits}
use enzarb.Workflow.Run.{count, visits_of}

-- The visits that the limits of the nodes still allow.
abbrev pub budget : List (Str × Node) → List (Str × ℕ) → ℕ
budget [] d = 0
budget (e ∷ ns) d = (max_visits e.1 - visits_of e.0 d) + budget ns d

-- No node's limit is so large that the 32 bits of a count wrap before it.
abbrev pub Countable : List (Str × Node) → Type 0
Countable ns = All (λ e. max_visits e.1 + 1 < 2 ^ 32) ns

str_eq_comm : (a b : Str) → str_eq a b ≡ str_eq b a
str_eq_comm a b = elim (Bool-cases (str_eq a b)) [
  | inl h ↦ let e = str_eq_sound a b h in rw (e) refl
  | inr h ↦ elim (Bool-cases (str_eq b a)) [
    | inl k ↦ let e = str_eq_sound b a k in rw (e) refl
    | inr k ↦ rw (h, k) refl
  ]
]

pub visits_of-count :
    (j id : Str) (d : List (Str × ℕ))
    → visits_of j (count id d)
      ≡ (if str_eq id j then (visits_of id d + 1) % 2 ^ 32 else visits_of j d)
unfolding visits_of count find
visits_of-count j id [] = elim (Bool-cases (str_eq id j)) [
  | inl h ↦ rw (h) refl
  | inr h ↦ rw (h) refl
]
visits_of-count j id (e ∷ d) = elim (Bool-cases (str_eq e.0 id)) [
  | inl h ↦
      let q = str_eq_sound e.0 id h in
      elim (Bool-cases (str_eq id j)) [ inl k ↦ rw (h, q, k) refl | inr k ↦ rw (h, q, k) refl ]
  | inr h ↦ elim (Bool-cases (str_eq e.0 j)) [
    | inl k ↦ let q = str_eq_sound e.0 j k in rw (h, k, str_eq_comm id j, ← q, h) refl
    | inr k ↦ rw (h, k) (visits_of-count j id d)
  ]
]

-- One more visit, below the wrap of the count.
count_mono :
    (j id : Str) (d : List (Str × ℕ))
    → visits_of id d + 1 < 2 ^ 32
    → visits_of j d ≤ visits_of j (count id d)
count_mono j id d h = elim (Bool-cases (str_eq id j)) [
  | inl k ↦
      let q = str_eq_sound id j k in
      rw (visits_of-count j id d, k, q)
        (let h' : visits_of j d + 1 < 2 ^ 32 = rw (← q) h in omega (arith, h'))
  | inr k ↦ rw (visits_of-count j id d, k) (ground arith)
]

budget_mono :
    (ns : List (Str × Node)) (id : Str) (d : List (Str × ℕ))
    → visits_of id d + 1 < 2 ^ 32
    → budget ns (count id d) ≤ budget ns d
budget_mono [] id d h = omega arith
budget_mono (e ∷ ns) id d h = omega (arith, budget_mono ns id d h, count_mono e.0 id d h)

-- A visit within the limit of its node uses up the budget.
pub budget-spends :
    (ns : List (Str × Node)) (id : Str) (n : Node) (d : List (Str × ℕ))
    → find id ns ≡ some n
    → visits_of id (count id d) ≤ max_visits n
    → visits_of id d + 1 < 2 ^ 32
    → suc (budget ns (count id d)) ≤ budget ns d
unfolding find
budget-spends [] id n d f w h = absurd (find-nil id n f)
budget-spends (e ∷ ns) id n d f w h = elim (find-cases id e ns n f) [
  | inl (k, v) ↦
      let c = visits_of-count id id d in
      let r = budget_mono ns id d h in rw (k, v) (omega (arith, rw (str_eq_refl id) at c, w, h, r))
  | inr (k, g) ↦ omega (arith, budget-spends ns id n d g w h, count_mono e.0 id d h)
]

pub Countable-find :
    (ns : List (Str × Node)) (id : Str) (n : Node)
    → Countable ns
    → find id ns ≡ some n
    → max_visits n + 1 < 2 ^ 32
Countable-find [] id n c f = absurd (find-nil id n f)
Countable-find (e ∷ ns) id n c f = elim (find-cases id e ns n f) [
  | inl (k, v) ↦ rw (← v) c.0
  | inr (k, g) ↦ Countable-find ns id n c.1 g
]
