-- ===== src/Ctrl/Secrets.antt =====
-- step.rs, `StepStart::secret_values`: the list that redaction works from misses no secret.
use enzarb.Base.{
  Option, none, some, List, [], ◌∷◌, ◌++◌, map, ◌≡◌, refl, arith, ◌⊎◌, inl, inr, ◌≢◌, ◌↔◌,
}
use enzarb.Base.Text.{Str}
use enzarb.Ctrl.Step.{StepStart, secret_values, retain_nonempty, values, option_list}

abbrev pub In : Str → List Str → Type 0
In s [] = ⊥
In s (x ∷ xs) = (s ≡ x) ⊎ In s xs

In-append : (s : Str) (xs ys : List Str) → In s (xs ++ ys) ↔ (In s xs ⊎ In s ys)
In-append s [] ys = (inr, λ h. elim h [ inl x ↦ absurd x | inr y ↦ y ])
In-append s (x ∷ xs) ys =
    let (f, g) = In-append s xs ys in
    (
      λ h. elim h [
        | inl e ↦ inl (inl e)
        | inr t ↦ elim (f t) [ inl a ↦ inl (inr a) | inr b ↦ inr b ]
      ],
      λ h. elim h [
        | inl a ↦ elim a [ inl e ↦ inl e | inr t ↦ inr (g (inl t)) ]
        | inr b ↦ inr (g (inr b))
      ],
    )

In-option : (s : Str) (o : Option Str) → In s (option_list o) → o ≡ some s
In-option s none h = elim h [ ]
In-option s (some x) (inl e) = ground (arith, e)
In-option s (some x) (inr h) = elim h [ ]

option-In : (s : Str) (o : Option Str) → o ≡ some s → In s (option_list o)
option-In s o e = rw e (inl refl)

retained : (s : Str) (ss : List Str) → s ≢ [] → In s ss → In s (retain_nonempty ss)
unfolding retain_nonempty
retained s [] n h = elim h [ ]
retained s ([] ∷ ss) n (inl e) = absurd (n e)
retained s ((x ∷ xs) ∷ ss) n (inl e) = inl e
retained s ([] ∷ ss) n (inr h) = retained s ss n h
retained s ((x ∷ xs) ∷ ss) n (inr h) = inr (retained s ss n h)

unretained : (s : Str) (ss : List Str) → In s (retain_nonempty ss) → (s ≢ []) × In s ss
unfolding retain_nonempty
unretained s [] h = elim h [ ]
unretained s ([] ∷ ss) h = let (n, i) = unretained s ss h in (n, inr i)
unretained s ((x ∷ xs) ∷ ss) (inl e) = (λ z. cc, inl e)
unretained s ((x ∷ xs) ∷ ss) (inr h) = let (n, i) = unretained s ss h in (n, inr i)

-- The places of a `step_start` that hold a secret.
abbrev pub Holds : {Value : Type 0} → StepStart Value → Str → Type 0
Holds st s =
    In s (map (λ e. e.1) st.env)
    ⊎ (In s (map (λ e. e.1) st.files)
        ⊎ (In s (map (λ w. w.token) st.workspaces) ⊎ (st.github_token ≡ some s)))

-- Four lists behind one another.
In-four :
    (s : Str) (es bs cs : List Str) (o : Option Str)
    → In s (es ++ (bs ++ (cs ++ option_list o))) ↔ (In s es ⊎ (In s bs ⊎ (In s cs ⊎ (o ≡ some s))))
In-four s es bs cs o =
    let (f, f') = In-append s es (bs ++ (cs ++ option_list o)) in
    let (g, g') = In-append s bs (cs ++ option_list o) in
    let (h, h') = In-append s cs (option_list o) in
    (
      λ i. elim (f i) [
        | inl a ↦ inl a
        | inr j ↦ elim (g j) [
          | inl b ↦ inr (inl b)
          | inr k ↦ elim (h k) [
            | inl c ↦ inr (inr (inl c))
            | inr d ↦ inr (inr (inr (In-option s o d)))
          ]
        ]
      ],
      λ i. elim i [
        | inl a ↦ f' (inl a)
        | inr j ↦ elim j [
          | inl b ↦ f' (inr (g' (inl b)))
          | inr k ↦ elim k [
            | inl c ↦ f' (inr (g' (inr (h' (inl c)))))
            | inr d ↦ f' (inr (g' (inr (h' (inr (option-In s o d))))))
          ]
        ]
      ],
    )

-- A text is in the list exactly when it is not empty and is the value of an environment variable,
-- of a secret file, a workspace's token or the GitHub token.
pub secret_values_iff :
    {Value : Type 0} (st : StepStart Value) (s : Str)
    → In s (secret_values st) ↔ ((s ≢ []) × Holds st s)
unfolding secret_values
secret_values_iff st s =
    let (f, f') =
      In-four s (values st.env) (values st.files) (map (λ w. w.token) st.workspaces)
        st.github_token in
    (λ i. let (n, j) = unretained s _ i in (n, f j), λ (n, j). retained s _ n (f' j))
