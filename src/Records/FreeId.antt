-- ===== src/Records/FreeId.antt =====
-- The number that `next_free_id` of storage.rs chooses.
use cc_wallet_gui.Prelude.{
  ℕ, ◌+◌, ◌<◌, ◌≤◌, List, [], ◌∷◌, Bool, true, false, ◌||◌, ◌≡◌, ◌⊎◌, inl, inr, refl, arith, ◌==◌,
  ltb, leb, leb→le, any, ok, err, length, ◌∙◌, Bool-cases, sym, subst,
}
use cc_wallet_gui.Records.{full, insert, sort, dedup, first_gap, next_free_id}

-- A number is in a list.
abbrev pub member : ℕ → List ℕ → Bool
member x s = any (λ (y : ℕ). y == x) s

-- The numbers are at least `low` and ascend, with or without repetitions.
abbrev Ascending : ℕ → List ℕ → Type 0
Ascending low [] = Unit
Ascending low (a ∷ s) = (low ≤ a) × Ascending a s

abbrev Strict : ℕ → List ℕ → Type 0
Strict low [] = Unit
Strict low (a ∷ s) = (low ≤ a) × Strict (a + 1) s

insert-Ascending : (a low : ℕ) (s : List ℕ) → low ≤ a → Ascending low s → Ascending low (insert a s)
unfolding insert
insert-Ascending a low [] l h = (l, tt)
insert-Ascending a low (b ∷ s) l h = ground (arith, insert-Ascending a b s)

sort-Ascending : (s : List ℕ) → Ascending 0 (sort s)
unfolding sort
sort-Ascending [] = tt
sort-Ascending (a ∷ s) = insert-Ascending a 0 (sort s) (omega arith) (sort-Ascending s)

dedup-Strict : (low : ℕ) (s : List ℕ) → Ascending low s → Strict low (dedup s)
unfolding dedup
dedup-Strict low [] h = tt
dedup-Strict low (a ∷ []) h = (h.0, tt)
dedup-Strict low (a ∷ b ∷ s) h =
    ground (arith, dedup-Strict low (b ∷ s), dedup-Strict (a + 1) (b ∷ s))

member-insert : (x a : ℕ) (s : List ℕ) → member x (insert a s) ≡ ((a == x) || member x s)
unfolding insert
member-insert x a [] = refl
member-insert x a (b ∷ s) = ground (arith, member-insert x a s)

member-sort : (x : ℕ) (s : List ℕ) → member x (sort s) ≡ member x s
unfolding sort
member-sort x [] = refl
member-sort x (a ∷ s) = member-insert x a (sort s) ∙ rw (member-sort x s) refl

member-dedup : (x : ℕ) (s : List ℕ) → member x (dedup s) ≡ member x s
unfolding dedup
member-dedup x [] = refl
member-dedup x (a ∷ []) = refl
member-dedup x (a ∷ b ∷ s) = ground (arith, member-dedup x (b ∷ s))

below-Strict : (x low : ℕ) (s : List ℕ) → x < low → Strict low s → member x s ≡ false
below-Strict x low [] l h = refl
below-Strict x low (a ∷ s) l h = ground (arith, below-Strict x (a + 1) s)

-- The least number from `start` on that a list does not hold.
abbrev pub IsFirstFree : ℕ → List ℕ → ℕ → Type 0
IsFirstFree start s id =
    (start ≤ id) × (member id s ≡ false) × ((j : ℕ) → start ≤ j → j < id → member j s ≡ true)

first_gap-none : (c : ℕ) → first_gap c [] ≡ c
unfolding first_gap
first_gap-none c = refl

first_gap-before : (c a : ℕ) (s : List ℕ) → c < a → first_gap c (a ∷ s) ≡ c
unfolding first_gap
first_gap-before c a s h = ground arith

first_gap-at : (c a : ℕ) (s : List ℕ) → a ≡ c → first_gap c (a ∷ s) ≡ first_gap (c + 1) s
unfolding first_gap
first_gap-at c a s h = ground arith

first_gap-past : (c a : ℕ) (s : List ℕ) → a < c → first_gap c (a ∷ s) ≡ first_gap c s
unfolding first_gap
first_gap-past c a s h = ground arith

order : (c a : ℕ) → (c < a) ⊎ (a ≡ c) ⊎ (a < c)
order c a = elim (Bool-cases (ltb c a)) [
  | inl e ↦ inl (ground arith)
  | inr e ↦ elim (Bool-cases (a == c)) [
    | inl d ↦ inr (inl (ground arith))
    | inr d ↦ inr (inr (ground arith))
  ]
]

-- A gap that is found before the numbers of the list run out.
abbrev IsGap : ℕ → List ℕ → ℕ → Type 0
IsGap c s id = IsFirstFree c s id × (id ≤ c + length s)

IsGap-before : (c a : ℕ) (s : List ℕ) → c < a → Strict (a + 1) s → IsGap c (a ∷ s) c
IsGap-before c a s l h = (
  (omega arith, ground (arith, below-Strict c (a + 1) s), λ j k m. absurd (omega arith)),
  omega arith,
)

IsGap-at : (c a id : ℕ) (s : List ℕ) → a ≡ c → IsGap (c + 1) s id → IsGap c (a ∷ s) id
IsGap-at c a id s e (found, bound) = (
  (omega (arith, found.0), ground (arith, found.0, found.1), λ j k m. ground (arith, found.2 j)),
  omega arith,
)

IsGap-past : (c a id : ℕ) (s : List ℕ) → a < c → IsGap c s id → IsGap c (a ∷ s) id
IsGap-past c a id s l (found, bound) =
    ((found.0, ground (arith, found.0, found.1), λ j k m. ground (arith, found.2 j)), omega arith)

first_gap-IsGap : (c low : ℕ) (s : List ℕ) → Strict low s → IsGap c s (first_gap c s)
first_gap-IsGap c low [] h =
    rw (first_gap-none c) ((omega arith, refl, λ j l m. absurd (omega arith)), omega arith)
first_gap-IsGap c low (a ∷ s) h = elim (order c a) [
  | inl l ↦ subst (IsGap c (a ∷ s)) (sym (first_gap-before c a s l)) (IsGap-before c a s l h.1)
  | inr (inl e) ↦
      subst (IsGap c (a ∷ s)) (sym (first_gap-at c a s e))
        (IsGap-at c a _ s e (first_gap-IsGap (c + 1) (a + 1) s h.1))
  | inr (inr l) ↦
      subst (IsGap c (a ∷ s)) (sym (first_gap-past c a s l))
        (IsGap-past c a _ s l (first_gap-IsGap c (a + 1) s h.1))
]

-- The different numbers of a list, each once and in order.
abbrev pub distinct : List ℕ → List ℕ
distinct s = dedup (sort s)

IsFirstFree-distinct : (s : List ℕ) (id : ℕ) → IsFirstFree 1 (distinct s) id → IsFirstFree 1 s id
IsFirstFree-distinct s id (l, free, taken) =
    (l, sym (same id) ∙ free, λ j k m. sym (same j) ∙ taken j k m)
  where
    same : (x : ℕ) → member x (distinct s) ≡ member x s
    same x = member-dedup x (sort s) ∙ member-sort x s

-- If fewer different numbers than the limit are taken, then `next_free_id` returns the least positive
-- number that is not taken, and this is at most the limit; otherwise it reports a full storage.
pub next_free_id_lem :
    (taken : List ℕ) (limit : ℕ)
    → ((length (distinct taken) < limit)
        × ((id : ℕ) × (next_free_id taken limit ≡ ok id) × IsFirstFree 1 taken id × (id ≤ limit)))
      ⊎ ((limit ≤ length (distinct taken)) × (next_free_id taken limit ≡ err (full limit)))
unfolding next_free_id
next_free_id_lem taken limit =
    let gap = first_gap 1 (distinct taken) in
    let (found, bound) =
      first_gap-IsGap 1 0 (distinct taken) (dedup-Strict 0 (sort taken) (sort-Ascending taken)) in
    elim (Bool-cases (leb limit (length (distinct taken)))) [
      | inl e ↦ inr (leb→le limit (length (distinct taken)) e, rw e refl)
      | inr e ↦ inl (
        ground arith,
        (gap, rw e refl, IsFirstFree-distinct taken gap found, ground (arith, bound)),
      )
    ]
