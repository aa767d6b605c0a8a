-- ===== src/Validator/Cuts.antt =====
-- Common cuts of the intervals in apps/server/src/epochguard/joint-validity-validator.ts: a cut
-- exists exactly if the lower bound lies below the upper bound.
use epochguard.Prelude.{
  ℕ, ◌≤◌, ◌<◌, String, ◌≡◌, refl, ◌↔◌, inl, inr, Bool, true, not, List, [], ◌∷◌, map, arith, All,
  All-map, length, filter, distinct, sort, insert_sorted, str_lt, Member, All-Member, suc,
  string_eq, Bool-cases, Option-cases,
}
use native.Mathlib.Decide.{dec_le}
use epochguard.Validator.{ResolvedInterval, interval_covers_head, effective_end}
use epochguard.Validator.Outcome.{
  list_max, list_min, lower_bound, upper_bound, current_invalid_agents, is_stale,
}

-- A sequence lies in an interval, whose open end is the one after the head.
abbrev pub Contains : ℕ → ResolvedInterval → Type 0
Contains seq i = (i.version.valid_from_seq ≤ seq) × (seq < i.effective_until)

-- A sequence at which all the evidence was valid together.
abbrev pub IsCut : List ResolvedInterval → ℕ → Type 0
IsCut is seq = All (Contains seq) is

module _ {A : Type 0} (f : A → ℕ) where
  pub max_above : (xs : List A) → All (λ x. f x ≤ list_max (map f xs)) xs
  unfolding list_max
  max_above [] = tt
  max_above (x ∷ []) = (omega arith, tt)
  max_above (x ∷ y ∷ ys) =
      (omega arith, All-map (λ z h. omega (arith, h)) (y ∷ ys) (max_above (y ∷ ys)))

  pub min_below : (xs : List A) → All (λ x. list_min (map f xs) ≤ f x) xs
  unfolding list_min
  min_below [] = tt
  min_below (x ∷ []) = (omega arith, tt)
  min_below (x ∷ y ∷ ys) =
      (omega arith, All-map (λ z h. omega (arith, h)) (y ∷ ys) (min_below (y ∷ ys)))

  pub max_reached :
      (xs : List A) → 1 ≤ length xs → (x : A) × Member x xs × (f x ≡ list_max (map f xs))
  unfolding list_max
  max_reached [] h = absurd (omega arith)
  max_reached (x ∷ []) h = (x, inl refl, refl)
  max_reached (x ∷ y ∷ ys) h =
      let (z, m, e) = max_reached (y ∷ ys) (omega arith) in
      elim (dec_le (list_max (map f (y ∷ ys))) (f x)) [
        | yes le ↦ (x, inl refl, omega arith)
        | no gt ↦ (z, inr m, omega (arith, e))
      ]

  pub min_reached :
      (xs : List A) → 1 ≤ length xs → (x : A) × Member x xs × (f x ≡ list_min (map f xs))
  unfolding list_min
  min_reached [] h = absurd (omega arith)
  min_reached (x ∷ []) h = (x, inl refl, refl)
  min_reached (x ∷ y ∷ ys) h =
      let (z, m, e) = min_reached (y ∷ ys) (omega arith) in
      elim (dec_le (f x) (list_min (map f (y ∷ ys)))) [
        | yes le ↦ (x, inl refl, omega arith)
        | no gt ↦ (z, inr m, omega (arith, e))
      ]

-- Where the bounds cross, two intervals have no sequence in common.
pub no-IsCut :
    (is : List ResolvedInterval)
    → 1 ≤ length is
    → upper_bound is ≤ lower_bound is
    → (seq : ℕ) → ¬ IsCut is seq
unfolding lower_bound upper_bound
no-IsCut is h crossed seq cut =
    let (i, m, e) = max_reached (λ i. i.version.valid_from_seq) is h in
    let (j, m', e') = min_reached (λ i. i.effective_until) is h in
    let (from, _) = All-Member (Contains seq) is i cut m in
    let (_, until) = All-Member (Contains seq) is j cut m' in
    omega (arith, e, e', from, until, crossed)

All-zip {ℓ} :
    {A : Type ℓ} {P Q R : A → Type 0}
    → ((x : A) → P x → Q x → R x)
    → (xs : List A) → All P xs
    → All Q xs
    → All R xs
All-zip f [] hp hq = tt
All-zip f (x ∷ xs) hp hq = (f x hp.0 hq.0, All-zip f xs hp.1 hq.1)

-- Where they do not, the lower bound is a cut.
pub lower_bound-IsCut :
    (is : List ResolvedInterval) → lower_bound is < upper_bound is → IsCut is (lower_bound is)
unfolding lower_bound upper_bound
lower_bound-IsCut is h =
    All-zip (λ i from until. (from, omega (arith, h, until))) is
      (max_above (λ i. i.version.valid_from_seq) is) (min_below (λ i. i.effective_until) is)

-- An interval whose finite end is not beyond the head contains the head exactly if it covers it.
pub covers_iff :
    (head : ℕ) (i : ResolvedInterval)
    → i.effective_until ≡ effective_end head i.version.valid_until_seq
    → (interval_covers_head head i ≡ true) ↔ Contains head i
covers_iff head i e = elim (Option-cases i.version.valid_until_seq) [
  | inl open_end ↦ (λ h. (ground arith, ground arith), λ h. ground (arith, h.0, h.1))
  | inr (u, closed) ↦ (λ h. (ground arith, ground arith), λ h. ground (arith, h.0, h.1))
]

length-insert :
    (x : String) (xs : List String) → length (insert_sorted str_lt x xs) ≡ suc (length xs)
unfolding insert_sorted
length-insert x [] = refl
length-insert x (y ∷ ys) = ground (arith, length-insert x ys)

length-sort : (xs : List String) → length (sort str_lt xs) ≡ length xs
unfolding sort
length-sort [] = refl
length-sort (x ∷ xs) = omega (arith, length-insert x (sort str_lt xs), length-sort xs)

-- What a selection leaves out.
unselected :
    {A : Type 0} (q : A → Bool) (xs : List A)
    → filter (λ x. not (q x)) xs ≡ []
    → All (λ x. q x ≡ true) xs
unselected q [] e = tt
unselected q (x ∷ xs) e = elim (Bool-cases (q x)) [
  | inl yes_x ↦ (yes_x, unselected q xs (ground arith))
  | inr no_x ↦ absurd (ground arith)
]

selects_none :
    {A : Type 0} (q : A → Bool) (xs : List A)
    → All (λ x. q x ≡ true) xs
    → filter (λ x. not (q x)) xs ≡ []
selects_none q [] h = refl
selects_none q (x ∷ xs) h = ground (arith, h.0, selects_none q xs h.1)

empty_of_distinct :
    (js : List ResolvedInterval) → length (distinct (map (λ i. i.owner_agent_id) js)) ≡ 0 → js ≡ []
empty_of_distinct [] e = refl
empty_of_distinct (j ∷ js) e = absurd (omega arith)

-- No owner is invalid exactly if every interval covers the head.
pub none_invalid_iff :
    (head : ℕ) (is : List ResolvedInterval)
    → (length (current_invalid_agents head is) ≡ 0)
      ↔ All (λ i. interval_covers_head head i ≡ true) is
unfolding current_invalid_agents
none_invalid_iff head is =
    let size = length-sort (distinct (map (λ i. i.owner_agent_id) (filter (is_stale head) is))) in
    (
      λ h.
          unselected (interval_covers_head head) is
            (empty_of_distinct (filter (is_stale head) is) (omega (arith, h, size))),
      λ h. rw (selects_none (interval_covers_head head) is h) (unfold sort in refl),
    )
