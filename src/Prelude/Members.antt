-- ===== src/Prelude/Members.antt =====
-- Membership of a list by recursion, its laws for `filter` and `sort`.
use mathlib.Core.Path.{◌≡◌, refl, ◌∙◌, ap}
use mathlib.Core.Logic.{◌⊎◌, inl, inr}
use mathlib.Core.Bool.{Bool, true, false, ◌||◌}
use mathlib.Core.List.{List, [], ◌∷◌, map}
use Prim.Native.Nat.{◌≤◌}
use native.Mathlib.Omega.{arith}
use epochguard.Prelude.Tests.{Bool-cases}
use epochguard.Prelude.Lists.{length, filter, any, insert_sorted, sort, single, All}
use mathlib.Core.Option.{some}

module _ {A : Type 0} where
  abbrev pub Member : A → List A → Type 0
  Member x [] = ⊥
  Member x (y ∷ ys) = (x ≡ y) ⊎ Member x ys

module _ {A : Type 0} where
  pub All-Member {κ} : (P : A → Type κ) (xs : List A) (x : A) → All P xs → Member x xs → P x
  All-Member P (y ∷ ys) x h (inl e) = subst⁻ e h.0
    where
      subst⁻ : x ≡ y → P y → P x
      subst⁻ e u = rw e u
  All-Member P (y ∷ ys) x h (inr m) = All-Member P ys x h.1 m
  All-Member P [] x h m = absurd m

  pub empty_of_length : (ys : List A) → length ys ≤ 0 → ys ≡ []
  empty_of_length [] h = refl
  empty_of_length (y ∷ ys) h = absurd (omega arith)

  pub not_selected :
      (q : A → Bool) (xs : List A) (x : A) → filter q xs ≡ [] → Member x xs → q x ≡ false
  not_selected q (y ∷ ys) x e (inl same) = rw same (ground arith)
  not_selected q (y ∷ ys) x e (inr m) = not_selected q ys x (ground arith) m
  not_selected q [] x e m = absurd m

  -- The selection is one element if it has at most one and that element passes.
  pub filter_single :
      (q : A → Bool) (xs : List A) (x : A)
      → length (filter q xs) ≤ 1
      → Member x xs
      → q x ≡ true
      → filter q xs ≡ x ∷ []
  filter_single q [] x h m e = absurd m
  filter_single q (y ∷ ys) x h (inl same) e =
      let picked : q y ≡ true = rw (← same) e in
      let none_left = empty_of_length (filter q ys) (ground arith) in
      rw picked (rw none_left (rw same))
  filter_single q (y ∷ ys) x h (inr m) e = elim (Bool-cases (q y)) [
    | inl picked ↦
        let none_left = empty_of_length (filter q ys) (ground arith) in
        let passed_over = not_selected q ys x none_left m in cc
    | inr skipped ↦ rw skipped (filter_single q ys x (ground arith) m e)
  ]

  pub Member-map :
      {B : Type 0} (f : A → B) (xs : List A) (x : A) → Member x xs → Member (f x) (map f xs)
  Member-map f (y ∷ ys) x (inl e) = inl (ap f e)
  Member-map f (y ∷ ys) x (inr m) = inr (Member-map f ys x m)
  Member-map f [] x m = absurd m

module _ {A : Type 0} (lt : A → A → Bool) where
  Member-insert_self : (x : A) (ys : List A) → Member x (insert_sorted lt x ys)
  unfolding insert_sorted
  Member-insert_self x [] = inl refl
  Member-insert_self x (y ∷ ys) = elim (Bool-cases (lt y x)) [
    | inl e ↦ rw e (inr (Member-insert_self x ys))
    | inr e ↦ rw e (inl refl)
  ]

  Member-insert : (x z : A) (ys : List A) → Member z ys → Member z (insert_sorted lt x ys)
  unfolding insert_sorted
  Member-insert x z (y ∷ ys) (inl same) = elim (Bool-cases (lt y x)) [
    | inl e ↦ rw e (inl same)
    | inr e ↦ rw e (inr (inl same))
  ]
  Member-insert x z (y ∷ ys) (inr m) = elim (Bool-cases (lt y x)) [
    | inl e ↦ rw e (inr (Member-insert x z ys m))
    | inr e ↦ rw e (inr (inr m))
  ]
  Member-insert x z [] m = absurd m

  -- Sorting keeps every member.
  pub Member-sort : (z : A) (xs : List A) → Member z xs → Member z (sort lt xs)
  unfolding sort
  Member-sort z (x ∷ xs) (inl same) = rw same (Member-insert_self x (sort lt xs))
  Member-sort z (x ∷ xs) (inr m) = Member-insert x z (sort lt xs) (Member-sort z xs m)
  Member-sort z [] m = absurd m

  any-insert :
      (q : A → Bool) (x : A) (ys : List A) → any q (insert_sorted lt x ys) ≡ (q x || any q ys)
  unfolding insert_sorted
  any-insert q x [] = refl
  any-insert q x (y ∷ ys) = elim (Bool-cases (lt y x)) [
    | inl e ↦ rw e (ground (arith, any-insert q x ys))
    | inr e ↦ rw e
  ]

  pub any-sort : (q : A → Bool) (xs : List A) → any q (sort lt xs) ≡ any q xs
  unfolding sort
  any-sort q [] = refl
  any-sort q (x ∷ xs) = any-insert q x (sort lt xs) ∙ ap (λ b. q x || b) (any-sort q xs)

module _ {A : Type 0} where
  pub any_of_Member :
      (q : A → Bool) (xs : List A) (x : A) → Member x xs → q x ≡ true → any q xs ≡ true
  any_of_Member q (y ∷ ys) x (inl same) e = let here : q y ≡ true = rw (← same) e in ground arith
  any_of_Member q (y ∷ ys) x (inr m) e = ground (arith, any_of_Member q ys x m e)
  any_of_Member q [] x m e = absurd m

module _ {A : Type 0} (lt : A → A → Bool) where
  Member-uninsert :
      (x z : A) (ys : List A) → Member z (insert_sorted lt x ys) → (z ≡ x) ⊎ Member z ys
  unfolding insert_sorted
  Member-uninsert x z [] (inl e) = inl e
  Member-uninsert x z [] (inr m) = absurd m
  Member-uninsert x z (y ∷ ys) m = elim (Bool-cases (lt y x)) [
    | inl e ↦ elim (rw e at m) [
      | inl same ↦ inr (inl same)
      | inr later ↦ elim (Member-uninsert x z ys later) [
        | inl here ↦ inl here
        | inr there ↦ inr (inr there)
      ]
    ]
    | inr e ↦ elim (rw e at m) [ inl same ↦ inl same | inr later ↦ inr later ]
  ]

  -- Sorting adds no member.
  pub Member-unsort : (z : A) (xs : List A) → Member z (sort lt xs) → Member z xs
  unfolding sort
  Member-unsort z [] m = absurd m
  Member-unsort z (x ∷ xs) m = elim (Member-uninsert x z (sort lt xs) m) [
    | inl here ↦ inl here
    | inr later ↦ inr (Member-unsort z xs later)
  ]

module _ {A : Type 0} where
  -- A selected element is a member that passes.
  pub Member-filter :
      (q : A → Bool) (z : A) (xs : List A) → Member z (filter q xs) → Member z xs × (q z ≡ true)
  Member-filter q z [] m = absurd m
  Member-filter q z (x ∷ xs) m = elim (Bool-cases (q x)) [
    | inr e ↦ let (there, passes) = Member-filter q z xs (rw e at m) in (inr there, passes)
    | inl e ↦ elim (rw e at m) [
      | inl same ↦ (inl same, rw same e)
      | inr later ↦ let (there, passes) = Member-filter q z xs later in (inr there, passes)
    ]
  ]

module _ {A : Type 0} where
  -- A member that passes is selected.
  pub filter-Member :
      (q : A → Bool) (z : A) (xs : List A) → Member z xs → q z ≡ true → Member z (filter q xs)
  filter-Member q z [] m e = absurd m
  filter-Member q z (x ∷ xs) (inl same) e =
      let picked : q x ≡ true = rw (← same) e in rw picked (inl same)
  filter-Member q z (x ∷ xs) (inr m) e = elim (Bool-cases (q x)) [
    | inl picked ↦ rw picked (inr (filter-Member q z xs m e))
    | inr skipped ↦ rw skipped (filter-Member q z xs m e)
  ]

module _ {A : Type 0} where
  pub single-Member : (xs : List A) (x : A) → single xs ≡ some x → Member x xs
  single-Member [] x h = cc
  single-Member (y ∷ []) x h = inl (ground arith)
  single-Member (y ∷ z ∷ ys) x h = cc

  -- The only element that passes is an element that passes.
  pub single-filter :
      (q : A → Bool) (xs : List A) (x : A)
      → single (filter q xs) ≡ some x
      → Member x xs × (q x ≡ true)
  single-filter q xs x h = Member-filter q x xs (single-Member (filter q xs) x h)

  pub single-eq : (xs : List A) (x : A) → single xs ≡ some x → xs ≡ x ∷ []
  single-eq [] x h = cc
  single-eq (y ∷ []) x h = ground arith
  single-eq (y ∷ z ∷ ys) x h = cc

module _ {A : Type 0} where
  pub single_of_Member : (xs : List A) (x : A) → length xs ≡ 1 → Member x xs → xs ≡ x ∷ []
  single_of_Member [] x one m = absurd m
  single_of_Member (y ∷ []) x one (inl same) = rw same
  single_of_Member (y ∷ []) x one (inr m) = absurd m
  single_of_Member (y ∷ z ∷ ys) x one m = absurd (omega (arith, one))
