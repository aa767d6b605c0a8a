-- ===== src/Prelude/ListLaws.antt =====
-- Laws of `filter`, `update_first` and the tests on lists.
use mathlib.Core.Path.{◌≡◌, refl}
use mathlib.Core.Bool.{Bool, true, false, ◌||◌}
use mathlib.Core.List.{List, [], ◌∷◌, ◌++◌, map}
use Prim.Native.Nat.{◌+◌, ◌≤◌}
use native.Mathlib.Omega.{arith}
use epochguard.Prelude.Tests.{Bool-cases}
use mathlib.Core.Logic.{inl, inr}
use epochguard.Prelude.Lists.{length, filter, any, update_first, All}

module _ {ℓ} {A : Type ℓ} where
  pub filter-append :
      (p : A → Bool) (xs ys : List A) → filter p (xs ++ ys) ≡ filter p xs ++ filter p ys
  filter-append p [] ys = refl
  filter-append p (x ∷ xs) ys = ground (arith, filter-append p xs ys)

  pub length-append : (xs ys : List A) → length (xs ++ ys) ≡ length xs + length ys
  length-append [] ys = omega arith
  length-append (x ∷ xs) ys = omega (arith, length-append xs ys)

  -- Elements that `q` does not select, before and after their update, do not count.
  pub filter-update_first_out :
      (q p : A → Bool) (f : A → A)
      → ((x : A) → p x ≡ true → (q x ≡ false) × (q (f x) ≡ false))
      → (xs : List A) → filter q (update_first p f xs) ≡ filter q xs
  filter-update_first_out q p f out [] = refl
  filter-update_first_out q p f out (x ∷ xs) =
      ground (arith, out x, filter-update_first_out q p f out xs)

  -- Once the one selected element is updated out of the selection, none is left.
  pub filter-update_first_clears :
      (p : A → Bool) (f : A → A)
      → ((x : A) → p x ≡ true → p (f x) ≡ false)
      → (xs : List A) → length (filter p xs) ≤ 1
      → filter p (update_first p f xs) ≡ []
  filter-update_first_clears p f out [] h = refl
  filter-update_first_clears p f out (x ∷ xs) h =
      ground (arith, out x, filter-update_first_clears p f out xs, empty_of_length (filter p xs))
    where
      empty_of_length : (ys : List A) → length ys ≤ 0 → ys ≡ []
      empty_of_length [] h = refl
      empty_of_length (y ∷ ys) h = absurd (omega arith)

  pub All-append {κ} : (P : A → Type κ) (xs ys : List A) → All P xs → All P ys → All P (xs ++ ys)
  All-append P [] ys first later = later
  All-append P (x ∷ xs) ys (holds, first) later = (holds, All-append P xs ys first later)

  pub All-update_first {κ} :
      (P : A → Type κ) (p : A → Bool) (f : A → A)
      → ((x : A) → p x ≡ true → P x → P (f x))
      → (xs : List A) → All P xs
      → All P (update_first p f xs)
  All-update_first P p f keep [] h = tt
  All-update_first P p f keep (x ∷ xs) h =
      let rest = All-update_first P p f keep xs h.1 in
      elim (Bool-cases (p x)) [ inl e ↦ rw e (keep x e h.0, h.1) | inr e ↦ rw e (h.0, rest) ]

  -- A selection that no element passes.
  pub filter_none :
      (q : A → Bool) (P : A → Type 0)
      → ((x : A) → P x → q x ≡ false)
      → (xs : List A) → All P xs
      → filter q xs ≡ []
  filter_none q P out [] h = refl
  filter_none q P out (x ∷ xs) h = ground (arith, out x h.0, filter_none q P out xs h.1)

  -- Two selections that agree on every element.
  pub filter_congr :
      (q r : A → Bool) (P : A → Type 0)
      → ((x : A) → P x → q x ≡ r x)
      → (xs : List A) → All P xs
      → filter q xs ≡ filter r xs
  filter_congr q r P same [] h = refl
  filter_congr q r P same (x ∷ xs) h = ground (arith, same x h.0, filter_congr q r P same xs h.1)

  pub filter-filter :
      (q r : A → Bool)
      → ((x : A) → r x ≡ true → q x ≡ true)
      → (xs : List A) → filter r (filter q xs) ≡ filter r xs
  filter-filter q r within [] = refl
  filter-filter q r within (x ∷ xs) = ground (arith, within x, filter-filter q r within xs)

module _ {ℓ κ} {A : Type ℓ} {B : Type κ} where
  -- What `g` shows of the selected elements, if the update changes neither that nor the selection.
  pub map-filter-update_first :
      (g : A → B) (q p : A → Bool) (f : A → A)
      → ((x : A) → p x ≡ true → q (f x) ≡ q x)
      → ((x : A) → g (f x) ≡ g x)
      → (xs : List A) → map g (filter q (update_first p f xs)) ≡ map g (filter q xs)
  map-filter-update_first g q p f same seen [] = refl
  map-filter-update_first g q p f same seen (x ∷ xs) =
      ground (arith, same x, seen x, map-filter-update_first g q p f same seen xs)

  pub length-map : (g : A → B) (xs : List A) → length (map g xs) ≡ length xs
  length-map g [] = refl
  length-map g (x ∷ xs) = omega (arith, length-map g xs)

pub All-map {ℓ κ ι} :
    {A : Type ℓ} {P : A → Type κ} {Q : A → Type ι}
    → ((x : A) → P x → Q x)
    → (xs : List A) → All P xs
    → All Q xs
All-map f [] h = tt
All-map f (x ∷ xs) h = (f x h.0, All-map f xs h.1)

pub any-append {ℓ} :
    {A : Type ℓ} (q : A → Bool) (xs ys : List A) → any q (xs ++ ys) ≡ (any q xs || any q ys)
any-append q [] ys = refl
any-append q (x ∷ xs) ys = ground (arith, any-append q xs ys)

-- The only selected element, updated and still selected, is the only one after the update.
pub filter-update_first_single {ℓ} :
    {A : Type ℓ} (q : A → Bool) (f : A → A) (x : A)
    → q (f x) ≡ true
    → (xs : List A) → filter q xs ≡ x ∷ []
    → filter q (update_first q f xs) ≡ f x ∷ []
filter-update_first_single q f x kept [] h = cc
filter-update_first_single q f x kept (y ∷ ys) h = elim (Bool-cases (q y)) [
  | inl picked ↦
      let parts : y ∷ filter q ys ≡ x ∷ [] = rw picked at h in
      let same : y ≡ x = ground arith in
      let kept' : q (f y) ≡ true = rw same kept in rw picked (rw kept' (ground arith))
  | inr skipped ↦
      let rest = filter-update_first_single q f x kept ys (rw skipped at h) in
      rw skipped (rw skipped rest)
]

-- The only element that `q` selects is the one that is updated, and it stays selected.
pub filter-update_first_within {ℓ} :
    {A : Type ℓ} (q r : A → Bool) (f : A → A) (x : A)
    → ((y : A) → r y ≡ true → q y ≡ true)
    → r x ≡ true
    → q (f x) ≡ true
    → (xs : List A) → filter q xs ≡ x ∷ []
    → filter q (update_first r f xs) ≡ f x ∷ []
filter-update_first_within q r f x within hit kept [] h = cc
filter-update_first_within q r f x within hit kept (y ∷ ys) h = elim (Bool-cases (q y)) [
  | inl picked ↦
      let parts : y ∷ filter q ys ≡ x ∷ [] = rw picked at h in
      let same : y ≡ x = ground arith in
      let found : r y ≡ true = rw same hit in
      let kept' : q (f y) ≡ true = rw same kept in rw found (rw kept' (ground arith))
  | inr skipped ↦ elim (Bool-cases (r y)) [
    | inl found ↦ absurd (ground (arith, within y found))
    | inr passed ↦
        rw passed
          (rw skipped (filter-update_first_within q r f x within hit kept ys (rw skipped at h)))
  ]
]
