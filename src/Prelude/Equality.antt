-- ===== src/Prelude/Equality.antt =====
-- `===` and `!==` on strings, numbers, enums and nullable values, as one interface.
use Prim.Native.Nat.{ℕ, zero, suc, compare, Ordering}
use Prim.Native.String.{String}
use mathlib.Core.Path.{◌≡◌, refl, sym, ◌∙◌, ap}
use mathlib.Core.Logic.{◌↔◌}
use mathlib.Core.Bool.{Bool, true, false, not}
use mathlib.Core.Option.{Option, none, some}
use mathlib.Core.List.{List, [], ◌∷◌}
use native.Mathlib.Omega.{arith}
use text.Mathlib.Text.{◌==◌ as str_eq}
use text.Mathlib.TextEquality.{eq_iff}

pub record Eq {ℓ} (A : Type ℓ) : Type ℓ where
  pub beq : (x y : A) → Bool
  pub beq_iff : (x y : A) → (beq x y ≡ true) ↔ (x ≡ y)

module _ {ℓ} {A : Type ℓ} ⦃e : Eq A⦄ where
  infix 50 ◌==◌ ◌!=◌
  abbrev pub ◌==◌ : (x y : A) → Bool
  x == y = e.beq x y

  abbrev pub ◌!=◌ : (x y : A) → Bool
  x != y = not (e.beq x y)

abbrev pub nat_beq : ℕ → ℕ → Bool
nat_beq a b = elim (compare a b) [ Ordering.eq ↦ true | _ ↦ false ]

pub nat_beq_iff : (a b : ℕ) → (nat_beq a b ≡ true) ↔ (a ≡ b)
nat_beq_iff a b = ground arith

abbrev pub get_or {ℓ} : {A : Type ℓ} → List A → ℕ → A → A
get_or [] i d = d
get_or (x ∷ xs) zero d = x
get_or (x ∷ xs) (suc i) d = get_or xs i d

instance abbrev pub nat_eq : Eq ℕ
nat_eq = record { beq_iff = nat_beq_iff; beq = nat_beq }

instance abbrev pub string_eq : Eq String
string_eq = record { beq_iff = eq_iff; beq = str_eq }

module _ {ℓ} {A : Type ℓ} ⦃e : Eq A⦄ where
  abbrev pub option_beq : Option A → Option A → Bool
  option_beq none none = true
  option_beq (some a) (some b) = e.beq a b
  option_beq _ _ = false

  pub option_beq_iff : (a b : Option A) → (option_beq a b ≡ true) ↔ (a ≡ b)
  option_beq_iff none none = (λ h. refl, λ h. refl)
  option_beq_iff none (some b) = (λ h. cc, λ h. cc)
  option_beq_iff (some a) none = (λ h. cc, λ h. cc)
  option_beq_iff (some a) (some b) =
      (λ h. ap some ((e.beq_iff a b).0 h), λ h. (e.beq_iff a b).1 (ground arith))

  instance abbrev pub option_eq : Eq (Option A)
  option_eq = record { beq = option_beq; beq_iff = option_beq_iff }

  pub eq_of_beq : (a b : A) → (a == b) ≡ true → a ≡ b
  eq_of_beq a b h = (e.beq_iff a b).0 h

  pub beq_refl : (a : A) → (a == a) ≡ true
  beq_refl a = (e.beq_iff a a).1 refl

  -- A guard `a !== b` that did not fire.
  pub eq_of_bne : (a b : A) → (a != b) ≡ false → a ≡ b
  eq_of_bne a b h = (e.beq_iff a b).0 (ground arith)

-- An enum is compared by the position of its values in the array that lists them.
pub by_index_iff :
    {A : Type 0} (xs : List A) (index : A → ℕ) (d : A) (found : (a : A) → get_or xs (index a) d ≡ a)
    (a b : A)
    → (nat_beq (index a) (index b) ≡ true) ↔ (a ≡ b)
by_index_iff xs index d found a b = (
  λ h. sym (found a) ∙ ap (λ i. get_or xs i d) ((nat_beq_iff (index a) (index b)).0 h) ∙ found b,
  λ e. (nat_beq_iff (index a) (index b)).1 (ap index e),
)

abbrev pub eq_by_index :
    {A : Type 0} (xs : List A) (index : A → ℕ) (d : A)
    → ((a : A) → get_or xs (index a) d ≡ a)
    → Eq A
eq_by_index xs index d found = record {
  beq = λ a b. nat_beq (index a) (index b);
  beq_iff = by_index_iff xs index d found;
}

-- `x === null` and `x !== null`.
module _ {ℓ} {A : Type ℓ} where
  abbrev pub is_null : Option A → Bool
  is_null none = true
  is_null (some _) = false

  pub none_of_is_null : (o : Option A) → is_null o ≡ true → o ≡ none
  none_of_is_null none h = refl
  none_of_is_null (some a) h = cc
