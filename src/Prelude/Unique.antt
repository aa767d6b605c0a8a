-- ===== src/Prelude/Unique.antt =====
-- Lists in which no two elements have the same key.
use mathlib.Core.Path.{◌≡◌, refl, ap}
use mathlib.Core.Logic.{inl, inr}
use mathlib.Core.Bool.{Bool, false, ◌||◌}
use mathlib.Core.List.{List, [], ◌∷◌, ◌++◌}
use Prim.Native.Nat.{◌≤◌}
use Prim.Native.String.{String}
use native.Mathlib.Omega.{arith}
use epochguard.Prelude.Tests.{Bool-cases, or_left, or_right}
use epochguard.Prelude.Equality.{◌==◌, string_eq, eq_of_beq}
use epochguard.Prelude.Lists.{length, filter, any, update_first}
use epochguard.Prelude.ListLaws.{filter-append, length-append, map-filter-update_first, length-map}

module _ {A : Type 0} where
  abbrev pub has_key : (A → String) → String → A → Bool
  has_key key k x = key x == k

  abbrev pub IsUniqueBy : (A → String) → List A → Type 0
  IsUniqueBy key xs = (k : String) → length (filter (has_key key k) xs) ≤ 1

  pub filter_of_any : (q : A → Bool) (xs : List A) → any q xs ≡ false → filter q xs ≡ []
  filter_of_any q [] h = refl
  filter_of_any q (x ∷ xs) h =
      rw (or_left (q x) (any q xs) h) (filter_of_any q xs (or_right (q x) (any q xs) h))

  -- An element whose key is new joins.
  pub append-IsUniqueBy :
      (key : A → String) (xs : List A) (x : A)
      → IsUniqueBy key xs
      → filter (has_key key (key x)) xs ≡ []
      → IsUniqueBy key (xs ++ x ∷ [])
  append-IsUniqueBy key xs x once none_yet k = elim (Bool-cases (key x == k)) [
    | inl own ↦
        let same : key x ≡ k = eq_of_beq (key x) k own in
        let before : filter (has_key key k) xs ≡ [] = rw (← same) none_yet in
        rw (filter-append (has_key key k) xs (x ∷ []), before, own) (omega arith)
    | inr other ↦
        rw (filter-append (has_key key k) xs (x ∷ []), other)
          (omega (arith, length-append (filter (has_key key k) xs) [], once k))
  ]

  -- A change that keeps every key.
  pub update_first-IsUniqueBy :
      (key : A → String) (r : A → Bool) (f : A → A)
      → ((x : A) → key (f x) ≡ key x)
      → (xs : List A) → IsUniqueBy key xs
      → IsUniqueBy key (update_first r f xs)
  update_first-IsUniqueBy key r f same xs once k =
      let kept =
        map-filter-update_first key (has_key key k) r f (λ x h. ap (λ n. n == k) (same x)) same
          xs in
      let before = length-map key (filter (has_key key k) xs) in
      let after = length-map key (filter (has_key key k) (update_first r f xs)) in
      omega (arith, once k, ap length kept, before, after)

  pub any-update_first :
      (key : A → String) (k : String) (r : A → Bool) (f : A → A)
      → ((x : A) → key (f x) ≡ key x)
      → (xs : List A) → any (has_key key k) (update_first r f xs) ≡ any (has_key key k) xs
  any-update_first key k r f same [] = refl
  any-update_first key k r f same (x ∷ xs) = elim (Bool-cases (r x)) [
    | inl e ↦ rw e (ap (λ n. n == k || any (has_key key k) xs) (same x))
    | inr e ↦ rw e (ap (λ b. has_key key k x || b) (any-update_first key k r f same xs))
  ]
