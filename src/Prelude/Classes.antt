-- ===== src/Prelude/Classes.antt =====
-- Equality by a Boolean test, as an interface.
use Prim.Native.Nat.{ℕ}
use mathlib.Core.Path.{◌≡◌, refl, ap}
use mathlib.Core.Logic.{◌↔◌}
use mathlib.Core.Bool.{Bool, true, false, ◌&&◌}
use mathlib.Core.List.{List, [], ◌∷◌}
use native.Mathlib.Omega.{arith}
use open_functions.Prelude.Tests.{◌==◌ as nat_eq, ==_iff}

pub record Eq {ℓ} (A : Type ℓ) : Type ℓ where
  pub beq : A → A → Bool
  pub beq_iff : (a b : A) → (beq a b ≡ true) ↔ (a ≡ b)

infix 50 ◌=?◌
abbrev pub ◌=?◌ {ℓ} : {A : Type ℓ} ⦃e : Eq A⦄ → A → A → Bool
◌=?◌ ⦃e⦄ = e.beq

instance abbrev pub ℕ_Eq : Eq ℕ
ℕ_Eq = record { beq = nat_eq; beq_iff = ==_iff }

module _ {ℓ} {A : Type ℓ} ⦃e : Eq A⦄ where
  abbrev pub list_eq : List A → List A → Bool
  list_eq [] [] = true
  list_eq [] (y ∷ ys) = false
  list_eq (x ∷ xs) [] = false
  list_eq (x ∷ xs) (y ∷ ys) = x =? y && list_eq xs ys

  pub list_eq_refl : (xs : List A) → list_eq xs xs ≡ true
  list_eq_refl [] = refl
  list_eq_refl (x ∷ xs) = ground (arith, (e.beq_iff x x).1 refl, list_eq_refl xs)

  pub eq_of_list_eq : (xs ys : List A) → list_eq xs ys ≡ true → xs ≡ ys
  eq_of_list_eq [] [] h = refl
  eq_of_list_eq [] (y ∷ ys) h = cc
  eq_of_list_eq (x ∷ xs) [] h = cc
  eq_of_list_eq (x ∷ xs) (y ∷ ys) h = ground (arith, (e.beq_iff x y).0, eq_of_list_eq xs ys)

  pub list_eq_iff : (xs ys : List A) → (list_eq xs ys ≡ true) ↔ (xs ≡ ys)
  list_eq_iff xs ys = (eq_of_list_eq xs ys, λ p. rw p (list_eq_refl ys))

instance abbrev pub list_Eq {ℓ} : {A : Type ℓ} ⦃e : Eq A⦄ → Eq (List A)
list_Eq = record { beq = list_eq; beq_iff = list_eq_iff }

pub =?_refl {ℓ} : {A : Type ℓ} ⦃e : Eq A⦄ (a : A) → (a =? a) ≡ true
=?_refl ⦃e⦄ a = (e.beq_iff a a).1 refl

module _ {A B : Type 0} ⦃e : Eq A⦄ ⦃f : Eq B⦄ where
  abbrev pub pair_eq : A × B → A × B → Bool
  pair_eq (a, b) (c, d) = a =? c && b =? d

  pub pair_eq_iff : (p q : A × B) → (pair_eq p q ≡ true) ↔ (p ≡ q)
  pair_eq_iff (a, b) (c, d) = (
    λ h. ground (arith, (e.beq_iff a c).0, (f.beq_iff b d).0),
    λ h. ground (
      arith,
      (e.beq_iff a c).1 (ap (λ (x : A × B). x.0) h),
      (f.beq_iff b d).1 (ap (λ (x : A × B). x.1) h),
    ),
  )

instance abbrev pub pair_Eq : {A B : Type 0} ⦃e : Eq A⦄ ⦃f : Eq B⦄ → Eq (A × B)
pair_Eq = record { beq = pair_eq; beq_iff = pair_eq_iff }
