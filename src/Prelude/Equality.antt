-- ===== src/Prelude/Equality.antt =====
-- The source's `==` on every type whose equality can be decided, and its strings.
use Prim.Native.Nat.{ℕ}
use Prim.Native.Char.{code}
use Prim.Native.String.{String}
use mathlib.Core.Path.{refl, ap₂}
use mathlib.Core.Logic.{ite, dite}
use mathlib.Core.Bool.{Bool, true, false}
use mathlib.Core.List.{List, [], ◌∷◌, head-eq_of_cons-eq, tail-eq_of_cons-eq}
use native.Mathlib.Decide.{ℕ_discrete}

pub record Eq {ℓ} (A : Type ℓ) : Type ℓ where
  pub dec : Discrete A

infix 50 ◌==◌
abbrev pub ◌==◌ {ℓ} : {A : Type ℓ} ⦃e : Eq A⦄ → A → A → Bool
◌==◌ ⦃e⦄ a b = ite (e.dec a b) true false

-- A `std::string`, as the list of its bytes.
abbrev pub Text : Type 0
Text = List ℕ

abbrev pub codes : String → Text
codes String.[] = []
codes (String.◌∷◌ c s) = code c ∷ codes s

unfoldable pub text_dec : Discrete Text
unfolding ℕ_discrete
text_dec [] [] = yes refl
text_dec [] (y ∷ ys) = no (λ e. cc)
text_dec (x ∷ xs) [] = no (λ e. cc)
text_dec (x ∷ xs) (y ∷ ys) =
    let rest = text_dec xs ys in
    dite (ℕ_discrete x y)
      (λ e. dite rest (λ p. yes (ap₂ ◌∷◌ e p)) (λ p. no (λ q. p (tail-eq_of_cons-eq q))))
      (λ e. no (λ q. e (head-eq_of_cons-eq q)))

instance abbrev pub text_eq : Eq Text
text_eq = record { dec = text_dec }

instance abbrev pub nat_eq : Eq ℕ
nat_eq = record { dec = ℕ_discrete }

-- `std::string::empty` and `std::vector::empty`.
abbrev pub is_empty {ℓ} : {A : Type ℓ} → List A → Bool
is_empty [] = true
is_empty (x ∷ xs) = false
