-- ===== src/Prelude/Order.antt =====
-- The order of strings, and what `std::sort` and `std::sort_heap` make of a vector of strings.
use Prim.Native.Nat.{ℕ, suc, ◌-◌, ◌/◌}
use mathlib.Core.Path.{◌≡◌, refl, ap₂, ◌∙◌}
use mathlib.Core.Bool.{Bool, true, false}
use mathlib.Core.List.{List, [], ◌∷◌, Permᴰ}
use mathlib.Core.Option.{Option, none, some}
use native.Mathlib.Omega.{arith}
use wolk_connect_task.Prelude.Equality.{Text}
use wolk_connect_task.Prelude.Lists.{get_elem?}
use wolk_connect_task.Prelude.Tests.{ltb, if◌then◌else◌}

-- `<` of `std::string`, by which `std::map` orders its keys.
unfoldable pub text_ltb : Text → Text → Bool
text_ltb [] [] = false
text_ltb [] (y ∷ ys) = true
text_ltb (x ∷ xs) [] = false
text_ltb (x ∷ xs) (y ∷ ys) =
    let rest = text_ltb xs ys in if ltb x y then true else if ltb y x then false else rest

pub text_ltb_irrefl : (k : Text) → text_ltb k k ≡ false
unfolding text_ltb
text_ltb_irrefl [] = refl
text_ltb_irrefl (c ∷ k) = ground (arith, text_ltb_irrefl k)

pub text_ltb_nil : (k : Text) → text_ltb k [] ≡ false
unfolding text_ltb
text_ltb_nil [] = refl
text_ltb_nil (c ∷ k) = refl

pub text_ltb_trans :
    (i j k : Text) → text_ltb i j ≡ true → text_ltb j k ≡ true → text_ltb i k ≡ true
unfolding text_ltb
text_ltb_trans [] [] k p q = cc
text_ltb_trans [] (b ∷ j) [] p q = cc
text_ltb_trans [] (b ∷ j) (c ∷ k) p q = refl
text_ltb_trans (a ∷ i) [] k p q = cc
text_ltb_trans (a ∷ i) (b ∷ j) [] p q = cc
text_ltb_trans (a ∷ i) (b ∷ j) (c ∷ k) p q = ground (arith, text_ltb_trans i j k)

pub text_ltb_total : (i j : Text) → text_ltb i j ≡ false → text_ltb j i ≡ false → i ≡ j
unfolding text_ltb
text_ltb_total [] [] p q = refl
text_ltb_total [] (b ∷ j) p q = cc
text_ltb_total (a ∷ i) [] p q = cc
text_ltb_total (a ∷ i) (b ∷ j) p q = ground (arith, text_ltb_total i j)

insert_sorted : Text → List Text → List Text
insert_sorted x [] = x ∷ []
insert_sorted x (y ∷ ys) =
    let rest = insert_sorted x ys in if text_ltb y x then y ∷ rest else x ∷ (y ∷ ys)

-- `std::sort`.
unfoldable pub sort : List Text → List Text
unfolding insert_sorted
sort [] = []
sort (x ∷ xs) = insert_sorted x (sort xs)

-- No element from the position `i` on is greater than its parent.
unfoldable pub heap_from : ℕ → List Text → List Text → Bool
heap_from i [] all = true
heap_from i (x ∷ rest) all = elim (get_elem? all ((i - 1) / 2)) [
  | none ↦ true
  | some parent ↦
      let others = heap_from (suc i) rest all in if text_ltb parent x then false else others
]

unfoldable pub is_heap : List Text → Bool
unfolding heap_from
is_heap xs = heap_from 0 xs xs

-- `std::sort_heap`; `none` is undefined behaviour, on a range that is not a heap.
unfoldable pub sort_heap : List Text → Option (List Text)
sort_heap xs = if is_heap xs then some (sort xs) else none

insert_sorted_comm :
    (x y : Text) (zs : List Text)
    → insert_sorted x (insert_sorted y zs) ≡ insert_sorted y (insert_sorted x zs)
unfolding insert_sorted
insert_sorted_comm x y [] =
    ground (arith, text_ltb_total x y, text_ltb_trans x y x, text_ltb_irrefl x)
insert_sorted_comm x y (z ∷ zs) = ground (
  arith,
  insert_sorted_comm x y zs,
  text_ltb_total x y,
  text_ltb_trans x y x,
  text_ltb_irrefl x,
  text_ltb_trans z x y,
  text_ltb_trans z y x,
  text_ltb_trans x z y,
  text_ltb_trans y z x,
  text_ltb_total x z,
  text_ltb_total y z,
)

-- The order of a vector does not matter to `std::sort`.
pub sort-Permᴰ : {xs ys : List Text} → Permᴰ xs ys → sort xs ≡ sort ys
unfolding sort
sort-Permᴰ Permᴰ.nil = refl
sort-Permᴰ (Permᴰ.cons e p) = ap₂ insert_sorted e (sort-Permᴰ p)
sort-Permᴰ (Permᴰ.swap {a} {b} {l = l} e f) =
    insert_sorted_comm a b (sort l) ∙ ap₂ (λ u v. insert_sorted u (insert_sorted v (sort l))) f e
sort-Permᴰ (Permᴰ.trans p q) = sort-Permᴰ p ∙ sort-Permᴰ q
