-- ===== src/Base/Counting.antt =====
-- How a sort and an INSERT count the rows of a table, and what a sort contains.
use Prim.Native.Nat.{ℕ, ◌+◌}
use mathlib.Core.Path.{◌≡◌, refl}
use mathlib.Core.List.{List, [], ◌∷◌, Memᴰ}
use mathlib.Core.Logic.{inl, inr}
use mathlib.Core.Bool.{Bool, ◌||◌}
use native.Mathlib.Omega.{arith}
use local_mind.Base.Tests.{if◌then◌else◌, leb, Bool-cases}
use local_mind.Base.Lists.{All, All-mem, All-of_mem}
use local_mind.Base.Table.{rowcount, insert, exists}
use local_mind.Base.Sort.{insert_by, sort_by, All-sort_by}

module _ {ℓ} {A : Type ℓ} (key : A → ℕ) where
  rowcount-insert_by :
      (p : A → Bool) (x : A) (ys : List A) → rowcount p (insert_by key x ys) ≡ rowcount p (x ∷ ys)
  rowcount-insert_by p x [] = refl
  rowcount-insert_by p x (y ∷ ys) = ground (arith, rowcount-insert_by p x ys)

  pub rowcount-sort_by : (p : A → Bool) (xs : List A) → rowcount p (sort_by key xs) ≡ rowcount p xs
  rowcount-sort_by p [] = refl
  rowcount-sort_by p (x ∷ xs) =
      ground (arith, rowcount-sort_by p xs, rowcount-insert_by p x (sort_by key xs))

  mem-insert_by_head : (x : A) (ys : List A) → Memᴰ x (insert_by key x ys)
  mem-insert_by_head x [] = Memᴰ.head refl
  mem-insert_by_head x (y ∷ ys) = elim (Bool-cases (leb (key x) (key y))) [
    | inl t ↦ rw t (Memᴰ.head refl)
    | inr f ↦ rw f (Memᴰ.tail (mem-insert_by_head x ys))
  ]

  mem-insert_by_tail : (x z : A) (ys : List A) → Memᴰ z ys → Memᴰ z (insert_by key x ys)
  mem-insert_by_tail x z [] h = elim h [ ]
  mem-insert_by_tail x z (y ∷ ys) (Memᴰ.head e) = elim (Bool-cases (leb (key x) (key y))) [
    | inl t ↦ rw t (Memᴰ.tail (Memᴰ.head e))
    | inr f ↦ rw f (Memᴰ.head e)
  ]
  mem-insert_by_tail x z (y ∷ ys) (Memᴰ.tail m) = elim (Bool-cases (leb (key x) (key y))) [
    | inl t ↦ rw t (Memᴰ.tail (Memᴰ.tail m))
    | inr f ↦ rw f (Memᴰ.tail (mem-insert_by_tail x z ys m))
  ]

  sort_by_keeps : (xs : List A) → All (λ z. Memᴰ z (sort_by key xs)) xs
  sort_by_keeps [] = tt
  sort_by_keeps (x ∷ xs) = (
    mem-insert_by_head x (sort_by key xs),
    All-of_mem (λ z. Memᴰ z (sort_by key (x ∷ xs))) xs
        (λ z m. mem-insert_by_tail x z (sort_by key xs) (All-mem _ xs (sort_by_keeps xs) z m)),
  )

  pub mem-sort_by : (z : A) (xs : List A) → Memᴰ z xs → Memᴰ z (sort_by key xs)
  mem-sort_by z xs m = All-mem (λ x. Memᴰ x (sort_by key xs)) xs (sort_by_keeps xs) z m

  pub mem_of_sort_by : (z : A) (xs : List A) → Memᴰ z (sort_by key xs) → Memᴰ z xs
  mem_of_sort_by z xs m =
      All-mem (λ x. Memᴰ x xs) (sort_by key xs)
        (All-sort_by key (λ x. Memᴰ x xs) xs (All-of_mem _ xs (λ x h. h))) z m

module _ {ℓ} {R : Type ℓ} (p : R → Bool) where
  pub rowcount-insert :
      (r : R) (rs : List R) → rowcount p (insert r rs) ≡ rowcount p rs + (if p r then 1 else 0)
  rowcount-insert r [] = ground arith
  rowcount-insert r (s ∷ rs) = ground (arith, rowcount-insert r rs)

  pub exists-insert : (r : R) (rs : List R) → exists p (insert r rs) ≡ (exists p rs || p r)
  exists-insert r [] = ground arith
  exists-insert r (s ∷ rs) = ground (arith, exists-insert r rs)
