-- ===== src/Base/Sort.antt =====
-- `ORDER BY` and `sorted`: a stable sort by a numeric key, and the choice of the greatest.
use Prim.Native.Nat.{ℕ, suc, ◌≤◌}
use mathlib.Core.Path.{◌≡◌, refl, subst, sym}
use mathlib.Core.List.{List, [], ◌∷◌, Memᴰ}
use mathlib.Core.Logic.{inl, inr}
use mathlib.Core.Option.{Option, none, some, some-injective}
use native.Mathlib.Omega.{arith}
use local_mind.Base.Tests.{if◌then◌else◌, leb, ltb, Bool-cases, Option-cases}
use local_mind.Base.Lists.{length, All, Pairwise, All-mono}

module _ {ℓ} {A : Type ℓ} (key : A → ℕ) where
  -- before the first element whose key is not smaller
  abbrev pub insert_by : A → List A → List A
  insert_by x [] = x ∷ []
  insert_by x (y ∷ ys) =
      let later = y ∷ insert_by x ys in if leb (key x) (key y) then x ∷ y ∷ ys else later

  abbrev pub sort_by : List A → List A
  sort_by [] = []
  sort_by (x ∷ xs) = insert_by x (sort_by xs)

  abbrev pub pick : A → Option A → A
  pick x none = x
  pick x (some y) = if ltb (key x) (key y) then y else x

  -- The first element with the greatest key: `ORDER BY key DESC LIMIT 1`.
  abbrev pub greatest : List A → Option A
  greatest [] = none
  greatest (x ∷ xs) = some (pick x (greatest xs))

  greatest-none-All {κ} : (P : A → Type κ) (xs : List A) → greatest xs ≡ none → All P xs
  greatest-none-All P [] h = tt
  greatest-none-All P (x ∷ xs) h = cc

  pub greatest-none : (xs : List A) → greatest xs ≡ none → xs ≡ []
  greatest-none [] h = refl
  greatest-none (x ∷ xs) h = cc

  -- `x` is an element with the greatest key.
  abbrev pub IsGreatest : A → List A → Type ℓ
  IsGreatest x xs = All (λ y. key y ≤ key x) xs × Memᴰ x xs

  pub greatest_max : (xs : List A) (x : A) → greatest xs ≡ some x → IsGreatest x xs
  greatest_max [] x h = cc
  greatest_max (y ∷ ys) x h =
      subst (λ z. IsGreatest z (y ∷ ys)) (some-injective _ _ h)
        (elim (Option-cases (greatest ys)) [
          | inl n ↦
              subst (λ o. IsGreatest (pick y o) (y ∷ ys)) (sym n)
                ((omega arith, greatest-none-All _ ys n), Memᴰ.head refl)
          | inr (z, e) ↦
              subst (λ o. IsGreatest (pick y o) (y ∷ ys)) (sym e)
                (let (most, here) = greatest_max ys z e in
                  elim (Bool-cases (ltb (key y) (key z))) [
                    | inl t ↦
                        subst (λ b. IsGreatest (if b then z else y) (y ∷ ys)) (sym t)
                          ((ground arith, most), Memᴰ.tail here)
                    | inr f ↦
                        subst (λ b. IsGreatest (if b then z else y) (y ∷ ys)) (sym f)
                          (
                            (omega arith, All-mono _ _ ys (λ a le. ground arith) most),
                            Memᴰ.head refl,
                          )
                  ])
        ])

  pub All-insert_by {κ} :
      (P : A → Type κ) (x : A) (ys : List A) → P x → All P ys → All P (insert_by x ys)
  All-insert_by P x [] p h = (p, tt)
  All-insert_by P x (y ∷ ys) p h = elim (Bool-cases (leb (key x) (key y))) [
    | inl t ↦ rw t (p, h)
    | inr f ↦ rw f (h.0, All-insert_by P x ys p h.1)
  ]

  pub All-sort_by {κ} : (P : A → Type κ) (xs : List A) → All P xs → All P (sort_by xs)
  All-sort_by P [] h = tt
  All-sort_by P (x ∷ xs) h = All-insert_by P x (sort_by xs) h.0 (All-sort_by P xs h.1)

  -- The result is in order.
  IsOrdered-insert_by :
      (x : A) (ys : List A)
      → Pairwise (λ a b. key a ≤ key b) ys
      → Pairwise (λ a b. key a ≤ key b) (insert_by x ys)
  IsOrdered-insert_by x [] h = (tt, tt)
  IsOrdered-insert_by x (y ∷ ys) h = elim (Bool-cases (leb (key x) (key y))) [
    | inl t ↦ rw t ((ground arith, All-mono _ _ ys (λ a le. ground arith) h.0), h)
    | inr f ↦
        rw f
          (All-insert_by (λ b. key y ≤ key b) x ys (ground arith) h.0, IsOrdered-insert_by x ys h.1)
  ]

  pub sort_by-IsOrdered : (xs : List A) → Pairwise (λ a b. key a ≤ key b) (sort_by xs)
  sort_by-IsOrdered [] = tt
  sort_by-IsOrdered (x ∷ xs) = IsOrdered-insert_by x (sort_by xs) (sort_by-IsOrdered xs)

  length-insert_by : (x : A) (ys : List A) → length (insert_by x ys) ≡ suc (length ys)
  length-insert_by x [] = refl
  length-insert_by x (y ∷ ys) = ground (arith, length-insert_by x ys)

  pub length-sort_by : (xs : List A) → length (sort_by xs) ≡ length xs
  length-sort_by [] = refl
  length-sort_by (x ∷ xs) = omega (arith, length-insert_by x (sort_by xs), length-sort_by xs)

  insert_by-least : (x : A) (ys : List A) → All (λ y. key x ≤ key y) ys → insert_by x ys ≡ x ∷ ys
  insert_by-least x [] h = refl
  insert_by-least x (y ∷ ys) h = ground arith

  -- A sort leaves what is in order as it is.
  pub sort_by-ordered : (xs : List A) → Pairwise (λ a b. key a ≤ key b) xs → sort_by xs ≡ xs
  sort_by-ordered [] h = refl
  sort_by-ordered (x ∷ xs) h = rw (sort_by-ordered xs h.1) (insert_by-least x xs h.0)

  -- `ORDER BY key DESC`
  abbrev pub insert_desc_by : A → List A → List A
  insert_desc_by x [] = x ∷ []
  insert_desc_by x (y ∷ ys) =
      let later = y ∷ insert_desc_by x ys in if leb (key y) (key x) then x ∷ y ∷ ys else later

  abbrev pub sort_desc_by : List A → List A
  sort_desc_by [] = []
  sort_desc_by (x ∷ xs) = insert_desc_by x (sort_desc_by xs)

  -- A sort keeps the elements.
  mem-insert_desc_by : (x z : A) (ys : List A) → Memᴰ z (x ∷ ys) → Memᴰ z (insert_desc_by x ys)
  mem-insert_desc_by x z [] h = h
  mem-insert_desc_by x z (y ∷ ys) (Memᴰ.head e) = elim (Bool-cases (leb (key y) (key x))) [
    | inl t ↦ rw t (Memᴰ.head e)
    | inr f ↦ rw f (Memᴰ.tail (mem-insert_desc_by x z ys (Memᴰ.head e)))
  ]
  mem-insert_desc_by x z (y ∷ ys) (Memᴰ.tail (Memᴰ.head e)) =
      elim (Bool-cases (leb (key y) (key x))) [
        | inl t ↦ rw t (Memᴰ.tail (Memᴰ.head e))
        | inr f ↦ rw f (Memᴰ.head e)
      ]
  mem-insert_desc_by x z (y ∷ ys) (Memᴰ.tail (Memᴰ.tail m)) =
      elim (Bool-cases (leb (key y) (key x))) [
        | inl t ↦ rw t (Memᴰ.tail (Memᴰ.tail m))
        | inr f ↦ rw f (Memᴰ.tail (mem-insert_desc_by x z ys (Memᴰ.tail m)))
      ]

  pub mem-sort_desc_by : (z : A) (xs : List A) → Memᴰ z xs → Memᴰ z (sort_desc_by xs)
  mem-sort_desc_by z [] h = h
  mem-sort_desc_by z (x ∷ xs) (Memᴰ.head e) = mem-insert_desc_by x z (sort_desc_by xs) (Memᴰ.head e)
  mem-sort_desc_by z (x ∷ xs) (Memᴰ.tail m) =
      mem-insert_desc_by x z (sort_desc_by xs) (Memᴰ.tail (mem-sort_desc_by z xs m))

  pub All-insert_desc_by {κ} :
      (P : A → Type κ) (x : A) (ys : List A) → P x → All P ys → All P (insert_desc_by x ys)
  All-insert_desc_by P x [] p h = (p, tt)
  All-insert_desc_by P x (y ∷ ys) p h = elim (Bool-cases (leb (key y) (key x))) [
    | inl t ↦ rw t (p, h)
    | inr f ↦ rw f (h.0, All-insert_desc_by P x ys p h.1)
  ]

  pub All-sort_desc_by {κ} : (P : A → Type κ) (xs : List A) → All P xs → All P (sort_desc_by xs)
  All-sort_desc_by P [] h = tt
  All-sort_desc_by P (x ∷ xs) h =
      All-insert_desc_by P x (sort_desc_by xs) h.0 (All-sort_desc_by P xs h.1)

  length-insert_desc_by : (x : A) (ys : List A) → length (insert_desc_by x ys) ≡ suc (length ys)
  length-insert_desc_by x [] = refl
  length-insert_desc_by x (y ∷ ys) = ground (arith, length-insert_desc_by x ys)

  pub length-sort_desc_by : (xs : List A) → length (sort_desc_by xs) ≡ length xs
  length-sort_desc_by [] = refl
  length-sort_desc_by (x ∷ xs) =
      omega (arith, length-insert_desc_by x (sort_desc_by xs), length-sort_desc_by xs)

  -- The result is in order.
  IsOrdered-insert_desc_by :
      (x : A) (ys : List A)
      → Pairwise (λ a b. key b ≤ key a) ys
      → Pairwise (λ a b. key b ≤ key a) (insert_desc_by x ys)
  IsOrdered-insert_desc_by x [] h = (tt, tt)
  IsOrdered-insert_desc_by x (y ∷ ys) h = elim (Bool-cases (leb (key y) (key x))) [
    | inl t ↦ rw t ((ground arith, All-mono _ _ ys (λ a le. ground arith) h.0), h)
    | inr f ↦ rw f (
      All-insert_desc_by (λ b. key b ≤ key y) x ys (ground arith) h.0,
      IsOrdered-insert_desc_by x ys h.1,
    )
  ]

  pub sort_desc_by-IsOrdered : (xs : List A) → Pairwise (λ a b. key b ≤ key a) (sort_desc_by xs)
  sort_desc_by-IsOrdered [] = tt
  sort_desc_by-IsOrdered (x ∷ xs) =
      IsOrdered-insert_desc_by x (sort_desc_by xs) (sort_desc_by-IsOrdered xs)
