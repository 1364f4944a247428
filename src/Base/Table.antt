-- ===== src/Base/Table.antt =====
-- A table of the SQLite database: the list of its rows in rowid order, with the statements that
-- the program runs on it. A condition is a Boolean function of the row.
use Prim.Native.Nat.{ℕ, suc, ◌+◌, ◌≤◌}
use mathlib.Core.Path.{◌≡◌, refl, ap, sym, subst, ◌∙◌}
use mathlib.Core.List.{List, [], ◌∷◌, ◌++◌, Memᴰ}
use mathlib.Core.Option.{Option, none, some}
use mathlib.Core.Bool.{Bool, true, false, ◌||◌}
use native.Mathlib.Omega.{arith}
use local_mind.Base.Tests.{if◌then◌else◌, Bool-cases}
use local_mind.Base.Lists.{length, All, Pairwise}
use mathlib.Core.Logic.{inl, inr}

module _ {ℓ} {R : Type ℓ} where
  -- `SELECT * FROM t WHERE p`
  abbrev pub select : (R → Bool) → List R → List R
  select p [] = []
  select p (r ∷ rs) = let rest = select p rs in if p r then r ∷ rest else rest

  -- `.fetchone()` of that selection
  abbrev pub fetchone : (R → Bool) → List R → Option R
  fetchone p [] = none
  fetchone p (r ∷ rs) = let rest = fetchone p rs in if p r then some r else rest

  -- `SELECT COUNT(*) FROM t WHERE p`, and the `rowcount` of an UPDATE or DELETE under `p`
  abbrev pub rowcount : (R → Bool) → List R → ℕ
  rowcount p [] = 0
  rowcount p (r ∷ rs) = let rest = rowcount p rs in if p r then suc rest else rest

  -- `UPDATE t SET … WHERE p`
  abbrev pub update : (R → Bool) → (R → R) → List R → List R
  update p f [] = []
  update p f (r ∷ rs) = (if p r then f r else r) ∷ update p f rs

  -- `DELETE FROM t WHERE p`
  abbrev pub delete : (R → Bool) → List R → List R
  delete p [] = []
  delete p (r ∷ rs) = let rest = delete p rs in if p r then rest else r ∷ rest

  -- `INSERT INTO t`: a new row has the highest rowid
  abbrev pub insert : R → List R → List R
  insert r rs = rs ++ r ∷ []

  abbrev pub exists : (R → Bool) → List R → Bool
  exists p [] = false
  exists p (r ∷ rs) = p r || exists p rs

  pub fetchone-insert :
      (p : R → Bool) (r : R) (rs : List R)
      → fetchone p rs ≡ none
      → p r ≡ true
      → fetchone p (insert r rs) ≡ some r
  fetchone-insert p r [] h e = ground arith
  fetchone-insert p r (s ∷ rs) h e = elim (Bool-cases (p s)) [
    | inl t ↦ ground arith
    | inr f ↦ rw f (fetchone-insert p r rs (ground arith) e)
  ]

  pub fetchone-insert_hit :
      (p : R → Bool) (r s : R) (rs : List R)
      → fetchone p rs ≡ some s
      → fetchone p (insert r rs) ≡ some s
  fetchone-insert_hit p r s [] h = cc
  fetchone-insert_hit p r s (t ∷ rs) h = ground (arith, fetchone-insert_hit p r s rs)

  pub fetchone-insert_miss :
      (p : R → Bool) (r : R) (rs : List R) → p r ≡ false → fetchone p (insert r rs) ≡ fetchone p rs
  fetchone-insert_miss p r [] e = ground arith
  fetchone-insert_miss p r (s ∷ rs) e = ground (arith, fetchone-insert_miss p r rs e)

  -- No row satisfies a condition that finds none.
  pub fetchone-none-All :
      (p : R → Bool) (rs : List R) → fetchone p rs ≡ none → All (λ r. p r ≡ false) rs
  fetchone-none-All p [] h = tt
  fetchone-none-All p (r ∷ rs) h = elim (Bool-cases (p r)) [
    | inl t ↦ absurd (ground arith)
    | inr f ↦ (f, fetchone-none-All p rs (ground arith))
  ]

  -- The row that is found satisfies the condition.
  pub fetchone-some : (p : R → Bool) (rs : List R) (r : R) → fetchone p rs ≡ some r → p r ≡ true
  fetchone-some p [] r h = cc
  fetchone-some p (s ∷ rs) r h = ground (arith, fetchone-some p rs r)

  pub rowcount-update :
      (p : R → Bool) (f : R → R) (rs : List R)
      → ((r : R) → p r ≡ true → p (f r) ≡ false)
      → rowcount p (update p f rs) ≡ 0
  rowcount-update p f [] h = refl
  rowcount-update p f (r ∷ rs) h = elim (Bool-cases (p r)) [
    | inl t ↦ rw t (rw (h r t) (rowcount-update p f rs h))
    | inr e ↦ rw e (rw e (rowcount-update p f rs h))
  ]

  pub length-update : (p : R → Bool) (f : R → R) (rs : List R) → length (update p f rs) ≡ length rs
  length-update p f [] = refl
  length-update p f (r ∷ rs) = ap suc (length-update p f rs)

  pub length-select_le : (p : R → Bool) (rs : List R) → length (select p rs) ≤ length rs
  length-select_le p [] = omega arith
  length-select_le p (r ∷ rs) = ground (arith, length-select_le p rs)

  pub length-select : (p : R → Bool) (rs : List R) → length (select p rs) ≡ rowcount p rs
  length-select p [] = refl
  length-select p (r ∷ rs) = ground (arith, length-select p rs)

  pub length-delete :
      (p : R → Bool) (rs : List R) → length (delete p rs) + rowcount p rs ≡ length rs
  length-delete p [] = omega arith
  length-delete p (r ∷ rs) = ground (arith, length-delete p rs)

  pub fetchone-delete_self : (p : R → Bool) (rs : List R) → fetchone p (delete p rs) ≡ none
  fetchone-delete_self p [] = refl
  fetchone-delete_self p (r ∷ rs) = ground (arith, fetchone-delete_self p rs)

  pub fetchone-delete_other :
      (p q : R → Bool) (rs : List R)
      → ((r : R) → q r ≡ true → p r ≡ false)
      → fetchone q (delete p rs) ≡ fetchone q rs
  fetchone-delete_other p q [] h = refl
  fetchone-delete_other p q (r ∷ rs) h = ground (arith, h r, fetchone-delete_other p q rs h)

  pub fetchone-update_other :
      (p q : R → Bool) (f : R → R) (rs : List R)
      → ((r : R) → p r ≡ true → (q r ≡ false) × (q (f r) ≡ false))
      → fetchone q (update p f rs) ≡ fetchone q rs
  fetchone-update_other p q f [] h = refl
  fetchone-update_other p q f (r ∷ rs) h = elim (Bool-cases (p r)) [
    | inl t ↦ rw (t, (h r t).1, (h r t).0) (fetchone-update_other p q f rs h)
    | inr e ↦ rw e (rw (fetchone-update_other p q f rs h))
  ]

  -- An update that keeps the condition is seen at the row that the condition finds.
  pub fetchone-update_hit :
      (p : R → Bool) (f : R → R) (rs : List R) (s : R)
      → ((r : R) → p (f r) ≡ p r)
      → fetchone p rs ≡ some s
      → fetchone p (update p f rs) ≡ some (f s)
  fetchone-update_hit p f [] s keep h = cc
  fetchone-update_hit p f (r ∷ rs) s keep h = elim (Bool-cases (p r)) [
    | inl t ↦ ground (arith, keep r)
    | inr e ↦ ground (arith, keep r, fetchone-update_hit p f rs s keep)
  ]

  abbrev pub updated : (R → Bool) → (R → R) → R → R
  updated p f r = if p r then f r else r

module _ {ℓ κ} {R : Type ℓ} (p : R → Bool) (f : R → R) where
  pub All-update :
      (P : R → Type κ) (Q : R → Type κ) (rs : List R)
      → ((r : R) → P r → Q (updated p f r))
      → All P rs
      → All Q (update p f rs)
  All-update P Q [] keep h = tt
  All-update P Q (r ∷ rs) keep h = (keep r h.0, All-update P Q rs keep h.1)

  pub Pairwise-update :
      (S : R → R → Type κ) (rs : List R)
      → ((r s : R) → S r s → S (updated p f r) (updated p f s))
      → Pairwise S rs
      → Pairwise S (update p f rs)
  Pairwise-update S [] keep h = tt
  Pairwise-update S (r ∷ rs) keep h =
      (All-update (S r) (S (updated p f r)) rs (λ s. keep r s) h.0, Pairwise-update S rs keep h.1)

module _ {ℓ} {R : Type ℓ} where
  pub fetchone-mem : (p : R → Bool) (rs : List R) (r : R) → fetchone p rs ≡ some r → Memᴰ r rs
  fetchone-mem p [] r h = cc
  fetchone-mem p (s ∷ rs) r h = elim (Bool-cases (p s)) [
    | inl t ↦ Memᴰ.head (ground arith)
    | inr f ↦ Memᴰ.tail (fetchone-mem p rs r (ground arith))
  ]

  pub exists_of_mem :
      (p : R → Bool) (rs : List R) (r : R) → Memᴰ r rs → p r ≡ true → exists p rs ≡ true
  exists_of_mem p [] r m h = elim m [ ]
  exists_of_mem p (s ∷ rs) r (Memᴰ.head e) h = ground arith
  exists_of_mem p (s ∷ rs) r (Memᴰ.tail m) h = ground (arith, exists_of_mem p rs r m)

  pub mem_of_select :
      (p : R → Bool) (rs : List R) (r : R) → Memᴰ r (select p rs) → Memᴰ r rs × (p r ≡ true)
  mem_of_select p [] r m = elim m [ ]
  mem_of_select p (s ∷ rs) r m = elim (Bool-cases (p s)) [
    | inl t ↦
        hit t (subst (Memᴰ r) (ap (λ b. if b then s ∷ select p rs else select p rs) t) m)
          (mem_of_select p rs r)
    | inr f ↦
        let (here, fits) =
          mem_of_select p rs r
            (subst (Memᴰ r) (ap (λ b. if b then s ∷ select p rs else select p rs) f) m) in
        (Memᴰ.tail here, fits)
  ]
    where
      hit :
          p s ≡ true
          → Memᴰ r (s ∷ select p rs)
          → (Memᴰ r (select p rs) → Memᴰ r rs × (p r ≡ true))
          → Memᴰ r (s ∷ rs) × (p r ≡ true)
      hit t (Memᴰ.head e) again = (Memᴰ.head e, ap p e ∙ t)
      hit t (Memᴰ.tail m) again = let (here, fits) = again m in (Memᴰ.tail here, fits)

  pub mem-select :
      (p : R → Bool) (rs : List R) (r : R) → Memᴰ r rs → p r ≡ true → Memᴰ r (select p rs)
  mem-select p [] r m h = elim m [ ]
  mem-select p (s ∷ rs) r (Memᴰ.head e) h =
      let t : p s ≡ true = ap p (sym e) ∙ h in rw t (Memᴰ.head e)
  mem-select p (s ∷ rs) r (Memᴰ.tail m) h = elim (Bool-cases (p s)) [
    | inl t ↦ rw t (Memᴰ.tail (mem-select p rs r m h))
    | inr f ↦ rw f (mem-select p rs r m h)
  ]

  -- An updated row is in the table.
  pub mem-update :
      (p : R → Bool) (f : R → R) (rs : List R) (r : R)
      → Memᴰ r rs
      → p r ≡ true
      → Memᴰ (f r) (update p f rs)
  mem-update p f [] r m h = elim m [ ]
  mem-update p f (s ∷ rs) r (Memᴰ.head e) h =
      let t : p s ≡ true = ap p (sym e) ∙ h in rw t (Memᴰ.head (ap f e))
  mem-update p f (s ∷ rs) r (Memᴰ.tail m) h = Memᴰ.tail (mem-update p f rs r m h)

  pub All-select {κ} :
      (P : R → Type κ) (p : R → Bool) (rs : List R) → All P rs → All P (select p rs)
  All-select P p [] h = tt
  All-select P p (r ∷ rs) h = elim (Bool-cases (p r)) [
    | inl t ↦ rw t (h.0, All-select P p rs h.1)
    | inr f ↦ rw f (All-select P p rs h.1)
  ]

  pub select-append :
      (p : R → Bool) (rs ss : List R) → select p (rs ++ ss) ≡ select p rs ++ select p ss
  select-append p [] ss = refl
  select-append p (r ∷ rs) ss = elim (Bool-cases (p r)) [
    | inl t ↦ rw t (ap (λ xs. r ∷ xs) (select-append p rs ss))
    | inr f ↦ rw f (select-append p rs ss)
  ]

  pub select-All : (p : R → Bool) (rs : List R) → All (λ r. p r ≡ true) rs → select p rs ≡ rs
  select-All p [] h = refl
  select-All p (r ∷ rs) h = rw h.0 (ap (λ xs. r ∷ xs) (select-All p rs h.1))

  pub All-select_sat : (p : R → Bool) (rs : List R) → All (λ r. p r ≡ true) (select p rs)
  All-select_sat p [] = tt
  All-select_sat p (r ∷ rs) = elim (Bool-cases (p r)) [
    | inl t ↦ rw t (t, All-select_sat p rs)
    | inr f ↦ rw f (All-select_sat p rs)
  ]

  pub select-none : (p : R → Bool) (rs : List R) → All (λ r. p r ≡ false) rs → select p rs ≡ []
  select-none p [] h = refl
  select-none p (r ∷ rs) (e, h) = rw e (select-none p rs h)

  -- An update of rows outside a selection, which stay outside, does not change the selection.
  pub select-update_other :
      (p q : R → Bool) (f : R → R) (rs : List R)
      → ((r : R) → p r ≡ true → (q r ≡ false) × (q (f r) ≡ false))
      → select q (update p f rs) ≡ select q rs
  select-update_other p q f [] h = refl
  select-update_other p q f (r ∷ rs) h = elim (Bool-cases (p r)) [
    | inl t ↦ rw (t, (h r t).1, (h r t).0) (select-update_other p q f rs h)
    | inr e ↦ rw e (rw (select-update_other p q f rs h))
  ]

  pub All-update_always {κ} :
      (Q : R → Type κ) (p : R → Bool) (f : R → R) (rs : List R)
      → ((r : R) → Q (updated p f r))
      → All Q (update p f rs)
  All-update_always Q p f [] h = tt
  All-update_always Q p f (r ∷ rs) h = (h r, All-update_always Q p f rs h)
