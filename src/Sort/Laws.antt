-- ===== src/Sort/Laws.antt =====
-- The sort keeps the elements, orders them, and leaves alone what is ordered.
use mathlib.Core.List.{Perm}
use mathlib.Core.List.Perm
use pikoci.Base.{
  Bool, true, false, List, [], ◌∷◌, ◌≡◌, refl, arith, All, filter, Bool-cases, inl, inr, length,
  suc, contains, Equality, IsDistinct, map, ◌∙◌,
}
use pikoci.Sort.{insert, sort}

module _ {ℓ} {A : Type ℓ} (before : A → A → Bool) where
  insert-perm : (x : A) (ys : List A) → Perm (insert before x ys) (x ∷ ys)
  unfolding insert
  insert-perm x [] = Perm.refl (x ∷ [])
  insert-perm x (y ∷ ys) = elim (Bool-cases (before y x)) [
    | inl e ↦ rw e (Perm.trans (Perm.cons y (insert-perm x ys)) (Perm.swap x y ys))
    | inr e ↦ rw e (Perm.refl (x ∷ y ∷ ys))
  ]

  pub sort-perm : (xs : List A) → Perm (sort before xs) xs
  unfolding sort
  sort-perm [] = Perm.refl []
  sort-perm (x ∷ xs) = Perm.trans (insert-perm x (sort before xs)) (Perm.cons x (sort-perm xs))

  -- No later element is before an earlier one.
  abbrev pub IsOrdered : List A → Type ℓ
  IsOrdered [] = Unit
  IsOrdered (x ∷ xs) = All (λ y. before y x ≡ false) xs × IsOrdered xs

  pub All-insert {κ} :
      (P : A → Type κ) (x : A) (ys : List A) → P x → All P ys → All P (insert before x ys)
  unfolding insert
  All-insert P x [] p h = (p, tt)
  All-insert P x (y ∷ ys) p h = elim (Bool-cases (before y x)) [
    | inl e ↦ rw (e, insert) (h.0, All-insert P x ys p h.1)
    | inr e ↦ rw (e, insert) (p, h)
  ]

  pub All-sort {κ} : (P : A → Type κ) (xs : List A) → All P xs → All P (sort before xs)
  unfolding sort
  All-sort P [] h = h
  All-sort P (x ∷ xs) h = All-insert P x (sort before xs) h.0 (All-sort P xs h.1)

  insert_first :
      (x : A) (xs : List A) → All (λ y. before y x ≡ false) xs → insert before x xs ≡ x ∷ xs
  unfolding insert
  insert_first x [] h = refl
  insert_first x (y ∷ ys) h = rw h.0

  -- What is ordered is left as it is.
  pub sort_of_IsOrdered : (xs : List A) → IsOrdered xs → sort before xs ≡ xs
  unfolding sort
  sort_of_IsOrdered [] h = refl
  sort_of_IsOrdered (x ∷ xs) h = rw (sort_of_IsOrdered xs h.1) (insert_first x xs h.0)

  -- The laws of a comparator, among the elements that satisfy `P`.
  pub record IsComparator {κ} (P : A → Type κ) : Type (ℓ ⊔ κ) where
    pub asymmetric : (x y : A) → P x → P y → before x y ≡ true → before y x ≡ false
    pub negatively_transitive :
        (x y z : A) → P x → P y → P z → before x y ≡ false → before y z ≡ false → before x z ≡ false

  module _ {κ} (P : A → Type κ) (law : IsComparator P) where
    All_later :
        (x y : A) (ys : List A)
        → P x
        → P y
        → All P ys
        → before y x ≡ false
        → All (λ z. before z y ≡ false) ys
        → All (λ z. before z x ≡ false) ys
    All_later x y [] px py ps e h = tt
    All_later x y (z ∷ ys) px py ps e h =
        (law.negatively_transitive z y x ps.0 py px h.0 e, All_later x y ys px py ps.1 e h.1)

    insert-IsOrdered :
        (x : A) (ys : List A) → P x → All P ys → IsOrdered ys → IsOrdered (insert before x ys)
    unfolding insert
    insert-IsOrdered x [] px ps h = (tt, tt)
    insert-IsOrdered x (y ∷ ys) px ps h = elim (Bool-cases (before y x)) [
      | inl e ↦
          rw (e, insert)
            (
              All-insert (λ z. before z y ≡ false) x ys (law.asymmetric y x ps.0 px e) h.0,
              insert-IsOrdered x ys px ps.1 h.1,
            )
      | inr e ↦ rw (e, insert) ((e, All_later x y ys px ps.0 ps.1 e h.0), h)
    ]

    pub sort-IsOrdered : (xs : List A) → All P xs → IsOrdered (sort before xs)
    unfolding sort
    sort-IsOrdered [] h = tt
    sort-IsOrdered (x ∷ xs) h =
        insert-IsOrdered x (sort before xs) h.0 (All-sort P xs h.1) (sort-IsOrdered xs h.1)

  -- Elements none of which is before another keep their order: the sort is stable.
  module _ (q : A → Bool) (tied : (x y : A) → q x ≡ true → q y ≡ true → before y x ≡ false) where
    filter-insert : (x : A) (ys : List A) → filter q (insert before x ys) ≡ filter q (x ∷ ys)
    unfolding insert
    filter-insert x [] = refl
    filter-insert x (y ∷ ys) = elim (Bool-cases (before y x)) [
      | inl e ↦ rw (e, insert) (ground (arith, filter-insert x ys, tied x y, e))
      | inr e ↦ rw (e, insert) refl
    ]

    pub filter-sort : (xs : List A) → filter q (sort before xs) ≡ filter q xs
    unfolding sort
    filter-sort [] = refl
    filter-sort (x ∷ xs) = ground (arith, filter-insert x (sort before xs), filter-sort xs)

  length-insert : (x : A) (ys : List A) → length (insert before x ys) ≡ suc (length ys)
  unfolding insert
  length-insert x [] = refl
  length-insert x (y ∷ ys) = ground (arith, length-insert x ys)

  pub length-sort : (xs : List A) → length (sort before xs) ≡ length xs
  unfolding sort
  length-sort [] = refl
  length-sort (x ∷ xs) = ground (arith, length-insert x (sort before xs), length-sort xs)

  -- What the elements are labelled by, as a set.
  module _ {κ} {K : Type κ} ⦃e : Equality K⦄ (f : A → K) where
    contains-insert :
        (x : A) (ys : List A) (k : K)
        → contains (map f (insert before x ys)) k ≡ contains (map f (x ∷ ys)) k
    unfolding insert contains
    contains-insert x [] k = refl
    contains-insert x (y ∷ ys) k = elim (Bool-cases (before y x)) [
      | inl h ↦ rw (h, insert) (ground (arith, contains-insert x ys k))
      | inr h ↦ rw (h, insert) refl
    ]

    pub contains-sort :
        (xs : List A) (k : K) → contains (map f (sort before xs)) k ≡ contains (map f xs) k
    unfolding sort contains
    contains-sort [] k = refl
    contains-sort (x ∷ xs) k =
        ground (arith, contains-insert x (sort before xs) k, contains-sort xs k)

    IsDistinct-insert :
        (x : A) (ys : List A)
        → contains (map f ys) (f x) ≡ false
        → IsDistinct (map f ys)
        → IsDistinct (map f (insert before x ys))
    unfolding insert contains
    IsDistinct-insert x [] h d = (refl, tt)
    IsDistinct-insert x (y ∷ ys) h d = elim (Bool-cases (before y x)) [
      | inl b ↦
          rw (b, insert)
            (
              ground (
                arith,
                contains-insert x ys (f y),
                e.same_iff (f x) (f y),
                e.same_iff (f y) (f x),
                d,
                h,
              ),
              IsDistinct-insert x ys (ground arith) d.1,
            )
      | inr b ↦ rw (b, insert) (h, d)
    ]

    pub IsDistinct-sort :
        (xs : List A) → IsDistinct (map f xs) → IsDistinct (map f (sort before xs))
    unfolding sort
    IsDistinct-sort [] d = d
    IsDistinct-sort (x ∷ xs) d =
        IsDistinct-insert x (sort before xs) (contains-sort xs (f x) ∙ d.0) (IsDistinct-sort xs d.1)

    contains-filter-insert :
        (q : A → Bool) (x : A) (ys : List A) (k : K)
        → contains (map f (filter q (insert before x ys))) k
          ≡ contains (map f (filter q (x ∷ ys))) k
    unfolding insert contains
    contains-filter-insert q x [] k = refl
    contains-filter-insert q x (y ∷ ys) k = elim (Bool-cases (before y x)) [
      | inl h ↦ rw (h, insert) (ground (arith, contains-filter-insert q x ys k))
      | inr h ↦ rw (h, insert) refl
    ]

    pub contains-filter-sort :
        (q : A → Bool) (xs : List A) (k : K)
        → contains (map f (filter q (sort before xs))) k ≡ contains (map f (filter q xs)) k
    unfolding sort contains
    contains-filter-sort q [] k = refl
    contains-filter-sort q (x ∷ xs) k =
        ground (arith, contains-filter-insert q x (sort before xs) k, contains-filter-sort q xs k)

  length-filter-insert :
      (q : A → Bool) (x : A) (ys : List A)
      → length (filter q (insert before x ys)) ≡ length (filter q (x ∷ ys))
  unfolding insert
  length-filter-insert q x [] = refl
  length-filter-insert q x (y ∷ ys) = elim (Bool-cases (before y x)) [
    | inl h ↦ rw (h, insert) (ground (arith, length-filter-insert q x ys))
    | inr h ↦ rw (h, insert) refl
  ]

  pub length-filter-sort :
      (q : A → Bool) (xs : List A) → length (filter q (sort before xs)) ≡ length (filter q xs)
  unfolding sort
  length-filter-sort q [] = refl
  length-filter-sort q (x ∷ xs) =
      ground (arith, length-filter-insert q x (sort before xs), length-filter-sort q xs)
