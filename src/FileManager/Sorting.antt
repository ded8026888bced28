-- ===== src/FileManager/Sorting.antt =====
-- `Array.prototype.sort` with a comparator: stable, and sorted wherever the comparator is a total
-- preorder. The page sorts its rows with it (internal/app/static/file-manager.js).
use mathlib.Core.List.Perm
use termdock.Base.{
  ◌≡◌, refl, Bool, true, false, List, [], ◌∷◌, Perm, All, inl, inr, Bool-cases, if◌then◌else◌,
  select, length, arith,
}
use termdock.FileManager.{Sign, is_after}

select-cons {ℓ} :
    {A : Type ℓ} (p : A → Bool) (x : A) (xs ys : List A)
    → Perm (select p xs) (select p ys)
    → Perm (select p (x ∷ xs)) (select p (x ∷ ys))
select-cons p x xs ys h = elim (Bool-cases (p x)) [ inl e ↦ rw e (Perm.cons x h) | inr e ↦ rw e h ]

select-swap {ℓ} :
    {A : Type ℓ} (p : A → Bool) (x y : A) (xs : List A)
    → Perm (select p (y ∷ x ∷ xs)) (select p (x ∷ y ∷ xs))
select-swap p x y xs = elim (Bool-cases (p x)) [
  | inl e ↦ rw e (elim (Bool-cases (p y)) [
    | inl k ↦ rw k (Perm.swap x y (select p xs))
    | inr k ↦ rw k (Perm.refl (x ∷ select p xs))
  ])
  | inr e ↦ rw e (elim (Bool-cases (p y)) [
    | inl k ↦ rw k (Perm.refl (y ∷ select p xs))
    | inr k ↦ rw k (Perm.refl (select p xs))
  ])
]

module _ {ℓ} {A : Type ℓ} (compare : A → A → Sign) where
  unfoldable pub insert_row : A → List A → List A
  insert_row x [] = x ∷ []
  insert_row x (y ∷ ys) = if is_after (compare x y) then y ∷ insert_row x ys else x ∷ (y ∷ ys)

  unfoldable pub sort_rows : List A → List A
  unfolding insert_row
  sort_rows [] = []
  sort_rows (x ∷ xs) = insert_row x (sort_rows xs)

  pub insert_row-perm : (x : A) (xs : List A) → Perm (insert_row x xs) (x ∷ xs)
  unfolding insert_row
  insert_row-perm x [] = Perm.refl (x ∷ [])
  insert_row-perm x (y ∷ ys) = elim (Bool-cases (is_after (compare x y))) [
    | inl later ↦ rw later (Perm.trans (Perm.cons y (insert_row-perm x ys)) (Perm.swap x y ys))
    | inr here ↦ rw here (Perm.refl (x ∷ y ∷ ys))
  ]

  pub sort_rows-perm : (xs : List A) → Perm (sort_rows xs) xs
  unfolding sort_rows
  sort_rows-perm [] = Perm.refl []
  sort_rows-perm (x ∷ xs) =
      Perm.trans (insert_row-perm x (sort_rows xs)) (Perm.cons x (sort_rows-perm xs))

  -- No member comes after a later one.
  abbrev pub InOrder : A → A → Type 0
  InOrder x y = is_after (compare x y) ≡ false

  abbrev pub IsSorted : List A → Type ℓ
  IsSorted [] = Unit
  IsSorted (x ∷ xs) = All (InOrder x) xs × IsSorted xs

  All-insert_row {κ} :
      (Q : A → Type κ) (y : A) (ys : List A) → Q y → All Q ys → All Q (insert_row y ys)
  unfolding insert_row
  All-insert_row Q y [] h a = (h, tt)
  All-insert_row Q y (z ∷ ys) h (here, later) = elim (Bool-cases (is_after (compare y z))) [
    | inl above ↦ rw above (here, All-insert_row Q y ys h later)
    | inr below ↦ rw below (h, (here, later))
  ]

  pub All-sort_rows {κ} : (Q : A → Type κ) (xs : List A) → All Q xs → All Q (sort_rows xs)
  unfolding sort_rows
  All-sort_rows Q [] h = tt
  All-sort_rows Q (x ∷ xs) (p, ps) = All-insert_row Q x (sort_rows xs) p (All-sort_rows Q xs ps)

  select-insert_row :
      (p : A → Bool) (x : A) (xs : List A) → Perm (select p (insert_row x xs)) (select p (x ∷ xs))
  unfolding insert_row
  select-insert_row p x [] = Perm.refl (select p (x ∷ []))
  select-insert_row p x (y ∷ ys) = elim (Bool-cases (is_after (compare x y))) [
    | inl above ↦ rw above (
        Perm.trans (select-cons p y (insert_row x ys) (x ∷ ys) (select-insert_row p x ys))
          (select-swap p x y ys))
    | inr below ↦ rw below (Perm.refl (select p (x ∷ y ∷ ys)))
  ]

  length-select-insert_row :
      (p : A → Bool) (x : A) (xs : List A)
      → length (select p (insert_row x xs)) ≡ length (select p (x ∷ xs))
  unfolding insert_row
  length-select-insert_row p x [] = refl
  length-select-insert_row p x (y ∷ ys) = ground (arith, length-select-insert_row p x ys)

  -- Sorting keeps the number of the members that pass a test.
  pub length-select-sort_rows :
      (p : A → Bool) (xs : List A) → length (select p (sort_rows xs)) ≡ length (select p xs)
  unfolding sort_rows
  length-select-sort_rows p [] = refl
  length-select-sort_rows p (x ∷ xs) =
      ground (arith, length-select-insert_row p x (sort_rows xs), length-select-sort_rows p xs)

  -- Sorting keeps the members that pass a test.
  pub select-sort_rows : (p : A → Bool) (xs : List A) → Perm (select p (sort_rows xs)) (select p xs)
  unfolding sort_rows
  select-sort_rows p [] = Perm.refl []
  select-sort_rows p (x ∷ xs) =
      Perm.trans (select-insert_row p x (sort_rows xs))
        (select-cons p x (sort_rows xs) xs (select-sort_rows p xs))

  -- What a comparator must satisfy, for the members that are sorted.
  pub record IsPreorder {κ} (P : A → Type κ) : Type (ℓ ⊔ κ) where
    pub total : (x y : A) → is_after (compare x y) ≡ true → InOrder y x
    pub trans : (x y z : A) → P y → InOrder x y → InOrder y z → InOrder x z

  module _ {κ} (P : A → Type κ) (order : IsPreorder P) where
    All-trans :
        (x y : A) (zs : List A) → P y → InOrder x y → All (InOrder y) zs → All (InOrder x) zs
    All-trans x y [] p h a = tt
    All-trans x y (z ∷ zs) p h (here, later) =
        (order.trans x y z p h here, All-trans x y zs p h later)

    insert_row-IsSorted :
        (x : A) (ys : List A) → P x → All P ys → IsSorted ys → IsSorted (insert_row x ys)
    unfolding insert_row
    insert_row-IsSorted x [] p ps s = (tt, tt)
    insert_row-IsSorted x (y ∷ ys) p (q, ps) (a, s) = elim (Bool-cases (is_after (compare x y))) [
      | inl above ↦ rw above (
        All-insert_row (InOrder y) x ys (order.total x y above) a,
        insert_row-IsSorted x ys p ps s,
      )
      | inr below ↦ rw below ((below, All-trans x y ys q below a), (a, s))
    ]

    pub sort_rows-IsSorted : (xs : List A) → All P xs → IsSorted (sort_rows xs)
    unfolding sort_rows
    sort_rows-IsSorted [] h = tt
    sort_rows-IsSorted (x ∷ xs) (p, ps) =
        insert_row-IsSorted x (sort_rows xs) p (All-sort_rows P xs ps) (sort_rows-IsSorted xs ps)
