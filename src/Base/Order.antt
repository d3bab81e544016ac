-- ===== src/Base/Order.antt =====
-- `Ord` with the laws of the derived instances, `sort_unstable` and `dedup` of slices, and sets
-- as strictly ascending lists (`BTreeSet`).
use Prim.Native.Nat.{ℕ, compare, Ordering}
use Prim.Native.Nat.Ordering.{lt, eq, gt}
use mathlib.Core.Path.{◌≡◌, refl, ap, ap₂, sym, ◌∙◌}
use mathlib.Core.Logic.{◌↔◌, ◌⊎◌, inl, inr}
use mathlib.Core.Bool.{Bool, true, false, ◌||◌, ◌&&◌}
use mathlib.Core.List.Permᴰ
use mathlib.Core.List.{Permᴰ, List, [], ◌∷◌}
use native.Mathlib.Omega.{arith}
use mumble_server_runtime.Base.Lists.{All, filter}

pub record Order {ℓ} (A : Type ℓ) : Type ℓ where
  pub cmp : A → A → Ordering
  pub cmp_eq : (a b : A) → (cmp a b ≡ eq) ↔ (a ≡ b)
  pub cmp_gt : (a b : A) → (cmp a b ≡ gt) ↔ (cmp b a ≡ lt)
  pub cmp_trans : (a b c : A) → cmp a b ≡ lt → cmp b c ≡ lt → cmp a c ≡ lt

abbrev is_eq : Ordering → Bool
is_eq eq = true
is_eq _ = false

pub compare-eq : (a b : ℕ) → (compare a b ≡ eq) ↔ (a ≡ b)
compare-eq a b = ground arith

pub compare-gt : (a b : ℕ) → (compare a b ≡ gt) ↔ (compare b a ≡ lt)
compare-gt a b = ground arith

pub compare_trans : (a b c : ℕ) → compare a b ≡ lt → compare b c ≡ lt → compare a c ≡ lt
compare_trans a b c = ground arith

pub Ordering-cases : (r : Ordering) → (r ≡ lt) ⊎ (r ≡ eq) ⊎ (r ≡ gt)
Ordering-cases lt = inl refl
Ordering-cases eq = inr (inl refl)
Ordering-cases gt = inr (inr refl)

instance abbrev pub nat_order : Order ℕ
nat_order = record {
  cmp = compare;
  cmp_eq = compare-eq;
  cmp_gt = compare-gt;
  cmp_trans = compare_trans;
}

-- `Ordering::then`
abbrev pub then_with : Ordering → Ordering → Ordering
then_with eq o = o
then_with o _ = o

module _ {ℓ} {A : Type ℓ} ⦃o : Order A⦄ where
  -- arrays of one length, and slices: lexicographic
  abbrev pub list_cmp : List A → List A → Ordering
  list_cmp [] [] = eq
  list_cmp [] (y ∷ ys) = lt
  list_cmp (x ∷ xs) [] = gt
  list_cmp (x ∷ xs) (y ∷ ys) = then_with (o.cmp x y) (list_cmp xs ys)

  pub list_cmp-eq : (xs ys : List A) → (list_cmp xs ys ≡ eq) ↔ (xs ≡ ys)
  list_cmp-eq [] [] = ground arith
  list_cmp-eq [] (y ∷ ys) = ground arith
  list_cmp-eq (x ∷ xs) [] = ground arith
  list_cmp-eq (x ∷ xs) (y ∷ ys) = ground (arith, o.cmp_eq x y, list_cmp-eq xs ys)

  pub list_cmp-gt : (xs ys : List A) → (list_cmp xs ys ≡ gt) ↔ (list_cmp ys xs ≡ lt)
  list_cmp-gt [] [] = ground arith
  list_cmp-gt [] (y ∷ ys) = ground arith
  list_cmp-gt (x ∷ xs) [] = ground arith
  list_cmp-gt (x ∷ xs) (y ∷ ys) =
      ground (arith, o.cmp_eq x y, o.cmp_eq y x, o.cmp_gt x y, o.cmp_gt y x, list_cmp-gt xs ys)

  pub list_cmp_trans :
      (xs ys zs : List A) → list_cmp xs ys ≡ lt → list_cmp ys zs ≡ lt → list_cmp xs zs ≡ lt
  list_cmp_trans [] [] zs p q = ground arith
  list_cmp_trans [] (y ∷ ys) [] p q = ground arith
  list_cmp_trans [] (y ∷ ys) (z ∷ zs) p q = refl
  list_cmp_trans (x ∷ xs) [] zs p q = ground arith
  list_cmp_trans (x ∷ xs) (y ∷ ys) [] p q = ground arith
  list_cmp_trans (x ∷ xs) (y ∷ ys) (z ∷ zs) p q =
      ground (
        arith,
        o.cmp_eq x y,
        o.cmp_eq y z,
        o.cmp_eq x z,
        o.cmp_trans x y z,
        list_cmp_trans xs ys zs,
      )

  instance abbrev pub list_order : Order (List A)
  list_order = record {
    cmp = list_cmp;
    cmp_eq = list_cmp-eq;
    cmp_gt = list_cmp-gt;
    cmp_trans = list_cmp_trans;
  }

module _ {ℓ} {A : Type ℓ} (cmp : A → A → Ordering) where
  insert_by : A → List A → List A
  insert_by x [] = x ∷ []
  insert_by x (y ∷ ys) = elim (cmp x y) [ gt ↦ y ∷ insert_by x ys | _ ↦ x ∷ y ∷ ys ]

  -- `sort_by`: stable.
  unfoldable pub sort_by : List A → List A
  unfolding insert_by
  sort_by [] = []
  sort_by (x ∷ xs) = insert_by x (sort_by xs)

  insert_by-perm : (x : A) (xs : List A) → Permᴰ (x ∷ xs) (insert_by x xs)
  unfolding insert_by
  insert_by-perm x [] = Permᴰ.refl (x ∷ [])
  insert_by-perm x (y ∷ ys) = elim (Ordering-cases (cmp x y)) [
    | inl l ↦ rw (l, insert_by) (Permᴰ.refl (x ∷ y ∷ ys))
    | inr (inl e) ↦ rw (e, insert_by) (Permᴰ.refl (x ∷ y ∷ ys))
    | inr (inr g) ↦
        rw (g, insert_by)
          (Permᴰ.trans (Permᴰ.swap refl refl) (Permᴰ.cons refl (insert_by-perm x ys)))
  ]

  pub sort_by-perm : (xs : List A) → Permᴰ xs (sort_by xs)
  unfolding sort_by
  sort_by-perm [] = Permᴰ.refl []
  sort_by-perm (x ∷ xs) =
      Permᴰ.trans (Permᴰ.cons refl (sort_by-perm xs)) (insert_by-perm x (sort_by xs))

module _ {ℓ} {A : Type ℓ} ⦃o : Order A⦄ where
  -- `slice.contains(&a)`, `set.contains(&a)`
  abbrev pub contains : List A → A → Bool
  contains [] a = false
  contains (x ∷ xs) a = is_eq (o.cmp x a) || contains xs a

  insert_sorted : A → List A → List A
  insert_sorted x [] = x ∷ []
  insert_sorted x (y ∷ ys) = elim (o.cmp x y) [ gt ↦ y ∷ insert_sorted x ys | _ ↦ x ∷ y ∷ ys ]

  -- `sort_unstable`: elements that compare equal are equal, so the sorted slice is unique.
  unfoldable pub sort : List A → List A
  unfolding insert_sorted
  sort [] = []
  sort (x ∷ xs) = insert_sorted x (sort xs)

  dedup_from : A → List A → List A
  dedup_from x [] = x ∷ []
  dedup_from x (y ∷ ys) = elim (o.cmp x y) [ eq ↦ dedup_from x ys | _ ↦ x ∷ dedup_from y ys ]

  -- `dedup`: of a run of equal elements the first stays.
  unfoldable pub dedup : List A → List A
  unfolding dedup_from
  dedup [] = []
  dedup (x ∷ xs) = dedup_from x xs

  -- `BTreeSet::insert`
  unfoldable pub set_insert : A → List A → List A
  set_insert x [] = x ∷ []
  set_insert x (y ∷ ys) = elim (o.cmp x y) [
    | gt ↦ y ∷ set_insert x ys
    | eq ↦ y ∷ ys
    | lt ↦ x ∷ y ∷ ys
  ]

  abbrev NotAbove : A → A → Type 0
  NotAbove x y = o.cmp x y ≡ gt → ⊥

  abbrev IsSorted : List A → Type 0
  IsSorted [] = Unit
  IsSorted (x ∷ xs) = All (NotAbove x) xs × IsSorted xs

  -- The canonical form: strictly ascending.
  abbrev pub IsAscending : List A → Type 0
  IsAscending [] = Unit
  IsAscending (x ∷ xs) = All (λ y. o.cmp x y ≡ lt) xs × IsAscending xs

  contains-insert_sorted :
      (x : A) (xs : List A) (a : A)
      → contains (insert_sorted x xs) a ≡ (is_eq (o.cmp x a) || contains xs a)
  unfolding insert_sorted
  contains-insert_sorted x [] a = refl
  contains-insert_sorted x (y ∷ ys) a = ground (arith, contains-insert_sorted x ys a)

  pub contains-sort : (xs : List A) (a : A) → contains (sort xs) a ≡ contains xs a
  unfolding sort
  contains-sort [] a = refl
  contains-sort (x ∷ xs) a =
      contains-insert_sorted x (sort xs) a ∙ ap (λ t. is_eq (o.cmp x a) || t) (contains-sort xs a)

  contains-dedup_from :
      (x : A) (xs : List A) (a : A) → contains (dedup_from x xs) a ≡ contains (x ∷ xs) a
  unfolding dedup_from
  contains-dedup_from x [] a = refl
  contains-dedup_from x (y ∷ ys) a =
      ground (arith, o.cmp_eq x y, contains-dedup_from x ys a, contains-dedup_from y ys a)

  pub contains-dedup : (xs : List A) (a : A) → contains (dedup xs) a ≡ contains xs a
  unfolding dedup
  contains-dedup [] a = refl
  contains-dedup (x ∷ xs) a = contains-dedup_from x xs a

  pub contains-set_insert :
      (x : A) (xs : List A) (a : A)
      → contains (set_insert x xs) a ≡ (is_eq (o.cmp x a) || contains xs a)
  unfolding set_insert
  contains-set_insert x [] a = refl
  contains-set_insert x (y ∷ ys) a = ground (arith, o.cmp_eq x y, contains-set_insert x ys a)

  pub contains-filter :
      (p : A → Bool) (xs : List A) (x : A) → contains (filter p xs) x ≡ (contains xs x && p x)
  contains-filter p [] x = refl
  contains-filter p (y ∷ xs) x =
      let same : y ≡ x → p y ≡ p x = ap p in
      ground (arith, o.cmp_eq y x, same, contains-filter p xs x)

  All-insert_sorted {κ} :
      (P : A → Type κ) (x : A) (xs : List A) → P x → All P xs → All P (insert_sorted x xs)
  unfolding insert_sorted
  All-insert_sorted P x [] p h = (p, tt)
  All-insert_sorted P x (y ∷ ys) p h = ground (arith, All-insert_sorted P x ys p)

  All-imp {κ μ} :
      (P : A → Type κ) (Q : A → Type μ) (xs : List A) → ((a : A) → P a → Q a) → All P xs → All Q xs
  All-imp P Q [] f h = tt
  All-imp P Q (x ∷ xs) f h = (f x h.0, All-imp P Q xs f h.1)

  NotAbove-trans : (x y z : A) → NotAbove x y → NotAbove y z → NotAbove x z
  NotAbove-trans x y z p q = ground (
    arith,
    o.cmp_eq x y,
    o.cmp_eq y z,
    o.cmp_eq x z,
    o.cmp_gt x y,
    o.cmp_gt x z,
    o.cmp_gt y z,
    o.cmp_trans x y z,
    o.cmp_trans z x y,
    o.cmp_trans y z x,
  )

  cons-IsSorted : (x y : A) (ys : List A) → NotAbove x y → IsSorted (y ∷ ys) → IsSorted (x ∷ y ∷ ys)
  cons-IsSorted x y ys p s =
      ((p, All-imp (NotAbove y) (NotAbove x) ys (λ z. NotAbove-trans x y z p) s.0), s)

  insert_sorted-IsSorted : (x : A) (xs : List A) → IsSorted xs → IsSorted (insert_sorted x xs)
  unfolding insert_sorted
  insert_sorted-IsSorted x [] s = (tt, tt)
  insert_sorted-IsSorted x (y ∷ ys) s = elim (Ordering-cases (o.cmp x y)) [
    | inl l ↦ rw (l, insert_sorted) (cons-IsSorted x y ys (λ g. cc) s)
    | inr (inl e) ↦ rw (e, insert_sorted) (cons-IsSorted x y ys (λ g. cc) s)
    | inr (inr g) ↦
        rw (g, insert_sorted)
          (
            All-insert_sorted (NotAbove y) x ys (λ h. ground (arith, o.cmp_gt x y)) s.0,
            insert_sorted-IsSorted x ys s.1,
          )
  ]

  sort-IsSorted : (xs : List A) → IsSorted (sort xs)
  unfolding sort
  sort-IsSorted [] = tt
  sort-IsSorted (x ∷ xs) = insert_sorted-IsSorted x (sort xs) (sort-IsSorted xs)

  dedup_from-Above :
      (w x : A) (xs : List A)
      → o.cmp w x ≡ lt
      → All (NotAbove x) xs
      → IsSorted xs
      → All (λ y. o.cmp w y ≡ lt) (dedup_from x xs)
  unfolding dedup_from
  dedup_from-Above w x [] p h s = (p, tt)
  dedup_from-Above w x (y ∷ ys) p h s = elim (Ordering-cases (o.cmp x y)) [
    | inl l ↦ rw (l, dedup_from) (p, dedup_from-Above w y ys (o.cmp_trans w x y p l) s.0 s.1)
    | inr (inl e) ↦ rw (e, dedup_from) (dedup_from-Above w x ys p h.1 s.1)
    | inr (inr g) ↦ absurd (h.0 g)
  ]

  dedup_from-IsAscending :
      (x : A) (xs : List A) → All (NotAbove x) xs → IsSorted xs → IsAscending (dedup_from x xs)
  unfolding dedup_from
  dedup_from-IsAscending x [] h s = (tt, tt)
  dedup_from-IsAscending x (y ∷ ys) h s = elim (Ordering-cases (o.cmp x y)) [
    | inl l ↦
        rw (l, dedup_from) (dedup_from-Above x y ys l s.0 s.1, dedup_from-IsAscending y ys s.0 s.1)
    | inr (inl e) ↦ rw (e, dedup_from) (dedup_from-IsAscending x ys h.1 s.1)
    | inr (inr g) ↦ absurd (h.0 g)
  ]

  -- Sorting and removing runs gives the canonical form.
  pub dedup-sort-IsAscending : (xs : List A) → IsAscending (dedup (sort xs))
  unfolding dedup
  dedup-sort-IsAscending xs = go (sort xs) (sort-IsSorted xs)
    where
      go : (ys : List A) → IsSorted ys → IsAscending (dedup ys)
      go [] s = tt
      go (y ∷ ys) s = dedup_from-IsAscending y ys s.0 s.1

  contains-Above :
      (x : A) (xs : List A) (a : A)
      → All (λ y. o.cmp x y ≡ lt) xs
      → contains xs a ≡ true
      → o.cmp x a ≡ lt
  contains-Above x [] a h c = ground arith
  contains-Above x (y ∷ ys) a h c = ground (arith, o.cmp_eq y a, contains-Above x ys a)

  head_le :
      (x y : A) (ys : List A)
      → All (λ z. o.cmp y z ≡ lt) ys
      → contains (y ∷ ys) x ≡ true
      → (y ≡ x) ⊎ (o.cmp y x ≡ lt)
  head_le x y ys h c = ground (arith, o.cmp_eq y x, contains-Above y ys x h)

  pub not_below_self : (x : A) → o.cmp x x ≡ lt → ⊥
  not_below_self x h = ground (arith, o.cmp_eq x x)

  pub contains_head : (x : A) (xs : List A) → contains (x ∷ xs) x ≡ true
  contains_head x xs = rw (o.cmp_eq x x).1 refl

  heads_eq :
      (x y : A) (xs ys : List A)
      → IsAscending (x ∷ xs)
      → IsAscending (y ∷ ys)
      → ((a : A) → contains (x ∷ xs) a ≡ contains (y ∷ ys) a)
      → x ≡ y
  heads_eq x y xs ys p q same = elim (head_le x y ys q.0 (sym (same x) ∙ contains_head x xs)) [
    | inl e ↦ sym e
    | inr l ↦ elim (head_le y x xs p.0 (same y ∙ contains_head y ys)) [
      | inl e ↦ e
      | inr g ↦ absurd (not_below_self x (o.cmp_trans x y x g l))
    ]
  ]

  tails_same :
      (x : A) (xs ys : List A) (a : A)
      → All (λ z. o.cmp x z ≡ lt) xs
      → All (λ z. o.cmp x z ≡ lt) ys
      → contains (x ∷ xs) a ≡ contains (x ∷ ys) a
      → contains xs a ≡ contains ys a
  tails_same x xs ys a p q e =
      ground (arith, contains-Above x xs a p, contains-Above x ys a q, o.cmp_eq x a)

  -- A canonical form is determined by its elements.
  pub ascending_unique :
      (xs ys : List A)
      → IsAscending xs
      → IsAscending ys
      → ((a : A) → contains xs a ≡ contains ys a)
      → xs ≡ ys
  ascending_unique [] [] p q same = refl
  ascending_unique [] (y ∷ ys) p q same = cc (same y, contains_head y ys)
  ascending_unique (x ∷ xs) [] p q same = cc (same x, contains_head x xs)
  ascending_unique (x ∷ xs) (y ∷ ys) p q same =
      let e = heads_eq x y xs ys p q same in
      ap₂ ◌∷◌ e (
        ascending_unique xs ys p.1 q.1
          λ a. tails_same x xs ys a p.0 (rw e q.0) (same a ∙ ap (λ t. contains (t ∷ ys) a) (sym e)))
