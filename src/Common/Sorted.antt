-- ===== src/Common/Sorted.antt =====
-- Vectors of numbers that are sorted and deduplicated, and sorting by a key.
use north.Common.{
  ℕ, ◌<◌, ◌≤◌, ◌≡◌, refl, inl, inr, Bool, ◌||◌, List, [], ◌∷◌, ◌++◌, All, arith, leb, ◌==◌,
  if◌then◌else◌, any, Bool-cases, leb→le,
}

-- `sort_by_key`, which is stable: an equal key stays behind the ones in front.
unfoldable pub insert_by {ℓ} : {A : Type ℓ} → (A → ℕ) → A → List A → List A
insert_by key x [] = x ∷ []
insert_by key x (y ∷ ys) =
    let rest = insert_by key x ys in if leb (key x) (key y) then x ∷ y ∷ ys else y ∷ rest

unfoldable pub sort_by_key {ℓ} : {A : Type ℓ} → (A → ℕ) → List A → List A
unfolding insert_by
sort_by_key key [] = []
sort_by_key key (x ∷ xs) = insert_by key x (sort_by_key key xs)

-- `sort_unstable` on numbers
abbrev pub sort_unstable : List ℕ → List ℕ
sort_unstable = sort_by_key (λ n. n)

-- `dedup`: of equal neighbours, one stays.
abbrev pub push_new : ℕ → List ℕ → List ℕ
push_new x [] = x ∷ []
push_new x (y ∷ ys) = if x == y then y ∷ ys else x ∷ y ∷ ys

unfoldable pub dedup : List ℕ → List ℕ
dedup [] = []
dedup (x ∷ xs) = push_new x (dedup xs)

-- `contains`
unfoldable pub contains_number : ℕ → List ℕ → Bool
contains_number x xs = any (λ y. y == x) xs

-- Each number is at most all that follow it.
abbrev pub IsSorted {ℓ} : {A : Type ℓ} → (A → ℕ) → List A → Type 0
IsSorted key [] = Unit
IsSorted key (x ∷ xs) = All (λ y. key x ≤ key y) xs × IsSorted key xs

module _ {ℓ} {A : Type ℓ} (key : A → ℕ) where
  All-insert_by :
      (P : A → Type 0) (x : A) (xs : List A) → P x → All P xs → All P (insert_by key x xs)
  unfolding insert_by
  All-insert_by P x [] h a = (h, tt)
  All-insert_by P x (y ∷ ys) h a = elim (Bool-cases (leb (key x) (key y))) [
    | inl below ↦ rw below (h, a)
    | inr above ↦ rw above (a.0, All-insert_by P x ys h a.1)
  ]

  All-above :
      (x y : A) (ys : List A)
      → key x ≤ key y
      → All (λ z. key y ≤ key z) ys
      → All (λ z. key x ≤ key z) ys
  All-above x y [] h a = tt
  All-above x y (z ∷ zs) h a = (omega arith, All-above x y zs h a.1)

  insert_by-IsSorted : (x : A) (xs : List A) → IsSorted key xs → IsSorted key (insert_by key x xs)
  unfolding insert_by
  insert_by-IsSorted x [] s = (tt, tt)
  insert_by-IsSorted x (y ∷ ys) s = elim (Bool-cases (leb (key x) (key y))) [
    | inl below ↦
        let le = leb→le (key x) (key y) below in rw below ((le, All-above x y ys le s.0), s)
    | inr above ↦
        rw above
          (All-insert_by (λ z. key y ≤ key z) x ys (ground arith) s.0, insert_by-IsSorted x ys s.1)
  ]

  pub sort_by_key-IsSorted : (xs : List A) → IsSorted key (sort_by_key key xs)
  unfolding sort_by_key
  sort_by_key-IsSorted [] = tt
  sort_by_key-IsSorted (x ∷ xs) =
      insert_by-IsSorted x (sort_by_key key xs) (sort_by_key-IsSorted xs)

  pub All-sort_by_key : (P : A → Type 0) (xs : List A) → All P xs → All P (sort_by_key key xs)
  unfolding sort_by_key
  All-sort_by_key P [] a = a
  All-sort_by_key P (x ∷ xs) a =
      All-insert_by P x (sort_by_key key xs) a.0 (All-sort_by_key P xs a.1)

  any-insert_by :
      (p : A → Bool) (x : A) (xs : List A) → any p (insert_by key x xs) ≡ (p x || any p xs)
  unfolding insert_by
  any-insert_by p x [] = refl
  any-insert_by p x (y ∷ ys) = ground (arith, any-insert_by p x ys)

  -- Sorting keeps the members.
  pub any-sort_by_key : (p : A → Bool) (xs : List A) → any p (sort_by_key key xs) ≡ any p xs
  unfolding sort_by_key
  any-sort_by_key p [] = refl
  any-sort_by_key p (x ∷ xs) =
      ground (arith, any-insert_by p x (sort_by_key key xs), any-sort_by_key p xs)

-- Each number is below all that follow it.
abbrev pub IsAscending : List ℕ → Type 0
IsAscending [] = Unit
IsAscending (x ∷ xs) = All (λ y. x < y) xs × IsAscending xs

All-push_new : (P : ℕ → Type 0) (x : ℕ) (ys : List ℕ) → P x → All P ys → All P (push_new x ys)
All-push_new P x [] h a = (h, tt)
All-push_new P x (y ∷ ys) h a = elim (Bool-cases (x == y)) [
  | inl same ↦ rw same a
  | inr other ↦ rw other (h, a)
]

pub All-below : (x y : ℕ) (ys : List ℕ) → x ≤ y → All (λ z. y < z) ys → All (λ z. x < z) ys
All-below x y [] h a = tt
All-below x y (z ∷ zs) h a = (omega arith, All-below x y zs h a.1)

pub All-dedup : (P : ℕ → Type 0) (xs : List ℕ) → All P xs → All P (dedup xs)
unfolding dedup
All-dedup P [] a = tt
All-dedup P (x ∷ xs) a = All-push_new P x (dedup xs) a.0 (All-dedup P xs a.1)

push_new-IsAscending :
    (x : ℕ) (ys : List ℕ) → All (λ y. x ≤ y) ys → IsAscending ys → IsAscending (push_new x ys)
push_new-IsAscending x [] a s = (tt, tt)
push_new-IsAscending x (y ∷ ys) a s = elim (Bool-cases (x == y)) [
  | inl same ↦ rw same s
  | inr other ↦
      let lt : x < y = ground arith in rw other ((lt, All-below x y ys (omega arith) s.0), s)
]

pub dedup-IsAscending : (xs : List ℕ) → IsSorted (λ n. n) xs → IsAscending (dedup xs)
unfolding dedup
dedup-IsAscending [] s = tt
dedup-IsAscending (x ∷ xs) s =
    push_new-IsAscending x (dedup xs) (All-dedup (λ y. x ≤ y) xs s.0) (dedup-IsAscending xs s.1)

contains-push_new :
    (n x : ℕ) (ys : List ℕ) → contains_number n (push_new x ys) ≡ (x == n || contains_number n ys)
unfolding contains_number
contains-push_new n x [] = refl
contains-push_new n x (y ∷ ys) = ground arith

contains-dedup : (n : ℕ) (xs : List ℕ) → contains_number n (dedup xs) ≡ contains_number n xs
unfolding dedup contains_number
contains-dedup n [] = refl
contains-dedup n (x ∷ xs) = ground (arith, contains-push_new n x (dedup xs), contains-dedup n xs)

contains-append :
    (n : ℕ) (xs ys : List ℕ)
    → contains_number n (xs ++ ys) ≡ (contains_number n xs || contains_number n ys)
unfolding contains_number
contains-append n [] ys = refl
contains-append n (x ∷ xs) ys = ground (arith, contains-append n xs ys)
