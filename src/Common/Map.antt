-- ===== src/Common/Map.antt =====
-- Hash maps as association lists. The program never relies on the order of the entries.
use north.Common.{List, [], ◌∷◌}
use north.Common.{
  ℕ, suc, ◌+◌, ◌≤◌, ◌≡◌, refl, ◌↔◌, inl, inr, Bool, true, false, Option, none, some, String, str_eq,
  eq_iff, arith, if◌then◌else◌, Bool-cases,
}

-- The derived `Eq` of a key type.
pub record Eq {ℓ} (A : Type ℓ) : Type ℓ where
  pub beq : A → A → Bool
  pub beq_iff : (a b : A) → (beq a b ≡ true) ↔ (a ≡ b)

instance abbrev pub string_eq : Eq String
string_eq = record { beq = str_eq; beq_iff = eq_iff }

abbrev pub Map : Type 0 → Type 0 → Type 0
Map K V = List (K × V)

abbrev pub is_some {ℓ} : {A : Type ℓ} → Option A → Bool
is_some none = false
is_some (some _) = true

abbrev pub bind_option {ℓ} : {A : Type ℓ} → Option A → (A → Option A) → Option A
bind_option none f = none
bind_option (some v) f = f v

module _ {K V : Type 0} ⦃e : Eq K⦄ where
  unfoldable pub lookup : K → Map K V → Option V
  lookup k [] = none
  lookup k ((j, v) ∷ m) = if e.beq j k then some v else lookup k m

  unfoldable pub remove : K → Map K V → Map K V
  remove k [] = []
  remove k ((j, v) ∷ m) = let rest = remove k m in if e.beq j k then rest else (j, v) ∷ rest

  unfoldable pub insert : K → V → Map K V → Map K V
  insert k v m = (k, v) ∷ remove k m

  -- `contains_key`
  unfoldable pub contains_key : K → Map K V → Bool
  contains_key k m = is_some (lookup k m)

  -- `values().any`
  unfoldable pub any_value : (V → Bool) → Map K V → Bool
  any_value p [] = false
  any_value p ((j, v) ∷ m) = if p v then true else any_value p m

  -- `retain`, where the closure may change the value that it keeps.
  unfoldable pub retain : (V → Option V) → Map K V → Map K V
  retain f [] = []
  retain f ((j, v) ∷ m) =
      let rest = retain f m in elim (f v) [ none ↦ rest | some w ↦ (j, w) ∷ rest ]

  -- `keys().filter(p).count()`
  unfoldable pub count_keys : (K → Bool) → Map K V → ℕ
  count_keys p [] = 0
  count_keys p ((j, v) ∷ m) = (if p j then 1 else 0) + count_keys p m

  -- Every key stands in a map at most once.
  abbrev pub IsUnique : Map K V → Type 0
  IsUnique [] = Unit
  IsUnique ((j, v) ∷ m) = (lookup j m ≡ none) × IsUnique m

  pub lookup-remove :
      (j k : K) (m : Map K V) → lookup j (remove k m) ≡ (if e.beq k j then none else lookup j m)
  unfolding lookup remove
  lookup-remove j k [] = ground arith
  lookup-remove j k ((i, v) ∷ m) =
      ground (arith, e.beq_iff i j, e.beq_iff i k, e.beq_iff k j, lookup-remove j k m)

  pub lookup-insert :
      (j k : K) (v : V) (m : Map K V)
      → lookup j (insert k v m) ≡ (if e.beq k j then some v else lookup j m)
  unfolding lookup insert
  lookup-insert j k v m = ground (arith, lookup-remove j k m)

  pub remove-IsUnique : (k : K) (m : Map K V) → IsUnique m → IsUnique (remove k m)
  unfolding remove
  remove-IsUnique k [] u = tt
  remove-IsUnique k ((i, v) ∷ m) u = elim (Bool-cases (e.beq i k)) [
    | inl same ↦ rw same (remove-IsUnique k m u.1)
    | inr other ↦
        rw other (ground (arith, lookup-remove i k m, e.beq_iff i k), remove-IsUnique k m u.1)
  ]

  pub insert-IsUnique : (k : K) (v : V) (m : Map K V) → IsUnique m → IsUnique (insert k v m)
  unfolding insert
  insert-IsUnique k v m u =
      (ground (arith, lookup-remove k k m, e.beq_iff k k), remove-IsUnique k m u)

  lookup-retain-none :
      (k : K) (f : V → Option V) (m : Map K V) → lookup k m ≡ none → lookup k (retain f m) ≡ none
  unfolding lookup retain
  lookup-retain-none k f [] h = refl
  lookup-retain-none k f ((i, v) ∷ m) h = ground (arith, lookup-retain-none k f m)

  pub lookup-retain :
      (k : K) (f : V → Option V) (m : Map K V)
      → IsUnique m
      → lookup k (retain f m) ≡ bind_option (lookup k m) f
  unfolding lookup retain
  lookup-retain k f [] u = refl
  lookup-retain k f ((i, v) ∷ m) u =
      ground (arith, e.beq_iff i k, lookup-retain k f m u.1, lookup-retain-none k f m)

  pub retain-IsUnique : (f : V → Option V) (m : Map K V) → IsUnique m → IsUnique (retain f m)
  unfolding retain
  retain-IsUnique f [] u = tt
  retain-IsUnique f ((i, v) ∷ m) u =
      ground (arith, lookup-retain-none i f m u.0, retain-IsUnique f m u.1)

  pub count_keys-remove :
      (p : K → Bool) (k : K) (m : Map K V) → count_keys p (remove k m) ≤ count_keys p m
  unfolding count_keys remove
  count_keys-remove p k [] = omega arith
  count_keys-remove p k ((i, v) ∷ m) = ground (arith, count_keys-remove p k m)

  pub count_keys-retain :
      (p : K → Bool) (f : V → Option V) (m : Map K V) → count_keys p (retain f m) ≤ count_keys p m
  unfolding count_keys retain
  count_keys-retain p f [] = omega arith
  count_keys-retain p f ((i, v) ∷ m) = ground (arith, count_keys-retain p f m)

  -- Removing a key that is there takes its entry out of the count.
  pub count_keys-remove_lt :
      (p : K → Bool) (k : K) (m : Map K V) (v : V)
      → lookup k m ≡ some v
      → p k ≡ true
      → suc (count_keys p (remove k m)) ≤ count_keys p m
  unfolding lookup count_keys remove
  count_keys-remove_lt p k [] v h q = cc
  count_keys-remove_lt p k ((i, w) ∷ m) v h q =
      ground (arith, e.beq_iff i k, count_keys-remove p k m, count_keys-remove_lt p k m v)

  any_value-lookup :
      (p : V → Bool) (k : K) (m : Map K V) (v : V)
      → lookup k m ≡ some v
      → p v ≡ true
      → any_value p m ≡ true
  unfolding lookup any_value
  any_value-lookup p k [] v h q = cc
  any_value-lookup p k ((i, w) ∷ m) v h q = ground (arith, any_value-lookup p k m v)

  -- An entry that `retain` drops is taken out of the count.
  pub count_keys-retain_lt :
      (p : K → Bool) (f : V → Option V) (k : K) (m : Map K V) (v : V)
      → lookup k m ≡ some v
      → f v ≡ none
      → p k ≡ true
      → suc (count_keys p (retain f m)) ≤ count_keys p m
  unfolding lookup count_keys retain
  count_keys-retain_lt p f k [] v h d q = cc
  count_keys-retain_lt p f k ((i, w) ∷ m) v h d q =
      ground (arith, e.beq_iff i k, count_keys-retain p f m, count_keys-retain_lt p f k m v)
