-- ===== src/Base/Assoc.antt =====
-- The standard library's maps as association lists: `HashMap` and `BTreeMap` where the program
-- does not read the order of the entries.
use mathlib.Core.Path.{◌≡◌, refl}
use mathlib.Core.Bool.{Bool}
use mathlib.Core.List.{List, [], ◌∷◌}
use mathlib.Core.Option.{Option, none, some}
use Prim.Native.Nat.{◌+◌, ◌≤◌}
use native.Mathlib.Omega.{arith}
use mumble_server_runtime.Base.Tests.{Eq, if◌then◌else◌}
use mumble_server_runtime.Base.Lists.{length}

abbrev pub Assoc {ℓ κ} : Type ℓ → Type κ → Type (ℓ ⊔ κ)
Assoc K V = List (K × V)

module _ {ℓ κ} {K : Type ℓ} {V : Type κ} where
  abbrev pub values : Assoc K V → List V
  values [] = []
  values ((k, v) ∷ m) = v ∷ values m

  abbrev pub keys : Assoc K V → List K
  keys [] = []
  keys ((k, v) ∷ m) = k ∷ keys m

module _ {ℓ κ} {K : Type ℓ} {V : Type κ} ⦃e : Eq K⦄ where
  -- `map.get(&key)`
  unfoldable pub get : Assoc K V → K → Option V
  get [] k = none
  get ((j, v) ∷ m) k = if e.beq j k then some v else get m k

  -- `map.insert(key, value)`: a present key keeps its place.
  unfoldable pub insert : Assoc K V → K → V → Assoc K V
  insert [] k v = (k, v) ∷ []
  insert ((j, w) ∷ m) k v = if e.beq j k then (j, v) ∷ m else (j, w) ∷ insert m k v

  -- `map.remove(&key)`
  unfoldable pub remove : Assoc K V → K → Assoc K V
  remove [] k = []
  remove ((j, w) ∷ m) k = let rest = remove m k in if e.beq j k then rest else (j, w) ∷ rest

  -- `map.retain(|key, value| keep(key, value))`
  unfoldable pub retain : (K → V → Bool) → Assoc K V → Assoc K V
  retain keep [] = []
  retain keep ((j, w) ∷ m) = let rest = retain keep m in if keep j w then (j, w) ∷ rest else rest

  pub get-insert :
      (m : Assoc K V) (k j : K) (v : V)
      → get (insert m k v) j ≡ (if e.beq k j then some v else get m j)
  unfolding get insert
  get-insert [] k j v = refl
  get-insert ((i, w) ∷ m) k j v =
      ground (arith, e.beq_iff i k, e.beq_iff i j, e.beq_iff k j, get-insert m k j v)

  pub get-remove :
      (m : Assoc K V) (k j : K) → get (remove m k) j ≡ (if e.beq k j then none else get m j)
  unfolding get remove
  get-remove [] k j = ground arith
  get-remove ((i, w) ∷ m) k j =
      ground (arith, e.beq_iff i k, e.beq_iff i j, e.beq_iff k j, get-remove m k j)

  -- No key stands twice.
  abbrev pub IsDistinct : Assoc K V → Type κ
  IsDistinct [] = Unit
  IsDistinct ((k, v) ∷ m) = (get m k ≡ none) × IsDistinct m

  pub insert-IsDistinct : (m : Assoc K V) (k : K) (v : V) → IsDistinct m → IsDistinct (insert m k v)
  unfolding get insert
  insert-IsDistinct [] k v d = (refl, tt)
  insert-IsDistinct ((j, w) ∷ m) k v d =
      ground (arith, get-insert m k j v, e.beq_iff j k, e.beq_iff k j, insert-IsDistinct m k v)

  pub remove-IsDistinct : (m : Assoc K V) (k : K) → IsDistinct m → IsDistinct (remove m k)
  unfolding get remove
  remove-IsDistinct [] k d = tt
  remove-IsDistinct ((j, w) ∷ m) k d =
      ground (arith, get-remove m k j, e.beq_iff k j, remove-IsDistinct m k)

  pub get-retain :
      (keep : K → V → Bool) (m : Assoc K V) (k : K)
      → IsDistinct m
      → get (retain keep m) k
        ≡ elim (get m k) [ none ↦ none | some v ↦ if keep k v then some v else none ]
  unfolding get retain
  get-retain keep [] k d = refl
  get-retain keep ((j, w) ∷ m) k d = ground (arith, get-retain keep m k, e.beq_iff j k)

  pub retain-IsDistinct :
      (keep : K → V → Bool) (m : Assoc K V) → IsDistinct m → IsDistinct (retain keep m)
  unfolding get retain
  retain-IsDistinct keep [] d = tt
  retain-IsDistinct keep ((j, w) ∷ m) d =
      ground (arith, get-retain keep m j, retain-IsDistinct keep m)

  pub length-insert :
      (m : Assoc K V) (k : K) (v : V)
      → length (insert m k v) ≡ elim (get m k) [ none ↦ length m + 1 | some _ ↦ length m ]
  unfolding get insert
  length-insert [] k v = refl
  length-insert ((j, w) ∷ m) k v = ground (arith, length-insert m k v)

  pub length-remove : (m : Assoc K V) (k : K) → length (remove m k) ≤ length m
  unfolding remove
  length-remove [] k = omega arith
  length-remove ((j, w) ∷ m) k = ground (arith, length-remove m k)
