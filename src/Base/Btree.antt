-- ===== src/Base/Btree.antt =====
-- `BTreeMap` where the program reads the entries in the order of their keys, and the order of pairs.
use mathlib.Core.Path.{◌≡◌, refl}
use mathlib.Core.List.{List, [], ◌∷◌}
use mathlib.Core.Logic.{◌↔◌, inl, inr}
use mathlib.Core.Option.{Option, none, some}
use Prim.Native.Nat.{Ordering}
use Prim.Native.Nat.Ordering.{lt, eq, gt}
use native.Mathlib.Omega.{arith}
use mumble_server_runtime.Base.Tests.{Eq, if◌then◌else◌}
use mumble_server_runtime.Base.Lists.{All}
use mumble_server_runtime.Base.Order.{
  Order, IsAscending, set_insert, Ordering-cases, not_below_self, then_with,
}
use mumble_server_runtime.Base.Assoc.{Assoc, get, keys, IsDistinct}

module _ {ℓ} {A : Type ℓ} ⦃o : Order A⦄ where
  All-set_insert {κ} :
      (P : A → Type κ) (x : A) (xs : List A) → P x → All P xs → All P (set_insert x xs)
  unfolding set_insert
  All-set_insert P x [] p h = (p, tt)
  All-set_insert P x (y ∷ ys) p h = ground (arith, All-set_insert P x ys p)

  All-above :
      (x y : A) (ys : List A)
      → o.cmp x y ≡ lt
      → All (λ z. o.cmp y z ≡ lt) ys
      → All (λ z. o.cmp x z ≡ lt) ys
  All-above x y [] h a = tt
  All-above x y (z ∷ zs) h a = (o.cmp_trans x y z h a.0, All-above x y zs h a.1)

  pub set_insert-IsAscending :
      (x : A) (xs : List A) → IsAscending xs → IsAscending (set_insert x xs)
  unfolding set_insert
  set_insert-IsAscending x [] s = (tt, tt)
  set_insert-IsAscending x (y ∷ ys) s = elim (Ordering-cases (o.cmp x y)) [
    | inl l ↦ rw (l, set_insert) ((l, All-above x y ys l s.0), s)
    | inr (inl e) ↦ rw (e, set_insert) s
    | inr (inr g) ↦
        rw (g, set_insert)
          (
            All-set_insert (λ z. o.cmp y z ≡ lt) x ys ((o.cmp_gt x y).0 g) s.0,
            set_insert-IsAscending x ys s.1,
          )
  ]

-- What is done to an entry that may be absent.
abbrev pub changed {κ} : {V : Type κ} → (V → V) → Option V → Option V
changed f none = none
changed f (some v) = some (f v)

module _ {ℓ κ} {K : Type ℓ} {V : Type κ} ⦃o : Order K⦄ where
  -- `map.insert(key, value)` where the entries stand in the order of their keys
  unfoldable pub btree_insert : Assoc K V → K → V → Assoc K V
  btree_insert [] k v = (k, v) ∷ []
  btree_insert ((j, w) ∷ m) k v = elim (o.cmp k j) [
    | gt ↦ (j, w) ∷ btree_insert m k v
    | eq ↦ (j, v) ∷ m
    | lt ↦ (k, v) ∷ (j, w) ∷ m
  ]

  abbrev pub IsOrdered : Assoc K V → Type 0
  IsOrdered m = IsAscending (keys m)

  keys-btree_insert :
      (m : Assoc K V) (k : K) (v : V) → keys (btree_insert m k v) ≡ set_insert k (keys m)
  unfolding btree_insert set_insert
  keys-btree_insert [] k v = refl
  keys-btree_insert ((j, w) ∷ m) k v = ground (arith, keys-btree_insert m k v)

  pub btree_insert-IsOrdered :
      (m : Assoc K V) (k : K) (v : V) → IsOrdered m → IsOrdered (btree_insert m k v)
  btree_insert-IsOrdered m k v h =
      rw (keys-btree_insert m k v) (set_insert-IsAscending k (keys m) h)

module _ {ℓ κ} {K : Type ℓ} {V : Type κ} ⦃e : Eq K⦄ ⦃o : Order K⦄ where
  pub get-btree_insert :
      (m : Assoc K V) (k j : K) (v : V)
      → get (btree_insert m k v) j ≡ (if e.beq k j then some v else get m j)
  unfolding get btree_insert
  get-btree_insert [] k j v = refl
  get-btree_insert ((i, w) ∷ m) k j v =
      ground
        (arith, e.beq_iff i j, e.beq_iff k j, e.beq_iff i k, o.cmp_eq k i, get-btree_insert m k j v)

  get_above : (m : Assoc K V) (k : K) → All (λ z. o.cmp k z ≡ lt) (keys m) → get m k ≡ none
  unfolding get
  get_above [] k h = refl
  get_above ((j, w) ∷ m) k h = ground (arith, e.beq_iff j k, not_below_self k, get_above m k)

  -- Entries in the order of their keys hold each key once.
  pub IsOrdered-IsDistinct : (m : Assoc K V) → IsOrdered m → IsDistinct m
  IsOrdered-IsDistinct [] h = tt
  IsOrdered-IsDistinct ((k, v) ∷ m) h = (get_above m k h.0, IsOrdered-IsDistinct m h.1)

  -- `if let Some(entry) = map.get_mut(&key)`, with what is done to the entry
  unfoldable pub update : Assoc K V → K → (V → V) → Assoc K V
  update [] k f = []
  update ((j, w) ∷ m) k f = if e.beq j k then (j, f w) ∷ m else (j, w) ∷ update m k f

  pub get-update :
      (m : Assoc K V) (k j : K) (f : V → V)
      → get (update m k f) j ≡ (if e.beq k j then changed f (get m j) else get m j)
  unfolding get update
  get-update [] k j f = ground arith
  get-update ((i, w) ∷ m) k j f =
      ground (arith, e.beq_iff i j, e.beq_iff k j, e.beq_iff i k, get-update m k j f)

  keys-update : (m : Assoc K V) (k : K) (f : V → V) → keys (update m k f) ≡ keys m
  unfolding update
  keys-update [] k f = refl
  keys-update ((j, w) ∷ m) k f = ground (arith, keys-update m k f)

  pub update-IsOrdered :
      (m : Assoc K V) (k : K) (f : V → V) → IsOrdered m → IsOrdered (update m k f)
  update-IsOrdered m k f h = rw (keys-update m k f) h

-- The derived order of a pair: the first component first.
module _ {ℓ κ} {A : Type ℓ} {B : Type κ} ⦃o : Order A⦄ ⦃p : Order B⦄ where
  abbrev pub pair_cmp : A × B → A × B → Ordering
  pair_cmp s t = then_with (o.cmp s.0 t.0) (p.cmp s.1 t.1)

  pub pair_cmp-eq : (s t : A × B) → (pair_cmp s t ≡ eq) ↔ (s ≡ t)
  pair_cmp-eq s t = ground (arith, o.cmp_eq s.0 t.0, p.cmp_eq s.1 t.1)

  pub pair_cmp-gt : (s t : A × B) → (pair_cmp s t ≡ gt) ↔ (pair_cmp t s ≡ lt)
  pair_cmp-gt s t = ground (
    arith,
    o.cmp_eq s.0 t.0,
    o.cmp_eq t.0 s.0,
    o.cmp_gt s.0 t.0,
    o.cmp_gt t.0 s.0,
    p.cmp_gt s.1 t.1,
  )

  pub pair_cmp_trans : (s t u : A × B) → pair_cmp s t ≡ lt → pair_cmp t u ≡ lt → pair_cmp s u ≡ lt
  pair_cmp_trans s t u = ground (
    arith,
    o.cmp_eq s.0 t.0,
    o.cmp_eq t.0 u.0,
    o.cmp_eq s.0 u.0,
    o.cmp_trans s.0 t.0 u.0,
    p.cmp_trans s.1 t.1 u.1,
  )

  instance abbrev pub pair_order : Order (A × B)
  pair_order = record {
    cmp = pair_cmp;
    cmp_eq = pair_cmp-eq;
    cmp_gt = pair_cmp-gt;
    cmp_trans = pair_cmp_trans;
  }
