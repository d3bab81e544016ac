-- ===== src/Shard/Ids/Invariant.antt =====
-- The invariant of one of the allocator's tables, and what allocating and retiring do to it.
use mumble_server_runtime.Base.{ℕ, ◌≤◌, ◌<◌, ◌≡◌, Bool, true, Option, none, some, [], arith, Eq}
use mumble_server_runtime.Base.Assoc.{
  Assoc, get, insert, retain, IsDistinct, get-insert, insert-IsDistinct, get-retain,
  retain-IsDistinct,
}
use mumble_server_runtime.Shard.Ids.{u32_limit, checked_suc}

-- The number has been handed out: the cursor has moved past it.
abbrev pub Spent : Option ℕ → ℕ → Type 0
Spent none id = (1 ≤ id) × (id < u32_limit)
Spent (some n) id = (1 ≤ id) × (id < n)

abbrev pub InRange : Option ℕ → Type 0
InRange none = Unit
InRange (some n) = (1 ≤ n) × (n < u32_limit)

pub Spent-checked_suc : (n id : ℕ) → n < u32_limit → Spent (some n) id → Spent (checked_suc n) id
Spent-checked_suc n id h s = ground arith

pub Spent_cursor : (n : ℕ) → InRange (some n) → Spent (checked_suc n) n
Spent_cursor n h = ground arith

pub checked_suc-InRange : (n : ℕ) → InRange (checked_suc n)
checked_suc-InRange n = ground arith

Spent_absurd : (n : ℕ) → Spent (some n) n → ⊥
Spent_absurd n h = omega arith

module _ {ℓ} {K : Type ℓ} ⦃e : Eq K⦄ where
  pub record IsTable (m : Assoc K ℕ) (next : Option ℕ) : Type ℓ where
    pub distinct : IsDistinct m
    pub in_range : InRange next
    pub spent : (k : K) (id : ℕ) → get m k ≡ some id → Spent next id
    pub injective : (k j : K) (id : ℕ) → get m k ≡ some id → get m j ≡ some id → k ≡ j

  -- The cursor's number is on no key.
  pub cursor_free : (m : Assoc K ℕ) (n : ℕ) (k : K) → IsTable m (some n) → get m k ≡ some n → ⊥
  cursor_free m n k t h = Spent_absurd n (t.spent k n h)

  pub allocate-IsTable :
      (m : Assoc K ℕ) (n : ℕ) (k : K)
      → get m k ≡ none
      → IsTable m (some n)
      → IsTable (insert m k n) (checked_suc n)
  allocate-IsTable m n k absent t = record {
    distinct = insert-IsDistinct m k n t.distinct;
    in_range = checked_suc-InRange n;
    spent = λ j id h. ground (
      arith,
      get-insert m k j n,
      t.spent j id,
      Spent-checked_suc n id,
      Spent_cursor n t.in_range,
    );
    injective = λ i j id h g. ground (
      arith,
      get-insert m k i n,
      get-insert m k j n,
      e.beq_iff k i,
      e.beq_iff k j,
      cursor_free m n i t,
      cursor_free m n j t,
      t.injective i j id,
    );
  }

  pub retain-get :
      (keep : K → ℕ → Bool) (m : Assoc K ℕ) (k : K) (id : ℕ)
      → IsDistinct m
      → get (retain keep m) k ≡ some id
      → (get m k ≡ some id) × (keep k id ≡ true)
  retain-get keep m k id d h = ground (arith, get-retain keep m k d)

  pub retain-IsTable :
      (keep : K → ℕ → Bool) (m : Assoc K ℕ) (next : Option ℕ)
      → IsTable m next
      → IsTable (retain keep m) next
  retain-IsTable keep m next t = record {
    distinct = retain-IsDistinct keep m t.distinct;
    in_range = t.in_range;
    spent = λ k id h. t.spent k id (retain-get keep m k id t.distinct h).0;
    injective = λ k j id h g.
        t.injective k j id (retain-get keep m k id t.distinct h).0
          (retain-get keep m j id t.distinct g).0;
  }

  pub nil-IsTable : IsTable [] (some 1)
  unfolding get
  nil-IsTable = record {
    distinct = tt;
    in_range = (omega arith, omega arith);
    spent = λ k id h. cc;
    injective = λ k j id h g. cc;
  }
