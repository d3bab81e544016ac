-- ===== src/Shard/Build/Checks/Passed.antt =====
-- What it means that one of the loops of the closing checks passes.
use mumble_server_runtime.Base.{
  ℕ, ◌<◌, ◌≡◌, refl, ap, Bool, true, false, inl, inr, Option, some, List, [], ◌∷◌, arith, length,
  filter, ltb, ok, err, ◌==◌, nat_eq, Bool-cases, Result,
}
use mumble_server_runtime.Base.Fallible.{◌>>◌}
use mumble_server_runtime.Base.Assoc.{Assoc, get, IsDistinct}
use mumble_server_runtime.Base.Order.{nat_order, contains, contains_head}
use mumble_server_runtime.Shard.Scope.{Scope, scope_eq, scope_order, scope_beq_iff}
use mumble_server_runtime.Shard.ScopeSet.{ScopeSet, sees}
use mumble_server_runtime.Shard.Build.{BuildError}
use mumble_server_runtime.Shard.Build.Checks.{
  Check, others_at, check_scopes, check_hidden, sees_privately,
}

pub then-ok {ℓ} :
    {A : Type ℓ} (c : Check) (d : Result BuildError A) (a : A)
    → (c >> d) ≡ ok a
    → (c ≡ ok tt) × (d ≡ ok a)
then-ok (ok tt) d a h = (refl, h)
then-ok (err e) d a h = cc

pub ok-then {ℓ} :
    {A : Type ℓ} (c : Check) (d : Result BuildError A) (a : A)
    → c ≡ ok tt
    → d ≡ ok a
    → (c >> d) ≡ ok a
ok-then c d a e h = rw e h

module _ (senders : List ℕ) (shared_scope : Assoc ℕ Scope) (receiver : ℕ) (see : ScopeSet)
    (own : Option Scope) where
  -- Every scope that others occupy is seen.
  abbrev pub ScopesSeen : Assoc Scope ℕ → Type 0
  ScopesSeen m =
      (scope : Scope) (count : ℕ)
      → get m scope ≡ some count
      → ltb 0 (others_at own scope count) ≡ true
      → sees see scope ≡ true

  pub check_scopes-ok :
      (m : Assoc Scope ℕ)
      → check_scopes senders shared_scope receiver see own m ≡ ok tt
      → ScopesSeen m
  unfolding check_scopes get
  check_scopes-ok [] h scope count g o = cc
  check_scopes-ok ((first, n) ∷ m) h scope count g o = elim (Bool-cases (first == scope)) [
    | inl same ↦
        let e : first ≡ scope = (scope_beq_iff first scope).0 same in
        let g' = rw same at g in ground (arith, ap (sees see) e, ap (λ s. others_at own s n) e)
    | inr apart ↦ let g' = rw apart at g in check_scopes-ok m (ground arith) scope count g' o
  ]

  pub check_scopes_complete :
      (m : Assoc Scope ℕ)
      → IsDistinct m
      → ScopesSeen m
      → check_scopes senders shared_scope receiver see own m ≡ ok tt
  unfolding check_scopes get
  check_scopes_complete [] d h = refl
  check_scopes_complete ((first, n) ∷ m) d h =
      let here = h first n (ground (arith, scope_beq_iff first first)) in
      let rest =
        check_scopes_complete m d.1
          (λ scope count g o. h scope count (ground (arith, scope_beq_iff first scope, d.0)) o) in
      ground (arith, here, rest)

module _ (privately : Assoc ℕ (List ℕ)) (receiver : ℕ) where
  abbrev pub HiddenSeen : List ℕ → Type 0
  HiddenSeen hidden =
      (sender : ℕ)
      → contains hidden sender ≡ true
      → (sender == receiver) ≡ false
      → sees_privately privately receiver sender ≡ true

  pub check_hidden-ok :
      (hidden : List ℕ) → check_hidden privately receiver hidden ≡ ok tt → HiddenSeen hidden
  unfolding check_hidden
  check_hidden-ok [] h sender c n = cc
  check_hidden-ok (first ∷ hidden) h sender c n =
      let same : first ≡ sender
          → sees_privately privately receiver first ≡ sees_privately privately receiver sender =
        ap (sees_privately privately receiver) in
      ground (arith, same, check_hidden-ok hidden (ground arith) sender)

  pub check_hidden_complete :
      (hidden : List ℕ) → HiddenSeen hidden → check_hidden privately receiver hidden ≡ ok tt
  unfolding check_hidden
  check_hidden_complete [] h = refl
  check_hidden_complete (first ∷ hidden) h =
      let rest = check_hidden_complete hidden (λ sender c n. h sender (ground arith) n) in
      ground (arith, h first (contains_head first hidden), rest)

-- A list that a filter leaves something of has an element that passes.
pub filter-some :
    (p : ℕ → Bool) (xs : List ℕ)
    → 0 < length (filter p xs)
    → (x : ℕ) × (contains xs x ≡ true) × (p x ≡ true)
filter-some p [] h = absurd (omega arith)
filter-some p (x ∷ xs) h = elim (Bool-cases (p x)) [
  | inl passes ↦ (x, contains_head x xs, passes)
  | inr fails ↦
      let h' = rw fails at h in let (y, c, q) = filter-some p xs h' in (y, ground arith, q)
]

pub some-filter :
    (p : ℕ → Bool) (xs : List ℕ) (x : ℕ)
    → contains xs x ≡ true
    → p x ≡ true
    → 0 < length (filter p xs)
some-filter p [] x c h = cc
some-filter p (y ∷ xs) x c h =
    let same : y ≡ x → p y ≡ p x = ap p in ground (arith, same, some-filter p xs x)
