-- ===== src/Shard/Build/Checks/Groups.antt =====
-- The senders grouped by scope: the count at a scope is the number of senders there, and the hidden
-- are the senders that the shared view does not carry.
use mumble_server_runtime.Base.{
  ℕ, suc, ◌+◌, ◌≡◌, refl, sym, ap, ◌∙◌, Bool, true, false, not, ◌&&◌, inl, inr, Option, none, some,
  List, [], ◌∷◌, ◌++◌, arith, length, filter, All, ◌==◌, nat_eq, ==ℕ_iff, eq_self, if◌then◌else◌,
  append-nil, append_assoc, Bool-cases, Option-cases,
}
use Prim.Native.Nat.{compare}
use Prim.Native.Nat.Ordering.{lt}
use mumble_server_runtime.Base.Assoc.{Assoc, get}
use mumble_server_runtime.Base.Order.{nat_order, contains, IsAscending}
use mumble_server_runtime.Base.Btree.{get-btree_insert, IsOrdered, btree_insert-IsOrdered}
use mumble_server_runtime.Shard.Scope.{Scope, scope_eq, scope_order, scope_beq_iff}
use mumble_server_runtime.Shard.Build.Checks.{or_zero, count_at, grouped, is_at, others_at}

abbrev pub is_absent : Option Scope → Bool
is_absent none = true
is_absent (some scope) = false

pub is_at-eq_some : (own : Option Scope) (scope : Scope) → is_at own scope ≡ true → own ≡ some scope
is_at-eq_some none scope h = cc
is_at-eq_some (some own) scope h = ap some ((scope_beq_iff own scope).0 h)

pub is_at-some : (scope : Scope) → is_at (some scope) scope ≡ true
is_at-some scope = eq_self scope

abbrev one_if : Bool → ℕ
one_if true = 1
one_if false = 0

get-count_at :
    (m : Assoc Scope ℕ) (scope other : Scope)
    → or_zero (get (count_at m scope) other) ≡ one_if (scope == other) + or_zero (get m other)
unfolding count_at
get-count_at m scope other =
    let found = get-btree_insert m scope other (suc (or_zero (get m scope))) in
    elim (Bool-cases (scope == other)) [
      | inl same ↦
          let e = ap (λ s. or_zero (get m s)) ((scope_beq_iff scope other).0 same) in
          rw (found, same) (omega (arith, e))
      | inr apart ↦ rw (found, apart) (omega arith)
    ]

length-filter_cons :
    (b : Bool) (x : ℕ) (xs : List ℕ) → length (if b then x ∷ xs else xs) ≡ one_if b + length xs
length-filter_cons true x xs = omega arith
length-filter_cons false x xs = omega arith

module _ (shared_scope : Assoc ℕ Scope) where
  abbrev pub at : Scope → ℕ → Bool
  at scope sender = is_at (get shared_scope sender) scope

  abbrev pub is_hidden : ℕ → Bool
  is_hidden sender = is_absent (get shared_scope sender)

  pub grouped-counts :
      (m : Assoc Scope ℕ) (hidden senders : List ℕ) (scope : Scope)
      → or_zero (get (grouped m hidden shared_scope senders).0 scope)
        ≡ or_zero (get m scope) + length (filter (at scope) senders)
  unfolding grouped
  grouped-counts m hidden [] scope = omega arith
  grouped-counts m hidden (sender ∷ senders) scope = elim (Option-cases (get shared_scope sender)) [
    | inl absent ↦ rw (absent, grouped) (grouped-counts m (hidden ++ sender ∷ []) senders scope)
    | inr (own, there) ↦
        let step = grouped-counts (count_at m own) hidden senders scope in
        let count = get-count_at m own scope in
        let more = length-filter_cons (own == scope) sender (filter (at scope) senders) in
        rw (there, grouped) (omega (arith, step, count, more))
  ]

  pub grouped-hidden :
      (m : Assoc Scope ℕ) (hidden senders : List ℕ)
      → (grouped m hidden shared_scope senders).1 ≡ hidden ++ filter is_hidden senders
  unfolding grouped
  grouped-hidden m hidden [] = sym (append-nil hidden)
  grouped-hidden m hidden (sender ∷ senders) = elim (Option-cases (get shared_scope sender)) [
    | inl absent ↦
        rw (absent, grouped)
          (grouped-hidden m (hidden ++ sender ∷ []) senders
            ∙ append_assoc hidden (sender ∷ []) (filter is_hidden senders))
    | inr (own, there) ↦ rw (there, grouped) (grouped-hidden (count_at m own) hidden senders)
  ]

  pub grouped-IsOrdered :
      (m : Assoc Scope ℕ) (hidden senders : List ℕ)
      → IsOrdered m
      → IsOrdered (grouped m hidden shared_scope senders).0
  unfolding grouped count_at
  grouped-IsOrdered m hidden [] h = h
  grouped-IsOrdered m hidden (sender ∷ senders) h = elim (Option-cases (get shared_scope sender)) [
    | inl absent ↦ rw (absent, grouped) (grouped-IsOrdered m (hidden ++ sender ∷ []) senders h)
    | inr (own, there) ↦
        rw (there, grouped)
          (grouped-IsOrdered (count_at m own) hidden senders
            (btree_insert-IsOrdered m own (suc (or_zero (get m own))) h))
  ]

  -- The senders at the scope other than the receiver.
  abbrev pub rival : ℕ → Scope → ℕ → Bool
  rival receiver scope sender = not (sender == receiver) && at scope sender

  away-rivals :
      (receiver : ℕ) (scope : Scope) (senders : List ℕ)
      → contains senders receiver ≡ false
      → length (filter (rival receiver scope) senders) ≡ length (filter (at scope) senders)
  away-rivals receiver scope [] h = refl
  away-rivals receiver scope (sender ∷ senders) h =
      ground (arith, away-rivals receiver scope senders)

  -- A receiver elsewhere is not among the senders at the scope.
  elsewhere-rivals :
      (receiver : ℕ) (scope : Scope) (senders : List ℕ)
      → at scope receiver ≡ false
      → length (filter (rival receiver scope) senders) ≡ length (filter (at scope) senders)
  elsewhere-rivals receiver scope [] h = refl
  elsewhere-rivals receiver scope (sender ∷ senders) h =
      let same : sender ≡ receiver → at scope sender ≡ at scope receiver = ap (at scope) in
      ground (arith, same, elsewhere-rivals receiver scope senders h)

  above-contains : (x : ℕ) (xs : List ℕ) → All (λ y. compare x y ≡ lt) xs → contains xs x ≡ false
  above-contains x [] h = refl
  above-contains x (y ∷ ys) h = ground (arith, above-contains x ys h.1)

  -- One of the senders, and it stands once: the others there are one fewer.
  own-rivals :
      (receiver : ℕ) (scope : Scope) (senders : List ℕ)
      → IsAscending senders
      → at scope receiver ≡ true
      → contains senders receiver ≡ true
      → length (filter (at scope) senders) ≡ suc (length (filter (rival receiver scope) senders))
  own-rivals receiver scope [] a h c = cc
  own-rivals receiver scope (sender ∷ senders) a h c = elim (Bool-cases (sender == receiver)) [
    | inl same ↦
        let e = (==ℕ_iff sender receiver).0 same in
        let below = above-contains receiver senders (rw (sym e) a.0) in
        let here : at scope sender ≡ true = ap (at scope) e ∙ h in
        let rest = away-rivals receiver scope senders below in rw (same, here) (omega (arith, rest))
    | inr apart ↦
        let rest = own-rivals receiver scope senders a.1 h (ground arith) in
        rw apart (ground (arith, rest))
  ]

  -- What `check_scopes` counts for a receiver is the senders there other than the receiver, if a
  -- receiver that occupies the scope is one of the senders.
  pub others_at-rivals :
      (receiver : ℕ) (scope : Scope) (senders : List ℕ)
      → IsAscending senders
      → (at scope receiver ≡ true → contains senders receiver ≡ true)
      → others_at (get shared_scope receiver) scope (length (filter (at scope) senders))
        ≡ length (filter (rival receiver scope) senders)
  unfolding others_at
  others_at-rivals receiver scope senders a h = elim (Bool-cases (at scope receiver)) [
    | inl here ↦ rw here (omega (arith, own-rivals receiver scope senders a here (h here)))
    | inr away ↦ rw away (sym (elsewhere-rivals receiver scope senders away))
  ]
