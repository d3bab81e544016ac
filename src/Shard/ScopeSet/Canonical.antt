-- ===== src/Shard/ScopeSet/Canonical.antt =====
-- A `ScopeSet` is canonical, and visibility follows the set of scopes that were asked for.
use mumble_server_runtime.Base.{
  ℕ, zero, suc, ◌≤◌, ◌≡◌, refl, sym, ap, ◌∙◌, ◌↔◌, Bool, true, none, List, [], ◌∷◌, arith, ok, any,
  length, replicate,
}
use mumble_server_runtime.Base.Order.{
  sort, dedup, contains, contains-sort, contains-dedup, dedup-sort-IsAscending, ascending_unique,
}
use mumble_server_runtime.Shard.Scope.{Scope, scope_order, is_prefix_of, comparable}
use mumble_server_runtime.Shard.Scope.Visibility.{comparable-prefix}
use mumble_server_runtime.Shard.ScopeSet.{
  ScopeSet, max_observed, empty_set, fill, flatten, new, iter, sees,
}

flatten-none : (n : ℕ) → flatten (replicate n none) ≡ []
unfolding flatten
flatten-none zero = refl
flatten-none (suc n) = flatten-none n

flatten-fill :
    (n : ℕ) (scopes : List Scope)
    → length scopes ≤ n
    → flatten (fill (replicate n none) scopes) ≡ scopes
unfolding flatten fill
flatten-fill zero [] h = refl
flatten-fill zero (s ∷ scopes) h = absurd (omega arith)
flatten-fill (suc n) [] h = flatten-none n
flatten-fill (suc n) (s ∷ scopes) h = ap (λ t. s ∷ t) (flatten-fill n scopes (omega arith))

-- The canonical list of what was asked for.
abbrev canonical : List Scope → List Scope
canonical scopes = dedup (sort scopes)

contains-canonical :
    (scopes : List Scope) (s : Scope) → contains (canonical scopes) s ≡ contains scopes s
contains-canonical scopes s = contains-dedup (sort scopes) s ∙ contains-sort scopes s

new-eq-ok :
    (scopes : List Scope) (set : ScopeSet)
    → new scopes ≡ ok set
    → (length (canonical scopes) ≤ max_observed)
      × (set ≡ record { scopes = fill empty_set.scopes (canonical scopes) })
unfolding new
new-eq-ok scopes set h = ground arith

iter-canonical :
    (scopes : List Scope) (set : ScopeSet) → new scopes ≡ ok set → iter set ≡ canonical scopes
unfolding iter
iter-canonical scopes set h =
    let (fits, e) = new-eq-ok scopes set h in
    rw e (flatten-fill max_observed (canonical scopes) fits)

canonical_unique :
    (xs ys : List Scope)
    → ((s : Scope) → contains xs s ≡ contains ys s)
    → canonical xs ≡ canonical ys
canonical_unique xs ys same =
    ascending_unique (canonical xs) (canonical ys) (dedup-sort-IsAscending xs)
      (dedup-sort-IsAscending ys)
      λ s. contains-canonical xs s ∙ same s ∙ sym (contains-canonical ys s)

-- Two observations that are accepted are equal exactly when the scopes asked for are the same set:
-- neither order nor repetition counts.
pub new-eq_iff :
    (xs ys : List Scope) (a b : ScopeSet)
    → new xs ≡ ok a
    → new ys ≡ ok b
    → (a ≡ b) ↔ ((s : Scope) → contains xs s ≡ contains ys s)
new-eq_iff xs ys a b p q = (
  λ e s.
      sym (contains-canonical xs s)
      ∙ ap (λ l. contains l s) (sym (iter-canonical xs a p) ∙ ap iter e ∙ iter-canonical ys b q)
      ∙ contains-canonical ys s,
  λ same.
      (new-eq-ok xs a p).1
      ∙ ap (λ l. record { scopes = fill empty_set.scopes l }) (canonical_unique xs ys same)
      ∙ sym (new-eq-ok ys b q).1,
)

any-imp :
    (p q : Scope → Bool) (xs : List Scope)
    → ((x : Scope) → p x ≡ true → q x ≡ true)
    → any p xs ≡ true
    → any q xs ≡ true
any-imp p q [] f h = h
any-imp p q (x ∷ xs) f h = ground (arith, f x, any-imp p q xs f)

-- The closure theorem: whoever sees an element sees what lies on the path to it.
pub sees-prefix :
    (set : ScopeSet) (c u : Scope) → is_prefix_of c u ≡ true → sees set u ≡ true → sees set c ≡ true
unfolding sees
sees-prefix set c u p h =
    any-imp (λ o. comparable u o) (λ o. comparable c o) (flatten set.scopes)
      (λ o. comparable-prefix c u o p) h
