-- ===== src/Shard/Scope/Visibility.antt =====
-- Comparability of scopes: what decides that a connection sees an element.
use mumble_server_runtime.Base.{
  ℕ, ◌≤◌, ◌≡◌, sym, ap, ◌∙◌, ◌⊎◌, inl, inr, true, some, List, [], ◌∷◌, arith, take, list_beq_iff,
  nat_eq,
}
use mumble_server_runtime.Shard.Scope.{Scope, child, is_prefix_of, comparable}
use mumble_server_runtime.Shard.Scope.Paths.{
  IsScope, child-IsScope, path-child, take-take, path→is_prefix_of,
}

prefix-parts :
    (s t : Scope)
    → is_prefix_of s t ≡ true
    → (s.depth ≤ t.depth) × (take s.depth s.segments ≡ take s.depth t.segments)
unfolding is_prefix_of
prefix-parts s t h = (
  ground arith,
  (list_beq_iff (take s.depth s.segments) (take s.depth t.segments)).0 (ground arith),
)

prefix_of_parts :
    (s t : Scope)
    → s.depth ≤ t.depth
    → take s.depth s.segments ≡ take s.depth t.segments
    → is_prefix_of s t ≡ true
unfolding is_prefix_of
prefix_of_parts s t h e =
    ground (arith, list_beq_iff (take s.depth s.segments) (take s.depth t.segments))

pub is_prefix_of_refl : (s : Scope) → is_prefix_of s s ≡ true
unfolding is_prefix_of
is_prefix_of_refl s =
    ground (arith, list_beq_iff (take s.depth s.segments) (take s.depth s.segments))

-- A shared prefix of two paths reads the same in both.
take_shorter : (m n : ℕ) (xs ys : List ℕ) → m ≤ n → take n xs ≡ take n ys → take m xs ≡ take m ys
take_shorter m n xs ys h e = sym (take-take m n xs h) ∙ ap (take m) e ∙ take-take m n ys h

pub is_prefix_of_trans :
    (s t u : Scope) → is_prefix_of s t ≡ true → is_prefix_of t u ≡ true → is_prefix_of s u ≡ true
is_prefix_of_trans s t u h k =
    let (le, e) = prefix-parts s t h in
    let (le', e') = prefix-parts t u k in
    prefix_of_parts s u (omega arith) (e ∙ take_shorter s.depth t.depth t.segments u.segments le e')

-- Two prefixes of one path: the shorter is a prefix of the longer.
prefix_of_common :
    (s t u : Scope)
    → s.depth ≤ t.depth
    → is_prefix_of s u ≡ true
    → is_prefix_of t u ≡ true
    → is_prefix_of s t ≡ true
prefix_of_common s t u h p q =
    let (le, e) = prefix-parts s u p in
    let (le', e') = prefix-parts t u q in
    prefix_of_parts s t h (e ∙ sym (take_shorter s.depth t.depth t.segments u.segments h e'))

pub comparable_symm : (s t : Scope) → comparable s t ≡ comparable t s
unfolding comparable
comparable_symm s t = ground arith

pub comparable_of_prefix : (s t : Scope) → is_prefix_of s t ≡ true → comparable s t ≡ true
unfolding comparable
comparable_of_prefix s t h = ground arith

comparable-cases :
    (s t : Scope) → comparable s t ≡ true → (is_prefix_of s t ≡ true) ⊎ (is_prefix_of t s ≡ true)
unfolding comparable
comparable-cases s t h = ground arith

le-total : (a b : ℕ) → (a ≤ b) ⊎ (b ≤ a)
le-total a b = grind arith

pub prefixes_comparable :
    (s t u : Scope) → is_prefix_of s u ≡ true → is_prefix_of t u ≡ true → comparable s t ≡ true
prefixes_comparable s t u p q = elim (le-total s.depth t.depth) [
  | inl h ↦ comparable_of_prefix s t (prefix_of_common s t u h p q)
  | inr h ↦ comparable_symm s t ∙ comparable_of_prefix t s (prefix_of_common t s u h q p)
]

-- What is comparable to a path is comparable to each of its prefixes.
pub comparable-prefix :
    (c u s : Scope) → is_prefix_of c u ≡ true → comparable u s ≡ true → comparable c s ≡ true
comparable-prefix c u s p h = elim (comparable-cases u s h) [
  | inl q ↦ comparable_of_prefix c s (is_prefix_of_trans c u s p q)
  | inr q ↦ prefixes_comparable c s u p q
]

-- `child` only narrows: a scope is a prefix of each of its children.
pub is_prefix_of-child :
    (s : Scope) (x : ℕ) (t : Scope) → IsScope s → child s x ≡ some t → is_prefix_of s t ≡ true
is_prefix_of-child s x t v h =
    path→is_prefix_of s t v (child-IsScope s x t v h) (x ∷ []) (path-child s x t v h)
