-- ===== src/Shard/Scope/Paths.antt =====
-- What a `Scope` stands for: a path of at most `max_depth` segments. `child` appends a segment, and
-- `is_prefix_of` decides whether one path begins another.
use mumble_server_runtime.Base.{
  ℕ, zero, suc, ◌+◌, ◌-◌, ◌≤◌, ◌<◌, ◌≡◌, refl, sym, ap, ap₂, ◌∙◌, true, some, List, [], ◌∷◌, ◌++◌,
  arith, length, take, drop, set, replicate, length-append, length-set, length-take, take-append,
  list_beq_iff, nat_eq,
}
use native.Mathlib.Numerals.{add-one}
use mumble_server_runtime.Shard.Scope.{Scope, max_depth, root, child, is_prefix_of}

-- The segments of the path.
unfoldable pub path : Scope → List ℕ
path s = take s.depth s.segments

-- What every scope built from `root` by `child` satisfies: the unused segments are zero.
pub record IsScope (s : Scope) : Type 0 where
  pub width : length s.segments ≡ max_depth
  pub bounded : s.depth ≤ max_depth
  pub padded : drop s.depth s.segments ≡ replicate (max_depth - s.depth) 0

pub take-take : (m n : ℕ) (xs : List ℕ) → m ≤ n → take m (take n xs) ≡ take m xs
take-take zero n xs h = refl
take-take (suc m) zero xs h = absurd (omega arith)
take-take (suc m) (suc n) [] h = refl
take-take (suc m) (suc n) (x ∷ xs) h = ap (λ t. x ∷ t) (take-take m n xs (omega arith))

take-set :
    (n : ℕ) (xs : List ℕ) (x : ℕ) → n < length xs → take (suc n) (set xs n x) ≡ take n xs ++ x ∷ []
take-set zero [] x h = absurd (omega arith)
take-set zero (y ∷ ys) x h = refl
take-set (suc n) [] x h = absurd (omega arith)
take-set (suc n) (y ∷ ys) x h = ap (λ t. y ∷ t) (take-set n ys x (omega arith))

drop-set : (n : ℕ) (xs : List ℕ) (x : ℕ) → drop (suc n) (set xs n x) ≡ drop (suc n) xs
drop-set zero [] x = refl
drop-set zero (y ∷ ys) x = refl
drop-set (suc n) [] x = refl
drop-set (suc n) (y ∷ ys) x = drop-set n ys x

drop-suc :
    (n k : ℕ) (xs : List ℕ) → drop n xs ≡ replicate k 0 → drop (suc n) xs ≡ replicate (k - 1) 0
drop-suc zero zero [] h = refl
drop-suc zero zero (x ∷ xs) h = cc
drop-suc zero (suc k) [] h = cc
drop-suc zero (suc k) (x ∷ xs) h = let e : suc k - 1 ≡ k = omega arith in rw e (cc)
drop-suc (suc n) zero [] h = refl
drop-suc (suc n) (suc k) [] h = cc
drop-suc (suc n) k (x ∷ xs) h = drop-suc n k xs h

pub IsScope-root : IsScope root
IsScope-root = record { width = refl; bounded = omega arith; padded = refl }

pub child-eq-some :
    (s : Scope) (x : ℕ) (t : Scope)
    → s.depth ≤ max_depth
    → child s x ≡ some t
    → (s.depth < max_depth) × (t.segments ≡ set s.segments s.depth x) × (t.depth ≡ s.depth + 1)
unfolding child
child-eq-some s x t b h = ground arith

pub child-IsScope : (s : Scope) (x : ℕ) (t : Scope) → IsScope s → child s x ≡ some t → IsScope t
child-IsScope s x t v h =
    let (room, segs, deeper) = child-eq-some s x t v.bounded h in
    record {
      width = rw segs (length-set s.segments s.depth x ∙ v.width);
      bounded = omega arith;
      padded =
          rw (segs, deeper, add-one)
            (drop-set s.depth s.segments x
              ∙ drop-suc s.depth (max_depth - s.depth) s.segments v.padded
              ∙ ap (λ n. replicate n 0) (omega arith));
    }

pub path-child :
    (s : Scope) (x : ℕ) (t : Scope) → IsScope s → child s x ≡ some t → path t ≡ path s ++ x ∷ []
unfolding path
path-child s x t v h =
    let (room, segs, deeper) = child-eq-some s x t v.bounded h in
    rw (segs, deeper, add-one) (take-set s.depth s.segments x (omega (arith, v.width)))

pub length-path : (s : Scope) → IsScope s → length (path s) ≡ s.depth
unfolding path
length-path s v = length-take s.depth s.segments ∙ omega arith

pub path→is_prefix_of :
    (s t : Scope)
    → IsScope s
    → IsScope t
    → (rest : List ℕ) → path t ≡ path s ++ rest
    → is_prefix_of s t ≡ true
unfolding is_prefix_of path
path→is_prefix_of s t v w rest e =
    let le : s.depth ≤ t.depth =
      omega (arith, ap length e, length-append (path s) rest, length-path s v, length-path t w) in
    let same : take s.depth s.segments ≡ take s.depth t.segments =
      sym (take-append (path s) rest)
      ∙ ap₂ take (length-path s v) (sym e)
      ∙ take-take s.depth t.depth t.segments le in
    ground (arith, list_beq_iff (take s.depth s.segments) (take s.depth t.segments))
