-- ===== src/Shard/Plan/Ordering/Permutes.antt =====
-- Ordering the created and the removed channels loses and repeats none.
use mathlib.Core.List.Permᴰ
use mathlib.Core.List.{Permᴰ}
use mumble_server_runtime.Base.{
  ℕ, zero, suc, ◌≤◌, ◌≡◌, refl, sym, ap, ap₂, ◌∙◌, inl, inr, Bool, true, false, ◌||◌, List, [], ◌∷◌,
  ◌++◌, arith, length, filter, Bool-cases, nat_eq, ◌==◌, if◌then◌else◌,
}
use mumble_server_runtime.Base.Assoc.{keys}
use mumble_server_runtime.Base.Order.{contains, nat_order, sort_by-perm}
use mumble_server_runtime.Shard.Scope.{Scope}
use mumble_server_runtime.Shard.View.{Channel, ShardView}
use mumble_server_runtime.Shard.Plan.Ordering.{
  creation_pass, creation_loop, order_creations, removal_cmp, order_removals,
}

creation_pass-perm :
    (present : List ℕ) (cs : List Channel)
    → Permᴰ cs ((creation_pass present cs).placed ++ (creation_pass present cs).waiting)
unfolding creation_pass
creation_pass-perm present [] = Permᴰ.refl []
creation_pass-perm present (c ∷ cs) =
    elim (Bool-cases (c.parent == c.id || contains present c.parent)) [
      | inl ready ↦ rw ready (Permᴰ.cons refl (creation_pass-perm (c.id ∷ present) cs))
      | inr early ↦ rw early (
          Permᴰ.trans (Permᴰ.cons refl (creation_pass-perm present cs)) (
            Permᴰ.symm (
              Permᴰ.middle c (creation_pass present cs).placed (creation_pass present cs).waiting)))
    ]

creation_loop-perm :
    (fuel : ℕ) (present : List ℕ) (cs : List Channel) → Permᴰ cs (creation_loop fuel present cs)
unfolding creation_loop
creation_loop-perm zero present cs = Permᴰ.refl cs
creation_loop-perm (suc fuel) present [] = Permᴰ.refl []
creation_loop-perm (suc fuel) present (c ∷ cs) =
    let r = creation_pass present (c ∷ cs) in
    Permᴰ.trans (creation_pass-perm present (c ∷ cs)) (
      Permᴰ.append_left r.placed (
        either r.progressed r.waiting (creation_loop fuel r.present r.waiting)
          (creation_loop-perm fuel r.present r.waiting)))
  where
    either :
        (b : Bool) (ws later : List Channel) → Permᴰ ws later → Permᴰ ws (if b then later else ws)
    either true ws later p = p
    either false ws later p = Permᴰ.refl ws

pub order_creations-perm :
    (cs : List Channel) (before : ShardView) → Permᴰ cs (order_creations cs before)
unfolding order_creations
order_creations-perm cs before = creation_loop-perm (length cs) (keys before.channels) cs

pub order_removals-perm :
    (rs : List (ℕ × Scope)) (before : ShardView) → Permᴰ rs (order_removals rs before)
unfolding order_removals
order_removals-perm rs before = sort_by-perm (removal_cmp before) rs

module _ {A : Type 0} where
  filter-perm : (p : A → Bool) {xs ys : List A} → Permᴰ xs ys → Permᴰ (filter p xs) (filter p ys)
  filter-perm p Permᴰ.nil = Permᴰ.nil
  filter-perm p (Permᴰ.cons {a = a} {b = b} e h) = elim (Bool-cases (p a)) [
    | inl t ↦ rw (t, ap p (sym e) ∙ t) (Permᴰ.cons e (filter-perm p h))
    | inr f ↦ rw (f, ap p (sym e) ∙ f) (filter-perm p h)
  ]
  filter-perm p (Permᴰ.swap {a = a} {b = b} {l = l} e f) = elim (Bool-cases (p a)) [
    | inl t ↦ elim (Bool-cases (p b)) [
      | inl u ↦ rw (t, u, ap p (sym e) ∙ t, ap p (sym f) ∙ u) (Permᴰ.swap e f)
      | inr u ↦
          rw (t, u, ap p (sym e) ∙ t, ap p (sym f) ∙ u) (Permᴰ.cons e (Permᴰ.refl (filter p l)))
    ]
    | inr t ↦ elim (Bool-cases (p b)) [
      | inl u ↦
          rw (t, u, ap p (sym e) ∙ t, ap p (sym f) ∙ u) (Permᴰ.cons f (Permᴰ.refl (filter p l)))
      | inr u ↦ rw (t, u, ap p (sym e) ∙ t, ap p (sym f) ∙ u) (Permᴰ.refl (filter p l))
    ]
  ]
  filter-perm p (Permᴰ.trans h g) = Permᴰ.trans (filter-perm p h) (filter-perm p g)

  length-perm : {xs ys : List A} → Permᴰ xs ys → length xs ≡ length ys
  length-perm Permᴰ.nil = refl
  length-perm (Permᴰ.cons e h) = ap suc (length-perm h)
  length-perm (Permᴰ.swap e f) = refl
  length-perm (Permᴰ.trans h g) = length-perm h ∙ length-perm g

  single_perm : {xs ys : List A} → Permᴰ xs ys → length xs ≤ 1 → xs ≡ ys
  single_perm Permᴰ.nil h = refl
  single_perm (Permᴰ.cons e p) h = ap₂ ◌∷◌ e (single_perm p (omega arith))
  single_perm (Permᴰ.swap e f) h = absurd (omega arith)
  single_perm (Permᴰ.trans p q) h = single_perm p h ∙ single_perm q (omega (arith, length-perm p))

  -- A selection of at most one element is not changed by a rearrangement.
  pub filter_single_perm :
      (p : A → Bool) {xs ys : List A}
      → Permᴰ xs ys
      → length (filter p xs) ≤ 1
      → filter p xs ≡ filter p ys
  filter_single_perm p h = single_perm (filter-perm p h)
