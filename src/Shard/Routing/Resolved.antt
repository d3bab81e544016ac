-- ===== src/Shard/Routing/Resolved.antt =====
-- Where the pairs of `resolve` come from: an explicit edge, two members of a domain, or a member and
-- a listener.
use mumble_server_runtime.Base.{
  ℕ, ◌≡◌, ap, true, false, ◌⊎◌, inl, inr, List, [], ◌∷◌, arith, All, ◌==◌, nat_eq,
}
use mumble_server_runtime.Base.Assoc.{Assoc}
use mumble_server_runtime.Base.Order.{nat_order, contains, contains-set_insert, IsAscending}
use mumble_server_runtime.Base.Btree.{pair_order, pair_cmp-eq}
use mumble_server_runtime.Shard.Routing.{
  AudioRelation, listening_to, add_other, resolve_receivers, resolve_senders, resolve_domains,
  resolve_listener, resolve_listeners, resolve,
}

-- A pair of which the first may be heard by the second.
abbrev IsPair : List ℕ → List ℕ → ℕ → ℕ → Type 0
IsPair senders receivers s r =
    (contains senders s ≡ true) × (contains receivers r ≡ true) × ((s == r) ≡ false)

abbrev pub InDomains : Assoc ℕ (List ℕ) → ℕ → ℕ → Type 0
InDomains [] s r = ⊥
InDomains ((domain, members) ∷ domains) s r =
    ((contains members s ≡ true) × (contains members r ≡ true) × ((s == r) ≡ false))
    ⊎ InDomains domains s r

abbrev pub InListeners : List (ℕ × List ℕ) → ℕ → ℕ → Type 0
InListeners [] s r = ⊥
InListeners ((listener, members) ∷ listeners) s r =
    ((contains members s ≡ true) × (listener ≡ r) × ((s == r) ≡ false)) ⊎ InListeners listeners s r

add_other-cases :
    (set : List (ℕ × ℕ)) (a b s r : ℕ)
    → contains (add_other set a b) (s, r) ≡ true
    → (contains set (s, r) ≡ true) ⊎ ((a ≡ s) × (b ≡ r) × ((s == r) ≡ false))
unfolding add_other
add_other-cases set a b s r h = ground (
  arith,
  contains-set_insert (a, b) set (s, r),
  pair_cmp-eq (a, b) (s, r),
  ap (λ (p : ℕ × ℕ). p.0),
)

resolve_receivers-cases :
    (set : List (ℕ × ℕ)) (a : ℕ) (rs : List ℕ) (s r : ℕ)
    → contains (resolve_receivers set a rs) (s, r) ≡ true
    → (contains set (s, r) ≡ true) ⊎ ((a ≡ s) × (contains rs r ≡ true) × ((s == r) ≡ false))
unfolding resolve_receivers
resolve_receivers-cases set a [] s r h = inl h
resolve_receivers-cases set a (b ∷ rs) s r h =
    elim (resolve_receivers-cases (add_other set a b) a rs s r h) [
      | inr (x, y, z) ↦ inr (x, ground arith, z)
      | inl before ↦ elim (add_other-cases set a b s r before) [
        | inl old ↦ inl old
        | inr (x, y, z) ↦ inr (x, ground arith, z)
      ]
    ]

resolve_senders-cases :
    (set : List (ℕ × ℕ)) (ss members : List ℕ) (s r : ℕ)
    → contains (resolve_senders set ss members) (s, r) ≡ true
    → (contains set (s, r) ≡ true) ⊎ IsPair ss members s r
unfolding resolve_senders
resolve_senders-cases set [] members s r h = inl h
resolve_senders-cases set (a ∷ ss) members s r h =
    elim (resolve_senders-cases (resolve_receivers set a members) ss members s r h) [
      | inr (x, y, z) ↦ inr (ground arith, y, z)
      | inl before ↦ elim (resolve_receivers-cases set a members s r before) [
        | inl old ↦ inl old
        | inr (x, y, z) ↦ inr (ground arith, y, z)
      ]
    ]

resolve_domains-cases :
    (set : List (ℕ × ℕ)) (domains : Assoc ℕ (List ℕ)) (s r : ℕ)
    → contains (resolve_domains set domains) (s, r) ≡ true
    → (contains set (s, r) ≡ true) ⊎ InDomains domains s r
unfolding resolve_domains
resolve_domains-cases set [] s r h = inl h
resolve_domains-cases set ((domain, members) ∷ domains) s r h =
    elim (resolve_domains-cases (resolve_senders set members members) domains s r h) [
      | inr later ↦ inr (inr later)
      | inl before ↦ elim (resolve_senders-cases set members members s r before) [
        | inl old ↦ inl old
        | inr pair ↦ inr (inl pair)
      ]
    ]

resolve_listener-cases :
    (set : List (ℕ × ℕ)) (listener : ℕ) (ss : List ℕ) (s r : ℕ)
    → contains (resolve_listener set listener ss) (s, r) ≡ true
    → (contains set (s, r) ≡ true) ⊎ ((contains ss s ≡ true) × (listener ≡ r) × ((s == r) ≡ false))
unfolding resolve_listener
resolve_listener-cases set listener [] s r h = inl h
resolve_listener-cases set listener (a ∷ ss) s r h =
    elim (resolve_listener-cases (add_other set a listener) listener ss s r h) [
      | inr (x, y, z) ↦ inr (ground arith, y, z)
      | inl before ↦ elim (add_other-cases set a listener s r before) [
        | inl old ↦ inl old
        | inr (x, y, z) ↦ inr (ground arith, y, z)
      ]
    ]

resolve_listeners-cases :
    (set : List (ℕ × ℕ)) (listeners : List (ℕ × List ℕ)) (s r : ℕ)
    → contains (resolve_listeners set listeners) (s, r) ≡ true
    → (contains set (s, r) ≡ true) ⊎ InListeners listeners s r
unfolding resolve_listeners
resolve_listeners-cases set [] s r h = inl h
resolve_listeners-cases set ((listener, members) ∷ listeners) s r h =
    elim (resolve_listeners-cases (resolve_listener set listener members) listeners s r h) [
      | inr later ↦ inr (inr later)
      | inl before ↦ elim (resolve_listener-cases set listener members s r before) [
        | inl old ↦ inl old
        | inr pair ↦ inr (inl pair)
      ]
    ]

-- Every resolved pair is declared: by an edge, by a domain of both, or by a listener of a domain of
-- the first.
pub resolve-cases :
    (relation : AudioRelation) (s r : ℕ)
    → contains (resolve relation) (s, r) ≡ true
    → (contains relation.edges (s, r) ≡ true)
      ⊎ InDomains relation.domains s r
      ⊎ InListeners (listening_to relation.domains relation.listeners) s r
unfolding resolve
resolve-cases relation s r h =
    elim (resolve_listeners-cases (resolve_domains relation.edges relation.domains)
      (listening_to relation.domains relation.listeners) s r h) [
        | inr listener ↦ inr (inr listener)
        | inl before ↦ elim (resolve_domains-cases relation.edges relation.domains s r before) [
          | inl old ↦ inl old
          | inr domain ↦ inr (inl domain)
        ]
      ]

-- The members of every domain are a set.
abbrev pub IsRelation : AudioRelation → Type 0
IsRelation relation = All (λ (d : ℕ × List ℕ). IsAscending d.1) relation.domains
