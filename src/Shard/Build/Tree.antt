-- ===== src/Shard/Build/Tree.antt =====
-- What the rendered channels form: every channel stands under one that its scope extends, and links
-- join channels whose scopes are comparable, in both directions.
use mumble_server_runtime.Base.{
  ℕ, ◌≡◌, refl, sym, ap, ◌∙◌, subst, Bool, true, ◌⊎◌, inl, inr, none, some, arith, ◌==◌, nat_eq,
  ==ℕ_iff, Bool-cases,
}
use mumble_server_runtime.Base.Assoc.{Assoc, get}
use mumble_server_runtime.Base.Order.{nat_order, contains}
use mumble_server_runtime.Base.Btree.{btree_insert, get-btree_insert}
use mumble_server_runtime.Shard.Scope.{Scope, is_prefix_of, comparable}
use mumble_server_runtime.Shard.Scope.Paths.{IsScope}
use mumble_server_runtime.Shard.View.{Channel}
use mumble_server_runtime.Shard.Build.{ChannelRef}

pub record Linked (m : Assoc ℕ Channel) (id : ℕ) (scope : Scope) (l : ℕ) : Type 0 where
  pub other : Channel
  pub there : get m l ≡ some other
  pub comparable_scopes : comparable scope other.scope ≡ true
  pub back : contains other.links id ≡ true

pub record Node (m : Assoc ℕ Channel) (id : ℕ) (c : Channel) : Type 0 where
  pub keyed : c.id ≡ id
  pub scoped : IsScope c.scope
  pub parent : Channel
  pub there : get m c.parent ≡ some parent
  pub narrower : is_prefix_of parent.scope c.scope ≡ true
  pub linked : (l : ℕ) → contains c.links l ≡ true → Linked m id c.scope l

abbrev pub IsTree : Assoc ℕ Channel → Type 0
IsTree m = (id : ℕ) (c : Channel) → get m id ≡ some c → Node m id c

-- A handle names a channel of the table, and carries its scope.
pub record IsPlaced (m : Assoc ℕ Channel) (r : ChannelRef) : Type 0 where
  pub channel : Channel
  pub there : get m r.id ≡ some channel
  pub same_scope : channel.scope ≡ r.scope

-- The fields that no later call changes, and the links, which only become more.
pub record Kept (c d : Channel) : Type 0 where
  pub id : d.id ≡ c.id
  pub key : d.key ≡ c.key
  pub parent : d.parent ≡ c.parent
  pub scope : d.scope ≡ c.scope
  pub links : (l : ℕ) → contains c.links l ≡ true → contains d.links l ≡ true

pub Kept-refl : (c : Channel) → Kept c c
Kept-refl c = record { id = refl; key = refl; parent = refl; scope = refl; links = λ l h. h }

pub Kept-trans : (c d e : Channel) → Kept c d → Kept d e → Kept c e
Kept-trans c d e h k = record {
  id = k.id ∙ h.id;
  key = k.key ∙ h.key;
  parent = k.parent ∙ h.parent;
  scope = k.scope ∙ h.scope;
  links = λ l x. k.links l (h.links l x);
}

-- Every channel of the one table stands in the other.
abbrev pub Extends : Assoc ℕ Channel → Assoc ℕ Channel → Type 0
Extends m n =
    (id : ℕ) (c : Channel) → get m id ≡ some c → (d : Channel) × (get n id ≡ some d) × Kept c d

pub Extends-refl : (m : Assoc ℕ Channel) → Extends m m
Extends-refl m id c h = (c, h, Kept-refl c)

pub Extends-trans : (m n o : Assoc ℕ Channel) → Extends m n → Extends n o → Extends m o
Extends-trans m n o h k id c g =
    let (d, there, kept) = h id c g in
    let (e, there', kept') = k id d there in (e, there', Kept-trans c d e kept kept')

pub IsPlaced-Extends :
    (m n : Assoc ℕ Channel) (r : ChannelRef) → Extends m n → IsPlaced m r → IsPlaced n r
IsPlaced-Extends m n r x p =
    let (d, there, kept) = x r.id p.channel p.there in
    record { channel = d; there = there; same_scope = kept.scope ∙ p.same_scope }

Linked-Extends :
    (m n : Assoc ℕ Channel) (id : ℕ) (scope : Scope) (l : ℕ)
    → Extends m n
    → Linked m id scope l
    → Linked n id scope l
Linked-Extends m n id scope l x k =
    let (d, there, kept) = x l k.other k.there in
    record {
      other = d;
      there = there;
      comparable_scopes =
          subst (λ s. comparable scope s ≡ true) (sym kept.scope) k.comparable_scopes;
      back = kept.links id k.back;
    }

-- A node of the smaller table is one of the larger, if the links that it gained are links there.
pub Node-Extends :
    (m n : Assoc ℕ Channel) (id : ℕ) (c d : Channel)
    → Extends m n
    → Kept c d
    → ((l : ℕ) → contains d.links l ≡ true → (contains c.links l ≡ true) ⊎ Linked n id d.scope l)
    → Node m id c
    → Node n id d
Node-Extends m n id c d x kept gained v =
    let (p, there, pk) = x c.parent v.parent v.there in
    record {
      keyed = kept.id ∙ v.keyed;
      scoped = subst IsScope (sym kept.scope) v.scoped;
      parent = p;
      there = ap (get n) kept.parent ∙ there;
      narrower = rw (pk.scope, kept.scope) v.narrower;
      linked = λ l h. elim (gained l h) [
        | inl old ↦
            subst (λ s. Linked n id s l) (sym kept.scope)
              (Linked-Extends m n id c.scope l x (v.linked l old))
        | inr new ↦ new
      ];
    }

-- A new channel leaves the others.
pub Extends-insert :
    (m : Assoc ℕ Channel) (id : ℕ) (c : Channel) → get m id ≡ none → Extends m (btree_insert m id c)
Extends-insert m id c absent j d h =
    let other : (id == j) ≡ Bool.false = elim (Bool-cases (id == j)) [
      | inl same ↦ let e = (==ℕ_iff id j).0 same in cc
      | inr apart ↦ apart
    ] in
    (d, get-btree_insert m id j c ∙ (rw other h), Kept-refl d)

pub insert-IsTree :
    (m : Assoc ℕ Channel) (id : ℕ) (c : Channel)
    → get m id ≡ none
    → Node (btree_insert m id c) id c
    → IsTree m
    → IsTree (btree_insert m id c)
insert-IsTree m id c absent v t j d h = elim (Bool-cases (id == j)) [
  | inl same ↦
      let e : id ≡ j = (==ℕ_iff id j).0 same in
      let f : c ≡ d = ground (arith, get-btree_insert m id j c) in
      subst (λ i. Node (btree_insert m id c) i d) e
        (subst (λ x. Node (btree_insert m id c) id x) f v)
  | inr apart ↦
      let old : get m j ≡ some d = ground (arith, get-btree_insert m id j c) in
      Node-Extends m (btree_insert m id c) j d d (Extends-insert m id c absent) (Kept-refl d)
        (λ l k. inl k) (t j d old)
]
