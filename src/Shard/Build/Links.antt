-- ===== src/Shard/Build/Links.antt =====
-- What changing one channel of the tree, or linking two, leaves of it.
use mumble_server_runtime.Base.{
  ℕ, ◌≡◌, refl, sym, ap, ◌∙◌, subst, true, ◌⊎◌, inl, inr, none, some, arith, ◌==◌, nat_eq, ==ℕ_iff,
  Bool-cases, Option-cases,
}
use mumble_server_runtime.Base.Assoc.{Assoc, get}
use mumble_server_runtime.Base.Order.{nat_order, contains, contains-set_insert}
use mumble_server_runtime.Base.Btree.{update, get-update}
use mumble_server_runtime.Shard.Scope.{Scope, comparable}
use mumble_server_runtime.Shard.Scope.Visibility.{comparable_symm}
use mumble_server_runtime.Shard.View.{Channel}
use mumble_server_runtime.Shard.Build.{ChannelRef}
use mumble_server_runtime.Shard.Build.Builder.{add_link}
use mumble_server_runtime.Shard.Build.Tree.{
  Linked, IsTree, IsPlaced, Kept, Kept-refl, Kept-trans, Extends, Extends-trans, Node-Extends,
}

module _ (f : Channel → Channel) (kept : (c : Channel) → Kept c (f c)) where
  pub update-Extends : (m : Assoc ℕ Channel) (k : ℕ) → Extends m (update m k f)
  update-Extends m k id c h = elim (Bool-cases (k == id)) [
    | inl same ↦ (f c, get-update m k id f ∙ rw (same, h) refl, kept c)
    | inr apart ↦ (c, get-update m k id f ∙ rw (apart, h) refl, Kept-refl c)
  ]

  -- Where an entry of the changed table comes from.
  pub update_back :
      (m : Assoc ℕ Channel) (k id : ℕ) (d : Channel)
      → get (update m k f) id ≡ some d
      → (c : Channel) × (get m id ≡ some c) × (((d ≡ f c) × (k ≡ id)) ⊎ (d ≡ c))
  update_back m k id d h = elim (Bool-cases (k == id)) [
    | inl same ↦ elim (Option-cases (get m id)) [
      | inl absent ↦
          let g : none ≡ some d = sym (get-update m k id f ∙ rw (same, absent) refl) ∙ h in cc
      | inr (c, there) ↦
          let g : some (f c) ≡ some d = sym (get-update m k id f ∙ rw (same, there) refl) ∙ h in
          (c, there, inl (ground arith, (==ℕ_iff k id).0 same))
    ]
    | inr apart ↦ (d, sym (get-update m k id f ∙ rw apart refl) ∙ h, inr refl)
  ]

  pub update-IsTree :
      (m : Assoc ℕ Channel) (k : ℕ)
      → ((c : Channel) → (f c).links ≡ c.links)
      → IsTree m
      → IsTree (update m k f)
  update-IsTree m k same t id d h =
      let (c, there, from) = update_back m k id d h in
      elim from [
        | inl (e, _) ↦
            let links : d.links ≡ c.links = ap (λ x. x.links) e ∙ same c in
            Node-Extends m (update m k f) id c d (update-Extends m k)
              (subst (Kept c) (sym e) (kept c))
              (λ l h. inl (sym (ap (λ x. contains x l) links) ∙ h)) (t id c there)
        | inr e ↦
            Node-Extends m (update m k f) id c d (update-Extends m k)
              (subst (Kept c) (sym e) (Kept-refl c))
              (λ l h. inl (subst (λ x. contains x.links l ≡ true) e h)) (t id c there)
      ]

pub add_link-Kept : (l : ℕ) (c : Channel) → Kept c (add_link l c)
add_link-Kept l c = record {
  id = refl;
  key = refl;
  parent = refl;
  scope = refl;
  links = λ k h. contains-set_insert l c.links k ∙ ground arith;
}

add_link-contains :
    (l : ℕ) (c : Channel) (k : ℕ)
    → contains (add_link l c).links k ≡ true
    → (l ≡ k) ⊎ (contains c.links k ≡ true)
add_link-contains l c k h = ground (arith, contains-set_insert l c.links k)

add_link_self : (l : ℕ) (c : Channel) → contains (add_link l c).links l ≡ true
add_link_self l c = contains-set_insert l c.links l ∙ ground arith

abbrev pub joined : Assoc ℕ Channel → (a b : ℕ) → Assoc ℕ Channel
joined m a b = update (update m a (add_link b)) b (add_link a)

module _ (m : Assoc ℕ Channel) (one other : ChannelRef) (here : IsPlaced m one)
    (there : IsPlaced m other) (h : comparable one.scope other.scope ≡ true) where
  abbrev half : Assoc ℕ Channel
  half = update m one.id (add_link other.id)

  abbrev whole : Assoc ℕ Channel
  whole = joined m one.id other.id

  half-Extends : Extends m half
  half-Extends = update-Extends (add_link other.id) (add_link-Kept other.id) m one.id

  whole-half : Extends half whole
  whole-half = update-Extends (add_link one.id) (add_link-Kept one.id) half other.id

  pub joined-Extends : Extends m (joined m one.id other.id)
  joined-Extends = Extends-trans m half whole half-Extends whole-half

  get-half : get half one.id ≡ some (add_link other.id here.channel)
  get-half =
      get-update m one.id one.id (add_link other.id)
      ∙ rw ((==ℕ_iff one.id one.id).1 refl, here.there) refl

  link_there : (scope : Scope) → scope ≡ one.scope → Linked whole one.id scope other.id
  link_there scope e =
      let (d, at, kept) = half-Extends other.id there.channel there.there in
      record {
        other = add_link one.id d;
        there =
            get-update half other.id other.id (add_link one.id)
            ∙ rw ((==ℕ_iff other.id other.id).1 refl, at) refl;
        comparable_scopes = rw (e, kept.scope, there.same_scope) h;
        back = add_link_self one.id d;
      }

  link_back : (scope : Scope) → scope ≡ other.scope → Linked whole other.id scope one.id
  link_back scope e =
      let (d, at, kept) = whole-half one.id (add_link other.id here.channel) get-half in
      record {
        other = d;
        there = at;
        comparable_scopes =
            rw (e, kept.scope, here.same_scope) (comparable_symm other.scope one.scope ∙ h);
        back = kept.links other.id (add_link_self other.id here.channel);
      }

  -- The channels that the handles name have the handles' scopes.
  scope_of :
      (r : ChannelRef) (p : IsPlaced m r) (id : ℕ) (c : Channel)
      → get m id ≡ some c
      → r.id ≡ id
      → c.scope ≡ r.scope
  scope_of r p id c g e =
      let same : p.channel ≡ c = ground (arith, p.there, ap (get m) e) in
      sym (ap (λ x. x.scope) same) ∙ p.same_scope

  gained_link :
      (k l id : ℕ) (c d : Channel) (x : ℕ)
      → ((d ≡ add_link l c) × (k ≡ id)) ⊎ (d ≡ c)
      → contains d.links x ≡ true
      → (contains c.links x ≡ true) ⊎ ((k ≡ id) × (l ≡ x))
  gained_link k l id c d x (inl (e, at)) g =
      elim (add_link-contains l c x (subst (λ y. contains y.links x ≡ true) e g)) [
        | inl new ↦ inr (at, new)
        | inr old ↦ inl old
      ]
  gained_link k l id c d x (inr e) g = inl (subst (λ y. contains y.links x ≡ true) e g)

  from-Kept : (k l id : ℕ) (c d : Channel) → ((d ≡ add_link l c) × (k ≡ id)) ⊎ (d ≡ c) → Kept c d
  from-Kept k l id c d (inl (e, at)) = subst (Kept c) (sym e) (add_link-Kept l c)
  from-Kept k l id c d (inr e) = subst (Kept c) (sym e) (Kept-refl c)

  -- Linking two placed channels of comparable scopes leaves a tree.
  pub joined-IsTree : IsTree m → IsTree (joined m one.id other.id)
  joined-IsTree t id d g =
      let (c1, mid, from1) =
        update_back (add_link one.id) (add_link-Kept one.id) half other.id id d g in
      let (c, old, from) =
        update_back (add_link other.id) (add_link-Kept other.id) m one.id id c1 mid in
      let kept =
        Kept-trans c c1 d (from-Kept one.id other.id id c c1 from)
          (from-Kept other.id one.id id c1 d from1) in
      let gained : (l : ℕ)
          → contains d.links l ≡ true
          → (contains c.links l ≡ true) ⊎ Linked whole id d.scope l =
        λ l x. elim (gained_link other.id one.id id c1 d l from1 x) [
          | inr (e, f) ↦
              inr (
                rw (sym e, sym f)
                  (link_back d.scope (kept.scope ∙ scope_of other there id c old e)))
          | inl y ↦ elim (gained_link one.id other.id id c c1 l from y) [
            | inl z ↦ inl z
            | inr (e, f) ↦
                inr (
                  rw (sym e, sym f)
                    (link_there d.scope (kept.scope ∙ scope_of one here id c old e)))
          ]
        ] in
      Node-Extends m whole id c d joined-Extends kept gained (t id c old)
