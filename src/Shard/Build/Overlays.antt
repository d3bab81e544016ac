-- ===== src/Shard/Build/Overlays.antt =====
-- What the closing checks on the overlays show, once they pass.
use mumble_server_runtime.Base.{
  ℕ, ◌≡◌, ap, subst, true, ◌⊎◌, inl, inr, none, some, List, [], ◌∷◌, arith, ok, ◌==◌, nat_eq,
  ==ℕ_iff, Bool-cases, Option-cases,
}
use mumble_server_runtime.Base.Fallible.{◌>>◌}
use mumble_server_runtime.Base.Assoc.{Assoc, get, keys, values}
use mumble_server_runtime.Base.Order.{nat_order, contains}
use mumble_server_runtime.Shard.ScopeSet.{ScopeSet, sees}
use mumble_server_runtime.Shard.View.{Channel, User, ShardView, Overlay}
use mumble_server_runtime.Shard.Build.Checks.{
  contains_key, find_key, disjoint_from, check_shared_xor_private, observed, check_reference,
  check_users, check_channels, check_overlay_references,
}
use mumble_server_runtime.Shard.Build.Checks.Passed.{then-ok}

pub keys-contains {ℓ} :
    {V : Type ℓ} (m : Assoc ℕ V) (k : ℕ) (v : V) → get m k ≡ some v → contains (keys m) k ≡ true
unfolding get
keys-contains [] k v h = cc
keys-contains ((j, w) ∷ m) k v h = ground (arith, keys-contains m k v)

find_key-none {ℓ} :
    {V : Type ℓ} (m : Assoc ℕ V) (ks : List ℕ) (k : ℕ)
    → find_key m ks ≡ none
    → contains ks k ≡ true
    → get m k ≡ none
unfolding find_key contains_key
find_key-none m [] k h c = cc
find_key-none m (j ∷ ks) k h c =
    let same : j ≡ k → get m j ≡ get m k = ap (get m) in ground (arith, same, find_key-none m ks k)

-- No element of the overlay is an element of the view.
pub record IsDisjoint (view : ShardView) (overlay : Overlay) : Type 0 where
  pub users :
      (session : ℕ) (u : User) → get overlay.users session ≡ some u → get view.users session ≡ none
  pub channels :
      (id : ℕ) (c : Channel) → get overlay.channels id ≡ some c → get view.channels id ≡ none

disjoint_from-IsDisjoint :
    (view : ShardView) (connection : ℕ) (overlay : Overlay)
    → disjoint_from view connection overlay ≡ ok tt
    → IsDisjoint view overlay
unfolding disjoint_from
disjoint_from-IsDisjoint view connection overlay h =
    elim (Option-cases (find_key view.users (keys overlay.users))) [
      | inr (s, found) ↦ let h' = rw (found, disjoint_from) at h in cc
      | inl users ↦ elim (Option-cases (find_key view.channels (keys overlay.channels))) [
        | inr (c, found) ↦ let h' = rw (users, found, disjoint_from) at h in cc
        | inl channels ↦ record {
          users = λ session u g.
              find_key-none view.users (keys overlay.users) session users
                (keys-contains overlay.users session u g);
          channels = λ id c g.
              find_key-none view.channels (keys overlay.channels) id channels
                (keys-contains overlay.channels id c g);
        }
      ]
    ]

shared_xor_private :
    (view : ShardView) (overlays : Assoc ℕ Overlay) (connection : ℕ) (overlay : Overlay)
    → check_shared_xor_private view overlays ≡ ok tt
    → get overlays connection ≡ some overlay
    → IsDisjoint view overlay
unfolding check_shared_xor_private get
shared_xor_private view [] connection overlay h g = cc
shared_xor_private view ((c, o) ∷ overlays) connection overlay h g =
    let (here, later) = then-ok (disjoint_from view c o) _ tt h in
    elim (Bool-cases (c == connection)) [
      | inl same ↦
          let e : o ≡ overlay = ground arith in
          disjoint_from-IsDisjoint view c overlay
            (subst (λ x. disjoint_from view c x ≡ ok tt) e here)
      | inr apart ↦ shared_xor_private view overlays connection overlay later (ground arith)
    ]

-- The channel is one of the overlay's own, or one of the view's that the connection sees.
pub record IsVisible (view : ShardView) (see : ScopeSet) (id : ℕ) : Type 0 where
  pub channel : Channel
  pub there : get view.channels id ≡ some channel
  pub seen : sees see channel.scope ≡ true

abbrev pub IsReferred : ShardView → Overlay → ScopeSet → ℕ → Type 0
IsReferred view overlay see id = (contains_key overlay.channels id ≡ true) ⊎ IsVisible view see id

check_reference-IsReferred :
    (view : ShardView) (overlay : Overlay) (connection : ℕ) (see : ScopeSet) (id : ℕ)
    → check_reference view overlay connection see id ≡ ok tt
    → IsReferred view overlay see id
unfolding check_reference
check_reference-IsReferred view overlay connection see id h =
    elim (Bool-cases (contains_key overlay.channels id)) [
      | inl own ↦ inl own
      | inr foreign ↦ elim (Option-cases (get view.channels id)) [
        | inl absent ↦ let h' = rw (foreign, absent, check_reference) at h in cc
        | inr (c, there) ↦ elim (Bool-cases (sees see c.scope)) [
          | inl seen ↦ inr (record { channel = c; there = there; seen = seen })
          | inr blind ↦ let h' = rw (foreign, there, blind, check_reference) at h in cc
        ]
      ]
    ]

users_referred :
    (view : ShardView) (overlay : Overlay) (connection : ℕ) (see : ScopeSet) (m : Assoc ℕ User)
    (session : ℕ) (u : User)
    → check_users view overlay connection see (values m) ≡ ok tt
    → get m session ≡ some u
    → IsReferred view overlay see u.channel
unfolding check_users get
users_referred view overlay connection see [] session u h g = cc
users_referred view overlay connection see ((k, v) ∷ m) session u h g =
    let (here, later) = then-ok (check_reference view overlay connection see v.channel) _ tt h in
    elim (Bool-cases (k == session)) [
      | inl same ↦
          let e : v ≡ u = ground arith in
          check_reference-IsReferred view overlay connection see u.channel
            (subst (λ x. check_reference view overlay connection see x.channel ≡ ok tt) e here)
      | inr apart ↦ users_referred view overlay connection see m session u later (ground arith)
    ]

channels_referred :
    (view : ShardView) (overlay : Overlay) (connection : ℕ) (see : ScopeSet) (m : Assoc ℕ Channel)
    (id : ℕ) (c : Channel)
    → check_channels view overlay connection see (values m) ≡ ok tt
    → get m id ≡ some c
    → IsReferred view overlay see c.parent
unfolding check_channels get
channels_referred view overlay connection see [] id c h g = cc
channels_referred view overlay connection see ((k, v) ∷ m) id c h g =
    let (here, later) = then-ok (check_reference view overlay connection see v.parent) _ tt h in
    elim (Bool-cases (k == id)) [
      | inl same ↦
          let e : v ≡ c = ground arith in
          check_reference-IsReferred view overlay connection see c.parent
            (subst (λ x. check_reference view overlay connection see x.parent ≡ ok tt) e here)
      | inr apart ↦ channels_referred view overlay connection see m id c later (ground arith)
    ]

referred :
    (view : ShardView) (overlays : Assoc ℕ Overlay) (observations : Assoc ℕ ScopeSet)
    (connection : ℕ) (overlay : Overlay)
    → check_overlay_references view overlays observations ≡ ok tt
    → get overlays connection ≡ some overlay
    → (check_users view overlay connection (observed observations connection) (values overlay.users)
        ≡ ok tt)
      × (check_channels view overlay connection
            (observed observations connection)
            (values overlay.channels)
          ≡ ok tt)
unfolding check_overlay_references get
referred view [] observations connection overlay h g = cc
referred view ((c, o) ∷ overlays) observations connection overlay h g =
    let see = observed observations c in
    let users = check_users view o c see (values o.users) in
    let channels = check_channels view o c see (values o.channels) in
    let (here, later) = then-ok (users >> channels) _ tt h in
    elim (Bool-cases (c == connection)) [
      | inl same ↦
          let e : o ≡ overlay = ground arith in
          let f : c ≡ connection = (==ℕ_iff c connection).0 same in
          subst
            (λ x.
              (check_users view x connection (observed observations connection) (values x.users)
                ≡ ok tt)
              × (check_channels view x connection (observed observations connection)
                    (values x.channels)
                  ≡ ok tt))
            e
            (subst
              (λ k.
                (check_users view o k (observed observations k) (values o.users) ≡ ok tt)
                × (check_channels view o k (observed observations k) (values o.channels) ≡ ok tt))
              f (then-ok users channels tt here))
      | inr apart ↦ referred view overlays observations connection overlay later (ground arith)
    ]

-- An overlay that fits the view: nothing of it is shared, and what it refers to is visible to its
-- connection.
pub record IsFitting (view : ShardView) (see : ScopeSet) (overlay : Overlay) : Type 0 where
  pub disjoint : IsDisjoint view overlay
  pub users :
      (session : ℕ) (u : User)
      → get overlay.users session ≡ some u
      → IsReferred view overlay see u.channel
  pub channels :
      (id : ℕ) (c : Channel)
      → get overlay.channels id ≡ some c
      → IsReferred view overlay see c.parent

pub checked-IsFitting :
    (view : ShardView) (overlays : Assoc ℕ Overlay) (observations : Assoc ℕ ScopeSet)
    (connection : ℕ) (overlay : Overlay)
    → check_shared_xor_private view overlays ≡ ok tt
    → check_overlay_references view overlays observations ≡ ok tt
    → get overlays connection ≡ some overlay
    → IsFitting view (observed observations connection) overlay
checked-IsFitting view overlays observations connection overlay h k g =
    let (users, channels) = referred view overlays observations connection overlay k g in
    let see = observed observations connection in
    record {
      disjoint = shared_xor_private view overlays connection overlay h g;
      users =
          λ session u x. users_referred view overlay connection see overlay.users session u users x;
      channels =
          λ id c x. channels_referred view overlay connection see overlay.channels id c channels x;
    }
