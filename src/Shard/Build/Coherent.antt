-- ===== src/Shard/Build/Coherent.antt =====
-- What every call of the builder keeps, whether it is refused or not: the rendered channels form a
-- tree, and every user stands in a channel that its scope extends.

use mumble_server_runtime.Base.{
  ℕ, ◌≡◌, sym, subst, Bool, true, false, ◌⊎◌, inl, inr, none, some, List, arith, ◌==◌, nat_eq,
  ==ℕ_iff, Bool-cases, Option-cases,
}
use mumble_server_runtime.Base.Assoc.{Assoc, get}
use mumble_server_runtime.Base.Order.{nat_order, contains}
use mumble_server_runtime.Base.Btree.{btree_insert, get-btree_insert, update, get-update, IsOrdered}
use mumble_server_runtime.Shard.Ids.{IdAllocator, allocated_channel}
use mumble_server_runtime.Shard.Ids.Operations.{IsAllocator}
use mumble_server_runtime.Shard.Scope.{is_prefix_of}
use mumble_server_runtime.Shard.View.{Channel, User, UserFlags, ShardView}
use mumble_server_runtime.Shard.Build.{ShardBuilder}
use mumble_server_runtime.Shard.Build.Builder.{root_ref}
use mumble_server_runtime.Shard.Build.Tree.{IsTree, IsPlaced, Extends, IsPlaced-Extends}

-- A user stands in a channel of the view, and its scope extends the channel's.
pub record Seated (m : Assoc ℕ Channel) (session : ℕ) (u : User) : Type 0 where
  pub keyed : u.session ≡ session
  pub channel : Channel
  pub there : get m u.channel ≡ some channel
  pub narrower : is_prefix_of channel.scope u.scope ≡ true

abbrev pub AllSeated : Assoc ℕ Channel → Assoc ℕ User → Type 0
AllSeated m users = (session : ℕ) (u : User) → get users session ≡ some u → Seated m session u

-- A channel is the root, or stands under the id of a key that was rendered.
abbrev pub Known : IdAllocator → ℕ → List ℕ → Assoc ℕ Channel → Type 0
Known ids shard keys_seen m =
    (id : ℕ) (c : Channel)
    → get m id ≡ some c
    → (id ≡ 0) ⊎ ((contains keys_seen c.key ≡ true) × (allocated_channel ids shard c.key ≡ some id))

-- The views that a render may publish.
pub record IsClosed (view : ShardView) : Type 0 where
  pub channels_ordered : IsOrdered view.channels
  pub users_ordered : IsOrdered view.users
  pub tree : IsTree view.channels
  pub seated : AllSeated view.channels view.users

pub record Coherent (ids : IdAllocator) (shard : ℕ) (keys_seen : List ℕ) (rooted : Bool)
    (view : ShardView) : Type 0 where
  pub allocator : IsAllocator ids
  pub known : Known ids shard keys_seen view.channels
  pub unrooted : rooted ≡ false → get view.channels 0 ≡ none
  pub rooted_there : rooted ≡ true → IsPlaced view.channels root_ref
  pub closed : IsClosed view

abbrev pub IsCoherent : ShardBuilder → Type 0
IsCoherent b = Coherent b.ids b.shard b.keys_seen b.rooted b.view

Seated-Extends :
    (m n : Assoc ℕ Channel) (session : ℕ) (u : User)
    → Extends m n
    → Seated m session u
    → Seated n session u
Seated-Extends m n session u x v =
    let (d, there, kept) = x u.channel v.channel v.there in
    record {
      keyed = v.keyed;
      channel = d;
      there = there;
      narrower = subst (λ s. is_prefix_of s u.scope ≡ true) (sym kept.scope) v.narrower;
    }

-- The ids that the channels of the view have are still theirs.
abbrev pub Keeps : IdAllocator → IdAllocator → ℕ → Type 0
Keeps a b shard =
    (key id : ℕ) → allocated_channel a shard key ≡ some id → allocated_channel b shard key ≡ some id

pub Coherent-ids :
    (a b : IdAllocator) (shard : ℕ) (keys_seen : List ℕ) (rooted : Bool) (view : ShardView)
    → IsAllocator b
    → Keeps a b shard
    → Coherent a shard keys_seen rooted view
    → Coherent b shard keys_seen rooted view
Coherent-ids a b shard keys_seen rooted view v keeps c = record {
  allocator = v;
  known = λ id ch h. elim (c.known id ch h) [
    | inl zero_id ↦ inl zero_id
    | inr (seen, there) ↦ inr (seen, keeps ch.key id there)
  ];
  unrooted = c.unrooted;
  rooted_there = c.rooted_there;
  closed = c.closed;
}

-- Other channels in the view, which extend those before.
pub IsClosed-channels :
    (view : ShardView) (n : Assoc ℕ Channel)
    → Extends view.channels n
    → IsOrdered n
    → IsTree n
    → IsClosed view
    → IsClosed (record view { channels = n })
IsClosed-channels view n x o t c = record {
  channels_ordered = o;
  users_ordered = c.users_ordered;
  tree = t;
  seated = λ session u h. Seated-Extends view.channels n session u x (c.seated session u h);
}

pub Coherent-channels :
    (ids : IdAllocator) (shard : ℕ) (keys_seen : List ℕ) (rooted : Bool) (view : ShardView)
    (n : Assoc ℕ Channel)
    → Extends view.channels n
    → IsOrdered n
    → IsTree n
    → Known ids shard keys_seen n
    → (rooted ≡ false → get n 0 ≡ none)
    → Coherent ids shard keys_seen rooted view
    → Coherent ids shard keys_seen rooted (record view { channels = n })
Coherent-channels ids shard keys_seen rooted view n x o t k r c = record {
  allocator = c.allocator;
  known = k;
  unrooted = r;
  rooted_there = λ h. IsPlaced-Extends view.channels n root_ref x (c.rooted_there h);
  closed = IsClosed-channels view n x o t c.closed;
}

pub Coherent-users :
    (ids : IdAllocator) (shard : ℕ) (keys_seen : List ℕ) (rooted : Bool) (view : ShardView)
    (users : Assoc ℕ User)
    → IsOrdered users
    → AllSeated view.channels users
    → Coherent ids shard keys_seen rooted view
    → Coherent ids shard keys_seen rooted (record view { users = users })
Coherent-users ids shard keys_seen rooted view users o s c = record {
  allocator = c.allocator;
  known = c.known;
  unrooted = c.unrooted;
  rooted_there = c.rooted_there;
  closed = record {
    channels_ordered = c.closed.channels_ordered;
    users_ordered = o;
    tree = c.closed.tree;
    seated = s;
  };
}

pub insert-AllSeated :
    (m : Assoc ℕ Channel) (users : Assoc ℕ User) (session : ℕ) (u : User)
    → Seated m session u
    → AllSeated m users
    → AllSeated m (btree_insert users session u)
insert-AllSeated m users session u v s j w h = elim (Bool-cases (session == j)) [
  | inl same ↦
      let e : session ≡ j = (==ℕ_iff session j).0 same in
      let f : u ≡ w = ground (arith, get-btree_insert users session j u) in
      subst (λ i. Seated m i w) e (subst (Seated m session) f v)
  | inr apart ↦
      let old : get users j ≡ some w = ground (arith, get-btree_insert users session j u) in
      s j w old
]

pub flags-AllSeated :
    (m : Assoc ℕ Channel) (users : Assoc ℕ User) (session : ℕ) (flags : UserFlags)
    → AllSeated m users
    → AllSeated m (update users session (λ u. record u { flags = flags }))
flags-AllSeated m users session flags s j w h =
    let found = get-update users session j (λ (u : User). record u { flags = flags }) in
    elim (Option-cases (get users j)) [
      | inl absent ↦ ground (arith, found)
      | inr (u, there) ↦
          let v = s j u there in
          elim (Bool-cases (session == j)) [
            | inl same ↦
                let e : record u { flags = flags } ≡ w = ground (arith, found) in
                subst (Seated m j) e (record {
                  keyed = v.keyed;
                  channel = v.channel;
                  there = v.there;
                  narrower = v.narrower;
                })
            | inr apart ↦ let e : u ≡ w = ground (arith, found) in subst (Seated m j) e v
          ]
    ]
