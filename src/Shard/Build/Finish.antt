-- ===== src/Shard/Build/Finish.antt =====
-- What `finish` returns: the first refusal, or a view that its observers see whole and overlays that
-- refer only to what their connections see.
use mumble_server_runtime.Base.{
  ℕ, ◌≡◌, refl, sym, ap, ◌∙◌, subst, true, inl, inr, none, some, List, arith, ok, nat_eq,
  Bool-cases, Option-cases,
}
use mumble_server_runtime.Base.Fallible.{◌>>◌}
use mumble_server_runtime.Base.Assoc.{Assoc, get, get-retain}
use mumble_server_runtime.Base.Order.{nat_order}
use mumble_server_runtime.Base.Btree.{IsOrdered-IsDistinct}
use mumble_server_runtime.Shard.ScopeSet.{ScopeSet, sees}
use mumble_server_runtime.Shard.ScopeSet.Canonical.{sees-prefix}
use mumble_server_runtime.Shard.View.{Channel, User, ShardView, Overlay, restrict}
use mumble_server_runtime.Shard.Ids.{IdAllocator}
use mumble_server_runtime.Shard.Ids.Operations.{IsAllocator}
use mumble_server_runtime.Shard.Build.{ShardBuilder, Rendered}
use mumble_server_runtime.Shard.Build.Coherent.{IsClosed}
use mumble_server_runtime.Shard.Build.Calls.{Call, calls}
use mumble_server_runtime.Shard.Build.Render.{opened, render-IsClosed}
use mumble_server_runtime.Shard.Build.Checks.{
  check_shared_xor_private, observed, check_overlay_references, check_receivers_see_senders, finish,
  rendered_of,
}
use mumble_server_runtime.Shard.Build.Checks.Passed.{then-ok}
use mumble_server_runtime.Shard.Build.Overlays.{IsFitting, checked-IsFitting}

-- What a finished render consists of.
pub record IsFinished (b : ShardBuilder) (observations : Assoc ℕ ScopeSet) (rendered : Rendered)
    : Type 0 where
  pub no_refusal : b.error ≡ none
  pub rooted : b.rooted ≡ true
  pub exclusive : check_shared_xor_private b.view b.overlays ≡ ok tt
  pub referring : check_overlay_references b.view b.overlays observations ≡ ok tt
  pub audible : check_receivers_see_senders b.view b.overlays b.audio observations ≡ ok tt
  pub view : rendered.view ≡ b.view
  pub overlays : rendered.overlays ≡ b.overlays
  pub audio : rendered.audio ≡ b.audio

pub finish-IsFinished :
    (b : ShardBuilder) (observations : Assoc ℕ ScopeSet) (rendered : Rendered)
    → finish b observations ≡ ok rendered
    → IsFinished b observations rendered
unfolding finish
finish-IsFinished b observations rendered h = elim (Option-cases b.error) [
  | inr (e, refused) ↦ let h' = rw (refused, finish) at h in cc
  | inl fine ↦ elim (Bool-cases b.rooted) [
    | inr bare ↦ let h' = rw (fine, bare, finish) at h in cc
    | inl has_root ↦
        let h' = rw (fine, has_root, finish) at h in
        let one = check_shared_xor_private b.view b.overlays in
        let two = check_overlay_references b.view b.overlays observations in
        let three = check_receivers_see_senders b.view b.overlays b.audio observations in
        let (checks, e) = then-ok (one >> two >> three) (ok (rendered_of b)) rendered h' in
        let (first, audible) = then-ok (one >> two) three tt checks in
        let (exclusive, referring) = then-ok one two tt first in
        let same : rendered_of b ≡ rendered = ground (arith, e) in
        record {
          no_refusal = fine;
          rooted = has_root;
          exclusive = exclusive;
          referring = referring;
          audible = audible;
          view = ap (λ r. r.view) (sym same);
          overlays = ap (λ r. r.overlays) (sym same);
          audio = ap (λ r. r.audio) (sym same);
        }
  ]
]

-- Of a finished render every overlay fits the view: none of its users and channels is in the view,
-- and its users stand in, and its channels under, a channel of its own or one of the view that the
-- connection sees.
pub finish-IsFitting :
    (b : ShardBuilder) (observations : Assoc ℕ ScopeSet) (rendered : Rendered) (connection : ℕ)
    (overlay : Overlay)
    → finish b observations ≡ ok rendered
    → get rendered.overlays connection ≡ some overlay
    → IsFitting rendered.view (observed observations connection) overlay
finish-IsFitting b observations rendered connection overlay h g =
    let f = finish-IsFinished b observations rendered h in
    subst (λ v. IsFitting v (observed observations connection) overlay) (sym f.view)
      (checked-IsFitting b.view b.overlays observations connection overlay f.exclusive f.referring
        (sym (ap (λ m. get m connection) f.overlays) ∙ g))

restricted_user :
    (view : ShardView) (see : ScopeSet) (session : ℕ) (u : User)
    → IsClosed view
    → get (restrict view see).users session ≡ some u
    → (get view.users session ≡ some u) × (sees see u.scope ≡ true)
unfolding restrict
restricted_user view see session u c h = ground (
  arith,
  get-retain (λ _ user. sees see user.scope) view.users session
      (IsOrdered-IsDistinct view.users c.users_ordered),
)

restricted_channel :
    (view : ShardView) (see : ScopeSet) (id : ℕ) (c : Channel)
    → IsClosed view
    → get (restrict view see).channels id ≡ some c
    → (get view.channels id ≡ some c) × (sees see c.scope ≡ true)
unfolding restrict
restricted_channel view see id c v h = ground (
  arith,
  get-retain (λ _ channel. sees see channel.scope) view.channels id
      (IsOrdered-IsDistinct view.channels v.channels_ordered),
)

seen_channel :
    (view : ShardView) (see : ScopeSet) (id : ℕ) (c : Channel)
    → IsClosed view
    → get view.channels id ≡ some c
    → sees see c.scope ≡ true
    → get (restrict view see).channels id ≡ some c
unfolding restrict
seen_channel view see id c v h s =
    get-retain (λ _ channel. sees see channel.scope) view.channels id
      (IsOrdered-IsDistinct view.channels v.channels_ordered)
    ∙ rw (h, s) refl

-- What an observer sees of the view is whole: the channel of each user, and the parent of each
-- channel, is there too.
pub record IsWhole (view : ShardView) : Type 0 where
  pub seats :
      (session : ℕ) (u : User)
      → get view.users session ≡ some u
      → (c : Channel) × (get view.channels u.channel ≡ some c)
  pub parents :
      (id : ℕ) (c : Channel)
      → get view.channels id ≡ some c
      → (p : Channel) × (get view.channels c.parent ≡ some p)

closed-IsWhole : (view : ShardView) (see : ScopeSet) → IsClosed view → IsWhole (restrict view see)
closed-IsWhole view see v = record {
  seats = λ session u h.
      let (there, seen) = restricted_user view see session u v h in
      let seat = v.seated session u there in
      (
        seat.channel,
        seen_channel view see u.channel seat.channel v seat.there
            (sees-prefix see seat.channel.scope u.scope seat.narrower seen),
      );
  parents = λ id c h.
      let (there, seen) = restricted_channel view see id c v h in
      let node = v.tree id c there in
      (
        node.parent,
        seen_channel view see c.parent node.parent v node.there
            (sees-prefix see node.parent.scope c.scope node.narrower seen),
      );
}

-- Of a render that a flavor finishes, whatever it called before, where its shared calls named no handle
-- of a private channel, every observer sees a whole view: with a user it sees the user's channel, and with a channel the channel's parent.
pub finish-IsWhole :
    (ids : IdAllocator) (shard : ℕ) (connections : List ℕ) (cs : List Call)
    (observations : Assoc ℕ ScopeSet) (rendered : Rendered) (see : ScopeSet)
    → IsAllocator ids
    → finish (calls (opened ids shard connections) cs).builder observations ≡ ok rendered
    → IsWhole (restrict rendered.view see)
finish-IsWhole ids shard connections cs observations rendered see v h =
    let f =
      finish-IsFinished (calls (opened ids shard connections) cs).builder observations rendered h in
    subst (λ w. IsWhole (restrict w see)) (sym f.view)
      (closed-IsWhole (calls (opened ids shard connections) cs).builder.view see
        (render-IsClosed ids shard connections cs v))
