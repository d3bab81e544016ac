-- ===== src/Shard/Turn/Layered.antt =====
-- The views and overlays of a finished render, and of what a connection holds of them, keep each
-- entry once, under its own key.
use mumble_server_runtime.Base.{
  ℕ, ◌≡◌, sym, subst, ap, ◌∙◌, Bool, true, false, inl, inr, Option, none, some, [], ◌∷◌, ok, nat_eq,
  ◌==◌, ==ℕ_iff, Bool-cases, Option-cases, All, if◌then◌else◌,
}
use mumble_server_runtime.Base.Assoc.{
  Assoc, get, insert, IsDistinct, get-retain, insert-IsDistinct, retain-IsDistinct,
}
use mumble_server_runtime.Base.Order.{nat_order}
use mumble_server_runtime.Base.Btree.{IsOrdered-IsDistinct}
use mumble_server_runtime.Shard.ScopeSet.{ScopeSet, sees}
use mumble_server_runtime.Shard.View.{
  Channel, User, ShardView, Overlay, empty_overlay, restrict, extend, compose,
}
use mumble_server_runtime.Shard.View.Composed.{or_from, compose_lem}
use mumble_server_runtime.Shard.Build.{ShardBuilder, Rendered}
use mumble_server_runtime.Shard.Build.Builder.{or_default}
use mumble_server_runtime.Shard.Build.Checks.{finish}
use mumble_server_runtime.Shard.Build.Coherent.{IsClosed}
use mumble_server_runtime.Shard.Build.Finish.{finish-IsFinished, finish-IsFitting}
use mumble_server_runtime.Shard.Build.Layers.{
  Keyed, Keyed-All, IsLayer, AllLayers, empty_overlay-IsLayer,
}
use mumble_server_runtime.Shard.Build.Overlays.{IsDisjoint}
use mumble_server_runtime.Shard.Turn.Shown.{IsIndexed}
use mumble_server_runtime.Shard.Turn.Caught.{IsLayered}

All-Keyed :
    {V : Type 0} (own : V → ℕ) (m : Assoc ℕ V) → All (λ (e : ℕ × V). own e.1 ≡ e.0) m → Keyed own m
unfolding get
All-Keyed own [] h k v there = cc
All-Keyed own ((j, w) ∷ m) h k v there = elim (Bool-cases (j == k)) [
  | inl hit ↦
      let there' : some w ≡ some v = rw hit at there in
      let e : w ≡ v = cc in sym (ap own e) ∙ h.0 ∙ (==ℕ_iff j k).0 hit
  | inr other ↦ All-Keyed own m h.1 k v (rw other at there)
]

extend-IsDistinct : {V : Type 0} (m more : Assoc ℕ V) → IsDistinct m → IsDistinct (extend m more)
unfolding extend
extend-IsDistinct m [] d = d
extend-IsDistinct m ((k, v) ∷ more) d =
    extend-IsDistinct (insert m k v) more (insert-IsDistinct m k v d)

if_kept :
    {V : Type 0} (b : Bool) (w v : V) → (if b then some w else none) ≡ some v → some w ≡ some v
if_kept true w v e = e
if_kept false w v e = cc

retain-Keyed :
    {V : Type 0} (own : V → ℕ) (keep : ℕ → V → Bool) (m : Assoc ℕ V) (k : ℕ) (v : V)
    → IsDistinct m
    → Keyed own m
    → (elim (get m k) [ none ↦ none | some w ↦ if keep k w then some w else none ]) ≡ some v
    → own v ≡ k
retain-Keyed own keep m k v d h there = elim (Option-cases (get m k)) [
  | inl gone ↦ let there' = rw gone at there in cc
  | inr (w, held) ↦
      let there' : (if keep k w then some w else none) ≡ some v = rw held at there in
      h k v (held ∙ if_kept (keep k w) w v there')
]

or_from-Keyed :
    {V : Type 0} (own : V → ℕ) (k : ℕ) (v : V) (over under : Option V)
    → ((w : V) → over ≡ some w → own w ≡ k)
    → ((w : V) → under ≡ some w → own w ≡ k)
    → or_from over under ≡ some v
    → own v ≡ k
or_from-Keyed own k v none under h g there = g v there
or_from-Keyed own k v (some w) under h g there = h v there

-- What a connection holds of an indexed view, with its overlay on top, is indexed too.
pub compose-IsIndexed :
    (view : ShardView) (see : ScopeSet) (overlay : Overlay)
    → IsIndexed view
    → IsLayered view overlay
    → IsIndexed (compose (restrict view see) overlay)
unfolding compose restrict
compose-IsIndexed view see overlay v l =
    let see_channel = λ (k : ℕ) (channel : Channel). sees see channel.scope in
    let see_user = λ (k : ℕ) (user : User). sees see user.scope in
    let channels =
      extend-IsDistinct (restrict view see).channels overlay.channels
        (retain-IsDistinct see_channel view.channels v.channels_distinct) in
    let users =
      extend-IsDistinct (restrict view see).users overlay.users
        (retain-IsDistinct see_user view.users v.users_distinct) in
    record {
      channels_keyed =
          Keyed-All (λ (ch : Channel). ch.id) _ channels
            (λ k ch there.
              or_from-Keyed (λ (ch : Channel). ch.id) k ch (get overlay.channels k)
                (get (restrict view see).channels k)
                (All-Keyed (λ (ch : Channel). ch.id) overlay.channels l.channels_keyed k)
                (λ w under.
                  retain-Keyed (λ (ch : Channel). ch.id) see_channel view.channels k w
                    v.channels_distinct
                    (All-Keyed (λ (ch : Channel). ch.id) view.channels v.channels_keyed)
                    (sym (get-retain see_channel view.channels k v.channels_distinct) ∙ under))
                (sym
                    (compose_lem (restrict view see) overlay k l.channels_distinct
                      l.users_distinct).0
                  ∙ there));
      users_keyed =
          Keyed-All (λ (u : User). u.session) _ users
            (λ k u there.
              or_from-Keyed (λ (u : User). u.session) k u (get overlay.users k)
                (get (restrict view see).users k)
                (All-Keyed (λ (u : User). u.session) overlay.users l.users_keyed k)
                (λ w under.
                  retain-Keyed (λ (u : User). u.session) see_user view.users k w v.users_distinct
                    (All-Keyed (λ (u : User). u.session) view.users v.users_keyed)
                    (sym (get-retain see_user view.users k v.users_distinct) ∙ under))
                (sym
                    (compose_lem (restrict view see) overlay k l.channels_distinct
                      l.users_distinct).1
                  ∙ there));
      channels_distinct = channels;
      users_distinct = users;
    }

closed-IsIndexed : (view : ShardView) → IsClosed view → IsIndexed view
closed-IsIndexed view v =
    let channels = IsOrdered-IsDistinct view.channels v.channels_ordered in
    let users = IsOrdered-IsDistinct view.users v.users_ordered in
    record {
      channels_keyed =
          Keyed-All (λ (ch : Channel). ch.id) view.channels channels
            (λ k ch there. (v.tree k ch there).keyed);
      users_keyed =
          Keyed-All (λ (u : User). u.session) view.users users
            (λ k u there. (v.seated k u there).keyed);
      channels_distinct = channels;
      users_distinct = users;
    }

layer-IsLayered :
    (view : ShardView) (overlay : Overlay)
    → IsLayer overlay
    → IsDisjoint view overlay
    → IsLayered view overlay
layer-IsLayered view overlay v disjoint =
    let channels = IsOrdered-IsDistinct overlay.channels v.channels_ordered in
    let users = IsOrdered-IsDistinct overlay.users v.users_ordered in
    record {
      channels_keyed =
          Keyed-All (λ (ch : Channel). ch.id) overlay.channels channels v.channels_keyed;
      users_keyed = Keyed-All (λ (u : User). u.session) overlay.users users v.users_keyed;
      channels_distinct = channels;
      users_distinct = users;
      disjoint = disjoint;
    }

pub finished-IsIndexed :
    (b : ShardBuilder) (observations : Assoc ℕ ScopeSet) (rendered : Rendered)
    → IsClosed b.view
    → finish b observations ≡ ok rendered
    → IsIndexed rendered.view
finished-IsIndexed b observations rendered v h =
    let f = finish-IsFinished b observations rendered h in
    subst IsIndexed (sym f.view) (closed-IsIndexed b.view v)

pub finished-IsLayered :
    (b : ShardBuilder) (observations : Assoc ℕ ScopeSet) (rendered : Rendered) (id : ℕ)
    → AllLayers b.overlays
    → finish b observations ≡ ok rendered
    → IsLayered rendered.view (or_default empty_overlay (get rendered.overlays id))
unfolding get
finished-IsLayered b observations rendered id v h = elim (Option-cases (get rendered.overlays id)) [
  | inl without ↦ rw without (
      layer-IsLayered rendered.view empty_overlay empty_overlay-IsLayer
        (record { users = λ session u g. cc; channels = λ id ch g. cc }))
  | inr (overlay, there) ↦
      let f = finish-IsFinished b observations rendered h in
      rw there (
        layer-IsLayered rendered.view overlay
          (v id overlay (sym (ap (λ m. get m id) f.overlays) ∙ there))
          (finish-IsFitting b observations rendered id overlay h there).disjoint)
]
