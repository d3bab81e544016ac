-- ===== src/Shard/Client/Channels.antt =====
-- A planned transition, filtered for an observer, gives every channel the state that the new view
-- shows the observer.
pub mod Spliced
use mumble_server_runtime.Base.{
  ℕ, suc, ◌≡◌, refl, sym, subst, ap, ap₂, ◌∙◌, inl, inr, Bool, true, false, not, ◌&&◌, ◌||◌, Option,
  none, some, List, [], ◌∷◌, ◌++◌, arith, filter, nat_eq, bool_eq, string_eq, ◌==◌, eq_self,
  if◌then◌else◌, Bool-cases,
}
use mumble_server_runtime.Base.Int.{int_eq}
use mumble_server_runtime.Base.Assoc.{Assoc, get, IsDistinct, get-retain}
use mumble_server_runtime.Base.Order.{contains, nat_order, contains-filter}
use mumble_server_runtime.Shard.Scope.{Scope, scope_eq, scope_beq_iff}
use mumble_server_runtime.Shard.ScopeSet.{ScopeSet, sees}
use mumble_server_runtime.Shard.View.{Channel, ShardView, restrict}
use mumble_server_runtime.Shard.Plan.{
  PlanOp, PlannedOp, planned, create_channel, update_channel, add_user, move_user, update_user,
  remove_user, remove_channel, channel_element, added, removed, channel_patch, channel_is_noop,
  channel_change, channel_step, plan, ChannelPatch, difference, is_nil, is_none,
}
use mumble_server_runtime.Shard.Plan.Channels.{
  about, IsKeyed, id_matches, own_phases, own_gone, own_ops, plan-own,
}
use mumble_server_runtime.Shard.Compose.{filter_ops, added_contains, kept, collapse, ◌is_added_by◌}
use mumble_server_runtime.Shard.Client.Links.{replace_channel, sent_bare, IsShown, sent-IsShown}
use mumble_server_runtime.Shard.Client.Element.{run, kept_own, own_collapsed, own_effect}
use mumble_server_runtime.Shard.Client.{
  ShownChannel, shown_channel, patched_channel, act_channel, or_else_changed, eq_of_unchanged,
  ClientView, apply, apply_all, shown, shown_option,
}

pub channels-apply_all :
    (ops : List PlanOp) (v : ClientView) (c : ℕ)
    → (apply_all v ops).channels c ≡ run (act_channel c) (v.channels c) ops
unfolding apply_all run
channels-apply_all [] v c = refl
channels-apply_all (op ∷ ops) v c = channels-apply_all ops (apply v op) c

-- What a client that replaces whole shows, the client shows too, but for the links of a channel that
-- is sent without any.
pub shown_by_replacing :
    (k : ℕ) (v : ClientView) (ops : List PlanOp) (due : Option ShownChannel)
    → run (replace_channel (suc k)) (v.channels (suc k)) ops ≡ due
    → IsShown (sent_bare (suc k) (v.channels (suc k)) ops) ((apply_all v ops).channels (suc k)) due
shown_by_replacing k v ops due h =
    let bare = sent_bare (suc k) (v.channels (suc k)) ops in
    subst (λ now. IsShown bare now due) (sym (channels-apply_all ops v (suc k)))
      (subst (IsShown bare (run (act_channel (suc k)) (v.channels (suc k)) ops)) h
        (sent-IsShown k (v.channels (suc k)) ops))

act_other :
    (c : ℕ) (st : Option ShownChannel) (op : PlanOp)
    → about c op ≡ false
    → replace_channel c st op ≡ st
unfolding replace_channel
act_other c st op h = ground arith

not_added : (c : ℕ) (op : PlanOp) → about c op ≡ false → (channel_element c is_added_by op) ≡ false
unfolding added
not_added c op h = ground arith

kept-about :
    (c : ℕ) (ops : List PlanOp) (op : PlanOp)
    → about c op ≡ true
    → kept ops op ≡ kept_own (added_contains ops (channel_element c)) op
unfolding removed
kept-about c ops (remove_channel id) h =
    let e : id ≡ c = ground arith in ap (λ t. not (added_contains ops (channel_element t))) e
kept-about c ops (create_channel channel) h = refl
kept-about c ops (update_channel p) h = refl
kept-about c ops (remove_user s) h = cc
kept-about c ops (add_user user) h = refl
kept-about c ops (move_user session channel) h = refl
kept-about c ops (update_user p) h = refl

-- What an observer sees of an entry.
abbrev visible : ScopeSet → Option Channel → Option Channel
visible see none = none
visible see (some channel) = if sees see channel.scope then some channel else none

-- The links that a patch leaves out and puts in turn the old set into the new one.
links-difference :
    (old new : List ℕ) (x : ℕ)
    → ((contains old x && not (contains (difference old new) x)) || contains (difference new old) x)
      ≡ contains new x
links-difference old new x =
    rw
      (
        contains-filter (λ y. not (contains new y)) old x,
        contains-filter (λ y. not (contains old y)) new x,
      )
      (by_cases (contains old x) (contains new x))
  where
    by_cases : (a b : Bool) → ((a && not (a && not b)) || (b && not a)) ≡ b
    by_cases true true = refl
    by_cases true false = refl
    by_cases false true = refl
    by_cases false false = refl

nil_contains : (zs : List ℕ) (x : ℕ) → is_nil zs ≡ true → contains zs x ≡ false
nil_contains [] x h = refl
nil_contains (z ∷ zs) x h = ground arith

no_difference :
    (xs ys : List ℕ) (x : ℕ)
    → is_nil (difference xs ys) ≡ true
    → contains ys x ≡ false
    → contains xs x ≡ false
no_difference xs ys x h out =
    let e =
      sym (contains-filter (λ y. not (contains ys y)) xs x) ∙ nil_contains (difference xs ys) x h in
    ground (arith, e)

noop_fields :
    (p : ChannelPatch)
    → channel_is_noop p ≡ true
    → (is_none p.parent ≡ true)
      × (is_none p.name ≡ true)
      × (is_none p.position ≡ true)
      × (is_none p.can_enter ≡ true)
      × (is_nil p.links_added ≡ true)
      × (is_nil p.links_removed ≡ true)
unfolding channel_is_noop
noop_fields p h =
    (ground arith, ground arith, ground arith, ground arith, ground arith, ground arith)

patched-shown :
    (old new : Channel)
    → patched_channel (channel_patch old new) (shown_channel old) ≡ shown_channel new
unfolding channel_patch
patched-shown old new = λ i. record {
  parent = or_else_changed old.parent new.parent i;
  name = or_else_changed old.name new.name i;
  position = or_else_changed old.position new.position i;
  can_enter = or_else_changed old.can_enter new.can_enter i;
  links = λ x. links-difference old.links new.links x i;
}

same_links :
    (xs ys : List ℕ) (x : ℕ)
    → is_nil (difference xs ys) ≡ true
    → is_nil (difference ys xs) ≡ true
    → contains xs x ≡ contains ys x
same_links xs ys x h k = ground (arith, no_difference xs ys x h, no_difference ys xs x k)

noop-shown :
    (old new : Channel)
    → channel_is_noop (channel_patch old new) ≡ true
    → shown_channel old ≡ shown_channel new
unfolding channel_patch channel_is_noop
noop-shown old new h =
    let (parent, name, position, can_enter, links_added, links_removed) =
      noop_fields (channel_patch old new) h in
    λ i. record {
      parent = eq_of_unchanged old.parent new.parent parent i;
      name = eq_of_unchanged old.name new.name name i;
      position = eq_of_unchanged old.position new.position position i;
      can_enter = eq_of_unchanged old.can_enter new.can_enter can_enter i;
      links = λ x. same_links old.links new.links x links_removed links_added i;
    }

act_update :
    (c : ℕ) (old new : Channel) (st : ShownChannel)
    → new.id ≡ c
    → replace_channel c (some st) (update_channel (channel_patch old new))
      ≡ some (patched_channel (channel_patch old new) st)
unfolding replace_channel channel_patch
act_update c old new st k = rw (k, eq_self c)

act_create :
    (c : ℕ) (new : Channel) (st : Option ShownChannel)
    → new.id ≡ c
    → replace_channel c st (create_channel new) ≡ some (shown_channel new)
unfolding replace_channel
act_create c new st k = rw (k, eq_self c)

act_remove : (c : ℕ) (st : Option ShownChannel) → replace_channel c st (remove_channel c) ≡ none
unfolding replace_channel
act_remove c st = rw (eq_self c)

-- The update of a change within one scope, there or left out.
abbrev change_ops : Bool → ChannelPatch → Scope → List PlannedOp
change_ops same p scope = (if same then [] else planned (update_channel p) scope ∷ []) ++ []

abbrev change_of : Channel → Channel → List PlannedOp
change_of old new =
    change_ops (channel_is_noop (channel_patch old new)) (channel_patch old new) new.scope

-- Neither creates nor removes the channel.
change_kept :
    (b same : Bool) (p : ChannelPatch) (scope : Scope) (see : ScopeSet)
    → let ops = filter_ops (change_ops same p scope) see in filter (kept_own b) ops ≡ ops
unfolding filter_ops
change_kept b true p scope see = refl
change_kept b false p scope see = ground arith

-- Within one scope that the observer sees, the update gives the new state.
change_effect :
    (c : ℕ) (old new : Channel) (see : ScopeSet)
    → new.id ≡ c
    → sees see new.scope ≡ true
    → run (replace_channel c) (some (shown_channel old)) (filter_ops (change_of old new) see)
      ≡ some (shown_channel new)
unfolding run filter_ops
change_effect c old new see k v = elim (Bool-cases (channel_is_noop (channel_patch old new))) [
  | inl same ↦ rw same (ap some (noop-shown old new same))
  | inr other ↦
      rw (other, v, act_update c old new (shown_channel old) k) (ap some (patched-shown old new))
]

change_unseen :
    (same : Bool) (p : ChannelPatch) (scope : Scope) (see : ScopeSet)
    → sees see scope ≡ false
    → filter_ops (change_ops same p scope) see ≡ []
unfolding filter_ops
change_unseen true p scope see v = refl
change_unseen false p scope see v = rw v

same_scope_result :
    (c : ℕ) (see : ScopeSet) (old new : Channel) (b : Bool)
    → new.id ≡ c
    → old.scope ≡ new.scope
    → run
        (replace_channel c)
        (shown_option shown_channel (visible see (some old)))
        (filter (kept_own b) (filter_ops (change_of old new) see))
      ≡ shown_option shown_channel (visible see (some new))
unfolding run
same_scope_result c see old new b k e =
    let same = channel_is_noop (channel_patch old new) in
    let kept_all = change_kept b same (channel_patch old new) new.scope see in
    elim (Bool-cases (sees see new.scope)) [
      | inl v ↦ rw (kept_all, ap (sees see) e ∙ v, v) (change_effect c old new see k v)
      | inr v ↦ rw (
        kept_all,
        ap (sees see) e ∙ v,
        v,
        change_unseen same (channel_patch old new) new.scope see v,
      )
    ]

-- Between scopes the channel is created anew, and its removal is dropped if the creation is seen.
abbrev crossing_of : Channel → Channel → ℕ → List PlannedOp
crossing_of old new c =
    planned (create_channel new) new.scope ∷ planned (remove_channel c) old.scope ∷ []

crossing_result :
    (c : ℕ) (see : ScopeSet) (old new : Channel)
    → new.id ≡ c
    → let ops = filter_ops (crossing_of old new c) see in
      run
        (replace_channel c)
        (shown_option shown_channel (visible see (some old)))
        (own_collapsed (channel_element c) ops)
      ≡ shown_option shown_channel (visible see (some new))
unfolding run filter_ops added
crossing_result c see old new k = elim (Bool-cases (sees see new.scope)) [
  | inl v ↦ elim (Bool-cases (sees see old.scope)) [
    | inl w ↦ rw (v, w, id_matches c new k) (act_create c new (some (shown_channel old)) k)
    | inr w ↦ rw (v, w) (act_create c new none k)
  ]
  | inr v ↦ elim (Bool-cases (sees see old.scope)) [
    | inl w ↦ rw (v, w) (act_remove c (some (shown_channel old)))
    | inr w ↦ rw (v, w)
  ]
]

-- Whatever the two entries of a channel are, the observer's transition leads from what it saw of
-- the one to what it sees of the other.
own_result :
    (c : ℕ) (see : ScopeSet) (before after : Option Channel)
    → ((channel : Channel) → after ≡ some channel → channel.id ≡ c)
    → let ops = filter_ops (own_ops (own_phases c before after) (own_gone c before after)) see in
      run
        (replace_channel c)
        (shown_option shown_channel (visible see before))
        (own_collapsed (channel_element c) ops)
      ≡ shown_option shown_channel (visible see after)
unfolding run filter_ops channel_step channel_change added
own_result c see none none k = refl
own_result c see (some old) none k = elim (Bool-cases (sees see old.scope)) [
  | inl v ↦ rw v (act_remove c (some (shown_channel old)))
  | inr v ↦ rw v
]
own_result c see none (some new) k = elim (Bool-cases (sees see new.scope)) [
  | inl v ↦ rw v (act_create c new none (k new refl))
  | inr v ↦ rw v
]
own_result c see (some old) (some new) k = elim (Bool-cases (old.scope == new.scope)) [
  | inl same ↦
      rw same (
        same_scope_result c see old new _ (k new refl) ((scope_beq_iff old.scope new.scope).0 same))
  | inr moved ↦ rw moved (crossing_result c see old new (k new refl))
]

get-keyed :
    (m : Assoc ℕ Channel) (c : ℕ) (channel : Channel)
    → IsKeyed m
    → get m c ≡ some channel
    → channel.id ≡ c
unfolding get
get-keyed [] c channel k h = cc
get-keyed ((id, v) ∷ m) c channel k h = ground (arith, get-keyed m c channel k.1)

channels-restrict :
    (view : ShardView) (see : ScopeSet) (c : ℕ)
    → IsDistinct view.channels
    → get (restrict view see).channels c ≡ visible see (get view.channels c)
unfolding restrict
channels-restrict view see c d =
    get-retain (λ _ channel. sees see channel.scope) view.channels c d
    ∙ as_visible (get view.channels c)
  where
    as_visible :
        (o : Option Channel)
        → (elim o [ none ↦ none | some x ↦ if sees see x.scope then some x else none ])
          ≡ visible see o
    as_visible none = refl
    as_visible (some x) = refl

-- The same for a client that replaces each channel that is sent.
pub channels_replaced :
    (before after : ShardView) (see : ScopeSet) (c : ℕ)
    → IsKeyed after.channels
    → IsDistinct before.channels
    → IsDistinct after.channels
    → run
        (replace_channel c)
        ((shown (restrict before see)).channels c)
        (collapse (filter_ops (plan before after) see))
      ≡ (shown (restrict after see)).channels c
unfolding shown
channels_replaced before after see c k d e =
    let st = shown_option shown_channel (get (restrict before see).channels c) in
    let effect = λ (x : Option ShownChannel) (l : List PlannedOp).
      run (replace_channel c) x (own_collapsed (channel_element c) (filter_ops l see)) in
    own_effect (about c) (replace_channel c) (channel_element c) (act_other c) (not_added c)
      (kept-about c) (plan before after) see st
    ∙ ap₂ effect (ap (shown_option shown_channel) (channels-restrict before see c d))
        (plan-own c before after k d e)
    ∙ own_result c see (get before.channels c) (get after.channels c)
        (λ x. get-keyed after.channels c x k)
    ∙ sym (ap (shown_option shown_channel) (channels-restrict after see c e))

-- A transition planned from one view to another, filtered for an observer and collapsed, takes a
-- client that shows what the observer saw of the first view to one that shows, of every channel but
-- the root, what the observer sees of the second, or nothing: its parent, name, position and whether
-- it can be entered, and exactly its links, where no operation sends it anew without links while the
-- client shows it; where one does, at least its links.
pub channels_refine :
    (before after : ShardView) (see : ScopeSet) (k : ℕ)
    → IsKeyed after.channels
    → IsDistinct before.channels
    → IsDistinct after.channels
    → let held = shown (restrict before see) in
      let ops = collapse (filter_ops (plan before after) see) in
      IsShown
        (sent_bare (suc k) (held.channels (suc k)) ops)
        ((apply_all held ops).channels (suc k))
        ((shown (restrict after see)).channels (suc k))
channels_refine before after see k keyed d e =
    shown_by_replacing k (shown (restrict before see))
      (collapse (filter_ops (plan before after) see)) _
      (channels_replaced before after see (suc k) keyed d e)
