-- ===== src/Shard/Turn/Examples.antt =====
-- A connection with one free slot, and transitions that reach it.

use mumble_server_runtime.Base.{
  ℕ, ◌≡◌, refl, sym, ap, ◌∙◌, true, false, inl, inr, none, some, List, [], ◌∷◌, arith, map, ok,
  ◌==◌, nat_eq, ==ℕ_iff, Bool-cases,
}
use mumble_server_runtime.Base.Int.{pos}
use mumble_server_runtime.Base.Assoc.{get}
use mumble_server_runtime.Shard.Ids.{new as new_ids, connection_of}
use mumble_server_runtime.Shard.Scope.{root as root_scope}
use mumble_server_runtime.Shard.ScopeSet.{ScopeSet, sees}
use mumble_server_runtime.Shard.View.{
  User, default_flags, Channel, ShardView, empty_overlay, compose, restrict,
}
use mumble_server_runtime.Shard.Plan.{PlannedOp, create_channel, planned}
use mumble_server_runtime.Shard.Client.{shown}
use mumble_server_runtime.Shard.Journal as Journal
use mumble_server_runtime.Shard.Journal.{Journal, replay}
use mumble_server_runtime.Shard.Queue.Slots.{slots, one_free}
use mumble_server_runtime.Shard.Build.{missing_root}
use mumble_server_runtime.Shard.Build.Builder as Builder
use mumble_server_runtime.Shard.Turn.{
  Emitter, advanced, AttachedConnection, composed, push_ops, replan_ops, push, replan,
}
use mumble_server_runtime.Shard.Turn.Triplet.{Settled, messages_of, push-Settled}
use mumble_server_runtime.Shard.Turn.Shown.{IsIndexed, replan-shown}
use mumble_server_runtime.Shard.Turn.Reconcile.{Logic, Shard, reconcile}
use mumble_server_runtime.Shard.Turn.Versions.{IsVersioned}
use mumble_server_runtime.Shard.Turn.Requests.{for_tree, seen_user, visible_channel, descends_from}
use mumble_server_runtime.Shard.Client.Links.{Shows}
use mumble_server_runtime.Shard.Turn.Attached.{
  Step, attaches, detaches, drained, writes, turns, new, steps,
}
use mumble_server_runtime.Shard.Turn.History.{steps-IsVersioned}
use mumble_server_runtime.Shard.Turn.Speech.{Spoken, deliver}
use mumble_server_runtime.Shard.Turn.Audience.{IsBounded, IsDelivered, deliver-IsDelivered}
use mumble_server_runtime.Shard.Turn.Walk.{IsWalk, IsRanked, descends_from-IsWalk}

-- One message for each operation.
abbrev pub emitter : Emitter ℕ
emitter = record { emit = λ ops session. map (λ op. session) ops; actions = λ sent fresh. [] }

abbrev pub everything : ScopeSet
everything = record { scopes = some root_scope ∷ none ∷ none ∷ none ∷ [] }

abbrev pub lobby : Channel
lobby = record {
  key = 0;
  id = 0;
  parent = 0;
  scope = root_scope;
  name = "Lobby";
  position = pos 0;
  can_enter = true;
  can_text = true;
  links = [];
}

abbrev pub game : Channel
game = record lobby { key = 7; id = 1; name = "Game" }

abbrev pub nothing : ShardView
nothing = record { channels = []; users = [] }

abbrev pub opened : ShardView
opened = record { channels = (0, lobby) ∷ []; users = [] }

abbrev pub player : User
player = record {
  occupant = connection_of 1;
  session = 3;
  channel = 1;
  scope = root_scope;
  name = "A";
  flags = default_flags;
}

abbrev pub both : ShardView
both = record { channels = (0, lobby) ∷ (1, game) ∷ []; users = (3, player) ∷ [] }

abbrev pub attached : AttachedConnection slots
attached = record {
  id = 1;
  session = 3;
  cursor = 0;
  see = everything;
  overlay_sent = empty_overlay;
  actions_sent = [];
  held = none;
  ready = true;
  told = false;
  queue = one_free;
  shared_cursor = 0;
}

abbrev pub delta : List PlannedOp
delta = planned (create_channel lobby) root_scope ∷ []

abbrev pub journal : Journal PlannedOp
journal = record { tail = 0; head = 1; entries = delta ∷ [] }

replayed : replay journal 0 1 ≡ ok delta
unfolding replay
replayed = refl

push-Settled_example :
    let (b, outcome, retired) = push slots emitter attached journal 1 empty_overlay [] in
    let ops = push_ops slots attached delta empty_overlay in
    Settled slots attached 1 everything empty_overlay []
      (messages_of slots emitter attached ops [])
      ops
      b
      outcome
      retired
push-Settled_example = push-Settled slots emitter attached journal 1 empty_overlay [] delta replayed

empty-IsIndexed : IsIndexed (composed slots attached nothing)
unfolding composed restrict compose
empty-IsIndexed = record {
  channels_keyed = tt;
  users_keyed = tt;
  channels_distinct = tt;
  users_distinct = tt;
}

opened-IsIndexed : IsIndexed (compose (restrict opened everything) empty_overlay)
unfolding restrict compose sees get
opened-IsIndexed = record {
  channels_keyed = (refl, tt);
  users_keyed = tt;
  channels_distinct = (refl, tt);
  users_distinct = tt;
}

replanned :
    (replan slots emitter attached nothing opened 1 everything empty_overlay []).1 ≡ advanced
unfolding replan sees
replanned = refl

replan-shown_example :
    let b = (replan slots emitter attached nothing opened 1 everything empty_overlay []).0 in
    Shows
      (shown (composed slots attached nothing))
      (replan_ops slots attached nothing opened everything empty_overlay)
      (shown (composed slots b opened))
      0
replan-shown_example =
    replan-shown slots emitter attached nothing opened 1 everything empty_overlay [] 0
      empty-IsIndexed opened-IsIndexed replanned

abbrev pub fresh : Shard slots (Unit {0})
fresh = record {
  id = 1;
  logic = tt;
  ids = new_ids;
  view = nothing;
  journal = Journal.new;
  version = 0;
  connections = (1, attached) ∷ [];
  since = [];
  declared_audio = record { domains = []; listeners = []; edges = [] };
  declared_silence = record { muted = []; deafened = [] };
  session_of = [];
  routing = record {
    table = [];
    since_versions = [];
    silence = record { muted = []; deafened = [] };
  };
}

-- A flavor that renders a root, and one that renders nothing.
abbrev pub rooted : Logic (Unit {0})
rooted = record {
  render = λ l b. (l, (Builder.root b "Lobby").0);
  observation = λ l id. (l, everything);
}

abbrev pub rootless : Logic (Unit {0})
rootless = record { render = λ l b. (l, b); observation = λ l id. (l, everything) }

fresh-IsVersioned : IsVersioned slots fresh
fresh-IsVersioned = record {
  head = refl;
  bounded = omega arith;
  synced = (record { behind = omega arith; shared = refl }, tt);
}

advances : (reconcile slots emitter rooted fresh).1.version ≡ 1
unfolding reconcile Builder.root
advances = refl

refuses : (reconcile slots emitter rootless fresh).1.refused ≡ some missing_root
unfolding reconcile
refuses = refl

both-IsRanked : IsRanked slots both attached (λ id. id)
unfolding visible_channel get sees
both-IsRanked id rendered h = elim (Bool-cases (0 == id)) [
  | inl first ↦
      let e : 0 ≡ id = (==ℕ_iff 0 id).0 first in
      let seen : visible_channel slots both attached 0 ≡ some lobby = refl in
      let same : lobby ≡ rendered = cc in inl (sym (ap (λ (ch : Channel). ch.parent) same) ∙ e)
  | inr other ↦ elim (Bool-cases (1 == id)) [
    | inl second ↦
        let e : 1 ≡ id = (==ℕ_iff 1 id).0 second in
        let seen : visible_channel slots both attached 1 ≡ some game = refl in
        let same : game ≡ rendered = cc in
        let top : 0 ≡ rendered.parent = ap (λ (ch : Channel). ch.parent) same in inr (omega arith)
    | inr last ↦ let h' = rw (other, last) at h in cc
  ]
]

descends_from-IsWalk_example :
    IsWalk slots both attached 0 1 (descends_from slots both 2 attached 1 0)
descends_from-IsWalk_example =
    descends_from-IsWalk slots both attached (λ id. id) 2 1 0 both-IsRanked (omega arith)

whole-IsIndexed : IsIndexed both
unfolding get
whole-IsIndexed = record {
  channels_keyed = (refl, (refl, tt));
  users_keyed = (refl, tt);
  channels_distinct = (refl, (refl, tt));
  users_distinct = (refl, tt);
}

abbrev pub moves : List (Step slots)
moves =
    attaches 1 one_free nothing true
    ∷ turns
    ∷ writes 1 one_free.sender
    ∷ drained 1
    ∷ detaches 1 "gone" none
    ∷ []

steps-IsVersioned_example :
    IsVersioned slots (steps slots emitter rooted (new slots 1 tt new_ids) moves)
steps-IsVersioned_example = steps-IsVersioned slots emitter rooted 1 tt new_ids moves

attached-IsBounded : IsBounded slots both (λ id. id) 2 attached
unfolding seen_user get sees
attached-IsBounded = record {
  ranked = both-IsRanked;
  below = λ u seen.
      let same : player ≡ u = cc in
      let there : 1 ≡ u.channel = ap (λ (v : User). v.channel) same in omega arith;
}

-- The server speaks to whoever is below the lobby.
abbrev pub welcome : Spoken
welcome = record { from = none; to = for_tree 0; text = "Welcome" }

deliver-IsDelivered_example :
    IsDelivered slots both
      (λ speaker target text. 9)
      2
      new_ids
      1
      ((1, attached) ∷ [])
      welcome
      (deliver slots both (λ speaker target text. 9) 2 new_ids 1 ((1, attached) ∷ []) welcome)
deliver-IsDelivered_example =
    deliver-IsDelivered slots both (λ speaker target text. 9) (λ id. id) 2 new_ids 1
      ((1, attached) ∷ []) welcome (attached-IsBounded, tt)
