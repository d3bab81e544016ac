-- ===== src/Shard/Turn/Clients.antt =====
-- Transitions that leave a client with what the shard holds it to show.
use mumble_server_runtime.Base.{
  ℕ, ◌≡◌, refl, true, inr, none, some, List, [], ◌∷◌, ◌++◌, arith, length, ok, nat_eq,
}
use mumble_server_runtime.Base.Assoc.{get}
use mumble_server_runtime.Shard.Ids.{new as new_ids}
use mumble_server_runtime.Shard.ScopeSet.{sees}
use mumble_server_runtime.Shard.View.{ShardView, empty_overlay}
use mumble_server_runtime.Shard.Plan.{PlannedOp, plan}
use mumble_server_runtime.Shard.Client.{shown}
use mumble_server_runtime.Shard.Journal.{Journal, replay}
use mumble_server_runtime.Shard.Queue.Slots.{slots, one_free}
use mumble_server_runtime.Shard.Build.Builder as Builder
use mumble_server_runtime.Shard.Turn.{advanced, AttachedConnection, composed, push_ops, push}
use mumble_server_runtime.Shard.Turn.Triplet.{messages_of}
use mumble_server_runtime.Shard.Turn.Shown.{IsIndexed}
use mumble_server_runtime.Shard.Turn.Reconcile.{Shard, reconcile}
use mumble_server_runtime.Shard.Turn.Attached.{
  Step, attaches, fresh as fresh_connection, new, steps,
}
use mumble_server_runtime.Shard.Turn.Caught.{IsLayered, push-shown}
use mumble_server_runtime.Shard.Turn.Steady.{IsFlavor, IsCurrent, IsTurned}
use mumble_server_runtime.Shard.Turn.Reachable.{steps-IsTurned}
use mumble_server_runtime.Shard.Client.Links.{Shows}
use mumble_server_runtime.Shard.Build.Calls.{calls, render_root}
use mumble_server_runtime.Shard.Ids.Operations.{new-IsAllocator}
use mumble_server_runtime.Shard.Journal.Window.{IsWindow}
use mumble_server_runtime.Shard.Queue.Progress.{HasRoom}
use mumble_server_runtime.Shard.Turn.Attached.{retry}
use mumble_server_runtime.Shard.Turn.Progress.{retry-caught_up}
use mumble_server_runtime.Shard.Turn.Examples.{attached, emitter, fresh, nothing, opened, rooted}

layered : (view : ShardView) → IsLayered view empty_overlay
unfolding get
layered view = record {
  channels_keyed = tt;
  users_keyed = tt;
  channels_distinct = tt;
  users_distinct = tt;
  disjoint = record { users = λ session u h. cc; channels = λ id ch h. cc };
}

nothing-IsIndexed : IsIndexed nothing
nothing-IsIndexed = record {
  channels_keyed = tt;
  users_keyed = tt;
  channels_distinct = tt;
  users_distinct = tt;
}

lobby-IsIndexed : IsIndexed opened
unfolding get
lobby-IsIndexed = record {
  channels_keyed = (refl, tt);
  users_keyed = tt;
  channels_distinct = (refl, tt);
  users_distinct = tt;
}

abbrev opening : List PlannedOp
opening = plan nothing opened

abbrev opened_journal : Journal PlannedOp
opened_journal = record { tail = 0; head = 1; entries = opening ∷ [] }

pushed : (push slots emitter attached opened_journal 1 empty_overlay []).1 ≡ advanced
unfolding push plan sees
pushed = refl

reaches : replay opened_journal 0 1 ≡ ok opening
unfolding replay plan
reaches = refl

push-shown_example :
    let b = (push slots emitter attached opened_journal 1 empty_overlay []).0 in
    Shows
      (shown (composed slots attached nothing))
      (push_ops slots attached (plan nothing opened) empty_overlay)
      (shown (composed slots b opened))
      0
push-shown_example =
    push-shown slots emitter attached nothing opened opened_journal 1 empty_overlay [] 0 refl
      reaches nothing-IsIndexed lobby-IsIndexed (layered nothing) (layered opened) pushed

rooted-IsFlavor : IsFlavor rooted
unfolding calls
rooted-IsFlavor l b = (render_root "Lobby" ∷ [], refl)

abbrev entering : Step slots
entering = attaches 1 one_free nothing true

abbrev entered : Shard slots (Unit {0})
entered = steps slots emitter rooted (new slots 1 tt new_ids) (entering ∷ [])

abbrev newcomer : AttachedConnection slots
newcomer = fresh_connection slots 0 1 1 one_free nothing true

newcomer-IsCurrent : IsCurrent slots entered 1 newcomer
unfolding steps get
newcomer-IsCurrent = record {
  there = refl;
  own = refl;
  in_step = inr (nothing, refl, nothing-IsIndexed);
}

renders : (reconcile slots emitter rooted entered).1.refused ≡ none
unfolding reconcile steps Builder.root
renders = refl

steps-IsTurned_example :
    IsTurned slots emitter entered (reconcile slots emitter rooted entered).0 1 newcomer
steps-IsTurned_example =
    steps-IsTurned slots emitter rooted 1 tt new_ids (entering ∷ []) 1 newcomer rooted-IsFlavor
      new-IsAllocator (omega arith) newcomer-IsCurrent renders

-- A shard that has moved on by one version.
abbrev ahead : Shard slots (Unit {0})
ahead = record fresh { journal = opened_journal; view = opened; version = 1 }

one_delta : IsWindow (opening ∷ []) opened_journal
one_delta = record { head = refl; tail = refl; entries = refl }

owed_room :
    HasRoom slots one_free (
      length
        (messages_of slots emitter attached (push_ops slots attached opening empty_overlay) []))
unfolding push_ops plan sees
owed_room = record { listens = refl; free = omega arith; fits = omega arith }

retry-caught_up_example :
    let ops = push_ops slots attached opening empty_overlay in
    (b : AttachedConnection slots) × (get (retry slots emitter ahead 1).connections 1 ≡ some b)
    × (b.cursor ≡ 1)
    × (slots.queued b.queue.sender
        ≡ slots.queued one_free.sender ++ messages_of slots emitter attached ops [])
    × ((k : ℕ)
        → Shows (shown (composed slots attached nothing)) ops (shown (composed slots b opened)) k)
unfolding get
retry-caught_up_example =
    retry-caught_up slots emitter ahead 1 attached [] nothing opened refl refl one_delta refl
      nothing-IsIndexed lobby-IsIndexed (layered nothing) (layered opened) owed_room
