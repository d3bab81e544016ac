-- ===== src/Shard/Turn/Counterexamples.antt =====
-- Transitions that leave a client with something else than what the shard holds it to show.
use mumble_server_runtime.Base.{
  ℕ, Bool, Option, false, true, ◌≡◌, refl, none, some, List, [], ◌∷◌, ◌++◌,
}
use mumble_server_runtime.Base.Assoc.{get}
use mumble_server_runtime.Shard.Scope.{Scope}
use mumble_server_runtime.Shard.ScopeSet.{sees}
use mumble_server_runtime.Shard.View.{ShardView, Overlay, empty_overlay, compose, restrict}
use mumble_server_runtime.Shard.Plan.{PlannedOp, plan}
use mumble_server_runtime.Shard.Client.{ClientView, ShownChannel, shown_user, shown, apply_all}
use mumble_server_runtime.Shard.Turn.{AttachedConnection, push_ops}
use mumble_server_runtime.Shard.Turn.Examples.{lobby, game, player, opened, attached}
use mumble_server_runtime.Shard.Queue.Slots.{slots}

abbrev joined : ShardView
joined = record { channels = (0, lobby) ∷ []; users = (3, record player { channel = 0 }) ∷ [] }

-- A connection two versions behind: somebody came and went meanwhile.
abbrev missed : List PlannedOp
missed = plan opened joined ++ plan joined opened

-- The client shows the one who left for good.
abbrev caught_up : ClientView
caught_up = apply_all (shown opened) (push_ops slots attached missed empty_overlay)

still_there : caught_up.users 3 ≡ some (shown_user (record player { channel = 0 }))
unfolding push_ops plan sees apply_all
still_there = refl

gone_from_view : (shown (compose (restrict opened attached.see) empty_overlay)).users 3 ≡ none
unfolding shown restrict compose sees get
gone_from_view = refl

-- A connection that sees somebody privately, where the next view shares them.
abbrev private_player : Overlay
private_player = record { channels = []; users = (3, record player { channel = 0 }) ∷ [] }

abbrev holding : AttachedConnection slots
holding = record attached { overlay_sent = private_player }

-- A retry replays the shared delta with the overlay of before; the render's own overlay, without
-- them, comes only afterwards, and takes them away.
abbrev retried : ClientView
retried =
    apply_all (shown (compose opened private_player))
      (push_ops slots holding (plan opened joined) private_player)

abbrev served : ClientView
served = apply_all retried (push_ops slots holding [] empty_overlay)

taken_away : served.users 3 ≡ none
unfolding push_ops plan sees shown compose apply_all
taken_away = refl

in_view :
    (shown (compose (restrict joined holding.see) empty_overlay)).users 3
    ≡ some (shown_user (record player { channel = 0 }))
unfolding shown restrict compose sees get
in_view = refl

-- A channel that changes scope and loses its last link is sent anew without any.
abbrev deeper : Scope
deeper = record { segments = 7 ∷ 0 ∷ 0 ∷ 0 ∷ []; depth = 1 }

abbrev linked : ShardView
linked = record {
  channels = (0, record lobby { links = 1 ∷ [] }) ∷ (1, record game { links = 0 ∷ [] }) ∷ [];
  users = [];
}

abbrev moved_apart : ShardView
moved_apart = record {
  channels = (0, lobby) ∷ (1, record game { scope = deeper }) ∷ [];
  users = [];
}

abbrev links_to : ℕ → Option ShownChannel → Bool
links_to x none = false
links_to x (some ch) = ch.links x

abbrev sent_anew : ClientView
sent_anew =
    apply_all (shown linked) (push_ops slots attached (plan linked moved_apart) empty_overlay)

ghost_link : links_to 0 (sent_anew.channels 1) ≡ true
unfolding push_ops plan sees shown apply_all
ghost_link = refl

no_link : links_to 0 ((shown moved_apart).channels 1) ≡ false
unfolding shown
no_link = refl
