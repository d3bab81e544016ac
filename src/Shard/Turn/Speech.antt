-- ===== src/Shard/Turn/Speech.antt =====
-- runtime/crates/shard/src/reply.rs and shard.rs: what a flavor says, and to whom the shard carries
-- it. The message that emit.rs makes of a relay is a parameter.
use Prim.Native.String.{String}
use mumble_server_runtime.Base.{
  ℕ, Bool, true, false, Option, none, some, [], ◌∷◌, ◌==◌, nat_eq, if◌then◌else◌,
}
use mumble_server_runtime.Base.Assoc.{Assoc, get}
use mumble_server_runtime.Base.Order.{nat_order}
use mumble_server_runtime.Shard.Ids.{IdAllocator}
use mumble_server_runtime.Shard.View.{ShardView}
use mumble_server_runtime.Shard.Queue.{Mpsc, try_send_all}
use mumble_server_runtime.Shard.Turn.{AttachedConnection}
use mumble_server_runtime.Shard.Turn.Requests.{
  Audience, TextTarget, to_session, to_channel, to_tree, is_some, seen_user, descends_from,
  resolve_audience,
}

-- `from` is nobody where the server itself speaks.
pub record Spoken : Type 0 where
  pub from : Option ℕ
  pub to : Audience
  pub text : String

abbrev pub is_from : Option ℕ → ℕ → Bool
is_from none id = false
is_from (some c) id = id == c

module _ {M : Type 0} (c : Mpsc M) where
  -- The session of whoever speaks, if anybody does; nothing where the speaker is not attached.
  unfoldable pub speaker_of : Assoc ℕ (AttachedConnection c) → Option ℕ → Option (Option ℕ)
  unfolding get
  speaker_of connections none = some none
  speaker_of connections (some id) = elim (get connections id) [
    | none ↦ none
    | some a ↦ some (some a.session)
  ]

module _ {M : Type 0} (c : Mpsc M) (view : ShardView) where
  unfoldable pub addressed : ℕ → AttachedConnection c → TextTarget → Option Bool
  unfolding seen_user descends_from
  addressed fuel a (to_session session) = some (session == a.session)
  addressed fuel a (to_channel channel) = elim (seen_user c view a a.session) [
    | none ↦ some false
    | some u ↦ some (u.channel == channel)
  ]
  addressed fuel a (to_tree root) = elim (seen_user c view a a.session) [
    | none ↦ some false
    | some u ↦ descends_from c view fuel a u.channel root
  ]

  -- Whoever hears the server, or sees the speaker.
  unfoldable pub sees_speaker : AttachedConnection c → Option ℕ → Bool
  unfolding seen_user
  sees_speaker a none = true
  sees_speaker a (some session) = is_some c view (seen_user c view a session)

  -- The guards of the loop of `deliver`.
  unfoldable pub receives :
      ℕ → (from speaker : Option ℕ) → TextTarget → AttachedConnection c → Option Bool
  unfolding addressed sees_speaker
  receives fuel from speaker target a =
      if is_from from a.id then some false else elim (addressed fuel a target) [
        | none ↦ none
        | some false ↦ some false
        | some true ↦ some (sees_speaker a speaker)
      ]

  module _ (relayed : Option ℕ → TextTarget → String → M) where
    -- A refusal is only logged.
    unfoldable pub carry :
        (speaker : Option ℕ)
        → TextTarget
        → String
        → AttachedConnection c
        → Bool
        → AttachedConnection c
    unfolding try_send_all
    carry speaker target text a false = a
    carry speaker target text a true = record a {
      queue = (try_send_all c a.queue (relayed speaker target text ∷ [])).0;
    }

    unfoldable pub deliver_all :
        ℕ
        → (from speaker : Option ℕ) → TextTarget
        → String
        → Assoc ℕ (AttachedConnection c)
        → Option (Assoc ℕ (AttachedConnection c))
    unfolding receives carry
    deliver_all fuel from speaker target text [] = some []
    deliver_all fuel from speaker target text ((id, a) ∷ connections) =
        elim (receives fuel from speaker target a) [
          | none ↦ none
          | some hears ↦ elim (deliver_all fuel from speaker target text connections) [
            | none ↦ none
            | some rest ↦ some ((id, carry speaker target text a hears) ∷ rest)
          ]
        ]

    -- On fuel for the walks to the root: nothing where it runs out.
    unfoldable pub deliver :
        ℕ
        → IdAllocator
        → (shard : ℕ) → Assoc ℕ (AttachedConnection c)
        → Spoken
        → Option (Assoc ℕ (AttachedConnection c))
    unfolding get speaker_of resolve_audience deliver_all
    deliver fuel ids shard connections spoken = elim (speaker_of c connections spoken.from) [
      | none ↦ some connections
      | some speaker ↦ elim (resolve_audience c view ids shard spoken.to) [
        | none ↦ some connections
        | some target ↦ deliver_all fuel spoken.from speaker target spoken.text connections
      ]
    ]
