-- ===== src/Shard/Turn/Audience.antt =====
-- Whom the shard carries a flavor's words to.
use Prim.Native.String.{String}
use mumble_server_runtime.Base.{
  ℕ, ◌<◌, ◌≡◌, refl, sym, ap, ◌∙◌, subst, ==ℕ_iff, Bool, true, false, ◌⊎◌, inl, inr, Option, none,
  some, [], ◌∷◌, All, Result, ◌==◌, nat_eq, Bool-cases, Option-cases,
}
use mumble_server_runtime.Base.Assoc.{Assoc}
use mumble_server_runtime.Shard.Ids.{IdAllocator}
use mumble_server_runtime.Shard.View.{User, ShardView}
use mumble_server_runtime.Shard.Queue.{Mpsc, Refused, try_send_all}
use mumble_server_runtime.Shard.Queue.Admission.{Outcome, try_send_all_lem}
use mumble_server_runtime.Shard.Turn.{AttachedConnection}
use mumble_server_runtime.Shard.Turn.Requests.{
  TextTarget, to_session, to_channel, to_tree, seen_user, resolve_audience,
}
use mumble_server_runtime.Shard.Turn.Walk.{IsRanked, IsUnder, descends_from-IsWalk}
use mumble_server_runtime.Shard.Turn.Speech.{
  Spoken, is_from, speaker_of, addressed, sees_speaker, receives, carry, deliver_all, deliver,
}

module _ {M : Type 0} (c : Mpsc M) (view : ShardView) where
  -- The walk from the connection's own channel ends within the fuel.
  pub record IsBounded (rank : ℕ → ℕ) (fuel : ℕ) (a : AttachedConnection c) : Type 0 where
    pub ranked : IsRanked c view a rank
    pub below : (u : User) → seen_user c view a a.session ≡ some u → rank u.channel < fuel

  -- The connection is the one addressed, stands in the channel, or under it, where its own client
  -- shows it.
  abbrev pub InAudience : AttachedConnection c → TextTarget → Type 0
  InAudience a (to_session session) = session ≡ a.session
  InAudience a (to_channel channel) =
      (u : User) × (seen_user c view a a.session ≡ some u) × (u.channel ≡ channel)
  InAudience a (to_tree root) =
      (u : User) × (seen_user c view a a.session ≡ some u) × IsUnder c view a root u.channel

  addressed_ends :
      (rank : ℕ → ℕ) (fuel : ℕ) (a : AttachedConnection c) (target : TextTarget)
      → IsBounded rank fuel a
      → (answer : Bool) × (addressed c view fuel a target ≡ some answer)
        × (answer ≡ true → InAudience a target)
        × (InAudience a target → answer ≡ true)
  unfolding addressed
  addressed_ends rank fuel a (to_session session) v =
      let same = ==ℕ_iff session a.session in (session == a.session, refl, same.0, same.1)
  addressed_ends rank fuel a (to_channel channel) v =
      elim (Option-cases (seen_user c view a a.session)) [
        | inl unseen ↦ (false, rw (unseen, addressed) refl, λ t. cc, λ (u, seen, there). cc)
        | inr (u, seen) ↦
            let same = ==ℕ_iff u.channel channel in
            (
              u.channel == channel,
              rw (seen, addressed) refl,
              λ t. (u, seen, same.0 t),
              λ (w, shown, there).
                  let e : w ≡ u = cc in same.1 (ap (λ (x : User). x.channel) (sym e) ∙ there),
            )
      ]
  addressed_ends rank fuel a (to_tree root) v = elim (Option-cases (seen_user c view a a.session)) [
    | inl unseen ↦ (false, rw (unseen, addressed) refl, λ t. cc, λ (u, seen, there). cc)
    | inr (u, seen) ↦
        let walk =
          descends_from-IsWalk c view a rank fuel u.channel root v.ranked (v.below u seen) in
        (
          walk.answer,
          rw (seen, addressed) walk.ends,
          λ t. (u, seen, walk.sound t),
          λ (w, shown, there).
              let e : w ≡ u = cc in
              walk.complete (subst (λ (x : User). IsUnder c view a root x.channel) e there),
        )
  ]

  -- The speaker's session, if anybody speaks, is one that the connection sees.
  abbrev pub Sees : AttachedConnection c → Option ℕ → Type 0
  Sees a speaker =
      (session : ℕ) → speaker ≡ some session → (u : User) × (seen_user c view a session ≡ some u)

  sees_speaker-Sees :
      (a : AttachedConnection c) (speaker : Option ℕ)
      → ((sees_speaker c view a speaker ≡ true) × Sees a speaker)
        ⊎ ((sees_speaker c view a speaker ≡ false) × (Sees a speaker → ⊥))
  unfolding sees_speaker
  sees_speaker-Sees a none = inl (refl, λ session h. cc)
  sees_speaker-Sees a (some number) = elim (Option-cases (seen_user c view a number)) [
    | inl unseen ↦
        inr (rw (unseen, sees_speaker) refl, λ sees. let (u, seen) = sees number refl in cc)
    | inr (u, seen) ↦ inl (
      rw (seen, sees_speaker) refl,
      λ session h. let same : number ≡ session = cc in (u, rw same at seen),
    )
  ]

  -- Whoever the message reaches is not the speaker, sees the speaker, and is addressed.
  pub record IsReached (from speaker : Option ℕ) (target : TextTarget) (a : AttachedConnection c)
      : Type 0 where
    pub other : is_from from a.id ≡ false
    pub sees : Sees a speaker
    pub in_audience : InAudience a target

  abbrev Reception : ℕ → (from speaker : Option ℕ) → TextTarget → AttachedConnection c → Type 0
  Reception fuel from speaker target a =
      ((receives c view fuel from speaker target a ≡ some false)
        × (IsReached from speaker target a → ⊥))
      ⊎ ((receives c view fuel from speaker target a ≡ some true) × IsReached from speaker target a)

  receives_ends :
      (rank : ℕ → ℕ) (fuel : ℕ) (from speaker : Option ℕ) (target : TextTarget)
      (a : AttachedConnection c)
      → IsBounded rank fuel a
      → Reception fuel from speaker target a
  unfolding receives
  receives_ends rank fuel from speaker target a v = elim (Bool-cases (is_from from a.id)) [
    | inl own ↦ inl (rw (own, receives) refl, λ r. let h = r.other in cc)
    | inr other ↦
        let (answer, ends, sound, complete) = addressed_ends rank fuel a target v in
        elim (Bool-cases answer) [
          | inr left_out ↦
              inl (
                rw (other, ends, left_out, receives) refl,
                λ r. let h = complete r.in_audience in cc,
              )
          | inl meant ↦ elim (sees_speaker-Sees a speaker) [
            | inr (blind, unseen) ↦
                inl (rw (other, ends, meant, blind, receives) refl, λ r. unseen r.sees)
            | inl (shown, sees) ↦ inr (
              rw (other, ends, meant, shown, receives) refl,
              record { other = other; sees = sees; in_audience = sound meant },
            )
          ]
        ]
  ]

  module _ (relayed : Option ℕ → TextTarget → String → M) where
    -- The message is put at the end of the queue, or the queue refuses it; nothing else changes.
    pub record IsOffered (message : M) (a b : AttachedConnection c) : Type 0 where
      pub only_queue : b ≡ record a { queue = b.queue }
      pub answer : Result Refused (Unit {0})
      pub outcome : Outcome c a.queue (message ∷ []) b.queue answer

    carry-IsOffered :
        (speaker : Option ℕ) (target : TextTarget) (text : String) (a : AttachedConnection c)
        → IsOffered
            (relayed speaker target text)
            a
            (carry c view relayed speaker target text a true)
    unfolding carry
    carry-IsOffered speaker target text a = record {
      only_queue = refl;
      answer = (try_send_all c a.queue (relayed speaker target text ∷ [])).1;
      outcome = try_send_all_lem c a.queue (relayed speaker target text ∷ []);
    }

    -- Connection by connection: left as it was and not reached, or reached, with the message offered
    -- to its queue.
    abbrev pub Carried :
        ℕ
        → (from speaker : Option ℕ) → TextTarget
        → String
        → (before after : Assoc ℕ (AttachedConnection c)) → Type 0
    Carried fuel from speaker target text [] [] = Unit {0}
    Carried fuel from speaker target text [] (q ∷ after) = ⊥
    Carried fuel from speaker target text (p ∷ before) [] = ⊥
    Carried fuel from speaker target text ((i, a) ∷ before) ((j, b) ∷ after) =
        (j ≡ i)
        × (((b ≡ a) × (IsReached from speaker target a → ⊥))
            ⊎ (IsReached from speaker target a × IsOffered (relayed speaker target text) a b))
        × Carried fuel from speaker target text before after

    deliver_all_ends :
        (rank : ℕ → ℕ) (fuel : ℕ) (from speaker : Option ℕ) (target : TextTarget) (text : String)
        (m : Assoc ℕ (AttachedConnection c))
        → All (λ (p : ℕ × AttachedConnection c). IsBounded rank fuel p.1) m
        → (after : Assoc ℕ (AttachedConnection c)) × (deliver_all c view relayed fuel from speaker
              target text m
            ≡ some after)
          × Carried fuel from speaker target text m after
    unfolding deliver_all carry
    deliver_all_ends rank fuel from speaker target text [] v = ([], refl, tt)
    deliver_all_ends rank fuel from speaker target text ((i, a) ∷ m) v =
        let (after, ends, carried) = deliver_all_ends rank fuel from speaker target text m v.1 in
        elim (receives_ends rank fuel from speaker target a v.0) [
          | inl (missed, unreached) ↦ (
            (i, a) ∷ after,
            rw (missed, ends, deliver_all) refl,
            (refl, inl (refl, unreached), carried),
          )
          | inr (hears, reached) ↦ (
            (i, carry c view relayed speaker target text a true) ∷ after,
            rw (hears, ends, deliver_all) refl,
            (refl, inr (reached, carry-IsOffered speaker target text a), carried),
          )
        ]

    -- What becomes of the connections, by what is spoken: nothing where the speaker is not attached
    -- or the audience is nobody's.
    pub record IsDelivered (fuel : ℕ) (ids : IdAllocator) (shard : ℕ)
        (before : Assoc ℕ (AttachedConnection c)) (spoken : Spoken)
        (result : Option (Assoc ℕ (AttachedConnection c))) : Type 0 where
      pub after : Assoc ℕ (AttachedConnection c)
      pub ends : result ≡ some after
      pub reached :
          (((speaker_of c before spoken.from ≡ none)
              ⊎ (resolve_audience c view ids shard spoken.to ≡ none))
            × (after ≡ before))
          ⊎ ((speaker : Option ℕ) × (target : TextTarget) × (speaker_of c before spoken.from
                ≡ some speaker)
              × (resolve_audience c view ids shard spoken.to ≡ some target)
              × Carried fuel spoken.from speaker target spoken.text before after)

    -- What a flavor says is offered to exactly those who are addressed, see the speaker and are not the
    -- speaker, as one message at the end of their queue, unless the queue is full or its channel has no
    -- slots or is closed; nothing else of them changes. The others stay as they were, and so does everybody where the speaker
    -- is not attached or the audience is nobody's. The fuel is above the rank of the channel
    -- that each connection is in, where every channel ranks above its parent.
    pub deliver-IsDelivered :
        (rank : ℕ → ℕ) (fuel : ℕ) (ids : IdAllocator) (shard : ℕ)
        (m : Assoc ℕ (AttachedConnection c)) (spoken : Spoken)
        → All (λ (p : ℕ × AttachedConnection c). IsBounded rank fuel p.1) m
        → IsDelivered fuel ids shard m spoken (deliver c view relayed fuel ids shard m spoken)
    unfolding deliver
    deliver-IsDelivered rank fuel ids shard m spoken v =
        elim (Option-cases (speaker_of c m spoken.from)) [
          | inl gone ↦
              rw (gone, deliver) (record { after = m; ends = refl; reached = inl (inl gone, refl) })
          | inr (speaker, there) ↦
              elim (Option-cases (resolve_audience c view ids shard spoken.to)) [
                | inl nobody ↦
                    rw (there, nobody, deliver)
                      (record { after = m; ends = refl; reached = inl (inr nobody, refl) })
                | inr (target, found) ↦
                    let (after, ends, carried) =
                      deliver_all_ends rank fuel spoken.from speaker target spoken.text m v in
                    rw (there, found, deliver)
                      (record {
                        after = after;
                        ends = ends;
                        reached = inr (speaker, target, there, found, carried);
                      })
              ]
        ]
