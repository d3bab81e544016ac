-- ===== src/Shard/Turn/Walk.antt =====
-- The walk of `descends_from`, and when it ends.
use mumble_server_runtime.Base.{
  ℕ, zero, suc, ◌<◌, ◌≡◌, ◌≢◌, refl, sym, ap, ◌∙◌, subst, Bool, true, false, ◌⊎◌, inl, inr, Option,
  none, some, arith, ◌==◌, nat_eq, ==ℕ_iff, eq_self, Bool-cases, Option-cases,
}
use mumble_server_runtime.Shard.View.{Channel, ShardView}
use mumble_server_runtime.Shard.Queue.{Mpsc}
use mumble_server_runtime.Shard.Turn.{AttachedConnection}
use mumble_server_runtime.Shard.Turn.Requests.{visible_channel, descends_from}

module _ {M : Type 0} (c : Mpsc M) (view : ShardView) (a : AttachedConnection c) where
  -- The channel is the root of the subtree, or stands under it, by the parents that are visible.
  pub data IsUnder (root : ℕ) : ℕ → Type 0 where
    here : IsUnder root root
    above :
        (current : ℕ) (rendered : Channel)
        → visible_channel c view a current ≡ some rendered
        → rendered.parent ≢ current
        → IsUnder root rendered.parent
        → IsUnder root current

  -- A channel that is not its own parent ranks above it.
  abbrev pub IsRanked : (ℕ → ℕ) → Type 0
  IsRanked rank =
      (id : ℕ) (rendered : Channel)
      → visible_channel c view a id ≡ some rendered
      → (rendered.parent ≡ id) ⊎ (rank rendered.parent < rank id)

  -- What the walk comes to.
  pub record IsWalk (root current : ℕ) (result : Option Bool) : Type 0 where
    pub answer : Bool
    pub ends : result ≡ some answer
    pub sound : answer ≡ true → IsUnder root current
    pub complete : IsUnder root current → answer ≡ true

  IsUnder-cases :
      (root current : ℕ)
      → IsUnder root current
      → (root ≡ current)
        ⊎ ((rendered : Channel) × (visible_channel c view a current ≡ some rendered)
            × (rendered.parent ≢ current)
            × IsUnder root rendered.parent)
  IsUnder-cases root current here = inl refl
  IsUnder-cases root _ (above current rendered there other u) = inr (rendered, there, other, u)

  not_under :
      (root current : ℕ)
      → (current == root) ≡ false
      → visible_channel c view a current ≡ none
      → IsUnder root current
      → ⊥
  not_under root current other unseen u = elim (IsUnder-cases root current u) [
    | inl same ↦ let e = eq_self current in let h = rw same at other in cc
    | inr (rendered, there, moved, v) ↦ cc
  ]

  -- Below the root stands only what has a parent below it.
  parent-IsUnder :
      (root current : ℕ) (rendered : Channel)
      → (current == root) ≡ false
      → visible_channel c view a current ≡ some rendered
      → IsUnder root current
      → (rendered.parent ≢ current) × IsUnder root rendered.parent
  parent-IsUnder root current rendered other there u = elim (IsUnder-cases root current u) [
    | inl same ↦ let e = eq_self current in let h = rw same at other in cc
    | inr (found, seen, moved, v) ↦
        let same : found ≡ rendered = cc in
        (
          λ h. moved (ap (λ (ch : Channel). ch.parent) same ∙ h),
          subst (λ (ch : Channel). IsUnder root ch.parent) same v,
        )
  ]

  -- Of a channel whose rank is below the fuel the walk ends, and says whether the channel stands
  -- under the root, where every channel ranks above its parent.
  pub descends_from-IsWalk :
      (rank : ℕ → ℕ) (fuel current root : ℕ)
      → IsRanked rank
      → rank current < fuel
      → IsWalk root current (descends_from c view fuel a current root)
  unfolding descends_from
  descends_from-IsWalk rank zero current root r h = absurd (omega arith)
  descends_from-IsWalk rank (suc fuel) current root r h = elim (Bool-cases (current == root)) [
    | inl found ↦
        let e : current ≡ root = (==ℕ_iff current root).0 found in
        rw (found, descends_from)
          (record {
            answer = true;
            ends = refl;
            sound = λ t. subst (IsUnder root) (sym e) here;
            complete = λ u. refl;
          })
    | inr other ↦ elim (Option-cases (visible_channel c view a current)) [
      | inl unseen ↦
          rw (other, unseen, descends_from)
            (record {
              answer = false;
              ends = refl;
              sound = λ t. cc;
              complete = λ u. absurd (not_under root current other unseen u);
            })
      | inr (rendered, there) ↦ elim (Bool-cases (rendered.parent == current)) [
        | inl top ↦
            rw (other, there, top, descends_from)
              (record {
                answer = false;
                ends = refl;
                sound = λ t. cc;
                complete = λ u. absurd (
                    (parent-IsUnder root current rendered other there u).0
                      ((==ℕ_iff rendered.parent current).0 top));
              })
        | inr below ↦
            let moved : rendered.parent ≢ current =
              λ e. let t = (==ℕ_iff rendered.parent current).1 e in cc in
            let lower : rank rendered.parent < rank current = elim (r current rendered there) [
              | inl same ↦ absurd (moved same)
              | inr lower ↦ lower
            ] in
            let w = descends_from-IsWalk rank fuel rendered.parent root r (omega arith) in
            rw (other, there, below, descends_from)
              (record {
                answer = w.answer;
                ends = w.ends;
                sound = λ t. above current rendered there moved (w.sound t);
                complete = λ u. w.complete (parent-IsUnder root current rendered other there u).1;
              })
      ]
    ]
  ]
