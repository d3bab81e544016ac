-- ===== src/Shard/Build/Checks/Visible.antt =====
-- `check_group` against the pairwise reference `can_see`.
use mumble_server_runtime.Base.{
  ℕ, ◌≡◌, refl, sym, ap, ◌∙◌, ◌↔◌, true, false, ◌&&◌, ◌⊎◌, inl, inr, none, some, List, [], ◌∷◌,
  arith, length, filter, ok, ◌==◌, nat_eq, Bool-cases, Option-cases, subst, ==ℕ_iff,
}
use mumble_server_runtime.Base.Fallible.{◌>>◌}
use mumble_server_runtime.Base.Assoc.{Assoc, get}
use mumble_server_runtime.Base.Order.{
  nat_order, contains, contains-filter, contains_head, IsAscending,
}
use mumble_server_runtime.Base.Btree.{IsOrdered-IsDistinct}
use mumble_server_runtime.Shard.Scope.{Scope, scope_eq, scope_order}
use mumble_server_runtime.Shard.ScopeSet.{ScopeSet, sees}
use mumble_server_runtime.Shard.Build.Checks.{
  Check, or_zero, grouped, is_at, others_at, check_scopes, check_hidden, check_receivers,
  check_group, can_see, sees_privately, observed,
}
use mumble_server_runtime.Shard.Build.Checks.Groups.{
  at, is_hidden, rival, is_absent, is_at-eq_some, is_at-some, grouped-counts, grouped-hidden,
  grouped-IsOrdered, others_at-rivals,
}
use mumble_server_runtime.Shard.Build.Checks.Passed.{
  then-ok, ok-then, check_scopes-ok, check_scopes_complete, check_hidden-ok, check_hidden_complete,
  filter-some, some-filter,
}

module _ (senders : List ℕ) (shared_scope : Assoc ℕ Scope) (privately : Assoc ℕ (List ℕ))
    (observations : Assoc ℕ ScopeSet) where
  -- The receiver can see every sender other than itself.
  abbrev pub SeesAll : ℕ → Type 0
  SeesAll receiver =
      (sender : ℕ)
      → contains senders sender ≡ true
      → (sender == receiver) ≡ false
      → can_see receiver sender shared_scope privately observations ≡ true

  -- The receiver is one of the senders, or else it sees the scope that it occupies.
  abbrev pub SeesOwn : ℕ → Type 0
  SeesOwn receiver =
      (scope : Scope)
      → get shared_scope receiver ≡ some scope
      → contains senders receiver ≡ false
      → sees (observed observations receiver) scope ≡ true

  -- Nobody sees privately a user of the shared view.
  abbrev pub IsExclusive : Type 0
  IsExclusive =
      (receiver sender : ℕ)
      → sees_privately privately receiver sender ≡ true
      → get shared_scope sender ≡ none

  abbrev groups : Assoc Scope ℕ
  groups = (grouped [] [] shared_scope senders).0

  abbrev hidden : List ℕ
  hidden = (grouped [] [] shared_scope senders).1

  abbrev receiver_scopes : ℕ → Check
  receiver_scopes receiver =
      check_scopes senders shared_scope receiver (observed observations receiver)
        (get shared_scope receiver) groups

  abbrev receiver_hidden : ℕ → Check
  receiver_hidden receiver = check_hidden privately receiver hidden

  groups-count :
      (scope : Scope) → or_zero (get groups scope) ≡ length (filter (at shared_scope scope) senders)
  unfolding get
  groups-count scope = omega (arith, grouped-counts shared_scope [] [] senders scope)

  hidden-contains :
      (sender : ℕ)
      → contains hidden sender ≡ (contains senders sender && is_hidden shared_scope sender)
  hidden-contains sender =
      ap (λ l. contains l sender) (grouped-hidden shared_scope [] [] senders)
      ∙ contains-filter (is_hidden shared_scope) senders sender

  -- Whatever the receiver occupies, it is counted among the senders there or sees the scope.
  own-cases :
      (receiver : ℕ) (scope : Scope)
      → SeesOwn receiver
      → (at shared_scope scope receiver ≡ true → contains senders receiver ≡ true)
        ⊎ (sees (observed observations receiver) scope ≡ true)
  own-cases receiver scope own = elim (Bool-cases (contains senders receiver)) [
    | inl member ↦ inl (λ _. member)
    | inr foreign ↦ elim (Bool-cases (at shared_scope scope receiver)) [
      | inl here ↦ inr (own scope (is_at-eq_some (get shared_scope receiver) scope here) foreign)
      | inr away ↦ inl (λ here. cc)
    ]
  ]

  others-rivals :
      (receiver : ℕ) (scope : Scope) (count : ℕ)
      → IsAscending senders
      → get groups scope ≡ some count
      → (at shared_scope scope receiver ≡ true → contains senders receiver ≡ true)
      → others_at (get shared_scope receiver) scope count
        ≡ length (filter (rival shared_scope receiver scope) senders)
  others-rivals receiver scope count a g h =
      let counted : count ≡ length (filter (at shared_scope scope) senders) =
        sym (ap or_zero g) ∙ groups-count scope in
      ap (others_at (get shared_scope receiver) scope) counted
      ∙ others_at-rivals shared_scope receiver scope senders a h

  -- A sender of the shared view that is not the receiver obliges it to see the sender's scope.
  scope-seen :
      (receiver sender : ℕ) (scope : Scope)
      → IsAscending senders
      → SeesOwn receiver
      → receiver_scopes receiver ≡ ok tt
      → contains senders sender ≡ true
      → (sender == receiver) ≡ false
      → get shared_scope sender ≡ some scope
      → sees (observed observations receiver) scope ≡ true
  scope-seen receiver sender scope a own h c n g =
      let here : at shared_scope scope sender ≡ true =
        ap (λ o. is_at o scope) g ∙ is_at-some scope in
      let rivals =
        some-filter (rival shared_scope receiver scope) senders sender c (ground arith) in
      let some_here = some-filter (at shared_scope scope) senders sender c here in
      elim (own-cases receiver scope own) [
        | inr seen ↦ seen
        | inl counted ↦ elim (Option-cases (get groups scope)) [
          | inl absent ↦ absurd (omega (arith, ap or_zero absent, groups-count scope))
          | inr (count, there) ↦
              check_scopes-ok senders shared_scope receiver (observed observations receiver)
                (get shared_scope receiver) groups h scope count there
                (ground (arith, others-rivals receiver scope count a there counted))
        ]
      ]

  receiver-sees :
      (receiver : ℕ)
      → IsAscending senders
      → SeesOwn receiver
      → receiver_scopes receiver ≡ ok tt
      → receiver_hidden receiver ≡ ok tt
      → SeesAll receiver
  unfolding can_see
  receiver-sees receiver a own h k sender c n = elim (Option-cases (get shared_scope sender)) [
    | inl absent ↦
        let is : is_hidden shared_scope sender ≡ true = ap is_absent absent in
        ground (
          arith,
          check_hidden-ok privately receiver hidden k sender
              (ground (arith, hidden-contains sender)) n,
        )
    | inr (scope, there) ↦ ground (arith, scope-seen receiver sender scope a own h c n there)
  ]

  seen-scopes :
      (receiver : ℕ)
      → IsAscending senders
      → SeesOwn receiver
      → IsExclusive
      → SeesAll receiver
      → receiver_scopes receiver ≡ ok tt
  unfolding can_see
  seen-scopes receiver a own exclusive all =
      check_scopes_complete senders shared_scope receiver (observed observations receiver)
        (get shared_scope receiver) groups
        (IsOrdered-IsDistinct groups (grouped-IsOrdered shared_scope [] [] senders tt))
        λ scope count g o. elim (own-cases receiver scope own) [
          | inr seen ↦ seen
          | inl counted ↦
              let (sender, c, r) =
                filter-some (rival shared_scope receiver scope) senders
                  (ground (arith, others-rivals receiver scope count a g counted)) in
              let at_scope = is_at-eq_some (get shared_scope sender) scope (ground arith) in
              ground (arith, all sender c, exclusive receiver sender)
        ]

  seen-hidden : (receiver : ℕ) → SeesAll receiver → receiver_hidden receiver ≡ ok tt
  unfolding can_see
  seen-hidden receiver all = check_hidden_complete privately receiver hidden λ sender c n.
      elim (Option-cases (get shared_scope sender)) [
        | inl absent ↦ ground (arith, all sender, hidden-contains sender)
        | inr (scope, there) ↦
            let shown : is_hidden shared_scope sender ≡ false = ap is_absent there in
            ground (arith, hidden-contains sender)
      ]

  each_sees :
      (receivers : List ℕ)
      → IsAscending senders
      → ((receiver : ℕ) → contains receivers receiver ≡ true → SeesOwn receiver)
      → check_receivers receivers senders shared_scope privately observations (groups, hidden)
        ≡ ok tt
      → (receiver : ℕ) → contains receivers receiver ≡ true
      → SeesAll receiver
  unfolding check_receivers
  each_sees [] a own h receiver c = cc
  each_sees (first ∷ receivers) a own h receiver c =
      let (both, later) = then-ok (receiver_scopes first >> receiver_hidden first) _ tt h in
      let (scopes, unseen) = then-ok (receiver_scopes first) (receiver_hidden first) tt both in
      elim (Bool-cases (first == receiver)) [
        | inl same ↦
            subst SeesAll ((==ℕ_iff first receiver).0 same)
              (receiver-sees first a (own first (contains_head first receivers)) scopes unseen)
        | inr apart ↦
            each_sees receivers a (λ r m. own r (ground arith)) later receiver (ground arith)
      ]

  pub check_group-ok :
      (receivers : List ℕ)
      → IsAscending senders
      → ((receiver : ℕ) → contains receivers receiver ≡ true → SeesOwn receiver)
      → check_group receivers senders shared_scope privately observations ≡ ok tt
      → (receiver : ℕ) → contains receivers receiver ≡ true
      → SeesAll receiver
  unfolding check_group
  check_group-ok receivers a own h = each_sees receivers a own h

  all_seen :
      (receivers : List ℕ)
      → IsAscending senders
      → IsExclusive
      → ((receiver : ℕ) → contains receivers receiver ≡ true → SeesOwn receiver)
      → ((receiver : ℕ) → contains receivers receiver ≡ true → SeesAll receiver)
      → check_receivers receivers senders shared_scope privately observations (groups, hidden)
        ≡ ok tt
  unfolding check_receivers
  all_seen [] a exclusive own all = refl
  all_seen (first ∷ receivers) a exclusive own all =
      let here = contains_head first receivers in
      let scopes = seen-scopes first a (own first here) exclusive (all first here) in
      let unseen = seen-hidden first (all first here) in
      let later =
        all_seen receivers a exclusive (λ r m. own r (ground arith))
          (λ r m. all r (ground arith)) in
      ok-then (receiver_scopes first >> receiver_hidden first) _ tt
        (ok-then (receiver_scopes first) (receiver_hidden first) tt scopes unseen) later

  -- Counting the senders of each scope decides what checking each pair would: a group passes exactly
  -- where every receiver can see every sender but itself. The senders are a set, nobody sees a user
  -- of the shared view privately, and a receiver that is not one of the senders sees the scope it
  -- occupies.
  pub check_group_iff :
      (receivers : List ℕ)
      → IsAscending senders
      → IsExclusive
      → ((receiver : ℕ) → contains receivers receiver ≡ true → SeesOwn receiver)
      → (check_group receivers senders shared_scope privately observations ≡ ok tt)
        ↔ ((receiver : ℕ) → contains receivers receiver ≡ true → SeesAll receiver)
  unfolding check_group
  check_group_iff receivers a exclusive own =
      (each_sees receivers a own, all_seen receivers a exclusive own)
