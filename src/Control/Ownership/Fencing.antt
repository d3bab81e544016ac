-- ===== src/Control/Ownership/Fencing.antt =====
-- The fencing tokens of an entity that is acquired by another claim.
use Prim.Native.String.{String}
use mathlib.Core.Bool.{false≢true}
use mumble_server_runtime.Base.{
  ℕ, ◌<◌, ◌≡◌, refl, sym, ap, arith, true, ltb, ◌∙◌, Bool, false, Option, some, List, Result, ok,
  err, nat_eq, list_eq, list_beq_iff, string_eq, ◌==◌, eq_self, if◌then◌else◌, Bool-cases, inl, inr,
}
use mumble_server_runtime.Base.Assoc.{get, get-insert}
use mumble_server_runtime.Control.Ownership.{
  OwnershipRegistry, OwnershipState, ClaimRequest, ClaimOutcome, OwnershipError, acquired, put,
  resume, claim, accept_of, accept_revision, release_of, release, acquired_state, ownership_lost,
  advanced,
}
use mumble_server_runtime.Control.Ownership.Counts.{token_fresh}
use mumble_server_runtime.Control.Ownership.Claims.{claim-cases}

-- What an acquisition leaves: the claimant holds the entity under its new token, and the claim
-- reports the entry that it replaced; every other entity keeps its entry.
pub claim-acquired :
    (r : OwnershipRegistry) (request : ClaimRequest) (token : List ℕ)
    (previous : Option OwnershipState)
    → (claim r request).1 ≡ ok (acquired token previous)
    → (token ≡ request.new_fencing_token)
      × (previous ≡ get r.entries request.entity_id)
      × ((j : String)
          → get (claim r request).0.entries j
            ≡ (if request.entity_id == j then some (acquired_state request) else get r.entries j))
unfolding resume put
claim-acquired r request token previous e = elim (claim-cases r request) [
  | inl (x, failed) ↦ let f = sym (ap (λ p. p.1) failed) ∙ e in cc
  | inr (inl (current, live, may, resumed_so)) ↦ let f = sym (ap (λ p. p.1) resumed_so) ∙ e in cc
  | inr (inr (a, done)) ↦
      let f = sym (ap (λ p. p.1) done) ∙ e in
      (
        cc,
        cc,
        λ j.
            ap (λ (p : OwnershipRegistry × Result OwnershipError ClaimOutcome). get p.0.entries j)
              done
            ∙ get-insert r.entries request.entity_id j (acquired_state request),
      )
]

-- The fresh token is nobody's.
acquired_fresh :
    (r : OwnershipRegistry) (request : ClaimRequest) (token : List ℕ)
    (previous : Option OwnershipState) (j : String) (s : OwnershipState)
    → (claim r request).1 ≡ ok (acquired token previous)
    → get r.entries j ≡ some s
    → (request.new_fencing_token == s.fencing_token) ≡ false
unfolding resume
acquired_fresh r request token previous j s e live = elim (claim-cases r request) [
  | inl (x, failed) ↦ let f = sym (ap (λ p. p.1) failed) ∙ e in cc
  | inr (inl (current, h, may, resumed_so)) ↦ let f = sym (ap (λ p. p.1) resumed_so) ∙ e in cc
  | inr (inr (a, done)) ↦
      other_way s.fencing_token request.new_fencing_token
        (token_fresh r.entries request.new_fencing_token j s a.fresh live)
]
  where
    other_way : (xs ys : List ℕ) → (xs == ys) ≡ false → (ys == xs) ≡ false
    other_way xs ys h = elim (Bool-cases (ys == xs)) [
      | inl same ↦
          let e : xs ≡ ys = sym ((list_beq_iff ys xs).0 same) in
          absurd (false≢true (sym h ∙ (list_beq_iff xs ys).1 e))
      | inr differs ↦ differs
    ]

accept_of-stale :
    (r : OwnershipRegistry) (id : String) (owner : ℕ) (token : List ℕ) (revision : ℕ) (same : Bool)
    (current : OwnershipState)
    → (current.fencing_token == token) ≡ false
    → accept_of r id owner token revision same (some current) ≡ (r, err ownership_lost)
unfolding accept_of
accept_of-stale r id owner token revision same current h =
    elim (Bool-cases (current.owner == owner)) [ inl mine ↦ rw (mine, h) | inr other ↦ rw other ]

release_of-stale :
    (r : OwnershipRegistry) (id : String) (owner : ℕ) (registration token : List ℕ)
    (current : OwnershipState)
    → (current.fencing_token == token) ≡ false
    → release_of r id owner registration token (some current) ≡ (r, err ownership_lost)
unfolding release_of
release_of-stale r id owner registration token current h =
    elim (Bool-cases (current.owner == owner)) [
      | inl mine ↦ elim (Bool-cases (current.registration_id == registration)) [
        | inl known ↦ rw (mine, known, h)
        | inr unknown ↦ rw (mine, unknown)
      ]
      | inr other ↦ rw other
    ]

-- After a claim has acquired a live entity, the token under which it was held before lets nobody
-- revise or release it: both calls report the loss and change nothing, whatever else they present.
pub takeover_fences :
    (r : OwnershipRegistry) (request : ClaimRequest) (current : OwnershipState) (token : List ℕ)
    (previous : Option OwnershipState) (owner revision : ℕ) (registration : List ℕ) (same : Bool)
    → get r.entries request.entity_id ≡ some current
    → (claim r request).1 ≡ ok (acquired token previous)
    → let after = (claim r request).0 in
      (accept_revision after request.entity_id owner current.fencing_token revision same
        ≡ (after, err ownership_lost))
      × (release after request.entity_id owner registration current.fencing_token
          ≡ (after, err ownership_lost))
unfolding accept_revision release
takeover_fences r request current token previous owner revision registration same live e =
    let after = (claim r request).0 in
    let (t, p, entries) = claim-acquired r request token previous e in
    let held = entries request.entity_id in
    let now : get after.entries request.entity_id ≡ some (acquired_state request) =
      rw (eq_self request.entity_id) at held in
    let fresh = acquired_fresh r request token previous request.entity_id current e live in
    (
      ap (accept_of after request.entity_id owner current.fencing_token revision same) now
          ∙ accept_of-stale after request.entity_id owner current.fencing_token revision same
              (acquired_state request) fresh,
      ap (release_of after request.entity_id owner registration current.fencing_token) now
          ∙ release_of-stale after request.entity_id owner registration current.fencing_token
              (acquired_state request) fresh,
    )

-- After a claim has acquired an entity, whoever made it holds the entity under the token it was given:
-- a revision above the claimed one is taken from it, its release is accepted and returns the entry as
-- it was claimed, and every other entity keeps its entry.
pub claim-holder :
    (r : OwnershipRegistry) (request : ClaimRequest) (token : List ℕ)
    (previous : Option OwnershipState) (revision : ℕ) (same : Bool)
    → (claim r request).1 ≡ ok (acquired token previous)
    → request.client_revision < revision
    → let after = (claim r request).0 in
      let id = request.entity_id in
      ((accept_revision after id request.owner token revision same).1 ≡ ok advanced)
      × ((release after id request.owner request.registration_id token).1
          ≡ ok (record {
            entity_id = id;
            owner = request.owner;
            registration_id = request.registration_id;
            fencing_token = request.new_fencing_token;
            client_revision = request.client_revision;
          }))
      × ((j : String) → (id == j) ≡ false → get after.entries j ≡ get r.entries j)
unfolding accept_revision release accept_of release_of
claim-holder r request token previous revision same e above =
    let after = (claim r request).0 in
    let id = request.entity_id in
    let (t, p, entries) = claim-acquired r request token previous e in
    let held = entries id in
    let now : get after.entries id ≡ some (acquired_state request) = rw (eq_self id) at held in
    let (up, not_same) = later request.client_revision revision above in
    let mine = eq_self request.owner in
    let known = eq_self request.registration_id in
    let fresh : (request.new_fencing_token == token) ≡ true =
      ap (λ x. request.new_fencing_token == x) t ∙ eq_self request.new_fencing_token in
    (
      ap (λ o. (accept_of after id request.owner token revision same o).1) now
          ∙ rw (mine, fresh, up, not_same, accept_of) refl,
      ap (λ o. (release_of after id request.owner request.registration_id token o).1) now
          ∙ rw (mine, known, fresh, release_of) refl,
      λ j other. let at_j = entries j in rw other at at_j,
    )
  where
    later : (old new : ℕ) → old < new → (ltb new old ≡ false) × ((new == old) ≡ false)
    later old new h = (ground arith, ground arith)
