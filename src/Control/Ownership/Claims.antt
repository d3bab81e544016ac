-- ===== src/Control/Ownership/Claims.antt =====
-- What a claim can come to: nothing, the resumption of a live entry, or an acquisition.

use mumble_server_runtime.Base.{
  ◌<◌, ◌≡◌, refl, sym, subst, true, false, ◌&&◌, ◌||◌, Option, none, some, Result, ok, err, leb,
  arith, length, any, nat_eq, list_eq, string_eq, ◌==◌, Bool-cases, ◌⊎◌, inl, inr,
}
use mumble_server_runtime.Base.Assoc.{get, values}
use mumble_server_runtime.Control.Ownership.{
  OwnershipRegistry, OwnershipState, ClaimRequest, ClaimOutcome, OwnershipError, acquired, put,
  resume, acquire, claim_of, claim, resumable, is_snapshot, is_nil, is_none, is_from_another,
  holds_token, owned_count, acquired_state, invalid_claim, snapshot_conflict, global_limit,
  owner_limit, fencing_token_collision,
}

-- The conditions under which a claim acquires the entity.
pub record Acquires (r : OwnershipRegistry) (request : ClaimRequest) : Type 0 where
  pub room : get r.entries request.entity_id ≡ none → length r.entries < r.maximum_entities
  pub owner_room :
      is_from_another request.owner (get r.entries request.entity_id) ≡ true
      → owned_count r.entries request.owner < r.maximum_entities_per_owner
  pub given : is_nil request.new_fencing_token ≡ false
  pub fresh : any (holds_token request.new_fencing_token) (values r.entries) ≡ false

abbrev Failed : OwnershipRegistry → OwnershipRegistry × Result OwnershipError ClaimOutcome → Type 0
Failed r result = (e : OwnershipError) × (result ≡ (r, err e))

abbrev Acquired :
    OwnershipRegistry
    → ClaimRequest
    → OwnershipRegistry × Result OwnershipError ClaimOutcome
    → Type 0
Acquired r request result =
    Acquires r request
    × (result ≡ (
      put r request.entity_id (acquired_state request),
      ok (acquired request.new_fencing_token (get r.entries request.entity_id)),
    ))

acquire-cases :
    (r : OwnershipRegistry) (request : ClaimRequest)
    → let result = acquire r request (get r.entries request.entity_id) in
      Failed r result ⊎ Acquired r request result
unfolding acquire
acquire-cases r request =
    let previous = get r.entries request.entity_id in
    elim (Bool-cases (is_none previous && leb r.maximum_entities (length r.entries))) [
      | inl full ↦ inl (global_limit, rw full)
      | inr room ↦
          elim (Bool-cases (
            is_from_another request.owner previous
            && leb r.maximum_entities_per_owner (owned_count r.entries request.owner))) [
              | inl over ↦ inl (owner_limit, rw (room, over))
              | inr owner_room ↦ elim (Bool-cases (is_nil request.new_fencing_token)) [
                | inl empty ↦ inl (invalid_claim, rw (room, owner_room, empty))
                | inr given ↦
                    elim (Bool-cases
                      (any (holds_token request.new_fencing_token) (values r.entries))) [
                        | inl collision ↦
                            inl (fencing_token_collision, rw (room, owner_room, given, collision))
                        | inr fresh ↦ inr (
                          record {
                            room = λ absent. let e = rw absent at room in ground (arith, e);
                            owner_room =
                                λ another. let e = rw another at owner_room in ground (arith, e);
                            given = given;
                            fresh = fresh;
                          },
                          rw (room, owner_room, given, fresh),
                        )
                      ]
              ]
            ]
    ]

abbrev Resumed :
    OwnershipRegistry
    → ClaimRequest
    → OwnershipRegistry × Result OwnershipError ClaimOutcome
    → Type 0
Resumed r request result =
    (current : OwnershipState) × (get r.entries request.entity_id ≡ some current)
    × (resumable current request ≡ true)
    × (result ≡ resume r request current)

abbrev Outcome :
    OwnershipRegistry
    → ClaimRequest
    → OwnershipRegistry × Result OwnershipError ClaimOutcome
    → Type 0
Outcome r request result = Failed r result ⊎ Resumed r request result ⊎ Acquired r request result

acquire-Outcome :
    (r : OwnershipRegistry) (request : ClaimRequest) (o : Option OwnershipState)
    → get r.entries request.entity_id ≡ o
    → Outcome r request (acquire r request o)
acquire-Outcome r request o e =
    subst (λ x. Outcome r request (acquire r request x)) e
      (elim (acquire-cases r request) [ inl failed ↦ inl failed | inr done ↦ inr (inr done) ])

claim_of-cases :
    (r : OwnershipRegistry) (request : ClaimRequest) (o : Option OwnershipState)
    → get r.entries request.entity_id ≡ o
    → Outcome r request (claim_of r request o)
unfolding claim_of
claim_of-cases r request none e = acquire-Outcome r request none e
claim_of-cases r request (some current) e = elim (Bool-cases (resumable current request)) [
  | inl may ↦ rw may (inr (inl (current, e, may, refl)))
  | inr mismatch ↦ elim (Bool-cases (is_snapshot request.mode)) [
    | inl passive ↦ rw (mismatch, passive) (inl (snapshot_conflict, refl))
    | inr takeover ↦
        let acquires : claim_of r request (some current) ≡ acquire r request (some current) =
          rw (mismatch, takeover) in
        subst (Outcome r request) (sym acquires) (acquire-Outcome r request (some current) e)
  ]
]

pub claim-cases :
    (r : OwnershipRegistry) (request : ClaimRequest)
    → let result = claim r request in
      Failed r result ⊎ Resumed r request result ⊎ Acquired r request result
unfolding claim
claim-cases r request =
    elim (Bool-cases ((request.entity_id == "") || is_nil request.registration_id)) [
      | inl bad ↦ inl (invalid_claim, rw bad)
      | inr good ↦ rw good (claim_of-cases r request (get r.entries request.entity_id) refl)
    ]
