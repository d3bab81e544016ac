-- ===== src/Control/Ownership.antt =====
-- control/coordination/rust/src/ownership.rs: who owns an entity, by fencing tokens. A method that
-- takes `&mut self` returns the registry beside its result; a byte vector is a list of numbers; the
-- hash map is an association list, whose order nothing may depend on.
pub mod Claims
pub mod Counts
pub mod Invariant
pub mod History
pub mod Fencing
mod Examples
use Prim.Native.String.{String}
use mumble_server_runtime.Base.{
  ℕ, ◌≡◌, Bool, true, false, not, ◌&&◌, ◌||◌, Option, none, some, List, [], ◌∷◌, Result, ok, err,
  ltb, leb, length, any, filter, map, nat_eq, list_eq, string_eq, ◌==◌, if◌then◌else◌,
}
use mumble_server_runtime.Base.Assoc.{Assoc, get, insert, remove, values}

pub data ClaimMode : Type 0 where
  snapshot : ClaimMode
  explicit : ClaimMode

pub record ClaimRequest : Type 0 where
  pub entity_id : String
  pub owner : ℕ
  pub registration_id : List ℕ
  pub presented_fencing_token : List ℕ
  pub client_revision : ℕ
  pub new_fencing_token : List ℕ
  pub mode : ClaimMode

pub record OwnershipState : Type 0 where
  pub entity_id : String
  pub owner : ℕ
  pub registration_id : List ℕ
  pub fencing_token : List ℕ
  pub client_revision : ℕ

pub data ClaimOutcome : Type 0 where
  resumed : List ℕ → Bool → ClaimOutcome
  acquired : List ℕ → Option OwnershipState → ClaimOutcome

pub data RevisionOutcome : Type 0 where
  unchanged : RevisionOutcome
  advanced : RevisionOutcome

pub data OwnershipError : Type 0 where
  invalid_claim : OwnershipError
  snapshot_conflict : OwnershipError
  global_limit : OwnershipError
  owner_limit : OwnershipError
  fencing_token_collision : OwnershipError
  not_found : OwnershipError
  ownership_lost : OwnershipError
  stale_revision : OwnershipError

pub record OwnershipRegistry : Type 0 where
  pub maximum_entities : ℕ
  pub maximum_entities_per_owner : ℕ
  pub entries : Assoc String OwnershipState

unfoldable pub new : ℕ → ℕ → OwnershipRegistry
new maximum_entities maximum_entities_per_owner = record {
  maximum_entities = maximum_entities;
  maximum_entities_per_owner = maximum_entities_per_owner;
  entries = [];
}

abbrev pub is_nil : List ℕ → Bool
is_nil [] = true
is_nil (x ∷ xs) = false

abbrev pub is_snapshot : ClaimMode → Bool
is_snapshot snapshot = true
is_snapshot explicit = false

abbrev pub is_owned_by : ℕ → OwnershipState → Bool
is_owned_by owner state = state.owner == owner

-- `entries.values().filter(|state| state.owner == owner).count()`
unfoldable pub owned_count : Assoc String OwnershipState → ℕ → ℕ
owned_count entries owner = length (filter (is_owned_by owner) (values entries))

abbrev pub holds_token : List ℕ → OwnershipState → Bool
holds_token token state = state.fencing_token == token

unfoldable pub resumable : OwnershipState → ClaimRequest → Bool
resumable current request =
    (current.owner == request.owner)
    && (current.registration_id == request.registration_id)
    && (not (is_snapshot request.mode)
        || (current.fencing_token == request.presented_fencing_token))

-- The mutation through `get_mut`, under the key that was looked up.
unfoldable pub put : OwnershipRegistry → String → OwnershipState → OwnershipRegistry
unfolding insert
put r id state = record r { entries = insert r.entries id state }

unfoldable pub resume :
    OwnershipRegistry
    → ClaimRequest
    → OwnershipState
    → OwnershipRegistry × Result OwnershipError ClaimOutcome
unfolding put
resume r request current =
    let revision_advanced = ltb current.client_revision request.client_revision in
    (
      if revision_advanced
          then put r request.entity_id
              (record current { client_revision = request.client_revision })
          else r,
      ok (resumed current.fencing_token revision_advanced),
    )

-- `previous.is_none_or(|state| state.owner != owner)`
abbrev pub is_from_another : ℕ → Option OwnershipState → Bool
is_from_another owner none = true
is_from_another owner (some state) = not (state.owner == owner)

abbrev pub is_none : Option OwnershipState → Bool
is_none none = true
is_none (some state) = false

abbrev pub acquired_state : ClaimRequest → OwnershipState
acquired_state request = record {
  entity_id = request.entity_id;
  owner = request.owner;
  registration_id = request.registration_id;
  fencing_token = request.new_fencing_token;
  client_revision = request.client_revision;
}

acquire :
    OwnershipRegistry
    → ClaimRequest
    → Option OwnershipState
    → OwnershipRegistry × Result OwnershipError ClaimOutcome
unfolding owned_count put
acquire r request previous =
    if is_none previous && leb r.maximum_entities (length r.entries)
    then (r, err global_limit)
    else if is_from_another request.owner previous
        && leb r.maximum_entities_per_owner (owned_count r.entries request.owner)
    then (r, err owner_limit)
    else if is_nil request.new_fencing_token
    then (r, err invalid_claim)
    else if any (holds_token request.new_fencing_token) (values r.entries)
    then (r, err fencing_token_collision)
    else (
      put r request.entity_id (acquired_state request),
      ok (acquired request.new_fencing_token previous),
    )

claim_of :
    OwnershipRegistry
    → ClaimRequest
    → Option OwnershipState
    → OwnershipRegistry × Result OwnershipError ClaimOutcome
unfolding resumable resume acquire
claim_of r request none = acquire r request none
claim_of r request (some current) =
    if resumable current request
    then resume r request current
    else if is_snapshot request.mode
    then (r, err snapshot_conflict)
    else acquire r request (some current)

unfoldable pub claim :
    OwnershipRegistry → ClaimRequest → OwnershipRegistry × Result OwnershipError ClaimOutcome
unfolding claim_of get
claim r request =
    if (request.entity_id == "") || is_nil request.registration_id
    then (r, err invalid_claim)
    else claim_of r request (get r.entries request.entity_id)

accept_of :
    OwnershipRegistry
    → String
    → ℕ
    → List ℕ
    → ℕ
    → Bool
    → Option OwnershipState
    → OwnershipRegistry × Result OwnershipError RevisionOutcome
unfolding put
accept_of r id owner token revision payload_unchanged none = (r, err not_found)
accept_of r id owner token revision payload_unchanged (some current) =
    if not (current.owner == owner) || not (current.fencing_token == token)
    then (r, err ownership_lost)
    else if ltb revision current.client_revision
        || ((revision == current.client_revision) && not payload_unchanged)
    then (r, err stale_revision)
    else if revision == current.client_revision
    then (r, ok unchanged)
    else (put r id (record current { client_revision = revision }), ok advanced)

unfoldable pub accept_revision :
    OwnershipRegistry
    → String
    → ℕ
    → List ℕ
    → ℕ
    → Bool
    → OwnershipRegistry × Result OwnershipError RevisionOutcome
unfolding accept_of get
accept_revision r id owner token revision payload_unchanged =
    accept_of r id owner token revision payload_unchanged (get r.entries id)

release_of :
    OwnershipRegistry
    → String
    → ℕ
    → List ℕ
    → List ℕ
    → Option OwnershipState
    → OwnershipRegistry × Result OwnershipError OwnershipState
unfolding remove
release_of r id owner registration token none = (r, err ownership_lost)
release_of r id owner registration token (some current) =
    if not (current.owner == owner)
      || not (current.registration_id == registration)
      || not (current.fencing_token == token)
    then (r, err ownership_lost)
    else (record r { entries = remove r.entries id }, ok current)

unfoldable pub release :
    OwnershipRegistry
    → String
    → ℕ
    → List ℕ
    → List ℕ
    → OwnershipRegistry × Result OwnershipError OwnershipState
unfolding release_of get
release r id owner registration token = release_of r id owner registration token (get r.entries id)

unfoldable pub owned_entities : OwnershipRegistry → ℕ → List String
owned_entities r owner =
    map (λ (state : OwnershipState). state.entity_id)
      (filter (is_owned_by owner) (values r.entries))
