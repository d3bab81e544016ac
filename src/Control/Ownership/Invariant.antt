-- ===== src/Control/Ownership/Invariant.antt =====
-- The registry's limits and its tokens, call by call.
use Prim.Native.String.{String}
use mathlib.Core.Bool.{false≢true}
use mumble_server_runtime.Base.{
  ℕ, ◌+◌, ◌≤◌, ◌<◌, ◌≡◌, refl, sym, subst, ap, ◌∙◌, Bool, true, not, ◌&&◌, ◌||◌, Option, none, some,
  List, ltb, arith, length, nat_eq, list_eq, list_beq_iff, string_eq, ◌==◌, eq_self, Bool-cases,
  Option-cases, inl, inr,
}
use mumble_server_runtime.Base.Assoc.{
  Assoc, get, insert, remove, IsDistinct, insert-IsDistinct, remove-IsDistinct, get-insert,
  get-remove, length-insert, length-remove,
}
use mumble_server_runtime.Control.Ownership.{
  OwnershipRegistry, OwnershipState, ClaimRequest, new, put, resume, claim, accept_of,
  accept_revision, release_of, release, is_from_another, owned_count, acquired_state,
}
use mumble_server_runtime.Control.Ownership.Claims.{Acquires, claim-cases}
use mumble_server_runtime.Control.Ownership.Counts.{
  share, owned_count-insert, owned_count-remove, token_fresh,
}

-- The limits hold, each entity stands under its id, and no two entities share a fencing token.
pub record IsRegistry (r : OwnershipRegistry) : Type 0 where
  pub bounded : length r.entries ≤ r.maximum_entities
  pub owners_bounded : (o : ℕ) → owned_count r.entries o ≤ r.maximum_entities_per_owner
  pub distinct : IsDistinct r.entries
  pub keyed : (i : String) (s : OwnershipState) → get r.entries i ≡ some s → s.entity_id ≡ i
  pub tokens :
      (i j : String) (s t : OwnershipState)
      → get r.entries i ≡ some s
      → get r.entries j ≡ some t
      → s.fencing_token ≡ t.fencing_token
      → i ≡ j

pub new-IsRegistry : (n k : ℕ) → IsRegistry (new n k)
unfolding new owned_count get
new-IsRegistry n k = record {
  bounded = omega arith;
  owners_bounded = λ o. omega arith;
  distinct = tt;
  keyed = λ i s e. cc;
  tokens = λ i j s t e f g. cc;
}

put-bounded :
    (m : Assoc String OwnershipState) (id : String) (state : OwnershipState) (n : ℕ)
    → length m ≤ n
    → (get m id ≡ none → length m < n)
    → length (insert m id state) ≤ n
put-bounded m id state n h room = elim (Option-cases (get m id)) [
  | inl absent ↦ let l = room absent in rw (length-insert m id state, absent) (omega arith)
  | inr (w, present) ↦ rw (length-insert m id state, present) h
]

-- The entry of another session, or none, makes room for one more; one's own entry is replaced.
share_bound :
    (o c c' n owner : ℕ) (before : Option OwnershipState)
    → (owner == o) ≡ true
    → c' + share o before ≡ c + 1
    → c ≤ n
    → (is_from_another owner before ≡ true → c < n)
    → c' ≤ n
share_bound o c c' n owner none h e l room = let r = room refl in omega arith
share_bound o c c' n owner (some w) h e l room = ground arith

put-owners :
    (m : Assoc String OwnershipState) (id : String) (state : OwnershipState) (n o : ℕ)
    → owned_count m o ≤ n
    → (is_from_another state.owner (get m id) ≡ true → owned_count m state.owner < n)
    → owned_count (insert m id state) o ≤ n
put-owners m id state n o h room = elim (Bool-cases (state.owner == o)) [
  | inl mine ↦
      let e : state.owner ≡ o = (nat_eq.beq_iff state.owner o).0 mine in
      let count = owned_count-insert m id state o in
      share_bound o (owned_count m o) (owned_count (insert m id state) o) n state.owner (get m id)
        mine (rw mine at count) h
        (subst (λ t. is_from_another state.owner (get m id) ≡ true → owned_count m t < n) e room)
  | inr other ↦
      let count = owned_count-insert m id state o in let c = rw other at count in omega arith
]

put-keyed :
    (m : Assoc String OwnershipState) (id : String) (state : OwnershipState)
    → state.entity_id ≡ id
    → ((i : String) (s : OwnershipState) → get m i ≡ some s → s.entity_id ≡ i)
    → (i : String) (s : OwnershipState) → get (insert m id state) i ≡ some s
    → s.entity_id ≡ i
put-keyed m id state k h i s e =
    ground (arith, get-insert m id i state, string_eq.beq_iff id i, h i s)

put-tokens :
    (m : Assoc String OwnershipState) (id : String) (state : OwnershipState)
    → ((j : String) (t : OwnershipState)
        → get m j ≡ some t
        → t.fencing_token ≡ state.fencing_token
        → j ≡ id)
    → ((i j : String) (s t : OwnershipState)
        → get m i ≡ some s
        → get m j ≡ some t
        → s.fencing_token ≡ t.fencing_token
        → i ≡ j)
    → (i j : String) (s t : OwnershipState) → get (insert m id state) i ≡ some s
    → get (insert m id state) j ≡ some t
    → s.fencing_token ≡ t.fencing_token
    → i ≡ j
put-tokens m id state fresh h i j s t e f g = ground (
  arith,
  get-insert m id i state,
  get-insert m id j state,
  string_eq.beq_iff id i,
  string_eq.beq_iff id j,
  h i j s t,
  fresh i s,
  fresh j t,
)

put-IsRegistry :
    (r : OwnershipRegistry) (id : String) (state : OwnershipState)
    → IsRegistry r
    → state.entity_id ≡ id
    → (get r.entries id ≡ none → length r.entries < r.maximum_entities)
    → (is_from_another state.owner (get r.entries id) ≡ true
        → owned_count r.entries state.owner < r.maximum_entities_per_owner)
    → ((j : String) (t : OwnershipState)
        → get r.entries j ≡ some t
        → t.fencing_token ≡ state.fencing_token
        → j ≡ id)
    → IsRegistry (put r id state)
unfolding put
put-IsRegistry r id state h k room owner_room fresh = record {
  bounded = put-bounded r.entries id state r.maximum_entities h.bounded room;
  owners_bounded = λ o.
      put-owners r.entries id state r.maximum_entities_per_owner o (h.owners_bounded o) owner_room;
  distinct = insert-IsDistinct r.entries id state h.distinct;
  keyed = put-keyed r.entries id state k h.keyed;
  tokens = put-tokens r.entries id state fresh h.tokens;
}

-- A new revision of a live entry.
revise-IsRegistry :
    (r : OwnershipRegistry) (id : String) (current : OwnershipState) (revision : ℕ)
    → IsRegistry r
    → get r.entries id ≡ some current
    → IsRegistry (put r id (record current { client_revision = revision }))
revise-IsRegistry r id current revision h e =
    put-IsRegistry r id (record current { client_revision = revision }) h (h.keyed id current e)
      (λ absent. cc) (λ another. let a = rw (e, eq_self current.owner) at another in cc)
      (λ j t f g. h.tokens j id t current f e g)

acquire-IsRegistry :
    (r : OwnershipRegistry) (request : ClaimRequest)
    → IsRegistry r
    → Acquires r request
    → IsRegistry (put r request.entity_id (acquired_state request))
acquire-IsRegistry r request h a =
    put-IsRegistry r request.entity_id (acquired_state request) h refl a.room a.owner_room
      (λ j t f g. absurd (
        false≢true (
          sym (token_fresh r.entries request.new_fencing_token j t a.fresh f)
          ∙ (list_beq_iff t.fencing_token request.new_fencing_token).1 g)))

-- A claim keeps the limits on the entities, in all and of each owner, and no two entities ever
-- share a fencing token.
pub claim-IsRegistry :
    (r : OwnershipRegistry) (request : ClaimRequest) → IsRegistry r → IsRegistry (claim r request).0
unfolding resume
claim-IsRegistry r request h = elim (claim-cases r request) [
  | inl (e, failed) ↦ subst IsRegistry (sym (ap (λ p. p.0) failed)) h
  | inr (inl (current, live, may, resumed_so)) ↦
      subst IsRegistry (sym (ap (λ p. p.0) resumed_so))
        (elim (Bool-cases (ltb current.client_revision request.client_revision)) [
          | inl newer ↦
              rw newer
                (revise-IsRegistry r request.entity_id current request.client_revision h live)
          | inr older ↦ rw older h
        ])
  | inr (inr (a, done)) ↦
      subst IsRegistry (sym (ap (λ p. p.0) done)) (acquire-IsRegistry r request h a)
]

-- The two other calls that change the registry.
accept_of-IsRegistry :
    (r : OwnershipRegistry) (id : String) (owner : ℕ) (token : List ℕ) (revision : ℕ) (same : Bool)
    (o : Option OwnershipState)
    → IsRegistry r
    → get r.entries id ≡ o
    → IsRegistry (accept_of r id owner token revision same o).0
unfolding accept_of
accept_of-IsRegistry r id owner token revision same none h e = h
accept_of-IsRegistry r id owner token revision same (some current) h e =
    let keep = revise-IsRegistry r id current revision h e in
    elim (Bool-cases (not (current.owner == owner) || not (current.fencing_token == token))) [
      | inl lost ↦ rw lost h
      | inr held ↦
          elim (Bool-cases (
            ltb revision current.client_revision
            || ((revision == current.client_revision) && not same))) [
              | inl stale ↦ rw (held, stale) h
              | inr fine ↦ elim (Bool-cases (revision == current.client_revision)) [
                | inl again ↦ rw (held, fine, again) h
                | inr forward ↦ rw (held, fine, forward) keep
              ]
            ]
    ]

pub accept_revision-IsRegistry :
    (r : OwnershipRegistry) (id : String) (owner : ℕ) (token : List ℕ) (revision : ℕ) (same : Bool)
    → IsRegistry r
    → IsRegistry (accept_revision r id owner token revision same).0
unfolding accept_revision
accept_revision-IsRegistry r id owner token revision same h =
    accept_of-IsRegistry r id owner token revision same (get r.entries id) h refl

remove-IsRegistry :
    (r : OwnershipRegistry) (id : String)
    → IsRegistry r
    → IsRegistry (record r { entries = remove r.entries id })
remove-IsRegistry r id h = record {
  bounded = omega (arith, length-remove r.entries id, h.bounded);
  owners_bounded = λ o. omega (arith, owned_count-remove r.entries id o, h.owners_bounded o);
  distinct = remove-IsDistinct r.entries id h.distinct;
  keyed = λ i s e. ground (arith, get-remove r.entries id i, h.keyed i s);
  tokens = λ i j s t e f g.
      ground (arith, get-remove r.entries id i, get-remove r.entries id j, h.tokens i j s t);
}

release_of-IsRegistry :
    (r : OwnershipRegistry) (id : String) (owner : ℕ) (registration token : List ℕ)
    (o : Option OwnershipState)
    → IsRegistry r
    → IsRegistry (release_of r id owner registration token o).0
unfolding release_of
release_of-IsRegistry r id owner registration token none h = h
release_of-IsRegistry r id owner registration token (some current) h =
    elim (Bool-cases (
      not (current.owner == owner)
      || not (current.registration_id == registration)
      || not (current.fencing_token == token))) [
        | inl lost ↦ rw lost h
        | inr held ↦ rw held (remove-IsRegistry r id h)
      ]

pub release-IsRegistry :
    (r : OwnershipRegistry) (id : String) (owner : ℕ) (registration token : List ℕ)
    → IsRegistry r
    → IsRegistry (release r id owner registration token).0
unfolding release
release-IsRegistry r id owner registration token h =
    release_of-IsRegistry r id owner registration token (get r.entries id) h
