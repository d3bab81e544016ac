-- ===== src/Shard/Routing.antt =====
-- runtime/crates/shard/src/routing.rs: who may hear whom, and the table compiled from it. A
-- `BTreeSet` is an ascending list; the compiled table, which is read by key, is an association list.
pub mod Silenced
pub mod Resolved
mod Examples
use mumble_server_runtime.Base.{
  ℕ, ◌≡◌, Bool, true, false, not, ◌&&◌, ◌||◌, Option, none, some, List, [], ◌∷◌, ◌++◌, any, filter,
  Eq, nat_eq, pair_eq, ◌==◌, if◌then◌else◌,
}
use mumble_server_runtime.Base.Assoc.{Assoc, get, retain}
use Prim.Native.Nat.{compare}
use Prim.Native.Nat.Ordering.{lt, eq, gt}
use mumble_server_runtime.Base.Btree.{pair_order}
use mumble_server_runtime.Base.Order.{contains, nat_order, sort, dedup, set_insert}
use mumble_server_runtime.Shard.View.{UserFlags}

pub record Silence : Type 0 where
  pub muted : List ℕ
  pub deafened : List ℕ

unfoldable pub record_flags : Silence → ℕ → UserFlags → Silence
unfolding set_insert
record_flags s session flags = record {
  muted =
      if flags.self_mute || flags.mute || flags.suppress
      then set_insert session s.muted
      else s.muted;
  deafened = if flags.self_deaf || flags.deaf then set_insert session s.deafened else s.deafened;
}

unfoldable pub may_speak : Silence → ℕ → Bool
may_speak s session = not (contains s.muted session)

unfoldable pub may_hear : Silence → ℕ → Bool
may_hear s session = not (contains s.deafened session)

pub record AudioRelation : Type 0 where
  pub domains : Assoc ℕ (List ℕ)
  pub listeners : List (ℕ × ℕ)
  pub edges : List (ℕ × ℕ)

unfoldable pub extend_set : List ℕ → List ℕ → List ℕ
unfolding set_insert
extend_set set [] = set
extend_set set (x ∷ xs) = extend_set (set_insert x set) xs

-- `entry(domain).or_default().extend(members)`
unfoldable pub extend_domain : Assoc ℕ (List ℕ) → ℕ → List ℕ → Assoc ℕ (List ℕ)
unfolding extend_set
extend_domain [] domain members = (domain, extend_set [] members) ∷ []
extend_domain ((d, set) ∷ m) domain members = elim (compare domain d) [
  | gt ↦ (d, set) ∷ extend_domain m domain members
  | eq ↦ (d, extend_set set members) ∷ m
  | lt ↦ (domain, extend_set [] members) ∷ (d, set) ∷ m
]

unfoldable pub declare_domain : AudioRelation → ℕ → List ℕ → AudioRelation
unfolding extend_domain
declare_domain r domain members = record r { domains = extend_domain r.domains domain members }

unfoldable pub listen : AudioRelation → ℕ → ℕ → AudioRelation
unfolding set_insert
listen r listener domain = record r { listeners = set_insert (listener, domain) r.listeners }

unfoldable pub edge : AudioRelation → ℕ → ℕ → AudioRelation
unfolding set_insert
edge r sender receiver = record r { edges = set_insert (sender, receiver) r.edges }

-- The listeners of declared domains, each with the members.
unfoldable pub listening_to : Assoc ℕ (List ℕ) → List (ℕ × ℕ) → List (ℕ × List ℕ)
unfolding get
listening_to domains [] = []
listening_to domains ((listener, domain) ∷ rest) =
    let later = listening_to domains rest in
    elim (get domains domain) [ none ↦ later | some members ↦ (listener, members) ∷ later ]

-- `if sender != receiver { resolved.insert((sender, receiver)) }`
unfoldable pub add_other : List (ℕ × ℕ) → ℕ → ℕ → List (ℕ × ℕ)
unfolding set_insert
add_other set sender receiver =
    if sender == receiver then set else set_insert (sender, receiver) set

unfoldable pub resolve_receivers : List (ℕ × ℕ) → ℕ → List ℕ → List (ℕ × ℕ)
unfolding add_other
resolve_receivers set sender [] = set
resolve_receivers set sender (receiver ∷ rest) =
    resolve_receivers (add_other set sender receiver) sender rest

unfoldable pub resolve_senders : List (ℕ × ℕ) → List ℕ → List ℕ → List (ℕ × ℕ)
unfolding resolve_receivers
resolve_senders set [] members = set
resolve_senders set (sender ∷ rest) members =
    resolve_senders (resolve_receivers set sender members) rest members

unfoldable pub resolve_domains : List (ℕ × ℕ) → Assoc ℕ (List ℕ) → List (ℕ × ℕ)
unfolding resolve_senders
resolve_domains set [] = set
resolve_domains set ((d, members) ∷ rest) =
    resolve_domains (resolve_senders set members members) rest

unfoldable pub resolve_listener : List (ℕ × ℕ) → ℕ → List ℕ → List (ℕ × ℕ)
unfolding add_other
resolve_listener set listener [] = set
resolve_listener set listener (sender ∷ rest) =
    resolve_listener (add_other set sender listener) listener rest

unfoldable pub resolve_listeners : List (ℕ × ℕ) → List (ℕ × List ℕ) → List (ℕ × ℕ)
unfolding resolve_listener
resolve_listeners set [] = set
resolve_listeners set ((listener, members) ∷ rest) =
    resolve_listeners (resolve_listener set listener members) rest

unfoldable pub resolve : AudioRelation → List (ℕ × ℕ)
unfolding resolve_domains resolve_listeners listening_to
resolve r =
    resolve_listeners (resolve_domains r.edges r.domains) (listening_to r.domains r.listeners)

pub record AudioRouting : Type 0 where
  pub table : Assoc ℕ (List ℕ)
  pub since_versions : Assoc ℕ ℕ
  pub silence : Silence

abbrev pub or_empty : Option (List ℕ) → List ℕ
or_empty none = []
or_empty (some list) = list

unfoldable pub receivers : AudioRouting → ℕ → List ℕ
unfolding get
receivers r sender = or_empty (get r.table sender)

unfoldable pub since : AudioRouting → ℕ → Option ℕ
unfolding get
since r session = get r.since_versions session

unfoldable pub is_heard_by : AudioRouting → ℕ → ℕ → Bool
unfolding receivers
is_heard_by r sender receiver = contains (receivers r sender) receiver

-- `entry(key).or_default()`, with `more` appended.
unfoldable pub append_entry : Assoc ℕ (List ℕ) → ℕ → List ℕ → Assoc ℕ (List ℕ)
append_entry [] key more = (key, more) ∷ []
append_entry ((j, list) ∷ m) key more =
    if j == key then (j, list ++ more) ∷ m else (j, list) ∷ append_entry m key more

-- The closure `resolve`: the sessions of the connections that are rendered.
sessions_of : Assoc ℕ ℕ → List ℕ → List ℕ
unfolding get
sessions_of session_of [] = []
sessions_of session_of (connection ∷ rest) =
    let later = sessions_of session_of rest in
    elim (get session_of connection) [ none ↦ later | some session ↦ session ∷ later ]

-- The loop over the listen declarations.
listening_on : Silence → Assoc ℕ ℕ → List (ℕ × ℕ) → Assoc ℕ (List ℕ) → Assoc ℕ (List ℕ)
unfolding get append_entry may_hear
listening_on silence session_of [] m = m
listening_on silence session_of ((listener, domain) ∷ rest) m =
    let skipped = listening_on silence session_of rest m in
    elim (get session_of listener) [
      | none ↦ skipped
      | some session ↦
          if may_hear silence session
          then listening_on silence session_of rest (append_entry m domain (session ∷ []))
          else skipped
    ]

-- The loop over the senders of one domain.
route_senders : Silence → List ℕ → List ℕ → List ℕ → Assoc ℕ (List ℕ) → Assoc ℕ (List ℕ)
unfolding append_entry may_speak
route_senders silence audience listening [] m = m
route_senders silence audience listening (sender ∷ rest) m =
    let others = λ (l : List ℕ). filter (λ receiver. not (receiver == sender)) l in
    route_senders silence audience listening rest (
      if may_speak silence sender
      then append_entry m sender (others audience ++ others listening)
      else m)

route_domains :
    Silence → Assoc ℕ ℕ → Assoc ℕ (List ℕ) → Assoc ℕ (List ℕ) → Assoc ℕ (List ℕ) → Assoc ℕ (List ℕ)
unfolding route_senders sessions_of get may_hear
route_domains silence session_of listeners [] m = m
route_domains silence session_of listeners ((domain, members) ∷ rest) m =
    let sessions = sessions_of session_of members in
    let audience = filter (may_hear silence) sessions in
    route_domains silence session_of listeners rest
      (route_senders silence audience (or_empty (get listeners domain)) sessions m)

-- One explicit edge, between two sessions.
route_edge : Silence → Option ℕ → Option ℕ → Assoc ℕ (List ℕ) → Assoc ℕ (List ℕ)
unfolding append_entry may_speak may_hear
route_edge silence (some sender) (some receiver) m =
    if not (may_speak silence sender) || not (may_hear silence receiver)
    then m
    else append_entry m sender (receiver ∷ [])
route_edge silence _ _ m = m

route_edges : Silence → Assoc ℕ ℕ → List (ℕ × ℕ) → Assoc ℕ (List ℕ) → Assoc ℕ (List ℕ)
unfolding route_edge get
route_edges silence session_of [] m = m
route_edges silence session_of ((sender, receiver) ∷ rest) m =
    route_edges silence session_of rest
      (route_edge silence (get session_of sender) (get session_of receiver) m)

-- `sort_unstable` and `dedup` of every list.
settled : Assoc ℕ (List ℕ) → Assoc ℕ (List ℕ)
unfolding sort dedup
settled [] = []
settled ((sender, list) ∷ m) = (sender, dedup (sort list)) ∷ settled m

abbrev pub is_empty_list : List ℕ → Bool
is_empty_list [] = true
is_empty_list (x ∷ xs) = false

unfoldable pub compile : AudioRelation → Assoc ℕ ℕ → Assoc ℕ ℕ → Silence → AudioRouting
unfolding listening_on route_domains route_edges settled retain
compile relation session_of since silence =
    let listeners = listening_on silence session_of relation.listeners [] in
    let routed = route_domains silence session_of listeners relation.domains [] in
    let all = route_edges silence session_of relation.edges routed in
    record {
      table = retain (λ _ list. not (is_empty_list list)) (settled all);
      since_versions = since;
      silence = silence;
    }
