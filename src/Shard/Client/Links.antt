-- ===== src/Shard/Client/Links.antt =====
-- The links of a channel that is sent anew while a client shows it.
use mumble_server_runtime.Base.{
  ℕ, suc, ◌≡◌, refl, ap, subst, Bool, true, false, not, ◌&&◌, ◌||◌, Option, none, some, List, [],
  ◌∷◌, arith, inl, inr, nat_eq, ◌==◌, Bool-cases, if◌then◌else◌,
}
use mumble_server_runtime.Base.Order.{contains, nat_order}
use mumble_server_runtime.Shard.Plan.{
  PlanOp, create_channel, update_channel, add_user, move_user, update_user, remove_user,
  remove_channel, is_nil,
}
use mumble_server_runtime.Shard.Client.{
  ShownChannel, shown_channel, patched_channel, map_option, or_else, act_channel, ClientView,
  apply_all,
}
use mumble_server_runtime.Shard.Client.Element.{run}

-- What an operation would make of channel `c` if a channel that is sent anew were replaced whole.
unfoldable pub replace_channel : ℕ → Option ShownChannel → PlanOp → Option ShownChannel
replace_channel c st (create_channel channel) =
    if channel.id == c then some (shown_channel channel) else st
replace_channel c st (update_channel p) =
    if p.id == c then map_option (patched_channel p) st else st
replace_channel c st (remove_channel id) = if id == c then none else st
replace_channel c st _ = st

-- The operation sends a channel anew, without links, that the client shows.
abbrev pub is_bare : ℕ → Option ShownChannel → PlanOp → Bool
is_bare c (some old) (create_channel channel) = (channel.id == c) && is_nil channel.links
is_bare c _ _ = false

-- One of the operations does.
unfoldable pub sent_bare : ℕ → Option ShownChannel → List PlanOp → Bool
unfolding act_channel
sent_bare c st [] = false
sent_bare c st (op ∷ ops) = is_bare c st op || sent_bare c (act_channel c st op) ops

-- A channel is shown as it is to be; where it was sent anew without links, it may have more of them.
pub record IsShownChannel (bare : Bool) (now due : ShownChannel) : Type 0 where
  pub parent : now.parent ≡ due.parent
  pub name : now.name ≡ due.name
  pub position : now.position ≡ due.position
  pub can_enter : now.can_enter ≡ due.can_enter
  pub links : (x : ℕ) → now.links x ≡ (due.links x || (bare && now.links x))

abbrev pub IsShown : Bool → Option ShownChannel → Option ShownChannel → Type 0
IsShown bare none none = Unit {0}
IsShown bare (some now) (some due) = IsShownChannel bare now due
IsShown bare none (some due) = ⊥
IsShown bare (some now) none = ⊥

weaken : (a b x y : Bool) → x ≡ (y || (a && x)) → x ≡ (y || ((a || b) && x))
weaken a b x y h = ground arith

IsShown-or :
    (a b : Bool) (now due : Option ShownChannel) → IsShown a now due → IsShown (a || b) now due
IsShown-or a b none none v = v
IsShown-or a b (some now) (some due) v = record {
  parent = v.parent;
  name = v.name;
  position = v.position;
  can_enter = v.can_enter;
  links = λ x. weaken a b (now.links x) (due.links x) (v.links x);
}
IsShown-or a b none (some due) v = v
IsShown-or a b (some now) none v = v

same : (b : Bool) (x : Bool) → x ≡ (x || (b && x))
same b x = ground arith

pub IsShown-refl : (b : Bool) (st : Option ShownChannel) → IsShown b st st
IsShown-refl b none = tt
IsShown-refl b (some s) = record {
  parent = refl;
  name = refl;
  position = refl;
  can_enter = refl;
  links = λ x. same b (s.links x);
}

patched :
    (b now due gone more : Bool)
    → now ≡ (due || (b && now))
    → ((now && not gone) || more)
      ≡ (((due && not gone) || more) || (b && ((now && not gone) || more)))
patched b now due gone more h = ground arith

-- The links of a channel sent anew, by whether it has some.
resent_links :
    (b : Bool) (old : ℕ → Bool) (links : List ℕ) (x : ℕ)
    → let now : ℕ → Bool = if is_nil links then old else contains links in
      now x ≡ (contains links x || ((b || is_nil links) && now x))
resent_links b old [] x = any_more b (old x)
  where
    any_more : (a x : Bool) → x ≡ (false || ((a || true) && x))
    any_more a x = ground arith
resent_links b old (y ∷ links) x = same (b || false) (contains (y ∷ links) x)

step :
    (c : ℕ) (b : Bool) (now due : Option ShownChannel) (op : PlanOp)
    → (c == 0) ≡ false
    → IsShown b now due
    → IsShown (b || is_bare c now op) (act_channel c now op) (replace_channel c due op)
unfolding act_channel replace_channel
step c b none none (create_channel channel) h v = elim (Bool-cases (channel.id == c)) [
  | inl hit ↦ rw (hit, h) (IsShown-refl (b || false) (some (shown_channel channel)))
  | inr miss ↦ rw miss tt
]
step c b (some now) (some due) (create_channel channel) h v = elim (Bool-cases (channel.id == c)) [
  | inl hit ↦
      rw (hit, h)
        (record {
          parent = refl;
          name = refl;
          position = refl;
          can_enter = refl;
          links = resent_links b now.links channel.links;
        })
  | inr miss ↦ rw miss (IsShown-or b false (some now) (some due) v)
]
step c b none none (update_channel p) h v = elim (Bool-cases (p.id == c)) [
  | inl hit ↦ rw hit tt
  | inr miss ↦ rw miss tt
]
step c b (some now) (some due) (update_channel p) h v =
    let kept = IsShown-or b false (some now) (some due) v in
    elim (Bool-cases (p.id == c)) [
      | inl hit ↦
          rw (hit, h)
            (record {
              parent = ap (or_else p.parent) v.parent;
              name = ap (or_else p.name) v.name;
              position = ap (or_else p.position) v.position;
              can_enter = ap (or_else p.can_enter) v.can_enter;
              links = λ x.
                  patched (b || false) (now.links x) (due.links x) (contains p.links_removed x)
                    (contains p.links_added x) (kept.links x);
            })
      | inr miss ↦ rw miss kept
    ]
step c b none none (remove_channel id) h v = elim (Bool-cases (id == c)) [
  | inl hit ↦ rw (hit, h) tt
  | inr miss ↦ rw miss tt
]
step c b (some now) (some due) (remove_channel id) h v = elim (Bool-cases (id == c)) [
  | inl hit ↦ rw (hit, h) tt
  | inr miss ↦ rw miss (IsShown-or b false (some now) (some due) v)
]
step c b none none (add_user user) h v = tt
step c b none none (move_user session channel) h v = tt
step c b none none (update_user p) h v = tt
step c b none none (remove_user session) h v = tt
step c b (some now) (some due) (add_user user) h v = IsShown-or b false (some now) (some due) v
step c b (some now) (some due) (move_user session channel) h v =
    IsShown-or b false (some now) (some due) v
step c b (some now) (some due) (update_user p) h v = IsShown-or b false (some now) (some due) v
step c b (some now) (some due) (remove_user session) h v =
    IsShown-or b false (some now) (some due) v
step c b none (some due) op h v = absurd v
step c b (some now) none op h v = absurd v

run-IsShown :
    (c : ℕ) (b : Bool) (now due : Option ShownChannel) (ops : List PlanOp)
    → (c == 0) ≡ false
    → IsShown b now due
    → IsShown
        (b || sent_bare c now ops)
        (run (act_channel c) now ops)
        (run (replace_channel c) due ops)
unfolding run sent_bare
run-IsShown c b now due [] h v = IsShown-or b false now due v
run-IsShown c b now due (op ∷ ops) h v =
    subst
      (λ a.
        IsShown a (run (act_channel c) (act_channel c now op) ops)
          (run (replace_channel c) (replace_channel c due op) ops))
      (or_assoc b (is_bare c now op) (sent_bare c (act_channel c now op) ops))
      (run-IsShown c (b || is_bare c now op) (act_channel c now op) (replace_channel c due op) ops h
        (step c b now due op h v))
  where
    or_assoc : (x y z : Bool) → ((x || y) || z) ≡ (x || (y || z))
    or_assoc x y z = ground arith

-- From the same state, and but for the root.
pub sent-IsShown :
    (k : ℕ) (st : Option ShownChannel) (ops : List PlanOp)
    → IsShown
        (sent_bare (suc k) st ops)
        (run (act_channel (suc k)) st ops)
        (run (replace_channel (suc k)) st ops)
sent-IsShown k st ops = run-IsShown (suc k) false st st ops (ground arith) (IsShown-refl false st)

-- The operations take a client that shows `held` to one that shows what is due: of channel `suc k`
-- all but the links, of which it may show more where it is sent anew without any, and of user `k` all.
abbrev pub Shows : ClientView → List PlanOp → ClientView → ℕ → Type 0
Shows held ops due k =
    IsShown (sent_bare (suc k) (held.channels (suc k)) ops) ((apply_all held ops).channels (suc k))
      (due.channels (suc k))
    × ((apply_all held ops).users k ≡ due.users k)
