-- ===== src/Shard/Routing/Silenced.antt =====
-- The compiled table, and who is muted or deafened.
use mumble_server_runtime.Base.{
  ℕ, ◌≡◌, sym, ap, ◌∙◌, Bool, true, not, Option, none, some, List, [], ◌∷◌, ◌++◌, filter, nat_eq,
  ◌==◌, arith, All, Bool-cases, Option-cases, inl, inr,
}
use mumble_server_runtime.Base.Assoc.{Assoc, get, retain}
use mumble_server_runtime.Base.Order.{contains, nat_order, sort, contains-sort, contains-dedup}
use mumble_server_runtime.Shard.Routing.{
  Silence, may_speak, may_hear, AudioRelation, receivers, is_heard_by, or_empty, append_entry,
  sessions_of, listening_on, route_senders, route_domains, route_edge, route_edges, settled,
  is_empty_list, compile,
}

module _ (silence : Silence) where
  abbrev Hears : List ℕ → Type 0
  Hears list = All (λ receiver. may_hear silence receiver ≡ true) list

  -- Lists of receivers that may hear, and senders that may speak.
  abbrev AllHear : Assoc ℕ (List ℕ) → Type 0
  AllHear m = All (λ (e : ℕ × List ℕ). Hears e.1) m

  abbrev Quiet : Assoc ℕ (List ℕ) → Type 0
  Quiet m = All (λ (e : ℕ × List ℕ). (may_speak silence e.0 ≡ true) × Hears e.1) m

  append-Hears : (xs ys : List ℕ) → Hears xs → Hears ys → Hears (xs ++ ys)
  append-Hears [] ys h k = k
  append-Hears (x ∷ xs) ys h k = (h.0, append-Hears xs ys h.1 k)

  filter-Hears : (p : ℕ → Bool) (xs : List ℕ) → Hears xs → Hears (filter p xs)
  filter-Hears p [] h = tt
  filter-Hears p (x ∷ xs) h = ground (arith, filter-Hears p xs h.1)

  filter_may-Hears : (xs : List ℕ) → Hears (filter (may_hear silence) xs)
  filter_may-Hears [] = tt
  filter_may-Hears (x ∷ xs) = ground (arith, filter_may-Hears xs)

  contains-Hears :
      (xs : List ℕ) (r : ℕ) → Hears xs → contains xs r ≡ true → may_hear silence r ≡ true
  contains-Hears [] r h e = ground arith
  contains-Hears (x ∷ xs) r h e = ground (arith, contains-Hears xs r h.1)

  append_entry-AllHear :
      (m : Assoc ℕ (List ℕ)) (key : ℕ) (more : List ℕ)
      → AllHear m
      → Hears more
      → AllHear (append_entry m key more)
  unfolding append_entry
  append_entry-AllHear [] key more h k = (k, tt)
  append_entry-AllHear ((j, list) ∷ m) key more h k = elim (Bool-cases (j == key)) [
    | inl same ↦ rw same (append-Hears list more h.0 k, h.1)
    | inr other ↦ rw other (h.0, append_entry-AllHear m key more h.1 k)
  ]

  append_entry-Quiet :
      (m : Assoc ℕ (List ℕ)) (key : ℕ) (more : List ℕ)
      → Quiet m
      → may_speak silence key ≡ true
      → Hears more
      → Quiet (append_entry m key more)
  unfolding append_entry
  append_entry-Quiet [] key more h s k = ((s, k), tt)
  append_entry-Quiet ((j, list) ∷ m) key more h s k = elim (Bool-cases (j == key)) [
    | inl same ↦ rw same ((h.0.0, append-Hears list more h.0.1 k), h.1)
    | inr other ↦ rw other (h.0, append_entry-Quiet m key more h.1 s k)
  ]

  listening_on-AllHear :
      (session_of : Assoc ℕ ℕ) (ls : List (ℕ × ℕ)) (m : Assoc ℕ (List ℕ))
      → AllHear m
      → AllHear (listening_on silence session_of ls m)
  unfolding listening_on
  listening_on-AllHear session_of [] m h = h
  listening_on-AllHear session_of ((listener, domain) ∷ rest) m h =
      elim (Option-cases (get session_of listener)) [
        | inl absent ↦ rw (absent, listening_on) (listening_on-AllHear session_of rest m h)
        | inr (session, present) ↦ elim (Bool-cases (may_hear silence session)) [
          | inl may ↦
              rw (present, may, listening_on)
                (listening_on-AllHear session_of rest (append_entry m domain (session ∷ []))
                  (append_entry-AllHear m domain (session ∷ []) h (may, tt)))
          | inr deaf ↦ rw (present, deaf, listening_on) (listening_on-AllHear session_of rest m h)
        ]
      ]

  or_empty-Hears : (m : Assoc ℕ (List ℕ)) (key : ℕ) → AllHear m → Hears (or_empty (get m key))
  unfolding get
  or_empty-Hears [] key h = tt
  or_empty-Hears ((j, list) ∷ m) key h = elim (Bool-cases (j == key)) [
    | inl same ↦ rw same h.0
    | inr other ↦ rw other (or_empty-Hears m key h.1)
  ]

  route_senders-Quiet :
      (audience listening senders : List ℕ) (m : Assoc ℕ (List ℕ))
      → Hears audience
      → Hears listening
      → Quiet m
      → Quiet (route_senders silence audience listening senders m)
  unfolding route_senders
  route_senders-Quiet audience listening [] m a l h = h
  route_senders-Quiet audience listening (sender ∷ rest) m a l h =
      elim (Bool-cases (may_speak silence sender)) [
        | inl speaks ↦
            rw (speaks, route_senders)
              (route_senders-Quiet audience listening rest _ a l (
                append_entry-Quiet m sender _ h speaks
                  (append-Hears _ _ (filter-Hears _ audience a) (filter-Hears _ listening l))))
        | inr muted ↦
            rw (muted, route_senders) (route_senders-Quiet audience listening rest m a l h)
      ]

  route_domains-Quiet :
      (session_of : Assoc ℕ ℕ) (listeners domains m : Assoc ℕ (List ℕ))
      → AllHear listeners
      → Quiet m
      → Quiet (route_domains silence session_of listeners domains m)
  unfolding route_domains
  route_domains-Quiet session_of listeners [] m l h = h
  route_domains-Quiet session_of listeners ((domain, members) ∷ rest) m l h =
      let sessions = sessions_of session_of members in
      route_domains-Quiet session_of listeners rest _ l (
        route_senders-Quiet (filter (may_hear silence) sessions) (or_empty (get listeners domain))
          sessions m (filter_may-Hears sessions) (or_empty-Hears listeners domain l) h)

  route_edge-Quiet :
      (sender receiver : Option ℕ) (m : Assoc ℕ (List ℕ))
      → Quiet m
      → Quiet (route_edge silence sender receiver m)
  unfolding route_edge
  route_edge-Quiet none receiver m h = h
  route_edge-Quiet (some sender) none m h = h
  route_edge-Quiet (some sender) (some receiver) m h =
      elim (Bool-cases (may_speak silence sender)) [
        | inl speaks ↦ elim (Bool-cases (may_hear silence receiver)) [
          | inl may ↦
              rw (speaks, may, route_edge)
                (append_entry-Quiet m sender (receiver ∷ []) h speaks (may, tt))
          | inr deaf ↦ rw (speaks, deaf, route_edge) h
        ]
        | inr muted ↦ rw (muted, route_edge) h
      ]

  route_edges-Quiet :
      (session_of : Assoc ℕ ℕ) (edges : List (ℕ × ℕ)) (m : Assoc ℕ (List ℕ))
      → Quiet m
      → Quiet (route_edges silence session_of edges m)
  unfolding route_edges
  route_edges-Quiet session_of [] m h = h
  route_edges-Quiet session_of ((sender, receiver) ∷ rest) m h =
      route_edges-Quiet session_of rest _
        (route_edge-Quiet (get session_of sender) (get session_of receiver) m h)

  -- The same of a table that is read by membership.
  abbrev QuietTable : Assoc ℕ (List ℕ) → Type 0
  QuietTable m =
      All
        (λ (e : ℕ × List ℕ).
          (may_speak silence e.0 ≡ true)
          × ((r : ℕ) → contains e.1 r ≡ true → may_hear silence r ≡ true))
        m

  settled-QuietTable : (m : Assoc ℕ (List ℕ)) → Quiet m → QuietTable (settled m)
  unfolding settled
  settled-QuietTable [] h = tt
  settled-QuietTable ((sender, list) ∷ m) h = (
    (
      h.0.0,
      λ r e.
          contains-Hears list r h.0.1
            (sym (contains-dedup (sort list) r ∙ contains-sort list r) ∙ e),
    ),
    settled-QuietTable m h.1,
  )

  retain-QuietTable :
      (keep : ℕ → List ℕ → Bool) (m : Assoc ℕ (List ℕ)) → QuietTable m → QuietTable (retain keep m)
  unfolding retain
  retain-QuietTable keep [] h = tt
  retain-QuietTable keep ((sender, list) ∷ m) h = elim (Bool-cases (keep sender list)) [
    | inl kept ↦ rw kept (h.0, retain-QuietTable keep m h.1)
    | inr lost ↦ rw lost (retain-QuietTable keep m h.1)
  ]

  heard-QuietTable :
      (m : Assoc ℕ (List ℕ)) (s r : ℕ)
      → QuietTable m
      → contains (or_empty (get m s)) r ≡ true
      → (may_speak silence s ≡ true) × (may_hear silence r ≡ true)
  unfolding get
  heard-QuietTable [] s r h e = cc
  heard-QuietTable ((sender, list) ∷ m) s r h e = elim (Bool-cases (sender == s)) [
    | inl same ↦
        let k : sender ≡ s = (nat_eq.beq_iff sender s).0 same in
        let e' = rw same at e in (sym (ap (may_speak silence) k) ∙ h.0.0, h.0.1 r e')
    | inr other ↦ heard-QuietTable m s r h.1 (rw other at e)
  ]

  -- In a compiled table, whoever is heard by anyone may speak, and whoever hears anyone may hear:
  -- a muted session has no receivers and a deafened one receives nothing, whatever was declared.
  pub compile_silences :
      (relation : AudioRelation) (session_of versions : Assoc ℕ ℕ) (sender receiver : ℕ)
      → is_heard_by (compile relation session_of versions silence) sender receiver ≡ true
      → (may_speak silence sender ≡ true) × (may_hear silence receiver ≡ true)
  unfolding compile is_heard_by receivers
  compile_silences relation session_of versions sender receiver e =
      let listeners = listening_on silence session_of relation.listeners [] in
      let routed = route_domains silence session_of listeners relation.domains [] in
      heard-QuietTable _ sender receiver
        (retain-QuietTable (λ _ list. not (is_empty_list list)) _
          (settled-QuietTable _ (
            route_edges-Quiet session_of relation.edges routed (
              route_domains-Quiet session_of listeners relation.domains []
                (listening_on-AllHear session_of relation.listeners [] tt) tt))))
        e
