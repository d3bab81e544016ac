-- ===== src/Control/Reliable/Log.antt =====
-- The log of one session: a bounded queue of request ids and their results.
use mathlib.Core.Bool.{false≢true}
use mumble_server_runtime.Base.{
  ℕ, ◌≤◌, ◌≡◌, refl, sym, ap, ◌∙◌, Bool, true, false, ◌||◌, some, List, [], ◌∷◌, ◌++◌, ltb, length,
  any, nat_eq, list_eq, list_beq, list_beq_iff, if◌then◌else◌, arith, Bool-cases, inl, inr,
}
use mumble_server_runtime.Base.Assoc.{Assoc, get, insert, remove, get-insert, get-remove}
use mumble_server_runtime.Control.Reliable.{SessionLog, is_some, trim, log_completed, empty_log}

abbrev pub member : List (List ℕ) → List ℕ → Bool
member order id = any (λ x. list_eq.beq x id) order

abbrev pub IsUnique : List (List ℕ) → Type 0
IsUnique [] = Unit
IsUnique (x ∷ order) = (member order x ≡ false) × IsUnique order

member-append :
    (xs ys : List (List ℕ)) (id : List ℕ) → member (xs ++ ys) id ≡ (member xs id || member ys id)
member-append [] ys id = refl
member-append (x ∷ xs) ys id = ground (arith, member-append xs ys id)

append-IsUnique :
    (order : List (List ℕ)) (id : List ℕ)
    → IsUnique order
    → member order id ≡ false
    → IsUnique (order ++ id ∷ [])
append-IsUnique [] id u out = (refl, tt)
append-IsUnique (x ∷ order) id u out =
    let o : (list_beq x id ≡ false) × (member order id ≡ false) = (ground arith, ground arith) in
    (apart o.0, append-IsUnique order id u.1 o.1)
  where
    apart : list_beq x id ≡ false → member (order ++ id ∷ []) x ≡ false
    apart differs = elim (Bool-cases (list_beq id x)) [
      | inl same ↦
          absurd
            (false≢true (sym differs ∙ (list_beq_iff x id).1 (sym ((list_beq_iff id x).0 same))))
      | inr other ↦ member-append order (id ∷ []) x ∙ rw (u.0, other)
    ]

not_last :
    (x : List ℕ) (order : List (List ℕ)) (id : List ℕ)
    → member (order ++ id ∷ []) x ≡ false
    → list_beq x id ≡ false
not_last x order id out = elim (Bool-cases (list_beq x id)) [
  | inl same ↦
      let e : list_beq id x ≡ true = (list_beq_iff id x).1 (sym ((list_beq_iff x id).0 same)) in
      absurd (false≢true (sym out ∙ member-append order (id ∷ []) x ∙ rw e (ground arith)))
  | inr other ↦ other
]

module _ {Output : Type 0} where
  -- The ids in order are those that have a result, each once, and not more than the maximum.
  pub record IsLog (maximum : ℕ) (log : SessionLog Output) : Type 0 where
    pub bounded : length log.order ≤ maximum
    pub unique : IsUnique log.order
    pub ids : (id : List ℕ) → is_some (get log.completed id) ≡ member log.order id

  pub empty_log-IsLog : (maximum : ℕ) → IsLog maximum empty_log
  unfolding get
  empty_log-IsLog maximum = record { bounded = omega arith; unique = tt; ids = λ id. refl }

  -- Of an id that stands once, nothing is left once it is removed.
  remove_ids :
      (x : List ℕ) (order : List (List ℕ)) (completed : Assoc (List ℕ) Output)
      → member order x ≡ false
      → ((id : List ℕ) → is_some (get completed id) ≡ member (x ∷ order) id)
      → (id : List ℕ) → is_some (get (remove completed x) id) ≡ member order id
  remove_ids x order completed out ids id =
      let e = get-remove completed x id in
      let was = ids id in
      elim (Bool-cases (list_beq x id)) [
        | inl same ↦ rw (e, same) (sym (sym (ap (member order) ((list_beq_iff x id).0 same)) ∙ out))
        | inr other ↦ rw (e, other) (let w = rw other at was in w)
      ]

  trim-IsLog :
      (maximum : ℕ) (order : List (List ℕ)) (completed : Assoc (List ℕ) Output)
      → IsUnique order
      → ((id : List ℕ) → is_some (get completed id) ≡ member order id)
      → IsLog maximum (trim maximum order completed)
  unfolding trim
  trim-IsLog maximum [] completed u ids = record { bounded = omega arith; unique = tt; ids = ids }
  trim-IsLog maximum (x ∷ order) completed u ids =
      elim (Bool-cases (ltb maximum (length (x ∷ order)))) [
        | inl over ↦ rw over (
            trim-IsLog maximum order (remove completed x) u.1
              (remove_ids x order completed u.0 ids))
        | inr fits ↦ rw fits (record { bounded = ground arith; unique = u; ids = ids })
      ]

  grown_ids :
      (order : List (List ℕ)) (completed : Assoc (List ℕ) Output) (id : List ℕ) (result : Output)
      → ((j : List ℕ) → is_some (get completed j) ≡ member order j)
      → (j : List ℕ)
      → is_some (get (insert completed id result) j)
        ≡ member (if is_some (get completed id) then order else order ++ id ∷ []) j
  grown_ids order completed id result ids j =
      let e = get-insert completed id j result in
      let was = ids j in
      let appended = member-append order (id ∷ []) j in
      elim (Bool-cases (list_beq id j)) [
        | inl same ↦ elim (Bool-cases (is_some (get completed id))) [
          | inl again ↦
              rw (e, same, again)
                (sym (sym (ap (member order) ((list_beq_iff id j).0 same)) ∙ sym (ids id) ∙ again))
          | inr first ↦ rw (e, same, first, appended) (ground arith)
        ]
        | inr other ↦ elim (Bool-cases (is_some (get completed id))) [
          | inl again ↦ rw (e, other, again) was
          | inr first ↦ rw (e, other, first, appended) (ground (arith, was))
        ]
      ]

  -- A completion keeps the log in its bounds.
  pub log_completed-IsLog :
      (maximum : ℕ) (log : SessionLog Output) (id : List ℕ) (result : Output)
      → IsLog maximum log
      → IsLog maximum (log_completed maximum log id result)
  unfolding log_completed
  log_completed-IsLog maximum log id result h =
      trim-IsLog maximum
        (if is_some (get log.completed id) then log.order else log.order ++ id ∷ [])
        (insert log.completed id result)
        (elim (Bool-cases (is_some (get log.completed id))) [
          | inl again ↦ rw again h.unique
          | inr first ↦ rw first (append-IsUnique log.order id h.unique (sym (h.ids id) ∙ first))
        ])
        (grown_ids log.order log.completed id result h.ids)

  trim_fits :
      (maximum : ℕ) (order : List (List ℕ)) (completed : Assoc (List ℕ) Output)
      → length order ≤ maximum
      → trim maximum order completed ≡ record { completed = completed; order = order }
  unfolding trim
  trim_fits maximum [] completed h = refl
  trim_fits maximum (x ∷ order) completed h =
      let fits : ltb maximum (length (x ∷ order)) ≡ false = ground arith in rw fits

  -- What stands last survives, if anything may.
  trim_last :
      (maximum : ℕ) (order : List (List ℕ)) (id : List ℕ) (completed : Assoc (List ℕ) Output)
      → 1 ≤ maximum
      → IsUnique (order ++ id ∷ [])
      → get (trim maximum (order ++ id ∷ []) completed).completed id ≡ get completed id
  unfolding trim
  trim_last maximum [] id completed one u =
      let fits : ltb maximum (length (id ∷ [])) ≡ false = ground arith in rw fits
  trim_last maximum (x ∷ order) id completed one u =
      elim (Bool-cases (ltb maximum (length (x ∷ (order ++ id ∷ []))))) [
        | inl over ↦
            let e = get-remove completed x id in
            let apart : list_beq x id ≡ false = not_last x order id u.0 in
            rw over (trim_last maximum order id (remove completed x) one u.1 ∙ rw apart at e)
        | inr fits ↦ rw fits
      ]

  -- The result just completed is the one that is replayed, if the log may hold anything.
  pub get-log_completed :
      (maximum : ℕ) (log : SessionLog Output) (id : List ℕ) (result : Output)
      → 1 ≤ maximum
      → IsLog maximum log
      → get (log_completed maximum log id result).completed id ≡ some result
  unfolding log_completed
  get-log_completed maximum log id result one h =
      let put = inserted log.completed id result in
      elim (Bool-cases (is_some (get log.completed id))) [
        | inl again ↦ rw again (
            ap (λ (l : SessionLog Output). get l.completed id)
              (trim_fits maximum log.order (insert log.completed id result) h.bounded)
            ∙ put)
        | inr first ↦ rw first (
            trim_last maximum log.order id (insert log.completed id result) one
              (append-IsUnique log.order id h.unique (sym (h.ids id) ∙ first))
            ∙ put)
      ]
    where
      inserted :
          (m : Assoc (List ℕ) Output) (k : List ℕ) (v : Output) → get (insert m k v) k ≡ some v
      inserted m k v =
          let e = get-insert m k k v in
          let same : list_beq k k ≡ true = (list_beq_iff k k).1 refl in rw same at e
