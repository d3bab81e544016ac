-- ===== src/Crypto/Ocb2/State/Replays.antt =====
-- A packet that arrives a second time.
use mumble_server_runtime.Base.{
  ℕ, zero, suc, ◌<◌, ◌≡◌, refl, sym, ap, ◌∙◌, Bool, any, true, false, not, ◌&&◌, ◌||◌, Option, none,
  some, List, [], ◌∷◌, ltb, length, take, drop, set, get_or, list_beq, nat_eq, ◌==◌, arith,
  Bool-cases, eq_self, inl, inr,
}
use mumble_server_runtime.Crypto.Iv.{increment_iv_from, decrement_iv_from}
use mumble_server_runtime.Crypto.Ocb2.{Aes128, ocb_decrypt}
use mumble_server_runtime.Crypto.Ocb2.State.{
  CryptState, Recovery, in_order, out_of_order, recover, is_replay, commit, decrypt_with, decrypt,
}

-- A recovered IV starts with the header's byte, and either the state moves there or the history is
-- asked the next time.
recover_first :
    (iv : List ℕ) (b : ℕ) (r : Recovery)
    → recover iv b ≡ some r
    → (get_or r.iv 0 0 ≡ b) × ((r.restore ≡ true) → r.out_of_order ≡ true)
unfolding recover in_order out_of_order increment_iv_from decrement_iv_from
recover_first [] b r e = ground arith
recover_first (current ∷ rest) b r e = ground arith

get_or-set : (xs : List ℕ) (i v : ℕ) → i < length xs → get_or (set xs i v) i 0 ≡ v
get_or-set [] i v h = absurd (omega arith)
get_or-set (x ∷ xs) zero v h = refl
get_or-set (x ∷ xs) (suc i) v h = get_or-set xs i v (omega arith)

module _ (aes : Aes128) where
  decrypt_with-some :
      (s : CryptState) (header ciphertext : List ℕ) (o : Option Recovery) (plain : List ℕ)
      → (decrypt_with aes s header ciphertext o).1 ≡ some plain
      → (r : Recovery) × (o ≡ some r)
        × ((decrypt_with aes s header ciphertext o).0 ≡ commit aes s r)
  unfolding decrypt_with
  decrypt_with-some s header ciphertext none plain e = cc
  decrypt_with-some s header ciphertext (some r) plain e =
      let opened = ocb_decrypt aes ciphertext r.iv in
      elim (Bool-cases (r.out_of_order && is_replay s.decrypt_history r.iv)) [
        | inl replay ↦ let f = rw (replay, decrypt_with) at e in cc
        | inr fresh ↦
            elim (Bool-cases
              (not opened.authentic || not (list_beq (take 3 opened.tag) (drop 1 header)))) [
                | inl forged ↦ let f = rw (fresh, forged, decrypt_with) at e in cc
                | inr genuine ↦ rw (fresh, genuine, decrypt_with) (r, refl, refl)
              ]
      ]

  decrypt_with-replay :
      (s : CryptState) (header ciphertext : List ℕ) (r : Recovery)
      → r.out_of_order ≡ true
      → is_replay s.decrypt_history r.iv ≡ true
      → (decrypt_with aes s header ciphertext (some r)).1 ≡ none
  unfolding decrypt_with
  decrypt_with-replay s header ciphertext r late known = rw (late, known, decrypt_with)

get_or-set_other :
    (xs : List ℕ) (i j v : ℕ) → (i == j) ≡ false → get_or (set xs i v) j 0 ≡ get_or xs j 0
get_or-set_other [] i j v h = refl
get_or-set_other (x ∷ xs) zero zero v h = cc
get_or-set_other (x ∷ xs) zero (suc j) v h = refl
get_or-set_other (x ∷ xs) (suc i) zero v h = refl
get_or-set_other (x ∷ xs) (suc i) (suc j) v h = get_or-set_other xs i j v (ground arith)

-- The first byte of a packet.
abbrev pub first_byte : List ℕ → ℕ
first_byte packet = get_or (take 4 packet) 0 0

module _ (aes : Aes128) where
  unfoldable pub decrypt_all : CryptState → List (List ℕ) → CryptState
  decrypt_all s [] = s
  decrypt_all s (packet ∷ packets) = decrypt_all (decrypt aes s packet).0 packets

  decrypt_with-history :
      (s : CryptState) (header ciphertext : List ℕ) (b : ℕ) (o : Option Recovery)
      → ((r : Recovery) → o ≡ some r → (get_or r.iv 0 0 == b) ≡ false)
      → get_or (decrypt_with aes s header ciphertext o).0.decrypt_history b 0
        ≡ get_or s.decrypt_history b 0
  unfolding decrypt_with commit
  decrypt_with-history s header ciphertext b none h = refl
  decrypt_with-history s header ciphertext b (some r) h =
      let opened = ocb_decrypt aes ciphertext r.iv in
      elim (Bool-cases (r.out_of_order && is_replay s.decrypt_history r.iv)) [
        | inl replay ↦ rw (replay, decrypt_with) refl
        | inr fresh ↦
            elim (Bool-cases
              (not opened.authentic || not (list_beq (take 3 opened.tag) (drop 1 header)))) [
                | inl forged ↦ rw (fresh, forged, decrypt_with) refl
                | inr genuine ↦
                    rw (fresh, genuine, decrypt_with)
                      (get_or-set_other s.decrypt_history (get_or r.iv 0 0) b (get_or r.iv 1 0)
                        (h r refl))
              ]
      ]

  decrypt-history :
      (s : CryptState) (packet : List ℕ) (b : ℕ)
      → (first_byte packet == b) ≡ false
      → get_or (decrypt aes s packet).0.decrypt_history b 0 ≡ get_or s.decrypt_history b 0
  unfolding decrypt
  decrypt-history s packet b h = elim (Bool-cases (ltb (length packet) 4)) [
    | inl short ↦ rw (short, decrypt) refl
    | inr whole ↦
        rw (whole, decrypt)
          (decrypt_with-history s (take 4 packet) (drop 4 packet) b
            (recover s.decrypt_iv (first_byte packet))
            (λ r found.
              ap (λ n. n == b) (recover_first s.decrypt_iv (first_byte packet) r found).0 ∙ h))
  ]

  decrypt_all-history :
      (s : CryptState) (packets : List (List ℕ)) (b : ℕ)
      → any (λ packet. first_byte packet == b) packets ≡ false
      → get_or (decrypt_all s packets).decrypt_history b 0 ≡ get_or s.decrypt_history b 0
  unfolding decrypt_all
  decrypt_all-history s [] b h = refl
  decrypt_all-history s (packet ∷ packets) b h =
      let (this, rest) = neither (first_byte packet == b) _ h in
      decrypt_all-history (decrypt aes s packet).0 packets b rest ∙ decrypt-history s packet b this
    where
      neither : (x y : Bool) → (x || y) ≡ false → (x ≡ false) × (y ≡ false)
      neither x y h = (ground arith, ground arith)

  decrypt-recorded :
      (s : CryptState) (packet plain : List ℕ) (r : Recovery)
      → first_byte packet < length s.decrypt_history
      → recover s.decrypt_iv (first_byte packet) ≡ some r
      → (decrypt aes s packet).1 ≡ some plain
      → get_or (decrypt aes s packet).0.decrypt_history (first_byte packet) 0 ≡ get_or r.iv 1 0
  unfolding decrypt commit
  decrypt-recorded s packet plain r small found e = elim (Bool-cases (ltb (length packet) 4)) [
    | inl short ↦ let f = rw (short, decrypt) at e in cc
    | inr whole ↦
        let header = take 4 packet in
        let f = rw (whole, decrypt) at e in
        let (q, found_q, after) =
          decrypt_with-some aes s header (drop 4 packet) (recover s.decrypt_iv (first_byte packet))
            plain f in
        let same : q ≡ r = (let g = sym found_q ∙ found in cc) in
        let first = (recover_first s.decrypt_iv (first_byte packet) q found_q).0 in
        rw (whole, decrypt, after)
          (ap (λ i. get_or (set s.decrypt_history (get_or q.iv 0 0) (get_or q.iv 1 0)) i 0)
              (sym first)
            ∙ get_or-set s.decrypt_history (get_or q.iv 0 0) (get_or q.iv 1 0)
                (omega (arith, first, small))
            ∙ ap (λ (x : Recovery). get_or x.iv 1 0) same)
  ]

  decrypt_short :
      (s : CryptState) (packet : List ℕ)
      → ltb (length packet) 4 ≡ true
      → (decrypt aes s packet).1 ≡ none
  unfolding decrypt
  decrypt_short s packet short = rw (short, decrypt) refl

  decrypt_replayed :
      (s : CryptState) (packet : List ℕ) (q : Recovery)
      → ltb (length packet) 4 ≡ false
      → recover s.decrypt_iv (first_byte packet) ≡ some q
      → q.out_of_order ≡ true
      → is_replay s.decrypt_history q.iv ≡ true
      → (decrypt aes s packet).1 ≡ none
  unfolding decrypt
  decrypt_replayed s packet q whole found late known =
      rw (whole, found, decrypt)
        (decrypt_with-replay aes s (take 4 packet) (drop 4 packet) q late known)

  -- A packet that was decrypted, in order, late or after a gap, is refused when it comes back after
  -- any packets of other first bytes, decrypted or not, if its IV is then recovered out of order with
  -- the same second byte; for a history of 256 entries and a first byte below 256.
  pub decrypt_never_again :
      (s : CryptState) (packet plain : List ℕ) (others : List (List ℕ)) (r q : Recovery)
      → length s.decrypt_history ≡ 256
      → first_byte packet < 256
      → recover s.decrypt_iv (first_byte packet) ≡ some r
      → (decrypt aes s packet).1 ≡ some plain
      → any (λ other. first_byte other == first_byte packet) others ≡ false
      → let later = decrypt_all (decrypt aes s packet).0 others in
        recover later.decrypt_iv (first_byte packet) ≡ some q
        → q.out_of_order ≡ true
        → get_or q.iv 1 0 ≡ get_or r.iv 1 0
        → (decrypt aes later packet).1 ≡ none
  decrypt_never_again s packet plain others r q n small found e apart again_found late same =
      let later = decrypt_all (decrypt aes s packet).0 others in
      elim (Bool-cases (ltb (length packet) 4)) [
        | inl short ↦ decrypt_short later packet short
        | inr whole ↦
            let first = (recover_first later.decrypt_iv (first_byte packet) q again_found).0 in
            let kept : get_or later.decrypt_history (get_or q.iv 0 0) 0 ≡ get_or q.iv 1 0 =
              ap (λ i. get_or later.decrypt_history i 0) first
              ∙ decrypt_all-history (decrypt aes s packet).0 others (first_byte packet) apart
              ∙ decrypt-recorded s packet plain r (omega (arith, n, small)) found e
              ∙ sym same in
            let known : is_replay later.decrypt_history q.iv ≡ true =
              rw kept (eq_self (get_or q.iv 1 0)) in
            decrypt_replayed later packet q whole again_found late known
      ]
