-- ===== src/Crypto/Ocb2/State/InOrder.antt =====
-- A packet that arrives in order, and the IVs of both sides.
use mumble_server_runtime.Base.{
  ℕ, ◌+◌, ◌≤◌, ◌<◌, ◌%◌, ◌≡◌, refl, sym, ap, ◌∙◌, arith, true, false, some, List, [], ◌∷◌, ◌++◌,
  ltb, length, length-append, take, drop, length-take, take-append, drop-append, get_or, list_beq,
  list_beq_iff, nat_eq, ◌==◌, eq_self, Bool-cases, inl, inr,
}
use mumble_server_runtime.Base.Int.{pos}
use mumble_server_runtime.Crypto.Iv.{increment, increment_iv, increment_iv_from}
use mumble_server_runtime.Crypto.Iv.Counter.{IsBytes}
use mumble_server_runtime.Crypto.Ocb2.{Aes128, ocb_encrypt, ocb_decrypt}
use mumble_server_runtime.Crypto.Ocb2.Lockstep.{IsCipher}
use mumble_server_runtime.Crypto.Ocb2.RoundTrip.{length-tag, ocb_decrypt-ocb_encrypt}
use mumble_server_runtime.Crypto.Ocb2.State.{
  CryptState, Recovery, in_order, recover, commit, decrypt_with, decrypt, encrypt,
}

length-increment : (iv : List ℕ) → length (increment iv) ≡ length iv
unfolding increment
length-increment [] = refl
length-increment (byte ∷ iv) = ground (arith, length-increment iv)

abbrev next_in_order : List ℕ → Recovery
next_in_order iv = record {
  iv = iv;
  late = pos 0;
  lost = pos 0;
  restore = false;
  out_of_order = false;
}

-- The first byte of the sender's next IV is enough for the receiver to have it whole.
recover-increment_iv :
    (iv : List ℕ)
    → length iv ≡ 16
    → IsBytes iv
    → recover iv (get_or (increment_iv iv) 0 0) ≡ some (next_in_order (increment_iv iv))
unfolding increment_iv increment_iv_from increment recover in_order
recover-increment_iv [] n bytes = absurd (omega arith)
recover-increment_iv (current ∷ rest) n bytes =
    let next = (current + 1) % 256 in
    elim (Bool-cases (ltb current next)) [
      | inl up ↦ rw (eq_self next, up, goes_on current bytes.0 up, recover, in_order) refl
      | inr over ↦
          let (down, wrapped) = wraps current bytes.0 over in
          rw (eq_self next, over, down, wrapped, recover, in_order) refl
    ]
  where
    goes_on :
        (current : ℕ)
        → current < 256
        → ltb current ((current + 1) % 256) ≡ true
        → ((current + 1) % 256 == 0) ≡ false
    goes_on current h up = ground arith

    wraps :
        (current : ℕ)
        → current < 256
        → ltb current ((current + 1) % 256) ≡ false
        → (ltb ((current + 1) % 256) current ≡ true) × (((current + 1) % 256 == 0) ≡ true)
    wraps current h over = (ground arith, ground arith)

module _ (aes : Aes128) (cipher : IsCipher aes) where
  -- What is sent where encryption succeeds.
  encrypt-some :
      (s : CryptState) (plain packet : List ℕ)
      → (encrypt aes s plain).1 ≡ some packet
      → let iv = increment_iv s.encrypt_iv in
        let sealed = ocb_encrypt aes plain iv true in
        packet ≡ get_or iv 0 0 ∷ (take 3 sealed.tag ++ sealed.output)
  unfolding encrypt
  encrypt-some s plain packet h =
      let iv = increment_iv s.encrypt_iv in
      elim (Bool-cases (ocb_encrypt aes plain iv true).authentic) [
        | inl fine ↦ let h' = rw fine at h in cc
        | inr attacked ↦ let h' = rw attacked at h in cc
      ]

  decrypt_with-next :
      (s : CryptState) (first : ℕ) (tag wire iv : List ℕ)
      → let opened = ocb_decrypt aes wire iv in
        opened.authentic ≡ true
        → opened.tag ≡ tag
        → decrypt_with aes s (first ∷ take 3 tag) wire (some (next_in_order iv))
          ≡ (commit aes s (next_in_order iv), some opened.output)
  unfolding decrypt_with
  decrypt_with-next s first tag wire iv fine same =
      let equal : list_beq (take 3 (ocb_decrypt aes wire iv).tag) (take 3 tag) ≡ true =
        (list_beq_iff _ _).1 (ap (take 3) same) in
      rw (fine, equal, decrypt_with) refl

  -- The packet as it is received: the header cut off, and the IV recovered.
  decrypt-next :
      (s : CryptState) (tag wire iv : List ℕ)
      → length tag ≡ 16
      → recover s.decrypt_iv (get_or iv 0 0) ≡ some (next_in_order iv)
      → (ocb_decrypt aes wire iv).authentic ≡ true
      → (ocb_decrypt aes wire iv).tag ≡ tag
      → decrypt aes s (get_or iv 0 0 ∷ (take 3 tag ++ wire))
        ≡ (commit aes s (next_in_order iv), some (ocb_decrypt aes wire iv).output)
  unfolding decrypt
  decrypt-next s tag wire iv n found fine same =
      let three : length (take 3 tag) ≡ 3 = omega (arith, length-take 3 tag, n) in
      let long : ltb (length (get_or iv 0 0 ∷ (take 3 tag ++ wire))) 4 ≡ false =
        enough _ (omega (arith, length-append (take 3 tag) wire, three)) in
      let cut : take 3 (take 3 tag ++ wire) ≡ take 3 tag =
        ap (λ k. take k (take 3 tag ++ wire)) (sym three) ∙ take-append (take 3 tag) wire in
      let left : drop 3 (take 3 tag ++ wire) ≡ wire =
        ap (λ k. drop k (take 3 tag ++ wire)) (sym three) ∙ drop-append (take 3 tag) wire in
      rw (long, cut, left, found, decrypt)
        (decrypt_with-next s (get_or iv 0 0) tag wire iv fine same)
    where
      enough : (k : ℕ) → 4 ≤ k → ltb k 4 ≡ false
      enough k h = ground arith

  -- A receiver whose IV is the sender's decrypts the next packet to what was encrypted, and its IV is
  -- the sender's again: for data without a block that the attack on XEX* needs, of which the check of
  -- decryption does not take the last block for that attack, and an IV of 16 bytes.
  pub decrypt-encrypt :
      (sender receiver : CryptState) (plain packet : List ℕ)
      → receiver.decrypt_iv ≡ sender.encrypt_iv
      → length sender.encrypt_iv ≡ 16
      → IsBytes sender.encrypt_iv
      → (encrypt aes sender plain).1 ≡ some packet
      → let iv = increment_iv sender.encrypt_iv in
        (ocb_encrypt aes plain iv false).authentic ≡ true
        → (ocb_decrypt aes (ocb_encrypt aes plain iv true).output iv).authentic ≡ true
        → ((decrypt aes receiver packet).1 ≡ some plain)
          × ((decrypt aes receiver packet).0.decrypt_iv ≡ (encrypt aes sender plain).0.encrypt_iv)
  unfolding encrypt commit increment_iv increment_iv_from
  decrypt-encrypt sender receiver plain packet same n bytes sent safe fine =
      let iv = increment_iv sender.encrypt_iv in
      let whole : length iv ≡ 16 = length-increment sender.encrypt_iv ∙ n in
      let sealed = ocb_encrypt aes plain iv true in
      let (output, tag) = ocb_decrypt-ocb_encrypt aes cipher plain iv true whole safe in
      let found =
        ap (λ i. recover i (get_or iv 0 0)) same ∙ recover-increment_iv sender.encrypt_iv n bytes in
      let done =
        ap (decrypt aes receiver) (encrypt-some sender plain packet sent)
        ∙ decrypt-next receiver sealed.tag sealed.output iv
            (length-tag aes cipher plain iv true whole) found fine tag in
      (ap (λ r. r.1) done ∙ ap some output, ap (λ r. r.0.decrypt_iv) done)
