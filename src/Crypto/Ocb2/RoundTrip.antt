-- ===== src/Crypto/Ocb2/RoundTrip.antt =====
-- Decryption of what encryption sends.
use mumble_server_runtime.Base.{
  ℕ, zero, suc, ◌-◌, ◌*◌, ◌/◌, ◌%◌, ◌≤◌, ◌≡◌, refl, ap, ap₂, ◌∙◌, arith, Bool, true, false, not,
  ◌&&◌, List, [], ◌∷◌, ◌++◌, list_beq, nat_eq, ltb, length, length-append, take, drop, replicate,
  length-take, length-drop, take-append, take-append-drop, Bool-cases, inl, inr,
}
use mumble_server_runtime.Crypto.Ocb2.{
  Aes128, Pass, Sealed, block_size, xor, times2, times3, be_bytes, length_block, flip_first,
  encrypt_turn, decrypt_turn, loop, start, ocb_encrypt, ocb_decrypt,
}
use mumble_server_runtime.Crypto.Ocb2.Blocks.{length-xor, length-times2, tail_opened}
use mumble_server_runtime.Crypto.Ocb2.Lockstep.{
  IsCipher, length-xor_blocks, is_critical, altered, loop-Lockstep,
}

length-be_bytes : (k n : ℕ) → length (be_bytes k n) ≡ k
unfolding be_bytes
length-be_bytes zero n = refl
length-be_bytes (suc k) n =
    omega (arith, length-append (be_bytes k (n / 256)) (n % 256 ∷ []), length-be_bytes k (n / 256))

module _ (aes : Aes128) where
  authentic_before :
      (fuel : ℕ) (p : Pass)
      → (loop aes (encrypt_turn aes false) fuel p).authentic ≡ true
      → p.authentic ≡ true
  unfolding loop encrypt_turn
  authentic_before zero p h = h
  authentic_before (suc fuel) p h = elim (Bool-cases (ltb block_size (length p.rest))) [
    | inr few ↦ rw (few, loop) at h
    | inl many ↦
        let h' = rw (many, loop) at h in
        both p.authentic _ (authentic_before fuel (encrypt_turn aes false p) h')
  ]
    where
      both : (a b : Bool) → (a && b) ≡ true → a ≡ true
      both a b h = ground arith

  -- Nothing is altered where encryption that may not modify reports no critical block.
  authentic-altered :
      (modify : Bool) (fuel : ℕ) (p : Pass)
      → (loop aes (encrypt_turn aes false) fuel p).authentic ≡ true
      → altered modify fuel p.rest ≡ p.rest
  unfolding loop altered encrypt_turn flip_first
  authentic-altered modify zero p h = refl
  authentic-altered modify (suc fuel) p h = elim (Bool-cases (ltb block_size (length p.rest))) [
    | inr few ↦ rw (few, altered) refl
    | inl many ↦
        let h' = rw (many, loop) at h in
        let safe =
          not_critical p.authentic (is_critical p.rest)
            (authentic_before fuel (encrypt_turn aes false p) h') in
        let more = authentic-altered modify fuel (encrypt_turn aes false p) h' in
        rw (many, safe, altered) (ap (λ l. take 16 p.rest ++ l) more ∙ take-append-drop 16 p.rest)
  ]
    where
      not_critical : (a c : Bool) → (a && not (c && not false)) ≡ true → c ≡ false
      not_critical a c h = ground arith

  -- What follows the loops.
  abbrev mask : List ℕ → ℕ → List ℕ
  mask delta remaining = aes.encrypt_block (xor (length_block remaining) (times2 delta))

  abbrev tag_of : List ℕ → List ℕ → List ℕ
  tag_of delta checksum = aes.encrypt_block (xor (times3 (times2 delta)) checksum)

  abbrev tail_of : List ℕ → List ℕ → List ℕ
  tail_of delta rest = rest ++ drop (length rest) (mask delta (length rest))

  abbrev sent_last : List ℕ → List ℕ → List ℕ
  sent_last delta rest = take (length rest) (xor (mask delta (length rest)) (tail_of delta rest))

  abbrev decrypt_last : Pass → Sealed
  decrypt_last p =
      let remaining = length p.rest in
      let pad = mask p.delta remaining in
      let tail = xor (p.rest ++ replicate (block_size - remaining) 0) pad in
      record {
        authentic = not (list_beq (take 15 tail) (take 15 (times2 p.delta)));
        output = p.output ++ take remaining tail;
        tag = tag_of p.delta (xor p.checksum tail);
      }

  module _ (cipher : IsCipher aes) where
    length-mask : (delta : List ℕ) (n : ℕ) → length delta ≡ 16 → length (mask delta n) ≡ 16
    unfolding length_block
    length-mask delta n d = cipher.length_encrypted _ (
        omega (
          arith,
          length-xor (length_block n) (times2 delta),
          length-be_bytes 16 (n * 8),
          length-times2 delta,
          d,
        ))

    length-sent_last :
        (delta rest : List ℕ)
        → length delta ≡ 16
        → length rest ≤ 16
        → length (sent_last delta rest) ≡ length rest
    length-sent_last delta rest d short =
        let pad = mask delta (length rest) in
        omega (
          arith,
          length-take (length rest) (xor pad (tail_of delta rest)),
          length-xor pad (tail_of delta rest),
          length-append rest (drop (length rest) pad),
          length-drop (length rest) pad,
          length-mask delta (length rest) d,
          short,
        )

    decrypt_last-sent :
        (delta checksum opened rest : List ℕ) (authentic : Bool)
        → length delta ≡ 16
        → length rest ≤ 16
        → let p : Pass = record {
          delta = delta;
          checksum = checksum;
          output = opened;
          rest = sent_last delta rest;
          authentic = authentic;
        } in
          ((decrypt_last p).output ≡ opened ++ rest)
          × ((decrypt_last p).tag ≡ tag_of delta (xor checksum (tail_of delta rest)))
    decrypt_last-sent delta checksum opened rest authentic d short =
        let pad = mask delta (length rest) in
        let n = length-sent_last delta rest d short in
        let same =
          tail_opened (16 - length rest) rest pad
            (omega (arith, length-mask delta (length rest) d, short)) in
        rw (n, same, take-append rest (drop (length rest) pad)) (refl, refl)

    pub length-tag :
        (plain nonce : List ℕ) (modify : Bool)
        → length nonce ≡ 16
        → length (ocb_encrypt aes plain nonce modify).tag ≡ 16
    unfolding ocb_encrypt start times3
    length-tag plain nonce modify whole =
        let p = start aes plain nonce in
        let after = loop aes (encrypt_turn aes modify) (length plain) p in
        let r =
          loop-Lockstep aes cipher modify (length plain) p (omega arith)
            (cipher.length_encrypted nonce whole) in
        let pad = mask after.delta (length after.rest) in
        let masked = length-mask after.delta (length after.rest) r.delta in
        let doubled = length-times2 after.delta ∙ r.delta in
        let tail : length (tail_of after.delta after.rest) ≡ 16 = omega (
          arith,
          length-append after.rest (drop (length after.rest) pad),
          length-drop (length after.rest) pad,
          masked,
          r.short,
        ) in
        cipher.length_encrypted _ (
          length-xor_blocks _ _
            (length-xor_blocks _ _ doubled (length-times2 (times2 after.delta) ∙ doubled))
            (length-xor_blocks _ _ (r.checksum refl) tail))

    -- What decryption gives of what encryption sends: the plain data, with the bits that encryption
    -- alters, and the same tag.
    ocb_decrypt-altered :
        (plain nonce : List ℕ) (modify : Bool)
        → length nonce ≡ 16
        → let sealed = ocb_encrypt aes plain nonce modify in
          let opened = ocb_decrypt aes sealed.output nonce in
          (opened.output ≡ altered modify (length plain) plain) × (opened.tag ≡ sealed.tag)
    unfolding ocb_encrypt ocb_decrypt start
    ocb_decrypt-altered plain nonce modify whole =
        let p = start aes plain nonce in
        let after = loop aes (encrypt_turn aes modify) (length plain) p in
        let r =
          loop-Lockstep aes cipher modify (length plain) p (omega arith)
            (cipher.length_encrypted nonce whole) in
        let last = sent_last after.delta after.rest in
        let n = length-sent_last after.delta after.rest r.delta r.short in
        let wire = after.output ++ last in
        let there : wire ≡ r.sent ++ last = ap (λ o. o ++ last) r.output in
        let fuel : length wire ≡ length plain =
          ap length there ∙ omega (arith, length-append r.sent last, n, r.size) in
        let ended : loop aes (decrypt_turn aes) (length wire) (start aes wire nonce) ≡ record {
          delta = after.delta;
          checksum = after.checksum;
          output = r.opened;
          rest = last;
          authentic = true;
        } =
          ap₂ (λ k l. loop aes (decrypt_turn aes) k (start aes l nonce)) fuel there
          ∙ r.received [] last true n in
        let (output, tag) =
          decrypt_last-sent after.delta after.checksum r.opened after.rest true r.delta r.short in
        (
          ap (λ q. (decrypt_last q).output) ended ∙ output ∙ r.plain,
          ap (λ q. (decrypt_last q).tag) ended ∙ tag,
        )

    -- Data without a block that the attack on XEX* needs, which is what encryption reports as
    -- authentic when it may not modify it: decryption gives back the data, and the tag that it was
    -- sent with, under any block cipher that decrypts each block to what was encrypted.
    pub ocb_decrypt-ocb_encrypt :
        (plain nonce : List ℕ) (modify : Bool)
        → length nonce ≡ 16
        → (ocb_encrypt aes plain nonce false).authentic ≡ true
        → let sealed = ocb_encrypt aes plain nonce modify in
          let opened = ocb_decrypt aes sealed.output nonce in
          (opened.output ≡ plain) × (opened.tag ≡ sealed.tag)
    unfolding ocb_encrypt start
    ocb_decrypt-ocb_encrypt plain nonce modify whole safe =
        let (output, tag) = ocb_decrypt-altered plain nonce modify whole in
        (output ∙ authentic-altered modify (length plain) (start aes plain nonce) safe, tag)
