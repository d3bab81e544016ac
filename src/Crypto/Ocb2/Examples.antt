-- ===== src/Crypto/Ocb2/Examples.antt =====
-- Data of one block and a byte, under a cipher that turns blocks round.
use mumble_server_runtime.Base.{
  ℕ, ◌≡◌, refl, ap, ◌∙◌, true, false, List, [], ◌∷◌, ◌++◌, length, length-append, replicate, arith,
}
use mumble_server_runtime.Crypto.Ocb2.{Aes128, ocb_encrypt, ocb_decrypt}
use mumble_server_runtime.Crypto.Ocb2.Lockstep.{IsCipher}
use mumble_server_runtime.Crypto.Ocb2.RoundTrip.{ocb_decrypt-ocb_encrypt}

abbrev turned : List ℕ → List ℕ
turned [] = []
turned (x ∷ xs) = turned xs ++ x ∷ []

turned-append : (xs : List ℕ) (x : ℕ) → turned (xs ++ x ∷ []) ≡ x ∷ turned xs
turned-append [] x = refl
turned-append (y ∷ xs) x = ap (λ l. l ++ y ∷ []) (turned-append xs x)

turned_twice : (xs : List ℕ) → turned (turned xs) ≡ xs
turned_twice [] = refl
turned_twice (x ∷ xs) = turned-append (turned xs) x ∙ ap (λ l. x ∷ l) (turned_twice xs)

length-turned : (xs : List ℕ) → length (turned xs) ≡ length xs
length-turned [] = refl
length-turned (x ∷ xs) = omega (arith, length-append (turned xs) (x ∷ []), length-turned xs)

abbrev turning : Aes128
turning = record { encrypt_block = turned; decrypt_block = turned }

turning-IsCipher : IsCipher turning
turning-IsCipher = record {
  opens = λ block e. turned_twice block;
  length_encrypted = λ block e. length-turned block ∙ e;
}

abbrev nonce : List ℕ
nonce = 1 ∷ 2 ∷ 3 ∷ 4 ∷ replicate 12 5

abbrev plain : List ℕ
plain = replicate 17 7

not_attacked : (ocb_encrypt turning plain nonce false).authentic ≡ true
unfolding ocb_encrypt
not_attacked = refl

ocb_decrypt-ocb_encrypt_example :
    let sealed = ocb_encrypt turning plain nonce true in
    let opened = ocb_decrypt turning sealed.output nonce in
    (opened.output ≡ plain) × (opened.tag ≡ sealed.tag)
ocb_decrypt-ocb_encrypt_example =
    ocb_decrypt-ocb_encrypt turning turning-IsCipher plain nonce true refl not_attacked
