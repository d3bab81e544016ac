-- ===== src/Crypto/Ocb2/State/Examples.antt =====
-- A packet between two states that share their IVs, under a cipher that leaves blocks as they are.
use mumble_server_runtime.Base.{
  ℕ, ◌≡◌, refl, true, false, Option, some, none, any, nat_eq, ◌==◌, List, [], ◌∷◌, replicate, arith,
  length,
}
use mumble_server_runtime.Crypto.Ocb2.{Aes128, ocb_encrypt, ocb_decrypt}
use mumble_server_runtime.Crypto.Ocb2.Lockstep.{IsCipher}
use mumble_server_runtime.Crypto.Iv.{increment_iv}
use mumble_server_runtime.Crypto.Iv.Counter.{IsBytes}
use mumble_server_runtime.Crypto.Ocb2.State.InOrder.{decrypt-encrypt}
use mumble_server_runtime.Crypto.Ocb2.State.{
  CryptState, Recovery, recover, new, set_encrypt_iv, set_decrypt_iv, decrypt, encrypt,
}
use mumble_server_runtime.Crypto.Ocb2.State.Replays.{first_byte, decrypt_all, decrypt_never_again}
use mumble_server_runtime.Base.Int.{pos, negsuc}

abbrev or_empty : Option (List ℕ) → List ℕ
or_empty none = []
or_empty (some l) = l

abbrev identity : Aes128
identity = record { encrypt_block = λ b. b; decrypt_block = λ b. b }

abbrev nonce : List ℕ
nonce = 1 ∷ 2 ∷ 3 ∷ 4 ∷ replicate 12 5

abbrev peer : CryptState
peer = new nonce nonce

abbrev packet : List ℕ
packet = 2 ∷ 11 ∷ 4 ∷ 12 ∷ 3 ∷ 12 ∷ []

packet_sent : (encrypt identity peer (7 ∷ 8 ∷ [])).1 ≡ some packet
unfolding new encrypt
packet_sent = refl

packet_opened : (decrypt identity peer packet).1 ≡ some (7 ∷ 8 ∷ [])
unfolding new decrypt
packet_opened = refl

history_width : length peer.decrypt_history ≡ 256
unfolding new
history_width = refl

identity-IsCipher : IsCipher identity
identity-IsCipher = record { opens = λ block e. refl; length_encrypted = λ block e. e }

nonce-IsBytes : IsBytes nonce
nonce-IsBytes = (
  omega arith,
  (
    omega arith,
    (
      omega arith,
      (
        omega arith,
        (
          omega arith,
          (
            omega arith,
            (
              omega arith,
              (
                omega arith,
                (
                  omega arith,
                  (
                    omega arith,
                    (
                      omega arith,
                      (omega arith, (omega arith, (omega arith, (omega arith, (omega arith, tt))))),
                    ),
                  ),
                ),
              ),
            ),
          ),
        ),
      ),
    ),
  ),
)

abbrev words : List ℕ
words = 7 ∷ 8 ∷ []

not_attacked : (ocb_encrypt identity words (increment_iv nonce) false).authentic ≡ true
unfolding ocb_encrypt increment_iv
not_attacked = refl

looks_genuine :
    let iv = increment_iv nonce in
    (ocb_decrypt identity (ocb_encrypt identity words iv true).output iv).authentic ≡ true
unfolding ocb_encrypt ocb_decrypt increment_iv
looks_genuine = refl

decrypt-encrypt_example :
    ((decrypt identity peer packet).1 ≡ some words)
    × ((decrypt identity peer packet).0.decrypt_iv ≡ (encrypt identity peer words).0.encrypt_iv)
unfolding new
decrypt-encrypt_example =
    decrypt-encrypt identity identity-IsCipher peer peer words packet refl refl nonce-IsBytes
      packet_sent not_attacked looks_genuine

-- A pair that has lost its IVs is put in step again.
abbrev lost : CryptState
lost = new (replicate 16 9) (replicate 16 9)

resynced_receiver : (decrypt identity (set_decrypt_iv lost nonce) packet).1 ≡ some words
unfolding new set_decrypt_iv decrypt
resynced_receiver = refl

resynced_sender : (encrypt identity (set_encrypt_iv lost nonce) words).1 ≡ some packet
unfolding new set_encrypt_iv encrypt
resynced_sender = refl

-- The packet after it, and what recovery makes of the first one when it comes back.
abbrev next_packet : List ℕ
next_packet = or_empty (encrypt identity (encrypt identity peer words).0 words).1

abbrev met : CryptState
met = decrypt_all identity (decrypt identity peer packet).0 (next_packet ∷ [])

abbrev in_turn : Recovery
in_turn = record {
  iv = 2 ∷ 2 ∷ 3 ∷ 4 ∷ replicate 12 5;
  late = pos 0;
  lost = pos 0;
  restore = false;
  out_of_order = false;
}

abbrev behind : Recovery
behind = record in_turn { late = pos 1; lost = negsuc 0; restore = true; out_of_order = true }

next_opened : (decrypt identity (decrypt identity peer packet).0 next_packet).1 ≡ some words
unfolding new encrypt decrypt
next_opened = refl

recovered_first : recover peer.decrypt_iv 2 ≡ some in_turn
unfolding new recover
recovered_first = refl

recovered_again : recover met.decrypt_iv 2 ≡ some behind
unfolding new recover decrypt encrypt decrypt_all
recovered_again = refl

other_byte : any (λ other. first_byte other == 2) (next_packet ∷ []) ≡ false
unfolding new encrypt
other_byte = refl

decrypt_never_again_example : (decrypt identity met packet).1 ≡ none
decrypt_never_again_example =
    decrypt_never_again identity peer packet words (next_packet ∷ []) in_turn behind history_width
      (omega arith) recovered_first packet_opened other_byte recovered_again refl refl
