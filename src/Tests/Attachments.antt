-- ===== src/Tests/Attachments.antt =====
-- An encrypted attachment that is decrypted, in two pieces or to a buffer, with a stream that keeps the message as it
-- is behind a tag, and sizes.
use libbchat_util.Base.{
  ◌+◌, length, ℕ, suc, ◌<◌, ◌≤◌, ◌≡◌, ◌==◌, refl, ap, ◌∙◌, Option, none, some, List, [], ◌∷◌, ◌++◌,
  Bool, true, false, take, drop, replicate, arith, take-append-drop,
}
use mathlib.Core.List.{append-nil}
use libbchat_util.Base.Order.{Bytes}
use libbchat_util.Attachment.{SecretStream, encrypt_header}
use libbchat_util.Attachment.Decryptor.{Decryptor, update, finalize}
use libbchat_util.Attachment.Decryptor.Stepwise.Updates.{IsOpen}
use libbchat_util.Attachment.Decryptor.Stepwise.Pieces.{join, updates, updates-join}
use libbchat_util.Attachment.Encrypt.{encrypt_impl}
use libbchat_util.Attachment.Encrypt.Laws.{StreamLaws}
use libbchat_util.Attachment.Encrypt.Roundtrip.{new_decryptor, updates-encrypt_impl}
use libbchat_util.Attachment.Sizes.{
  least_size, pad_factor, padded_size, encrypted_padding, encrypted_size, decrypted_max_size,
}
use libbchat_util.Attachment.Encrypt.Laws.{drop_left, length-replicate}
use libbchat_util.Attachment.Decrypt.{returns, throws, overrun, decrypt, decrypt_vector}
use libbchat_util.Attachment.Decrypt.Fits.{decrypt_in_bounds}
use libbchat_util.Attachment.Decrypt.Overruns.{decrypt_overruns}
use libbchat_util.Attachment.Decrypt.Roundtrip.{decrypt-encrypt_impl}
use libbchat_util.Attachment.Sizes.Exact.{encrypted_size_lem}

abbrev byte_of : Bool → ℕ
byte_of true = 3
byte_of false = 0

abbrev is_three : ℕ → Bool
is_three n = n == 3

abbrev opened : ℕ → Bytes → Option (Bytes × Bool × ℕ)
opened n [] = none
opened n (c ∷ m) = some (m, is_three c, suc n)

-- A state is the number of messages so far.
abbrev clear_stream : SecretStream ℕ
clear_stream = record {
  init_push = λ h k. 0;
  push = λ n m final. (replicate 16 7 ++ byte_of final ∷ m, suc n);
  init_pull = λ h k. 0;
  pull = λ n x. opened n (drop 16 x);
}

clear-opens :
    (s t : ℕ) (m : Bytes) (final : Bool)
    → s ≡ t
    → (clear_stream.pull t (clear_stream.push s m final).0 ≡ some (m, final, suc t))
      × (suc s ≡ suc t)
clear-opens s t m true e = (refl, ap suc e)
clear-opens s t m false e = (refl, ap suc e)

clear_laws : StreamLaws clear_stream
clear_laws = record {
  Corresponds = λ s t. s ≡ t;
  begins = λ h k. refl;
  next = λ n m final. suc n;
  opens = clear-opens;
  grows = λ s m final. omega arith;
}

abbrev a_nonce_key : Bytes
a_nonce_key = replicate 24 5 ++ replicate 32 6

abbrev hi : Bytes
hi = b'h' ∷ b'i' ∷ []

-- The header of the stream in two pieces, and the first byte of a chunk.
abbrev header_pieces : List Bytes
header_pieces = (b'S' ∷ 5 ∷ []) ∷ replicate 22 5 ∷ (5 ∷ 7 ∷ []) ∷ []

updates-join_example :
    (e : Decryptor ℕ) × (updates clear_stream
        (replicate 32 6)
        header_pieces
        (some (new_decryptor 0))
      ≡ some e)
    × (update clear_stream (replicate 32 6) (join header_pieces) (new_decryptor 0) ≡ some e)
    × IsOpen clear_stream (replicate 32 6) e
updates-join_example =
    updates-join clear_stream (replicate 32 6) header_pieces (new_decryptor 0)
      (refl, λ _. omega arith)

encrypted_size_lem_example :
    (0 < encrypted_padding 1000)
    × (encrypted_size 1000 ≡ padded_size (least_size 1000) (pad_factor (least_size 1000)))
    × (m : ℕ) × (decrypted_max_size (encrypted_size 1000) ≡ some m)
    × (1000 ≤ m)
encrypted_size_lem_example = encrypted_size_lem 1000 (omega arith)

abbrev encrypted_hi : Bytes
encrypted_hi = encrypt_impl clear_stream a_nonce_key hi

updates-encrypt_impl_example :
    (d : Decryptor ℕ) × (updates clear_stream
        (drop encrypt_header a_nonce_key)
        (take 100 encrypted_hi ∷ drop 100 encrypted_hi ∷ [])
        (some (new_decryptor 0))
      ≡ some d)
    × ((finalize clear_stream (drop encrypt_header a_nonce_key) d).failed ≡ false)
    × ((finalize clear_stream (drop encrypt_header a_nonce_key) d).output ≡ hi)
updates-encrypt_impl_example =
    updates-encrypt_impl clear_stream clear_laws a_nonce_key hi 0
      (take 100 encrypted_hi ∷ drop 100 encrypted_hi ∷ []) (omega arith)
      (encrypted_size_lem 2 (omega arith)).0
      (ap (λ x. take 100 encrypted_hi ++ x) (append-nil (drop 100 encrypted_hi))
        ∙ take-append-drop 100 encrypted_hi)

decrypt-encrypt_impl_example :
    (max_size : ℕ) × (decrypted_max_size (length (encrypt_impl clear_stream a_nonce_key hi))
      ≡ some max_size)
    × (decrypt clear_stream max_size
          (drop encrypt_header a_nonce_key)
          (encrypt_impl clear_stream a_nonce_key hi)
        ≡ returns hi)
    × (decrypt_vector clear_stream
          (drop encrypt_header a_nonce_key)
          (encrypt_impl clear_stream a_nonce_key hi)
        ≡ returns hi)
decrypt-encrypt_impl_example =
    decrypt-encrypt_impl clear_stream clear_laws a_nonce_key hi (omega arith) (omega arith)

length-opened :
    (n : ℕ) (x m : Bytes) (final : Bool) (st' : ℕ)
    → opened n x ≡ some (m, final, st')
    → length x ≡ suc (length m)
length-opened n [] m final st' e = cc e
length-opened n (c ∷ x) m final st' e = ap (λ o. measure o) e
  where
    measure : Option (Bytes × Bool × ℕ) → ℕ
    measure none = 0
    measure (some p) = suc (length p.0)

clear-shrinks :
    (st : ℕ) (c m : Bytes) (final : Bool) (st' : ℕ)
    → clear_stream.pull st c ≡ some (m, final, st')
    → length m + 17 ≡ length c
clear-shrinks st c m final st' e =
    omega (arith, length-opened st (drop 16 c) m final st' e, drop_left 16 c)

-- One chunk, of padding and no data, whose tag is not the final one.
abbrev no_end : Bytes
no_end = b'S' ∷ (replicate 24 5 ++ (clear_stream.push 0 (1 ∷ []) false).0)

decrypt_in_bounds_example : ¬ (decrypt clear_stream 0 (replicate 32 6) no_end ≡ throws overrun)
decrypt_in_bounds_example =
    decrypt_in_bounds clear_stream clear-shrinks 0 (replicate 32 6) no_end (omega arith) refl

abbrev full_data : Bytes
full_data = replicate 32767 9

-- A whole chunk with a byte of padding, and two bytes.
abbrev two_left : Bytes
two_left =
    (b'S' ∷ (replicate 24 5 ++ ((clear_stream.push 0 (1 ∷ full_data) false).0 ++ 0 ∷ 0 ∷ [])))

decrypt_overruns_example :
    (max_size : ℕ) × (decrypted_max_size (length two_left) ≡ some max_size)
    × (decrypt clear_stream max_size (replicate 32 6) two_left ≡ throws overrun)
    × (decrypt_vector clear_stream (replicate 32 6) two_left ≡ throws overrun)
unfolding clear_laws
decrypt_overruns_example =
    decrypt_overruns clear_stream (replicate 32 6) (replicate 24 5)
      (clear_stream.push 0 (1 ∷ full_data) false).0 (0 ∷ 0 ∷ []) full_data false 1 refl
      (omega (arith, clear_laws.grows 0 (1 ∷ full_data) false, length-replicate 32767 9))
      (length-replicate 32767 9) (clear_laws.opens 0 0 (1 ∷ full_data) false refl).0 (omega arith)
      (omega arith)
