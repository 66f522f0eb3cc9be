-- ===== src/Attachment/Decrypt.antt =====
-- Decryption of what is in memory, of attachments.cpp: `decrypt` to a buffer and to a vector. What is
-- left of the encrypted data stands for the pointers `inpos` and `inend`, what is in the buffer so far
-- for `decrypted`. To write behind the end of the buffer is a failure of its own; the assertion on
-- `final_size`, which nothing else uses, is left out.
pub mod Fits
pub mod Overruns
pub mod Pushed
pub mod Found
pub mod Roundtrip
use libbchat_util.Base.{
  ℕ, zero, suc, ◌+◌, ◌-◌, ◌*◌, ◌/◌, min, Option, none, some, List, [], ◌∷◌, ◌++◌, Bool, true, false,
  ◌==◌, leb, ltb, if◌then◌else◌, empty, length, take, drop,
}
use libbchat_util.Base.Order.{Bytes}
use libbchat_util.Attachment.{
  encrypt_header, encrypt_chunk_size, encrypt_chunk_overhead, encrypted_chunk_total, SecretStream,
}
use libbchat_util.Attachment.Decryptor.{starts_with_s, skip_zeros}
use libbchat_util.Attachment.Sizes.{decrypted_max_size}

-- The exceptions, and a write behind the end of the buffer.
pub data Failure : Type 0 where
  too_short unknown_type buffer_too_small : Failure
  padding_ended corrupted invalid_padding early_final no_final data_ended : Failure
  overrun : Failure

-- What the buffer holds when it returns.
pub data Decrypted : Type 0 where
  returns : Bytes → Decrypted
  throws : Failure → Decrypted

-- The message in the next chunk, when more than the tag and mac is left.
abbrev pub chunk_size : ℕ → ℕ
chunk_size left = min (left - encrypt_chunk_overhead) encrypt_chunk_size

abbrev pub next_chunk : Bytes → Bytes
next_chunk rest = take (chunk_size (length rest) + encrypt_chunk_overhead) rest

abbrev pub after_chunk : Bytes → Bytes
after_chunk rest = drop (chunk_size (length rest) + encrypt_chunk_overhead) rest

abbrev pub pull_or :
    {S : Type 0} → Option (Bytes × Bool × S) → (Bytes → Bool → S → Decrypted) → Decrypted
pull_or none continue = throws corrupted
pull_or (some p) continue = continue p.0 p.1 p.2

-- The tests on the tag once some data has been found.
abbrev pub check_tag : Bool → Bytes → Bytes → (Bytes → Decrypted) → Decrypted
check_tag true rest out continue = elim (empty rest) [
  | true ↦ returns out
  | false ↦ throws early_final
]
check_tag false rest out continue = elim (empty rest) [
  | true ↦ throws no_final
  | false ↦ continue out
]

abbrev pub find_data : Bytes → Decrypted → (Bytes → Decrypted) → Decrypted
find_data [] continue found = continue
find_data (c ∷ first) continue found = elim (c == 1) [
  | true ↦ found first
  | false ↦ throws invalid_padding
]

module _ {S : Type 0} (stream : SecretStream S) where
  -- The loop over the data, on fuel.
  unfoldable pub decrypt_data : ℕ → ℕ → Bytes → S → Bytes → Decrypted
  decrypt_data zero size rest st out = throws data_ended
  decrypt_data (suc f) size rest st out = elim (leb (length rest) encrypt_chunk_overhead) [
    | true ↦ throws data_ended
    | false ↦ elim (ltb size (length out + chunk_size (length rest))) [
      | true ↦ throws overrun
      | false ↦ pull_or (stream.pull st (next_chunk rest)) (λ m final st'.
          check_tag final (after_chunk rest) (out ++ m)
            (λ out'. decrypt_data f size (after_chunk rest) st' out'))
    ]
  ]

  -- The first data, behind the padding.
  abbrev pub start_data : ℕ → Bytes → Bytes → Bool → S → Decrypted
  start_data size rest first final st = elim (ltb size (length first)) [
    | true ↦ throws overrun
    | false ↦ check_tag final rest first (λ out. decrypt_data (length rest) size rest st out)
  ]

  -- The loop over the padding, on fuel.
  unfoldable pub decrypt_padding : ℕ → ℕ → Bytes → S → Decrypted
  unfolding decrypt_data
  decrypt_padding zero size rest st = throws padding_ended
  decrypt_padding (suc f) size rest st = elim (leb (length rest) encrypt_chunk_overhead) [
    | true ↦ throws padding_ended
    | false ↦ pull_or (stream.pull st (next_chunk rest)) (λ m final st'.
        find_data (skip_zeros m) (decrypt_padding f size (after_chunk rest) st')
          (λ first. start_data size (after_chunk rest) first final st'))
  ]

  abbrev pub decrypt_stream : ℕ → Bytes → Bytes → Decrypted
  decrypt_stream size key encrypted =
      let rest = drop (suc encrypt_header) encrypted in
      decrypt_padding (length rest) size rest
        (stream.init_pull (take encrypt_header (drop 1 encrypted)) key)

  abbrev pub decrypt_sized : Option ℕ → ℕ → Bytes → Bytes → Decrypted
  decrypt_sized none size key encrypted = throws too_short
  decrypt_sized (some max_size) size key encrypted = elim (starts_with_s encrypted) [
    | true ↦ elim (ltb size max_size) [
      | true ↦ throws buffer_too_small
      | false ↦ decrypt_stream size key encrypted
    ]
    | false ↦ throws unknown_type
  ]

  -- To a buffer of the size.
  unfoldable pub decrypt : ℕ → Bytes → Bytes → Decrypted
  unfolding decrypt_padding
  decrypt size key encrypted =
      decrypt_sized (decrypted_max_size (length encrypted)) size key encrypted

  abbrev pub to_vector : Option ℕ → Bytes → Bytes → Decrypted
  to_vector none key encrypted = throws too_short
  to_vector (some max_size) key encrypted = elim (starts_with_s encrypted) [
    | true ↦ decrypt max_size key encrypted
    | false ↦ throws unknown_type
  ]

  -- To a vector, which is resized to what was written.
  unfoldable pub decrypt_vector : Bytes → Bytes → Decrypted
  unfolding decrypt
  decrypt_vector key encrypted = to_vector (decrypted_max_size (length encrypted)) key encrypted
