-- ===== src/Attachment/Encrypt.antt =====
-- Encryption of data in memory, of attachments.cpp: `encrypt_impl` with the function that `encrypt`
-- gives it for the data.
pub mod Laws
pub mod Length
pub mod Opened
pub mod Roundtrip
use libbchat_util.Base.{
  ℕ, zero, suc, ◌+◌, ◌-◌, List, [], ◌∷◌, ◌++◌, Bool, true, false, ◌==◌, ltb, if◌then◌else◌, empty,
  length, take, drop, replicate,
}
use libbchat_util.Base.Order.{Bytes}
use libbchat_util.Attachment.{encrypt_header, encrypt_chunk_size, SecretStream}
use libbchat_util.Attachment.Sizes.{encrypted_padding}

module _ {S : Type 0} (stream : SecretStream S) where
  -- One message is written, and what comes after it unless it is the final one.
  abbrev pub pushed : Bytes × S → Bool → (S → Bytes) → Bytes
  pushed p final rest = p.0 ++ (if final then [] else rest p.1)

  -- The loop over the rest of the data, on fuel.
  unfoldable pub data_chunks : ℕ → Bytes → S → Bytes
  data_chunks zero data_ st = []
  data_chunks (suc f) data_ st =
      let final = empty (drop encrypt_chunk_size data_) in
      pushed (stream.push st (take encrypt_chunk_size data_) final) final
        (λ st'. data_chunks f (drop encrypt_chunk_size data_) st')

  abbrev pub all_data_chunks : Bytes → S → Bytes
  all_data_chunks data_ st = data_chunks (length data_) data_ st

  -- The last chunk of the padding, with the beginning of the data.
  abbrev pub last_padding : ℕ → Bytes → Bytes
  last_padding padding_remaining data_ =
      replicate (padding_remaining - 1) 0 ++ 1 ∷ take (encrypt_chunk_size - padding_remaining) data_

  abbrev pub push_last_padding : ℕ → Bytes → S → Bytes
  push_last_padding padding_remaining data_ st =
      let rest = drop (encrypt_chunk_size - padding_remaining) data_ in
      pushed (stream.push st (last_padding padding_remaining data_) (empty rest)) (empty rest)
        (λ st'. all_data_chunks rest st')

  -- The loop over the padding, on fuel.
  unfoldable pub padding_chunks : ℕ → ℕ → Bytes → S → Bytes
  unfolding data_chunks
  padding_chunks zero padding_remaining data_ st = all_data_chunks data_ st
  padding_chunks (suc f) padding_remaining data_ st = elim (padding_remaining == 0) [
    | true ↦ all_data_chunks data_ st
    | false ↦ elim (ltb encrypt_chunk_size padding_remaining) [
      | true ↦
          pushed (stream.push st (replicate encrypt_chunk_size 0) false) false
            (λ st'. padding_chunks f (padding_remaining - encrypt_chunk_size) data_ st')
      | false ↦ push_last_padding padding_remaining data_ st
    ]
  ]

  -- The nonce is the header, and the key comes after it.
  unfoldable pub encrypt_padded : ℕ → Bytes → Bytes → Bytes
  unfolding padding_chunks
  encrypt_padded padding nonce_key data_ =
      let header = take encrypt_header nonce_key in
      b'S'
      ∷ (header
          ++ padding_chunks padding padding data_
              (stream.init_push header (drop encrypt_header nonce_key)))

  unfoldable pub encrypt_impl : Bytes → Bytes → Bytes
  unfolding encrypt_padded
  encrypt_impl nonce_key data_ = encrypt_padded (encrypted_padding (length data_)) nonce_key data_
