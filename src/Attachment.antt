-- ===== src/Attachment.antt =====
-- Attachments, of attachments.cpp: a file is padded, cut into chunks and encrypted as a stream; and
-- decrypted chunk by chunk. libsodium's secretstream is a parameter.
pub mod Decryptor
pub mod Sizes
pub mod Encrypt
pub mod Decrypt
use libbchat_util.Base.{ℕ, ◌+◌, Option, List, Bool}
use libbchat_util.Base.Order.{Bytes}

abbrev pub encrypt_header : ℕ
encrypt_header = 24

abbrev pub encrypt_chunk_size : ℕ
encrypt_chunk_size = 32768

abbrev pub encrypt_chunk_overhead : ℕ
encrypt_chunk_overhead = 17

abbrev pub encrypted_chunk_total : ℕ
encrypted_chunk_total = encrypt_chunk_size + encrypt_chunk_overhead

-- crypto_secretstream_xchacha20poly1305: the streams by their states, starting from a key and a
-- header, and the encryption and decryption of one message with the tag that says whether it is final.
pub record SecretStream (S : Type 0) : Type 0 where
  pub init_push : Bytes → Bytes → S
  pub push : S → Bytes → Bool → Bytes × S
  pub init_pull : Bytes → Bytes → S
  pub pull : S → Bytes → Option (Bytes × Bool × S)
