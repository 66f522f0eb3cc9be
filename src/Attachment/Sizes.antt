-- ===== src/Attachment/Sizes.antt =====
-- The sizes of attachments.cpp: the padding, the encrypted size, and the bound on the decrypted size.
-- `size_t` wraps where the source subtracts, and where it adds to what it subtracted; the other sums
-- are of what is in memory, and do not reach 2 ^ 64.
pub mod Factor
pub mod Exact
use libbchat_util.Base.{
  ℕ, zero, suc, ◌+◌, ◌-◌, ◌*◌, ◌/◌, ◌%◌, ◌^◌, max, Option, none, some, Bool, true, false, ltb, leb,
  if◌then◌else◌,
}
use libbchat_util.Attachment.{
  encrypt_header, encrypt_chunk_size, encrypt_chunk_overhead, encrypted_chunk_total,
}

abbrev pub size_mod : ℕ
size_mod = 2 ^ 64

-- a - b of `size_t`.
abbrev pub sub_size : ℕ → ℕ → ℕ
sub_size a b = (a + size_mod - b) % size_mod

-- `std::bit_floor`: the greatest power of two that is not above the number, on fuel.
unfoldable pub floor_of_bits : ℕ → ℕ → ℕ
floor_of_bits zero n = n
floor_of_bits (suc f) n = let half = floor_of_bits f (n / 2) in if ltb n 2 then n else 2 * half

-- 64 bits have 64 powers of two.
unfoldable pub bit_floor : ℕ → ℕ
unfolding floor_of_bits
bit_floor n = floor_of_bits 64 n

abbrev pub chunks_of : ℕ → ℕ → ℕ
chunks_of size chunk = (size + chunk - 1) / chunk

-- What is encrypted, with one byte of padding.
abbrev pub least_size : ℕ → ℕ
least_size data_size =
    data_size
    + (1 + encrypt_header)
    + 1
    + chunks_of data_size encrypt_chunk_size * encrypt_chunk_overhead

unfoldable pub pad_factor : ℕ → ℕ
unfolding bit_floor
pad_factor enc_size = bit_floor (max enc_size 131072) / 32

-- The size that is aimed at.
abbrev pub padded_size : ℕ → ℕ → ℕ
padded_size enc_size factor = (enc_size + factor - 1) / factor * factor

-- The padding before the tags of the chunks that it adds are taken off.
unfoldable pub full_padding : ℕ → ℕ
unfolding pad_factor
full_padding data_size =
    padded_size (least_size data_size) (pad_factor (least_size data_size))
    - least_size data_size
    + 1

-- The tags of whole chunks of padding, and of the chunk that the rest spills over into.
abbrev pub whole_tags : ℕ → ℕ
whole_tags padding =
    if leb encrypted_chunk_total padding
    then padding / encrypted_chunk_total * encrypt_chunk_overhead
    else 0

abbrev pub spilled_tag : ℕ → ℕ → ℕ
spilled_tag data_size padding =
    if ltb (chunks_of data_size encrypt_chunk_size * encrypt_chunk_size - data_size)
      (padding % encrypted_chunk_total)
    then encrypt_chunk_overhead
    else 0

abbrev pub implicit_padding : ℕ → ℕ → ℕ
implicit_padding data_size padding = whole_tags padding + spilled_tag data_size padding

unfoldable pub encrypted_padding : ℕ → ℕ
unfolding full_padding
encrypted_padding data_size =
    sub_size (full_padding data_size) (implicit_padding data_size (full_padding data_size))

unfoldable pub encrypted_size : ℕ → ℕ
unfolding encrypted_padding
encrypted_size plaintext_size =
    1
    + encrypt_header
    + plaintext_size
    + encrypted_padding plaintext_size
    + chunks_of (plaintext_size + encrypted_padding plaintext_size) encrypt_chunk_size
      * encrypt_chunk_overhead

abbrev pub overhead_of : ℕ → ℕ
overhead_of sz =
    (sz + encrypted_chunk_total - 1) % size_mod / encrypted_chunk_total * encrypt_chunk_overhead

abbrev pub without_overhead : ℕ → ℕ
without_overhead sz = sub_size sz (overhead_of sz)

abbrev pub at_most : ℕ → ℕ → Option ℕ
at_most encrypted_size sz = if ltb encrypted_size sz then none else some sz

unfoldable pub decrypted_max_size : ℕ → Option ℕ
decrypted_max_size encrypted_size =
    at_most encrypted_size (without_overhead (sub_size encrypted_size (1 + 1 + encrypt_header)))
