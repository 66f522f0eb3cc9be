-- ===== src/Attachment/Decrypt/Overruns.antt =====
-- The decryption of a truncated attachment to a buffer of the size that is computed for it.
use libbchat_util.Base.{
  ℕ, zero, suc, ◌+◌, ◌<◌, ◌≤◌, ◌≡◌, ap, ◌∙◌, some, ◌∷◌, ◌++◌, Bool, true, false, leb, ltb, length,
  take, arith, length-append,
}
use libbchat_util.Base.Order.{Bytes}
use libbchat_util.Attachment.{SecretStream}
use libbchat_util.Attachment.Decryptor.{skip_zeros}
use libbchat_util.Attachment.Decryptor.Stepwise.Chunks.{elim_true, elim_false}
use libbchat_util.Attachment.Encrypt.Laws.{take_front, drop_past}
use libbchat_util.Attachment.Sizes.{decrypted_max_size}
use libbchat_util.Attachment.Decrypt.{
  overrun, padding_ended, buffer_too_small, Decrypted, throws, chunk_size, next_chunk, after_chunk,
  pull_or, check_tag, decrypt_data, start_data, find_data, decrypt_padding, decrypt_stream,
  decrypt_sized, decrypt, to_vector, decrypt_vector,
}

truncated_max : (n k : ℕ) → n ≡ 32810 + k → 2 ≤ k → k ≤ 16 → decrypted_max_size n ≡ some (32750 + k)
unfolding decrypted_max_size
truncated_max n k e l h = ground (arith, e, l, h)

whole_chunk : (n k : ℕ) → n ≡ 32785 + k → chunk_size n + 17 ≡ 32785
whole_chunk n k e = ground (arith, e)

module _ {S : Type 0} (stream : SecretStream S) (key header chunk rest first : Bytes) (final : Bool)
    (st' : S) (h : length header ≡ 24) (c : length chunk ≡ 32785) (f : length first ≡ 32767)
    (opens : stream.pull (stream.init_pull header key) chunk ≡ some (1 ∷ first, final, st'))
    (low : 2 ≤ length rest) (high : length rest ≤ 16) where
  abbrev size : ℕ
  size = 32750 + length rest

  total : length (chunk ++ rest) ≡ 32785 + length rest
  total = omega (arith, length-append chunk rest, c)

  padding_overruns :
      (n : ℕ)
      → 0 < n
      → decrypt_padding stream n size (chunk ++ rest) (stream.init_pull header key) ≡ throws overrun
  unfolding decrypt_padding skip_zeros
  padding_overruns zero p = absurd (omega (arith, p))
  padding_overruns (suc n) p =
      let left = chunk ++ rest in
      let continue : Bytes → Bool → S → Decrypted = λ m final st'.
        find_data (skip_zeros m) (decrypt_padding stream n size (after_chunk left) st')
          (λ first. start_data stream size (after_chunk left) first final st') in
      elim_false (leb (length left) 17) (throws padding_ended)
        (pull_or (stream.pull (stream.init_pull header key) (next_chunk left)) continue)
        (enough (length left) total)
      ∙ ap (λ x. pull_or (stream.pull (stream.init_pull header key) x) continue)
          (ap (λ n. take n left) (whole_chunk (length left) (length rest) total)
            ∙ take_front 32785 chunk rest c)
      ∙ ap (λ o. pull_or o continue) opens
      ∙ elim_true (ltb size (length first)) (throws overrun)
          (check_tag final (after_chunk left) first (λ out.
            decrypt_data stream (length (after_chunk left)) size (after_chunk left) st' out))
          (small (length rest) (length first) f high)
    where
      enough : (n : ℕ) → n ≡ 32785 + length rest → leb n 17 ≡ false
      enough n e = ground (arith, e)

      small : (k n : ℕ) → n ≡ 32767 → k ≤ 16 → ltb (32750 + k) n ≡ true
      small k n e h = ground (arith, e, h)

  abbrev pub truncated : Bytes
  truncated = b'S' ∷ (header ++ (chunk ++ rest))

  -- When a header and a chunk, which opens to a single byte of padding and data that fills it up,
  -- are followed by 2 to 16 bytes: decryption to a buffer of the size that decrypted_max_size gives,
  -- and decryption to a vector, write behind the end of the buffer.
  pub decrypt_overruns :
      (max_size : ℕ) × (decrypted_max_size (length truncated) ≡ some max_size)
      × (decrypt stream max_size key truncated ≡ throws overrun)
      × (decrypt_vector stream key truncated ≡ throws overrun)
  unfolding decrypt decrypt_vector
  decrypt_overruns =
      let n =
        truncated_max (length truncated) (length rest)
          (omega (arith, length-append header (chunk ++ rest), h, total)) low high in
      let overran : decrypt stream size key truncated ≡ throws overrun =
        ap (λ o. decrypt_sized stream o size key truncated) n
        ∙ elim_false (ltb size size) (throws buffer_too_small)
            (decrypt_stream stream size key truncated) (not_smaller size)
        ∙ ap
            (λ x.
              decrypt_padding stream (length x) size x
                (stream.init_pull (take 24 (header ++ (chunk ++ rest))) key))
            (drop_past 24 header (chunk ++ rest) h)
        ∙ ap
            (λ x.
              decrypt_padding stream (length (chunk ++ rest)) size (chunk ++ rest)
                (stream.init_pull x key))
            (take_front 24 header (chunk ++ rest) h)
        ∙ padding_overruns (length (chunk ++ rest)) (omega (arith, total)) in
      (size, n, overran, ap (λ o. to_vector stream o key truncated) n ∙ overran)
    where
      not_smaller : (n : ℕ) → ltb n n ≡ false
      not_smaller n = ground arith
