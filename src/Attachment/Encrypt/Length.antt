-- ===== src/Attachment/Encrypt/Length.antt =====
-- The length of encrypted data.
use libbchat_util.Base.{
  ℕ, zero, suc, ◌+◌, ◌-◌, ◌*◌, ◌<◌, ◌≤◌, ◌≡◌, refl, ap, ◌∙◌, [], ◌∷◌, Bool, true, false, ◌==◌, ltb,
  ltb→lt, empty, length, take, drop, replicate, arith, inl, inr, Bool-cases, length-append,
}
use libbchat_util.Base.Order.{Bytes}
use libbchat_util.Attachment.{encrypt_header, encrypt_chunk_overhead, SecretStream}
use libbchat_util.Attachment.Sizes.{chunks_of, encrypted_padding, encrypted_size}
use libbchat_util.Attachment.Decryptor.Stepwise.Blocks.{length-take}
use libbchat_util.Attachment.Decryptor.Stepwise.Chunks.{elim_of, elim_true, elim_false}
use libbchat_util.Attachment.Encrypt.{
  pushed, data_chunks, all_data_chunks, last_padding, push_last_padding, padding_chunks,
  encrypt_impl,
}
use libbchat_util.Attachment.Encrypt.Laws.{
  drop_left, not_empty, all_before, length_left, length-take-le, length-replicate,
}

abbrev pub with_tags : ℕ → ℕ
with_tags n = n + chunks_of n 32768 * 17

one_chunk : (n : ℕ) → 0 < n → n ≤ 32768 → n + 17 ≡ with_tags n
one_chunk n p l = omega (arith, p, l)

more_chunks : (n : ℕ) → 32768 < n → 32768 + 17 + with_tags (n - 32768) ≡ with_tags n
more_chunks n l = omega (arith, l)

module _ {S : Type 0} (stream : SecretStream S)
    (grows : (s : S) (m : Bytes) (final : Bool)
      → length (stream.push s m final).0 ≡ length m + encrypt_chunk_overhead) where
  length-pushed :
      (m : Bytes) (final : Bool) (s : S) (rest : S → Bytes) (n : ℕ)
      → 0 < n
      → (final ≡ true → (length m ≡ n) × (n ≤ 32768))
      → (final ≡ false
          → (length m ≡ 32768)
            × (32768 < n)
            × ((s' : S) → length (rest s') ≡ with_tags (n - 32768)))
      → length (pushed stream (stream.push s m final) final rest) ≡ with_tags n
  length-pushed m true s rest n p h k =
      let (e, l) = h refl in
      omega (arith, length-append (stream.push s m true).0 [], grows s m true, e, one_chunk n p l)
  length-pushed m false s rest n p h k =
      let (e, l, r) = k refl in
      let s' = (stream.push s m false).1 in
      omega (
        arith,
        length-append (stream.push s m false).0 (rest s'),
        grows s m false,
        e,
        r s',
        more_chunks n l,
      )

  pub length-data_chunks :
      (f : ℕ) (data_ : Bytes) (s : S)
      → 0 < length data_
      → length data_ ≤ f
      → length (data_chunks stream f data_ s) ≡ with_tags (length data_)
  unfolding data_chunks
  length-data_chunks zero data_ s p l = absurd (omega arith)
  length-data_chunks (suc f) data_ s p l =
      let tail = drop 32768 data_ in
      length-pushed (take 32768 data_) (empty tail) s (λ s'. data_chunks stream f tail s')
        (length data_) p
        (λ e. (
          ap length (all_before 32768 data_ e),
          omega (arith, length-take-le 32768 data_, ap length (all_before 32768 data_ e)),
        ))
        (λ e.
          let more = not_empty 32768 data_ e in
          (
            length-take 32768 data_ (omega (arith, more)),
            more,
            λ s'.
                length-data_chunks f tail s' (length_left 32768 data_ e)
                  (omega (arith, drop_left 32768 data_))
                ∙ ap with_tags (drop_left 32768 data_),
          ))

  length-last_padding :
      (r : ℕ) (data_ : Bytes) (s : S)
      → 0 < r
      → r ≤ 32768
      → length (push_last_padding stream r data_ s) ≡ with_tags (r + length data_)
  length-last_padding r data_ s p l =
      let n = 32768 - r in
      let tail = drop n data_ in
      length-pushed (last_padding stream r data_) (empty tail) s
        (λ s'. all_data_chunks stream tail s') (r + length data_) (omega arith)
        (λ e. (
          last_length r data_ p ∙ ap (λ x. r + length x) (all_before n data_ e),
          omega (arith, length-take-le n data_, ap length (all_before n data_ e)),
        ))
        (λ e.
          let more = not_empty n data_ e in
          (
            omega (arith, last_length r data_ p, length-take n data_ (omega (arith, more))),
            omega (arith, more),
            λ s'.
                length-data_chunks (length tail) tail s' (length_left n data_ e) (omega arith)
                ∙ ap with_tags (omega (arith, drop_left n data_)),
          ))
    where
      last_length :
          (r : ℕ) (data_ : Bytes)
          → 0 < r
          → length (last_padding stream r data_) ≡ r + length (take (32768 - r) data_)
      last_length r data_ p = omega (
        arith,
        length-append (replicate (r - 1) 0) (1 ∷ take (32768 - r) data_),
        length-replicate (r - 1) 0,
      )

  pub length-padding_chunks :
      (f r : ℕ) (data_ : Bytes) (s : S)
      → 0 < r
      → r ≤ f
      → length (padding_chunks stream f r data_ s) ≡ with_tags (r + length data_)
  unfolding padding_chunks
  length-padding_chunks zero r data_ s p l = absurd (omega arith)
  length-padding_chunks (suc f) r data_ s p l =
      let zeros : Bytes = replicate 32768 0 in
      let rest : S → Bytes = λ s'. padding_chunks stream f (r - 32768) data_ s' in
      let more : Bytes = pushed stream (stream.push s zeros false) false rest in
      let last : Bytes = push_last_padding stream r data_ s in
      ap length (
        elim_false (r == 0) (all_data_chunks stream data_ s) (elim_of (ltb 32768 r) more last)
          (ground (arith, p)))
      ∙ elim (Bool-cases (ltb 32768 r)) [
        | inl e ↦
            ap length (elim_true (ltb 32768 r) more last e)
            ∙ length-pushed zeros false s rest (r + length data_) (omega arith) (λ e. cc e)
                (λ _. (
                  length-replicate 32768 0,
                  omega (arith, ltb→lt 32768 r e),
                  λ s'.
                      length-padding_chunks f (r - 32768) data_ s' (omega (arith, ltb→lt 32768 r e))
                        (omega arith)
                      ∙ ap with_tags (omega (arith, ltb→lt 32768 r e)),
                ))
        | inr e ↦
            ap length (elim_false (ltb 32768 r) more last e)
            ∙ length-last_padding r data_ s p (ground (arith, e))
      ]

  -- For data whose padding is not zero, the encrypted data has the length that encrypted_size gives.
  pub length-encrypt_impl :
      (nonce_key data_ : Bytes)
      → encrypt_header ≤ length nonce_key
      → 0 < encrypted_padding (length data_)
      → length (encrypt_impl stream nonce_key data_) ≡ encrypted_size (length data_)
  unfolding encrypt_impl encrypted_size
  length-encrypt_impl nonce_key data_ h p =
      let n = encrypted_padding (length data_) in
      let header = take 24 nonce_key in
      let rest = padding_chunks stream n n data_ (stream.init_push header (drop 24 nonce_key)) in
      let both : n + length data_ ≡ length data_ + n = omega arith in
      omega (
        arith,
        length-append header rest,
        length-take 24 nonce_key h,
        length-padding_chunks n n data_ (stream.init_push header (drop 24 nonce_key)) p
              (omega arith)
            ∙ ap with_tags both,
      )
