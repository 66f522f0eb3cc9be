-- ===== src/Attachment/Decrypt/Roundtrip.antt =====
-- What was encrypted in memory is decrypted to the buffer that is made for it.
use libbchat_util.Base.{
  ℕ, zero, suc, ◌+◌, ◌-◌, ◌^◌, ◌<◌, ◌≤◌, ◌≡◌, refl, ap, ◌∙◌, some, ◌∷◌, ◌++◌, Bool, true, false,
  ◌==◌, ltb, ltb→lt, empty, length, take, drop, replicate, arith, inl, inr, Bool-cases,
  length-append, take-append-drop,
}
use libbchat_util.Base.Order.{Bytes}
use libbchat_util.Attachment.{encrypt_header, SecretStream}
use libbchat_util.Attachment.Sizes.{least_size, encrypted_padding, decrypted_max_size}
use libbchat_util.Attachment.Sizes.Exact.{encrypted_size_lem}
use libbchat_util.Attachment.Decryptor.{skip_zeros}
use libbchat_util.Attachment.Decryptor.Stepwise.Blocks.{length-take}
use libbchat_util.Attachment.Decryptor.Stepwise.Chunks.{elim_of, elim_true, elim_false}
use libbchat_util.Attachment.Encrypt.{
  pushed, all_data_chunks, last_padding, push_last_padding, padding_chunks, encrypt_impl,
}
use libbchat_util.Attachment.Encrypt.Laws.{
  StreamLaws, skip-replicate, skip_all, not_empty, all_before, length_left, length-take-le,
  length-replicate, take_front, drop_past,
}
use libbchat_util.Attachment.Encrypt.Length.{length-padding_chunks, length-encrypt_impl}
use libbchat_util.Attachment.Decrypt.{
  returns, throws, overrun, no_final, buffer_too_small, check_tag, decrypt_data, start_data,
  find_data, decrypt_padding, decrypt_stream, decrypt_sized, decrypt, to_vector, decrypt_vector,
}
use libbchat_util.Attachment.Decrypt.Pushed.{
  not_empty_list, not_shorter, behind, padding_pushed, text-length,
}
use libbchat_util.Attachment.Decrypt.Found.{data_some, data-returns}

module _ {S : Type 0} (stream : SecretStream S) (laws : StreamLaws stream) (size : ℕ) where
  module _ (r : ℕ) (data_ : Bytes) (s t : S) (c : laws.Corresponds s t) (p : 0 < r)
      (fits : r ≤ 32768) (h : length data_ ≤ size) where
    abbrev room_left : ℕ
    room_left = 32768 - r

    abbrev first_data : Bytes
    first_data = take room_left data_

    abbrev other_data : Bytes
    other_data = drop room_left data_

    abbrev last : Bytes
    last = last_padding stream r data_

    skip-last : skip_zeros last ≡ 1 ∷ first_data
    unfolding skip_zeros
    skip-last = skip-replicate (r - 1) (1 ∷ first_data)

    last_size : length last ≡ r + length first_data
    last_size =
        omega
          (arith, length-append (replicate (r - 1) 0) (1 ∷ first_data), length-replicate (r - 1) 0)

    first_fits : ltb size (length first_data) ≡ false
    first_fits = not_shorter size (length first_data) (
        omega (
          arith,
          h,
          ap length (take-append-drop room_left data_),
          length-append first_data other_data,
        ))

    last_full : empty other_data ≡ false → length last ≡ 32768
    last_full e = omega (
      arith,
      last_size,
      not_empty room_left data_ e,
      length-take room_left data_ (omega (arith, not_empty room_left data_ e)),
    )

    last_starts :
        (g : ℕ) (rest : S → Bytes) (final : Bool)
        → (final ≡ false → length last ≡ 32768)
        → decrypt_padding stream
            (suc g)
            size
            (pushed stream (stream.push s last final) final rest)
            t
          ≡ check_tag final
              (behind stream laws size (stream.push s last final) final rest)
              first_data
              (λ out.
                decrypt_data stream
                  (length (behind stream laws size (stream.push s last final) final rest))
                  size
                  (behind stream laws size (stream.push s last final) final rest)
                  (laws.next t last final)
                  out)
    last_starts g rest final k =
        let more = behind stream laws size (stream.push s last final) final rest in
        let t' = laws.next t last final in
        padding_pushed stream laws size s t last final rest c (omega (arith, last_size, p))
          (omega (arith, last_size, length-take-le room_left data_)) k g
        ∙ ap
            (λ o.
              find_data o (decrypt_padding stream g size more t')
                (λ first. start_data stream size more first final t'))
            skip-last
        ∙ elim_false (ltb size (length first_data)) (throws overrun)
            (check_tag final more first_data
              (λ out. decrypt_data stream (length more) size more t' out))
            first_fits

    last_by :
        (g : ℕ) (rest : S → Bytes) (final : Bool)
        → empty other_data ≡ final
        → ((s' : S) → 0 < length other_data → 0 < length (rest s'))
        → ((s' t' : S) (out' : Bytes)
            → laws.Corresponds s' t'
            → 0 < length other_data
            → length out' + length other_data ≤ size
            → decrypt_data stream (length (rest s')) size (rest s') t' out'
              ≡ returns (out' ++ other_data))
        → decrypt_padding stream
            (suc g)
            size
            (pushed stream (stream.push s last final) final rest)
            t
          ≡ returns data_
    last_by g rest true e more_data ih =
        let t' = laws.next t last true in
        last_starts g rest true (λ e. cc e) ∙ ap returns (all_before room_left data_ e)
    last_by g rest false e more_data ih =
        let left = length_left room_left data_ e in
        let s' = (stream.push s last false).1 in
        let t' = laws.next t last false in
        last_starts g rest false (λ _. last_full e)
        ∙ elim_false (empty (rest s')) (throws no_final)
            (decrypt_data stream (length (rest s')) size (rest s') t' first_data)
            (not_empty_list (rest s') (more_data s' left))
        ∙ ih s' t' first_data (laws.opens s t last false c).1 left (
            omega (
              arith,
              h,
              ap length (take-append-drop room_left data_),
              length-append first_data other_data,
            ))
        ∙ ap returns (take-append-drop room_left data_)

  padding-returns :
      (f g r : ℕ) (data_ : Bytes) (s t : S)
      → laws.Corresponds s t
      → 0 < r
      → r ≤ f
      → length (padding_chunks stream f r data_ s) ≤ g
      → length data_ ≤ size
      → decrypt_padding stream g size (padding_chunks stream f r data_ s) t ≡ returns data_
  unfolding padding_chunks
  padding-returns zero g r data_ s t c p l b h = absurd (omega arith)
  padding-returns (suc f) zero r data_ s t c p l b h =
      absurd (omega (arith, b, length-padding_chunks stream laws.grows (suc f) r data_ s p l))
  padding-returns (suc f) (suc g) r data_ s t c p l b h =
      let zeros : Bytes = replicate 32768 0 in
      let zeros_size : length zeros ≡ 32768 = length-replicate 32768 0 in
      let rest : S → Bytes = λ s'. padding_chunks stream f (r - 32768) data_ s' in
      let t' = laws.next t zeros false in
      let s' = (stream.push s zeros false).1 in
      let more : Bytes = pushed stream (stream.push s zeros false) false rest in
      let last : Bytes = push_last_padding stream r data_ s in
      let tail = drop (32768 - r) data_ in
      let some_left =
        elim_false (r == 0) (all_data_chunks stream data_ s) (elim_of (ltb 32768 r) more last)
          (not_zero r p) in
      elim (Bool-cases (ltb 32768 r)) [
        | inl e ↦
            let shape = some_left ∙ elim_true (ltb 32768 r) more last e in
            ap (λ x. decrypt_padding stream (suc g) size x t) shape
            ∙ padding_pushed stream laws size s t zeros false rest c (omega (arith, zeros_size))
                (omega (arith, zeros_size)) (λ _. zeros_size) g
            ∙ ap
                (λ o.
                  find_data o (decrypt_padding stream g size (rest s') t')
                    (λ first. start_data stream size (rest s') first false t'))
                (skip_all 32768)
            ∙ padding-returns f g (r - 32768) data_ s' t' (laws.opens s t zeros false c).1
                (omega (arith, ltb→lt 32768 r e)) (omega (arith, ltb→lt 32768 r e))
                (omega (
                  arith,
                  b,
                  ap length shape,
                  text-length stream laws size s t zeros false rest c (omega (arith, zeros_size))
                      (omega (arith, zeros_size)) (λ _. zeros_size),
                ))
                h
        | inr e ↦
            ap (λ x. decrypt_padding stream (suc g) size x t)
              (some_left ∙ elim_false (ltb 32768 r) more last e)
            ∙ last_by r data_ s t c p (at_most_chunk r e) h g (λ s'. all_data_chunks stream tail s')
                (empty tail) refl
                (λ s' q. data_some stream laws size (length tail) tail s' q (omega arith))
                (λ s' t' out' c' q h'.
                  data-returns stream laws size (length tail)
                    (length (all_data_chunks stream tail s')) tail s' t' out' c' q (omega arith)
                    (omega arith) h')
      ]
    where
      not_zero : (r : ℕ) → 0 < r → (r == 0) ≡ false
      not_zero r p = ground (arith, p)

      at_most_chunk : (r : ℕ) → ltb 32768 r ≡ false → r ≤ 32768
      at_most_chunk r e = ground (arith, e)

-- For a secretstream that decrypts what it encrypts, and data that with its prefix, a byte of padding
-- and its tags is smaller than 2 ^ 40 bytes: decrypted_max_size of the length of the encrypted data
-- is a size, and decryption with the key, to a buffer of that size and to a vector, returns the data.
pub decrypt-encrypt_impl :
    {S : Type 0} (stream : SecretStream S) (laws : StreamLaws stream) (nonce_key data_ : Bytes)
    → encrypt_header ≤ length nonce_key
    → least_size (length data_) < 2 ^ 40
    → (max_size : ℕ) × (decrypted_max_size (length (encrypt_impl stream nonce_key data_))
        ≡ some max_size)
      × (decrypt stream max_size
            (drop encrypt_header nonce_key)
            (encrypt_impl stream nonce_key data_)
          ≡ returns data_)
      × (decrypt_vector stream (drop encrypt_header nonce_key) (encrypt_impl stream nonce_key data_)
          ≡ returns data_)
unfolding decrypt decrypt_vector encrypt_impl
decrypt-encrypt_impl stream laws nonce_key data_ h small =
    let (pos, same, max_size, found, fits) = encrypted_size_lem (length data_) small in
    let n = encrypted_padding (length data_) in
    let header = take 24 nonce_key in
    let key = drop 24 nonce_key in
    let header_size = length-take 24 nonce_key h in
    let s = stream.init_push header key in
    let chunks = padding_chunks stream n n data_ s in
    let found' =
      ap decrypted_max_size (length-encrypt_impl stream laws.grows nonce_key data_ h pos) ∙ found in
    let returned : decrypt stream max_size key (encrypt_impl stream nonce_key data_)
        ≡ returns data_ =
      ap (λ o. decrypt_sized stream o max_size key (encrypt_impl stream nonce_key data_)) found'
      ∙ elim_false (ltb max_size max_size) (throws buffer_too_small)
          (decrypt_stream stream max_size key (encrypt_impl stream nonce_key data_))
          (not_shorter max_size max_size (omega arith))
      ∙ ap
          (λ x.
            decrypt_padding stream (length x) max_size x
              (stream.init_pull (take 24 (header ++ chunks)) key))
          (drop_past 24 header chunks header_size)
      ∙ ap (λ x. decrypt_padding stream (length chunks) max_size chunks (stream.init_pull x key))
          (take_front 24 header chunks header_size)
      ∙ padding-returns stream laws max_size n (length chunks) n data_ s
          (stream.init_pull header key) (laws.begins header key) pos (omega arith) (omega arith)
          fits in
    (
      max_size,
      found',
      returned,
      ap (λ o. to_vector stream o key (encrypt_impl stream nonce_key data_)) found' ∙ returned,
    )
