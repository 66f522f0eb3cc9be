-- ===== src/Attachment/Decrypt/Pushed.antt =====
-- One message that was encrypted, as the loops of the decryption meet it.
use libbchat_util.Base.{
  ℕ, suc, ◌+◌, ◌<◌, ◌≤◌, ◌≡◌, refl, ap, ◌∙◌, [], ◌∷◌, ◌++◌, Bool, true, false, leb, ltb, empty,
  length, arith, length-append, if◌then◌else◌,
}
use libbchat_util.Base.Order.{Bytes}
use libbchat_util.Attachment.{SecretStream}
use libbchat_util.Attachment.Decryptor.{skip_zeros}
use libbchat_util.Attachment.Decryptor.Stepwise.Chunks.{elim_of, elim_false}
use libbchat_util.Attachment.Encrypt.{pushed}
use libbchat_util.Attachment.Encrypt.Laws.{StreamLaws, take_front, drop_past}
use libbchat_util.Attachment.Decrypt.{
  Decrypted, throws, data_ended, overrun, padding_ended, chunk_size, next_chunk, after_chunk,
  pull_or, check_tag, decrypt_data, start_data, find_data, decrypt_padding,
}

pub not_empty_list : (s : Bytes) → 0 < length s → empty s ≡ false
not_empty_list [] p = absurd (omega (arith, p))
not_empty_list (c ∷ s) p = refl

pub not_shorter : (a b : ℕ) → b ≤ a → ltb a b ≡ false
not_shorter a b l = ground (arith, l)

pub some_chunk : (l n : ℕ) → chunk_size l ≡ n → 0 < n → leb l 17 ≡ false
some_chunk l n e p = ground (arith, e, p)

module _ {S : Type 0} (stream : SecretStream S) (laws : StreamLaws stream) (size : ℕ) where
  -- What comes behind a message.
  abbrev pub behind : Bytes × S → Bool → (S → Bytes) → Bytes
  behind p final rest = if final then [] else rest p.1

  pushed_size :
      (s : S) (m : Bytes) (final : Bool) (rest : S → Bytes)
      → length m ≤ 32768
      → (final ≡ false → length m ≡ 32768)
      → chunk_size (length (pushed stream (stream.push s m final) final rest)) ≡ length m
  pushed_size s m true rest l k =
      sized (length (pushed stream (stream.push s m true) true rest)) (length m)
        (omega (arith, length-append (stream.push s m true).0 [], laws.grows s m true)) l
    where
      sized : (n k : ℕ) → n ≡ k + 17 → k ≤ 32768 → chunk_size n ≡ k
      sized n k e l = ground (arith, e, l)
  pushed_size s m false rest l k =
      sized (length (pushed stream (stream.push s m false) false rest)) (length m)
        (length (rest (stream.push s m false).1))
        (omega (
          arith,
          length-append (stream.push s m false).0 (rest (stream.push s m false).1),
          laws.grows s m false,
        ))
        (k refl)
    where
      sized : (n k r : ℕ) → n ≡ k + 17 + r → k ≡ 32768 → chunk_size n ≡ k
      sized n k r e l = ground (arith, e, l)

  module _ (s t : S) (m : Bytes) (final : Bool) (rest : S → Bytes) (c : laws.Corresponds s t)
      (p : 0 < length m) (l : length m ≤ 32768) (k : final ≡ false → length m ≡ 32768) where
    abbrev pub text : Bytes
    text = pushed stream (stream.push s m final) final rest

    abbrev pub more : Bytes
    more = behind (stream.push s m final) final rest

    chunk_length : length (stream.push s m final).0 ≡ chunk_size (length text) + 17
    chunk_length = omega (arith, laws.grows s m final, pushed_size s m final rest l k)

    opened :
        (continue : Bytes → Bytes → Bool → S → Decrypted)
        → pull_or (stream.pull t (next_chunk text)) (continue (after_chunk text))
          ≡ continue more m final (laws.next t m final)
    opened continue =
        ap (λ x. pull_or (stream.pull t x) (continue (after_chunk text)))
          (take_front (chunk_size (length text) + 17) (stream.push s m final).0 more chunk_length)
        ∙ ap (λ o. pull_or o (continue (after_chunk text))) (laws.opens s t m final c).0
        ∙ ap (λ x. continue x m final (laws.next t m final))
            (drop_past (chunk_size (length text) + 17) (stream.push s m final).0 more chunk_length)

    pub data_pushed :
        (g : ℕ) (out : Bytes)
        → length out + length m ≤ size
        → decrypt_data stream (suc g) size text t out
          ≡ check_tag final more
              (out ++ m)
              (λ out'. decrypt_data stream g size more (laws.next t m final) out')
    unfolding decrypt_data
    data_pushed g out h =
        let continue : Bytes → Bytes → Bool → S → Decrypted = λ after m' final' st'.
          check_tag final' after (out ++ m') (λ out'. decrypt_data stream g size after st' out') in
        let pulled = pull_or (stream.pull t (next_chunk text)) (continue (after_chunk text)) in
        let sized = pushed_size s m final rest l k in
        elim_false (leb (length text) 17) (throws data_ended)
          (elim_of (ltb size (length out + chunk_size (length text))) (throws overrun) pulled)
          (some_chunk (length text) (length m) sized p)
        ∙ elim_false (ltb size (length out + chunk_size (length text))) (throws overrun) pulled
            (not_shorter size (length out + chunk_size (length text)) (omega (arith, sized, h)))
        ∙ opened continue

    pub padding_pushed :
        (g : ℕ)
        → decrypt_padding stream (suc g) size text t
          ≡ find_data
              (skip_zeros m)
              (decrypt_padding stream g size more (laws.next t m final))
              (λ first. start_data stream size more first final (laws.next t m final))
    unfolding decrypt_padding
    padding_pushed g =
        let continue : Bytes → Bytes → Bool → S → Decrypted = λ after m' final' st'.
          find_data (skip_zeros m') (decrypt_padding stream g size after st')
            (λ first. start_data stream size after first final' st') in
        elim_false (leb (length text) 17) (throws padding_ended)
          (pull_or (stream.pull t (next_chunk text)) (continue (after_chunk text)))
          (some_chunk (length text) (length m) (pushed_size s m final rest l k) p)
        ∙ opened continue

    pub text-length : length text ≡ length m + 17 + length more
    text-length = omega (arith, length-append (stream.push s m final).0 more, laws.grows s m final)
