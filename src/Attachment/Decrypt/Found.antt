-- ===== src/Attachment/Decrypt/Found.antt =====
-- The loop over the data of the decryption gives back what was encrypted.
use libbchat_util.Base.{
  ℕ, zero, suc, ◌+◌, ◌<◌, ◌≤◌, ◌≡◌, refl, ap, ◌∙◌, ◌++◌, Bool, true, false, empty, length, take,
  drop, arith, length-append, take-append-drop,
}
use mathlib.Core.List.{append_assoc}
use libbchat_util.Base.Order.{Bytes}
use libbchat_util.Attachment.{SecretStream}
use libbchat_util.Attachment.Decryptor.Stepwise.Blocks.{length-take}
use libbchat_util.Attachment.Decryptor.Stepwise.Chunks.{elim_false}
use libbchat_util.Attachment.Encrypt.{pushed, data_chunks}
use libbchat_util.Attachment.Encrypt.Laws.{
  StreamLaws, drop_left, not_empty, all_before, length_left, length-take-le,
}
use libbchat_util.Attachment.Encrypt.Length.{length-data_chunks}
use libbchat_util.Attachment.Decrypt.{returns, throws, no_final, decrypt_data}
use libbchat_util.Attachment.Decrypt.Pushed.{not_empty_list, data_pushed, text-length}

module _ {S : Type 0} (stream : SecretStream S) (laws : StreamLaws stream) (size : ℕ) where
  module _ (g : ℕ) (data_ : Bytes) (s t : S) (out : Bytes) (c : laws.Corresponds s t)
      (p : 0 < length data_) (h : length out + length data_ ≤ size) where
    abbrev head : Bytes
    head = take 32768 data_

    abbrev tail : Bytes
    tail = drop 32768 data_

    data_by :
        (rest : S → Bytes) (final : Bool)
        → empty tail ≡ final
        → ((s' : S) → 0 < length tail → 0 < length (rest s'))
        → ((s' t' : S) (out' : Bytes)
            → laws.Corresponds s' t'
            → 0 < length tail
            → length (rest s') ≤ g
            → length out' + length tail ≤ size
            → decrypt_data stream g size (rest s') t' out' ≡ returns (out' ++ tail))
        → length (pushed stream (stream.push s head final) final rest) ≤ suc g
        → decrypt_data stream
            (suc g)
            size
            (pushed stream (stream.push s head final) final rest)
            t
            out
          ≡ returns (out ++ data_)
    data_by rest true e more_data ih r =
        let same = ap length (all_before 32768 data_ e) in
        data_pushed stream laws size s t head true rest c (omega (arith, same, p))
          (length-take-le 32768 data_) (λ e. cc e) g out (omega (arith, same, h))
        ∙ ap (λ x. returns (out ++ x)) (all_before 32768 data_ e)
    data_by rest false e more_data ih r =
        let more = not_empty 32768 data_ e in
        let full : length head ≡ 32768 = length-take 32768 data_ (omega (arith, more)) in
        let left = length_left 32768 data_ e in
        let s' = (stream.push s head false).1 in
        let t' = laws.next t head false in
        data_pushed stream laws size s t head false rest c (omega (arith, full))
          (omega (arith, full)) (λ _. full) g out (omega (arith, full, more, h))
        ∙ elim_false (empty (rest s')) (throws no_final)
            (decrypt_data stream g size (rest s') t' (out ++ head))
            (not_empty_list (rest s') (more_data s' left))
        ∙ ih s' t' (out ++ head) (laws.opens s t head false c).1 left
            (omega (
              arith,
              r,
              text-length stream laws size s t head false rest c (omega (arith, full))
                  (omega (arith, full)) (λ _. full),
            ))
            (omega (arith, length-append out head, full, drop_left 32768 data_, more, h))
        ∙ ap returns
            (append_assoc out head tail ∙ ap (λ x. out ++ x) (take-append-drop 32768 data_))

  pub data_some :
      (f : ℕ) (data_ : Bytes) (s : S)
      → 0 < length data_
      → length data_ ≤ f
      → 0 < length (data_chunks stream f data_ s)
  data_some f data_ s p l = omega (arith, length-data_chunks stream laws.grows f data_ s p l, p)

  -- The rest of the data is found, when the fuel is as much as what is left.
  pub data-returns :
      (f g : ℕ) (data_ : Bytes) (s t : S) (out : Bytes)
      → laws.Corresponds s t
      → 0 < length data_
      → length data_ ≤ f
      → length (data_chunks stream f data_ s) ≤ g
      → length out + length data_ ≤ size
      → decrypt_data stream g size (data_chunks stream f data_ s) t out ≡ returns (out ++ data_)
  unfolding data_chunks
  data-returns zero g data_ s t out c p l r h = absurd (omega arith)
  data-returns (suc f) zero data_ s t out c p l r h =
      absurd (omega (arith, r, data_some (suc f) data_ s p l))
  data-returns (suc f) (suc g) data_ s t out c p l r h =
      let tail = drop 32768 data_ in
      let smaller : length tail ≤ f = omega (arith, drop_left 32768 data_, p, l) in
      data_by g data_ s t out c p h (λ s'. data_chunks stream f tail s') (empty tail) refl
        (λ s' q. data_some f tail s' q smaller)
        (λ s' t' out' c' q r' h'. data-returns f g tail s' t' out' c' q smaller r' h') r
