-- ===== src/Attachment/Encrypt/Opened.antt =====
-- How a decryptor opens the chunks that were encrypted: those behind the padding, and the last ones.
use libbchat_util.Base.{
  ℕ, zero, suc, ◌+◌, ◌<◌, ◌≤◌, ◌≡◌, refl, sym, ap, ◌∙◌, subst, [], ◌∷◌, ◌++◌, Bool, true, false,
  ◌||◌, ltb, ltb→lt, empty, length, take, drop, replicate, arith, inl, inr, Bool-cases,
  take-append-drop,
}
use mathlib.Core.List.{append_assoc, append-nil}
use libbchat_util.Base.Order.{Bytes}
use libbchat_util.Attachment.{
  encrypt_header, encrypt_chunk_size, encrypt_chunk_overhead, encrypted_chunk_total, SecretStream,
}
use libbchat_util.Attachment.Decryptor.{
  Decryptor, skip_zeros, process_header, process_chunk, check_final, finalize,
}
use libbchat_util.Attachment.Decryptor.Stepwise.{
  if_true, if_false, take_bytes, take_bytes-append, take_bytes_short, with_buf,
  process_chunk-with_buf,
}
use libbchat_util.Attachment.Decryptor.Stepwise.Blocks.{length-take, length-drop, take_bytes_block}
use libbchat_util.Attachment.Encrypt.{pushed, data_chunks}
use libbchat_util.Attachment.Encrypt.Laws.{
  StreamLaws, skip-replicate, skip_all, not_empty, all_before, length_left, length-take-le,
}

module _ {S : Type 0} (stream : SecretStream S) (key : Bytes) (laws : StreamLaws stream) where
  -- A decryptor that has read the header, between two chunks.
  abbrev pub between : Bool → Bool → S → Bytes → Decryptor S
  between depadded hit_final t out = record {
    buf = [];
    header = true;
    depadded = depadded;
    failed = false;
    finished = false;
    hit_final = hit_final;
    st = t;
    output = out;
  }

  big_enough : (n : ℕ) → ltb (n + encrypt_chunk_overhead) encrypt_chunk_overhead ≡ false
  big_enough n = ground arith

  -- A chunk behind the padding.
  process-data :
      (s t : S) (m out : Bytes) (final : Bool)
      → laws.Corresponds s t
      → (process_chunk stream key (stream.push s m final).0 (between true false t out)
          ≡ between true (final || false) (laws.next t m final) (out ++ m))
  unfolding process_chunk
  process-data s t m out final c =
      rw (laws.grows s m final, big_enough (length m), (laws.opens s t m final c).0) refl

  pub process-zeros :
      (s t : S) (n : ℕ)
      → laws.Corresponds s t
      → (process_chunk stream key (stream.push s (replicate n 0) false).0 (between false false t [])
          ≡ between false false (laws.next t (replicate n 0) false) [])
  unfolding process_chunk
  process-zeros s t n c =
      rw
        (
          laws.grows s (replicate n 0) false,
          big_enough (length (replicate {A = ℕ} n 0)),
          (laws.opens s t (replicate n 0) false c).0,
          skip_all n,
        )
        refl

  -- The end of the padding, with some data behind it.
  pub process-last :
      (s t : S) (n : ℕ) (x : Bytes) (final : Bool)
      → laws.Corresponds s t
      → (process_chunk stream key
            (stream.push s (replicate n 0 ++ 1 ∷ x) final).0
            (between false false t [])
          ≡ between true (final || false) (laws.next t (replicate n 0 ++ 1 ∷ x) final) x)
  unfolding process_chunk skip_zeros
  process-last s t n x final c =
      rw
        (
          laws.grows s (replicate n 0 ++ 1 ∷ x) final,
          big_enough (length (replicate n 0 ++ 1 ∷ x)),
          (laws.opens s t (replicate n 0 ++ 1 ∷ x) final c).0,
          skip-replicate n (1 ∷ x),
        )
        refl

  pub finalize-buffered :
      (block : Bytes) (d : Decryptor S)
      → 0 < length block
      → d.failed ≡ false
      → (finalize stream key (with_buf stream key block d)
          ≡ check_final stream key (
              with_buf stream key []
                (process_chunk stream key block (with_buf stream key block d))))
  unfolding finalize
  finalize-buffered [] d p e = absurd (omega arith)
  finalize-buffered (c ∷ block) d p e =
      if_false d.failed (with_buf stream key (c ∷ block) d)
        (check_final stream key (
          with_buf stream key []
            (process_chunk stream key (c ∷ block) (with_buf stream key (c ∷ block) d))))
        e

  -- The final chunk is processed when it is whole, or else at the end.
  ends :
      (block : Bytes) (depadded : Bool) (t t' : S) (out out' : Bytes)
      → 0 < length block
      → length block ≤ encrypted_chunk_total
      → (process_chunk stream key block (between depadded false t out) ≡ between true true t' out')
      → (finalize stream key (take_bytes stream key block (between depadded false t out))
          ≡ between true true t' out')
  unfolding finalize
  ends block depadded t t' out out' p l h =
      let d = between depadded false t out in
      elim (Bool-cases (ltb (length block) encrypted_chunk_total)) [
        | inl e ↦
            ap (finalize stream key) (
              take_bytes_short stream key block d refl
                (omega (arith, ltb→lt (length block) encrypted_chunk_total e)))
            ∙ finalize-buffered block d p refl
            ∙ ap (λ x. check_final stream key (with_buf stream key [] x))
                (process_chunk-with_buf stream key block block d ∙ ap (with_buf stream key block) h)
        | inr e ↦
            ap (finalize stream key)
              (take_bytes_block stream key block d refl refl p (whole (length block) l e) ∙ h)
      ]
    where
      whole :
          (n : ℕ)
          → n ≤ encrypted_chunk_total
          → ltb n encrypted_chunk_total ≡ false
          → n ≡ encrypted_chunk_total
      whole n l e = ground arith

  -- A whole chunk is processed before what comes behind it.
  take_bytes-chunk :
      (block rest : Bytes) (d : Decryptor S)
      → d.failed ≡ false
      → d.buf ≡ []
      → d.header ≡ true
      → length block ≡ encrypted_chunk_total
      → (take_bytes stream key (block ++ rest) d
          ≡ take_bytes stream key rest (process_chunk stream key block d))
  take_bytes-chunk block rest d e b h l =
      take_bytes-append stream key block rest d
      ∙ ap (take_bytes stream key rest) (
          take_bytes_block stream key block d e b (omega (arith, l))
            (l ∙ sym (if_true d.header encrypted_chunk_total (suc encrypt_header) h))
          ∙ if_true d.header (process_chunk stream key block d) (process_header stream key block d)
              h)

  -- The decryption of a text that comes to a decryptor ends well, with the output.
  abbrev pub Opens : Bytes → Decryptor S → Bytes → Type 0
  Opens text d out =
      (t : S) × (finalize stream key (take_bytes stream key text d) ≡ between true true t out)

  pub Opens-final :
      (block : Bytes) (depadded : Bool) (t t' : S) (out out' : Bytes)
      → 0 < length block
      → length block ≤ encrypted_chunk_total
      → (process_chunk stream key block (between depadded false t out) ≡ between true true t' out')
      → Opens (block ++ []) (between depadded false t out) out'
  Opens-final block depadded t t' out out' p l h = (
    t',
    ap (λ x. finalize stream key (take_bytes stream key x (between depadded false t out)))
          (append-nil block)
        ∙ ends block depadded t t' out out' p l h,
  )

  pub Opens-next :
      (block rest : Bytes) (depadded after : Bool) (t t' : S) (out out' whole : Bytes)
      → length block ≡ encrypted_chunk_total
      → (process_chunk stream key block (between depadded false t out)
          ≡ between after false t' out')
      → Opens rest (between after false t' out') whole
      → Opens (block ++ rest) (between depadded false t out) whole
  Opens-next block rest depadded after t t' out out' whole l h (u, e) = (
    u,
    ap (finalize stream key) (
          take_bytes-chunk block rest (between depadded false t out) refl refl refl l
          ∙ ap (take_bytes stream key rest) h)
        ∙ e,
  )

  module _ (data_ : Bytes) (s t : S) (out : Bytes) (c : laws.Corresponds s t)
      (p : 0 < length data_) where
    abbrev head : Bytes
    head = take encrypt_chunk_size data_

    abbrev tail : Bytes
    tail = drop encrypt_chunk_size data_

    data-Opens_by :
        (rest : S → Bytes) (final : Bool)
        → empty tail ≡ final
        → ((s' t' : S) (out' : Bytes)
            → laws.Corresponds s' t'
            → 0 < length tail
            → Opens (rest s') (between true false t' out') (out' ++ tail))
        → Opens
            (pushed stream (stream.push s head final) final rest)
            (between true false t out)
            (out ++ data_)
    data-Opens_by rest true e ih =
        subst (λ x. Opens ((stream.push s head true).0 ++ []) (between true false t out) (out ++ x))
          (all_before encrypt_chunk_size data_ e)
          (Opens-final (stream.push s head true).0 true t (laws.next t head true) out (out ++ head)
            (omega (arith, laws.grows s head true))
            (omega (arith, laws.grows s head true, length-take-le encrypt_chunk_size data_))
            (process-data s t head out true c))
    data-Opens_by rest false e ih =
        let p' = stream.push s head false in
        let t' = laws.next t head false in
        subst (Opens (p'.0 ++ rest p'.1) (between true false t out))
          (append_assoc out head tail
            ∙ ap (λ x. out ++ x) (take-append-drop encrypt_chunk_size data_))
          (Opens-next p'.0 (rest p'.1) true true t t' out (out ++ head) ((out ++ head) ++ tail)
            (omega (
              arith,
              laws.grows s head false,
              length-take encrypt_chunk_size data_
                  (omega (arith, not_empty encrypt_chunk_size data_ e)),
            ))
            (process-data s t head out false c)
            (ih p'.1 t' (out ++ head) (laws.opens s t head false c).1
              (length_left encrypt_chunk_size data_ e)))

  pub data-Opens :
      (f : ℕ) (data_ : Bytes) (s t : S) (out : Bytes)
      → laws.Corresponds s t
      → 0 < length data_
      → length data_ ≤ f
      → Opens (data_chunks stream f data_ s) (between true false t out) (out ++ data_)
  unfolding data_chunks
  data-Opens zero data_ s t out c p l = absurd (omega arith)
  data-Opens (suc f) data_ s t out c p l =
      data-Opens_by data_ s t out c p
        (λ st'. data_chunks stream f (drop encrypt_chunk_size data_) st')
        (empty (drop encrypt_chunk_size data_)) refl
        (λ s' t' out' c' p'.
          data-Opens f (drop encrypt_chunk_size data_) s' t' out' c' p'
            (omega (arith, length-drop encrypt_chunk_size data_)))
