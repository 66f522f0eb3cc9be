-- ===== src/Attachment/Decryptor/Stepwise/Blocks.antt =====
-- Whole blocks, when the buffer is empty.
use libbchat_util.Base.{
  ℕ, zero, suc, ◌-◌, ◌<◌, ◌≤◌, ◌≡◌, refl, sym, ap, ◌∙◌, Option, none, some, List, [], ◌∷◌, ◌++◌,
  Bool, true, false, ◌||◌, ◌==◌, ltb, leb, length, arith, inl, inr, Bool-cases, take, drop,
  take-append-drop,
}
use libbchat_util.Base.Order.{Bytes}
use libbchat_util.Attachment.{encrypt_chunk_overhead, SecretStream}
use libbchat_util.Attachment.Decryptor.{
  Decryptor, starts_with_s, skip_zeros, process_header, depad, give, pulled, process_chunk,
  target_buf_size, process, keep,
}
use libbchat_util.Attachment.Decryptor.Stepwise.{
  if_true, if_false, with_buf, process-with_buf, take_bytes, take_bytes-append, take_bytes_short,
  take_bytes_full,
}

pub length-take {ℓ} : {A : Type ℓ} (n : ℕ) (s : List A) → n ≤ length s → length (take n s) ≡ n
length-take zero s h = refl
length-take (suc n) [] h = absurd (omega arith)
length-take (suc n) (c ∷ s) h = omega (arith, length-take n s (omega arith))

pub length-drop : (n : ℕ) (s : Bytes) → length (drop n s) ≤ length s - n
length-drop zero s = omega arith
length-drop (suc n) [] = omega arith
length-drop (suc n) (c ∷ s) = omega (arith, length-drop n s)

pub above : (a b : ℕ) → leb a b ≡ false → b < a
above a b h = ground arith

module _ {S : Type 0} (stream : SecretStream S) (key : Bytes) where
  -- What a chunk does not change.
  abbrev pub fixed : Decryptor S → Bool × Bool
  fixed d = (d.header, d.finished)

  fixed-depad : (out : Bytes) (d : Decryptor S) → fixed (depad stream key out d) ≡ fixed d
  fixed-depad [] d = refl
  fixed-depad (c ∷ out) d = elim (Bool-cases (c == 1)) [
    | inl e ↦ ap fixed (
        if_true (c == 1) (record d { depadded = true; output = d.output ++ out })
          (record d { failed = true }) e)
    | inr e ↦ ap fixed (
        if_false (c == 1) (record d { depadded = true; output = d.output ++ out })
          (record d { failed = true }) e)
  ]

  fixed-give : (out : Bytes) (d : Decryptor S) → fixed (give stream key out d) ≡ fixed d
  fixed-give out d = elim (Bool-cases d.depadded) [
    | inl e ↦ ap fixed (
        if_true d.depadded (record d { output = d.output ++ out })
          (depad stream key (skip_zeros out) d) e)
    | inr e ↦
        ap fixed (
          if_false d.depadded (record d { output = d.output ++ out })
            (depad stream key (skip_zeros out) d) e)
        ∙ fixed-depad (skip_zeros out) d
  ]

  fixed-pulled :
      (o : Option (Bytes × Bool × S)) (d : Decryptor S) → fixed (pulled stream key o d) ≡ fixed d
  fixed-pulled none d = refl
  fixed-pulled (some p) d = fixed-give p.0 (record d { st = p.2; hit_final = p.1 || d.hit_final })

  pub fixed-process_chunk :
      (chunk : Bytes) (d : Decryptor S) → fixed (process_chunk stream key chunk d) ≡ fixed d
  unfolding process_chunk
  fixed-process_chunk chunk d =
      elim (Bool-cases (d.hit_final || ltb (length chunk) encrypt_chunk_overhead)) [
        | inl e ↦ ap fixed (
            if_true (d.hit_final || ltb (length chunk) encrypt_chunk_overhead)
              (record d { failed = true }) (pulled stream key (stream.pull d.st chunk) d) e)
        | inr e ↦
            ap fixed (
              if_false (d.hit_final || ltb (length chunk) encrypt_chunk_overhead)
                (record d { failed = true }) (pulled stream key (stream.pull d.st chunk) d) e)
            ∙ fixed-pulled (stream.pull d.st chunk) d
      ]

  pub header-process_chunk :
      (chunk : Bytes) (d : Decryptor S) → (process_chunk stream key chunk d).header ≡ d.header
  header-process_chunk chunk d = ap (λ p. p.0) (fixed-process_chunk chunk d)

  finished-process_header :
      (hdr : Bytes) (d : Decryptor S) → (process_header stream key hdr d).finished ≡ d.finished
  unfolding process_header
  finished-process_header hdr d = elim (Bool-cases (starts_with_s hdr)) [
    | inl e ↦
        ap (λ x. x.finished)
          (if_true (starts_with_s hdr)
            (record d { st = stream.init_pull (drop 1 hdr) key; header = true })
            (record d { failed = true }) e)
    | inr e ↦
        ap (λ x. x.finished)
          (if_false (starts_with_s hdr)
            (record d { st = stream.init_pull (drop 1 hdr) key; header = true })
            (record d { failed = true }) e)
  ]

  pub finished-process :
      (block : Bytes) (d : Decryptor S) → (process stream key block d).finished ≡ d.finished
  finished-process block d = elim (Bool-cases d.header) [
    | inl e ↦
        ap (λ x. x.finished)
          (if_true d.header (process_chunk stream key block d) (process_header stream key block d)
            e)
        ∙ ap (λ p. p.1) (fixed-process_chunk block d)
    | inr e ↦
        ap (λ x. x.finished)
          (if_false d.header (process_chunk stream key block d) (process_header stream key block d)
            e)
        ∙ finished-process_header block d
  ]

  same_buf : (d : Decryptor S) → d.buf ≡ [] → with_buf stream key [] d ≡ d
  same_buf d e = ap (λ b. record d { buf = b }) (sym e)

  -- A block that is not taken from the buffer leaves it empty.
  process-empty :
      (block : Bytes) (d : Decryptor S)
      → d.buf ≡ []
      → with_buf stream key [] (process stream key block d) ≡ process stream key block d
  process-empty block d e =
      sym (process-with_buf stream key block [] d) ∙ ap (process stream key block) (same_buf d e)

  pub buf-process :
      (block : Bytes) (d : Decryptor S) → d.buf ≡ [] → (process stream key block d).buf ≡ []
  buf-process block d e = ap (λ x. x.buf) (sym (process-empty block d e))

  -- A whole block, when the buffer is empty.
  pub take_bytes_block :
      (s : Bytes) (d : Decryptor S)
      → d.failed ≡ false
      → d.buf ≡ []
      → 0 < length s
      → length s ≡ target_buf_size stream key d
      → take_bytes stream key s d ≡ process stream key s d
  take_bytes_block [] d e b p h = absurd (omega arith)
  take_bytes_block (c ∷ s) d e b p h =
      take_bytes_full stream key c s d e (omega (arith, ap length b, h))
      ∙ ap (λ x. with_buf stream key [] (process stream key (x ++ c ∷ s) d)) b
      ∙ process-empty (c ∷ s) d b

  -- The front of the data is a block.
  pub take_bytes_front :
      (n : ℕ) (s : Bytes) (d : Decryptor S)
      → d.failed ≡ false
      → d.buf ≡ []
      → 0 < n
      → n ≡ target_buf_size stream key d
      → n ≤ length s
      → (take_bytes stream key s d
          ≡ take_bytes stream key (drop n s) (process stream key (take n s) d))
  take_bytes_front n s d e b p t h =
      ap (λ x. take_bytes stream key x d) (sym (take-append-drop n s))
      ∙ take_bytes-append stream key (take n s) (drop n s) d
      ∙ ap (take_bytes stream key (drop n s)) (
          take_bytes_block (take n s) d e b (omega (arith, length-take n s h))
            (length-take n s h ∙ t))

  pub take_bytes-keep :
      (s : Bytes) (d : Decryptor S)
      → d.failed ≡ false
      → d.buf ≡ []
      → length s < target_buf_size stream key d
      → keep stream key s d ≡ take_bytes stream key s d
  unfolding take_bytes
  take_bytes-keep [] d e b h = refl
  take_bytes-keep (c ∷ s) d e b h = sym (
      take_bytes_short stream key (c ∷ s) d e (omega (arith, ap length b))
      ∙ ap (λ x. record d { buf = x ++ c ∷ s }) b)
