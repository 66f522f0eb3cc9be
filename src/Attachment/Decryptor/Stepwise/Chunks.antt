-- ===== src/Attachment/Decryptor/Stepwise/Chunks.antt =====
-- `update` does what taking the bytes one at a time does.
use libbchat_util.Base.{
  ℕ, zero, suc, ◌≤◌, ◌≡◌, refl, sym, ap, ◌∙◌, subst, [], Bool, true, false, leb, leb→le, length,
  arith, inl, inr, Bool-cases, take, drop,
}
use libbchat_util.Base.Order.{Bytes}
use libbchat_util.Attachment.{encrypt_header, encrypted_chunk_total, SecretStream}
use libbchat_util.Attachment.Decryptor.{
  Decryptor, process_header, process_chunk, target_buf_size, process, keep, process_chunks,
}
use libbchat_util.Attachment.Decryptor.Stepwise.{if_true, if_false, take_bytes, take_bytes-failed}
use libbchat_util.Attachment.Decryptor.Stepwise.Blocks.{
  length-drop, above, header-process_chunk, buf-process, take_bytes_front, take_bytes-keep,
}

-- A choice by `elim`.
abbrev pub elim_of {ℓ} : {A : Type ℓ} → Bool → A → A → A
elim_of b x y = elim b [ true ↦ x | false ↦ y ]

pub elim_true {ℓ} : {A : Type ℓ} (b : Bool) (x y : A) → b ≡ true → elim_of b x y ≡ x
elim_true b x y e = rw e refl

pub elim_false {ℓ} : {A : Type ℓ} (b : Bool) (x y : A) → b ≡ false → elim_of b x y ≡ y
elim_false b x y e = rw e refl

module _ {S : Type 0} (stream : SecretStream S) (key : Bytes) where
  pub at_header :
      (d : Decryptor S) → d.header ≡ true → target_buf_size stream key d ≡ encrypted_chunk_total
  at_header d e = if_true d.header encrypted_chunk_total (suc encrypt_header) e

  pub before_header :
      (d : Decryptor S) → d.header ≡ false → target_buf_size stream key d ≡ suc encrypt_header
  before_header d e = if_false d.header encrypted_chunk_total (suc encrypt_header) e

  pub as_chunk :
      (block : Bytes) (d : Decryptor S)
      → d.header ≡ true
      → process stream key block d ≡ process_chunk stream key block d
  as_chunk block d e =
      if_true d.header (process_chunk stream key block d) (process_header stream key block d) e

  pub as_header :
      (block : Bytes) (d : Decryptor S)
      → d.header ≡ false
      → process stream key block d ≡ process_header stream key block d
  as_header block d e =
      if_false d.header (process_chunk stream key block d) (process_header stream key block d) e

  pub process_chunks-take_bytes :
      (f : ℕ) (s : Bytes) (d : Decryptor S)
      → length s ≤ f
      → d.failed ≡ false
      → d.header ≡ true
      → d.buf ≡ []
      → process_chunks stream key f s d ≡ take_bytes stream key s d
  unfolding process_chunks
  process_chunks-take_bytes zero s d l e h b =
      take_bytes-keep stream key s d e b (omega (arith, at_header d h))
  process_chunks-take_bytes (suc f) s d l e h b =
      let n = encrypted_chunk_total in
      let d' = process_chunk stream key (take n s) d in
      let next = process_chunks stream key f (drop n s) d' in
      let on = elim_of d'.failed d' next in
      elim (Bool-cases (leb n (length s))) [
        | inl t ↦
            let fits = leb→le n (length s) t in
            let front =
              take_bytes_front stream key n s d e b (omega arith) (sym (at_header d h)) fits
              ∙ ap (take_bytes stream key (drop n s)) (as_chunk (take n s) d h) in
            elim_true (leb n (length s)) on (keep stream key s d) t
            ∙ elim (Bool-cases d'.failed) [
              | inl x ↦
                  elim_true d'.failed d' next x ∙ sym (take_bytes-failed stream key (drop n s) d' x)
              | inr x ↦
                  elim_false d'.failed d' next x
                  ∙ process_chunks-take_bytes f (drop n s) d' (omega (arith, length-drop n s)) x
                      (header-process_chunk stream key (take n s) d ∙ h)
                      (subst (λ y. y.buf ≡ []) (as_chunk (take n s) d h)
                        (buf-process stream key (take n s) d b))
            ]
            ∙ sym front
        | inr t ↦
            elim_false (leb n (length s)) on (keep stream key s d) t
            ∙ take_bytes-keep stream key s d e b
                (omega (arith, at_header d h, above n (length s) t))
      ]
