-- ===== src/Attachment/Decryptor/Stepwise/Updates.antt =====
-- `update` is taking the bytes one at a time, so that the sizes of the pieces make no difference.
use libbchat_util.Base.{
  ℕ, suc, ◌+◌, ◌-◌, ◌<◌, ◌≤◌, ◌≡◌, refl, sym, ap, ◌∙◌, subst, min, Option, none, some, [], ◌∷◌,
  ◌++◌, true, false, ◌==◌, leb, leb→le, if◌then◌else◌, empty, length, arith, inl, inr, Bool-cases,
  length-append, take, drop, take-append-drop,
}
use libbchat_util.Base.Order.{Bytes}
use libbchat_util.Attachment.{encrypt_header, SecretStream}
use libbchat_util.Attachment.Decryptor.{
  Decryptor, starts_with_s, process_header, target_buf_size, process, process_chunks,
  chunks_unless_failed, update_unbuffered, unbuffered_unless_failed, filled, steal, update_open,
  update,
}
use libbchat_util.Attachment.Decryptor.Stepwise.{
  if_true, if_false, take_bytes, take_bytes-append, take_bytes-failed, take_bytes_short,
  take_bytes_full,
}
use libbchat_util.Attachment.Decryptor.Stepwise.Blocks.{
  length-take, above, buf-process, take_bytes_front,
}
use libbchat_util.Attachment.Decryptor.Stepwise.Chunks.{
  before_header, as_header, process_chunks-take_bytes,
}

take_all : (s : Bytes) → take (length s) s ≡ s
take_all [] = refl
take_all (c ∷ s) = rw (take_all s) refl

nil_of_empty : (s : Bytes) → empty s ≡ true → s ≡ []
nil_of_empty [] e = refl
nil_of_empty (c ∷ s) e = cc e

all_taken :
    (t b m : ℕ) → b < t → (b + min (t - b) m == t) ≡ false → (min (t - b) m ≡ m) × (b + m < t)
all_taken t b m h f = ground arith

min_taken :
    (t b m : ℕ)
    → b < t
    → (b + min (t - b) m == t) ≡ true
    → (0 < min (t - b) m) × (b + min (t - b) m ≡ t)
min_taken t b m h f = ground arith

min_fits : (a m : ℕ) → min a m ≤ m
min_fits a m = ground arith

module _ {S : Type 0} (stream : SecretStream S) (key : Bytes) where
  header_read :
      (hdr : Bytes) (d : Decryptor S)
      → (process_header stream key hdr d).failed ≡ false
      → (process_header stream key hdr d).header ≡ true
  unfolding process_header
  header_read hdr d e = elim (Bool-cases (starts_with_s hdr)) [
    | inl x ↦
        ap (λ y. y.header)
          (if_true (starts_with_s hdr)
            (record d { st = stream.init_pull (drop 1 hdr) key; header = true })
            (record d { failed = true }) x)
    | inr x ↦ cc (
      ap (λ y. y.failed)
          (if_false (starts_with_s hdr)
            (record d { st = stream.init_pull (drop 1 hdr) key; header = true })
            (record d { failed = true }) x),
      e,
    )
  ]

  chunks_unless_failed-take_bytes :
      (s : Bytes) (d : Decryptor S)
      → (d.failed ≡ false → d.header ≡ true)
      → d.buf ≡ []
      → chunks_unless_failed stream key s d ≡ take_bytes stream key s d
  chunks_unless_failed-take_bytes s d h b = elim (Bool-cases d.failed) [
    | inl e ↦
        if_true d.failed d (process_chunks stream key (length s) s d) e
        ∙ sym (take_bytes-failed stream key s d e)
    | inr e ↦
        if_false d.failed d (process_chunks stream key (length s) s d) e
        ∙ process_chunks-take_bytes stream key (length s) s d (omega arith) e (h e) b
  ]

  update_unbuffered-take_bytes :
      (s : Bytes) (d : Decryptor S)
      → d.failed ≡ false
      → d.buf ≡ []
      → update_unbuffered stream key s d ≡ take_bytes stream key s d
  unfolding update_unbuffered
  update_unbuffered-take_bytes s d e b =
      let n = suc encrypt_header in
      let hdr = process_header stream key (take n s) d in
      let long = chunks_unless_failed stream key (drop n s) hdr in
      let either : Decryptor S = if leb n (length s) then long else record d { buf = s } in
      let whole = process_chunks stream key (length s) s d in
      elim (Bool-cases d.header) [
        | inl h ↦
            if_true d.header whole either h
            ∙ process_chunks-take_bytes stream key (length s) s d (omega arith) e h b
        | inr h ↦ if_false d.header whole either h ∙ elim (Bool-cases (leb n (length s))) [
          | inl t ↦
              if_true (leb n (length s)) long (record d { buf = s }) t
              ∙ chunks_unless_failed-take_bytes (drop n s) hdr (header_read (take n s) d) (
                  subst (λ y. y.buf ≡ []) (as_header stream key (take n s) d h)
                    (buf-process stream key (take n s) d b))
              ∙ ap (take_bytes stream key (drop n s)) (sym (as_header stream key (take n s) d h))
              ∙ sym (
                  take_bytes_front stream key n s d e b (omega arith)
                    (sym (before_header stream key d h)) (leb→le n (length s) t))
          | inr t ↦
              if_false (leb n (length s)) long (record d { buf = s }) t
              ∙ sym (
                  take_bytes_short stream key s d e
                    (omega (arith, ap length b, before_header stream key d h, above n (length s) t))
                  ∙ ap (λ x. record d { buf = x ++ s }) b)
        ]
      ]

  unbuffered_unless_failed-take_bytes :
      (s : Bytes) (d : Decryptor S)
      → d.buf ≡ []
      → unbuffered_unless_failed stream key s d ≡ take_bytes stream key s d
  unbuffered_unless_failed-take_bytes s d b = elim (Bool-cases d.failed) [
    | inl e ↦
        if_true d.failed d (update_unbuffered stream key s d) e
        ∙ sym (take_bytes-failed stream key s d e)
    | inr e ↦
        if_false d.failed d (update_unbuffered stream key s d) e
        ∙ update_unbuffered-take_bytes s d e b
  ]

  -- The buffer is filled from the front of the data.
  take_bytes-split :
      (n : ℕ) (s : Bytes) (d : Decryptor S)
      → d.failed ≡ false
      → 0 < n
      → n ≤ length s
      → length d.buf + n ≡ target_buf_size stream key d
      → (take_bytes stream key s d
          ≡ take_bytes stream key
              (drop n s)
              (record (process stream key (d.buf ++ take n s) d) { buf = [] }))
  take_bytes-split n s d e p l h =
      ap (λ x. take_bytes stream key x d) (sym (take-append-drop n s))
      ∙ take_bytes-append stream key (take n s) (drop n s) d
      ∙ ap (take_bytes stream key (drop n s))
          (full (take n s) (omega (arith, length-take n s l)) (omega (arith, length-take n s l, h)))
    where
      full :
          (x : Bytes)
          → 0 < length x
          → length d.buf + length x ≡ target_buf_size stream key d
          → take_bytes stream key x d ≡ record (process stream key (d.buf ++ x) d) { buf = [] }
      full [] q k = absurd (omega arith)
      full (c ∷ x) q k = take_bytes_full stream key c x d e k

  filled-take_bytes :
      (s : Bytes) (d : Decryptor S)
      → d.failed ≡ false
      → length d.buf < target_buf_size stream key d
      → (filled stream key
            (d.buf ++ take (steal stream key s d) s)
            (drop (steal stream key s d) s)
            d
          ≡ take_bytes stream key s d)
  filled-take_bytes s d e h =
      let t = target_buf_size stream key d in
      let n = steal stream key s d in
      let block = d.buf ++ take n s in
      let fits = min_fits (t - length d.buf) (length s) in
      let size : length block ≡ length d.buf + n =
        length-append d.buf (take n s) ∙ ap (λ k. length d.buf + k) (length-take n s fits) in
      let done = record (process stream key block d) { buf = [] } in
      let go_on = unbuffered_unless_failed stream key (drop n s) done in
      let wait = record d { buf = block } in
      elim (Bool-cases (length block == t)) [
        | inl x ↦
            let taken =
              min_taken t (length d.buf) (length s) h (subst (λ k. (k == t) ≡ true) size x) in
            if_true (length block == t) go_on wait x
            ∙ unbuffered_unless_failed-take_bytes (drop n s) done refl
            ∙ sym (take_bytes-split n s d e taken.0 fits taken.1)
        | inr x ↦
            let taken =
              all_taken t (length d.buf) (length s) h (subst (λ k. (k == t) ≡ false) size x) in
            if_false (length block == t) go_on wait x
            ∙ ap (λ y. record d { buf = d.buf ++ y }) (ap (λ k. take k s) taken.0 ∙ take_all s)
            ∙ sym (take_bytes_short stream key s d e taken.1)
      ]

  update_open-take_bytes :
      (s : Bytes) (d : Decryptor S)
      → d.failed ≡ false
      → length d.buf < target_buf_size stream key d
      → update_open stream key s d ≡ take_bytes stream key s d
  unfolding update_open
  update_open-take_bytes s d e h =
      let n = steal stream key s d in
      let first = update_unbuffered stream key s d in
      let later = filled stream key (d.buf ++ take n s) (drop n s) d in
      elim (Bool-cases (empty d.buf)) [
        | inl x ↦
            if_true (empty d.buf) first later x
            ∙ update_unbuffered-take_bytes s d e (nil_of_empty d.buf x)
        | inr x ↦ if_false (empty d.buf) first later x ∙ filled-take_bytes s d e h
      ]

  -- In a decryptor that is in use there is room in the buffer, unless it has failed.
  abbrev pub IsOpen : Decryptor S → Type 0
  IsOpen d = (d.finished ≡ false) × (d.failed ≡ false → length d.buf < target_buf_size stream key d)

  -- What `update` does with a piece of data is what taking its bytes one at a time does.
  pub update-take_bytes :
      (s : Bytes) (d : Decryptor S)
      → IsOpen d
      → update stream key s d ≡ some (take_bytes stream key s d)
  unfolding update
  update-take_bytes s d v =
      let inner : Option (Decryptor S) =
        if d.finished then none else some (update_open stream key s d) in
      elim (Bool-cases d.failed) [
        | inl e ↦
            if_true d.failed (some d) inner e ∙ ap some (sym (take_bytes-failed stream key s d e))
        | inr e ↦
            if_false d.failed (some d) inner e
            ∙ if_false d.finished none (some (update_open stream key s d)) v.0
            ∙ ap some (update_open-take_bytes s d e (v.1 e))
      ]
