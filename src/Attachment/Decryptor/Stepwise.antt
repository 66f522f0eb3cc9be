-- ===== src/Attachment/Decryptor/Stepwise.antt =====
-- The decryptor, described one byte at a time, and that `update` does the same.
pub mod Blocks
pub mod Chunks
pub mod Updates
pub mod Pieces
use libbchat_util.Base.{
  ℕ, zero, suc, ◌+◌, ◌<◌, ◌≤◌, ◌≡◌, refl, sym, ap, ◌∙◌, subst, Option, none, some, List, [], ◌∷◌,
  ◌++◌, Bool, true, false, not, ◌||◌, ◌==◌, ltb, leb, if◌then◌else◌, empty, length, arith, inl, inr,
  Bool-cases, length-append, drop, ==_iff,
}
use mathlib.Core.List.{append_assoc, append-nil}
use libbchat_util.Base.Order.{Bytes}
use libbchat_util.Attachment.{encrypt_chunk_overhead, SecretStream}
use libbchat_util.Attachment.Decryptor.{
  Decryptor, starts_with_s, skip_zeros, process_header, depad, give, pulled, process_chunk,
  target_buf_size, process,
}

pub if_true {ℓ} : {A : Type ℓ} (b : Bool) (x y : A) → b ≡ true → (if b then x else y) ≡ x
if_true b x y e = rw e refl

pub if_false {ℓ} : {A : Type ℓ} (b : Bool) (x y : A) → b ≡ false → (if b then x else y) ≡ y
if_false b x y e = rw e refl

below_differs : (a b : ℕ) → a < b → (a == b) ≡ false
below_differs a b h = ground arith

module _ {S : Type 0} (stream : SecretStream S) (key : Bytes) where
  -- Nothing that is processed depends on the buffer, nor changes it.
  abbrev pub with_buf : Bytes → Decryptor S → Decryptor S
  with_buf x d = record d { buf = x }

  if-with_buf :
      (b : Bool) (p q : Decryptor S) (x : Bytes)
      → (if b then with_buf x p else with_buf x q) ≡ with_buf x (if b then p else q)
  if-with_buf true p q x = refl
  if-with_buf false p q x = refl

  depad-with_buf :
      (out x : Bytes) (d : Decryptor S)
      → depad stream key out (with_buf x d) ≡ with_buf x (depad stream key out d)
  depad-with_buf [] x d = refl
  depad-with_buf (c ∷ out) x d =
      if-with_buf (c == 1) (record d { depadded = true; output = d.output ++ out })
        (record d { failed = true }) x

  give-with_buf :
      (out x : Bytes) (d : Decryptor S)
      → give stream key out (with_buf x d) ≡ with_buf x (give stream key out d)
  give-with_buf out x d =
      ap (λ y. if d.depadded then record d { buf = x; output = d.output ++ out } else y)
        (depad-with_buf (skip_zeros out) x d)
      ∙ if-with_buf d.depadded (record d { output = d.output ++ out })
          (depad stream key (skip_zeros out) d) x

  pulled-with_buf :
      (o : Option (Bytes × Bool × S)) (x : Bytes) (d : Decryptor S)
      → pulled stream key o (with_buf x d) ≡ with_buf x (pulled stream key o d)
  pulled-with_buf none x d = refl
  pulled-with_buf (some p) x d =
      give-with_buf p.0 x (record d { st = p.2; hit_final = p.1 || d.hit_final })

  pub process_chunk-with_buf :
      (chunk x : Bytes) (d : Decryptor S)
      → process_chunk stream key chunk (with_buf x d)
        ≡ with_buf x (process_chunk stream key chunk d)
  unfolding process_chunk
  process_chunk-with_buf chunk x d =
      ap
        (λ y.
          if d.hit_final || ltb (length chunk) encrypt_chunk_overhead
          then record d { buf = x; failed = true }
          else y)
        (pulled-with_buf (stream.pull d.st chunk) x d)
      ∙ if-with_buf (d.hit_final || ltb (length chunk) encrypt_chunk_overhead)
          (record d { failed = true }) (pulled stream key (stream.pull d.st chunk) d) x

  process_header-with_buf :
      (hdr x : Bytes) (d : Decryptor S)
      → process_header stream key hdr (with_buf x d) ≡ with_buf x (process_header stream key hdr d)
  unfolding process_header
  process_header-with_buf hdr x d =
      if-with_buf (starts_with_s hdr)
        (record d { st = stream.init_pull (drop 1 hdr) key; header = true })
        (record d { failed = true }) x

  pub process-with_buf :
      (block x : Bytes) (d : Decryptor S)
      → process stream key block (with_buf x d) ≡ with_buf x (process stream key block d)
  process-with_buf block x d = elim (Bool-cases d.header) [
    | inl e ↦
        if_true d.header (process_chunk stream key block (with_buf x d))
          (process_header stream key block (with_buf x d)) e
        ∙ process_chunk-with_buf block x d
        ∙ ap (with_buf x) (
            sym (
              if_true d.header (process_chunk stream key block d)
                (process_header stream key block d) e))
    | inr e ↦
        if_false d.header (process_chunk stream key block (with_buf x d))
          (process_header stream key block (with_buf x d)) e
        ∙ process_header-with_buf block x d
        ∙ ap (with_buf x) (
            sym (
              if_false d.header (process_chunk stream key block d)
                (process_header stream key block d) e))
  ]

  -- A byte is put in the buffer, and when that is full, it is processed and emptied.
  abbrev pub filled_by_one : Bytes → Decryptor S → Decryptor S
  filled_by_one block d =
      if length block == target_buf_size stream key d
      then record (process stream key block d) { buf = [] }
      else record d { buf = block }

  abbrev pub take_byte : ℕ → Decryptor S → Decryptor S
  take_byte c d = if d.failed then d else filled_by_one (d.buf ++ c ∷ []) d

  unfoldable pub take_bytes : Bytes → Decryptor S → Decryptor S
  take_bytes [] d = d
  take_bytes (c ∷ s) d = take_bytes s (take_byte c d)

  pub take_bytes-append :
      (a b : Bytes) (d : Decryptor S) → take_bytes (a ++ b) d ≡ take_bytes b (take_bytes a d)
  unfolding take_bytes
  take_bytes-append [] b d = refl
  take_bytes-append (c ∷ a) b d = take_bytes-append a b (take_byte c d)

  failed_stays : (c : ℕ) (d : Decryptor S) → d.failed ≡ true → take_byte c d ≡ d
  failed_stays c d e = if_true d.failed d (filled_by_one (d.buf ++ c ∷ []) d) e

  pub take_bytes-failed : (s : Bytes) (d : Decryptor S) → d.failed ≡ true → take_bytes s d ≡ d
  unfolding take_bytes
  take_bytes-failed [] d e = refl
  take_bytes-failed (c ∷ s) d e = ap (take_bytes s) (failed_stays c d e) ∙ take_bytes-failed s d e

  -- One byte that does not fill the buffer, and one that does.
  take_byte-kept :
      (c : ℕ) (d : Decryptor S)
      → d.failed ≡ false
      → suc (length d.buf) < target_buf_size stream key d
      → take_byte c d ≡ record d { buf = d.buf ++ c ∷ [] }
  take_byte-kept c d e h =
      if_false d.failed d (filled_by_one (d.buf ++ c ∷ []) d) e
      ∙ if_false (length (d.buf ++ c ∷ []) == target_buf_size stream key d)
          (record (process stream key (d.buf ++ c ∷ []) d) { buf = [] })
          (record d { buf = d.buf ++ c ∷ [] })
          (below_differs (length (d.buf ++ c ∷ [])) (target_buf_size stream key d)
            (omega (arith, length-append d.buf (c ∷ []))))

  take_byte-full :
      (c : ℕ) (d : Decryptor S)
      → d.failed ≡ false
      → suc (length d.buf) ≡ target_buf_size stream key d
      → take_byte c d ≡ record (process stream key (d.buf ++ c ∷ []) d) { buf = [] }
  take_byte-full c d e h =
      if_false d.failed d (filled_by_one (d.buf ++ c ∷ []) d) e
      ∙ if_true (length (d.buf ++ c ∷ []) == target_buf_size stream key d)
          (record (process stream key (d.buf ++ c ∷ []) d) { buf = [] })
          (record d { buf = d.buf ++ c ∷ [] })
          ((==_iff (length (d.buf ++ c ∷ [])) (target_buf_size stream key d)).1
            (omega (arith, length-append d.buf (c ∷ []), h)))

  snoc_first : (a : Bytes) (c : ℕ) (s : Bytes) → (a ++ c ∷ []) ++ s ≡ a ++ c ∷ s
  snoc_first a c s = append_assoc a (c ∷ []) s

  -- Bytes that do not fill the buffer stay there.
  pub take_bytes_short :
      (s : Bytes) (d : Decryptor S)
      → d.failed ≡ false
      → length d.buf + length s < target_buf_size stream key d
      → take_bytes s d ≡ record d { buf = d.buf ++ s }
  unfolding take_bytes
  take_bytes_short [] d e h = ap (λ b. record d { buf = b }) (sym (append-nil d.buf))
  take_bytes_short (c ∷ s) d e h =
      ap (take_bytes s) (take_byte-kept c d e (omega arith))
      ∙ take_bytes_short s (record d { buf = d.buf ++ c ∷ [] }) e
          (omega (arith, length-append d.buf (c ∷ [])))
      ∙ ap (λ b. record d { buf = b }) (snoc_first d.buf c s)

  -- Bytes that just fill the buffer are processed with it.
  pub take_bytes_full :
      (c : ℕ) (s : Bytes) (d : Decryptor S)
      → d.failed ≡ false
      → length d.buf + length (c ∷ s) ≡ target_buf_size stream key d
      → (take_bytes (c ∷ s) d ≡ record (process stream key (d.buf ++ c ∷ s) d) { buf = [] })
  unfolding take_bytes
  take_bytes_full c [] d e h = take_byte-full c d e (omega (arith, h))
  take_bytes_full c (b ∷ s) d e h =
      ap (take_bytes (b ∷ s)) (take_byte-kept c d e (omega (arith, h)))
      ∙ take_bytes_full b s (record d { buf = d.buf ++ c ∷ [] }) e
          (omega (arith, h, length-append d.buf (c ∷ [])))
      ∙ ap (with_buf []) (process-with_buf ((d.buf ++ c ∷ []) ++ b ∷ s) (d.buf ++ c ∷ []) d)
      ∙ ap (λ x. record (process stream key x d) { buf = [] }) (snoc_first d.buf c (b ∷ s))
