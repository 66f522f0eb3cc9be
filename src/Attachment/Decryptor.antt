-- ===== src/Attachment/Decryptor.antt =====
-- `Decryptor` of attachments.cpp, which takes the encrypted data in pieces of any size. What it gives
-- to its callback is collected in `output`. The value that `update` returns is whether it has not
-- failed.
pub mod Stepwise
use libbchat_util.Base.{
  ℕ, zero, suc, ◌+◌, ◌-◌, min, Option, none, some, List, [], ◌∷◌, ◌++◌, Bool, true, false, not,
  ◌&&◌, ◌||◌, ◌==◌, leb, ltb, if◌then◌else◌, empty, length, take, drop,
}
use libbchat_util.Base.Order.{Bytes}
use libbchat_util.Attachment.{
  encrypt_header, encrypt_chunk_overhead, encrypted_chunk_total, SecretStream,
}

pub record Decryptor (S : Type 0) : Type 0 where
  pub buf : Bytes
  pub header : Bool
  pub depadded : Bool
  pub failed : Bool
  pub finished : Bool
  pub hit_final : Bool
  pub st : S
  pub output : Bytes

abbrev pub starts_with_s : Bytes → Bool
starts_with_s [] = false
starts_with_s (c ∷ s) = c == b'S'

-- The padding ends with the first byte that is not zero.
unfoldable pub skip_zeros : Bytes → Bytes
skip_zeros [] = []
skip_zeros (c ∷ s) = if c == 0 then skip_zeros s else c ∷ s

module _ {S : Type 0} (stream : SecretStream S) (key : Bytes) where
  unfoldable pub process_header : Bytes → Decryptor S → Decryptor S
  process_header hdr d =
      if starts_with_s hdr
      then record d { st = stream.init_pull (drop 1 hdr) key; header = true }
      else record d { failed = true }

  abbrev pub depad : Bytes → Decryptor S → Decryptor S
  depad [] d = d
  depad (c ∷ out) d =
      if c == 1
      then record d { depadded = true; output = d.output ++ out }
      else record d { failed = true }

  abbrev pub give : Bytes → Decryptor S → Decryptor S
  give out d =
      if d.depadded then record d { output = d.output ++ out } else depad (skip_zeros out) d

  abbrev pub pulled : Option (Bytes × Bool × S) → Decryptor S → Decryptor S
  pulled none d = record d { failed = true }
  pulled (some p) d = give p.0 (record d { st = p.2; hit_final = p.1 || d.hit_final })

  unfoldable pub process_chunk : Bytes → Decryptor S → Decryptor S
  process_chunk chunk d =
      if d.hit_final || ltb (length chunk) encrypt_chunk_overhead
      then record d { failed = true }
      else pulled (stream.pull d.st chunk) d

  -- What `buf` is filled up to, and what becomes of it then.
  abbrev pub target_buf_size : Decryptor S → ℕ
  target_buf_size d = if d.header then encrypted_chunk_total else suc encrypt_header

  abbrev pub process : Bytes → Decryptor S → Decryptor S
  process block d = if d.header then process_chunk block d else process_header block d

  abbrev pub keep : Bytes → Decryptor S → Decryptor S
  keep enc_data d = if empty enc_data then d else record d { buf = enc_data }

  -- The loop over whole chunks, on fuel.
  unfoldable pub process_chunks : ℕ → Bytes → Decryptor S → Decryptor S
  unfolding process_chunk
  process_chunks zero enc_data d = keep enc_data d
  process_chunks (suc f) enc_data d = elim (leb encrypted_chunk_total (length enc_data)) [
    | true ↦
        let d' = process_chunk (take encrypted_chunk_total enc_data) d in
        elim d'.failed [
          | true ↦ d'
          | false ↦ process_chunks f (drop encrypted_chunk_total enc_data) d'
        ]
    | false ↦ keep enc_data d
  ]

  abbrev pub chunks_unless_failed : Bytes → Decryptor S → Decryptor S
  chunks_unless_failed enc_data d =
      if d.failed then d else process_chunks (length enc_data) enc_data d

  unfoldable pub update_unbuffered : Bytes → Decryptor S → Decryptor S
  unfolding process_chunks process_header
  update_unbuffered enc_data d =
      if d.header
      then process_chunks (length enc_data) enc_data d
      else (if leb (suc encrypt_header) (length enc_data)
          then chunks_unless_failed (drop (suc encrypt_header) enc_data)
              (process_header (take (suc encrypt_header) enc_data) d)
          else record d { buf = enc_data })

  abbrev pub unbuffered_unless_failed : Bytes → Decryptor S → Decryptor S
  unbuffered_unless_failed enc_data d = if d.failed then d else update_unbuffered enc_data d

  abbrev pub filled : Bytes → Bytes → Decryptor S → Decryptor S
  filled block enc_data d =
      if length block == target_buf_size d
      then unbuffered_unless_failed enc_data (record (process block d) { buf = [] })
      else record d { buf = block }

  abbrev pub steal : Bytes → Decryptor S → ℕ
  steal enc_data d = min (target_buf_size d - length d.buf) (length enc_data)

  unfoldable pub update_open : Bytes → Decryptor S → Decryptor S
  unfolding update_unbuffered
  update_open enc_data d =
      if empty d.buf
      then update_unbuffered enc_data d
      else filled (d.buf ++ take (steal enc_data d) enc_data) (drop (steal enc_data d) enc_data) d

  -- No result where it throws.
  unfoldable pub update : Bytes → Decryptor S → Option (Decryptor S)
  unfolding update_open
  update enc_data d =
      if d.failed then some d else (if d.finished then none else some (update_open enc_data d))

  abbrev pub flush : Decryptor S → Decryptor S
  flush d = if empty d.buf then d else record (process_chunk d.buf d) { buf = [] }

  abbrev pub check_final : Decryptor S → Decryptor S
  check_final d = if d.failed || d.hit_final then d else record d { failed = true }

  -- The value that it returns is, again, whether it has not failed.
  unfoldable pub finalize : Decryptor S → Decryptor S
  unfolding process_chunk
  finalize d = if d.failed then d else check_final (flush d)
