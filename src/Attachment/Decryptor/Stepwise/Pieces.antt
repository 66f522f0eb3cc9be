-- ===== src/Attachment/Decryptor/Stepwise/Pieces.antt =====
-- The sizes of the pieces make no difference.
use libbchat_util.Base.{
  ℕ, ◌+◌, ◌<◌, ◌≡◌, refl, sym, ap, ◌∙◌, subst, Option, none, some, List, [], ◌∷◌, ◌++◌, false, ◌==◌,
  length, arith, inl, inr, Bool-cases, length-append,
}
use libbchat_util.Base.Order.{Bytes}
use libbchat_util.Attachment.{SecretStream}
use libbchat_util.Attachment.Decryptor.{Decryptor, target_buf_size, process, update}
use libbchat_util.Attachment.Decryptor.Stepwise.{
  take_byte, filled_by_one, if_true, if_false, take_bytes, take_bytes-append,
}
use libbchat_util.Attachment.Decryptor.Stepwise.Blocks.{finished-process}
use libbchat_util.Attachment.Decryptor.Stepwise.Updates.{IsOpen, update-take_bytes}

abbrev pub join : List Bytes → Bytes
join [] = []
join (p ∷ ps) = p ++ join ps

module _ {S : Type 0} (stream : SecretStream S) (key : Bytes) where
  -- One call of `update` for each piece.
  abbrev pub updates : List Bytes → Option (Decryptor S) → Option (Decryptor S)
  updates ps none = none
  updates [] (some d) = some d
  updates (p ∷ ps) (some d) = updates ps (update stream key p d)

  target_pos : (d : Decryptor S) → 0 < target_buf_size stream key d
  target_pos d = ground arith

  room :
      (c : ℕ) (d : Decryptor S)
      → length d.buf < target_buf_size stream key d
      → (length (d.buf ++ c ∷ []) == target_buf_size stream key d) ≡ false
      → length (d.buf ++ c ∷ []) < target_buf_size stream key d
  room c d h e =
      below (length d.buf) (length (d.buf ++ c ∷ [])) (target_buf_size stream key d)
        (length-append d.buf (c ∷ [])) h e
    where
      below : (b l t : ℕ) → l ≡ b + 1 → b < t → (l == t) ≡ false → l < t
      below b l t k h e = ground arith

  IsOpen-take_byte :
      (c : ℕ) (d : Decryptor S) → IsOpen stream key d → IsOpen stream key (take_byte stream key c d)
  IsOpen-take_byte c d v =
      let block = d.buf ++ c ∷ [] in
      let done = record (process stream key block d) { buf = [] } in
      let wait = record d { buf = block } in
      let step = filled_by_one stream key block d in
      elim (Bool-cases d.failed) [
        | inl e ↦ subst (IsOpen stream key) (sym (if_true d.failed d step e)) v
        | inr e ↦
            subst (IsOpen stream key) (sym (if_false d.failed d step e))
              (elim (Bool-cases (length block == target_buf_size stream key d)) [
                | inl x ↦
                    subst (IsOpen stream key)
                      (sym (if_true (length block == target_buf_size stream key d) done wait x))
                      (finished-process stream key block d ∙ v.0, λ _. target_pos done)
                | inr x ↦
                    subst (IsOpen stream key)
                      (sym (if_false (length block == target_buf_size stream key d) done wait x))
                      (v.0, λ _. room c d (v.1 e) x)
              ])
      ]

  pub IsOpen-take_bytes :
      (s : Bytes) (d : Decryptor S)
      → IsOpen stream key d
      → IsOpen stream key (take_bytes stream key s d)
  unfolding take_bytes
  IsOpen-take_bytes [] d v = v
  IsOpen-take_bytes (c ∷ s) d v =
      IsOpen-take_bytes s (take_byte stream key c d) (IsOpen-take_byte c d v)

  pub updates-take_bytes :
      (ps : List Bytes) (d : Decryptor S)
      → IsOpen stream key d
      → updates ps (some d) ≡ some (take_bytes stream key (join ps) d)
  unfolding take_bytes
  updates-take_bytes [] d v = refl
  updates-take_bytes (p ∷ ps) d v =
      ap (updates ps) (update-take_bytes stream key p d v)
      ∙ updates-take_bytes ps (take_bytes stream key p d) (IsOpen-take_bytes p d v)
      ∙ ap some (sym (take_bytes-append stream key p (join ps) d))

  -- On a decryptor in use, updating it with the pieces of some data, one after another, gives the
  -- decryptor that updating it with the whole data gives, whether they succeed or fail, and no call
  -- throws.
  pub updates-join :
      (ps : List Bytes) (d : Decryptor S)
      → IsOpen stream key d
      → (e : Decryptor S) × (updates ps (some d) ≡ some e)
        × (update stream key (join ps) d ≡ some e)
        × IsOpen stream key e
  updates-join ps d v = (
    take_bytes stream key (join ps) d,
    updates-take_bytes ps d v,
    update-take_bytes stream key (join ps) d v,
    IsOpen-take_bytes (join ps) d v,
  )
