-- ===== src/Attachment/Encrypt/Roundtrip.antt =====
-- What was encrypted is decrypted, in whatever pieces it comes.
use libbchat_util.Base.{
  ℕ, zero, suc, ◌+◌, ◌-◌, ◌<◌, ◌≤◌, ◌≡◌, refl, sym, ap, ◌∙◌, subst, some, List, [], ◌∷◌, ◌++◌, Bool,
  true, false, ◌==◌, ltb, ltb→lt, empty, length, take, drop, replicate, arith, inl, inr, Bool-cases,
  length-append, take-append-drop,
}
use libbchat_util.Base.Order.{Bytes}
use libbchat_util.Attachment.{encrypt_header, encrypt_chunk_size, SecretStream}
use libbchat_util.Attachment.Decryptor.{Decryptor, process_header, finalize}
use libbchat_util.Attachment.Decryptor.Stepwise.{take_bytes, take_bytes-append}
use libbchat_util.Attachment.Decryptor.Stepwise.Blocks.{length-take, take_bytes_block}
use libbchat_util.Attachment.Encrypt.{
  pushed, all_data_chunks, last_padding, push_last_padding, padding_chunks,
}
use libbchat_util.Attachment.Decryptor.Stepwise.Chunks.{elim_of, elim_true, elim_false}
use libbchat_util.Attachment.Decryptor.Stepwise.Pieces.{join, updates, updates-take_bytes}
use libbchat_util.Attachment.Encrypt.{encrypt_impl}
use libbchat_util.Attachment.Sizes.{encrypted_padding}
use libbchat_util.Attachment.Encrypt.Opened.{
  between, Opens, Opens-final, Opens-next, data-Opens, process-zeros, process-last,
}
use libbchat_util.Attachment.Encrypt.Laws.{
  length-replicate, StreamLaws, not_empty, all_before, length_left, length-take-le,
}

pos_differs : (n : ℕ) → 0 < n → (n == 0) ≡ false
pos_differs n h = ground arith

not_above : (a b : ℕ) → ltb a b ≡ false → b ≤ a
not_above a b h = ground arith

module _ {S : Type 0} (stream : SecretStream S) (key : Bytes) (laws : StreamLaws stream) where
  module _ (r : ℕ) (data_ : Bytes) (s t : S) (c : laws.Corresponds s t) (p : 0 < r)
      (fits : r ≤ encrypt_chunk_size) where
    abbrev tail : Bytes
    tail = drop (encrypt_chunk_size - r) data_

    abbrev first_data : Bytes
    first_data = take (encrypt_chunk_size - r) data_

    padding_length : length (last_padding stream r data_) ≡ r + length first_data
    padding_length =
        omega
          (arith, length-append (replicate (r - 1) 0) (1 ∷ first_data), length-replicate (r - 1) 0)

    last-Opens_by :
        (final : Bool)
        → empty tail ≡ final
        → Opens stream key laws
            (pushed stream
              (stream.push s (last_padding stream r data_) final)
              final
              (λ st'. all_data_chunks stream tail st'))
            (between stream key laws false false t [])
            data_
    last-Opens_by true e =
        let m = last_padding stream r data_ in
        subst
          (Opens stream key laws ((stream.push s m true).0 ++ [])
            (between stream key laws false false t []))
          (all_before (encrypt_chunk_size - r) data_ e)
          (Opens-final stream key laws (stream.push s m true).0 false t (laws.next t m true) []
            first_data (omega (arith, laws.grows s m true))
            (omega (
              arith,
              laws.grows s m true,
              padding_length,
              length-take-le (encrypt_chunk_size - r) data_,
            ))
            (process-last stream key laws s t (r - 1) first_data true c))
    last-Opens_by false e =
        let m = last_padding stream r data_ in
        let p' = stream.push s m false in
        let t' = laws.next t m false in
        let n = encrypt_chunk_size - r in
        subst
          (Opens stream key laws (p'.0 ++ all_data_chunks stream tail p'.1)
            (between stream key laws false false t []))
          (take-append-drop n data_)
          (Opens-next stream key laws p'.0 (all_data_chunks stream tail p'.1) false true t t' []
            first_data (first_data ++ tail)
            (omega (
              arith,
              laws.grows s m false,
              padding_length,
              length-take n data_ (omega (arith, not_empty n data_ e)),
            ))
            (process-last stream key laws s t (r - 1) first_data false c)
            (data-Opens stream key laws (length tail) tail p'.1 t' first_data
              (laws.opens s t m false c).1 (length_left n data_ e) (omega arith)))

  padding-Opens :
      (f r : ℕ) (data_ : Bytes) (s t : S)
      → laws.Corresponds s t
      → 0 < r
      → r ≤ f
      → Opens stream key laws
          (padding_chunks stream f r data_ s)
          (between stream key laws false false t [])
          data_
  unfolding padding_chunks
  padding-Opens zero r data_ s t c p l = absurd (omega arith)
  padding-Opens (suc f) r data_ s t c p l =
      let zeros = stream.push s (replicate encrypt_chunk_size 0) false in
      let t' = laws.next t (replicate encrypt_chunk_size 0) false in
      let more = zeros.0 ++ padding_chunks stream f (r - encrypt_chunk_size) data_ zeros.1 in
      let last = push_last_padding stream r data_ s in
      let some_left =
        elim_false (r == 0) (all_data_chunks stream data_ s)
          (elim_of (ltb encrypt_chunk_size r) more last) (pos_differs r p) in
      elim (Bool-cases (ltb encrypt_chunk_size r)) [
        | inl e ↦
            subst (λ x. Opens stream key laws x (between stream key laws false false t []) data_)
              (sym (some_left ∙ elim_true (ltb encrypt_chunk_size r) more last e))
              (Opens-next stream key laws zeros.0
                (padding_chunks stream f (r - encrypt_chunk_size) data_ zeros.1) false false t t' []
                [] data_
                (omega (
                  arith,
                  laws.grows s (replicate encrypt_chunk_size 0) false,
                  length-replicate encrypt_chunk_size 0,
                ))
                (process-zeros stream key laws s t encrypt_chunk_size c)
                (padding-Opens f (r - encrypt_chunk_size) data_ zeros.1 t'
                  (laws.opens s t (replicate encrypt_chunk_size 0) false c).1
                  (omega (arith, ltb→lt encrypt_chunk_size r e)) (omega arith)))
        | inr e ↦
            subst (λ x. Opens stream key laws x (between stream key laws false false t []) data_)
              (sym (some_left ∙ elim_false (ltb encrypt_chunk_size r) more last e))
              (last-Opens_by r data_ s t c p (not_above encrypt_chunk_size r e)
                (empty (drop (encrypt_chunk_size - r) data_)) refl)
      ]

-- A decryptor as it is constructed.
abbrev pub new_decryptor : {S : Type 0} → S → Decryptor S
new_decryptor st = record {
  buf = [];
  header = false;
  depadded = false;
  failed = false;
  finished = false;
  hit_final = false;
  st = st;
  output = [];
}

module _ {S : Type 0} (stream : SecretStream S) (laws : StreamLaws stream)
    (nonce_key data_ : Bytes) where
  abbrev key_of : Bytes
  key_of = drop encrypt_header nonce_key

  reads_header :
      (rest : Bytes) (st : S)
      → encrypt_header ≤ length nonce_key
      → (take_bytes stream key_of
            (b'S' ∷ (take encrypt_header nonce_key ++ rest))
            (new_decryptor st)
          ≡ take_bytes stream key_of rest (
              between stream key_of laws false false
                (stream.init_pull (take encrypt_header nonce_key) key_of)
                []))
  unfolding process_header
  reads_header rest st l =
      take_bytes-append stream key_of (b'S' ∷ take encrypt_header nonce_key) rest (new_decryptor st)
      ∙ ap (take_bytes stream key_of rest) (
          take_bytes_block stream key_of (b'S' ∷ take encrypt_header nonce_key) (new_decryptor st)
            refl refl (omega arith) (omega (arith, length-take encrypt_header nonce_key l)))

  encrypted-Opens :
      (st : S)
      → encrypt_header ≤ length nonce_key
      → 0 < encrypted_padding (length data_)
      → Opens stream key_of laws (encrypt_impl stream nonce_key data_) (new_decryptor st) data_
  unfolding encrypt_impl
  encrypted-Opens st l p =
      let n = encrypted_padding (length data_) in
      let h = take encrypt_header nonce_key in
      let s = stream.init_push h key_of in
      let t = stream.init_pull h key_of in
      let (u, e) =
        padding-Opens stream key_of laws n n data_ s t (laws.begins h key_of) p (omega arith) in
      (u, ap (finalize stream key_of) (reads_header (padding_chunks stream n n data_ s) st l) ∙ e)

  -- For a secretstream that decrypts what it encrypts, and data whose padding is not zero: when a new
  -- decryptor with the key is updated with the encrypted data in pieces of any sizes and then
  -- finalized, no call throws, it has not failed, and its output is the data.
  pub updates-encrypt_impl :
      (st : S) (pieces : List Bytes)
      → encrypt_header ≤ length nonce_key
      → 0 < encrypted_padding (length data_)
      → join pieces ≡ encrypt_impl stream nonce_key data_
      → (d : Decryptor S) × (updates stream
            (drop encrypt_header nonce_key)
            pieces
            (some (new_decryptor st))
          ≡ some d)
        × ((finalize stream (drop encrypt_header nonce_key) d).failed ≡ false)
        × ((finalize stream (drop encrypt_header nonce_key) d).output ≡ data_)
  updates-encrypt_impl st pieces l p h =
      let (u, e) = encrypted-Opens st l p in
      let ends =
        ap (λ x. finalize stream key_of (take_bytes stream key_of x (new_decryptor st))) h ∙ e in
      (
        take_bytes stream key_of (join pieces) (new_decryptor st),
        updates-take_bytes stream key_of pieces (new_decryptor st) (refl, λ _. omega arith),
        ap (λ x. x.failed) ends,
        ap (λ x. x.output) ends,
      )
