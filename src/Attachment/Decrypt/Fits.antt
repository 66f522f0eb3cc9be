-- ===== src/Attachment/Decrypt/Fits.antt =====
-- The decryption of whatever data never runs over the end of its buffer.
pub mod Room
use libbchat_util.Base.{
  ℕ, zero, suc, ◌+◌, ◌-◌, ◌*◌, ◌/◌, ◌%◌, ◌^◌, ◌<◌, ◌≤◌, ◌≡◌, refl, sym, ap, ◌∙◌, subst, Option,
  none, some, [], ◌∷◌, ◌++◌, Bool, true, false, ◌==◌, ◌||◌, leb, leb→le, ltb, if◌then◌else◌, empty,
  length, take, drop, arith, inl, inr, Bool-cases, length-append,
}
use libbchat_util.Base.Order.{Bytes}
use libbchat_util.Attachment.{
  encrypt_header, encrypt_chunk_overhead, encrypted_chunk_total, SecretStream,
}
use libbchat_util.Attachment.Decryptor.{starts_with_s, skip_zeros}
use libbchat_util.Attachment.Decryptor.Stepwise.Blocks.{length-take}
use libbchat_util.Attachment.Decryptor.Stepwise.Chunks.{elim_of}
use libbchat_util.Attachment.Encrypt.Laws.{drop_left}
use libbchat_util.Attachment.Sizes.{sub_size, without_overhead, at_most, decrypted_max_size}
use libbchat_util.Attachment.Sizes.Exact.{sub_size_lem}
use libbchat_util.Attachment.Decrypt.{
  unknown_type, buffer_too_small, padding_ended, invalid_padding, early_final, no_final, data_ended,
  overrun, Decrypted, returns, throws, chunk_size, next_chunk, after_chunk, pull_or, check_tag,
  decrypt_data, start_data, find_data, decrypt_padding, decrypt_stream, decrypt_sized, decrypt,
}
use libbchat_util.Attachment.Decrypt.Fits.Room.{
  room, whole_chunks, room_data, room_next, next_whole, room_padding, room_first, max_room, within,
}

abbrev InBounds : Decrypted → Type 0
InBounds r = ¬ (r ≡ throws overrun)

either :
    (b : Bool) (x y : Decrypted)
    → (b ≡ true → InBounds x)
    → (b ≡ false → InBounds y)
    → InBounds (elim_of b x y)
either true x y p q = p refl
either false x y p q = q refl

returns-InBounds : (out : Bytes) → InBounds (returns out)
returns-InBounds out e = cc e

check_tag-InBounds :
    (final : Bool) (rest out : Bytes) (continue : Bytes → Decrypted)
    → InBounds (continue out)
    → InBounds (check_tag final rest out continue)
check_tag-InBounds true rest out continue h =
    either (empty rest) (returns out) (throws early_final) (λ _ e. cc e) (λ _ e. cc e)
check_tag-InBounds false rest out continue h =
    either (empty rest) (throws no_final) (continue out) (λ _ e. cc e) (λ _. h)

length-skip_zeros : (s : Bytes) → length (skip_zeros s) ≤ length s
unfolding skip_zeros
length-skip_zeros [] = omega arith
length-skip_zeros (c ∷ s) = shorter (length-skip_zeros s) (c == 0)
  where
    shorter :
        length (skip_zeros s) ≤ length s
        → (b : Bool) → length (if b then skip_zeros s else c ∷ s) ≤ suc (length s)
    shorter h true = omega (arith, h)
    shorter h false = omega arith

find_data-InBounds :
    (out : Bytes) (continue : Decrypted) (found : Bytes → Decrypted)
    → InBounds continue
    → ((c : ℕ) (first : Bytes) → out ≡ c ∷ first → InBounds (found first))
    → InBounds (find_data out continue found)
find_data-InBounds [] continue found h k = h
find_data-InBounds (c ∷ first) continue found h k =
    either (c == 1) (found first) (throws invalid_padding) (λ _. k c first refl) (λ _ e. cc e)

module _ {S : Type 0} (stream : SecretStream S)
    (shrinks : (st : S) (c m : Bytes) (final : Bool) (st' : S)
      → stream.pull st c ≡ some (m, final, st')
      → length m + encrypt_chunk_overhead ≡ length c) where
  pull_or-InBounds :
      (o : Option (Bytes × Bool × S)) (continue : Bytes → Bool → S → Decrypted)
      → ((m : Bytes) (final : Bool) (st' : S)
          → o ≡ some (m, final, st')
          → InBounds (continue m final st'))
      → InBounds (pull_or o continue)
  pull_or-InBounds none continue h e = cc e
  pull_or-InBounds (some p) continue h e = h p.0 p.1 p.2 refl e

  -- The message of the next chunk has the size that is made room for.
  pulled-length :
      (rest m : Bytes) (final : Bool) (st st' : S)
      → leb (length rest) 17 ≡ false
      → stream.pull st (next_chunk rest) ≡ some (m, final, st')
      → length m + 17 ≡ chunk_size (length rest) + 17
  pulled-length rest m final st st' some_left e = omega (
    arith,
    shrinks st (next_chunk rest) m final st' e,
    length-take (chunk_size (length rest) + 17) rest (ground (arith, some_left)),
  )

  data-InBounds :
      (f size : ℕ) (rest : Bytes) (st : S) (out : Bytes)
      → whole_chunks (length rest) ≡ true
      → length out + room (length rest) ≤ size
      → InBounds (decrypt_data stream f size rest st out)
  unfolding decrypt_data
  data-InBounds zero size rest st out w h = λ e. cc e
  data-InBounds (suc f) size rest st out w h =
      let continue : Bytes → Bool → S → Decrypted = λ m final st'.
        check_tag final (after_chunk rest) (out ++ m)
          (λ out'. decrypt_data stream f size (after_chunk rest) st' out') in
      let pulled = pull_or (stream.pull st (next_chunk rest)) continue in
      either (leb (length rest) 17) (throws data_ended)
        (elim_of (ltb size (length out + chunk_size (length rest))) (throws overrun) pulled)
        (λ _ e. cc e)
        (λ some_left.
          either (ltb size (length out + chunk_size (length rest))) (throws overrun) pulled
            (λ e. absurd (cc (e, room_data size (length rest) (length out) w h some_left)))
            (λ _. pull_or-InBounds (stream.pull st (next_chunk rest)) continue (λ m final st' e.
              let l = drop_left (chunk_size (length rest) + 17) rest in
              check_tag-InBounds final (after_chunk rest) (out ++ m)
                (λ out'. decrypt_data stream f size (after_chunk rest) st' out')
                (data-InBounds f size (after_chunk rest) st' (out ++ m)
                  (subst (λ n. whole_chunks n ≡ true) (sym l)
                    (next_whole (length rest) w some_left))
                  (subst (λ n. n + room (length (after_chunk rest)) ≤ size)
                    (sym (length-append out m))
                    (subst (λ n. length out + length m + room n ≤ size) (sym l)
                      (room_next size (length rest) (length out) (length m) w h some_left
                        (pulled-length rest m final st st' some_left e))))))))

  start-InBounds :
      (size : ℕ) (rest first : Bytes) (final : Bool) (st : S)
      → whole_chunks (length rest) ≡ true
      → length first + room (length rest) ≤ size
      → InBounds (start_data stream size rest first final st)
  start-InBounds size rest first final st w h =
      let continue : Bytes → Decrypted =
        λ out. decrypt_data stream (length rest) size rest st out in
      either (ltb size (length first)) (throws overrun) (check_tag final rest first continue)
        (λ e. absurd (cc (e, fits size (length first) (room (length rest)) h)))
        (λ _.
          check_tag-InBounds final rest first continue
            (data-InBounds (length rest) size rest st first w h))
    where
      fits : (size n r : ℕ) → n + r ≤ size → ltb size n ≡ false
      fits size n r h = ground arith

  padding-InBounds :
      (f size : ℕ) (rest : Bytes) (st : S)
      → whole_chunks (length rest) ≡ true
      → room (length rest - 1) ≤ size
      → InBounds (decrypt_padding stream f size rest st)
  unfolding decrypt_padding
  padding-InBounds zero size rest st w h = λ e. cc e
  padding-InBounds (suc f) size rest st w h =
      let continue : Bytes → Bool → S → Decrypted = λ m final st'.
        find_data (skip_zeros m) (decrypt_padding stream f size (after_chunk rest) st')
          (λ first. start_data stream size (after_chunk rest) first final st') in
      either (leb (length rest) 17) (throws padding_ended)
        (pull_or (stream.pull st (next_chunk rest)) continue) (λ _ e. cc e)
        (λ some_left. pull_or-InBounds (stream.pull st (next_chunk rest)) continue (λ m final st' e.
          let l = drop_left (chunk_size (length rest) + 17) rest in
          let w' =
            subst (λ n. whole_chunks n ≡ true) (sym l) (next_whole (length rest) w some_left) in
          find_data-InBounds (skip_zeros m) (decrypt_padding stream f size (after_chunk rest) st')
            (λ first. start_data stream size (after_chunk rest) first final st')
            (padding-InBounds f size (after_chunk rest) st' w' (
              subst (λ n. room (n - 1) ≤ size) (sym l)
                (room_padding size (length rest) w h some_left)))
            (λ c first found. start-InBounds size (after_chunk rest) first final st' w' (
              subst (λ n. length first + room n ≤ size) (sym l)
                (room_first size (length rest) (length first) w h some_left (
                  omega (
                    arith,
                    pulled-length rest m final st st' some_left e,
                    length-skip_zeros m,
                    ap length found,
                  )))))))

  -- When a message is as long as its chunk without the tag and mac, and each chunk of the encrypted
  -- data, of less than 2 ^ 64 bytes, holds more than a tag and a mac: decryption to a buffer never
  -- writes behind its end, however the data was made and whatever the size of the buffer is.
  pub decrypt_in_bounds :
      (size : ℕ) (key encrypted : Bytes)
      → length encrypted < 2 ^ 64
      → whole_chunks (length encrypted - 25) ≡ true
      → ¬ (decrypt stream size key encrypted ≡ throws overrun)
  unfolding decrypt
  decrypt_in_bounds size key encrypted l w =
      sized-InBounds (decrypted_max_size (length encrypted)) refl
    where
      sized-InBounds :
          (o : Option ℕ)
          → decrypted_max_size (length encrypted) ≡ o
          → InBounds (decrypt_sized stream o size key encrypted)
      sized-InBounds none e = λ e. cc e
      sized-InBounds (some max_size) e =
          let checked =
            elim_of (ltb size max_size) (throws buffer_too_small)
              (decrypt_stream stream size key encrypted) in
          either (starts_with_s encrypted) checked (throws unknown_type)
            (λ _.
              either (ltb size max_size) (throws buffer_too_small)
                (decrypt_stream stream size key encrypted) (λ _ e. cc e)
                (λ enough.
                  padding-InBounds (length (drop 25 encrypted)) size (drop 25 encrypted)
                    (stream.init_pull (take encrypt_header (drop 1 encrypted)) key)
                    (subst (λ n. whole_chunks n ≡ true) (sym (drop_left 25 encrypted)) w)
                    (subst (λ n. room (n - 1) ≤ size) (sym (drop_left 25 encrypted))
                      (within (length encrypted) max_size size
                        (max_room (length encrypted) max_size l e) enough))))
            (λ _ e. cc e)
