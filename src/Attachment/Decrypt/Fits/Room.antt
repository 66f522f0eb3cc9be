-- ===== src/Attachment/Decrypt/Fits/Room.antt =====
-- The room in the buffer for what is left of the encrypted data.
use libbchat_util.Base.{
  ℕ, ◌+◌, ◌-◌, ◌*◌, ◌/◌, ◌%◌, ◌^◌, ◌<◌, ◌≤◌, ◌≡◌, sym, ap, ◌∙◌, subst, none, some, Bool, true,
  false, ◌==◌, ◌||◌, leb, leb→le, ltb, if◌then◌else◌, arith, inl, inr, Bool-cases,
}
use libbchat_util.Attachment.{encrypt_chunk_overhead, encrypted_chunk_total}
use libbchat_util.Attachment.Sizes.{sub_size, without_overhead, at_most, decrypted_max_size}
use libbchat_util.Attachment.Sizes.Exact.{sub_size_lem}
use libbchat_util.Attachment.Decrypt.{chunk_size}

-- What is left of a size without the tags and macs of its chunks.
abbrev pub room : ℕ → ℕ
room n = n - (n + 32784) / 32785 * 17

-- Each chunk of what is left holds more than a tag and a mac.
abbrev pub whole_chunks : ℕ → Bool
whole_chunks left =
    let last = left % encrypted_chunk_total in last == 0 || ltb encrypt_chunk_overhead last

pub room_data :
    (size l out : ℕ)
    → whole_chunks l ≡ true
    → out + room l ≤ size
    → leb l 17 ≡ false
    → ltb size (out + chunk_size l) ≡ false
room_data size l out w h n = ground (arith, h, n)

pub room_next :
    (size l out m : ℕ)
    → whole_chunks l ≡ true
    → out + room l ≤ size
    → leb l 17 ≡ false
    → m + 17 ≡ chunk_size l + 17
    → (out + m) + room (l - (chunk_size l + 17)) ≤ size
room_next size l out m w h n e = ground (arith, h, n, e)

pub next_whole :
    (l : ℕ)
    → whole_chunks l ≡ true
    → leb l 17 ≡ false
    → whole_chunks (l - (chunk_size l + 17)) ≡ true
next_whole l w n = ground (arith, w, n)

pub room_padding :
    (size l : ℕ)
    → whole_chunks l ≡ true
    → room (l - 1) ≤ size
    → leb l 17 ≡ false
    → room (l - (chunk_size l + 17) - 1) ≤ size
room_padding size l w h n = ground (arith, h, n)

pub room_first :
    (size l first : ℕ)
    → whole_chunks l ≡ true
    → room (l - 1) ≤ size
    → leb l 17 ≡ false
    → first < chunk_size l
    → first + room (l - (chunk_size l + 17)) ≤ size
room_first size l first w h n e = ground (arith, h, n, e)

at_most-some : (n sz m : ℕ) → at_most n sz ≡ some m → sz ≡ m
at_most-some n sz m e = kept (ltb n sz) e
  where
    kept : (b : Bool) → (if b then none else some sz) ≡ some m → sz ≡ m
    kept true e = cc e
    kept false e = cc e

pub room_without : (sz : ℕ) → sz < 2 ^ 64 → room sz ≤ without_overhead sz
room_without sz l = omega (arith, l)

pub max_room :
    (n max_size : ℕ) → n < 2 ^ 64 → decrypted_max_size n ≡ some max_size → room (n - 26) ≤ max_size
unfolding decrypted_max_size
max_room n max_size l e = elim (Bool-cases (leb 26 n)) [
  | inl h ↦
      subst (λ x. room (n - 26) ≤ x)
        (ap without_overhead (sym (sub_size_lem n 26 (leb→le 26 n h) l))
          ∙ at_most-some n (without_overhead (sub_size n 26)) max_size e)
        (room_without (n - 26) (omega (arith, l)))
  | inr h ↦ ground (arith, h)
]

pub within : (n m size : ℕ) → room (n - 26) ≤ m → ltb size m ≡ false → room (n - 25 - 1) ≤ size
within n m size h e = ground (arith, h, e)
