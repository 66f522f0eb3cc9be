-- ===== src/Config/Multipart/Split.antt =====
-- `push` splits a long message into parts that fit, and as many as it says.
use libbchat_util.Base.{
  ℕ, zero, suc, ◌-◌, ◌≤◌, ◌<◌, ◌≡◌, refl, ap, ◌∙◌, [], ◌∷◌, ◌++◌, arith, length, take, drop,
  take-append-drop, All, min,
}
use libbchat_util.Base.Order.{Bytes}
use libbchat_util.Config.Multipart.{chunks, max_chunk_size, max_multipart_size, num_parts_of}
use libbchat_util.Config.Multipart.Full.{join}

length-take : (n : ℕ) (bs : Bytes) → length (take n bs) ≡ min n (length bs)
length-take zero bs = ground arith
length-take (suc n) [] = ground arith
length-take (suc n) (b ∷ bs) = ground (arith, length-take n bs)

length-drop : (n : ℕ) (bs : Bytes) → length (drop n bs) ≡ length bs - n
length-drop zero bs = omega arith
length-drop (suc n) [] = omega arith
length-drop (suc n) (b ∷ bs) = omega (arith, length-drop n bs)

-- The bound on one part: not empty, and no longer than a chunk.
abbrev pub Fits : Bytes → Type 0
Fits c = (0 < length c) × (length c ≤ max_chunk_size)

join-chunks : (n : ℕ) (bs : Bytes) → length bs ≤ n → join (chunks n bs) ≡ bs
unfolding chunks join
join-chunks zero [] h = refl
join-chunks zero (b ∷ bs) h = absurd (omega arith)
join-chunks (suc n) [] h = refl
join-chunks (suc n) (b ∷ bs) h =
    ap (λ x. take max_chunk_size (b ∷ bs) ++ x)
      (join-chunks n (drop max_chunk_size (b ∷ bs))
        (omega (arith, length-drop max_chunk_size (b ∷ bs))))
    ∙ take-append-drop max_chunk_size (b ∷ bs)

Fits-chunks : (n : ℕ) (bs : Bytes) → All Fits (chunks n bs)
unfolding chunks
Fits-chunks zero bs = tt
Fits-chunks (suc n) [] = tt
Fits-chunks (suc n) (b ∷ bs) = (
  (
    omega (arith, length-take max_chunk_size (b ∷ bs)),
    omega (arith, length-take max_chunk_size (b ∷ bs)),
  ),
  Fits-chunks n (drop max_chunk_size (b ∷ bs)),
)

length-chunks : (n : ℕ) (bs : Bytes) → length bs ≤ n → length (chunks n bs) ≡ num_parts_of bs
unfolding chunks
length-chunks zero [] h = omega arith
length-chunks zero (b ∷ bs) h = absurd (omega arith)
length-chunks (suc n) [] h = omega arith
length-chunks (suc n) (b ∷ bs) h = omega (
  arith,
  length-drop max_chunk_size (b ∷ bs),
  length-chunks n (drop max_chunk_size (b ∷ bs))
      (omega (arith, length-drop max_chunk_size (b ∷ bs))),
)

-- For a message that is not longer than the limit on multipart messages, fuel of its length is
-- enough for the loop; the chunks join to the message, each is not empty and fits, they are as many
-- as the number of parts that was computed beforehand, and that number fits in one byte.
pub chunks_lem :
    (n : ℕ) (msg : Bytes)
    → length msg ≤ n
    → length msg ≤ max_multipart_size
    → (join (chunks n msg) ≡ msg)
      × All Fits (chunks n msg)
      × (length (chunks n msg) ≡ num_parts_of msg)
      × (num_parts_of msg < 256)
chunks_lem n msg h k = (join-chunks n msg h, Fits-chunks n msg, length-chunks n msg h, omega arith)
