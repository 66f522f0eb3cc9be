-- ===== src/Attachment/Encrypt/Laws.antt =====
-- What the stream cipher does, and lists of bytes in chunks.
use libbchat_util.Base.{
  ◌-◌, ap, ℕ, zero, suc, ◌+◌, ◌<◌, ◌≤◌, ◌≡◌, refl, some, [], ◌∷◌, ◌++◌, Bool, true, false, empty,
  length, take, drop, replicate, arith,
}
use libbchat_util.Base.Order.{Bytes}
use libbchat_util.Attachment.{encrypt_chunk_overhead, SecretStream}
use libbchat_util.Attachment.Decryptor.{skip_zeros}

-- What libsodium's secretstream does: two states that begin from one header and key, or that follow
-- on such states by encrypting a message and decrypting it, correspond; decrypting what was encrypted
-- gives the message and the tag; and a message grows by the tag and the mac.
pub record StreamLaws {S : Type 0} (stream : SecretStream S) : Type 1 where
  pub Corresponds : S → S → Type 0
  pub begins : (h k : Bytes) → Corresponds (stream.init_push h k) (stream.init_pull h k)
  pub next : S → Bytes → Bool → S
  pub opens :
      (s t : S) (m : Bytes) (final : Bool)
      → Corresponds s t
      → (stream.pull t (stream.push s m final).0 ≡ some (m, final, next t m final))
        × Corresponds (stream.push s m final).1 (next t m final)
  pub grows :
      (s : S) (m : Bytes) (final : Bool)
      → length (stream.push s m final).0 ≡ length m + encrypt_chunk_overhead

pub skip-replicate : (n : ℕ) (s : Bytes) → skip_zeros (replicate n 0 ++ s) ≡ skip_zeros s
unfolding skip_zeros
skip-replicate zero s = refl
skip-replicate (suc n) s = skip-replicate n s

pub skip_all : (n : ℕ) → skip_zeros (replicate n 0) ≡ []
unfolding skip_zeros
skip_all zero = refl
skip_all (suc n) = skip_all n

pub not_empty : (n : ℕ) (x : Bytes) → empty (drop n x) ≡ false → n < length x
not_empty zero [] e = cc e
not_empty (suc n) [] e = cc e
not_empty zero (c ∷ x) e = omega arith
not_empty (suc n) (c ∷ x) e = omega (arith, not_empty n x e)

pub all_before : (n : ℕ) (x : Bytes) → empty (drop n x) ≡ true → take n x ≡ x
all_before zero [] e = refl
all_before (suc n) [] e = refl
all_before zero (c ∷ x) e = cc e
all_before (suc n) (c ∷ x) e = rw (all_before n x e) refl

pub length_left : (n : ℕ) (x : Bytes) → empty (drop n x) ≡ false → 0 < length (drop n x)
length_left n x e = pos (drop n x) e
  where
    pos : (y : Bytes) → empty y ≡ false → 0 < length y
    pos [] e = cc e
    pos (c ∷ y) e = omega arith

pub length-take-le : (n : ℕ) (x : Bytes) → length (take n x) ≤ n
length-take-le zero x = omega arith
length-take-le (suc n) [] = omega arith
length-take-le (suc n) (c ∷ x) = omega (arith, length-take-le n x)

pub drop_left : (n : ℕ) (s : Bytes) → length (drop n s) ≡ length s - n
drop_left zero s = omega arith
drop_left (suc n) [] = omega arith
drop_left (suc n) (c ∷ s) = omega (arith, drop_left n s)

pub length-replicate : (n x : ℕ) → length (replicate n x) ≡ n
length-replicate zero x = refl
length-replicate (suc n) x = omega (arith, length-replicate n x)

pub take_front : (n : ℕ) (x y : Bytes) → length x ≡ n → take n (x ++ y) ≡ x
take_front zero [] y h = refl
take_front zero (c ∷ x) y h = absurd (omega (arith, h))
take_front (suc n) [] y h = absurd (omega (arith, h))
take_front (suc n) (c ∷ x) y h = ap (λ s. c ∷ s) (take_front n x y (omega (arith, h)))

pub drop_past : (n : ℕ) (x y : Bytes) → length x ≡ n → drop n (x ++ y) ≡ y
drop_past zero [] y h = refl
drop_past zero (c ∷ x) y h = absurd (omega (arith, h))
drop_past (suc n) [] y h = absurd (omega (arith, h))
drop_past (suc n) (c ∷ x) y h = drop_past n x y (omega (arith, h))
