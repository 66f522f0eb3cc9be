-- ===== src/Text/Search.antt =====
-- Where the last occurrence of a text is.
use libbchat_util.Base.{
  ℕ, suc, ◌+◌, ◌≡◌, refl, subst, none, some, [], ◌∷◌, ◌++◌, true, false, ◌==◌, arith, All, length,
  take, drop,
}
use libbchat_util.Base.Order.{Bytes}
use libbchat_util.Text.{starts_with, rfind}

-- The text does not have the byte.
abbrev pub Lacks : ℕ → Bytes → Type 0
Lacks c s = All (λ d. (c == d) ≡ false) s

-- No occurrence can begin where the first byte is missing.
pub rfind-skip :
    (c : ℕ) (d a t : Bytes) → Lacks c a → rfind (c ∷ d) t ≡ none → rfind (c ∷ d) (a ++ t) ≡ none
unfolding rfind starts_with
rfind-skip c d [] t h e = e
rfind-skip c d (x ∷ a) t h e = rw (h.0, rfind-skip c d a t h.1 e) refl

pub rfind-Lacks : (c : ℕ) (d s : Bytes) → Lacks c s → rfind (c ∷ d) s ≡ none
unfolding rfind starts_with
rfind-Lacks c d [] h = refl
rfind-Lacks c d (x ∷ s) h = rw (h.0, rfind-Lacks c d s h.1) refl

-- What stands in front of the last occurrence counts its place.
pub rfind-append : (d a t : Bytes) → rfind d t ≡ some 0 → rfind d (a ++ t) ≡ some (length a)
unfolding rfind
rfind-append d [] t e = e
rfind-append d (x ∷ a) t e = rw (rfind-append d a t e) refl

pub starts_with_self : (d t : Bytes) → starts_with d (d ++ t) ≡ true
unfolding starts_with
starts_with_self [] t = refl
starts_with_self (c ∷ d) t = ground (arith, starts_with_self d t)

-- A text at its front and nowhere after.
pub rfind_front :
    (c : ℕ) (d t : Bytes) → rfind (c ∷ d) (d ++ t) ≡ none → rfind (c ∷ d) (c ∷ (d ++ t)) ≡ some 0
unfolding rfind
rfind_front c d t e = rw (starts_with_self (c ∷ d) t, e) refl

pub take-length : (a t : Bytes) → take (length a) (a ++ t) ≡ a
take-length [] t = refl
take-length (x ∷ a) t = rw (take-length a t) refl

pub drop-length : (a t : Bytes) → drop (length a) (a ++ t) ≡ t
drop-length [] t = refl
drop-length (x ∷ a) t = drop-length a t

zero_plus : (n : ℕ) → n ≡ 0 + n
zero_plus n = omega arith

suc_plus : (m n : ℕ) → suc (m + n) ≡ suc m + n
suc_plus m n = omega arith

pub drop-length-add : (a b t : Bytes) → drop (length a + length b) (a ++ (b ++ t)) ≡ t
drop-length-add [] b t = subst (λ n. drop n (b ++ t) ≡ t) (zero_plus (length b)) (drop-length b t)
drop-length-add (x ∷ a) b t =
    subst (λ n. drop n (x ∷ (a ++ (b ++ t))) ≡ t) (suc_plus (length a) (length b))
      (drop-length-add a b t)

pub rfind-cons :
    (d : Bytes) (c : ℕ) (s : Bytes)
    → starts_with d (c ∷ s) ≡ false
    → rfind d s ≡ none
    → rfind d (c ∷ s) ≡ none
unfolding rfind
rfind-cons d c s h e = rw (h, e) refl
