-- ===== src/Utf16/Truncated.antt =====
-- `utf16_count_truncated_to_codepoints` on text that encodes codepoints.
use libbchat_util.Base.{
  ℕ, zero, suc, ◌+◌, ◌≤◌, ◌<◌, ◌≡◌, refl, sym, ap, ◌∙◌, List, [], ◌∷◌, ◌++◌, true, false, ◌==◌, leb,
  if◌then◌else◌, arith, inl, inr, length, take, All, Bool-cases,
}
use libbchat_util.Utf16.{
  is_utf16_low_surrogate, is_utf16_high_surrogate, truncated_from,
  utf16_count_truncated_to_codepoints,
}

-- A codepoint in one unit, or in a high and a low surrogate.
pub data Codepoint : Type 0 where
  bmp : ℕ → Codepoint
  pair : ℕ → ℕ → Codepoint

abbrev pub IsCodepoint : Codepoint → Type 0
IsCodepoint (bmp c) = (is_utf16_high_surrogate c ≡ false) × (is_utf16_low_surrogate c ≡ false)
IsCodepoint (pair h l) = (is_utf16_high_surrogate h ≡ true) × (is_utf16_low_surrogate l ≡ true)

abbrev pub units : Codepoint → List ℕ
units (bmp c) = c ∷ []
units (pair h l) = h ∷ l ∷ []

unfoldable pub encode : List Codepoint → List ℕ
encode [] = []
encode (p ∷ ps) = units p ++ encode ps

counted_one :
    (n i k c : ℕ) (cs : List ℕ)
    → is_utf16_high_surrogate c ≡ false
    → truncated_from n i k (c ∷ cs)
      ≡ (if suc k == n then suc i else truncated_from n (suc i) (suc k) cs)
unfolding truncated_from
counted_one n i k c cs h = rw (h, truncated_from) refl

not_equal : (k n : ℕ) → k < n → (k == n) ≡ false
not_equal k n h = ground arith

full : (k n : ℕ) → k ≡ n → (k == n) ≡ true
full k n h = ground arith

counted_none :
    (n i k c : ℕ) (cs : List ℕ)
    → is_utf16_high_surrogate c ≡ true
    → k < n
    → truncated_from n i k (c ∷ cs) ≡ truncated_from n (suc i) k cs
unfolding truncated_from
counted_none n i k c cs h l = rw (h, truncated_from, not_equal k n l) refl

low_not_high : (c : ℕ) → is_utf16_low_surrogate c ≡ true → is_utf16_high_surrogate c ≡ false
low_not_high c h = ground arith

-- One more codepoint, whose last unit stands at an index.
one_more :
    (n i k m : ℕ) (ps : List Codepoint)
    → n ≡ k + suc m
    → m ≤ length ps
    → ((m' : ℕ)
        → m ≡ suc m'
        → truncated_from n (suc i) (suc k) (encode ps) ≡ suc i + length (encode (take m ps)))
    → (if suc k == n then suc i else truncated_from n (suc i) (suc k) (encode ps))
      ≡ suc i + length (encode (take m ps))
unfolding encode
one_more n i k zero ps e l rest = rw (full (suc k) n (omega arith)) (omega arith)
one_more n i k (suc m) ps e l rest = rw (not_equal (suc k) n (omega arith)) (rest m refl)

truncated_encode :
    (n i k m : ℕ) (ps : List Codepoint)
    → All IsCodepoint ps
    → n ≡ k + suc m
    → suc m ≤ length ps
    → truncated_from n i k (encode ps) ≡ i + length (encode (take (suc m) ps))
unfolding encode
truncated_encode n i k m [] v e l = absurd (omega arith)
truncated_encode n i k m (bmp c ∷ ps) v e l =
    counted_one n i k c (encode ps) v.0.0
    ∙ one_more n i k m ps e (omega arith) (λ m' q.
      truncated_encode n (suc i) (suc k) m' ps v.1 (omega arith) (omega arith)
      ∙ ap (λ x. suc i + length (encode (take x ps))) (sym q))
    ∙ omega arith
truncated_encode n i k m (pair h l' ∷ ps) v e l =
    counted_none n i k h (l' ∷ encode ps) v.0.0 (omega arith)
    ∙ counted_one n (suc i) k l' (encode ps) (low_not_high l' v.0.1)
    ∙ one_more n (suc i) k m ps e (omega arith) (λ m' q.
      truncated_encode n (suc (suc i)) (suc k) m' ps v.1 (omega arith) (omega arith)
      ∙ ap (λ x. suc (suc i) + length (encode (take x ps))) (sym q))
    ∙ omega arith

take_all : (n : ℕ) (ps : List Codepoint) → length ps ≤ n → take n ps ≡ ps
take_all zero [] h = refl
take_all zero (p ∷ ps) h = absurd (omega arith)
take_all (suc n) [] h = refl
take_all (suc n) (p ∷ ps) h = ap (λ x. p ∷ x) (take_all n ps (omega arith))

length-encode : (ps : List Codepoint) → length ps ≤ length (encode ps)
unfolding encode
length-encode [] = omega arith
length-encode (bmp c ∷ ps) = omega (arith, length-encode ps)
length-encode (pair h l ∷ ps) = omega (arith, length-encode ps)

whole :
    (n : ℕ) (ps : List Codepoint) → length ps ≤ n → length (encode ps) ≡ length (encode (take n ps))
whole n ps h = ap (λ x. length (encode x)) (sym (take_all n ps h))

-- Some codepoints are left over.
truncated_some :
    (n : ℕ) (ps : List Codepoint)
    → All IsCodepoint ps
    → 0 < n
    → n < length ps
    → truncated_from n 0 0 (encode ps) ≡ length (encode (take n ps))
truncated_some zero ps v h l = absurd (omega arith)
truncated_some (suc m) ps v h l =
    truncated_encode (suc m) 0 0 m ps v (omega arith) (omega arith) ∙ omega arith

none_left : (n : ℕ) (ps : List Codepoint) → n ≡ 0 → 0 ≡ length (encode (take n ps))
unfolding encode
none_left zero ps h = refl
none_left (suc n) ps h = absurd (omega arith)

-- For text that encodes codepoints, and of which simdutf counts as many codepoints as it has, the
-- result is the length of the encoding of the first ones, as many as are asked for or all: it does
-- not cut a surrogate pair.
pub utf16_count_truncated_to_codepoints_lem :
    (count_utf16 : List ℕ → ℕ) (ps : List Codepoint) (n : ℕ)
    → All IsCodepoint ps
    → count_utf16 (encode ps) ≡ length ps
    → utf16_count_truncated_to_codepoints count_utf16 (encode ps) n ≡ length (encode (take n ps))
unfolding utf16_count_truncated_to_codepoints
utf16_count_truncated_to_codepoints_lem count_utf16 ps n v c =
    elim (Bool-cases (leb (length (encode ps)) n)) [
      | inl e ↦
          rw (e, utf16_count_truncated_to_codepoints)
            (whole n ps (ground (arith, length-encode ps)))
      | inr e ↦ elim (Bool-cases (n == 0)) [
        | inl f ↦ rw (e, f, utf16_count_truncated_to_codepoints) (none_left n ps (ground arith))
        | inr f ↦ elim (Bool-cases (leb (count_utf16 (encode ps)) n)) [
          | inl g ↦ rw (e, f, g, utf16_count_truncated_to_codepoints) (whole n ps (ground arith))
          | inr g ↦
              rw (e, f, g, utf16_count_truncated_to_codepoints)
                (truncated_some n ps v (ground arith) (ground arith))
        ]
      ]
    ]
