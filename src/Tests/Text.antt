-- ===== src/Tests/Text.antt =====
-- Truncation of a text with a surrogate pair.
use libbchat_util.Base.{ℕ, ◌≡◌, refl, List, [], ◌∷◌, length, take, suc, if◌then◌else◌}
use libbchat_util.Utf16.{
  utf16_count_truncated_to_codepoints, truncated_from, is_utf16_low_surrogate,
}
use libbchat_util.Utf16.Truncated.{
  Codepoint, bmp, pair, encode, utf16_count_truncated_to_codepoints_lem,
}

abbrev codepoints : List Codepoint
codepoints = bmp 65 ∷ pair 55357 56832 ∷ bmp 66 ∷ []

-- The units that start a codepoint.
abbrev starts : List ℕ → ℕ
starts [] = 0
starts (c ∷ cs) = if is_utf16_low_surrogate c then starts cs else suc (starts cs)

two_codepoints : utf16_count_truncated_to_codepoints starts (65 ∷ 55357 ∷ 56832 ∷ 66 ∷ []) 2 ≡ 3
unfolding utf16_count_truncated_to_codepoints truncated_from
two_codepoints = refl

utf16_count_truncated_to_codepoints_lem_example :
    utf16_count_truncated_to_codepoints starts (encode codepoints) 2
    ≡ length (encode (take 2 codepoints))
unfolding encode
utf16_count_truncated_to_codepoints_lem_example =
    utf16_count_truncated_to_codepoints_lem starts codepoints 2
      ((refl, refl), ((refl, refl), ((refl, refl), tt))) refl
