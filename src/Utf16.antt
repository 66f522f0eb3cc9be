-- ===== src/Utf16.antt =====
-- Truncation of UTF-16 text in util.cpp. Counting by simdutf is a parameter.
pub mod Truncated
use libbchat_util.Base.{
  ℕ, zero, suc, ◌+◌, List, [], ◌∷◌, Bool, true, false, ◌&&◌, ◌==◌, leb, if◌then◌else◌, length,
}

abbrev pub is_utf16_low_surrogate : ℕ → Bool
is_utf16_low_surrogate c = leb 56320 c && leb c 57343

abbrev pub is_utf16_high_surrogate : ℕ → Bool
is_utf16_high_surrogate c = leb 55296 c && leb c 56319

-- The loop from an index on, with the codepoints counted so far; the assertions are left out.
unfoldable pub truncated_from : ℕ → ℕ → ℕ → List ℕ → ℕ
truncated_from codepoint_len i counted [] = i
truncated_from codepoint_len i counted (c ∷ cs) =
    let counted' = (if is_utf16_high_surrogate c then counted else suc counted) in
    if counted' == codepoint_len then suc i else truncated_from codepoint_len (suc i) counted' cs

unfoldable pub utf16_count_truncated_to_codepoints : (List ℕ → ℕ) → List ℕ → ℕ → ℕ
utf16_count_truncated_to_codepoints count_utf16 s codepoint_len =
    if leb (length s) codepoint_len
    then length s
    else (if codepoint_len == 0
        then 0
        else (if leb (count_utf16 s) codepoint_len
            then length s
            else truncated_from codepoint_len 0 0 s))
