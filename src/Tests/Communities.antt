-- ===== src/Tests/Communities.antt =====
-- URLs and rooms in several forms, and a community that is copied by its URL.
use Prim.Native.Char.{code}
use Prim.Native.String.{String}
use libbchat_util.Base.{
  ℕ, zero, suc, ◌+◌, ◌-◌, ◌*◌, ◌/◌, ◌%◌, ◌≤◌, ◌<◌, ◌≡◌, refl, none, some, [], ◌∷◌, Bool, true,
  false, ◌&&◌, ◌||◌, ltb, leb, if◌then◌else◌, arith, All, replicate, length, ◌==◌,
}
use libbchat_util.Base.Order.{Bytes, compare_bytes}
use libbchat_util.Text.Search.{Lacks}
use libbchat_util.Text.{is_digit, to_string}
use libbchat_util.Config.Community.{
  canonical_url, canonical_room, Encodings, Community, full_url, set_full_url, full_url_max_length,
}
use libbchat_util.Config.Community.Base.{canonical_url-IsBase}
use libbchat_util.Config.Community.Roundtrip.{
  AreBytes, HexLaws, IsCommunity, slash_r_url, set_full_url-full_url, length-full_url,
}

abbrev codes : String → Bytes
codes String.[] = []
codes (String.◌∷◌ c s) = code c ∷ codes s

canonical_https :
    canonical_url (codes "HTTPS://Chat.Example:443/") ≡ some (codes "https://chat.example")
unfolding canonical_url compare_bytes
canonical_https = refl

canonical_port :
    canonical_url (codes "http://chat.example:8080") ≡ some (codes "http://chat.example:8080")
unfolding canonical_url to_string
canonical_port = refl

-- What follows and is no path is ignored.
canonical_junk :
    canonical_url (codes "http://chat.example?x=1") ≡ some (codes "http://chat.example")
unfolding canonical_url
canonical_junk = refl

refuses_path : canonical_url (codes "http://chat.example/room") ≡ none
unfolding canonical_url
refuses_path = refl

refuses_port : canonical_url (codes "http://chat.example:70000") ≡ none
unfolding canonical_url
refuses_port = refl

refuses_host : canonical_url (codes "http://a.b/") ≡ none
unfolding canonical_url
refuses_host = refl

room_lower : canonical_room (codes "Some-Room_1") ≡ some (codes "some-room_1")
unfolding canonical_room
room_lower = refl

-- Hexadecimal digits as oxenc writes them.
abbrev digit : ℕ → ℕ
digit d = if ltb d 10 then b'0' + d else b'a' + (d - 10)

abbrev value : ℕ → ℕ
value c = if ltb c b'a' then c - b'0' else c - b'a' + 10

abbrev hex : Bytes → Bytes
hex [] = []
hex (b ∷ bs) = digit (b / 16) ∷ digit (b % 16) ∷ hex bs

abbrev hex_digit : ℕ → Bool
hex_digit c = is_digit c || (leb b'a' c && leb c b'f')

abbrev all_hex : Bytes → Bool
all_hex [] = true
all_hex (c ∷ s) = hex_digit c && all_hex s

abbrev unhex : Bytes → Bytes
unhex [] = []
unhex (c ∷ []) = []
unhex (c ∷ d ∷ s) = (value c * 16 + value d) ∷ unhex s

abbrev nothing : Bytes → Bool
nothing s = false

abbrev same_text : Bytes → Bytes
same_text s = s

abbrev oxenc : Encodings
oxenc = record {
  to_hex = hex;
  is_hex = all_hex;
  from_hex = unhex;
  is_base64 = nothing;
  from_base64 = same_text;
  is_base32z = nothing;
  from_base32z = same_text;
}

hex_size : (x : Bytes) → length (hex x) ≡ 2 * length x
hex_size [] = refl
hex_size (b ∷ bs) = omega (arith, hex_size bs)

digit_is_hex : (d : ℕ) → d < 16 → hex_digit (digit d) ≡ true
digit_is_hex d h = ground arith

hex_is_hex : (x : Bytes) → AreBytes x → all_hex (hex x) ≡ true
hex_is_hex [] h = refl
hex_is_hex (b ∷ bs) h =
    rw
      (
        digit_is_hex (b / 16) (omega (arith, h.0)),
        digit_is_hex (b % 16) (omega arith),
        hex_is_hex bs h.1,
      )
      refl

value-digit : (d : ℕ) → d < 16 → value (digit d) ≡ d
value-digit d h = ground arith

split_byte : (b : ℕ) → b / 16 * 16 + b % 16 ≡ b
split_byte b = omega arith

unhex-hex : (x : Bytes) → AreBytes x → unhex (hex x) ≡ x
unhex-hex [] h = refl
unhex-hex (b ∷ bs) h =
    rw
      (
        value-digit (b / 16) (omega (arith, h.0)),
        value-digit (b % 16) (omega arith),
        split_byte b,
        unhex-hex bs h.1,
      )
      refl

no_question : (d : ℕ) → (b'?' == digit d) ≡ false
no_question d = ground arith

hex-Lacks : (x : Bytes) → Lacks b'?' (hex x)
hex-Lacks [] = tt
hex-Lacks (b ∷ bs) = (no_question (b / 16), (no_question (b % 16), hex-Lacks bs))

oxenc-HexLaws : HexLaws oxenc
oxenc-HexLaws = record {
  size = λ x h. hex_size x;
  is_hex = hex_is_hex;
  from_hex = unhex-hex;
  digits = λ x h. hex-Lacks x;
}

abbrev chat : Community
chat = record {
  base_url = codes "http://chat.example:8080";
  room = codes "some-room";
  localized_room = some (codes "Some-Room");
  pubkey = replicate 32 171;
}

abbrev nowhere : Community
nowhere = record { base_url = []; room = []; localized_room = none; pubkey = [] }

all_below : (n b m : ℕ) → b < m → All (λ c. c < m) (replicate n b)
all_below zero b m h = tt
all_below (suc n) b m h = (h, all_below n b m h)

chat_room : canonical_room (codes "Some-Room") ≡ some (codes "some-room")
unfolding canonical_room
chat_room = refl

chat-IsCommunity : IsCommunity chat
chat-IsCommunity = record {
  base =
      canonical_url-IsBase (codes "http://chat.example:8080") (codes "http://chat.example:8080")
        canonical_port;
  room = chat_room;
  key = refl;
  bytes = all_below 32 171 256 (omega arith);
}

set_full_url-full_url_example :
    (set_full_url oxenc (full_url oxenc chat) nowhere
      ≡ record { community = chat; returned = true })
    × (set_full_url oxenc (slash_r_url oxenc chat) nowhere
        ≡ record { community = chat; returned = true })
set_full_url-full_url_example =
    set_full_url-full_url oxenc oxenc-HexLaws chat nowhere chat-IsCommunity

length-full_url_example : suc (length (full_url oxenc chat)) ≤ full_url_max_length
length-full_url_example = length-full_url oxenc oxenc-HexLaws chat chat-IsCommunity
