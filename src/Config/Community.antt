-- ===== src/Config/Community.antt =====
-- Communities, of config/community.cpp: the server's URL and the room in canonical form, and the full
-- URL with the server's public key. The encodings of keys are oxenc's, and a parameter. A call that
-- throws has no result, or where it changes the object, leaves one.
pub mod Room
pub mod Slashes
pub mod Base
pub mod Roundtrip
pub mod Constructed
use libbchat_util.Base.{
  ℕ, zero, suc, ◌+◌, Option, none, some, List, [], ◌∷◌, ◌++◌, Bool, true, false, not, ◌&&◌, ◌||◌,
  ◌==◌, leb, ltb, if◌then◌else◌, empty, length, take, drop, map,
}
use libbchat_util.Base.Order.{Bytes}
use libbchat_util.Text.{rfind, is_digit}
use libbchat_util.Url.{Url, is_lower, to_lower, parse_url, port_text}

abbrev pub base_url_max_length : ℕ
base_url_max_length = 267

abbrev pub room_max_length : ℕ
room_max_length = 64

-- "?public_key="
abbrev pub qs_pubkey : Bytes
qs_pubkey = b'?' ∷ b'p' ∷ b'u' ∷ b'b' ∷ b'l' ∷ b'i' ∷ b'c' ∷ b'_' ∷ b'k' ∷ b'e' ∷ b'y' ∷ b'=' ∷ []

-- With the null terminator of the C interface.
abbrev pub full_url_max_length : ℕ
full_url_max_length = base_url_max_length + 3 + room_max_length + length qs_pubkey + 64 + 1

abbrev pub base_of : Url → Bytes
base_of u = u.proto ++ (u.host ++ port_text u.port)

abbrev pub checked_base : Option Bytes → Bytes → Option Bytes
checked_base (some path) base = none
checked_base none base = if ltb base_url_max_length (length base) then none else some base

abbrev pub canonical_base : Option Url → Option Bytes
canonical_base none = none
canonical_base (some u) = checked_base u.path (base_of u)

unfoldable pub canonical_url : Bytes → Option Bytes
unfolding parse_url
canonical_url url = canonical_base (parse_url url)

abbrev pub is_room_char : ℕ → Bool
is_room_char c = c == b'-' || (is_digit c || (c == b'_' || is_lower c))

abbrev pub all_room_chars : Bytes → Bool
all_room_chars [] = true
all_room_chars (c ∷ s) = is_room_char c && all_room_chars s

abbrev pub valid_room : Bytes → Option Bytes
valid_room room =
    if ltb room_max_length (length room) || (empty room || not (all_room_chars room))
    then none
    else some room

unfoldable pub canonical_room : Bytes → Option Bytes
canonical_room room = valid_room (map to_lower room)

-- oxenc's hex, base64 and base32z.
pub record Encodings : Type 0 where
  pub to_hex : Bytes → Bytes
  pub is_hex : Bytes → Bool
  pub from_hex : Bytes → Bytes
  pub is_base64 : Bytes → Bool
  pub from_base64 : Bytes → Bytes
  pub is_base32z : Bytes → Bool
  pub from_base32z : Bytes → Bytes

abbrev pub ends_with_equals : Bytes → Bool
ends_with_equals [] = false
ends_with_equals (c ∷ []) = c == b'='
ends_with_equals (c ∷ d ∷ s) = ends_with_equals (d ∷ s)

-- What `parse_partial_url` returns.
pub record Parts : Type 0 where
  pub base_url : Bytes
  pub room_token : Bytes
  pub pubkey : Option Bytes

pub record Community : Type 0 where
  pub base_url : Bytes
  pub room : Bytes
  pub localized_room : Option Bytes
  pub pubkey : Bytes

-- What a call that changes a community leaves of it, and whether it returns.
pub record Attempt : Type 0 where
  pub community : Community
  pub returned : Bool

abbrev pub with_base : Option Bytes → Community → Attempt
with_base none c = record { community = c; returned = false }
with_base (some base) c = record { community = record c { base_url = base }; returned = true }

unfoldable pub set_base_url : Bytes → Community → Attempt
unfolding canonical_url
set_base_url url c = with_base (canonical_url url) c

abbrev pub with_room : Bytes → Option Bytes → Community → Attempt
with_room localized none c = record { community = c; returned = false }
with_room localized (some room) c = record {
  community = record c { room = room; localized_room = some localized };
  returned = true;
}

unfoldable pub set_room : Bytes → Community → Attempt
unfolding canonical_room
set_room room c = with_room room (canonical_room room) c

-- `room()`: the localized token where there is one.
abbrev pub room_or : Bytes → Option Bytes → Bytes
room_or room none = room
room_or room (some localized) = localized

abbrev pub shown_room : Community → Bytes
shown_room c = room_or c.room c.localized_room

abbrev pub with_base_url : Option Bytes → Bytes → Option Bytes → Option Parts
with_base_url none token pubkey = none
with_base_url (some base) token pubkey =
    some (record { base_url = base; room_token = token; pubkey = pubkey })

-- The place of the last slash, if there is one.
abbrev pub at_slash : Bytes → Option Bytes → Option ℕ → Option Parts
at_slash url pubkey none = with_base_url (canonical_url url) [] pubkey
at_slash url pubkey (some pos) =
    with_base_url (canonical_url (take pos url)) (drop (pos + 1) url) pubkey

-- "/r/"
abbrev pub slash_r : Bytes
slash_r = b'/' ∷ b'r' ∷ b'/' ∷ []

abbrev pub at_slash_r : Bytes → Option Bytes → Option ℕ → Option Parts
at_slash_r url pubkey none = at_slash url pubkey (rfind (b'/' ∷ []) url)
at_slash_r url pubkey (some pos) =
    with_base_url (canonical_url (take pos url)) (drop (pos + 3) url) pubkey

unfoldable pub parse_room : Bytes → Option Bytes → Option Parts
unfolding canonical_url rfind
parse_room url pubkey = at_slash_r url pubkey (rfind slash_r url)

abbrev pub required : Option Parts → Option (Bytes × Bytes × Bytes)
required none = none
required (some p) = elim p.pubkey [
  | none ↦ none
  | some pubkey ↦ some (p.base_url, p.room_token, pubkey)
]

-- The URL is replaced before the room is checked.
abbrev pub then_pubkey : Bytes → Attempt → Attempt
then_pubkey pubkey a =
    if a.returned then record a { community = record a.community { pubkey = pubkey } } else a

abbrev pub with_pubkey : Bytes → Option Bytes → Option Parts
with_pubkey url none = none
with_pubkey url (some pubkey) = parse_room url (some pubkey)

abbrev pub with_parts : Option (Bytes × Bytes × Bytes) → Community → Attempt
with_parts none c = record { community = c; returned = false }
with_parts (some p) c = then_pubkey p.2 (set_room p.1 (record c { base_url = p.0 }))

module _ (e : Encodings) where
  unfoldable pub decode_pubkey : Bytes → Option Bytes
  decode_pubkey pk =
      if length pk == 64 && e.is_hex pk
      then some (e.from_hex pk)
      else (if (length pk == 43 || (length pk == 44 && ends_with_equals pk)) && e.is_base64 pk
          then some (e.from_base64 pk)
          else (if length pk == 52 && e.is_base32z pk then some (e.from_base32z pk) else none))

  unfoldable pub full_url_of : Bytes → Bytes → Bytes → Bytes
  full_url_of base_url room pubkey = base_url ++ (b'/' ∷ (room ++ (qs_pubkey ++ e.to_hex pubkey)))

  unfoldable pub full_url : Community → Bytes
  unfolding full_url_of
  full_url c = full_url_of c.base_url (shown_room c) c.pubkey

  abbrev pub at_pubkey : Bytes → Option ℕ → Option Parts
  at_pubkey url none = parse_room url none
  at_pubkey url (some pos) =
      with_pubkey (take pos url) (decode_pubkey (drop (pos + length qs_pubkey) url))

  unfoldable pub parse_partial_url : Bytes → Option Parts
  unfolding parse_room decode_pubkey
  parse_partial_url url = at_pubkey url (rfind qs_pubkey url)

  unfoldable pub parse_full_url : Bytes → Option (Bytes × Bytes × Bytes)
  unfolding parse_partial_url
  parse_full_url url = required (parse_partial_url url)

  unfoldable pub set_full_url : Bytes → Community → Attempt
  unfolding parse_full_url set_room
  set_full_url url c = with_parts (parse_full_url url) c

abbrev pub with_key : Option Bytes → Community → Attempt
with_key none c = record { community = c; returned = false }
with_key (some pubkey) c = record { community = record c { pubkey = pubkey }; returned = true }

unfoldable pub set_pubkey : Bytes → Community → Attempt
set_pubkey pubkey c = with_key (if length pubkey == 32 then some pubkey else none) c

unfoldable pub set_pubkey_text : Encodings → Bytes → Community → Attempt
unfolding decode_pubkey
set_pubkey_text e pubkey c = with_key (decode_pubkey e pubkey) c

abbrev pub new_community : Community
new_community = record { base_url = []; room = []; localized_room = none; pubkey = [] }

-- The next statement of a constructor, unless one before it threw.
abbrev pub and_then : Attempt → (Community → Attempt) → Attempt
and_then a step = if a.returned then step a.community else a

-- The object is there only if nothing threw.
abbrev pub constructed : Attempt → Option Community
constructed a = if a.returned then some a.community else none

unfoldable pub community_without_key : Bytes → Bytes → Attempt
unfolding set_base_url set_room
community_without_key base_url room =
    and_then (set_base_url base_url new_community) (λ c. set_room room c)

unfoldable pub community : Bytes → Bytes → Bytes → Option Community
unfolding community_without_key set_pubkey
community base_url room pubkey =
    constructed (and_then (community_without_key base_url room) (λ c. set_pubkey pubkey c))

unfoldable pub community_of_text : Encodings → Bytes → Bytes → Bytes → Option Community
unfolding community_without_key set_pubkey_text
community_of_text e base_url room pubkey =
    constructed (and_then (community_without_key base_url room) (λ c. set_pubkey_text e pubkey c))
