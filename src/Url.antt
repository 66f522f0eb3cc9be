-- ===== src/Url.antt =====
-- `parse_url` of util.cpp. A call that throws has no result.
pub mod Host
pub mod Canonical
pub mod Again
use libbchat_util.Base.{
  ℕ, zero, suc, ◌+◌, Option, none, some, List, [], ◌∷◌, ◌++◌, Bool, true, false, not, ◌&&◌, ◌||◌,
  ◌==◌, leb, ltb, if◌then◌else◌, empty, length, take, drop,
}
use libbchat_util.Base.Order.{Bytes, bytes_order, same}
use libbchat_util.Text.{find, is_digit, from_chars, to_string}

abbrev pub is_lower : ℕ → Bool
is_lower c = leb b'a' c && leb c b'z'

abbrev pub is_upper : ℕ → Bool
is_upper c = leb b'A' c && leb c b'Z'

abbrev pub to_lower : ℕ → ℕ
to_lower c = if is_upper c then c + 32 else c

unfoldable pub string_iequal : Bytes → Bytes → Bool
string_iequal [] [] = true
string_iequal [] (d ∷ t) = false
string_iequal (c ∷ s) [] = false
string_iequal (c ∷ s) (d ∷ t) = to_lower c == to_lower d && string_iequal s t

abbrev pub http : Bytes
http = b'h' ∷ b't' ∷ b't' ∷ b'p' ∷ []

abbrev pub https : Bytes
https = b'h' ∷ b't' ∷ b't' ∷ b'p' ∷ b's' ∷ []

-- "://"
abbrev pub colon_slashes : Bytes
colon_slashes = b':' ∷ b'/' ∷ b'/' ∷ []

abbrev pub proto_of : Bytes → Option Bytes
proto_of name =
    if string_iequal name http
    then some (http ++ colon_slashes)
    else (if string_iequal name https then some (https ++ colon_slashes) else none)

-- The byte that goes into the host name, if the loop goes on.
unfoldable pub host_char : Bool → ℕ → Option ℕ
host_char next_allow_dot c =
    if is_digit c || is_lower c || c == b'-'
    then some c
    else (if is_upper c
        then some (c + 32)
        else (if next_allow_dot && c == b'.' then some b'.' else none))

pub record HostRead : Type 0 where
  pub host : Bytes
  pub has_dot : Bool
  pub rest : Bytes

-- The loop over the host name.
unfoldable pub read_host : Bytes → Bool → Bool → Bytes → HostRead
unfolding host_char
read_host host next_allow_dot has_dot [] = record { host = host; has_dot = has_dot; rest = [] }
read_host host next_allow_dot has_dot (c ∷ url) = elim (host_char next_allow_dot c) [
  | none ↦ record { host = host; has_dot = has_dot; rest = c ∷ url }
  | some d ↦ read_host (host ++ d ∷ []) (not (d == b'.')) (has_dot || d == b'.') url
]

abbrev pub ends_with_dot : Bytes → Bool
ends_with_dot [] = false
ends_with_dot (c ∷ []) = c == b'.'
ends_with_dot (c ∷ d ∷ s) = ends_with_dot (d ∷ s)

unfoldable pub valid_host : HostRead → Bool
valid_host r = not (ltb (length r.host) 4) && (r.has_dot && not (ends_with_dot r.host))

-- A port that the protocol does not imply.
abbrev pub explicit_port : Bytes → ℕ → Option ℕ
explicit_port proto port =
    if (port == 80 && same proto (http ++ colon_slashes))
      || (port == 443 && same proto (https ++ colon_slashes))
    then none
    else some port

abbrev pub with_number : Bytes → Option (ℕ × Bytes) → Option (Option ℕ × Bytes)
with_number proto none = none
with_number proto (some (port, rest)) = some (explicit_port proto port, rest)

-- The port, if there is one, and what comes after it.
unfoldable pub read_port : Bytes → Bytes → Option (Option ℕ × Bytes)
read_port proto [] = some (none, [])
read_port proto (c ∷ url) =
    if c == b':' then with_number proto (from_chars 16 url) else some (none, c ∷ url)

pub record Url : Type 0 where
  pub proto : Bytes
  pub host : Bytes
  pub port : Option ℕ
  pub path : Option Bytes

-- What is left is the path if it begins with a slash and is longer than that; else it is ignored.
abbrev pub path_of : Bytes → Option Bytes
path_of [] = none
path_of (c ∷ []) = none
path_of (c ∷ d ∷ url) = if c == b'/' then some (c ∷ d ∷ url) else none

abbrev pub with_port : Bytes → Bytes → Option (Option ℕ × Bytes) → Option Url
with_port proto host none = none
with_port proto host (some (port, rest)) =
    some (record { proto = proto; host = host; port = port; path = path_of rest })

abbrev pub with_host : Bytes → HostRead → Option Url
with_host proto r = if valid_host r then with_port proto r.host (read_port proto r.rest) else none

abbrev pub with_proto : Option Bytes → Bytes → Option Url
with_proto none url = none
with_proto (some proto) url = with_host proto (read_host [] false false url)

abbrev pub at_colon : Bytes → Option ℕ → Option Url
at_colon url none = none
at_colon url (some pos) = with_proto (proto_of (take pos url)) (drop (pos + 3) url)

unfoldable pub parse_url : Bytes → Option Url
unfolding string_iequal find read_host valid_host read_port from_chars
parse_url url = at_colon url (find colon_slashes url)

-- The port as a canonical URL has it.
abbrev pub port_text : Option ℕ → Bytes
port_text none = []
port_text (some n) = b':' ∷ to_string n
