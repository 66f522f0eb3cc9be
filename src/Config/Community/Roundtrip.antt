-- ===== src/Config/Community/Roundtrip.antt =====
-- The full URL of a community, read again.
use libbchat_util.Base.{
  suc, ◌*◌, ◌≤◌, ◌<◌, All, ◌≡◌, refl, sym, ap, ◌∙◌, subst, Option, none, some, [], ◌∷◌, ◌++◌, true,
  arith, length, length-append, drop, map,
}
use mathlib.Core.List.{append_assoc}
use libbchat_util.Base.Order.{Bytes}
use libbchat_util.Text.{rfind}
use libbchat_util.Text.Search.{
  Lacks, rfind-Lacks, rfind-append, rfind_front, rfind-skip, take-length, drop-length-add,
}
use libbchat_util.Url.{to_lower}
use libbchat_util.Config.Community.Room.{canonical_room-IsRoom, room-Lacks}
use libbchat_util.Config.Community.Slashes.{rfind-slash_r, rfind-slash, rfind-slash_r_room}
use libbchat_util.Config.Community.{
  full_url_max_length, qs_pubkey, canonical_room, Encodings, Community, Attempt, shown_room,
  slash_r, set_room, decode_pubkey, full_url_of, full_url, at_slash, at_slash_r, parse_room,
  at_pubkey, parse_partial_url, required, parse_full_url, with_parts, set_full_url,
}
use libbchat_util.Config.Community.Base.{IsBase, canonical_url-IsBase_self}

-- What oxenc's hex does of bytes: an even number of digits that decode again, among them no question mark.
abbrev pub AreBytes : Bytes → Type 0
AreBytes x = All (λ b. b < 256) x

pub record HexLaws (e : Encodings) : Type 0 where
  pub size : (x : Bytes) → AreBytes x → length (e.to_hex x) ≡ 2 * length x
  pub is_hex : (x : Bytes) → AreBytes x → e.is_hex (e.to_hex x) ≡ true
  pub from_hex : (x : Bytes) → AreBytes x → e.from_hex (e.to_hex x) ≡ x
  pub digits : (x : Bytes) → AreBytes x → Lacks b'?' (e.to_hex x)

module _ (e : Encodings) (laws : HexLaws e) (pk : Bytes) (size : length pk ≡ 32)
    (bytes : AreBytes pk) where
  decode_pubkey-to_hex : decode_pubkey e (e.to_hex pk) ≡ some pk
  unfolding decode_pubkey
  decode_pubkey-to_hex =
      ground (arith, laws.size pk bytes, laws.is_hex pk bytes, laws.from_hex pk bytes)

  rfind-qs_pubkey :
      (front : Bytes) → rfind qs_pubkey (front ++ (qs_pubkey ++ e.to_hex pk)) ≡ some (length front)
  rfind-qs_pubkey front = rfind-append qs_pubkey front (qs_pubkey ++ e.to_hex pk) (
      rfind_front b'?' (drop 1 qs_pubkey) (e.to_hex pk) (
        rfind-skip b'?' (drop 1 qs_pubkey) (drop 1 qs_pubkey) (e.to_hex pk)
          (refl, (refl, (refl, (refl, (refl, (refl, (refl, (refl, (refl, (refl, (refl, tt)))))))))))
          (rfind-Lacks b'?' (drop 1 qs_pubkey) (e.to_hex pk) (laws.digits pk bytes))))

  -- The key at the end is taken off.
  parse_partial_url-key :
      (front : Bytes)
      → (parse_partial_url e (front ++ (qs_pubkey ++ e.to_hex pk)) ≡ parse_room front (some pk))
  unfolding parse_partial_url
  parse_partial_url-key front =
      ap (at_pubkey e (front ++ (qs_pubkey ++ e.to_hex pk))) (rfind-qs_pubkey front)
      ∙ rw
          (
            take-length front (qs_pubkey ++ e.to_hex pk),
            drop-length-add front qs_pubkey (e.to_hex pk),
            decode_pubkey-to_hex,
          )
          refl

module _ (base w r : Bytes) (b : IsBase base) (room : canonical_room w ≡ some r)
    (key : Option Bytes) where
  slash-Lacks : Lacks b'/' w
  slash-Lacks = room-Lacks w (canonical_room-IsRoom w r room).chars

  -- The room behind a slash.
  parse_room-slash :
      parse_room (base ++ b'/' ∷ w) key
      ≡ some (record { base_url = base; room_token = w; pubkey = key })
  unfolding parse_room
  parse_room-slash =
      ap (at_slash_r (base ++ b'/' ∷ w) key) (
        subst (λ x. rfind slash_r (x ++ b'/' ∷ w) ≡ none) b.is_base
          (rfind-slash_r b.url b.is_parsed w slash-Lacks))
      ∙ ap (at_slash (base ++ b'/' ∷ w) key) (rfind-slash base w slash-Lacks)
      ∙ rw
          (
            take-length base (b'/' ∷ w),
            drop-length-add base (b'/' ∷ []) w,
            canonical_url-IsBase_self base b,
          )
          refl

  -- The room behind "/r/".
  parse_room-slash_r :
      parse_room (base ++ (slash_r ++ w)) key
      ≡ some (record { base_url = base; room_token = w; pubkey = key })
  unfolding parse_room
  parse_room-slash_r =
      ap (at_slash_r (base ++ (slash_r ++ w)) key) (rfind-slash_r_room base w slash-Lacks)
      ∙ rw
          (
            take-length base (slash_r ++ w),
            drop-length-add base slash_r w,
            canonical_url-IsBase_self base b,
          )
          refl

length-map_lower : (w : Bytes) → length (map to_lower w) ≡ length w
length-map_lower [] = refl
length-map_lower (c ∷ w) = omega (arith, length-map_lower w)

-- What a community holds whose URL, room and key were set without an exception.
pub record IsCommunity (c : Community) : Type 0 where
  pub base : IsBase c.base_url
  pub room : canonical_room (shown_room c) ≡ some c.room
  pub key : length c.pubkey ≡ 32
  pub bytes : AreBytes c.pubkey

-- The other form of a full URL, with "/r/" in front of the room.
abbrev pub slash_r_url : Encodings → Community → Bytes
slash_r_url e c = (c.base_url ++ (slash_r ++ shown_room c)) ++ (qs_pubkey ++ e.to_hex c.pubkey)

module _ (e : Encodings) (laws : HexLaws e) where
  parse_full_url-full_url_of :
      (base w r pk : Bytes)
      → IsBase base
      → canonical_room w ≡ some r
      → length pk ≡ 32
      → AreBytes pk
      → parse_full_url e (full_url_of e base w pk) ≡ some (base, w, pk)
  unfolding parse_full_url full_url_of
  parse_full_url-full_url_of base w r pk b room key bytes =
      ap (λ x. required (parse_partial_url e x))
        (sym (append_assoc base (b'/' ∷ w) (qs_pubkey ++ e.to_hex pk)))
      ∙ ap required (parse_partial_url-key e laws pk key bytes (base ++ b'/' ∷ w))
      ∙ ap required (parse_room-slash base w r b room (some pk))

  parse_full_url-slash_r_url :
      (c : Community)
      → IsCommunity c
      → parse_full_url e (slash_r_url e c) ≡ some (c.base_url, shown_room c, c.pubkey)
  unfolding parse_full_url
  parse_full_url-slash_r_url c v =
      ap required (
        parse_partial_url-key e laws c.pubkey v.key v.bytes
          (c.base_url ++ (slash_r ++ shown_room c)))
      ∙ ap required
          (parse_room-slash_r c.base_url (shown_room c) c.room v.base v.room (some c.pubkey))

  abbrev copied : Community → Attempt
  copied c = record {
    community = record c { localized_room = some (shown_room c) };
    returned = true;
  }

  set-parsed :
      (c d : Community) (url : Bytes)
      → IsCommunity c
      → parse_full_url e url ≡ some (c.base_url, shown_room c, c.pubkey)
      → set_full_url e url d ≡ copied c
  unfolding set_full_url set_room
  set-parsed c d url v h = ap (λ o. with_parts o d) h ∙ rw v.room refl

  -- Setting any community from the full URL of a valid one, in either form, returns, and gives it the
  -- URL, the room, as it is and in lower case, and the key of the valid one.
  pub set_full_url-full_url :
      (c d : Community)
      → IsCommunity c
      → (set_full_url e (full_url e c) d ≡ record {
        community = record c { localized_room = some (shown_room c) };
        returned = true;
      })
        × (set_full_url e (slash_r_url e c) d ≡ record {
          community = record c { localized_room = some (shown_room c) };
          returned = true;
        })
  unfolding full_url
  set_full_url-full_url c d v = (
    set-parsed c d (full_url e c) v (
        parse_full_url-full_url_of c.base_url (shown_room c) c.room c.pubkey v.base v.room v.key
          v.bytes),
    set-parsed c d (slash_r_url e c) v (parse_full_url-slash_r_url c v),
  )

  -- The full URL of a valid community, with the null terminator, is not longer than the buffer that
  -- the C interface asks for.
  pub length-full_url :
      (c : Community) → IsCommunity c → suc (length (full_url e c)) ≤ full_url_max_length
  unfolding full_url full_url_of
  length-full_url c v =
      let room = canonical_room-IsRoom (shown_room c) c.room v.room in
      omega (
        arith,
        v.base.size,
        room.size,
        ap length room.lowered,
        length-map_lower (shown_room c),
        laws.size c.pubkey v.bytes,
        v.key,
        length-append c.base_url (b'/' ∷ (shown_room c ++ (qs_pubkey ++ e.to_hex c.pubkey))),
        length-append (shown_room c) (qs_pubkey ++ e.to_hex c.pubkey),
      )
