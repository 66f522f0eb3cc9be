-- ===== src/Config/Community/Room.antt =====
-- Room tokens: what a valid one looks like, and its canonical form.
use libbchat_util.Base.{
  ℕ, ◌≤◌, ◌≡◌, refl, sym, ap, ◌∙◌, subst, some, [], ◌∷◌, Bool, true, false, not, ◌||◌, ◌==◌, ltb,
  arith, Bool-cases, inl, inr, map, length, empty,
}
use libbchat_util.Base.Order.{Bytes}
use libbchat_util.Text.Search.{Lacks}
use libbchat_util.Url.{to_lower}
use libbchat_util.Config.Community.{
  room_max_length, is_room_char, all_room_chars, valid_room, canonical_room,
}

abbrev refused : Bytes → Bool
refused room = ltb room_max_length (length room) || (empty room || not (all_room_chars room))

some_bytes : (a b : Bytes) → some a ≡ some b → a ≡ b
some_bytes a b h = cc h

pub record IsRoom (w r : Bytes) : Type 0 where
  pub lowered : map to_lower w ≡ r
  pub chars : all_room_chars (map to_lower w) ≡ true
  pub size : length r ≤ room_max_length

pub canonical_room-IsRoom : (w r : Bytes) → canonical_room w ≡ some r → IsRoom w r
unfolding canonical_room
canonical_room-IsRoom w r h = elim (Bool-cases (refused (map to_lower w))) [
  | inl e ↦ cc (rw (e, canonical_room) at h)
  | inr e ↦
      let q = some_bytes (map to_lower w) r (rw (e, canonical_room) at h) in
      record {
        lowered = q;
        chars = ground arith;
        size = subst (λ x. length x ≤ room_max_length) q (ground arith);
      }
]

no_slash : (c : ℕ) → is_room_char (to_lower c) ≡ true → (b'/' == c) ≡ false
no_slash c h = ground arith

pub room-Lacks : (w : Bytes) → all_room_chars (map to_lower w) ≡ true → Lacks b'/' w
room-Lacks [] h = tt
room-Lacks (c ∷ w) h = (no_slash c (ground arith), room-Lacks w (ground arith))

lower_again : (c : ℕ) → to_lower (to_lower c) ≡ to_lower c
lower_again c = ground arith

map-lower_again : (w : Bytes) → map to_lower (map to_lower w) ≡ map to_lower w
map-lower_again [] = refl
map-lower_again (c ∷ w) = rw (lower_again c, map-lower_again w) refl

-- The canonical form of a room is its own canonical form.
pub canonical_room-canonical_room :
    (w r : Bytes) → canonical_room w ≡ some r → canonical_room r ≡ some r
unfolding canonical_room
canonical_room-canonical_room w r h =
    let q = (canonical_room-IsRoom w r h).lowered in
    ap valid_room (subst (λ x. map to_lower x ≡ x) q (map-lower_again w) ∙ sym q) ∙ h
