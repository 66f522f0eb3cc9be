-- ===== src/Config/Community/Constructed.antt =====
-- A community that is constructed is valid.
use libbchat_util.Base.{
  ◌≡◌, refl, subst, Option, none, some, ◌==◌, inl, inr, length, if◌then◌else◌, Bool-cases, ==_iff,
}
use libbchat_util.Base.Order.{Bytes}
use libbchat_util.Config.Community.{
  canonical_url, canonical_room, Community, with_base, with_room, with_key, and_then, constructed,
  new_community, community,
}
use libbchat_util.Config.Community.Base.{IsBase, canonical_url-IsBase}
use libbchat_util.Config.Community.Roundtrip.{AreBytes, IsCommunity}

some_community : {a b : Community} → some a ≡ some b → a ≡ b
some_community h = cc h

-- The three parts, each as it was set.
from_parts :
    (base room key : Option Bytes) (w : Bytes) (c : Community)
    → ((b : Bytes) → base ≡ some b → IsBase b)
    → ((r : Bytes) → room ≡ some r → canonical_room w ≡ some r)
    → ((k : Bytes) → key ≡ some k → (length k ≡ 32) × AreBytes k)
    → (constructed (
          and_then
            (and_then (with_base base new_community) (λ x. with_room w room x))
            (λ x. with_key key x))
        ≡ some c)
    → IsCommunity c
from_parts none room key w c f g k h = cc h
from_parts (some b) none key w c f g k h = cc h
from_parts (some b) (some r) none w c f g k h = cc h
from_parts (some b) (some r) (some pk) w c f g k h =
    subst IsCommunity (some_community h)
      (record { base = f b refl; room = g r refl; key = (k pk refl).0; bytes = (k pk refl).1 })

some_bytes : {a b : Bytes} → some a ≡ some b → a ≡ b
some_bytes h = cc h

key_size :
    (pubkey k : Bytes)
    → AreBytes pubkey
    → (if length pubkey == 32 then some pubkey else none) ≡ some k
    → (length k ≡ 32) × AreBytes k
key_size pubkey k a h = elim (Bool-cases (length pubkey == 32)) [
  | inl e ↦
      subst (λ x. (length x ≡ 32) × AreBytes x) (some_bytes (rw e at h))
        ((==_iff (length pubkey) 32).0 e, a)
  | inr e ↦ cc (rw e at h)
]

-- What the constructor makes of a URL, a room and the bytes of a key is a valid community.
pub community-IsCommunity :
    (base_url room pubkey : Bytes) (c : Community)
    → AreBytes pubkey
    → community base_url room pubkey ≡ some c
    → IsCommunity c
unfolding community
community-IsCommunity base_url room pubkey c a h =
    from_parts (canonical_url base_url) (canonical_room room)
      (if length pubkey == 32 then some pubkey else none) room c
      (λ b e. canonical_url-IsBase base_url b e) (λ r e. e) (λ k e. key_size pubkey k a e) h
