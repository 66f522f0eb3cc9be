-- ===== src/Config/Community/Slashes.antt =====
-- The places of the slashes in the URL of a room.
use libbchat_util.Base.{
  ℕ, ◌≤◌, ◌≡◌, refl, sym, ap, ◌∙◌, subst, Option, none, some, [], ◌∷◌, ◌++◌, true, false, ◌==◌,
  arith, inl, inr, length, length-append, All-append,
}
use mathlib.Core.List.{append_assoc}
use libbchat_util.Base.Order.{Bytes}
use libbchat_util.Text.{starts_with, rfind, is_digit, to_string}
use libbchat_util.Text.Search.{
  Lacks, rfind-skip, rfind-cons, rfind-Lacks, rfind-append, rfind_front,
}
use libbchat_util.Text.Decimal.{IsDigits, to_string-IsDigits}
use libbchat_util.Url.{Url, http, https, port_text, valid_host}
use libbchat_util.Url.Host.{Reads-Lacks}
use libbchat_util.Url.Canonical.{IsProto, IsParsed}
use libbchat_util.Config.Community.{slash_r, base_of}

-- A room has no slash, so that no "/r/" begins in front of it.
starts_room : (w : Bytes) → Lacks b'/' w → starts_with (b'r' ∷ b'/' ∷ []) w ≡ false
unfolding starts_with
starts_room [] l = refl
starts_room (c ∷ []) l = ground arith
starts_room (c ∷ d ∷ w) l = ground (arith, l.1.0)

slash_r_room : (w : Bytes) → Lacks b'/' w → rfind slash_r (b'/' ∷ w) ≡ none
unfolding rfind starts_with
slash_r_room w l = rw (starts_room w l, rfind-Lacks b'/' (b'r' ∷ b'/' ∷ []) w l) refl

-- Nor does one begin in front of a host name of two or more bytes.
starts_host :
    (c d : ℕ) (s : Bytes) → (b'/' == d) ≡ false → starts_with slash_r (b'/' ∷ c ∷ d ∷ s) ≡ false
unfolding starts_with
starts_host c d s h = ground arith

slash_r_host :
    (a w : Bytes)
    → Lacks b'/' a
    → 2 ≤ length a
    → Lacks b'/' w
    → rfind slash_r (b'/' ∷ (a ++ b'/' ∷ w)) ≡ none
slash_r_host [] w l n k = absurd (omega arith)
slash_r_host (c ∷ []) w l n k = absurd (omega arith)
slash_r_host (c ∷ d ∷ a) w l n k =
    rfind-cons slash_r b'/' (c ∷ d ∷ (a ++ b'/' ∷ w)) (starts_host c d (a ++ b'/' ∷ w) l.1.0)
      (rfind-skip b'/' (b'r' ∷ b'/' ∷ []) (c ∷ d ∷ a) (b'/' ∷ w) l (slash_r_room w k))

starts_slashes : (s : Bytes) → starts_with slash_r (b'/' ∷ b'/' ∷ s) ≡ false
unfolding starts_with
starts_slashes s = refl

slash_r_front :
    (p a w : Bytes)
    → Lacks b'/' p
    → Lacks b'/' a
    → 2 ≤ length a
    → Lacks b'/' w
    → rfind slash_r (p ++ (b'/' ∷ b'/' ∷ (a ++ b'/' ∷ w))) ≡ none
slash_r_front p a w f l n k =
    rfind-skip b'/' (b'r' ∷ b'/' ∷ []) p (b'/' ∷ b'/' ∷ (a ++ b'/' ∷ w)) f (
      rfind-cons slash_r b'/' (b'/' ∷ (a ++ b'/' ∷ w)) (starts_slashes (a ++ b'/' ∷ w))
        (slash_r_host a w l n k))

slash_r_proto :
    (p a w : Bytes)
    → IsProto p
    → Lacks b'/' a
    → 2 ≤ length a
    → Lacks b'/' w
    → rfind slash_r (p ++ (a ++ b'/' ∷ w)) ≡ none
slash_r_proto p a w (inl q) l n k =
    subst (λ p. rfind slash_r (p ++ (a ++ b'/' ∷ w)) ≡ none) (sym q)
      (slash_r_front (http ++ b':' ∷ []) a w (refl, (refl, (refl, (refl, (refl, tt))))) l n k)
slash_r_proto p a w (inr q) l n k =
    subst (λ p. rfind slash_r (p ++ (a ++ b'/' ∷ w)) ≡ none) (sym q)
      (slash_r_front (https ++ b':' ∷ []) a w (refl, (refl, (refl, (refl, (refl, (refl, tt)))))) l n
        k)

digit-Lacks : (c : ℕ) → is_digit c ≡ true → (b'/' == c) ≡ false
digit-Lacks c h = ground arith

IsDigits-Lacks : (s : Bytes) → IsDigits s → Lacks b'/' s
IsDigits-Lacks [] d = tt
IsDigits-Lacks (c ∷ s) d = (digit-Lacks c d.0, IsDigits-Lacks s d.1)

port-Lacks : (o : Option ℕ) → Lacks b'/' (port_text o)
port-Lacks none = tt
port-Lacks (some n) = (refl, IsDigits-Lacks (to_string n) (to_string-IsDigits n))

host_size :
    (h : Bytes) → valid_host (record { host = h; has_dot = true; rest = [] }) ≡ true → 4 ≤ length h
unfolding valid_host
host_size h e = ground arith

authority-Lacks : (u : Url) → IsParsed u → Lacks b'/' (u.host ++ port_text u.port)
authority-Lacks u v =
    All-append (λ c. (b'/' == c) ≡ false) u.host (port_text u.port)
      (Reads-Lacks false false true u.host v.reads) (port-Lacks u.port)

authority_size : (u : Url) → IsParsed u → 2 ≤ length (u.host ++ port_text u.port)
authority_size u v =
    omega (arith, host_size u.host v.valid, length-append u.host (port_text u.port))

module _ (u : Url) (v : IsParsed u) (w : Bytes) (l : Lacks b'/' w) where
  -- Behind a canonical base and a slash, a room has no "/r/" in front of it, and the last slash is
  -- the one between the two.
  pub rfind-slash_r : rfind slash_r (base_of u ++ b'/' ∷ w) ≡ none
  rfind-slash_r =
      ap (rfind slash_r) (append_assoc u.proto (u.host ++ port_text u.port) (b'/' ∷ w))
      ∙ slash_r_proto u.proto (u.host ++ port_text u.port) w v.is_proto (authority-Lacks u v)
          (authority_size u v) l

pub rfind-slash :
    (base w : Bytes) → Lacks b'/' w → rfind (b'/' ∷ []) (base ++ b'/' ∷ w) ≡ some (length base)
rfind-slash base w l =
    rfind-append (b'/' ∷ []) base (b'/' ∷ w) (rfind_front b'/' [] w (rfind-Lacks b'/' [] w l))

-- Where "/r/" stands in front of the room, it is found.
pub rfind-slash_r_room :
    (base w : Bytes) → Lacks b'/' w → rfind slash_r (base ++ (slash_r ++ w)) ≡ some (length base)
rfind-slash_r_room base w l = rfind-append slash_r base (slash_r ++ w) (
    rfind_front b'/' (b'r' ∷ b'/' ∷ []) w
      (rfind-skip b'/' (b'r' ∷ b'/' ∷ []) (b'r' ∷ []) (b'/' ∷ w) (refl, tt) (slash_r_room w l)))
