-- ===== src/Url/Canonical.antt =====
-- What `parse_url` returns.
use libbchat_util.Base.{
  ℕ, ◌+◌, ◌<◌, ◌≡◌, ◌⊎◌, inl, inr, refl, sym, subst, Option, none, some, [], ◌∷◌, ◌++◌, Bool, true,
  false, ◌&&◌, ◌||◌, ◌==◌, arith, if◌then◌else◌, Bool-cases, take, drop,
}
use libbchat_util.Base.Order.{Bytes, same, bytes_order}
use libbchat_util.Text.{find, from_chars}
use libbchat_util.Text.Decimal.{from_chars-lt}
use libbchat_util.Url.{
  Url, string_iequal, http, https, colon_slashes, proto_of, HostRead, read_host, valid_host,
  explicit_port, with_number, read_port, with_port, with_host, with_proto, at_colon, parse_url,
}
use libbchat_util.Url.Host.{Reads, read_host-Reads}

abbrev pub IsProto : Bytes → Type 0
IsProto p = (p ≡ http ++ colon_slashes) ⊎ (p ≡ https ++ colon_slashes)

abbrev pub IsPort : Bytes → Option ℕ → Type 0
IsPort proto none = Unit
IsPort proto (some n) = (n < 65536) × (explicit_port proto n ≡ some n)

-- What a URL without a path can be.
pub record IsParsed (u : Url) : Type 0 where
  pub is_proto : IsProto u.proto
  pub reads : Reads false false u.host true
  pub valid : valid_host (record { host = u.host; has_dot = true; rest = [] }) ≡ true
  pub is_port : IsPort u.proto u.port

one_of :
    (b c : Bool) (x y p : Bytes)
    → (if b then some x else (if c then some y else none)) ≡ some p
    → (p ≡ x) ⊎ (p ≡ y)
one_of true c x y p h = inl (cc h)
one_of false true x y p h = inr (cc h)
one_of false false x y p h = cc h

proto_of-IsProto : (name p : Bytes) → proto_of name ≡ some p → IsProto p
proto_of-IsProto name p h =
    one_of (string_iequal name http) (string_iequal name https) (http ++ colon_slashes)
      (https ++ colon_slashes) p h

explicit_port-IsPort : (proto : Bytes) (n : ℕ) → n < 65536 → IsPort proto (explicit_port proto n)
explicit_port-IsPort proto n h =
    elim (Bool-cases (
      (n == 80 && same proto (http ++ colon_slashes))
      || (n == 443 && same proto (https ++ colon_slashes)))) [
        | inl e ↦ rw e tt
        | inr e ↦ rw e (h, rw e refl)
      ]

port_eq :
    (a b : Option ℕ) (r s : Bytes)
    → ◌≡◌ {A = Option (Option ℕ × Bytes)} (some (a, r)) (some (b, s))
    → a ≡ b
port_eq a b r s h = cc h

with_number-IsPort :
    (proto url : Bytes) (o : Option (ℕ × Bytes)) (p : Option ℕ) (r : Bytes)
    → from_chars 16 url ≡ o
    → with_number proto o ≡ some (p, r)
    → IsPort proto p
with_number-IsPort proto url none p r e h = cc h
with_number-IsPort proto url (some (n, rest)) p r e h =
    subst (IsPort proto) (port_eq (explicit_port proto n) p rest r h)
      (explicit_port-IsPort proto n (omega (arith, from_chars-lt 16 n url rest e)))

read_port-IsPort :
    (proto url : Bytes) (p : Option ℕ) (r : Bytes)
    → read_port proto url ≡ some (p, r)
    → IsPort proto p
unfolding read_port
read_port-IsPort proto [] p r h = subst (IsPort proto) (port_eq none p [] r h) tt
read_port-IsPort proto (c ∷ url) p r h = elim (Bool-cases (c == b':')) [
  | inl e ↦ with_number-IsPort proto url (from_chars 16 url) p r refl (rw (e, read_port) at h)
  | inr e ↦ subst (IsPort proto) (port_eq none p (c ∷ url) r (rw (e, read_port) at h)) tt
]

some_url : {a b : Url} → some a ≡ some b → a ≡ b
some_url h = cc h

IsParsed-with_port :
    (proto host : Bytes) (o : Option (Option ℕ × Bytes)) (u : Url)
    → IsProto proto
    → Reads false false host true
    → valid_host (record { host = host; has_dot = true; rest = [] }) ≡ true
    → ((p : Option ℕ) (r : Bytes) → o ≡ some (p, r) → IsPort proto p)
    → with_port proto host o ≡ some u
    → IsParsed u
IsParsed-with_port proto host none u a b v p h = cc h
IsParsed-with_port proto host (some (port, rest)) u a b v p h =
    subst IsParsed (some_url h)
      (record { is_proto = a; reads = b; valid = v; is_port = p port rest refl })

has_dot_of : (r : HostRead) → valid_host r ≡ true → r.has_dot ≡ true
unfolding valid_host
has_dot_of r e = ground arith

valid_of :
    (r : HostRead)
    → valid_host r ≡ true
    → valid_host (record { host = r.host; has_dot = true; rest = [] }) ≡ true
unfolding valid_host
valid_of r e = ground arith

IsParsed-with_host :
    (proto : Bytes) (r : HostRead) (u : Url) (h : Bytes)
    → IsProto proto
    → r.host ≡ h
    → Reads false false h r.has_dot
    → with_host proto r ≡ some u
    → IsParsed u
IsParsed-with_host proto r u h a w reads e = elim (Bool-cases (valid_host r)) [
  | inl v ↦
      IsParsed-with_port proto r.host (read_port proto r.rest) u a
        (subst (λ x. Reads false false x true) (sym w)
          (subst (Reads false false h) (has_dot_of r v) reads))
        (valid_of r v) (λ p rest q. read_port-IsPort proto r.rest p rest q) (rw v at e)
  | inr v ↦ cc (rw v at e)
]

IsParsed-with_proto :
    (o : Option Bytes) (url : Bytes) (u : Url)
    → ((p : Bytes) → o ≡ some p → IsProto p)
    → with_proto o url ≡ some u
    → IsParsed u
IsParsed-with_proto none url u k e = cc e
IsParsed-with_proto (some proto) url u k e =
    let (h, w, r) = read_host-Reads [] false false url in
    IsParsed-with_host proto (read_host [] false false url) u h (k proto refl) w r e

IsParsed-at_colon : (url : Bytes) (o : Option ℕ) (u : Url) → at_colon url o ≡ some u → IsParsed u
IsParsed-at_colon url none u e = cc e
IsParsed-at_colon url (some pos) u e =
    IsParsed-with_proto (proto_of (take pos url)) (drop (pos + 3) url) u
      (λ p q. proto_of-IsProto (take pos url) p q) e

-- What is parsed has one of the two protocols, a host name in lower case with a dot in it and none
-- at its end, and no port that the protocol implies.
pub parse_url-IsParsed : (url : Bytes) (u : Url) → parse_url url ≡ some u → IsParsed u
unfolding parse_url
parse_url-IsParsed url u e = IsParsed-at_colon url (find colon_slashes url) u e
