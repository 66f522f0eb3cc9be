-- ===== src/Url/Again.antt =====
-- What `parse_url` returned is parsed again as it is.
use libbchat_util.Base.{
  ℕ, ◌≡◌, inl, inr, refl, sym, ap, ◌∙◌, subst, Option, none, some, [], ◌∷◌, ◌++◌, Bool, true, false,
  ◌==◌, arith,
}
use libbchat_util.Base.Order.{Bytes, bytes_order}
use libbchat_util.Text.{is_digit, starts_with_digit}
use libbchat_util.Text.Decimal.{from_chars-to_string}
use libbchat_util.Url.{
  Url, port_text, read_host, valid_host, with_number, read_port, path_of, with_port, with_host,
  parse_url, host_char,
}
use libbchat_util.Url.Host.{read_host-append, Stops}
use libbchat_util.Url.Canonical.{IsProto, IsPort, IsParsed}

-- What may follow: nothing of the URL goes on there.
abbrev pub Ends : Bytes → Type 0
Ends [] = Unit
Ends (c ∷ t) =
    ((dot : Bool) → host_char dot c ≡ none) × (is_digit c ≡ false) × ((c == b':') ≡ false)

Ends-Stops : (t : Bytes) → Ends t → Stops t
Ends-Stops [] e = tt
Ends-Stops (c ∷ t) e = e.0

Stops-port : (o : Option ℕ) (t : Bytes) → Ends t → Stops (port_text o ++ t)
unfolding host_char
Stops-port none t e = Ends-Stops t e
Stops-port (some n) t e = λ dot. ground arith

no_digit : (t : Bytes) → Ends t → starts_with_digit t ≡ false
no_digit [] e = refl
no_digit (c ∷ t) e = e.1

read_port-again :
    (proto : Bytes) (o : Option ℕ) (t : Bytes)
    → IsPort proto o
    → Ends t
    → read_port proto (port_text o ++ t) ≡ some (o, t)
unfolding read_port
read_port-again proto none [] p e = refl
read_port-again proto none (c ∷ t) p e = rw (e.2, read_port) refl
read_port-again proto (some n) t p e =
    ap (with_number proto) (from_chars-to_string n t p.0 (no_digit t e))
    ∙ ap (λ (x : Option ℕ). some (x, t)) p.1

valid_any :
    (h r t : Bytes)
    → valid_host (record { host = h; has_dot = true; rest = r }) ≡ true
    → valid_host (record { host = h; has_dot = true; rest = t }) ≡ true
unfolding valid_host
valid_any h r t v = v

with_host-again :
    (u : Url) (t : Bytes)
    → IsParsed u
    → Ends t
    → (with_host u.proto (read_host [] false false (u.host ++ (port_text u.port ++ t)))
        ≡ some (record u { path = path_of t }))
with_host-again u t v e =
    ap (with_host u.proto) (
      read_host-append [] false false true u.host (port_text u.port ++ t) v.reads
        (Stops-port u.port t e))
    ∙ rw (valid_any u.host [] (port_text u.port ++ t) v.valid)
        (ap (with_port u.proto u.host) (read_port-again u.proto u.port t v.is_port e))

with_proto-front :
    (p x : Bytes) → IsProto p → parse_url (p ++ x) ≡ with_host p (read_host [] false false x)
unfolding parse_url
with_proto-front p x (inl q) =
    subst (λ p. parse_url (p ++ x) ≡ with_host p (read_host [] false false x)) (sym q) refl
with_proto-front p x (inr q) =
    subst (λ p. parse_url (p ++ x) ≡ with_host p (read_host [] false false x)) (sym q) refl

-- A URL that was parsed is parsed again as it is, whatever follows that cannot belong to it; of that,
-- a path is kept, and all else is ignored.
pub parse_url-again :
    (u : Url) (t : Bytes)
    → IsParsed u
    → Ends t
    → parse_url (u.proto ++ (u.host ++ (port_text u.port ++ t)))
      ≡ some (record u { path = path_of t })
parse_url-again u t v e =
    with_proto-front u.proto (u.host ++ (port_text u.port ++ t)) v.is_proto
    ∙ with_host-again u t v e
