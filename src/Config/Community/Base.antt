-- ===== src/Config/Community/Base.antt =====
-- Base URLs in canonical form.
use libbchat_util.Base.{
  ◌≤◌, ◌≡◌, sym, ap, ◌∙◌, subst, Option, none, some, [], ◌++◌, ltb, arith, inl, inr, length,
  Bool-cases, Option-cases,
}
use mathlib.Core.List.{append-nil}
use libbchat_util.Base.Order.{Bytes}
use libbchat_util.Url.{Url, port_text, parse_url}
use libbchat_util.Url.Canonical.{IsParsed, parse_url-IsParsed}
use libbchat_util.Url.Again.{parse_url-again}
use libbchat_util.Config.Community.{
  base_url_max_length, base_of, checked_base, canonical_base, canonical_url,
}

-- A base URL that `canonical_url` gives.
pub record IsBase (base : Bytes) : Type 0 where
  pub url : Url
  pub is_parsed : IsParsed url
  pub is_base : base_of url ≡ base
  pub size : length base ≤ base_url_max_length

some_base : (a b : Bytes) → some a ≡ some b → a ≡ b
some_base a b h = cc h

IsBase-checked :
    (u : Url) (path : Option Bytes) (base : Bytes)
    → IsParsed u
    → checked_base path (base_of u) ≡ some base
    → IsBase base
IsBase-checked u (some p) base v h = cc h
IsBase-checked u none base v h = elim (Bool-cases (ltb base_url_max_length (length (base_of u)))) [
  | inl e ↦ cc (rw e at h)
  | inr e ↦
      let q = some_base (base_of u) base (rw e at h) in
      record {
        url = u;
        is_parsed = v;
        is_base = q;
        size = subst (λ x. length x ≤ base_url_max_length) q (ground arith);
      }
]

pub canonical_url-IsBase : (url base : Bytes) → canonical_url url ≡ some base → IsBase base
unfolding canonical_url
canonical_url-IsBase url base h = elim (Option-cases (parse_url url)) [
  | inl e ↦ cc (ap canonical_base (sym e) ∙ h)
  | inr (u, e) ↦
      IsBase-checked u u.path base (parse_url-IsParsed url u e) (ap canonical_base (sym e) ∙ h)
]

fits : (base : Bytes) → length base ≤ base_url_max_length → checked_base none base ≡ some base
fits base h = ground arith

parsed_base : (u : Url) → IsParsed u → parse_url (base_of u) ≡ some (record u { path = none })
parsed_base u v =
    ap (λ x. parse_url (u.proto ++ (u.host ++ x))) (sym (append-nil (port_text u.port)))
    ∙ parse_url-again u [] v tt

-- A base URL in canonical form is its own canonical form.
pub canonical_url-IsBase_self : (base : Bytes) → IsBase base → canonical_url base ≡ some base
unfolding canonical_url
canonical_url-IsBase_self base b =
    ap (λ x. canonical_base (parse_url x)) (sym b.is_base)
    ∙ ap canonical_base (parsed_base b.url b.is_parsed)
    ∙ ap (checked_base none) b.is_base
    ∙ fits base b.size
