-- ===== src/Url/Host.antt =====
-- What the loop over a host name reads, and that it reads the same again from what it has written.
use libbchat_util.Base.{
  ℕ, ◌≡◌, refl, sym, ap, ◌∙◌, none, some, [], ◌∷◌, ◌++◌, Bool, false, not, ◌||◌, ◌==◌, arith, inl,
  inr, Option-cases,
}
use mathlib.Core.List.{append_assoc, append-nil}
use libbchat_util.Base.Order.{Bytes}
use libbchat_util.Text.Search.{Lacks}
use libbchat_util.Url.{host_char, read_host}

-- A host name that is read as it is, and whether there is a dot in it.
abbrev pub Reads : Bool → Bool → Bytes → Bool → Type 0
Reads dot has_dot [] last = has_dot ≡ last
Reads dot has_dot (c ∷ s) last =
    (host_char dot c ≡ some c) × Reads (not (c == b'.')) (has_dot || c == b'.') s last

-- The loop stops in front of the text.
abbrev pub Stops : Bytes → Type 0
Stops [] = Unit
Stops (c ∷ t) = (dot : Bool) → host_char dot c ≡ none

-- What is written for a byte is written for itself.
host_char_again : (dot : Bool) (c d : ℕ) → host_char dot c ≡ some d → host_char dot d ≡ some d
unfolding host_char
host_char_again dot c d h = ground arith

snoc_first : (a : Bytes) (c : ℕ) (s : Bytes) → (a ++ c ∷ []) ++ s ≡ a ++ c ∷ s
snoc_first a c s = append_assoc a (c ∷ []) s

pub read_host-Reads :
    (acc : Bytes) (dot has_dot : Bool) (u : Bytes)
    → (h : Bytes) × ((read_host acc dot has_dot u).host ≡ acc ++ h)
      × Reads dot has_dot h (read_host acc dot has_dot u).has_dot
unfolding read_host
read_host-Reads acc dot has_dot [] = ([], sym (append-nil acc), refl)
read_host-Reads acc dot has_dot (c ∷ u) = elim (Option-cases (host_char dot c)) [
  | inl e ↦ rw (e, read_host) ([], sym (append-nil acc), refl)
  | inr (d, e) ↦
      let (h, w, r) = read_host-Reads (acc ++ d ∷ []) (not (d == b'.')) (has_dot || d == b'.') u in
      rw (e, read_host) (d ∷ h, w ∙ snoc_first acc d h, (host_char_again dot c d e, r))
]

pub read_host-append :
    (acc : Bytes) (dot has_dot last : Bool) (h t : Bytes)
    → Reads dot has_dot h last
    → Stops t
    → read_host acc dot has_dot (h ++ t) ≡ record { host = acc ++ h; has_dot = last; rest = t }
unfolding read_host
read_host-append acc dot has_dot last [] [] r s = rw (append-nil acc, r) refl
read_host-append acc dot has_dot last [] (c ∷ t) r s = rw (s dot, append-nil acc, r, read_host) refl
read_host-append acc dot has_dot last (c ∷ h) t r s =
    rw (r.0, read_host)
      (read_host-append (acc ++ c ∷ []) (not (c == b'.')) (has_dot || c == b'.') last h t r.1 s
        ∙ ap (λ x. record { host = x; has_dot = last; rest = t }) (snoc_first acc c h))

-- No host name has a slash or a question mark.
host_char-Lacks : (dot : Bool) (c : ℕ) → host_char dot c ≡ some c → (b'/' == c) ≡ false
unfolding host_char
host_char-Lacks dot c h = ground arith

pub Reads-Lacks : (dot has_dot last : Bool) (h : Bytes) → Reads dot has_dot h last → Lacks b'/' h
Reads-Lacks dot has_dot last [] r = tt
Reads-Lacks dot has_dot last (c ∷ h) r =
    (host_char-Lacks dot c r.0, Reads-Lacks (not (c == b'.')) (has_dot || c == b'.') last h r.1)
