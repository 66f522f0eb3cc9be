-- ===== src/Config/Store/Replace.antt =====
-- Replacing all the keys of a config.
use libbchat_util.Base.{
  ◌≡◌, refl, sym, ap, subst, ◌∙◌, Option, some, List, [], ◌∷◌, ◌++◌, Bool, true, false, not, ◌&&◌,
  ◌||◌, arith, inl, inr, if◌then◌else◌, length, Bool-cases,
}
use libbchat_util.Base.Order.{Bytes, same, bytes_order}
use libbchat_util.Config.Store.{
  Config, is_dirty, has_key, front_is, dirty_if, add_key, add_keys, all_32, replace_keys,
}
use libbchat_util.Config.Store.Cycle.{IsValid}
use libbchat_util.Config.Store.Keys.{
  Distinct, Distinct-append, has_key-append, same_self, same_swap, member_self, with_keys-IsValid,
  add_key-present, add_key-new, Changed, dirty_if-Changed,
}

-- The keys with one more behind them, unless it is there.
abbrev pub kept : Bytes → List Bytes → List Bytes
kept k ks = if has_key k ks then ks else ks ++ k ∷ []

unfoldable pub all_kept : List Bytes → List Bytes → List Bytes
all_kept [] acc = acc
all_kept (k ∷ ks) acc = all_kept ks (kept k acc)

front_has : (key : Bytes) (ks : List Bytes) → has_key key ks ≡ false → front_is key ks ≡ false
unfolding has_key
front_has key [] h = refl
front_has key (k ∷ ks) h = ground (arith, same_swap k key)

kept_there : (k : Bytes) (ks : List Bytes) → has_key k ks ≡ true → kept k ks ≡ ks
kept_there k ks e = rw e refl

kept_new : (k : Bytes) (ks : List Bytes) → has_key k ks ≡ false → kept k ks ≡ ks ++ k ∷ []
kept_new k ks e = rw e refl

add_key-kept :
    (k : Bytes) (c : Config)
    → length k ≡ 32
    → add_key k false false c ≡ some (record c { keys = kept k c.keys })
add_key-kept k c n = elim (Bool-cases (has_key k c.keys)) [
  | inl e ↦
      add_key-present k false false c n (ground arith)
      ∙ ap (λ x. some (record c { keys = x })) (sym (kept_there k c.keys e))
  | inr e ↦
      add_key-new k false false c n (ground (arith, front_has k c.keys))
      ∙ ap (λ x. some (record c { keys = x })) (sym (kept_new k c.keys e))
]

Distinct-kept : (k : Bytes) (ks : List Bytes) → Distinct ks → Distinct (kept k ks)
Distinct-kept k ks d = elim (Bool-cases (has_key k ks)) [
  | inl e ↦ rw e d
  | inr e ↦ rw e (Distinct-append k ks d e)
]

has_key-kept : (j k : Bytes) (ks : List Bytes) → has_key j (kept k ks) ≡ (same j k || has_key j ks)
has_key-kept j k ks = elim (Bool-cases (has_key k ks)) [
  | inl e ↦ rw e (member_self j k ks e)
  | inr e ↦ rw e (ground (arith, has_key-append j k ks))
]

front_of_kept :
    (f k : Bytes) (ks : List Bytes) → front_is f ks ≡ true → front_is f (kept k ks) ≡ true
front_of_kept f k [] h = cc h
front_of_kept f k (x ∷ xs) h = elim (Bool-cases (has_key k (x ∷ xs))) [
  | inl e ↦ rw e h
  | inr e ↦ rw e h
]

Distinct-all_kept : (ks acc : List Bytes) → Distinct acc → Distinct (all_kept ks acc)
unfolding all_kept
Distinct-all_kept [] acc d = d
Distinct-all_kept (k ∷ ks) acc d = Distinct-all_kept ks (kept k acc) (Distinct-kept k acc d)

has_key-all_kept :
    (j : Bytes) (ks acc : List Bytes)
    → has_key j (all_kept ks acc) ≡ (has_key j acc || has_key j ks)
unfolding all_kept has_key
has_key-all_kept j [] acc = ground arith
has_key-all_kept j (k ∷ ks) acc =
    ground (arith, has_key-all_kept j ks (kept k acc), has_key-kept j k acc)

front_of_all_kept :
    (f : Bytes) (ks acc : List Bytes) → front_is f acc ≡ true → front_is f (all_kept ks acc) ≡ true
unfolding all_kept
front_of_all_kept f [] acc h = h
front_of_all_kept f (k ∷ ks) acc h = front_of_all_kept f ks (kept k acc) (front_of_kept f k acc h)

first_32 : (k : Bytes) (ks : List Bytes) → all_32 (k ∷ ks) ≡ true → length k ≡ 32
first_32 k ks h = ground arith

rest_32 : (k : Bytes) (ks : List Bytes) → all_32 (k ∷ ks) ≡ true → all_32 ks ≡ true
rest_32 k ks h = ground arith

add_keys-kept :
    (ks : List Bytes) (c : Config)
    → all_32 ks ≡ true
    → add_keys ks c ≡ some (record c { keys = all_kept ks c.keys })
unfolding add_keys all_kept
add_keys-kept [] c h = refl
add_keys-kept (k ∷ ks) c h =
    rw (add_key-kept k c (first_32 k ks h), add_keys)
      (add_keys-kept ks (record c { keys = kept k c.keys }) (rest_32 k ks h))

replace_keys-kept :
    (k : Bytes) (ks : List Bytes) (dc : Bool) (c : Config)
    → all_32 (k ∷ ks) ≡ true
    → replace_keys (k ∷ ks) dc c
      ≡ dirty_if
          (dc && (not c.readonly && not (front_is k c.keys)))
          (record c { keys = all_kept (k ∷ ks) [] })
unfolding replace_keys
replace_keys-kept k ks dc c h =
    rw (h, replace_keys, add_keys-kept (k ∷ ks) (record c { keys = [] }) h) refl

-- What replacing the keys gives.
pub record Replaced (k : Bytes) (ks : List Bytes) (changes : Bool) (r : Option Config)
    : Type 0 where
  pub config : Config
  pub returned : r ≡ some config
  pub distinct : Distinct config.keys
  pub members : (j : Bytes) → has_key j config.keys ≡ has_key j (k ∷ ks)
  pub front : front_is k config.keys ≡ true
  pub is_changed : changes ≡ true → is_dirty config.state ≡ true

from_Changed :
    (k : Bytes) (ks : List Bytes) (b : Bool) (c : Config) (r : Option Config)
    → Changed b (record c { keys = all_kept (k ∷ ks) [] }) r
    → Replaced k ks b r
unfolding has_key all_kept
from_Changed k ks b c r ch = record {
  config = ch.config;
  returned = ch.returned;
  distinct = subst Distinct (sym ch.same_keys) (Distinct-all_kept ks (k ∷ []) (refl, tt));
  members = λ j. ap (has_key j) ch.same_keys ∙ has_key-all_kept j (k ∷ ks) [];
  front =
      subst (λ x. front_is k x ≡ true) (sym ch.same_keys)
        (front_of_all_kept k ks (k ∷ []) (same_self k));
  is_changed = ch.is_changed;
}

asked : (dc r x : Bool) → (dc && (not r && x)) ≡ true → r ≡ false
asked dc r x h = ground arith

-- On a valid config, replacing its keys by one or more keys of 32 bytes succeeds; no key is there
-- twice, the keys are the given ones, and the first of them is in front; and where a change is asked
-- for, allowed, and the key in front is another one, the config is dirty.
pub replace_keys_lem :
    (k : Bytes) (ks : List Bytes) (dc : Bool) (c : Config)
    → IsValid c
    → all_32 (k ∷ ks) ≡ true
    → Replaced k ks (dc && (not c.readonly && not (front_is k c.keys))) (replace_keys (k ∷ ks) dc c)
replace_keys_lem k ks dc c v h =
    subst (Replaced k ks (dc && (not c.readonly && not (front_is k c.keys))))
      (sym (replace_keys-kept k ks dc c h))
      (from_Changed k ks (dc && (not c.readonly && not (front_is k c.keys))) c
        (dirty_if (dc && (not c.readonly && not (front_is k c.keys)))
          (record c { keys = all_kept (k ∷ ks) [] }))
        (dirty_if-Changed (dc && (not c.readonly && not (front_is k c.keys)))
          (record c { keys = all_kept (k ∷ ks) [] }) (with_keys-IsValid c (all_kept (k ∷ ks) []) v)
          (asked dc c.readonly (not (front_is k c.keys)))))
