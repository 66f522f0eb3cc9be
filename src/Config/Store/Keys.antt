-- ===== src/Config/Store/Keys.antt =====
-- The encryption keys of a config: a list with no key twice, in the order in which they are tried.
use libbchat_util.Base.{
  ◌≡◌, refl, sym, subst, Option, some, List, [], ◌∷◌, ◌++◌, Bool, true, false, not, ◌&&◌, ◌||◌,
  ◌==◌, arith, inl, inr, length, Bool-cases,
}
use libbchat_util.Base.Order.{Bytes, same, bytes_order}
use libbchat_util.Config.Store.{
  Config, is_dirty, has_key, front_is, without, remove_from, dirty_if, keys_with, add_key,
}
use libbchat_util.Config.Store.Cycle.{IsValid, changed, dirty-lem, dirty_again}

abbrev pub Distinct : List Bytes → Type 0
Distinct [] = Unit {0}
Distinct (k ∷ ks) = (has_key k ks ≡ false) × Distinct ks

pub same_self : (a : Bytes) → same a a ≡ true
same_self a = ground (arith, bytes_order.cmp_refl a)

eq_of_same : (a b : Bytes) → same a b ≡ true → a ≡ b
eq_of_same a b h = ground (arith, bytes_order.eq_of_cmp a b)

pub same_swap : (a b : Bytes) → same a b ≡ same b a
same_swap a b = elim (Bool-cases (same a b)) [
  | inl e ↦ cc (eq_of_same a b e)
  | inr e ↦ elim (Bool-cases (same b a)) [ inl f ↦ cc (eq_of_same b a f) | inr f ↦ cc (e, f) ]
]

same_other : (j k x : Bytes) → same k x ≡ true → same j x ≡ same j k
same_other j k x h = cc (eq_of_same k x h)

pub has_key-append :
    (j k : Bytes) (ks : List Bytes) → has_key j (ks ++ k ∷ []) ≡ (has_key j ks || same j k)
unfolding has_key
has_key-append j k [] = ground arith
has_key-append j k (x ∷ xs) = ground (arith, has_key-append j k xs)

has_key-without :
    (j k : Bytes) (ks : List Bytes) → has_key j (without k ks) ≡ (not (same j k) && has_key j ks)
unfolding has_key without
has_key-without j k [] = ground arith
has_key-without j k (x ∷ xs) = elim (Bool-cases (same k x)) [
  | inl e ↦ rw e (ground (arith, has_key-without j k xs, same_other j k x e))
  | inr e ↦ rw e (ground (arith, has_key-without j k xs, same_swap j k, eq_of_same j k))
]

pub Distinct-append :
    (k : Bytes) (ks : List Bytes) → Distinct ks → has_key k ks ≡ false → Distinct (ks ++ k ∷ [])
unfolding has_key
Distinct-append k [] d h = (refl, tt)
Distinct-append k (x ∷ xs) d h =
    (ground (arith, has_key-append x k xs, same_swap x k), Distinct-append k xs d.1 (ground arith))

Distinct-without : (k : Bytes) (ks : List Bytes) → Distinct ks → Distinct (without k ks)
unfolding without
Distinct-without k [] d = tt
Distinct-without k (x ∷ xs) d = elim (Bool-cases (same k x)) [
  | inl e ↦ rw e (Distinct-without k xs d.1)
  | inr e ↦ rw e (ground (arith, has_key-without x k xs), Distinct-without k xs d.1)
]

-- The keys that an added key leaves.
pub record KeysWith (key : Bytes) (ks rs : List Bytes) : Type 0 where
  pub distinct : Distinct rs
  pub members : (j : Bytes) → has_key j rs ≡ (same j key || has_key j ks)

front_has : (key : Bytes) (ks : List Bytes) → front_is key ks ≡ true → has_key key ks ≡ true
unfolding has_key
front_has key [] h = cc h
front_has key (k ∷ ks) h = ground (arith, same_swap k key)

pub has_key-same :
    (j key : Bytes) (ks : List Bytes)
    → same j key ≡ true
    → has_key key ks ≡ true
    → has_key j ks ≡ true
has_key-same j key ks e h = cc (eq_of_same j key e, h)

pub member_self :
    (j key : Bytes) (ks : List Bytes)
    → has_key key ks ≡ true
    → has_key j ks ≡ (same j key || has_key j ks)
member_self j key ks h = elim (Bool-cases (same j key)) [
  | inl e ↦ rw (e, has_key-same j key ks e h) refl
  | inr e ↦ rw e refl
]

already : (key : Bytes) (ks : List Bytes) → Distinct ks → has_key key ks ≡ true → KeysWith key ks ks
already key ks d h = record { distinct = d; members = λ j. member_self j key ks h }

at_end :
    (key : Bytes) (ks : List Bytes)
    → Distinct ks
    → has_key key ks ≡ false
    → KeysWith key ks (keys_with key false ks)
at_end key ks d h = record {
  distinct = Distinct-append key ks d h;
  members = λ j. ground (arith, has_key-append j key ks);
}

in_front :
    (key : Bytes) (ks : List Bytes)
    → Distinct ks
    → front_is key ks ≡ false
    → KeysWith key ks (keys_with key true ks)
unfolding has_key remove_from
in_front key [] d h = record { distinct = (refl, tt); members = λ j. refl }
in_front key (x ∷ xs) d h = record {
  distinct = (
    ground (arith, has_key-without key key xs, same_self key, same_swap key x),
    (ground (arith, has_key-without x key xs), Distinct-without key xs d.1),
  );
  members = λ j. ground (arith, has_key-without j key xs);
}

-- The invariant does not look at the keys.
pub with_keys-IsValid :
    (c : Config) (ks : List Bytes) → IsValid c → IsValid (record c { keys = ks })
with_keys-IsValid c ks v = record {
  known = v.known;
  changeable = v.changeable;
  allowed = v.allowed;
}

-- A change is made where it is asked for, and leaves the keys.
pub record Changed (b : Bool) (c : Config) (r : Option Config) : Type 0 where
  pub config : Config
  pub returned : r ≡ some config
  pub same_keys : config.keys ≡ c.keys
  pub is_changed : b ≡ true → is_dirty config.state ≡ true

pub dirty_if-Changed :
    (b : Bool) (c : Config)
    → IsValid c
    → (b ≡ true → c.readonly ≡ false)
    → Changed b c (dirty_if b c)
dirty_if-Changed false c v r = record {
  config = c;
  returned = refl;
  same_keys = refl;
  is_changed = λ h. cc h;
}
dirty_if-Changed true c v r = elim (Bool-cases (is_dirty c.state)) [
  | inl e ↦ record {
    config = record c { needs_dump = true };
    returned = dirty_again c v e;
    same_keys = refl;
    is_changed = λ _. e;
  }
  | inr e ↦ record {
    config = changed c;
    returned = dirty-lem c v e (r refl);
    same_keys = refl;
    is_changed = λ _. refl;
  }
]

-- What adding a key gives.
pub record Added (key : Bytes) (high : Bool) (c : Config) (r : Option Config) : Type 0 where
  pub config : Config
  pub returned : r ≡ some config
  pub keys_after : KeysWith key c.keys config.keys
  pub in_front_of : high ≡ true → front_is key config.keys ≡ true

pub add_key-present :
    (key : Bytes) (high dc : Bool) (c : Config)
    → length key ≡ 32
    → (front_is key c.keys || (not high && has_key key c.keys)) ≡ true
    → add_key key high dc c ≡ some c
unfolding add_key
add_key-present key high dc c n e = rw (n, e, add_key) refl

pub add_key-new :
    (key : Bytes) (high dc : Bool) (c : Config)
    → length key ≡ 32
    → (front_is key c.keys || (not high && has_key key c.keys)) ≡ false
    → add_key key high dc c
      ≡ dirty_if
          (dc && (not c.readonly && (length (keys_with key high c.keys) == 1 || high)))
          (record c { keys = keys_with key high c.keys })
unfolding add_key
add_key-new key high dc c n e = rw (n, e, add_key) refl

keys_with-KeysWith :
    (key : Bytes) (high : Bool) (ks : List Bytes)
    → Distinct ks
    → (front_is key ks || (not high && has_key key ks)) ≡ false
    → KeysWith key ks (keys_with key high ks)
keys_with-KeysWith key true ks d e = in_front key ks d (ground arith)
keys_with-KeysWith key false ks d e = at_end key ks d (ground arith)

front_of_keys_with :
    (key : Bytes) (high : Bool) (ks : List Bytes)
    → high ≡ true
    → front_is key (keys_with key high ks) ≡ true
front_of_keys_with key true ks h = same_self key
front_of_keys_with key false ks h = cc h

asked : (dc r x : Bool) → (dc && (not r && x)) ≡ true → r ≡ false
asked dc r x h = ground arith

new_key :
    (key : Bytes) (high : Bool) (b : Bool) (c : Config) (r : Option Config)
    → Distinct c.keys
    → (front_is key c.keys || (not high && has_key key c.keys)) ≡ false
    → Changed b (record c { keys = keys_with key high c.keys }) r
    → Added key high c r
new_key key high b c r d e ch = record {
  config = ch.config;
  returned = ch.returned;
  keys_after =
      subst (KeysWith key c.keys) (sym ch.same_keys) (keys_with-KeysWith key high c.keys d e);
  in_front_of = λ h.
      subst (λ x. front_is key x ≡ true) (sym ch.same_keys) (front_of_keys_with key high c.keys h);
}

present_has :
    (key : Bytes) (high : Bool) (ks : List Bytes)
    → (front_is key ks || (not high && has_key key ks)) ≡ true
    → has_key key ks ≡ true
present_has key high ks e = elim (Bool-cases (front_is key ks)) [
  | inl f ↦ front_has key ks f
  | inr f ↦ ground arith
]

-- On a valid config with no key twice, adding a key of 32 bytes succeeds; no key is there twice; the
-- keys are those from before and the new one; and with a high priority, the new one is in front.
pub add_key_lem :
    (key : Bytes) (high dc : Bool) (c : Config)
    → IsValid c
    → Distinct c.keys
    → length key ≡ 32
    → Added key high c (add_key key high dc c)
add_key_lem key high dc c v d n =
    elim (Bool-cases (front_is key c.keys || (not high && has_key key c.keys))) [
      | inl e ↦ record {
        config = c;
        returned = add_key-present key high dc c n e;
        keys_after = already key c.keys d (present_has key high c.keys e);
        in_front_of = λ h. ground arith;
      }
      | inr e ↦ subst (Added key high c) (sym (add_key-new key high dc c n e)) (
          new_key key high
            (dc && (not c.readonly && (length (keys_with key high c.keys) == 1 || high))) c
            (dirty_if (dc && (not c.readonly && (length (keys_with key high c.keys) == 1 || high)))
              (record c { keys = keys_with key high c.keys }))
            d e
            (dirty_if-Changed
              (dc && (not c.readonly && (length (keys_with key high c.keys) == 1 || high)))
              (record c { keys = keys_with key high c.keys })
              (with_keys-IsValid c (keys_with key high c.keys) v)
              (asked dc c.readonly (length (keys_with key high c.keys) == 1 || high))))
    ]
