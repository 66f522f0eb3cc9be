-- ===== src/Config/Merge/Follows.antt =====
-- The transition of a config in a merge: what every outcome is, from the config that it started from.
use libbchat_util.Base.{
  ℕ, zero, suc, ◌+◌, ◌≡◌, refl, sym, ap, subst, ◌∙◌, Option, none, some, List, [], ◌∷◌, Bool, true,
  false, ◌||◌, if◌then◌else◌, empty, get_elem?, arith, inl, inr, Bool-cases, Option-cases,
}
use libbchat_util.Base.Order.{Bytes, same, bytes_order, int_order}
use libbchat_util.Base.SortedSet.{has}
use libbchat_util.Config.Store.{state_clean, state_dirty, is_dirty, Config, with_hashes, set_state}
use libbchat_util.Config.Store.Cycle.{IsValid, retire_lem, has-with_hashes}
use libbchat_util.Config.Merge.{
  Built, is_obsolete, mark_obsolete, take_merged, take_incoming, take_super, keeps_dirty, adopt,
}

-- The hashes that a config knows of, of its own message and of obsolete ones.
abbrev pub knows : Config → Bytes → Bool
knows c h = has h c.curr_hashes || has h c.old_hashes

pub mark_obsolete-keeps :
    (b : Built) (super : List Bytes) (i : ℕ) (all : List (List Bytes)) (old : List Bytes)
    (h : Bytes)
    → has h old ≡ true
    → has h (mark_obsolete b super i all old) ≡ true
unfolding mark_obsolete
mark_obsolete-keeps b super i [] old h e = e
mark_obsolete-keeps b super i (hs ∷ all) old h e = elim (Bool-cases (is_obsolete b super i hs)) [
  | inl o ↦ rw o (
      mark_obsolete-keeps b super (suc i) all (with_hashes hs old) h
        (ground (arith, has-with_hashes h hs old)))
  | inr o ↦ rw o (mark_obsolete-keeps b super (suc i) all old h e)
]

pub plus_zero : (i : ℕ) → i + 0 ≡ i
plus_zero i = omega arith

pub shift : (i k : ℕ) → i + suc k ≡ suc i + k
shift i k = omega arith

pub some_list : (gs hs : List Bytes) → some gs ≡ some hs → gs ≡ hs
some_list gs hs e = cc e

pub in_both : (h : Bytes) (gs hs : List Bytes) → gs ≡ hs → has h hs ≡ true → has h gs ≡ true
in_both h gs hs e m = rw e m

pub mark_obsolete-adds :
    (b : Built) (super : List Bytes) (i k : ℕ) (all : List (List Bytes)) (old hs : List Bytes)
    (h : Bytes)
    → get_elem? all k ≡ some hs
    → is_obsolete b super (i + k) hs ≡ true
    → has h hs ≡ true
    → has h (mark_obsolete b super i all old) ≡ true
unfolding mark_obsolete
mark_obsolete-adds b super i k [] old hs h e o m = cc e
mark_obsolete-adds b super i zero (gs ∷ all) old hs h e o m =
    let here =
      subst (λ x. is_obsolete b super i x ≡ true) (sym (some_list gs hs e))
        (subst (λ x. is_obsolete b super x hs ≡ true) (plus_zero i) o) in
    rw here (
      mark_obsolete-keeps b super (suc i) all (with_hashes gs old) h
        (ground (arith, has-with_hashes h gs old, in_both h gs hs (some_list gs hs e) m)))
mark_obsolete-adds b super i (suc k) (gs ∷ all) old hs h e o m =
    mark_obsolete-adds b super (suc i) k all
      (if is_obsolete b super i gs then with_hashes gs old else old) hs h e
      (subst (λ x. is_obsolete b super x hs ≡ true) (shift i k) o) m

-- Taking a merged message over, as a change does.
unfoldable pub merged_config : Built → Config → Config
merged_config b c = record c {
  state = state_dirty;
  seqno = b.seqno;
  is_mutable = true;
  curr_hashes = [];
  old_hashes = with_hashes c.curr_hashes c.old_hashes;
  needs_dump = true;
}

unfoldable pub incoming_config : Built → List Bytes → Config → Config
incoming_config b hs c = record c {
  state = state_clean;
  seqno = b.seqno;
  is_mutable = is_dirty c.state;
  curr_hashes = with_hashes hs [];
  old_hashes = with_hashes c.curr_hashes c.old_hashes;
  needs_dump = true;
}

pub take_merged-allowed :
    (b : Built) (c : Config)
    → IsValid c
    → c.readonly ≡ false
    → take_merged b c ≡ some (merged_config b c)
unfolding set_state merged_config
take_merged-allowed b c v r =
    let q = retire_lem (record c { seqno = b.seqno; is_mutable = true }) v.known in
    rw (q, r, set_state) refl

pub take_merged-refused : (b : Built) (c : Config) → c.readonly ≡ true → take_merged b c ≡ none
unfolding set_state
take_merged-refused b c r = rw (r, set_state) refl

pub take_incoming-lem :
    (b : Built) (hs : List Bytes) (c : Config)
    → IsValid c
    → take_incoming b (some hs) c ≡ some (incoming_config b hs c)
unfolding incoming_config
take_incoming-lem b hs c v =
    rw (retire_lem (record c { seqno = b.seqno; is_mutable = is_dirty c.state }) v.known) refl

-- What every outcome of a merge is, from the config that it started from.
pub record Follows (c d : Config) : Type 0 where
  pub valid : IsValid d
  pub keeps : (h : Bytes) → knows c h ≡ true → knows d h ≡ true
  pub old : (h : Bytes) → has h c.old_hashes ≡ true → has h d.old_hashes ≡ true

Follows-merged : (b : Built) (c : Config) → c.readonly ≡ false → Follows c (merged_config b c)
unfolding merged_config
Follows-merged b c r = record {
  valid = record { known = λ _. refl; changeable = λ _. refl; allowed = λ _. r };
  keeps = λ h e. ground (arith, has-with_hashes h c.curr_hashes c.old_hashes);
  old = λ h e. ground (arith, has-with_hashes h c.curr_hashes c.old_hashes);
}

Follows-incoming : (b : Built) (hs : List Bytes) (c : Config) → Follows c (incoming_config b hs c)
unfolding incoming_config
Follows-incoming b hs c = record {
  valid = record { known = λ h. cc h; changeable = λ h. cc h; allowed = λ h. cc h };
  keeps =
      λ h e. ground (arith, has-with_hashes h c.curr_hashes c.old_hashes, has-with_hashes h hs []);
  old = λ h e. ground (arith, has-with_hashes h c.curr_hashes c.old_hashes);
}

pub some_config : {a b : Config} → some a ≡ some b → a ≡ b
some_config h = cc h

Follows-take_incoming :
    (b : Built) (o : Option (List Bytes)) (c d : Config)
    → IsValid c
    → take_incoming b o c ≡ some d
    → Follows c d
Follows-take_incoming b none c d v h = cc h
Follows-take_incoming b (some hs) c d v h =
    subst (Follows c) (some_config (sym (take_incoming-lem b hs c v) ∙ h)) (Follows-incoming b hs c)

Follows-take_merged :
    (b : Built) (c d : Config) → IsValid c → take_merged b c ≡ some d → Follows c d
Follows-take_merged b c d v h = elim (Bool-cases c.readonly) [
  | inl r ↦ cc (h, take_merged-refused b c r)
  | inr r ↦
      subst (Follows c) (some_config (sym (take_merged-allowed b c v r) ∙ h)) (Follows-merged b c r)
]

Follows-take_super :
    (b : Built) (all : List (List Bytes)) (c d : Config)
    → IsValid c
    → take_super b all c ≡ some d
    → Follows c d
Follows-take_super b all c d v h = elim (Option-cases b.unmerged) [
  | inl u ↦ Follows-take_merged b c d v (rw u at h)
  | inr (k, u) ↦ Follows-take_incoming b (get_elem? all k) c d v (rw u at h)
]

pub Follows-adopt :
    (b : Built) (all : List (List Bytes)) (c d : Config)
    → IsValid c
    → adopt b all c ≡ some d
    → Follows c d
unfolding adopt
Follows-adopt b all c d v h = elim (Bool-cases (same b.seqno c.seqno || keeps_dirty c b all)) [
  | inl e ↦
      subst (Follows c) (some_config (rw (e, adopt) at h))
        (record { valid = v; keeps = λ x m. m; old = λ x m. m })
  | inr e ↦ Follows-take_super b all c d v (rw (e, adopt) at h)
]

pub nonempty :
    (all : List (List Bytes)) (k : ℕ) (hs : List Bytes)
    → get_elem? all k ≡ some hs
    → empty all ≡ false
nonempty [] k hs e = cc e
nonempty (x ∷ xs) k hs e = refl

pub take_super-some :
    (b : Built) (all : List (List Bytes)) (c : Config) (k : ℕ)
    → b.unmerged ≡ some k
    → take_super b all c ≡ take_incoming b (get_elem? all k) c
take_super-some b all c k u =
    ap
      (λ (o : Option ℕ). elim o [
        | none ↦ take_merged b c
        | some k ↦ take_incoming b (get_elem? all k) c
      ])
      u

pub take_super-none :
    (b : Built) (all : List (List Bytes)) (c : Config)
    → b.unmerged ≡ none
    → take_super b all c ≡ take_merged b c
take_super-none b all c u =
    ap
      (λ (o : Option ℕ). elim o [
        | none ↦ take_merged b c
        | some k ↦ take_incoming b (get_elem? all k) c
      ])
      u
