-- ===== src/Config/Store/Cycle.antt =====
-- From a change over a push to its confirmation.
use libbchat_util.Base.{
  ◌≡◌, ◌≢◌, refl, sym, ap, subst, ◌∙◌, none, some, List, [], ◌∷◌, true, false, ◌&&◌, ◌||◌, arith,
  inl, inr, if◌then◌else◌, empty, Bool-cases,
}
use libbchat_util.Base.Order.{
  ℤ, pos, Bytes, same, bytes_order, int_order, compare_ℤ_refl, eq_of_compare_ℤ,
}
use libbchat_util.Base.Int.{◌+ℤ◌}
use libbchat_util.Base.SortedSet.{has, insert, has-insert}
use libbchat_util.Config.Store.{
  state_clean, state_dirty, state_waiting, is_clean, is_dirty, is_waiting, Config, with_hashes,
  retire, set_state, with_new_message, dirty, Pushed, push, sent, confirm_pushed, take_old_hashes,
}

-- Only a clean config knows the hashes of its stored messages; a dirty one has a message that can be
-- changed, and may be changed.
pub record IsValid (c : Config) : Type 0 where
  pub known : is_clean c.state ≡ false → c.curr_hashes ≡ []
  pub changeable : is_dirty c.state ≡ true → c.is_mutable ≡ true
  pub allowed : is_dirty c.state ≡ true → c.readonly ≡ false

-- What `retire` leaves of a config that is clean or knows no hashes: none, and the hashes are old.
nil_of_empty : (hs : List Bytes) → empty hs ≡ true → hs ≡ []
nil_of_empty [] h = refl
nil_of_empty (x ∷ xs) h = cc h

with_nothing :
    (c : Config)
    → c.curr_hashes ≡ []
    → c ≡ record c { curr_hashes = []; old_hashes = with_hashes c.curr_hashes c.old_hashes }
unfolding with_hashes
with_nothing c e = rw e refl

pub retire_lem :
    (c : Config)
    → (is_clean c.state ≡ false → c.curr_hashes ≡ [])
    → (retire c
        ≡ record c { curr_hashes = []; old_hashes = with_hashes c.curr_hashes c.old_hashes })
unfolding retire with_hashes
retire_lem c known = elim (Bool-cases (is_clean c.state)) [
  | inl e ↦ elim (Bool-cases (empty c.curr_hashes)) [
    | inl f ↦ rw (e, f, retire) (with_nothing c (nil_of_empty c.curr_hashes f))
    | inr f ↦ rw (e, f, retire) refl
  ]
  | inr e ↦ rw (e, retire) (with_nothing c (known e))
]

pub has-with_hashes :
    (h : Bytes) (hs s : List Bytes) → has h (with_hashes hs s) ≡ (has h hs || has h s)
unfolding with_hashes has
has-with_hashes h [] s = refl
has-with_hashes h (x ∷ xs) s = ground (arith, has-with_hashes h xs (insert x s), has-insert h x s)

-- A config with new changes, which may be made.
abbrev pub changed : Config → Config
changed c = record c {
  state = state_dirty;
  seqno = c.seqno +ℤ pos 1;
  is_mutable = true;
  curr_hashes = [];
  old_hashes = with_hashes c.curr_hashes c.old_hashes;
  needs_dump = true;
}

some_inj : {a b : Config} → some a ≡ some b → a ≡ b
some_inj h = cc h

dirty_first :
    (c : Config) → is_dirty c.state ≡ false → dirty c ≡ with_new_message (set_state state_dirty c)
unfolding dirty
dirty_first c e = rw (e, dirty) refl

set_state-dirty :
    (c : Config)
    → c.readonly ≡ false
    → set_state state_dirty c ≡ some (record (retire c) { state = state_dirty; needs_dump = true })
unfolding set_state
set_state-dirty c f = rw (f, set_state) refl

pub dirty-lem :
    (c : Config)
    → IsValid c
    → is_dirty c.state ≡ false
    → c.readonly ≡ false
    → dirty c ≡ some (changed c)
dirty-lem c v e f =
    dirty_first c e
    ∙ ap with_new_message (set_state-dirty c f)
    ∙ ap (λ x. with_new_message (some (record x { state = state_dirty; needs_dump = true })))
        (retire_lem c v.known)

pub dirty_again :
    (c : Config)
    → IsValid c
    → is_dirty c.state ≡ true
    → dirty c ≡ some (record c { needs_dump = true })
unfolding dirty
dirty_again c v e = rw (e, dirty, v.changeable e) refl

dirty_refused : (c : Config) → is_dirty c.state ≡ false → c.readonly ≡ true → dirty c ≡ none
unfolding dirty set_state
dirty_refused c e f = rw (e, f, dirty, set_state) refl

changed-IsValid : (c : Config) → c.readonly ≡ false → IsValid (changed c)
changed-IsValid c f = record { known = λ _. refl; changeable = λ _. refl; allowed = λ _. f }

-- A change keeps the invariant, where it is allowed.
pub dirty-IsValid : (c d : Config) → IsValid c → dirty c ≡ some d → IsValid d
dirty-IsValid c d v h = elim (Bool-cases (is_dirty c.state)) [
  | inl e ↦
      subst IsValid (some_inj (sym (dirty_again c v e) ∙ h))
        (record { known = v.known; changeable = v.changeable; allowed = v.allowed })
  | inr e ↦ elim (Bool-cases c.readonly) [
    | inl f ↦ cc (h, dirty_refused c e f)
    | inr f ↦ subst IsValid (some_inj (sym (dirty-lem c v e f) ∙ h)) (changed-IsValid c f)
  ]
]

-- What a push leaves.
abbrev pub after_push : Config → Config
after_push c = record (sent c) { old_hashes = [] }

sent_dirty :
    (c : Config)
    → IsValid c
    → is_dirty c.state ≡ true
    → sent c ≡ record c {
      state = state_waiting;
      curr_hashes = [];
      old_hashes = with_hashes c.curr_hashes c.old_hashes;
      needs_dump = true;
    }
sent_dirty c v e = rw (e, retire_lem c v.known) refl

push-lem :
    (c : Config) (ms : List Bytes)
    → empty c.keys ≡ false
    → push (some ms) c
      ≡ some (
        record {
          seqno = c.seqno;
          messages = ms;
          obsolete = if c.readonly then [] else (sent c).old_hashes;
        },
        after_push c,
      )
unfolding push
push-lem c ms k = rw (k, push) refl

after_push-IsValid : (c : Config) → IsValid c → IsValid (after_push c)
after_push-IsValid c v = elim (Bool-cases (is_dirty c.state)) [
  | inl e ↦
      rw (sent_dirty c v e)
        (record { known = λ _. refl; changeable = λ h. cc h; allowed = λ h. cc h })
  | inr e ↦ rw e (record { known = v.known; changeable = v.changeable; allowed = v.allowed })
]

abbrev pub confirmed : List Bytes → Config → Config
confirmed hashes c = record c {
  state = state_clean;
  curr_hashes = hashes;
  old_hashes = with_hashes c.curr_hashes c.old_hashes;
  needs_dump = true;
}

confirm-lem :
    (c : Config) (seqno : ℤ) (hashes : List Bytes)
    → IsValid c
    → (is_waiting c.state && same seqno c.seqno) ≡ true
    → confirm_pushed seqno hashes c ≡ confirmed hashes c
unfolding confirm_pushed
confirm-lem c seqno hashes v e = rw (e, confirm_pushed, retire_lem c v.known) refl

confirm_ignored :
    (c : Config) (seqno : ℤ) (hashes : List Bytes)
    → (is_waiting c.state && same seqno c.seqno) ≡ false
    → confirm_pushed seqno hashes c ≡ c
unfolding confirm_pushed
confirm_ignored c seqno hashes e = rw (e, confirm_pushed) refl

pub confirm_pushed-IsValid :
    (c : Config) (seqno : ℤ) (hashes : List Bytes)
    → IsValid c
    → IsValid (confirm_pushed seqno hashes c)
confirm_pushed-IsValid c seqno hashes v =
    elim (Bool-cases (is_waiting c.state && same seqno c.seqno)) [
      | inl e ↦
          subst IsValid (sym (confirm-lem c seqno hashes v e))
            (record { known = λ h. cc h; changeable = λ h. cc h; allowed = λ h. cc h })
      | inr e ↦ subst IsValid (sym (confirm_ignored c seqno hashes e)) v
    ]

pub take_old_hashes-IsValid : (c : Config) → IsValid c → IsValid (take_old_hashes c).1
unfolding take_old_hashes
take_old_hashes-IsValid c v = elim (Bool-cases (is_dirty c.state)) [
  | inl e ↦ rw (e, take_old_hashes) v
  | inr e ↦
      rw (e, take_old_hashes)
        (record { known = v.known; changeable = v.changeable; allowed = v.allowed })
]

push-none : (c : Config) (ms : List Bytes) → empty c.keys ≡ true → push (some ms) c ≡ none
unfolding push
push-none c ms k = rw (k, push) refl

snd_inj : {x y : Pushed × Config} → some x ≡ some y → x.1 ≡ y.1
snd_inj h = cc h

pub push-IsValid :
    (c : Config) (ms : List Bytes) (p : Pushed) (d : Config)
    → push (some ms) c ≡ some (p, d)
    → IsValid c
    → IsValid d
push-IsValid c ms p d h v = elim (Bool-cases (empty c.keys)) [
  | inl k ↦ cc (h, push-none c ms k)
  | inr k ↦ subst IsValid (snd_inj (sym (push-lem c ms k) ∙ h)) (after_push-IsValid c v)
]

-- A push of a changed config: what it returns and what it leaves.
abbrev pub pushed : List Bytes → Config → Pushed
pushed ms c = record {
  seqno = c.seqno +ℤ pos 1;
  messages = ms;
  obsolete = with_hashes c.curr_hashes c.old_hashes;
}

abbrev pub waiting : Config → Config
waiting c = record (changed c) { state = state_waiting; old_hashes = [] }

push-changed :
    (c : Config) (ms : List Bytes)
    → empty c.keys ≡ false
    → c.readonly ≡ false
    → push (some ms) (changed c) ≡ some (pushed ms c, waiting c)
unfolding push retire with_hashes
push-changed c ms k r = rw (k, push, r) refl

waiting-IsValid : (c : Config) → IsValid (waiting c)
waiting-IsValid c = record { known = λ _. refl; changeable = λ _. refl; allowed = λ h. cc h }

same_number : (n : ℤ) → same n n ≡ true
same_number n = ground (arith, compare_ℤ_refl n)

other_number : (n m : ℤ) → n ≢ m → same n m ≡ false
other_number n m h = ground (arith, eq_of_compare_ℤ n m)

-- On a valid config that is not dirty, may be changed and has a key, a change is made; a push then
-- returns the next number, the messages, and as obsolete the hashes of the stored messages and the
-- old ones, no others; the config waits then, with no hashes of stored messages and no old ones;
-- confirming that number makes it clean with the given hashes and changes nothing else; confirming any other number changes nothing, and neither does confirming it after
-- another change.
pub push_cycle :
    (c : Config) (ms hashes : List Bytes)
    → IsValid c
    → is_dirty c.state ≡ false
    → c.readonly ≡ false
    → empty c.keys ≡ false
    → (d : Config) × (e : Config) × (p : Pushed) × (f : Config) × (dirty c ≡ some d)
      × (push (some ms) d ≡ some (p, e))
      × (is_waiting e.state ≡ true)
      × (e.curr_hashes ≡ [])
      × (e.old_hashes ≡ [])
      × (p.seqno ≡ c.seqno +ℤ pos 1)
      × (p.messages ≡ ms)
      × ((h : Bytes) → has h p.obsolete ≡ (has h c.curr_hashes || has h c.old_hashes))
      × (confirm_pushed p.seqno hashes e
          ≡ record e { state = state_clean; curr_hashes = hashes; needs_dump = true })
      × ((n : ℤ) → n ≢ p.seqno → confirm_pushed n hashes e ≡ e)
      × (dirty e ≡ some f)
      × (confirm_pushed p.seqno hashes f ≡ f)
unfolding with_hashes
push_cycle c ms hashes v e r k = (
  changed c,
  waiting c,
  pushed ms c,
  changed (waiting c),
  dirty-lem c v e r,
  push-changed c ms k r,
  refl,
  refl,
  refl,
  refl,
  refl,
  λ h. has-with_hashes h c.curr_hashes c.old_hashes,
  confirm-lem (waiting c) (c.seqno +ℤ pos 1) hashes (waiting-IsValid c)
      (same_number (c.seqno +ℤ pos 1)),
  λ n q. confirm_ignored (waiting c) n hashes (other_number n (c.seqno +ℤ pos 1) q),
  dirty-lem (waiting c) (waiting-IsValid c) refl r,
  confirm_ignored (changed (waiting c)) (c.seqno +ℤ pos 1) hashes refl,
)
