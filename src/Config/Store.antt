-- ===== src/Config/Store.antt =====
-- `ConfigBase` of config/base.cpp and include/bchat/config/base.hpp: the state of a config, the
-- hashes of its stored messages, and its keys. Of the config message the sequence number is kept,
-- and whether it is mutable; serializing and encrypting it is a parameter of `push`. A call that
-- throws has no result.
pub mod Cycle
pub mod Keys
pub mod Replace
pub mod Reachable
use libbchat_util.Base.{
  ℕ, zero, suc, Option, none, some, List, [], ◌∷◌, ◌++◌, Bool, true, false, not, ◌&&◌, ◌||◌, ◌==◌,
  leb, ltb, if◌then◌else◌, empty, length,
}
use libbchat_util.Base.Order.{ℤ, pos, Bytes, same, bytes_order, int_order}
use libbchat_util.Base.Int.{◌+ℤ◌}
use libbchat_util.Base.SortedSet.{has, insert}

pub data ConfigState : Type 0 where
  state_clean state_dirty state_waiting : ConfigState

abbrev pub is_clean : ConfigState → Bool
is_clean state_clean = true
is_clean state_dirty = false
is_clean state_waiting = false

abbrev pub is_dirty : ConfigState → Bool
is_dirty state_clean = false
is_dirty state_dirty = true
is_dirty state_waiting = false

abbrev pub is_waiting : ConfigState → Bool
is_waiting state_clean = false
is_waiting state_dirty = false
is_waiting state_waiting = true

-- The unordered sets of hashes are kept in ascending order.
pub record Config : Type 0 where
  pub state : ConfigState
  pub seqno : ℤ
  pub is_mutable : Bool
  pub readonly : Bool
  pub curr_hashes : List Bytes
  pub old_hashes : List Bytes
  pub keys : List Bytes
  pub needs_dump : Bool

-- A config that no dump is given for.
abbrev pub new_config : Bool → Config
new_config readonly = record {
  state = state_clean;
  seqno = pos 0;
  is_mutable = false;
  readonly = readonly;
  curr_hashes = [];
  old_hashes = [];
  keys = [];
  needs_dump = false;
}

unfoldable pub with_hashes : List Bytes → List Bytes → List Bytes
with_hashes [] s = s
with_hashes (h ∷ hs) s = with_hashes hs (insert h s)

unfoldable pub retire : Config → Config
retire c =
    if is_clean c.state && not (empty c.curr_hashes)
    then record c { old_hashes = with_hashes c.curr_hashes c.old_hashes; curr_hashes = [] }
    else c

unfoldable pub set_state : ConfigState → Config → Option Config
set_state s c =
    if is_dirty s && c.readonly
    then none
    else some (record (retire c) { state = s; needs_dump = true })

abbrev pub with_new_message : Option Config → Option Config
with_new_message none = none
with_new_message (some c) = some (record c { seqno = c.seqno +ℤ pos 1; is_mutable = true })

abbrev pub if_mutable : Config → Option Config
if_mutable c = if c.is_mutable then some c else none

unfoldable pub dirty : Config → Option Config
dirty c =
    if is_dirty c.state
    then if_mutable (record c { needs_dump = true })
    else with_new_message (set_state state_dirty c)

-- What `push` returns: the sequence number, the messages and the obsolete hashes.
pub record Pushed : Type 0 where
  pub seqno : ℤ
  pub messages : List Bytes
  pub obsolete : List Bytes

abbrev pub sent : Config → Config
sent c =
    if is_dirty c.state then record (retire c) { state = state_waiting; needs_dump = true } else c

-- `encoded` is the messages for the config, unless it is too long to send.
unfoldable pub push : Option (List Bytes) → Config → Option (Pushed × Config)
push encoded c = if empty c.keys then none else elim encoded [
  | none ↦ none
  | some ms ↦ some (
    record {
      seqno = c.seqno;
      messages = ms;
      obsolete = if c.readonly then [] else (sent c).old_hashes;
    },
    record (sent c) { old_hashes = [] },
  )
]

unfoldable pub confirm_pushed : ℤ → List Bytes → Config → Config
confirm_pushed seqno hashes c =
    if is_waiting c.state && same seqno c.seqno
    then record (retire c) { state = state_clean; curr_hashes = hashes; needs_dump = true }
    else c

unfoldable pub take_old_hashes : Config → List Bytes × Config
take_old_hashes c =
    if is_dirty c.state then ([], c) else (c.old_hashes, record c { old_hashes = [] })

unfoldable pub has_key : Bytes → List Bytes → Bool
has_key key [] = false
has_key key (k ∷ ks) = same key k || has_key key ks

abbrev pub front_is : Bytes → List Bytes → Bool
front_is key [] = false
front_is key (k ∷ ks) = same k key

unfoldable pub without : Bytes → List Bytes → List Bytes
without key [] = []
without key (k ∷ ks) = if same key k then without key ks else k ∷ without key ks

-- The keys from an index on are searched.
unfoldable pub remove_from : ℕ → Bytes → List Bytes → List Bytes
unfolding without
remove_from zero key ks = without key ks
remove_from (suc n) key [] = []
remove_from (suc n) key (k ∷ ks) = k ∷ remove_from n key ks

abbrev pub dirty_if : Bool → Config → Option Config
dirty_if b c = if b then dirty c else some c

abbrev pub keys_with : Bytes → Bool → List Bytes → List Bytes
keys_with key true ks = key ∷ remove_from 1 key ks
keys_with key false ks = ks ++ key ∷ []

unfoldable pub add_key : Bytes → Bool → Bool → Config → Option Config
add_key key high_priority dirty_config c =
    if not (length key == 32)
    then none
    else (if front_is key c.keys || (not high_priority && has_key key c.keys)
        then some c
        else dirty_if
            (dirty_config
              && (not c.readonly
                  && (length (keys_with key high_priority c.keys) == 1 || high_priority)))
            (record c { keys = keys_with key high_priority c.keys }))

abbrev pub with_count : ℕ → Option Config → Option (ℕ × Config)
with_count n none = none
with_count n (some c) = some (n, c)

unfoldable pub clear_keys : Bool → Config → Option (ℕ × Config)
clear_keys dirty_config c =
    with_count (length c.keys) (
      dirty_if (dirty_config && (not c.readonly && ltb 0 (length c.keys))) (record c { keys = [] }))

abbrev pub fewer : ℕ → Option Config → Option (Bool × Config)
fewer n none = none
fewer n (some c) = some (ltb (length c.keys) n, c)

unfoldable pub remove_key : Bytes → ℕ → Bool → Config → Option (Bool × Config)
remove_key key from dirty_config c =
    if leb (length c.keys) from
    then some (false, c)
    else fewer (length c.keys) (
        dirty_if (dirty_config && (not c.readonly && front_is key c.keys))
          (record c { keys = remove_from from key c.keys }))

unfoldable pub add_keys : List Bytes → Config → Option Config
add_keys [] c = some c
add_keys (k ∷ ks) c = elim (add_key k false false c) [ none ↦ none | some c' ↦ add_keys ks c' ]

abbrev pub all_32 : List Bytes → Bool
all_32 [] = true
all_32 (k ∷ ks) = (length k == 32) && all_32 ks

abbrev pub forget_count : Option (ℕ × Config) → Option Config
forget_count none = none
forget_count (some p) = some p.1

abbrev pub dirty_result : Bool → Option Config → Option Config
dirty_result b none = none
dirty_result b (some c) = dirty_if b c

unfoldable pub replace_keys : List Bytes → Bool → Config → Option Config
replace_keys [] dirty_config c =
    if empty c.keys then some c else forget_count (clear_keys dirty_config c)
replace_keys (k ∷ ks) dirty_config c =
    if not (all_32 (k ∷ ks))
    then none
    else dirty_result (dirty_config && (not c.readonly && not (front_is k c.keys)))
        (add_keys (k ∷ ks) (record c { keys = [] }))
