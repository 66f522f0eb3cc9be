-- ===== src/Tests/Store.antt =====
-- A config that is changed, pushed and confirmed, and its keys.
use libbchat_util.Base.{◌≡◌, ◌≢◌, refl, some, [], ◌∷◌, ◌||◌, true, false, replicate}
use libbchat_util.Base.Order.{ℤ, pos, Bytes, bytes_order, compare_bytes}
use libbchat_util.Base.SortedSet.{has}
use libbchat_util.Config.Store.{
  Config, state_clean, state_dirty, state_waiting, is_waiting, new_config, dirty, Pushed, push,
  confirm_pushed, has_key, add_key, set_state, retire, with_hashes, replace_keys,
}
use libbchat_util.Config.Store.Cycle.{IsValid, push_cycle}
use libbchat_util.Config.Store.Reachable.{Reach, Step, reachable-IsValid}
use libbchat_util.Base.Int.{◌+ℤ◌}
use libbchat_util.Config.Store.Keys.{Added, add_key_lem}
use libbchat_util.Config.Store.Replace.{Replaced, replace_keys_lem}

abbrev key_a : Bytes
key_a = replicate 32 1

abbrev key_b : Bytes
key_b = replicate 32 2

abbrev stored : Config
stored = record {
  state = state_clean;
  seqno = pos 4;
  is_mutable = false;
  readonly = false;
  curr_hashes = (b'h' ∷ []) ∷ [];
  old_hashes = (b'o' ∷ []) ∷ [];
  keys = key_a ∷ [];
  needs_dump = false;
}

stored-IsValid : IsValid stored
stored-IsValid = record { known = λ h. cc h; changeable = λ h. cc h; allowed = λ h. cc h }

push_cycle_example :
    (d : Config) × (e : Config) × (p : Pushed) × (f : Config) × (dirty stored ≡ some d)
    × (push (some ((b'm' ∷ []) ∷ [])) d ≡ some (p, e))
    × (is_waiting e.state ≡ true)
    × (e.curr_hashes ≡ [])
    × (e.old_hashes ≡ [])
    × (p.seqno ≡ pos 5)
    × (p.messages ≡ (b'm' ∷ []) ∷ [])
    × ((h : Bytes) → has h p.obsolete ≡ (has h stored.curr_hashes || has h stored.old_hashes))
    × (confirm_pushed p.seqno ((b'n' ∷ []) ∷ []) e
        ≡ record e { state = state_clean; curr_hashes = (b'n' ∷ []) ∷ []; needs_dump = true })
    × ((n : ℤ) → n ≢ p.seqno → confirm_pushed n ((b'n' ∷ []) ∷ []) e ≡ e)
    × (dirty e ≡ some f)
    × (confirm_pushed p.seqno ((b'n' ∷ []) ∷ []) f ≡ f)
unfolding ◌+ℤ◌
push_cycle_example =
    push_cycle stored ((b'm' ∷ []) ∷ []) ((b'n' ∷ []) ∷ []) stored-IsValid refl refl refl

-- A new config gets a key, with a change, is pushed, and the push is confirmed.
abbrev keyed : Config
keyed = record (new_config false) {
  state = state_dirty;
  seqno = pos 1;
  is_mutable = true;
  keys = key_a ∷ [];
  needs_dump = true;
}

abbrev waits : Config
waits = record keyed { state = state_waiting }

abbrev sent_once : Pushed
sent_once = record { seqno = pos 1; messages = (b'm' ∷ []) ∷ []; obsolete = [] }

gets_key : add_key key_a false true (new_config false) ≡ some keyed
unfolding add_key has_key dirty set_state retire with_hashes ◌+ℤ◌
gets_key = refl

is_sent : push (some ((b'm' ∷ []) ∷ [])) keyed ≡ some (sent_once, waits)
unfolding push retire with_hashes
is_sent = refl

reachable-IsValid_example : IsValid (confirm_pushed (pos 1) ((b'n' ∷ []) ∷ []) waits)
reachable-IsValid_example =
    reachable-IsValid {b = false} {c = confirm_pushed (pos 1) ((b'n' ∷ []) ∷ []) waits} (
      Reach.after
        (Reach.after
          (Reach.after Reach.start
            (Step.adds_key key_a false true (new_config false) keyed gets_key))
          (Step.pushes keyed ((b'm' ∷ []) ∷ []) sent_once waits is_sent))
        (Step.confirms waits (pos 1) ((b'n' ∷ []) ∷ [])))

no_other : has_key key_a [] ≡ false
unfolding has_key
no_other = refl

add_key_lem_example : Added key_b true stored (add_key key_b true true stored)
add_key_lem_example = add_key_lem key_b true true stored stored-IsValid (no_other, tt) refl

replace_keys_lem_example :
    Replaced key_b (key_a ∷ key_b ∷ []) true (replace_keys (key_b ∷ key_a ∷ key_b ∷ []) true stored)
unfolding compare_bytes
replace_keys_lem_example =
    replace_keys_lem key_b (key_a ∷ key_b ∷ []) true stored stored-IsValid refl
