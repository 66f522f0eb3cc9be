-- ===== src/Config/Store/Reachable.antt =====
-- The states that the operations of a config reach.
use libbchat_util.Base.{
  ℕ, ◌≡◌, refl, subst, Option, none, some, List, [], ◌∷◌, Bool, true, false, not, ◌&&◌, ◌||◌, ◌==◌,
  leb, ltb, if◌then◌else◌, empty, length,
}
use libbchat_util.Base.Order.{ℤ, Bytes}
use libbchat_util.Config.Store.{
  Config, new_config, dirty, Pushed, push, confirm_pushed, take_old_hashes, has_key, front_is,
  keys_with, remove_from, dirty_if, add_key, with_count, clear_keys, fewer, remove_key, add_keys,
  all_32, forget_count, dirty_result, replace_keys,
}
use libbchat_util.Config.Store.Cycle.{
  IsValid, dirty-IsValid, push-IsValid, confirm_pushed-IsValid, take_old_hashes-IsValid,
}
use libbchat_util.Config.Store.Keys.{with_keys-IsValid}

-- A result, where there is one, is valid.
abbrev AllValid : Option Config → Type 0
AllValid o = (d : Config) → o ≡ some d → IsValid d

some_inj : {a b : Config} → some a ≡ some b → a ≡ b
some_inj h = cc h

none-AllValid : AllValid none
none-AllValid d h = cc h

some-AllValid : (c : Config) → IsValid c → AllValid (some c)
some-AllValid c v d h = subst IsValid (some_inj h) v

if-AllValid :
    (b : Bool) (x y : Option Config) → AllValid x → AllValid y → AllValid (if b then x else y)
if-AllValid true x y p q = p
if-AllValid false x y p q = q

dirty_if-AllValid : (b : Bool) (c : Config) → IsValid c → AllValid (dirty_if b c)
dirty_if-AllValid true c v d h = dirty-IsValid c d v h
dirty_if-AllValid false c v d h = subst IsValid (some_inj h) v

add_key-AllValid :
    (key : Bytes) (high dirty_config : Bool) (c : Config)
    → IsValid c
    → AllValid (add_key key high dirty_config c)
unfolding add_key
add_key-AllValid key high dirty_config c v =
    let added =
      dirty_if
        (dirty_config && (not c.readonly && (length (keys_with key high c.keys) == 1 || high)))
        (record c { keys = keys_with key high c.keys }) in
    let found = front_is key c.keys || (not high && has_key key c.keys) in
    if-AllValid (not (length key == 32)) none (if found then some c else added) none-AllValid (
      if-AllValid found (some c) added (some-AllValid c v) (
        dirty_if-AllValid
          (dirty_config && (not c.readonly && (length (keys_with key high c.keys) == 1 || high)))
          (record c { keys = keys_with key high c.keys })
          (with_keys-IsValid c (keys_with key high c.keys) v)))

then-AllValid :
    (o : Option Config) (k : Config → Option Config)
    → AllValid o
    → ((c : Config) → IsValid c → AllValid (k c))
    → AllValid (elim o [ none ↦ none | some c ↦ k c ])
then-AllValid none k a b = none-AllValid
then-AllValid (some c) k a b = b c (a c refl)

add_keys-AllValid : (ks : List Bytes) (c : Config) → IsValid c → AllValid (add_keys ks c)
unfolding add_keys
add_keys-AllValid [] c v = some-AllValid c v
add_keys-AllValid (k ∷ ks) c v =
    then-AllValid (add_key k false false c) (λ c'. add_keys ks c')
      (add_key-AllValid k false false c v) (λ c' v'. add_keys-AllValid ks c' v')

counted-AllValid :
    (n : ℕ) (o : Option Config) → AllValid o → AllValid (forget_count (with_count n o))
counted-AllValid n none a = none-AllValid
counted-AllValid n (some c) a = a

clear_keys-AllValid :
    (dirty_config : Bool) (c : Config)
    → IsValid c
    → AllValid (forget_count (clear_keys dirty_config c))
unfolding clear_keys
clear_keys-AllValid dirty_config c v =
    let asked = dirty_config && (not c.readonly && ltb 0 (length c.keys)) in
    counted-AllValid (length c.keys) (dirty_if asked (record c { keys = [] }))
      (dirty_if-AllValid asked (record c { keys = [] }) (with_keys-IsValid c [] v))

-- The config that `remove_key` leaves.
abbrev pub forget_removed : Option (Bool × Config) → Option Config
forget_removed none = none
forget_removed (some p) = some p.1

fewer-AllValid : (n : ℕ) (o : Option Config) → AllValid o → AllValid (forget_removed (fewer n o))
fewer-AllValid n none a = none-AllValid
fewer-AllValid n (some c) a = a

removed-AllValid :
    (b : Bool) (c : Config) (o : Option (Bool × Config))
    → IsValid c
    → AllValid (forget_removed o)
    → AllValid (forget_removed (if b then some (false, c) else o))
removed-AllValid true c o v a = some-AllValid c v
removed-AllValid false c o v a = a

remove_key-AllValid :
    (key : Bytes) (from : ℕ) (dirty_config : Bool) (c : Config)
    → IsValid c
    → AllValid (forget_removed (remove_key key from dirty_config c))
unfolding remove_key
remove_key-AllValid key from dirty_config c v =
    let asked = dirty_config && (not c.readonly && front_is key c.keys) in
    let left = record c { keys = remove_from from key c.keys } in
    removed-AllValid (leb (length c.keys) from) c (fewer (length c.keys) (dirty_if asked left)) v (
      fewer-AllValid (length c.keys) (dirty_if asked left)
        (dirty_if-AllValid asked left (with_keys-IsValid c (remove_from from key c.keys) v)))

dirty_result-AllValid : (b : Bool) (o : Option Config) → AllValid o → AllValid (dirty_result b o)
dirty_result-AllValid b none a = none-AllValid
dirty_result-AllValid b (some c) a = dirty_if-AllValid b c (a c refl)

replace_keys-AllValid :
    (ks : List Bytes) (dirty_config : Bool) (c : Config)
    → IsValid c
    → AllValid (replace_keys ks dirty_config c)
unfolding replace_keys
replace_keys-AllValid [] dirty_config c v =
    if-AllValid (empty c.keys) (some c) (forget_count (clear_keys dirty_config c))
      (some-AllValid c v) (clear_keys-AllValid dirty_config c v)
replace_keys-AllValid (k ∷ ks) dirty_config c v =
    let asked = dirty_config && (not c.readonly && not (front_is k c.keys)) in
    let added = add_keys (k ∷ ks) (record c { keys = [] }) in
    if-AllValid (not (all_32 (k ∷ ks))) none (dirty_result asked added) none-AllValid (
      dirty_result-AllValid asked added
        (add_keys-AllValid (k ∷ ks) (record c { keys = [] }) (with_keys-IsValid c [] v)))

-- The operations on a config that do not throw, and what they reach.
pub data Step : Config → Config → Type 0 where
  changes : (c d : Config) → dirty c ≡ some d → Step c d
  pushes :
      (c : Config) (ms : List Bytes) (p : Pushed) (d : Config)
      → push (some ms) c ≡ some (p, d)
      → Step c d
  confirms : (c : Config) (seqno : ℤ) (hashes : List Bytes) → Step c (confirm_pushed seqno hashes c)
  takes_old : (c : Config) → Step c (take_old_hashes c).1
  adds_key :
      (key : Bytes) (high dirty_config : Bool) (c d : Config)
      → add_key key high dirty_config c ≡ some d
      → Step c d
  clears_keys :
      (dirty_config : Bool) (c d : Config)
      → forget_count (clear_keys dirty_config c) ≡ some d
      → Step c d
  removes_key :
      (key : Bytes) (from : ℕ) (dirty_config : Bool) (c d : Config)
      → forget_removed (remove_key key from dirty_config c) ≡ some d
      → Step c d
  replaces_keys :
      (ks : List Bytes) (dirty_config : Bool) (c d : Config)
      → replace_keys ks dirty_config c ≡ some d
      → Step c d

pub data Reach (c : Config) : Config → Type 0 where
  start : Reach c c
  after : {d e : Config} → Reach c d → Step d e → Reach c e

Step-IsValid : {c d : Config} → Step c d → IsValid c → IsValid d
Step-IsValid (changes c d h) v = dirty-IsValid c d v h
Step-IsValid (pushes c ms p d h) v = push-IsValid c ms p d h v
Step-IsValid (confirms c seqno hashes) v = confirm_pushed-IsValid c seqno hashes v
Step-IsValid (takes_old c) v = take_old_hashes-IsValid c v
Step-IsValid (adds_key key high dirty_config c d h) v =
    add_key-AllValid key high dirty_config c v d h
Step-IsValid (clears_keys dirty_config c d h) v = clear_keys-AllValid dirty_config c v d h
Step-IsValid (removes_key key from dirty_config c d h) v =
    remove_key-AllValid key from dirty_config c v d h
Step-IsValid (replaces_keys ks dirty_config c d h) v = replace_keys-AllValid ks dirty_config c v d h

new_config-IsValid : (b : Bool) → IsValid (new_config b)
new_config-IsValid b = record { known = λ _. refl; changeable = λ h. cc h; allowed = λ h. cc h }

-- In every config that changes, pushes, confirmations, takings of the old hashes and changes of the
-- keys reach from a new one, only a clean config knows hashes of stored messages, a dirty one has a
-- message that can be changed, and a read-only one is not dirty.
pub reachable-IsValid : {b : Bool} {c : Config} → Reach (new_config b) c → IsValid c
reachable-IsValid {b = b} start = new_config-IsValid b
reachable-IsValid (after r s) = Step-IsValid s (reachable-IsValid r)
