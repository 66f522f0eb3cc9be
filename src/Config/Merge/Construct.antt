-- ===== src/Config/Merge/Construct.antt =====
-- `_merge` with the merging constructor of config.cpp: `make_config_message` of config/base.cpp, the
-- error handler that collects what does not parse, and which hashes become the current ones.
pub mod Taken
pub mod Misplaced
pub mod Obsolete
use libbchat_util.Base.{
  ◌≡◌, refl, ℕ, zero, suc, Option, none, some, List, [], ◌∷◌, Bool, true, false, not, ◌&&◌,
  if◌then◌else◌, map,
}
use libbchat_util.Base.Order.{ℤ, pos, Bytes}
use libbchat_util.Base.Int.{◌+ℤ◌}
use libbchat_util.Config.Result.{Result, threw, ok}
use libbchat_util.Config.Message.{Message, seqno, from_configs}
use libbchat_util.Config.Merge.{Built}

-- The indices that the error handler is called with; it asserts that the first one parses.
unfoldable pub bad_indices : ℕ → List (Option Message) → List ℕ
bad_indices i [] = []
bad_indices i (none ∷ ps) = i ∷ bad_indices (suc i) ps
bad_indices i (some m ∷ ps) = bad_indices (suc i) ps

abbrev pub first_is_bad : List (Option Message) → Bool
first_is_bad [] = false
first_is_bad (none ∷ ps) = true
first_is_bad (some m ∷ ps) = false

abbrev pub is_merged : Option ℕ → Bool
is_merged none = true
is_merged (some i) = false

-- A mutable message that is not a merge counts as a new one.
abbrev pub number_of : Bool → Message → ℤ
number_of from_dirty m =
    if from_dirty && not (is_merged m.unmerged) then seqno m +ℤ pos 1 else seqno m

abbrev pub made_from : Bool → List (Option Message) → Message → Built
made_from from_dirty ps m = record {
  seqno = number_of from_dirty m;
  unmerged = m.unmerged;
  bad_confs = bad_indices 0 ps;
}

-- `asserts` says whether the program is built with its assertions; one that fails ends it.
abbrev pub built : Bool → Bool → List (Option Message) → Result Message → Option Built
built asserts from_dirty ps (threw why) = none
built asserts from_dirty ps (ok m) =
    if asserts && first_is_bad ps then none else some (made_from from_dirty ps m)

pub built_ok :
    (asserts from_dirty : Bool) (ps : List (Option Message)) (m : Message)
    → first_is_bad ps ≡ false
    → built asserts from_dirty ps (ok m) ≡ some (made_from from_dirty ps m)
built_ok true from_dirty ps m h = rw h refl
built_ok false from_dirty ps m h = refl

pub all_good : (ms : List Message) → first_is_bad (map some ms) ≡ false
all_good [] = refl
all_good (m ∷ ms) = refl

module _ (get_int : ℕ → Option ℤ) (digest : Message → Bytes) (read : Bytes → Option Message)
    (asserts verifier signer : Bool) (lag : ℤ) where
  unfoldable pub make_config_message : Bool → List Bytes → Option Built
  unfolding from_configs bad_indices
  make_config_message from_dirty confs =
      built asserts from_dirty (map read confs)
        (from_configs get_int digest verifier signer lag (map read confs))
