-- ===== src/Config/Merge/Construct/Misplaced.antt =====
-- What becomes of the hashes when messages fail to parse before the one that is taken over.
use libbchat_util.Base.{
  ℕ, zero, suc, ◌+◌, ◌≤◌, ◌≡◌, refl, sym, ap, subst, ◌∙◌, Option, none, some, List, [], ◌∷◌, ◌++◌,
  Bool, true, false, empty, if◌then◌else◌, get_elem?, arith, map, replicate,
}
use libbchat_util.Base.Order.{ℤ, pos, Bytes, same, bytes_order, int_order, pair_order}
use libbchat_util.Base.Int.{◌≤ℤ◌, ◌<ℤ◌}
use libbchat_util.Base.SortedSet.{has}
use libbchat_util.Config.Store.{state_clean, is_dirty, Config, with_hashes}
use libbchat_util.Config.Store.Cycle.{IsValid}
use libbchat_util.Config.Message.{
  Message, seqno, includes, parsed, adopt, int64_min, from_parsed, from_configs,
}
use libbchat_util.Config.Message.Int64.{HasRoom}
use libbchat_util.Config.Result.{threw, no_valid_configs}
use libbchat_util.Config.Message.Index.{second_supersedes}
use libbchat_util.Config.Merge.{
  Gathered, Built, is_bad, Merged, merge_gathered, with_old, erase_bad, mine_index, take_super,
  take_merged, take_incoming, conclude, finish_merge,
}
use libbchat_util.Config.Merge as Merge
use libbchat_util.Config.Merge.Follows.{
  take_super-some, nonempty, incoming_config, take_incoming-lem,
}
use libbchat_util.Config.Merge.Kept.{merge_gathered-old_hashes, with_old-IsValid}
use libbchat_util.Config.Merge.Construct.{
  bad_indices, make_config_message, built, made_from, built_ok,
}

-- A call that gets as far as the transition.
pub merge_gathered-built :
    (build : Bool → List Bytes → Option Built) (now : ℕ) (c : Config) (g : Gathered) (b : Built)
    → empty g.all_hashes ≡ false
    → build (is_dirty c.state) g.all_confs ≡ some b
    → (merge_gathered build now c g
        ≡ conclude c now g b (Merge.adopt b g.all_hashes (with_old b g c)))
unfolding merge_gathered
merge_gathered-built build now c g b n e = rw (n, e, merge_gathered) refl

-- The only message that parses comes last.
not_bad :
    (i n k : ℕ) (m : Message)
    → i + n ≤ k
    → is_bad k (bad_indices i (replicate n none ++ some m ∷ [])) ≡ false
unfolding bad_indices
not_bad i zero k m h = refl
not_bad i (suc n) k m h = ground (arith, not_bad (suc i) n k m)

pub adopts :
    (b : Built) (all : List (List Bytes)) (hs : List Bytes) (c : Config)
    → IsValid c
    → is_dirty c.state ≡ false
    → same b.seqno c.seqno ≡ false
    → (k : ℕ) → b.unmerged ≡ some k
    → get_elem? all k ≡ some hs
    → Merge.adopt b all c ≡ some (incoming_config b hs c)
unfolding Merge.adopt
adopts b all hs c v clean other k u at_k =
    rw (other, clean, Merge.adopt)
      (take_super-some b all c k u
        ∙ ap (λ o. take_incoming b o c) at_k
        ∙ take_incoming-lem b hs c v)

parsed_last : (n : ℕ) (m : Message) → parsed (replicate n none ++ some m ∷ []) ≡ m ∷ []
unfolding parsed
parsed_last zero m = refl
parsed_last (suc n) m = parsed_last n m

module _ (get_int : ℕ → Option ℤ) (digest : Message → Bytes) (read : Bytes → Option Message)
    (asserts verifier signer : Bool) (lag : ℤ) (now : ℕ) (own m : Message) (n : ℕ) where
  -- The config's own message, messages that do not parse, at least one, and a last one.
  abbrev pub own_bad_last : List (Option Message)
  own_bad_last = some own ∷ (replicate (suc n) none ++ some m ∷ [])

  abbrev built_last : Built
  built_last = made_from false own_bad_last (adopt (1, m))

  -- The last one includes the own one, and is not included in it.
  pub record Supersedes : Type 0 where
    pub room : HasRoom lag (seqno m)
    pub low : int64_min ≤ℤ seqno own
    pub below : seqno own ≤ℤ seqno m
    pub includes_own : includes own.key m.lagged ≡ true
    pub not_included : includes m.key own.lagged ≡ false
    pub other_key : same m.key own.key ≡ false

  make-last :
      (confs : List Bytes)
      → pos 0 <ℤ lag
      → map read confs ≡ own_bad_last
      → Supersedes
      → (make_config_message get_int digest read asserts verifier signer lag false confs
          ≡ some built_last)
  unfolding make_config_message from_configs
  make-last confs positive parse s =
      let left : parsed own_bad_last ≡ own ∷ m ∷ [] = ap (◌∷◌ own) (parsed_last (suc n) m) in
      ap (λ ps. built asserts false ps (from_configs get_int digest verifier signer lag ps)) parse
      ∙ ap
          (λ ms. built asserts false own_bad_last (
            if empty ms
            then threw no_valid_configs
            else from_parsed get_int digest verifier signer lag ms))
          left
      ∙ ap (built asserts false own_bad_last) (
          second_supersedes get_int digest verifier signer lag own m positive s.room s.low s.below
            s.includes_own s.not_included s.other_key)
      ∙ built_ok asserts false own_bad_last (adopt (1, m)) refl

  -- A config that is not dirty merges its own message, messages that do not parse, at least one, and
  -- a last one with a new number that supersedes the own one. It takes over the last one as clean,
  -- but the hashes that become the current ones are those of the first that does not parse; and
  -- those of the last that this one has not become obsolete.
  pub merge-misplaced :
      (c : Config) (g : Gathered) (bad last : List Bytes) (x : Bytes)
      → pos 0 <ℤ lag
      → IsValid c
      → is_dirty c.state ≡ false
      → map read g.all_confs ≡ own_bad_last
      → Supersedes
      → same (seqno m) c.seqno ≡ false
      → get_elem? g.all_hashes 1 ≡ some bad
      → get_elem? g.all_hashes (suc (suc n)) ≡ some last
      → has x last ≡ true
      → has x bad ≡ false
      → (r : Merged) × (merge_gathered
            (make_config_message get_int digest read asserts verifier signer lag)
            now
            c
            g
          ≡ some r)
        × (r.config.state ≡ state_clean)
        × (r.config.seqno ≡ seqno m)
        × (r.config.curr_hashes ≡ with_hashes bad [])
        × (has x r.config.old_hashes ≡ true)
  unfolding incoming_config bad_indices
  merge-misplaced c g bad last x positive v clean parse s new at_bad at_last l f =
      let build = make_config_message get_int digest read asserts verifier signer lag in
      let made =
        subst (λ dirty. build dirty g.all_confs ≡ some built_last) (sym clean)
          (make-last g.all_confs positive parse s) in
      let merged =
        merge_gathered-built build now c g built_last (nonempty g.all_hashes 1 bad at_bad) made
        ∙ ap (conclude c now g built_last) (
            adopts built_last g.all_hashes bad (with_old built_last g c)
              (with_old-IsValid built_last g c v) clean new 1 refl at_bad) in
      (
        _,
        merged,
        refl,
        refl,
        refl,
        merge_gathered-old_hashes build now g c _ merged built_last (suc (suc n)) last x v made
            at_last (ground arith) (not_bad 1 (suc n) (suc (suc n)) m (omega arith)) l
            (subst (λ o. has x (Merge.hashes_or_none o) ≡ false) (sym at_bad) f),
      )
