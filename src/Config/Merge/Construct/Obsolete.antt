-- ===== src/Config/Merge/Construct/Obsolete.antt =====
-- Which hashes become obsolete when all the messages parse.
use libbchat_util.Base.{
  ℕ, suc, ◌≡◌, refl, ap, ◌∙◌, Option, some, List, [], ◌∷◌, Bool, true, false, get_elem?, map, All,
}
use libbchat_util.Base.Order.{ℤ, Bytes, bytes_order}
use libbchat_util.Base.Int.{◌≤ℤ◌, ◌<ℤ◌}
use libbchat_util.Base.SortedSet.{has}
use libbchat_util.Config.Bt.{BtList}
use libbchat_util.Config.Result.{ok}
use libbchat_util.Config.Multipart.{Multiparts}
use libbchat_util.Config.Store.{is_dirty, Config}
use libbchat_util.Config.Store.Cycle.{IsValid}
use libbchat_util.Config.Message.{Message, seqno, int64_min, int64_max, from_configs}
use libbchat_util.Config.Message.Index.{Outcome}
use libbchat_util.Config.Merge.{
  Incoming, Built, Merged, super_hashes, is_super, is_bad, gather, merge,
}
use libbchat_util.Config.Merge.Kept.{merge-old_hashes}
use libbchat_util.Config.Merge.Construct.{
  bad_indices, make_config_message, built, made_from, built_ok, all_good,
}
use libbchat_util.Config.Merge.Construct.Taken.{outcome}

none_bad : (i k : ℕ) (ms : List Message) → is_bad k (bad_indices i (map some ms)) ≡ false
unfolding bad_indices
none_bad i k [] = refl
none_bad i k (m ∷ ms) = none_bad (suc i) k ms

module _ (decrypt : Bytes → Bytes → Option Bytes) (hash : Bytes → Bytes)
    (decompress : Bytes → Option Bytes) (bt_list : Bytes → BtList) (get_int : ℕ → Option ℤ)
    (digest : Message → Bytes) (read : Bytes → Option Message) (asserts verifier signer : Bool)
    (lag : ℤ) (now : ℕ) (mine : Bytes) (configs : List Incoming) where
  abbrev pub build : Bool → List Bytes → Option Built
  build = make_config_message get_int digest read asserts verifier signer lag

  -- When a merge with the constructor of config messages returns, and all the messages parse, with
  -- 64-bit sequence numbers below the greatest such number: the message that was constructed is one
  -- of them, taken over with its index, or a merged one without an index; and each hash of a message
  -- at another index, or of any message if there is none, that is not one of the message taken over,
  -- is among the obsolete hashes.
  pub merge-obsolete :
      (c : Config) (p : Multiparts) (r : Merged) (ms : List Message) (m : Message) (k : ℕ)
      (hs : List Bytes) (x : Bytes)
      → IsValid c
      → merge decrypt hash decompress bt_list build now mine configs c p ≡ some r
      → map read (gather decrypt hash decompress bt_list now mine configs c p).all_confs
        ≡ map some ms
      → All (λ n. (int64_min ≤ℤ seqno n) × (seqno n <ℤ int64_max)) ms
      → from_configs get_int digest verifier signer lag (map some ms) ≡ ok m
      → get_elem? (gather decrypt hash decompress bt_list now mine configs c p).all_hashes k
        ≡ some hs
      → is_super k m.unmerged ≡ false
      → has x hs ≡ true
      → has x (
          super_hashes m.unmerged
            (gather decrypt hash decompress bt_list now mine configs c p).all_hashes)
        ≡ false
      → Outcome get_int digest ms m × (has x r.config.old_hashes ≡ true)
  unfolding make_config_message
  merge-obsolete c p r ms m k hs x v h parse below made at_k not_super in_hs other =
      let g = gather decrypt hash decompress bt_list now mine configs c p in
      let b = made_from (is_dirty c.state) (map some ms) m in
      let builds =
        ap
          (λ ps.
            built asserts (is_dirty c.state) ps
              (from_configs get_int digest verifier signer lag ps))
          parse
        ∙ ap (built asserts (is_dirty c.state) (map some ms)) made
        ∙ built_ok asserts (is_dirty c.state) (map some ms) m (all_good ms) in
      (
        outcome get_int digest verifier signer lag ms below m made,
        merge-old_hashes decrypt hash decompress bt_list build now mine configs c p r b k hs x v h
            builds at_k not_super (none_bad 0 k ms) in_hs other,
      )
