-- ===== src/Config/Multipart/Sent.antt =====
-- A message that `push` splits is the message that `_handle_multipart` completes.
use libbchat_util.Base.{[], ◌≤◌, ◌<◌, ◌≡◌, sym, ap, subst, ◌∙◌, Option, some, List, arith, length}
use libbchat_util.Base.Order.{Bytes}
use libbchat_util.Config.Multipart.{
  Multiparts, find, no_parts, unwrap, chunks, num_parts_of, max_multipart_size,
}
use libbchat_util.Config.Multipart.Rejoin.{Delivery, AreParts, Completes, take_part-Completes}
use libbchat_util.Config.Multipart.Split.{chunks_lem}

module _ (hash : Bytes → Bytes) (decompress : Bytes → Option Bytes) where
  -- For a message that is not empty, is not longer than the limit on multipart messages and unwraps
  -- to a body, when the parts that `push` makes of it come in any order, each once, to a store that
  -- has nothing of its hash, then each but the last is accepted and completes nothing, and the last
  -- one completes the message with that body.
  pub take_part-chunks :
      (msg body : Bytes) (ds : List Delivery) (m : Multiparts)
      → length msg ≤ max_multipart_size
      → unwrap hash decompress msg ≡ some body
      → find (hash msg) m ≡ no_parts
      → AreParts (hash msg) (chunks (length msg) msg) ds
      → length ds ≡ num_parts_of msg
      → 0 < length ds
      → Completes hash decompress (num_parts_of msg) (hash msg) body [] ds m
  take_part-chunks msg body ds m l u z a n k =
      let (j, fits, count, small) = chunks_lem (length msg) msg (omega arith) l in
      subst (λ x. Completes hash decompress x (hash msg) body [] ds m) count
        (take_part-Completes hash decompress (hash msg) body (chunks (length msg) msg) ds m
          (ap hash j) (ap (unwrap hash decompress) j ∙ u) z a (n ∙ sym count) k)
