-- ===== src/Config/Multipart/Sound.antt =====
-- What `_handle_multipart` may complete, whatever comes.
use libbchat_util.Base.{
  ℕ, ◌≡◌, refl, ap, subst, sym, Option, none, some, List, true, false, arith, inl, inr, not, ◌&&◌,
  ◌==◌, empty, length, map, Bool-cases, Option-cases,
}
use libbchat_util.Base.Order.{Bytes, same, bytes_order}
use libbchat_util.Config.Bt.{BtList}
use libbchat_util.Config.Multipart.{
  PartialMessage, PartialMessages, Multiparts, Part, Handled, find, store, place, placed, with_part,
  complete, finish, unwrap, answer, recombine, take_part, parse_part, handle_multipart,
}
use libbchat_util.Config.Multipart.Parts.{find-store}

module _ (hash : Bytes → Bytes) (decompress : Bytes → Option Bytes) where
  -- The part that comes under an id, put in its place among those that the store has.
  abbrev pub placed_in : Bytes → Part → Multiparts → Option (List PartialMessage)
  placed_in msg_id part m =
      place (record { index = part.index; message_id = msg_id; data_ = part.data_ })
        (find part.final_hash m).parts

  -- Where a completed message comes from.
  pub record Complete (msg_id : Bytes) (part : Part) (before : Multiparts) (ids : List Bytes)
      (body : Bytes) (after : Multiparts) : Type 0 where
    pub parts : List PartialMessage
    pub placed_parts : placed_in msg_id part before ≡ some parts
    pub count : length parts ≡ part.num_parts
    pub hashed : hash (recombine parts) ≡ part.final_hash
    pub unwrapped : unwrap hash decompress (recombine parts) ≡ some body
    pub ids_of : ids ≡ map (λ q. q.message_id) parts
    pub finished : (find part.final_hash after).done ≡ true

  eq_of_same : (a b : Bytes) → same a b ≡ true → a ≡ b
  eq_of_same a b h = ground (arith, bytes_order.eq_of_cmp a b)

  -- Whatever the result completes is complete.
  abbrev pub Sound : Bytes → Part → Multiparts → Handled → Type 0
  Sound msg_id part m r =
      (ids : List Bytes) (body : Bytes)
      → r.completed ≡ some (ids, body)
      → Complete msg_id part m ids body r.multiparts

  answer-Sound :
      (msg_id : Bytes) (part : Part) (now : ℕ) (p : PartialMessages) (m : Multiparts)
      (o : Option Bytes)
      → placed_in msg_id part m ≡ some p.parts
      → length p.parts ≡ part.num_parts
      → hash (recombine p.parts) ≡ part.final_hash
      → unwrap hash decompress (recombine p.parts) ≡ o
      → Sound msg_id part m (
          answer hash decompress
            (map (λ q. q.message_id) p.parts)
            o
            (store part.final_hash (finish now p) m))
  answer-Sound msg_id part now p m none q n e u = λ ids body h. cc h
  answer-Sound msg_id part now p m (some bs) q n e u = λ ids body h. record {
    parts = p.parts;
    placed_parts = q;
    count = n;
    hashed = e;
    unwrapped = cc (u, h);
    ids_of = cc h;
    finished = ap (λ x. x.done) (find-store part.final_hash (finish now p) m);
  }

  complete-Sound :
      (msg_id : Bytes) (part : Part) (now : ℕ) (p : PartialMessages) (m : Multiparts)
      → placed_in msg_id part m ≡ some p.parts
      → length p.parts ≡ part.num_parts
      → Sound msg_id part m (complete hash decompress now part.final_hash p m)
  unfolding complete
  complete-Sound msg_id part now p m q n =
      elim (Bool-cases (same (hash (recombine p.parts)) part.final_hash)) [
        | inl e ↦
            rw (e, complete)
              (answer-Sound msg_id part now p m (unwrap hash decompress (recombine p.parts)) q n
                (eq_of_same (hash (recombine p.parts)) part.final_hash e) refl)
        | inr e ↦ rw (e, complete) (λ ids body h. cc h)
      ]

  with_part-Sound :
      (msg_id : Bytes) (part : Part) (now : ℕ) (p : PartialMessages) (m : Multiparts)
      → placed_in msg_id part m ≡ some p.parts
      → p.size ≡ part.num_parts
      → Sound msg_id part m (with_part hash decompress now part.final_hash p m)
  with_part-Sound msg_id part now p m q n = elim (Bool-cases (length p.parts == p.size)) [
    | inl e ↦ rw e (complete-Sound msg_id part now p m q (counted n e))
    | inr e ↦ rw e (λ ids body h. cc h)
  ]
    where
      counted :
          p.size ≡ part.num_parts
          → (length p.parts == p.size) ≡ true
          → length p.parts ≡ part.num_parts
      counted n e = ground arith

  placed-Sound :
      (msg_id : Bytes) (part : Part) (now : ℕ) (p : PartialMessages)
      (o : Option (List PartialMessage)) (m : Multiparts)
      → placed_in msg_id part m ≡ o
      → p.size ≡ part.num_parts
      → Sound msg_id part m (placed hash decompress now part.final_hash p o m)
  placed-Sound msg_id part now p none m q n = λ ids body h. cc h
  placed-Sound msg_id part now p (some ps) m q n =
      with_part-Sound msg_id part now (record p { parts = ps }) m q n

  take_part-Sound :
      (part : Part) (now : ℕ) (msg_id : Bytes) (m : Multiparts)
      → Sound msg_id part m (take_part hash decompress now msg_id part m)
  unfolding take_part
  take_part-Sound part now msg_id m = elim (Bool-cases (find part.final_hash m).done) [
    | inl e ↦ rw (e, take_part) (λ ids body h. cc h)
    | inr e ↦
        elim (Bool-cases (
          not (empty (find part.final_hash m).parts)
          && not (part.num_parts == (find part.final_hash m).size))) [
            | inl f ↦ rw (e, f, take_part) (λ ids body h. cc h)
            | inr f ↦
                rw (e, f, take_part)
                  (placed-Sound msg_id part now
                    (record (find part.final_hash m) { done = false; size = part.num_parts })
                    (place (record { index = part.index; message_id = msg_id; data_ = part.data_ })
                      (find part.final_hash m).parts)
                    m refl refl)
          ]
  ]

  not_completed :
      (now : ℕ) (msg_id : Bytes) (message_size : ℕ) (elements : BtList) (m : Multiparts)
      (ids : List Bytes) (body : Bytes)
      → parse_part message_size elements ≡ none
      → ¬ (
          (handle_multipart hash decompress now msg_id message_size elements m).completed
          ≡ some (ids, body))
  unfolding handle_multipart
  not_completed now msg_id message_size elements m ids body e = rw (e, handle_multipart) (λ h. cc h)

  checked :
      (now : ℕ) (msg_id : Bytes) (message_size : ℕ) (elements : BtList) (m : Multiparts)
      (part : Part)
      → parse_part message_size elements ≡ some part
      → handle_multipart hash decompress now msg_id message_size elements m
        ≡ take_part hash decompress now msg_id part m
  unfolding handle_multipart
  checked now msg_id message_size elements m part e = rw (e, handle_multipart) refl

  -- Whatever message is handled and whatever the store holds, if a set is completed, then the
  -- message passed the checks; the parts are those that the store has under its hash, with the
  -- message's own under its id in its place; they are as many as it says, and their joined data has
  -- that hash and unwraps to the text; the ids are those of these parts, in order; and the set is
  -- marked as done.
  pub handle_multipart_sound :
      (now : ℕ) (msg_id : Bytes) (message_size : ℕ) (elements : BtList) (m : Multiparts)
      (ids : List Bytes) (body : Bytes)
      → (handle_multipart hash decompress now msg_id message_size elements m).completed
        ≡ some (ids, body)
      → (part : Part) × (parse_part message_size elements ≡ some part)
        × Complete msg_id part m ids body
            ((handle_multipart hash decompress now msg_id message_size elements m).multiparts)
  handle_multipart_sound now msg_id message_size elements m ids body h =
      elim (Option-cases (parse_part message_size elements)) [
        | inl e ↦ absurd (not_completed now msg_id message_size elements m ids body e h)
        | inr (part, e) ↦ (
          part,
          e,
          subst (Sound msg_id part m) (sym (checked now msg_id message_size elements m part e))
              (take_part-Sound part now msg_id m) ids body h,
        )
      ]

  -- A message that passes the checks and whose set is done is accepted, completes nothing, and
  -- changes nothing.
  pub handle_multipart-done :
      (now : ℕ) (msg_id : Bytes) (message_size : ℕ) (elements : BtList) (m : Multiparts)
      (part : Part)
      → parse_part message_size elements ≡ some part
      → (find part.final_hash m).done ≡ true
      → handle_multipart hash decompress now msg_id message_size elements m
        ≡ record { accepted = true; completed = none; multiparts = m; needs_dump = false }
  unfolding handle_multipart take_part
  handle_multipart-done now msg_id message_size elements m part e d =
      rw (e, handle_multipart, d, take_part) refl
