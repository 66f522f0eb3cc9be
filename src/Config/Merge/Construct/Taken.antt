-- ===== src/Config/Merge/Construct/Taken.antt =====
-- What a config becomes when all the messages parse: the message taken over with its own hashes, or
-- a merged message that comes after all of them.
use libbchat_util.Base.{
  ℕ, ◌≡◌, ◌⊎◌, inl, inr, refl, sym, ap, subst, ◌∙◌, Option, none, some, List, [], ◌∷◌, Bool, false,
  empty, get_elem?, arith, map, Bool-cases, All,
}
use libbchat_util.Base.Order.{ℤ, Bytes, same, int_order, compare_ℤ_refl}
use libbchat_util.Base.Int.{◌<ℤ◌, ◌≤ℤ◌}
use libbchat_util.Config.Result.{Result, ok, threw}
use libbchat_util.Config.Store.{state_clean, state_dirty, is_dirty, Config, with_hashes}
use libbchat_util.Config.Store.Cycle.{IsValid}
use libbchat_util.Config.Message.{
  Message, seqno, int64_min, int64_max, from_configs, from_parsed, parsed,
}
use libbchat_util.Config.Message.Index.{Outcome, from_parsed-Outcome}
use libbchat_util.Config.Merge.{
  Gathered, Built, Merged, merge_gathered, with_old, take_super, take_merged, take_incoming,
  conclude, finish_merge,
}
use libbchat_util.Config.Merge as Merge
use libbchat_util.Config.Merge.Follows.{
  take_super-some, take_super-none, incoming_config, take_incoming-lem, merged_config,
  take_merged-allowed, take_merged-refused,
}
use libbchat_util.Config.Merge.Kept.{with_old-IsValid}
use libbchat_util.Config.Merge.Construct.{make_config_message, built, made_from, built_ok, all_good}

pub parsed-some : (ms : List Message) → parsed (map some ms) ≡ ms
unfolding parsed
parsed-some [] = refl
parsed-some (m ∷ ms) = ap (◌∷◌ m) (parsed-some ms)

-- A message with its hashes was taken over as clean.
abbrev pub TookOver : List Message → List (List Bytes) → Config → Type 0
TookOver ms all d =
    (i : ℕ) × (m : Message) × (hs : List Bytes) × (get_elem? ms i ≡ some m)
    × (get_elem? all i ≡ some hs)
    × (d.state ≡ state_clean)
    × (d.seqno ≡ seqno m)
    × (d.curr_hashes ≡ with_hashes hs [])

-- A merged message waits to be pushed, under no hash yet, with a number above all of them.
abbrev pub Joined : List Message → Config → Type 0
Joined ms d =
    (t : ℤ) × (d.state ≡ state_dirty)
    × (d.seqno ≡ t)
    × (d.curr_hashes ≡ [])
    × All (λ m. seqno m <ℤ t) ms

abbrev pub Taken : List Message → List (List Bytes) → Config → Type 0
Taken ms all d = TookOver ms all d ⊎ Joined ms d

some_config : {a b : Config} → some a ≡ some b → a ≡ b
some_config h = cc h

Taken-incoming :
    (ms : List Message) (all : List (List Bytes)) (b : Built) (o : Option (List Bytes))
    (c d : Config) (i : ℕ) (m : Message)
    → IsValid c
    → get_elem? ms i ≡ some m
    → get_elem? all i ≡ o
    → b.seqno ≡ seqno m
    → take_incoming b o c ≡ some d
    → Taken ms all d
unfolding incoming_config
Taken-incoming ms all b none c d i m v at_i in_all e h = cc h
Taken-incoming ms all b (some hs) c d i m v at_i in_all e h =
    subst (Taken ms all) (some_config (sym (take_incoming-lem b hs c v) ∙ h))
      (inl (i, m, hs, at_i, in_all, refl, e, refl))

Taken-merged :
    (ms : List Message) (all : List (List Bytes)) (b : Built) (c d : Config) (t : ℤ)
    → IsValid c
    → All (λ m. seqno m <ℤ t) ms
    → b.seqno ≡ t
    → take_merged b c ≡ some d
    → Taken ms all d
unfolding merged_config
Taken-merged ms all b c d t v above e h = elim (Bool-cases c.readonly) [
  | inl r ↦ cc (h, take_merged-refused b c r)
  | inr r ↦
      subst (Taken ms all) (some_config (sym (take_merged-allowed b c v r) ∙ h))
        (inr (t, refl, e, refl, above))
]

some_merged : {a b : Merged} → some a ≡ some b → a ≡ b
some_merged h = cc h

not_self : (n : ℤ) → ¬ (same n n ≡ false)
not_self n h = ground (arith, compare_ℤ_refl n)

-- What the transition left is what the call returns.
concluded :
    (ms : List Message) (c : Config) (now : ℕ) (g : Gathered) (b : Built) (o : Option Config)
    (r : Merged)
    → ((d : Config) → o ≡ some d → same d.seqno c.seqno ≡ false → Taken ms g.all_hashes d)
    → conclude c now g b o ≡ some r
    → same r.config.seqno c.seqno ≡ false
    → Taken ms g.all_hashes r.config
concluded ms c now g b none r k h new = cc h
concluded ms c now g b (some d) r k h new =
    let whole = some_merged h in
    let old = subst (λ x. same x.config.seqno c.seqno ≡ false) (sym whole) new in
    subst (λ x. Taken ms g.all_hashes x.config) whole
      (elim (k d refl old) [ inl t ↦ inl t | inr j ↦ inr j ])

module _ (ms : List Message) (c : Config) (g : Gathered) (b : Built) (v : IsValid c)
    (clean : is_dirty c.state ≡ false) where
  abbrev base : Config
  base = with_old b g c

  Taken-adopt :
      ((d : Config) → take_super b g.all_hashes base ≡ some d → Taken ms g.all_hashes d)
      → (d : Config) → Merge.adopt b g.all_hashes base ≡ some d
      → same d.seqno c.seqno ≡ false
      → Taken ms g.all_hashes d
  unfolding Merge.adopt
  Taken-adopt k d h new = elim (Bool-cases (same b.seqno c.seqno)) [
    | inl e ↦ absurd (
        not_self c.seqno (
          subst (λ x. same x.seqno c.seqno ≡ false) (sym (some_config (rw (e, Merge.adopt) at h)))
            new))
    | inr e ↦ k d (rw (e, clean, Merge.adopt) at h)
  ]

  Taken-take_super :
      (get_int : ℕ → Option ℤ) (digest : Message → Bytes) (m : Message)
      → b.seqno ≡ seqno m
      → b.unmerged ≡ m.unmerged
      → Outcome get_int digest ms m
      → (d : Config) → take_super b g.all_hashes base ≡ some d
      → Taken ms g.all_hashes d
  Taken-take_super get_int digest m e u (inl (i, n, at_i, made)) d h =
      Taken-incoming ms g.all_hashes b (get_elem? g.all_hashes i) base d i n
        (with_old-IsValid b g c v) at_i refl (e ∙ ap (λ x. seqno x) made)
        (sym (take_super-some b g.all_hashes base i (u ∙ ap (λ x. x.unmerged) made)) ∙ h)
  Taken-take_super get_int digest m e u (inr (none_left, above)) d h =
      Taken-merged ms g.all_hashes b base d (seqno m) (with_old-IsValid b g c v) above e
        (sym (take_super-none b g.all_hashes base (u ∙ none_left)) ∙ h)

module _ (get_int : ℕ → Option ℤ) (digest : Message → Bytes) (verifier signer : Bool) (lag : ℤ)
    (ms : List Message)
    (below : All (λ n. (int64_min ≤ℤ seqno n) × (seqno n <ℤ int64_max)) ms) where
  pub outcome :
      (m : Message)
      → from_configs get_int digest verifier signer lag (map some ms) ≡ ok m
      → Outcome get_int digest ms m
  unfolding from_configs
  outcome m h = elim (Bool-cases (empty (parsed (map some ms)))) [
    | inl e ↦ cc (rw (e, from_configs) at h)
    | inr e ↦ from_parsed-Outcome get_int digest verifier signer lag ms m below (
        subst (λ l. from_parsed get_int digest verifier signer lag l ≡ ok m) (parsed-some ms)
          (rw (e, from_configs) at h))
  ]

module _ (get_int : ℕ → Option ℤ) (digest : Message → Bytes) (read : Bytes → Option Message)
    (asserts verifier signer : Bool) (lag : ℤ) (now : ℕ) (c : Config) (g : Gathered) (r : Merged)
    (ms : List Message) (v : IsValid c) (clean : is_dirty c.state ≡ false)
    (below : All (λ n. (int64_min ≤ℤ seqno n) × (seqno n <ℤ int64_max)) ms)
    (parse : map read g.all_confs ≡ map some ms) where
  finished :
      (o : Result Message)
      → from_configs get_int digest verifier signer lag (map some ms) ≡ o
      → finish_merge c now g (built asserts false (map some ms) o) ≡ some r
      → same r.config.seqno c.seqno ≡ false
      → Taken ms g.all_hashes r.config
  finished (threw why) made h new = cc h
  finished (ok m) made h new =
      let b = made_from false (map some ms) m in
      concluded ms c now g b (Merge.adopt b g.all_hashes (with_old b g c)) r
        (Taken-adopt ms c g b v clean (
          Taken-take_super ms c g b v clean get_int digest m refl refl
            (outcome get_int digest verifier signer lag ms below m made)))
        (subst (λ o. finish_merge c now g o ≡ some r)
          (built_ok asserts false (map some ms) m (all_good ms)) h)
        new

  -- When a config that is not dirty merges messages that all parse, with 64-bit sequence numbers
  -- below the greatest such number, and gets a new number, it either took one of them over, as clean, with that message's number and hashes as its current ones, or
  -- it is a merged message that is dirty and has no hash yet, with a number above all of theirs.
  pub merge-Taken :
      merge_gathered (make_config_message get_int digest read asserts verifier signer lag) now c g
        ≡ some r
      → same r.config.seqno c.seqno ≡ false
      → Taken ms g.all_hashes r.config
  unfolding merge_gathered make_config_message
  merge-Taken h new = elim (Bool-cases (empty g.all_hashes)) [
    | inl e ↦ absurd (
        not_self c.seqno (
          subst (λ x. same x.config.seqno c.seqno ≡ false)
            (sym (some_merged (rw (e, merge_gathered) at h))) new))
    | inr e ↦
        finished (from_configs get_int digest verifier signer lag (map some ms)) refl
          (subst
            (λ ps.
              finish_merge c now g
                (built asserts false ps (from_configs get_int digest verifier signer lag ps))
              ≡ some r)
            parse
            (subst
              (λ dirty.
                finish_merge c now g (
                  make_config_message get_int digest read asserts verifier signer lag dirty
                    g.all_confs)
                ≡ some r)
              clean (rw (e, merge_gathered) at h)))
          new
  ]
