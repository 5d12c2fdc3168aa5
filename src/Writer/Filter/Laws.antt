-- ===== src/Writer/Filter/Laws.antt =====
-- The bundles that `ApplyWriterPolicyWithDelegations` leaves
-- (internal/plugins/aip2p/writer_policy.go).
use ai_p2p.Prelude.{
  ℕ, true, false, ◌&&◌, List, [], ◌∷◌, ◌++◌, any, keep-All, mem_of_mem-keep, mem-keep, All-mem,
  mem-append, mem-append_left, Memᴰ, Option, some, ◌≡◌, refl, arith, inl, inr, Bool-cases,
  Option-cases,
}
use ai_p2p.Text.{Text, codes, text_eq, to_lower, contains}
use ai_p2p.Text.Laws.{text_eq_iff}
use ai_p2p.Writer.Delegation.{DelegationStore}
use ai_p2p.Writer.Policy.{WriterPolicy, normalize, empty}
use ai_p2p.Writer.Filter.{
  Bundle, has_kind, allowed_hashes, answers, accepts, kept_posts, kept_answers,
  apply_writer_policy_with_delegations,
}

mem_of_contains :
    (posts : List Bundle) (info_hash : Text)
    → contains (allowed_hashes posts) info_hash ≡ true
    → (post : Bundle) × Memᴰ post posts × (to_lower post.info_hash ≡ info_hash)
unfolding contains any
mem_of_contains [] info_hash h = cc
mem_of_contains (post ∷ posts) info_hash h =
    elim (Bool-cases (text_eq (to_lower post.info_hash) info_hash)) [
      | inl same ↦ (post, Memᴰ.head refl, (text_eq_iff (to_lower post.info_hash) info_hash).0 same)
      | inr other ↦
          let (found, m, e) = mem_of_contains posts info_hash (rw other at h) in
          (found, Memᴰ.tail m, e)
    ]

-- What a reply must satisfy to answer one of the posts.
answers-reply :
    (allowed : List Text) (b : Bundle)
    → b.message.kind ≡ codes "reply"
    → answers allowed b ≡ true
    → (info_hash : Text) × (b.reply_to ≡ some info_hash)
      × (contains allowed (to_lower info_hash) ≡ true)
unfolding answers
answers-reply allowed b reply h =
    let is_reply = (text_eq_iff b.message.kind (codes "reply")).1 reply in
    elim (Option-cases b.reply_to) [
      | inl no_parent ↦ cc (rw (is_reply, no_parent) at h)
      | inr (info_hash, named) ↦ (info_hash, named, rw (is_reply, named) at h)
    ]

not-both : (b : Bundle) → b.message.kind ≡ codes "reply" → ¬ (has_kind (codes "post") b ≡ true)
unfolding text_eq
not-both b reply h = cc (rw reply at h)

module _ (parse_time : Text → Option ℕ) (clock : ℕ) (raw : WriterPolicy) (store : DelegationStore)
    (bundles : List Bundle) where
  abbrev pub kept : List Bundle
  kept = apply_writer_policy_with_delegations parse_time clock raw store bundles

  abbrev pub posts : List Bundle
  posts = kept_posts parse_time clock (normalize raw) store bundles

  kept-parts :
      empty (normalize raw) ≡ false
      → kept
        ≡ posts
          ++ kept_answers parse_time clock (normalize raw) store (allowed_hashes posts) bundles
  unfolding apply_writer_policy_with_delegations
  kept-parts h = rw h refl

  mem-posts :
      (b : Bundle)
      → Memᴰ b posts
      → Memᴰ b bundles
        × (has_kind (codes "post") b ≡ true)
        × (accepts parse_time clock (normalize raw) store b ≡ true)
  unfolding kept_posts
  mem-posts b m =
      let test : (has_kind (codes "post") b && accepts parse_time clock (normalize raw) store b)
          ≡ true =
        All-mem
          (λ b.
            (has_kind (codes "post") b && accepts parse_time clock (normalize raw) store b) ≡ true)
          _ b (keep-All _ bundles) m in
      (mem_of_mem-keep _ bundles b m, ground arith, ground arith)

  mem-answers :
      (allowed : List Text) (b : Bundle)
      → Memᴰ b (kept_answers parse_time clock (normalize raw) store allowed bundles)
      → Memᴰ b bundles
        × (accepts parse_time clock (normalize raw) store b ≡ true)
        × (answers allowed b ≡ true)
  unfolding kept_answers
  mem-answers allowed b m =
      let test : (accepts parse_time clock (normalize raw) store b && answers allowed b) ≡ true =
        All-mem
          (λ b. (accepts parse_time clock (normalize raw) store b && answers allowed b) ≡ true) _ b
          (keep-All _ bundles) m in
      (mem_of_mem-keep _ bundles b m, ground arith, ground arith)

  -- Unless the policy is empty, every bundle that is left was in the index, and the policy accepts
  -- its message.
  pub kept-accepted :
      (b : Bundle)
      → empty (normalize raw) ≡ false
      → Memᴰ b kept
      → Memᴰ b bundles × (accepts parse_time clock (normalize raw) store b ≡ true)
  kept-accepted b filters m = elim (mem-append posts _ b (rw (kept-parts filters) at m)) [
    | inl post ↦ let (listed, _, accepted) = mem-posts b post in (listed, accepted)
    | inr answer ↦
        let (listed, accepted, _) = mem-answers (allowed_hashes posts) b answer in
        (listed, accepted)
  ]

  -- Unless the policy is empty, a reply that is left answers a post that is left: the post's info
  -- hash is, up to case, the one that the reply names.
  pub kept-reply :
      (b : Bundle)
      → empty (normalize raw) ≡ false
      → b.message.kind ≡ codes "reply"
      → Memᴰ b kept
      → (post : Bundle) × (info_hash : Text) × Memᴰ post kept
        × (has_kind (codes "post") post ≡ true)
        × (b.reply_to ≡ some info_hash)
        × (to_lower post.info_hash ≡ to_lower info_hash)
  kept-reply b filters reply m = elim (mem-append posts _ b (rw (kept-parts filters) at m)) [
    | inl post ↦ let (_, is_post, _) = mem-posts b post in absurd (not-both b reply is_post)
    | inr answer ↦
        let (_, _, answering) = mem-answers (allowed_hashes posts) b answer in
        let (info_hash, named, listed) = answers-reply (allowed_hashes posts) b reply answering in
        let (post, found, same) = mem_of_contains posts (to_lower info_hash) listed in
        let (_, is_post, _) = mem-posts post found in
        (
          post,
          info_hash,
          rw (kept-parts filters) (mem-append_left posts _ post found),
          is_post,
          named,
          same,
        )
  ]

  -- A post of the index whose message the policy accepts is left.
  pub kept-post :
      (b : Bundle)
      → b.message.kind ≡ codes "post"
      → Memᴰ b bundles
      → accepts parse_time clock (normalize raw) store b ≡ true
      → Memᴰ b kept
  unfolding apply_writer_policy_with_delegations kept_posts
  kept-post b post m accepted = elim (Bool-cases (empty (normalize raw))) [
    | inl no_filter ↦ rw no_filter m
    | inr filters ↦ rw filters (
        mem-append_left _ _ b (
          mem-keep _ bundles b m
            (rw ((text_eq_iff b.message.kind (codes "post")).1 post, accepted) refl)))
  ]
