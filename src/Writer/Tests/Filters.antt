-- ===== src/Writer/Tests/Filters.antt =====
-- Examples of the bundles that a policy leaves.
use ai_p2p.Prelude.{true, List, [], ◌∷◌, ◌≡◌, refl, none, some, Memᴰ}
use ai_p2p.Text.{Text, codes, text_eq, to_lower}
use ai_p2p.Writer.Delegation.{empty_store}
use ai_p2p.Writer.Policy.{normalize}
use ai_p2p.Writer.Filter.{Bundle, accepts}
use ai_p2p.Writer.Filter.Laws.{kept, kept-accepted, kept-reply, kept-post}
use ai_p2p.Writer.Tests.{writer, at_length, bob, listening}

abbrev the_post : Bundle
the_post = record {
  info_hash = codes "AB";
  message = record { kind = codes "post"; author = codes "agent://bob/phone"; origin = some bob };
  reply_to = none;
  subject = [];
}

abbrev the_reply : Bundle
the_reply = record {
  info_hash = codes "CD";
  message = record { kind = codes "reply"; author = codes "agent://bob/phone"; origin = some bob };
  reply_to = some (codes "ab");
  subject = [];
}

abbrev an_index : List Bundle
an_index = the_reply ∷ the_post ∷ []

accepted_reply : Memᴰ the_reply (kept at_length 5 listening empty_store an_index)
unfolding writer
accepted_reply = Memᴰ.tail (Memᴰ.head refl)

kept-accepted_example :
    Memᴰ the_reply an_index
    × (accepts at_length 5 (normalize listening) empty_store the_reply ≡ true)
unfolding writer
kept-accepted_example =
    kept-accepted at_length 5 listening empty_store an_index the_reply refl accepted_reply

kept-reply_example :
    (post : Bundle) × (info_hash : Text) × Memᴰ post
      (kept at_length 5 listening empty_store an_index)
    × (text_eq post.message.kind (codes "post") ≡ true)
    × (the_reply.reply_to ≡ some info_hash)
    × (to_lower post.info_hash ≡ to_lower info_hash)
unfolding writer
kept-reply_example =
    kept-reply at_length 5 listening empty_store an_index the_reply refl refl accepted_reply

kept-post_example : Memᴰ the_post (kept at_length 5 listening empty_store an_index)
unfolding writer
kept-post_example =
    kept-post at_length 5 listening empty_store an_index the_post refl (Memᴰ.tail (Memᴰ.head refl))
      refl
