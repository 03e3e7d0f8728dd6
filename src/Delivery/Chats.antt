-- ===== src/Delivery/Chats.antt =====
-- The row of a chat after an upsert.
use mathlib.Core.Path.{subst}
use algo_trading_broker.Prelude.{
  ◌≤◌, ◌≡◌, refl, ap, ◌&&◌, if◌then◌else◌, ◌∙◌, inl, inr, String, Bool, true, false, Option, none,
  some, List, [], ◌∷◌, arith, or_else, is_some, ◌==◌, string_eq, beq_refl, Bool-cases,
}
use algo_trading_broker.Cycles.{Chat}
use algo_trading_broker.Delivery.{
  ChatWrite, new_chat, update_chat, find_chat, put_chat, upsert_chat,
}

-- The row that an upsert leaves for its chat, from the row that it found.
abbrev pub written : ChatWrite → Option Chat → Chat
written w none = new_chat w
written w (some c) = update_chat w c

pub find_chat-put :
    (w : ChatWrite) (chats : List Chat)
    → find_chat w.chat_id (put_chat w chats) ≡ some (written w (find_chat w.chat_id chats))
unfolding find_chat put_chat
find_chat-put w [] = rw (beq_refl w.chat_id)
find_chat-put w (c ∷ chats) = elim (Bool-cases (c.chat_id == w.chat_id)) [
  | inl e ↦ rw (e, e)
  | inr e ↦ rw (e, e) (find_chat-put w chats)
]

pub find_chat-put_other :
    (w : ChatWrite) (id : String)
    → (w.chat_id == id) ≡ false
    → (chats : List Chat) → find_chat id (put_chat w chats) ≡ find_chat id chats
unfolding find_chat put_chat
find_chat-put_other w id n [] = rw n
find_chat-put_other w id n (c ∷ chats) =
    ground (arith, find_chat-put_other w id n chats, string_eq.decides c.chat_id w.chat_id)

abbrev pub Forward : Chat → Chat → Type 0
Forward c c' =
    (c.delivered_seq ≤ c'.delivered_seq)
    × (or_else c.notified_event_count 0 ≤ or_else c'.notified_event_count 0)
    × (is_some c.message_id ≡ true → is_some c'.message_id ≡ true)

written-Forward : (w : ChatWrite) (c : Chat) → Forward c (written w (some c))
written-Forward w c = ground arith

Forward-refl : (c : Chat) → Forward c c
Forward-refl c = ground arith

pub upsert_chat-written :
    (up : Bool) (w : ChatWrite) (chats : List Chat)
    → up ≡ true
    → find_chat w.chat_id (upsert_chat up w chats) ≡ some (written w (find_chat w.chat_id chats))
unfolding upsert_chat
upsert_chat-written true w chats e = find_chat-put w chats
upsert_chat-written false w chats e = cc

-- The body that a write leaves on the row of the chat `id`: its own if it is for that chat and
-- brings one, however late it comes.
abbrev pub body_after : Bool → ChatWrite → String → Chat → Option String
body_after up w id c =
    if up && w.chat_id == id
    then elim w.message [ none ↦ c.message | some text ↦ some text ]
    else c.message

put_chat-Forward :
    (w : ChatWrite) (id : String) (chats : List Chat) (c : Chat)
    → find_chat id chats ≡ some c
    → (c' : Chat) × (find_chat id (put_chat w chats) ≡ some c')
      × Forward c c'
      × (c'.message ≡ body_after true w id c)
put_chat-Forward w id chats c e = elim (Bool-cases (w.chat_id == id)) [
  | inl h ↦
      let s = (string_eq.decides w.chat_id id).0 h in
      (
        written w (some c),
        subst (λ k. find_chat k (put_chat w chats) ≡ some (written w (some c))) s
            (find_chat-put w chats
              ∙ ap (λ o. some (written w o)) (ap (λ k. find_chat k chats) s ∙ e)),
        written-Forward w c,
        ground (arith, h),
      )
  | inr h ↦ (c, find_chat-put_other w id h chats ∙ e, Forward-refl c, ground (arith, h))
]

-- However late a write comes and whether or not the database is up, the row of every chat stays,
-- the seq and the count of events on it never fall, and a chat that has a message id keeps one. The
-- stored body is not kept forward: a write for that chat that brings a body replaces it, also when
-- the seq of the write is older than the one on the row.
pub upsert_chat-Forward :
    (up : Bool) (w : ChatWrite) (id : String) (chats : List Chat) (c : Chat)
    → find_chat id chats ≡ some c
    → (c' : Chat) × (find_chat id (upsert_chat up w chats) ≡ some c')
      × Forward c c'
      × (c'.message ≡ body_after up w id c)
unfolding upsert_chat
upsert_chat-Forward true w id chats c e = put_chat-Forward w id chats c e
upsert_chat-Forward false w id chats c e = (c, e, Forward-refl c, refl)
