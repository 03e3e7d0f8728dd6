-- ===== src/Delivery/Passes.antt =====
-- What consecutive passes show in one chat.
use mathlib.Core.Path.{subst}
use algo_trading_broker.Prelude.{
  ℕ, suc, ◌≤◌, ◌<◌, ◌≡◌, sym, refl, ap, ◌∙◌, ◌≢◌, ◌⊎◌, inl, inr, String, Bool, true, Option, none,
  some, List, [], ◌∷◌, arith, drop, length, is_some, or_else, Bool-cases, Option-cases, All,
  All-map,
}
use algo_trading_broker.Cycles.{Chat}
use algo_trading_broker.Delivery.{
  find_chat, upsert_chat, EditOutcome, SendOutcome, Shown, notify_loop, notify_updates, Job,
  Outcome, shown_write, posts, after_send, send_new, notified_count, edit_old, is_shown, stored_id,
  deliver,
}
use algo_trading_broker.Delivery.Chats.{written, upsert_chat-written}

-- The pass showed nothing, or the row of the chat now says that it shows the job's seq.
abbrev pub Landed : Job → Outcome → Type 0
Landed job r = (r.1.0 ≡ []) ⊎ (is_shown job.seq (find_chat job.chat_id r.1.1) ≡ true)

-- Telegram hands out the id of every message that it reports as sent.
abbrev pub HasIds : Job → Type 0
HasIds job =
    (job.telegram.send_message job.chat_id job.text).0 ≡ SendOutcome.ok
    → is_some (job.telegram.send_message job.chat_id job.text).1 ≡ true

written-is_shown :
    (job : Job) (id : Option String) (n : ℕ) (error : Option String) (old : Option Chat)
    → is_shown job.seq (some (written (shown_write job id n error) old)) ≡ true
written-is_shown job id n error none = ground arith
written-is_shown job id n error (some c) = ground arith

shown_write-is_shown :
    (job : Job) (id : Option String) (n : ℕ) (error : Option String) (chats : List Chat)
    → job.up ≡ true
    → is_shown job.seq
        (find_chat job.chat_id (upsert_chat job.up (shown_write job id n error) chats))
      ≡ true
shown_write-is_shown job id n error chats e =
    ap (is_shown job.seq) (upsert_chat-written job.up (shown_write job id n error) chats e)
    ∙ written-is_shown job id n error (find_chat job.chat_id chats)

after_send-Landed :
    (job : Job) (o : SendOutcome) (id : Option String) (chats : List Chat)
    → job.up ≡ true
    → (o ≡ SendOutcome.ok → is_some id ≡ true)
    → Landed job ((after_send job o id chats).0, (posts o job.text, (after_send job o id chats).1))
after_send-Landed job SendOutcome.unknown id chats e h =
    inr (shown_write-is_shown job none (length job.notices) (some "send outcome unknown") chats e)
after_send-Landed job SendOutcome.ok none chats e h = ground (arith, h refl)
after_send-Landed job SendOutcome.ok (some id) chats e h =
    inr (shown_write-is_shown job (some id) (length job.notices) none chats e)
after_send-Landed job SendOutcome.failed none chats e h = inl refl
after_send-Landed job SendOutcome.failed (some id) chats e h = inl refl

send_new-Landed :
    (job : Job) (chats : List Chat) → job.up ≡ true → HasIds job → Landed job (send_new job chats)
unfolding send_new
send_new-Landed job chats e h =
    after_send-Landed job (job.telegram.send_message job.chat_id job.text).0
      (job.telegram.send_message job.chat_id job.text).1 chats e h

EditOutcome-cases :
    (o : EditOutcome) → (o ≡ EditOutcome.ok) ⊎ (o ≡ EditOutcome.failed) ⊎ (o ≡ EditOutcome.missing)
EditOutcome-cases o = ground arith

edit_old-Landed :
    (job : Job) (id : String) (existing : Option Chat) (chats : List Chat)
    → job.up ≡ true
    → HasIds job
    → Landed job (edit_old job id existing chats)
unfolding edit_old
edit_old-Landed job id existing chats e h =
    elim (EditOutcome-cases (job.telegram.edit_message job.chat_id id job.text)) [
      | inl o ↦ rw (o, edit_old) (inr (shown_write-is_shown job (some id) _ none chats e))
      | inr (inl o) ↦ rw (o, edit_old) (inl refl)
      | inr (inr o) ↦ rw (o, edit_old) (send_new-Landed job chats e h)
    ]

deliver-Landed :
    (job : Job) (existing : Option Chat) (chats : List Chat)
    → job.up ≡ true
    → HasIds job
    → Landed job (deliver job existing chats)
unfolding deliver
deliver-Landed job existing chats e h = elim (Bool-cases (is_shown job.seq existing)) [
  | inl s ↦ rw s (inl refl)
  | inr s ↦ elim (Option-cases (stored_id existing)) [
    | inl i ↦ rw (s, i) (send_new-Landed job chats e h)
    | inr (id, i) ↦ rw (s, i) (edit_old-Landed job id existing chats e h)
  ]
]

is_shown-le : (m n : ℕ) (o : Option Chat) → m ≤ n → is_shown n o ≡ true → is_shown m o ≡ true
is_shown-le m n none h e = cc
is_shown-le m n (some c) h e = ground arith

deliver-shown :
    (job : Job) (existing : Option Chat) (chats : List Chat)
    → is_shown job.seq existing ≡ true
    → deliver job existing chats ≡ (true, ([], chats))
unfolding deliver
deliver-shown job existing chats e = rw e

-- No body is shown twice, where Telegram gives the id of each message that it reports as sent:
-- once a pass over a live database has shown a chat anything, even a send that Telegram never
-- answered, the next pass to that chat at the same seq or an older one shows nothing, changes no
-- row and counts as delivered, whatever Telegram would answer.
pub deliver-once :
    (job job' : Job) (existing : Option Chat) (chats : List Chat)
    → job.up ≡ true
    → HasIds job
    → job'.chat_id ≡ job.chat_id
    → job'.seq ≤ job.seq
    → (deliver job existing chats).1.0 ≢ []
    → deliver job'
        (find_chat job'.chat_id (deliver job existing chats).1.1)
        (deliver job existing chats).1.1
      ≡ (true, ([], (deliver job existing chats).1.1))
deliver-once job job' existing chats e h c s n =
    deliver-shown job' _ _ (elim (deliver-Landed job existing chats e h) [
      | inl z ↦ absurd (n z)
      | inr l ↦ is_shown-le job'.seq job.seq _ s (
          subst (λ k. is_shown job.seq (find_chat k (deliver job existing chats).1.1) ≡ true)
            (sym c) l)
    ])

-- The notices shown are those of the events from `a` on and before `b`.
abbrev pub Between : ℕ → ℕ → Shown → Type 0
Between a b (Shown.replied i) = (a ≤ i) × (i < b)
Between a b _ = Unit

Between-wider : (a b a' b' : ℕ) → a' ≤ a → b ≤ b' → (x : Shown) → Between a b x → Between a' b' x
Between-wider a b a' b' h k (Shown.edited t) r = tt
Between-wider a b a' b' h k (Shown.posted t) r = tt
Between-wider a b a' b' h k (Shown.replied i) r = (omega (arith, r.0), omega (arith, r.1))

abbrev pub Told : ℕ → ℕ × List Shown → Type 0
Told a r = (a ≤ r.0) × All (Between a r.0) r.1

Told-notify_loop :
    (reply : ℕ → String → Bool) (a : ℕ) (notices : List (Option String))
    → Told a (notify_loop reply a notices)
unfolding notify_loop
Told-notify_loop reply a [] = (omega arith, tt)
Told-notify_loop reply a (none ∷ notices) =
    let h = Told-notify_loop reply (suc a) notices in
    (
      omega (arith, h.0),
      All-map _ _ (Between-wider (suc a) _ a _ (omega arith) (omega arith)) _ h.1,
    )
Told-notify_loop reply a (some notice ∷ notices) =
    let h = Told-notify_loop reply (suc a) notices in
    elim (Bool-cases (reply a notice)) [
      | inl e ↦ rw e (
        omega (arith, h.0),
        (
          (omega arith, omega (arith, h.0)),
          All-map _ _ (Between-wider (suc a) _ a _ (omega arith) (omega arith)) _ h.1,
        ),
      )
      | inr e ↦ rw e (omega arith, tt)
    ]

-- How many events the row of a chat says that the chat was told of.
abbrev pub count : Option Chat → ℕ
count o = or_else (notified_count o) 0

abbrev pub NoNotice : Shown → Type 0
NoNotice (Shown.replied i) = ⊥
NoNotice _ = Unit

Between-NoNotice : (a b : ℕ) (x : Shown) → NoNotice x → Between a b x
Between-NoNotice a b (Shown.edited t) h = tt
Between-NoNotice a b (Shown.posted t) h = tt
Between-NoNotice a b (Shown.replied i) h = absurd h

posts-NoNotice : (o : SendOutcome) (text : String) → All NoNotice (posts o text)
posts-NoNotice SendOutcome.ok text = (tt, tt)
posts-NoNotice SendOutcome.unknown text = (tt, tt)
posts-NoNotice SendOutcome.failed text = tt

send_new-NoNotice : (job : Job) (chats : List Chat) → All NoNotice (send_new job chats).1.0
unfolding send_new
send_new-NoNotice job chats =
    posts-NoNotice (job.telegram.send_message job.chat_id job.text).0 job.text

-- The notices lie between what the row of the chat counted before and what it counts after.
abbrev pub Noticed : Job → Option Chat → Outcome → Type 0
Noticed job existing r = All (Between (count existing) (count (find_chat job.chat_id r.1.1))) r.1.0

written-count :
    (job : Job) (id : Option String) (n : ℕ) (c : Chat)
    → n ≤ count (some (written (shown_write job id n none) (some c)))
written-count job id n c = ground arith

Told-notify_updates :
    (reply : ℕ → String → Bool) (notices : List (Option String)) (c : Chat) (enabled : Bool)
    → All
        (Between
          (count (some c))
          (notify_updates reply notices (notified_count (some c)) enabled).0)
        (notify_updates reply notices (notified_count (some c)) enabled).1
unfolding notify_updates
Told-notify_updates reply notices c enabled = elim (Option-cases c.notified_event_count) [
  | inl e ↦ rw (e, notify_updates) tt
  | inr (a, e) ↦ elim (Bool-cases enabled) [
    | inl f ↦ rw (e, f, notify_updates) (Told-notify_loop reply a (drop a notices)).1
    | inr f ↦ rw (e, f, notify_updates) tt
  ]
]

edit_old-Noticed :
    (job : Job) (id : String) (c : Chat) (chats : List Chat)
    → job.up ≡ true
    → find_chat job.chat_id chats ≡ some c
    → Noticed job (some c) (edit_old job id (some c) chats)
unfolding edit_old
edit_old-Noticed job id c chats e f =
    let told =
      notify_updates (job.telegram.reply_message job.chat_id id) job.notices
        (notified_count (some c)) job.notify_enabled in
    let row =
      upsert_chat-written job.up (shown_write job (some id) told.0 none) chats e
      ∙ ap (λ o. some (written (shown_write job (some id) told.0 none) o)) f in
    elim (EditOutcome-cases (job.telegram.edit_message job.chat_id id job.text)) [
      | inl o ↦
          rw (o, edit_old)
            (
              tt,
              All-map _ _
                  (Between-wider (count (some c)) told.0 (count (some c)) _ (omega arith) (
                    subst (λ r. told.0 ≤ count r) (sym row) (written-count job (some id) told.0 c)))
                  told.1
                  (Told-notify_updates (job.telegram.reply_message job.chat_id id) job.notices c
                    job.notify_enabled),
            )
      | inr (inl o) ↦ rw (o, edit_old) tt
      | inr (inr o) ↦
          rw (o, edit_old)
            (All-map _ _ (Between-NoNotice _ _) (send_new job chats).1.0
              (send_new-NoNotice job chats))
    ]

-- A pass over a live database, to a chat that has a row, replies only with notices of events
-- that the row did not count yet, and the row counts each of them afterwards.
pub deliver-Noticed :
    (job : Job) (c : Chat) (chats : List Chat)
    → job.up ≡ true
    → find_chat job.chat_id chats ≡ some c
    → Noticed job (some c) (deliver job (some c) chats)
unfolding deliver
deliver-Noticed job c chats e f = elim (Bool-cases (is_shown job.seq (some c))) [
  | inl s ↦ rw (s, deliver) tt
  | inr s ↦ elim (Option-cases (stored_id (some c))) [
    | inl i ↦
        rw (s, i, deliver)
          (All-map _ _ (Between-NoNotice _ _) (send_new job chats).1.0
            (send_new-NoNotice job chats))
    | inr (id, i) ↦ rw (s, i, deliver) (edit_old-Noticed job id c chats e f)
  ]
]
