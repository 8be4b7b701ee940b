-- ===== src/CloseNotice/Once.antt =====
-- core/close_notification_guard.py: who may send an alert.
use binance_future_bot.Base.{
  ℕ, ◌+◌, ◌≤◌, ◌≡◌, ◌⊎◌, ◌∙◌, refl, true, false, none, some, List, [], ◌∷◌, arith, if◌then◌else◌,
  ◌=?◌, Option-cases, Bool-cases, inl, inr, text_eq,
}
use binance_future_bot.Base.Text.{Text}
use binance_future_bot.Base.Dict.{Dict, lookup, insert, lookup-insert}
use binance_future_bot.CloseNotice.{
  ClaimFile, claimed_at, claim_path, refused_by, create_claim, try_claim_close_notification,
}

-- A call by some handler for a trade whose id is not empty, with the time to live it passes and
-- the clock it reads.
pub record Call : Type 0 where
  pub ttl : ℕ
  pub now : ℕ
  pub letter : ℕ
  pub rest : Text

abbrev pub id_of : Call → Text
id_of k = k.letter ∷ k.rest

-- The calls that were told to send, when the file system works.
unfoldable pub senders : List Call → Dict Text ClaimFile → List Text
senders [] dir = []
senders (c ∷ calls) dir =
    let (dir', send) = try_claim_close_notification false c.ttl c.now (id_of c) dir in
    if send then claim_path (id_of c) ∷ senders calls dir' else senders calls dir'

unfoldable pub count : Text → List Text → ℕ
count path [] = 0
count path (x ∷ l) = if x =? path then 1 + count path l else count path l

create_claim-taken :
    (now : ℕ) (path : Text) (dir : Dict Text ClaimFile) (f : ClaimFile)
    → lookup path dir ≡ some f
    → create_claim false now path dir ≡ (dir, false)
unfolding create_claim
create_claim-taken now path dir f h = rw (h, create_claim) refl

-- While the claim file of an id is there and the file system works, a claim of the id is refused,
-- whatever the time to live and however much time has passed: a claim never expires.
pub claim_taken :
    (ttl now c : ℕ) (id : Text) (dir : Dict Text ClaimFile) (f : ClaimFile)
    → lookup (claim_path (c ∷ id)) dir ≡ some f
    → try_claim_close_notification false ttl now (c ∷ id) dir ≡ (dir, false)
unfolding try_claim_close_notification
claim_taken ttl now c id dir f h =
    elim (Bool-cases (refused_by ttl now (lookup (claim_path (c ∷ id)) dir))) [
      | inl young ↦ rw (young, try_claim_close_notification) refl
      | inr old ↦
          rw (old, try_claim_close_notification)
            (create_claim-taken now (claim_path (c ∷ id)) dir f h)
    ]

-- Two handlers, in two processes, that both find no claim file: when both go on to create it, the
-- first is told to send and the second is not.
claim_race :
    (now later : ℕ) (path : Text) (dir : Dict Text ClaimFile)
    → lookup path dir ≡ none
    → ((create_claim false now path dir).1 ≡ true)
      × ((create_claim false later path (create_claim false now path dir).0).1 ≡ false)
unfolding create_claim
claim_race now later path dir h =
    let there = lookup-insert path path (claimed_at now) dir in
    let found : lookup path (insert path (claimed_at now) dir) ≡ some (claimed_at now) =
      ground (arith, text_eq.beq_iff path path) in
    rw (h, create_claim) (refl, rw (found, create_claim) refl)

-- The two answers, when the file system works.
try_claim-cases :
    (ttl now c : ℕ) (id : Text) (dir : Dict Text ClaimFile)
    → let path = claim_path (c ∷ id) in
      let result = try_claim_close_notification false ttl now (c ∷ id) dir in
      (result ≡ (dir, false))
      ⊎ ((lookup path dir ≡ none) × (result ≡ (insert path (claimed_at now) dir, true)))
unfolding try_claim_close_notification create_claim refused_by
try_claim-cases ttl now c id dir = elim (Option-cases (lookup (claim_path (c ∷ id)) dir)) [
  | inr (f, found) ↦ inl (claim_taken ttl now c id dir f found)
  | inl free ↦ inr (free, rw (free, try_claim_close_notification, create_claim) refl)
]

senders-none :
    (path : Text) (calls : List Call) (dir : Dict Text ClaimFile) (f : ClaimFile)
    → lookup path dir ≡ some f
    → count path (senders calls dir) ≡ 0
unfolding senders count
senders-none path [] dir f h = refl
senders-none path (k ∷ calls) dir f h =
    let own = claim_path (id_of k) in
    elim (try_claim-cases k.ttl k.now k.letter k.rest dir) [
      | inl refused ↦ rw refused (senders-none path calls dir f h)
      | inr (free, granted) ↦
          let look = lookup-insert own path (claimed_at k.now) dir in
          elim (Bool-cases (own =? path)) [
            | inl same ↦
                let at : own ≡ path = (text_eq.beq_iff own path).0 same in absurd (cc (at, free, h))
            | inr other ↦ rw granted (rw other (senders-none path calls _ f (look ∙ rw other h)))
          ]
    ]

-- As long as no claim file is deleted and the file system works: whatever calls are made, with
-- whatever times to live and at whatever times, at most one of the calls whose ids share a claim
-- file is told to send.
pub send_once :
    (path : Text) (calls : List Call) (dir : Dict Text ClaimFile)
    → count path (senders calls dir) ≤ 1
unfolding senders count
send_once path [] dir = omega arith
send_once path (k ∷ calls) dir =
    let own = claim_path (id_of k) in
    elim (try_claim-cases k.ttl k.now k.letter k.rest dir) [
      | inl refused ↦ rw refused (send_once path calls dir)
      | inr (free, granted) ↦
          let look = lookup-insert own path (claimed_at k.now) dir in
          elim (Bool-cases (own =? path)) [
            | inl same ↦
                let none_else =
                  senders-none path calls _ (claimed_at k.now) (look ∙ rw same refl) in
                rw granted (rw same (let x = none_else in omega arith))
            | inr other ↦ rw granted (rw other (send_once path calls _))
          ]
    ]
