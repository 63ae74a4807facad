-- ===== src/Delivery/Skipped.antt =====
-- What the shared array does to the delivery loops of internal/relay/node.go: once the first message
-- has been delivered and removed, the second has moved into its cell, and the range goes past it.
use mathlib.Core.Logic.{if_pos, if_neg}
use p2papp.Prelude.{
  ℕ, zero, suc, ◌≡◌, ◌≢◌, refl, sym, ap, subst, ◌∙◌, true, Option, none, some, List, [], ◌∷◌, ◌++◌,
  inl, inr, arith, Str, str_dec, All, drop, get_elem?, Time, Bool-cases, if◌then◌else◌, length,
}
use p2papp.Queue.{
  Message, Codec, Outcome, Queue, peek, mark_first, remove_first, mark_attempt, remove_message,
}
use p2papp.Queue.Contents.{peek-mark_attempt, peek-remove_message}
use p2papp.Delivery.{
  Round, Network, OnFailure, ignore, mark, overlay, settle, on_failure, on_success, visit, rounds,
  deliver_pending, relay_message,
}

-- No message of the list has the id.
abbrev pub Others : Str → List Message → Type 0
Others i = All (λ (m : Message). m.id ≢ i)

Others-append : (i : Str) (xs ys : List Message) → Others i xs → Others i ys → Others i (xs ++ ys)
Others-append i [] ys a b = b
Others-append i (x ∷ xs) ys a b = (a.0, Others-append i xs ys a.1 b)

Others-drop : (i : Str) (n : ℕ) (xs : List Message) → Others i xs → Others i (drop n xs)
Others-drop i zero xs a = a
Others-drop i (suc n) [] a = tt
Others-drop i (suc n) (x ∷ xs) a = Others-drop i n xs a.1

Others-remove_first : (i j : Str) (xs : List Message) → Others i xs → Others i (remove_first j xs)
unfolding remove_first
Others-remove_first i j [] a = tt
Others-remove_first i j (x ∷ xs) a = elim (str_dec x.id j) [
  | yes e ↦ rw (if_pos _ e) a.1
  | no n ↦ rw (if_neg _ n) (a.0, Others-remove_first i j xs a.1)
]

Others-mark_first :
    (i j : Str) (t : Time) (xs : List Message) → Others i xs → Others i (mark_first j t xs)
unfolding mark_first
Others-mark_first i j t [] a = tt
Others-mark_first i j t (x ∷ xs) a = elim (str_dec x.id j) [
  | yes e ↦ rw (if_pos _ e) a
  | no n ↦ rw (if_neg _ n) (a.0, Others-mark_first i j t xs a.1)
]

Others-get_elem? :
    (i : Str) (k : ℕ) (xs : List Message) (m : Message)
    → Others i xs
    → get_elem? xs k ≡ some m
    → m.id ≢ i
Others-get_elem? i k [] m a e = absurd (ground arith)
Others-get_elem? i zero (x ∷ xs) m a e = λ same. a.0 (ground arith)
Others-get_elem? i (suc k) (x ∷ xs) m a e = Others-get_elem? i k xs m a.1 e

Others-overlay :
    (i : Str) (new cells : List Message)
    → Others i new
    → Others i cells
    → Others i (overlay new cells)
unfolding overlay
Others-overlay i new cells a b = Others-append i new _ a (Others-drop i (length new) cells b)

module _ (codec : Codec) (io : Str → Outcome) (p : Str) (b : Message) where
  -- The message stands in the first cell and at the front of the queue, and nowhere else.
  record Stuck (s : Round) : Type 0 where
    behind : List Message
    beyond : List Message
    pending : peek p s.queue ≡ b ∷ behind
    cells : s.cells ≡ b ∷ beyond
    behind_others : Others b.id behind
    beyond_others : Others b.id beyond
    sent_others : Others b.id s.sent

  settle-Stuck :
      (q : Queue) (s : Round) (behind : List Message)
      → Stuck s
      → peek p q ≡ b ∷ behind
      → Others b.id behind
      → Stuck (settle codec io p q s)
  unfolding settle overlay
  settle-Stuck q s behind h e o = record {
    behind = behind;
    beyond = overlay behind h.beyond;
    pending = e;
    cells = ground (arith, h.cells);
    behind_others = o;
    beyond_others = Others-overlay b.id behind h.beyond o h.beyond_others;
    sent_others = h.sent_others;
  }

  on_success-Stuck :
      (m : Message) (s : Round) → m.id ≢ b.id → Stuck s → Stuck (on_success codec io p m s)
  unfolding on_success remove_first
  on_success-Stuck m s n h =
      settle-Stuck (remove_message codec io p m.id s.queue).0 (record s { sent = s.sent ++ m ∷ [] })
        (remove_first m.id h.behind)
        (record {
          behind = h.behind;
          beyond = h.beyond;
          pending = h.pending;
          cells = h.cells;
          behind_others = h.behind_others;
          beyond_others = h.beyond_others;
          sent_others = Others-append b.id s.sent (m ∷ []) h.sent_others (n, tt);
        })
        (ground (arith, (peek-remove_message codec io p m.id s.queue).1 p, h.pending))
        (Others-remove_first b.id m.id h.behind h.behind_others)

  on_failure-Stuck :
      (f : OnFailure) (k : ℕ) (m : Message) (s : Round)
      → m.id ≢ b.id
      → Stuck s
      → Stuck (on_failure codec io p f k m s)
  unfolding on_failure mark_first
  on_failure-Stuck ignore k m s n h = h
  on_failure-Stuck (mark clock) k m s n h =
      settle-Stuck (mark_attempt codec io p m.id (clock k) s.queue) s
        (mark_first m.id (clock k) h.behind) h
        (ground (arith, peek-mark_attempt codec io p m.id (clock k) s.queue p, h.pending))
        (Others-mark_first b.id m.id (clock k) h.behind h.behind_others)

  module _ (network : Network) (failure : OnFailure) where
    visit-Stuck :
        (k : ℕ) (o : Option Message) (s : Round)
        → ((m : Message) → o ≡ some m → m.id ≢ b.id)
        → Stuck s
        → Stuck (visit codec io p network failure k o s)
    unfolding visit
    visit-Stuck k none s n h = h
    visit-Stuck k (some m) s n h = elim (Bool-cases (network k (relay_message m))) [
      | inl sent ↦ rw (sent, visit) (on_success-Stuck m s (n m refl) h)
      | inr lost ↦ rw (lost, visit) (on_failure-Stuck failure k m s (n m refl) h)
    ]

    rounds-Stuck :
        (left k : ℕ) (s : Round)
        → Stuck s
        → Stuck (rounds codec io p network failure left (suc k) s)
    unfolding rounds
    rounds-Stuck zero k s h = h
    rounds-Stuck (suc left) k s h = rounds-Stuck left (suc k) _ (
        visit-Stuck (suc k) (get_elem? s.cells (suc k)) s
          (λ m e.
            Others-get_elem? b.id k h.beyond m h.beyond_others
              (ap (λ cs. get_elem? cs (suc k)) (sym h.cells) ∙ e))
          h)

    -- The first round, where the first message is delivered.
    first-Stuck :
        (a c : Message) (rest : List Message) (q : Queue)
        → peek p q ≡ a ∷ b ∷ c ∷ rest
        → a.id ≢ b.id
        → Others b.id (c ∷ rest)
        → Stuck
            (on_success codec io p a (record { queue = q; cells = a ∷ b ∷ c ∷ rest; sent = [] }))
    unfolding on_success settle overlay remove_first
    first-Stuck a c rest q e n others =
        let left : peek p (remove_message codec io p a.id q).0 ≡ b ∷ c ∷ rest =
          ground (arith, (peek-remove_message codec io p a.id q).1 p) in
        record {
          behind = c ∷ rest;
          beyond = (c ∷ rest) ++ drop (length rest) (c ∷ rest);
          pending = left;
          cells = ap (λ new. new ++ drop (length new) (a ∷ b ∷ c ∷ rest)) left;
          behind_others = others;
          beyond_others =
              Others-append b.id (c ∷ rest) _ others
                (Others-drop b.id (length rest) (c ∷ rest) others);
          sent_others = (n, tt);
        }

    -- With three or more messages pending, where the second has an id of its own, a successful
    -- delivery of the first makes the loop pass over the second: it is not delivered in this loop,
    -- however the other deliveries end, and stands at the front of the queue afterwards.
    pub deliver_pending-skips :
        (a c : Message) (rest : List Message) (q : Queue)
        → peek p q ≡ a ∷ b ∷ c ∷ rest
        → network 0 (relay_message a) ≡ true
        → a.id ≢ b.id
        → Others b.id (c ∷ rest)
        → ((behind : List Message) × (peek p (deliver_pending codec io p network failure q).queue
              ≡ b ∷ behind))
          × Others b.id (deliver_pending codec io p network failure q).sent
    unfolding deliver_pending rounds visit
    deliver_pending-skips a c rest q e ok n others =
        let start = λ (ms : List Message).
          rounds codec io p network failure (length ms) 0
            (record { queue = q; cells = ms; sent = [] }) in
        let visited =
          on_success codec io p a (record { queue = q; cells = a ∷ b ∷ c ∷ rest; sent = [] }) in
        let step : start (a ∷ b ∷ c ∷ rest)
            ≡ rounds codec io p network failure (suc (suc (length rest))) 1 visited =
          ap
            (λ t. rounds codec io p network failure (suc (suc (length rest))) 1 (
              if t
              then visited
              else on_failure codec io p failure 0 a
                  (record { queue = q; cells = a ∷ b ∷ c ∷ rest; sent = [] })))
            ok in
        let stuck : Stuck (start (peek p q)) =
          subst Stuck (sym (ap start e ∙ step)) (
            rounds-Stuck (suc (suc (length rest))) 0 visited (first-Stuck a c rest q e n others)) in
        ((stuck.behind, stuck.pending), stuck.sent_others)
