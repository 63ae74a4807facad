-- ===== src/Limiter/Bucket.antt =====
-- The token bucket of internal/relay/limiter.go: its tokens stay between zero and the maximum.
use p2papp.Prelude.{
  ℕ, ◌+◌, ◌-◌, ◌≤◌, ◌≡◌, Bool, true, false, List, [], ◌∷◌, inl, inr, arith, min, Time, pos,
  sub_time, max_duration, All, Bool-cases,
}
use p2papp.Limiter.{Float, TokenBucket, new_bucket, refill, take_tokens, allow_n}

-- IEEE 754 arithmetic as far as the bucket relies on it: order and rounding of numbers that are
-- not NaN, where `finite` is false at the infinities and at NaN.
pub record IsOrdered (fl : Float) : Type 0 where
  pub finite : fl.F → Bool
  pub lt_irrefl : (a : fl.F) → fl.lt a a ≡ false
  pub le_of_not_lt :
      (a b : fl.F)
      → fl.le (fl.of_int 0) a ≡ true
      → fl.le (fl.of_int 0) b ≡ true
      → fl.lt b a ≡ false
      → fl.le a b ≡ true
  pub add_nonneg :
      (a b : fl.F)
      → fl.le (fl.of_int 0) a ≡ true
      → fl.le (fl.of_int 0) b ≡ true
      → fl.le (fl.of_int 0) (fl.add a b) ≡ true
  pub mul_nonneg :
      (a b : fl.F)
      → finite a ≡ true
      → finite b ≡ true
      → fl.le (fl.of_int 0) a ≡ true
      → fl.le (fl.of_int 0) b ≡ true
      → fl.le (fl.of_int 0) (fl.mul a b) ≡ true
  pub seconds_nonneg :
      (n : ℕ)
      → (finite (fl.seconds (pos n)) ≡ true) × (fl.le (fl.of_int 0) (fl.seconds (pos n)) ≡ true)
  pub sub_nonneg :
      (a b : fl.F)
      → finite a ≡ true
      → fl.le (fl.of_int 0) b ≡ true
      → fl.le b a ≡ true
      → fl.le (fl.of_int 0) (fl.sub a b) ≡ true
  pub sub-le :
      (a b c : fl.F)
      → finite c ≡ true
      → fl.le (fl.of_int 0) b ≡ true
      → fl.le b a ≡ true
      → fl.le a c ≡ true
      → fl.le (fl.sub a b) c ≡ true
  pub finite_below :
      (a b : fl.F)
      → finite b ≡ true
      → fl.le (fl.of_int 0) a ≡ true
      → fl.le a b ≡ true
      → finite a ≡ true

-- The tokens lie between zero and a finite maximum, and the rate is a finite, not negative number.
pub record IsValid (fl : Float) (o : IsOrdered fl) (b : TokenBucket fl.F) : Type 0 where
  pub tokens_nonneg : fl.le (fl.of_int 0) b.tokens ≡ true
  pub tokens_le : fl.le b.tokens b.max_tokens ≡ true
  pub max_finite : o.finite b.max_tokens ≡ true
  pub max_nonneg : fl.le (fl.of_int 0) b.max_tokens ≡ true
  pub rate_finite : o.finite b.refill_rate ≡ true
  pub rate_nonneg : fl.le (fl.of_int 0) b.refill_rate ≡ true

sub_time_later : (t u : Time) → u ≤ t → sub_time t u ≡ pos (min (t - u) max_duration)
unfolding sub_time
sub_time_later t u h = ground arith

module _ (fl : Float) (o : IsOrdered fl) where
  open fl use {F, add, mul, lt, le, of_int, seconds}

  pub new_bucket-IsValid :
      (m rate : F) (now : Time)
      → o.finite m ≡ true
      → le (of_int 0) m ≡ true
      → o.finite rate ≡ true
      → le (of_int 0) rate ≡ true
      → IsValid fl o (new_bucket fl m rate now)
  unfolding new_bucket
  new_bucket-IsValid m rate now mf mn rf rn = record {
    tokens_nonneg = mn;
    tokens_le = o.le_of_not_lt m m mn mn (o.lt_irrefl m);
    max_finite = mf;
    max_nonneg = mn;
    rate_finite = rf;
    rate_nonneg = rn;
  }

  module _ (b : TokenBucket F) (now : Time) (v : IsValid fl o b) (later : b.last_refill ≤ now) where
    -- The tokens before the cap.
    raw : F
    raw = add b.tokens (mul (seconds (sub_time now b.last_refill)) b.refill_rate)

    raw_nonneg : le (of_int 0) raw ≡ true
    unfolding raw
    raw_nonneg =
        let n = min (now - b.last_refill) max_duration in
        rw (sub_time_later now b.last_refill later, raw)
          (o.add_nonneg b.tokens (mul (seconds (pos n)) b.refill_rate) v.tokens_nonneg (
            o.mul_nonneg (seconds (pos n)) b.refill_rate (o.seconds_nonneg n).0 v.rate_finite
              (o.seconds_nonneg n).1 v.rate_nonneg))

    pub refill-IsValid : IsValid fl o (refill fl now b)
    unfolding refill raw
    refill-IsValid = elim (Bool-cases (lt b.max_tokens raw)) [
      | inl over ↦
          rw (over, refill)
            (record {
              tokens_nonneg = v.max_nonneg;
              tokens_le =
                  o.le_of_not_lt b.max_tokens b.max_tokens v.max_nonneg v.max_nonneg
                    (o.lt_irrefl b.max_tokens);
              max_finite = v.max_finite;
              max_nonneg = v.max_nonneg;
              rate_finite = v.rate_finite;
              rate_nonneg = v.rate_nonneg;
            })
      | inr under ↦
          rw (under, refill)
            (record {
              tokens_nonneg = raw_nonneg;
              tokens_le = o.le_of_not_lt raw b.max_tokens raw_nonneg v.max_nonneg under;
              max_finite = v.max_finite;
              max_nonneg = v.max_nonneg;
              rate_finite = v.rate_finite;
              rate_nonneg = v.rate_nonneg;
            })
    ]

  pub take_tokens-IsValid :
      (n : F) (b : TokenBucket F)
      → le (of_int 0) n ≡ true
      → IsValid fl o b
      → IsValid fl o (take_tokens fl n b).0
  unfolding take_tokens
  take_tokens-IsValid n b nn v = elim (Bool-cases (le n b.tokens)) [
    | inr few ↦ rw (few, take_tokens) v
    | inl enough ↦
        rw (enough, take_tokens)
          (record {
            tokens_nonneg =
                o.sub_nonneg b.tokens n
                  (o.finite_below b.tokens b.max_tokens v.max_finite v.tokens_nonneg v.tokens_le) nn
                  enough;
            tokens_le = o.sub-le b.tokens n b.max_tokens v.max_finite nn enough v.tokens_le;
            max_finite = v.max_finite;
            max_nonneg = v.max_nonneg;
            rate_finite = v.rate_finite;
            rate_nonneg = v.rate_nonneg;
          })
  ]

  -- The requests of a run, each with the nanoseconds since the one before and its tokens.
  pub run_requests : List (ℕ × F) → TokenBucket F → TokenBucket F
  run_requests [] b = b
  run_requests ((d, n) ∷ requests) b = run_requests requests (allow_n fl n (b.last_refill + d) b).0

  -- However often and in whatever amounts tokens are asked for, the bucket never holds less than
  -- zero tokens and never more than its maximum, as long as the clock does not run backwards and
  -- no amount is negative.
  pub run_requests-IsValid :
      (requests : List (ℕ × F)) (b : TokenBucket F)
      → All (λ r. le (of_int 0) r.1 ≡ true) requests
      → IsValid fl o b
      → IsValid fl o (run_requests requests b)
  unfolding run_requests allow_n
  run_requests-IsValid [] b a v = v
  run_requests-IsValid ((d, n) ∷ requests) b (nn, a) v = run_requests-IsValid requests _ a (
      take_tokens-IsValid n (refill fl (b.last_refill + d) b) nn
        (refill-IsValid b (b.last_refill + d) v (omega arith)))
