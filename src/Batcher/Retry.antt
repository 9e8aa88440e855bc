-- ===== src/Batcher/Retry.antt =====
-- The retries of one batch, in `send_batch_with_retry`.
use tantylla.Base.{
  ℕ, zero, suc, ◌+◌, ◌-◌, ◌*◌, ◌^◌, ◌<◌, ◌≡◌, refl, ap, ◌∙◌, String, Option, none, some, List, ltb,
  if◌then◌else◌, arith,
}
use native.Mathlib.Nat.{add-zero, zero-add}
use tantylla.Indexer.{IndexOperation, IndexBatchResponse}
use tantylla.Batcher.Service.{
  World, Service, ok, err, address_of, send_attempts, send_batch_with_retry,
}

module _ (world : World) (s : Service) (address : String) (ops : List IndexOperation) where
  open world use {State, try_send_batch, sleep}

  -- The world before the next attempt, after an attempt that failed.
  abbrev pub pause : ℕ → State → State
  pause attempt w =
      if ltb attempt (s.max_retry_attempts - 1)
      then sleep (s.retry_backoff_ms * 2 ^ attempt) w
      else w

  -- One attempt.
  pub send_attempts-ok :
      (left attempt : ℕ) (last : Option String) (w v : State) (r : IndexBatchResponse)
      → try_send_batch address ops w ≡ (ok r, v)
      → send_attempts world s address ops (suc left) attempt last w ≡ (ok r, v)
  unfolding send_attempts
  send_attempts-ok left attempt last w v r a = ground (arith, a)

  pub send_attempts-err :
      (left attempt : ℕ) (last : Option String) (w v : State) (e : String)
      → try_send_batch address ops w ≡ (err e, v)
      → send_attempts world s address ops (suc left) attempt last w
        ≡ send_attempts world s address ops left (attempt + 1) (some e) (pause attempt v)
  unfolding send_attempts
  send_attempts-err left attempt last w v e failed =
      rw (ap (λ p. p.0) failed, ap (λ p. p.1) failed, send_attempts) refl

  -- `n` attempts in a row fail and lead to the world `u`; `e` is the error of the last one.
  abbrev pub Failing : ℕ → ℕ → Option String → State → Option String → State → Type 0
  Failing zero attempt last w e u = (last ≡ e) × (w ≡ u)
  Failing (suc n) attempt last w e u =
      (m : String) × (v : State) × (try_send_batch address ops w ≡ (err m, v))
      × Failing n (attempt + 1) (some m) (pause attempt v) e u

  send_attempts-Failing :
      (n left k attempt : ℕ) (last : Option String) (w : State) (e : Option String) (u : State)
      → k ≡ n + left
      → Failing n attempt last w e u
      → send_attempts world s address ops k attempt last w
        ≡ send_attempts world s address ops left (attempt + n) e u
  unfolding send_attempts
  send_attempts-Failing zero left k attempt last w e u h f =
      cc (h, f.0, f.1, add-zero attempt, zero-add left)
  send_attempts-Failing (suc n) left zero attempt last w e u h f = absurd (omega arith)
  send_attempts-Failing (suc n) left (suc k) attempt last w e u h (m, v, failed, rest) =
      send_attempts-err k attempt last w v m failed
      ∙ (send_attempts-Failing n left k (attempt + 1) (some m) (pause attempt v) e u (omega arith)
            rest
          ∙ ap (λ a. send_attempts world s address ops left a e u) (omega arith))

  answered :
      (left attempt : ℕ) (e : Option String) (u v : State) (r : IndexBatchResponse)
      → 0 < left
      → try_send_batch address ops u ≡ (ok r, v)
      → send_attempts world s address ops left attempt e u ≡ (ok r, v)
  answered zero attempt e u v r h a = absurd (omega arith)
  answered (suc left) attempt e u v r h a = send_attempts-ok left attempt e u v r a

  -- A node that answers after fewer failures than there are attempts is heard.
  send_attempts_answered :
      (n : ℕ) (e : Option String) (w u v : State) (r : IndexBatchResponse)
      → n < s.max_retry_attempts
      → Failing n 0 none w e u
      → try_send_batch address ops u ≡ (ok r, v)
      → send_attempts world s address ops s.max_retry_attempts 0 none w ≡ (ok r, v)
  send_attempts_answered n e w u v r h f a =
      send_attempts-Failing n (s.max_retry_attempts - n) s.max_retry_attempts 0 none w e u
        (omega arith) f
      ∙ answered (s.max_retry_attempts - n) (0 + n) e u v r (omega arith) a

  -- When every attempt fails, the error has the number of attempts and the last one's error.
  send_attempts_failed :
      (e : Option String) (w u : State)
      → Failing s.max_retry_attempts 0 none w e u
      → send_attempts world s address ops s.max_retry_attempts 0 none w
        ≡ (err (record { attempts = s.max_retry_attempts; last_error = e }), u)
  unfolding send_attempts
  send_attempts_failed e w u f =
      send_attempts-Failing s.max_retry_attempts 0 s.max_retry_attempts 0 none w e u (omega arith) f

module _ (world : World) (s : Service) (node : String) (ops : List IndexOperation) where
  open world use {State, try_send_batch}

  -- The first attempts at the node's address fail.
  abbrev FailsFor : ℕ → State → Option String → State → Type 0
  FailsFor n w e u = Failing world s (address_of node) ops n 0 none w e u

  -- When a node answers after a number of failures that is smaller than the number of attempts, the
  -- answer is the result, and the world is the one after it.
  send_batch_with_retry-answered :
      (n : ℕ) (e : Option String) (w u v : State) (r : IndexBatchResponse)
      → n < s.max_retry_attempts
      → FailsFor n w e u
      → try_send_batch (address_of node) ops u ≡ (ok r, v)
      → send_batch_with_retry world s node ops w ≡ (ok r, v)
  unfolding send_batch_with_retry
  send_batch_with_retry-answered n e w u v r h f a =
      send_attempts_answered world s (address_of node) ops n e w u v r h f a

  -- When every attempt fails, the result is an error with the number of attempts and the error of the
  -- last one.
  pub send_batch_with_retry-failed :
      (e : Option String) (w u : State)
      → FailsFor s.max_retry_attempts w e u
      → send_batch_with_retry world s node ops w
        ≡ (err (record { attempts = s.max_retry_attempts; last_error = e }), u)
  unfolding send_batch_with_retry
  send_batch_with_retry-failed e w u f = send_attempts_failed world s (address_of node) ops e w u f
