-- ===== src/Testing/Growth.antt =====
-- A trace that grows: what was matched in it stays matched, so that a wait misses nothing.
use mathlib.Core.List.{append-nil, append_assoc}
use tantylla.Base.{
  ℕ, zero, suc, ◌+◌, ◌≤◌, ◌≡◌, refl, sym, ◌∙◌, Option, none, some, List, [], ◌∷◌, ◌++◌, drop, take,
  map, arith, Bool-cases, Option-cases, inl, inr,
}
use tantylla.Testing.Trace.{
  TraceEvent, TraceSequenceStep, TraceSequence, matches, match_sequence_from,
  wait_for_sequence_after,
}
use tantylla.Testing.Occurrence.{first_match, match_steps-first_match}
use tantylla.Testing.Collector.{
  Reader, skipped, unknown_source, traced, received, after_received, listen, snapshot, wait_at,
}

-- The second trace is the first with further events.
abbrev Extends : List TraceEvent → List TraceEvent → Type 0
Extends events later = (more : List TraceEvent) × (later ≡ events ++ more)

drop-append : (n : ℕ) (xs ys : List TraceEvent) → Extends (drop n xs) (drop n (xs ++ ys))
drop-append zero xs ys = (ys, refl)
drop-append (suc n) [] ys = (drop (suc n) ys, refl)
drop-append (suc n) (x ∷ xs) ys = drop-append n xs ys

first_match-append :
    (steps : List TraceSequenceStep) (xs ys : List TraceEvent) (i : ℕ) (r : List TraceEvent × ℕ)
    → first_match steps xs i ≡ some r
    → first_match steps (xs ++ ys) i ≡ some r
unfolding first_match
first_match-append [] xs ys i r h = h
first_match-append (step ∷ steps) [] ys i r h = cc
first_match-append (step ∷ steps) (x ∷ xs) ys i r h = elim (Bool-cases (matches step x)) [
  | inr skip ↦
      ground (arith, skip, first_match-append (step ∷ steps) xs ys (i + 1) r (rw skip at h))
  | inl match ↦ elim (Option-cases (first_match steps xs (i + 1))) [
    | inl none_after ↦ absurd (cc (rw (match, none_after) at h))
    | inr (r', after) ↦
        rw (match, first_match-append steps xs ys (i + 1) r' after) (rw (match, after) at h)
  ]
]

-- A match that was found is found in every longer trace.
pub match_sequence_from-Extends :
    (events later : List TraceEvent) (sequence : TraceSequence) (start_from : ℕ)
    (r : List TraceEvent × ℕ)
    → Extends events later
    → match_sequence_from events sequence start_from ≡ some r
    → match_sequence_from later sequence start_from ≡ some r
unfolding match_sequence_from
match_sequence_from-Extends events later sequence start_from r (more, e) h =
    let steps = sequence.steps in
    let (rest, longer) = drop-append start_from events more in
    match_steps-first_match later steps start_from
    ∙ rw (e, longer)
        (first_match-append steps (drop start_from events) rest start_from r
          (sym (match_steps-first_match events steps start_from) ∙ h))

-- One look of a wait.
wait_once :
    (events : List TraceEvent) (snapshots : List (List TraceEvent)) (sequence : TraceSequence)
    (start_from : ℕ) (result : Option (List TraceEvent × ℕ))
    → (match_sequence_from events sequence start_from ≡ none
        → wait_for_sequence_after snapshots sequence start_from ≡ result)
    → ((r : List TraceEvent × ℕ)
        → match_sequence_from events sequence start_from ≡ some r
        → result ≡ some r)
    → wait_for_sequence_after (events ∷ snapshots) sequence start_from ≡ result
unfolding wait_for_sequence_after
wait_once events snapshots sequence start_from result later found =
    by_match (match_sequence_from events sequence start_from) later found
  where
    by_match :
        (o : Option (List TraceEvent × ℕ))
        → (o ≡ none → wait_for_sequence_after snapshots sequence start_from ≡ result)
        → ((r : List TraceEvent × ℕ) → o ≡ some r → result ≡ some r)
        → (elim o [
          | none ↦ wait_for_sequence_after snapshots sequence start_from
          | some r ↦ some r
        ])
          ≡ result
    by_match none later found = later refl
    by_match (some r) later found = sym (found r refl)

-- The numbers do not go down.
abbrev pub IsAscending : ℕ → List ℕ → Type 0
IsAscending n [] = Unit
IsAscending n (m ∷ more) = (n ≤ m) × IsAscending m more

abbrev pub last : ℕ → List ℕ → ℕ
last n [] = n
last n (m ∷ more) = last m more

le_last : (n : ℕ) (more : List ℕ) → IsAscending n more → n ≤ last n more
le_last n [] a = omega arith
le_last n (m ∷ more) a = omega (arith, a.0, le_last m more a.1)

module _ (reader : Reader) where
  open reader use {Bytes}

  listen-Extends :
      (receives : List (Option Bytes)) (events : List TraceEvent)
      → Extends events (listen reader receives events).0
  unfolding listen
  listen-Extends [] events = ([], sym (append-nil events))
  listen-Extends (none ∷ receives) events = ([], sym (append-nil events))
  listen-Extends (some bytes ∷ receives) events =
      elim (received reader bytes)
        as (λ r. Extends events (after_received r events (λ es. listen reader receives es)).0) [
          | skipped ↦ listen-Extends receives events
          | unknown_source ↦ ([], sym (append-nil events))
          | traced event ↦
              let (more, e) = listen-Extends receives (events ++ event ∷ []) in
              (event ∷ more, e ∙ append_assoc events (event ∷ []) more)
        ]

  -- What was there after fewer receives is there after more of them.
  take-Extends :
      (receives : List (Option Bytes)) (n m : ℕ) (events : List TraceEvent)
      → n ≤ m
      → Extends
          (listen reader (take n receives) events).0
          (listen reader (take m receives) events).0
  unfolding listen
  take-Extends receives zero m events h = listen-Extends (take m receives) events
  take-Extends receives (suc n) zero events h = absurd (omega arith)
  take-Extends [] (suc n) (suc m) events h = ([], sym (append-nil events))
  take-Extends (none ∷ receives) (suc n) (suc m) events h = ([], sym (append-nil events))
  take-Extends (some bytes ∷ receives) (suc n) (suc m) events h =
      elim (received reader bytes)
        as (λ r.
          Extends (after_received r events (λ es. listen reader (take n receives) es)).0
            (after_received r events (λ es. listen reader (take m receives) es)).0) [
              | skipped ↦ take-Extends receives n m events (omega arith)
              | unknown_source ↦ ([], sym (append-nil events))
              | traced event ↦ take-Extends receives n m (events ++ event ∷ []) (omega arith)
            ]

  -- A wait that looks at the collector's events at some time and then at later and later times, as numbers
  -- of receives, gives what the match gives on the events at the last of its looks: none of the looks
  -- before misses a match or gives another one.
  pub wait_at-last :
      (receives : List (Option Bytes)) (first : ℕ) (times : List ℕ) (sequence : TraceSequence)
      (start_from : ℕ)
      → IsAscending first times
      → wait_at reader receives (first ∷ times) sequence start_from
        ≡ match_sequence_from (snapshot reader receives (last first times)) sequence start_from
  unfolding wait_at
  wait_at-last receives first [] sequence start_from a =
      wait_once (snapshot reader receives first) [] sequence start_from
        (match_sequence_from (snapshot reader receives first) sequence start_from)
        (λ none_yet. unfold wait_for_sequence_after in sym none_yet) (λ r found. found)
  wait_at-last receives first (next ∷ times) sequence start_from a =
      wait_once (snapshot reader receives first) (map (snapshot reader receives) (next ∷ times))
        sequence start_from
        (match_sequence_from (snapshot reader receives (last next times)) sequence start_from)
        (λ none_yet. wait_at-last receives next times sequence start_from a.1)
        (λ r found.
          match_sequence_from-Extends (snapshot reader receives first)
            (snapshot reader receives (last next times)) sequence start_from r
            (unfold snapshot in
              take-Extends receives first (last next times) [] (le_last first (next ∷ times) a))
            found)
