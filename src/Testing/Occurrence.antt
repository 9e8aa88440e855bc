-- ===== src/Testing/Occurrence.antt =====
-- The matches of a sequence and its occurrences in a trace.
use tantylla.Base.{
  ℕ, zero, suc, ◌+◌, ◌-◌, ◌≤◌, ◌≡◌, refl, sym, ap, ◌∙◌, true, false, Option, none, some, List, [],
  ◌∷◌, drop, take, if◌then◌else◌, arith, Bool-cases, Option-cases, subst, inl, inr,
}
use tantylla.Testing.Trace.{
  TraceEvent, TraceSequenceStep, TraceSequence, matches, find_step, matched_first, match_steps,
  match_sequence_from,
}

-- The steps match events of the list, in order, with any events between.
pub data Occurs : List TraceSequenceStep → List TraceEvent → Type 0 where
  nothing : {events : List TraceEvent} → Occurs [] events
  skips :
      {steps : List TraceSequenceStep} {e : TraceEvent} {events : List TraceEvent}
      → Occurs steps events
      → Occurs steps (e ∷ events)
  matched :
      {step : TraceSequenceStep} {steps : List TraceSequenceStep} {e : TraceEvent}
      {events : List TraceEvent}
      → matches step e ≡ true
      → Occurs steps events
      → Occurs (step ∷ steps) (e ∷ events)

-- The first matches, on the events from an index on.
unfoldable pub first_match :
    List TraceSequenceStep → List TraceEvent → ℕ → Option (List TraceEvent × ℕ)
first_match [] events i = some ([], i)
first_match (step ∷ steps) [] i = none
first_match (step ∷ steps) (e ∷ events) i =
    let after = first_match steps events (i + 1) in
    let later = first_match (step ∷ steps) events (i + 1) in
    if matches step e then matched_first e after else later

drop-suc :
    (events : List TraceEvent) (i : ℕ) (e : TraceEvent) (rest : List TraceEvent)
    → drop i events ≡ e ∷ rest
    → drop (i + 1) events ≡ rest
drop-suc [] zero e rest h = cc
drop-suc [] (suc i) e rest h = cc
drop-suc (x ∷ events) zero e rest h = ground (arith, h)
drop-suc (x ∷ events) (suc i) e rest h =
    let next : suc i + 1 ≡ suc (i + 1) = omega arith in rw next (drop-suc events i e rest h)

pub match_steps-first_match :
    (events : List TraceEvent) (steps : List TraceSequenceStep) (i : ℕ)
    → match_steps events steps i ≡ first_match steps (drop i events) i
unfolding match_steps first_match
match_steps-first_match events [] i = refl
match_steps-first_match events (step ∷ steps) i =
    from (λ j. match_steps-first_match events steps j) (drop i events) i refl
  where
    from :
        ((j : ℕ) → match_steps events steps j ≡ first_match steps (drop j events) j)
        → (rest : List TraceEvent) (j : ℕ) → drop j events ≡ rest
        → (elim (find_step step j rest) [
          | none ↦ none
          | some (idx, e) ↦ matched_first e (match_steps events steps (idx + 1))
        ])
          ≡ first_match (step ∷ steps) rest j
    from others [] j h = refl
    from others (e ∷ rest) j h =
        let tail = drop-suc events j e rest h in
        ground (
          arith,
          others (j + 1) ∙ ap (λ es. first_match steps es (j + 1)) tail,
          from others rest (j + 1) tail,
        )

Occurs-tail :
    {step : TraceSequenceStep} {steps : List TraceSequenceStep} {events : List TraceEvent}
    → Occurs (step ∷ steps) events
    → Occurs steps events
Occurs-tail (skips o) = skips (Occurs-tail o)
Occurs-tail (matched h o) = skips o

Occurs-rest :
    {step : TraceSequenceStep} {steps : List TraceSequenceStep} {e : TraceEvent}
    {events : List TraceEvent}
    → Occurs (step ∷ steps) (e ∷ events)
    → Occurs steps events
Occurs-rest (skips o) = Occurs-tail o
Occurs-rest (matched h o) = o

Occurs-later :
    {step : TraceSequenceStep} {steps : List TraceSequenceStep} {e : TraceEvent}
    {events : List TraceEvent}
    → matches step e ≡ false
    → Occurs (step ∷ steps) (e ∷ events)
    → Occurs (step ∷ steps) events
Occurs-later h (skips o) = o
Occurs-later h (matched k o) = absurd (cc)

not_Occurs :
    {step : TraceSequenceStep} {steps : List TraceSequenceStep} → ¬ Occurs (step ∷ steps) []
not_Occurs o = elim o [ ]

-- Each event matches the step of its place.
abbrev pub AreMatched : List TraceSequenceStep → List TraceEvent → Type 0
AreMatched [] [] = Unit
AreMatched (step ∷ steps) (e ∷ events) = (matches step e ≡ true) × AreMatched steps events
AreMatched _ _ = ⊥

abbrev Finds : List TraceSequenceStep → List TraceEvent → ℕ → ℕ → Type 0
Finds steps events i n =
    (r : List TraceEvent × ℕ) × (first_match steps events i ≡ some r) × (r.1 ≤ i + n)

first_match_complete :
    (steps : List TraceSequenceStep) (events : List TraceEvent) (i n : ℕ)
    → Occurs steps (take n events)
    → Finds steps events i n
unfolding first_match
first_match_complete [] events i n o = (_, refl, omega arith)
first_match_complete (step ∷ steps) [] i zero o = absurd (not_Occurs o)
first_match_complete (step ∷ steps) [] i (suc n) o = absurd (not_Occurs o)
first_match_complete (step ∷ steps) (e ∷ events) i zero o = absurd (not_Occurs o)
first_match_complete (step ∷ steps) (e ∷ events) i (suc n) o = elim (Bool-cases (matches step e)) [
  | inl h ↦
      let (r, found, below) = first_match_complete steps events (i + 1) n (Occurs-rest o) in
      ((e ∷ r.0, r.1), ground (arith, h, found), omega arith)
  | inr h ↦
      let (r, found, below) =
        first_match_complete (step ∷ steps) events (i + 1) n (Occurs-later h o) in
      (r, ground (arith, h, found), omega arith)
]

abbrev IsMatch : List TraceSequenceStep → List TraceEvent → ℕ → List TraceEvent × ℕ → Type 0
IsMatch steps events i r = (i ≤ r.1) × Occurs steps (take (r.1 - i) events) × AreMatched steps r.0

take-before :
    (e : TraceEvent) (events : List TraceEvent) (i c : ℕ)
    → i + 1 ≤ c
    → take (c - i) (e ∷ events) ≡ e ∷ take (c - (i + 1)) events
take-before e events i c h = let n : c - i ≡ suc (c - (i + 1)) = omega arith in rw n refl

IsMatch-matched :
    (step : TraceSequenceStep) (steps : List TraceSequenceStep) (e : TraceEvent)
    (events : List TraceEvent) (i : ℕ) (r : List TraceEvent × ℕ)
    → matches step e ≡ true
    → IsMatch steps events (i + 1) r
    → IsMatch (step ∷ steps) (e ∷ events) i (e ∷ r.0, r.1)
IsMatch-matched step steps e events i r h (le, o, m) =
    (omega arith, rw (take-before e events i r.1 le) (matched h o), (h, m))

IsMatch-skips :
    (steps : List TraceSequenceStep) (e : TraceEvent) (events : List TraceEvent) (i : ℕ)
    (r : List TraceEvent × ℕ)
    → IsMatch steps events (i + 1) r
    → IsMatch steps (e ∷ events) i r
IsMatch-skips steps e events i r (le, o, m) =
    (omega arith, rw (take-before e events i r.1 le) (skips o), m)

first_match-IsMatch :
    (steps : List TraceSequenceStep) (events : List TraceEvent) (i : ℕ) (r : List TraceEvent × ℕ)
    → first_match steps events i ≡ some r
    → IsMatch steps events i r
unfolding first_match
first_match-IsMatch [] events i r h =
    let same : ([], i) ≡ r = cc h in subst (IsMatch [] events i) same (omega arith, nothing, tt)
first_match-IsMatch (step ∷ steps) [] i r h = cc
first_match-IsMatch (step ∷ steps) (e ∷ events) i r h = elim (Bool-cases (matches step e)) [
  | inr no_match ↦
      IsMatch-skips (step ∷ steps) e events i r
        (first_match-IsMatch (step ∷ steps) events (i + 1) r (rw no_match at h))
  | inl match ↦ elim (Option-cases (first_match steps events (i + 1))) [
    | inl none_after ↦ absurd (cc (rw (match, none_after) at h))
    | inr (r', after) ↦
        let same : (e ∷ r'.0, r'.1) ≡ r = cc (rw (match, after) at h) in
        subst (IsMatch (step ∷ steps) (e ∷ events) i) same (
          IsMatch-matched step steps e events i r' match
            (first_match-IsMatch steps events (i + 1) r' after))
  ]
]

-- A sequence that occurs in the next events of a trace is matched, and the new cursor is not past those
-- events; a match that is returned occurs before the new cursor, and its events match the steps, one
-- each.
pub match_sequence_from-Occurs :
    (events : List TraceEvent) (sequence : TraceSequence) (start_from : ℕ)
    → ((n : ℕ)
        → Occurs sequence.steps (take n (drop start_from events))
        → (r : List TraceEvent × ℕ) × (match_sequence_from events sequence start_from ≡ some r)
          × (r.1 ≤ start_from + n))
      × ((r : List TraceEvent × ℕ)
          → match_sequence_from events sequence start_from ≡ some r
          → (start_from ≤ r.1)
            × Occurs sequence.steps (take (r.1 - start_from) (drop start_from events))
            × AreMatched sequence.steps r.0)
unfolding match_sequence_from
match_sequence_from-Occurs events sequence start_from =
    let same = match_steps-first_match events sequence.steps start_from in
    (
      λ n o.
          let (r, found, below) =
            first_match_complete sequence.steps (drop start_from events) start_from n o in
          (r, same ∙ found, below),
      λ r h.
          first_match-IsMatch sequence.steps (drop start_from events) start_from r (sym same ∙ h),
    )
