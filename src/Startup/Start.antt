-- ===== src/Startup/Start.antt =====
-- How a start of a binary ends: with a running process, with the error of `main`, or with a panic.
use tantylla.Base.{ℕ, String, Option, none, some}
use tantylla.Startup.Logger.{Tracing}

pub data Start {ℓ} (E : Type ℓ) (A : Type ℓ) : Type ℓ where
  running : A → Start E A
  stopped : E → Start E A
  panicked : Start E A

infixl 5 ◌>>=◌
abbrev pub ◌>>=◌ {ℓ} : {E A B : Type ℓ} → Start E A → (A → Start E B) → Start E B
running a >>= f = f a
stopped e >>= f = stopped e
panicked >>= f = panicked

-- The operator `?` with its error, and `unwrap`.
abbrev pub or_stop {ℓ} : {E A : Type ℓ} → E → Option A → Start E A
or_stop e none = stopped e
or_stop e (some a) = running a

abbrev pub or_panic {ℓ} : {E A : Type ℓ} → Option A → Start E A
or_panic none = panicked
or_panic (some a) = running a

-- What all three binaries use: the subscriber, the layer of test events and the texts of numbers.
pub record Process : Type 1 where
  pub tracing : Tracing
  pub connect_layer : ℕ → Option tracing.Layer
  pub number_text : ℕ → String

-- The layer of test events, if its port is given.
unfoldable pub test_layer :
    (process : Process) {E : Type 0} → E → Option ℕ → Start E (Option process.tracing.Layer)
test_layer process e none = running none
test_layer process e (some port) = elim (process.connect_layer port) [
  | none ↦ stopped e
  | some layer ↦ running (some layer)
]
