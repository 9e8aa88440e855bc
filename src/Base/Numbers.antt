-- ===== src/Base/Numbers.antt =====
-- The parsers of integers of Rust's standard library.
use Prim.Native.Char.{code}
use Prim.Native.String.{String}
use Prim.Native.Nat.{ℕ, zero, suc, ◌+◌, ◌-◌, ◌*◌, ◌^◌}
use mathlib.Core.Bool.{◌&&◌}
use mathlib.Core.Option.{Option, none, some}
use tantylla.Base.Tests.{leb, eqb, if◌then◌else◌}
use tantylla.Base.Int.{ℤ, pos, negsuc}

-- The digits of a text after a number.
unfoldable pub parse_digits : String → ℕ → Option ℕ
parse_digits String.[] n = some n
parse_digits (String.◌∷◌ c s) n =
    let rest = parse_digits s (n * 10 + (code c - b'0')) in
    if leb b'0' (code c) && leb (code c) b'9' then rest else none

abbrev pub digits : String → Option ℕ
digits String.[] = none
digits s = parse_digits s 0

abbrev pub negated : ℕ → ℤ
negated zero = pos 0
negated (suc n) = negsuc n

abbrev pub up_to {ℓ} : {A : Type ℓ} → (ℕ → A) → ℕ → Option ℕ → Option A
up_to f bound none = none
up_to f bound (some n) = if leb n bound then some (f n) else none

-- s.parse::<i64>()
unfoldable pub parse_i64 : String → Option ℤ
unfolding parse_digits
parse_i64 String.[] = none
parse_i64 (String.◌∷◌ c s) =
    if eqb (code c) b'-'
    then up_to negated (2 ^ 63) (digits s)
    else if eqb (code c) b'+'
    then up_to pos (2 ^ 63 - 1) (digits s)
    else up_to pos (2 ^ 63 - 1) (digits (String.◌∷◌ c s))

-- s.parse of an unsigned type, up to its largest value
unfoldable pub parse_unsigned : ℕ → String → Option ℕ
unfolding parse_digits
parse_unsigned bound String.[] = none
parse_unsigned bound (String.◌∷◌ c s) =
    if eqb (code c) b'+'
    then up_to (λ n. n) bound (digits s)
    else up_to (λ n. n) bound (digits (String.◌∷◌ c s))

-- s.parse::<u8>()
unfoldable pub parse_u8 : String → Option ℕ
unfolding parse_unsigned
parse_u8 s = parse_unsigned 255 s
