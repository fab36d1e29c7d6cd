-- ===== src/Wire.antt =====
-- The bytes of packets: protocol/. A `*bytes.Reader` is the list of the bytes that are left, a
-- `*bytes.Buffer` the list of the bytes that were written, to which no write fails.
pub mod Basic
pub mod RoundTrip
pub mod Tag
pub mod Header
pub mod Client
pub mod Parts
pub mod Many
pub mod Server
pub mod ServerMet
pub mod Frame
pub mod Stream
pub mod Status
mod Examples
mod ServerExamples
mod StreamExamples
use goed2k.Common.{ℕ, ◌<◌, List, [], ◌∷◌, ◌++◌, ◌≡◌, length}

-- The errors of the standard library's readers, and of this package.
pub data Error : Type 0 where
  eof unexpected_eof illegal_argument buffer_too_large too_many_tags too_many_servers not_registered
        unsupported_tag bad_packet bad_contacts :
      Error

pub data Result {ℓ} (A : Type ℓ) : Type ℓ where
  ok : A → Result A
  err : Error → Result A

-- A read gives a value and what is left of the input. An error ends the whole read.
abbrev pub Reader : Type 0 → Type 0
Reader A = List ℕ → Result (A × List ℕ)

abbrev pub and_then : {A B : Type 0} → Result (A × List ℕ) → (A → Reader B) → Result (B × List ℕ)
and_then (ok (a, rest)) f = f a rest
and_then (err e) f = err e

infixl 5 ◌>>=◌
abbrev pub ◌>>=◌ : {A B : Type 0} → Reader A → (A → Reader B) → Reader B
◌>>=◌ m f src = and_then (m src) f

abbrev pub pure : {A : Type 0} → A → Reader A
pure a src = ok (a, src)

abbrev pub fail : {A : Type 0} → Error → Reader A
fail e src = err e

-- The `Serializable` interface of protocol/serializable.go.
pub record Serializable (A : Type 0) : Type 0 where
  pub get : Reader A
  pub put : A → List ℕ
  pub bytes_count : A → ℕ

-- A format keeps its promises on the values of a kind: what was written is read back, with whatever
-- follows it left over, and it takes the number of bytes that was announced.
pub record IsFaithful {A : Type 0} (s : Serializable A) (IsValid : A → Type 0) : Type 0 where
  pub round_trip : (v : A) (rest : List ℕ) → IsValid v → s.get (s.put v ++ rest) ≡ ok (v, rest)
  pub sized : (v : A) → IsValid v → length (s.put v) ≡ s.bytes_count v

-- The same for inputs of fewer than `bound` bytes.
pub record IsFaithfulBelow {A : Type 0} (bound : ℕ) (s : Serializable A) (IsValid : A → Type 0)
    : Type 0 where
  pub round_trip :
      (v : A) (rest : List ℕ)
      → IsValid v
      → length (s.put v ++ rest) < bound
      → s.get (s.put v ++ rest) ≡ ok (v, rest)
  pub sized : (v : A) → IsValid v → length (s.put v) ≡ s.bytes_count v
