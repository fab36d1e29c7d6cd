-- ===== src/Wire/Many.antt =====
-- Loops over many values of one format: the `for` loops in the packets that carry a list.
use goed2k.Common.{
  ℕ, zero, suc, ◌+◌, ◌*◌, ◌<◌, ◌≤◌, ◌≡◌, refl, List, [], ◌∷◌, ◌++◌, append_assoc, length,
  length-append, All, arith,
}
use goed2k.Wire.{ok, Reader, ◌>>=◌, pure, Serializable, IsFaithful, IsFaithfulBelow}

unfoldable pub get_many : {A : Type 0} → Reader A → ℕ → Reader (List A)
get_many get zero = pure []
get_many get (suc n) = get >>= λ a. get_many get n >>= λ as'. pure (a ∷ as')

unfoldable pub put_many : {A : Type 0} → (A → List ℕ) → List A → List ℕ
put_many put [] = []
put_many put (a ∷ as') = put a ++ put_many put as'

unfoldable pub total_count : {A : Type 0} → (A → ℕ) → List A → ℕ
total_count bytes_count [] = 0
total_count bytes_count (a ∷ as') = bytes_count a + total_count bytes_count as'

module _ {A : Type 0} (s : Serializable A) (IsValid : A → Type 0) (f : IsFaithful s IsValid) where
  -- The values of a list are read back by as many rounds.
  pub get_many-put :
      (vs : List A) (rest : List ℕ)
      → All IsValid vs
      → get_many s.get (length vs) (put_many s.put vs ++ rest) ≡ ok (vs, rest)
  unfolding get_many put_many
  get_many-put [] rest h = refl
  get_many-put (v ∷ vs) rest h = rw (
    append_assoc (s.put v) (put_many s.put vs) rest,
    f.round_trip v (put_many s.put vs ++ rest) h.0,
    get_many-put vs rest h.1,
  )

module _ {A : Type 0} (bound : ℕ) (s : Serializable A) (IsValid : A → Type 0)
    (f : IsFaithfulBelow bound s IsValid) where
  -- The same for an input of fewer than `bound` bytes.
  pub get_many_below-put :
      (vs : List A) (rest : List ℕ)
      → All IsValid vs
      → length (put_many s.put vs ++ rest) < bound
      → get_many s.get (length vs) (put_many s.put vs ++ rest) ≡ ok (vs, rest)
  unfolding get_many put_many
  get_many_below-put [] rest h b = refl
  get_many_below-put (v ∷ vs) rest h b =
      let tail = put_many s.put vs ++ rest in
      let e = append_assoc (s.put v) (put_many s.put vs) rest in
      let whole : length (s.put v ++ tail) < bound = rw e at b in
      let less : length tail < bound = omega (arith, whole, length-append (s.put v) tail) in
      rw (e, f.round_trip v tail h.0 whole, get_many_below-put vs rest h.1 less)

module _ {A : Type 0} (s : Serializable A) (IsValid : A → Type 0)
    (sized : (v : A) → IsValid v → length (s.put v) ≡ s.bytes_count v) where
  -- The sizes that are announced add up to the bytes that are written.
  pub length-put_many :
      (vs : List A) → All IsValid vs → length (put_many s.put vs) ≡ total_count s.bytes_count vs
  unfolding put_many total_count
  length-put_many [] h = refl
  length-put_many (v ∷ vs) h =
      omega
        (arith, length-append (s.put v) (put_many s.put vs), sized v h.0, length-put_many vs h.1)

  -- Values of at least `least` bytes each take that much in all.
  pub least-le-put_many :
      (least : ℕ) (vs : List A)
      → ((v : A) → IsValid v → least ≤ s.bytes_count v)
      → All IsValid vs
      → least * length vs ≤ length (put_many s.put vs)
  unfolding put_many
  least-le-put_many least [] b h = omega arith
  least-le-put_many least (v ∷ vs) b h = omega (
    arith,
    length-append (s.put v) (put_many s.put vs),
    sized v h.0,
    b v h.0,
    least-le-put_many least vs b h.1,
  )
