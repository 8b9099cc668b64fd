-- ===== src/Tls/Bytes.antt =====
-- Byte strings of the TLS library: two-byte lengths and slice expressions.
use distributed_matchmaking.Base.{
  ℕ, ◌+◌, ◌-◌, ◌*◌, ◌/◌, ◌%◌, ◌<◌, ◌≡◌, List, [], ◌∷◌, Option, some, none, ◌&&◌, leb, if◌then◌else◌,
  length, take, drop, arith,
}

abbrev pub IsByte : ℕ → Type 0
IsByte b = b < 256

-- `binary.BigEndian.PutUint16(b, uint16(n))`: the conversion keeps the low sixteen bits.
unfoldable pub put_uint16 : ℕ → List ℕ
put_uint16 n = (n % 65536 / 256) ∷ (n % 256) ∷ []

-- `binary.BigEndian.Uint16` of two bytes.
unfoldable pub uint16 : ℕ → ℕ → ℕ
uint16 high low = high * 256 + low

pub uint16-put_uint16 : (n : ℕ) → uint16 (n % 65536 / 256) (n % 256) ≡ n % 65536
unfolding uint16
uint16-put_uint16 n = omega arith

-- `xs[a:b]` on a slice without spare capacity; `none` is the panic.
unfoldable pub slice : ℕ → ℕ → List ℕ → Option (List ℕ)
slice a b xs = if leb a b && leb b (length xs) then some (take (b - a) (drop a xs)) else none

-- `xs[a:]`
unfoldable pub slice_from : ℕ → List ℕ → Option (List ℕ)
slice_from a xs = if leb a (length xs) then some (drop a xs) else none
