-- ===== src/Client/Messages.antt =====
-- The chat messages that Client/client/client.go makes of what it reads.
pub mod ByteLoop
pub mod Scan
pub mod Streams
use distributed_matchmaking.Client.Runes.{decode_rune}
use distributed_matchmaking.Base.{
  ℕ, zero, suc, ◌-◌, List, [], ◌∷◌, ◌++◌, true, false, ◌==◌, Str, take, drop,
}

abbrev pub newline : ℕ
newline = 10

-- The loop of `splitMessages` from the index `i`, where `rest` is what is left of `data`: the
-- parts, and the last index. `range` passes over the `inside` bytes that belong to a rune that has
-- begun; the last index is one past the first byte of the delimiter.
unfoldable pub split_loop : ℕ → Str → ℕ → ℕ → ℕ → Str → List Str → List Str × ℕ
unfolding decode_rune
split_loop delimiter data_bytes i last_index inside [] parts = (parts, last_index)
split_loop delimiter data_bytes i last_index (suc inside) (byte ∷ rest) parts =
    split_loop delimiter data_bytes (suc i) last_index inside rest parts
split_loop delimiter data_bytes i last_index zero (byte ∷ rest) parts =
    let (char, width) = decode_rune byte rest in
    elim (char == delimiter) [
      | true ↦
          split_loop delimiter data_bytes (suc i) (suc i) (width - 1) rest
            (parts ++ take (i - last_index) (drop last_index data_bytes) ∷ [])
      | false ↦ split_loop delimiter data_bytes (suc i) last_index (width - 1) rest parts
    ]

-- `splitMessages`: the parts, and what it leaves in `*data`.
unfoldable pub split_messages : Str → ℕ → List Str × Str
unfolding split_loop
split_messages data_bytes delimiter =
    let (parts, last_index) = split_loop delimiter data_bytes 0 0 0 data_bytes [] in
    (parts, drop last_index data_bytes)

-- The reading goroutine of `StartChat` over the chunks that `Read` returns on one connection: the
-- messages that it sends on the channel, and what stays in `incomplete`.
unfoldable pub receive_messages : Str → List Str → List Str × Str
unfolding split_messages
receive_messages incomplete [] = ([], incomplete)
receive_messages incomplete (chunk ∷ chunks) =
    let (messages, incomplete') = split_messages (incomplete ++ chunk) newline in
    let (more, left) = receive_messages incomplete' chunks in (messages ++ more, left)
