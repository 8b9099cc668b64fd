-- ===== src/Client/Messages/ByteLoop.antt =====
-- The loop of `splitMessages` of Client/client/client.go for a delimiter of ASCII.
use distributed_matchmaking.Base.{
  ℕ, zero, suc, ◌-◌, ◌<◌, ◌≤◌, ◌≡◌, refl, sym, ◌∙◌, List, [], ◌∷◌, ◌++◌, true, false, Bool-cases,
  inl, inr, ◌==◌, Str, take, drop, arith,
}
use distributed_matchmaking.Client.Messages.{split_loop}
use distributed_matchmaking.Client.Runes.{decode_rune, HighFirst, decode_rune-cases}

-- For a delimiter of ASCII the loop may as well visit the bytes.
unfoldable pub byte_loop : ℕ → Str → ℕ → ℕ → Str → List Str → List Str × ℕ
byte_loop d xs i last_index [] parts = (parts, last_index)
byte_loop d xs i last_index (char ∷ rest) parts = elim (char == d) [
  | true ↦
      byte_loop d xs (suc i) (suc i) rest (parts ++ take (i - last_index) (drop last_index xs) ∷ [])
  | false ↦ byte_loop d xs (suc i) last_index rest parts
]

pub loop_hit :
    (d : ℕ) (xs : Str) (i last_index char : ℕ) (rest : Str) (parts : List Str)
    → (char == d) ≡ true
    → byte_loop d xs i last_index (char ∷ rest) parts
      ≡ byte_loop d xs
          (suc i)
          (suc i)
          rest
          (parts ++ take (i - last_index) (drop last_index xs) ∷ [])
unfolding byte_loop
loop_hit d xs i last_index char rest parts e = rw (e, byte_loop)

pub loop_miss :
    (d : ℕ) (xs : Str) (i last_index char : ℕ) (rest : Str) (parts : List Str)
    → (char == d) ≡ false
    → byte_loop d xs i last_index (char ∷ rest) parts ≡ byte_loop d xs (suc i) last_index rest parts
unfolding byte_loop
loop_miss d xs i last_index char rest parts e = rw (e, byte_loop)

rune_inside :
    (d : ℕ) (xs : Str) (i last_index inside byte : ℕ) (rest : Str) (parts : List Str)
    → split_loop d xs i last_index (suc inside) (byte ∷ rest) parts
      ≡ split_loop d xs (suc i) last_index inside rest parts
unfolding split_loop
rune_inside d xs i last_index inside byte rest parts = refl

rune_hit :
    (d : ℕ) (xs : Str) (i last_index byte : ℕ) (rest : Str) (parts : List Str)
    → ((decode_rune byte rest).0 == d) ≡ true
    → split_loop d xs i last_index 0 (byte ∷ rest) parts
      ≡ split_loop d xs
          (suc i)
          (suc i)
          ((decode_rune byte rest).1 - 1)
          rest
          (parts ++ take (i - last_index) (drop last_index xs) ∷ [])
unfolding split_loop
rune_hit d xs i last_index byte rest parts e = rw (e, split_loop) refl

rune_miss :
    (d : ℕ) (xs : Str) (i last_index byte : ℕ) (rest : Str) (parts : List Str)
    → ((decode_rune byte rest).0 == d) ≡ false
    → split_loop d xs i last_index 0 (byte ∷ rest) parts
      ≡ split_loop d xs (suc i) last_index ((decode_rune byte rest).1 - 1) rest parts
unfolding split_loop
rune_miss d xs i last_index byte rest parts e = rw (e, split_loop) refl

pub split_loop-byte_loop :
    (d : ℕ) (xs : Str) (i last_index inside : ℕ) (rest : Str) (parts : List Str)
    → d < 0x80
    → HighFirst inside rest
    → split_loop d xs i last_index inside rest parts ≡ byte_loop d xs i last_index rest parts
split_loop-byte_loop d xs i last_index zero [] parts ascii high =
    unfold split_loop byte_loop in refl
split_loop-byte_loop d xs i last_index (suc inside) [] parts ascii high =
    unfold split_loop byte_loop in refl
split_loop-byte_loop d xs i last_index (suc inside) (byte ∷ rest) parts ascii high =
    let (big, more) : (0x80 ≤ byte) × HighFirst inside rest = unfold HighFirst in high in
    let miss : (byte == d) ≡ false = ground arith in
    rune_inside d xs i last_index inside byte rest parts
    ∙ split_loop-byte_loop d xs (suc i) last_index inside rest parts ascii more
    ∙ sym (loop_miss d xs i last_index byte rest parts miss)
split_loop-byte_loop d xs i last_index zero (byte ∷ rest) parts ascii high =
    elim (decode_rune-cases byte rest) [
      | inl (e, w) ↦ elim (Bool-cases (byte == d)) [
        | inl hit ↦
            rune_hit d xs i last_index byte rest parts (rw e hit)
            ∙ rw w
                (split_loop-byte_loop d xs (suc i) (suc i) 0 rest _ ascii (unfold HighFirst in tt))
            ∙ sym (loop_hit d xs i last_index byte rest parts hit)
        | inr miss ↦
            rune_miss d xs i last_index byte rest parts (rw e miss)
            ∙ rw w (
                split_loop-byte_loop d xs (suc i) last_index 0 rest _ ascii
                  (unfold HighFirst in tt))
            ∙ sym (loop_miss d xs i last_index byte rest parts miss)
      ]
      | inr (big, (rune, more)) ↦
          let other : ((decode_rune byte rest).0 == d) ≡ false = ground arith in
          let miss : (byte == d) ≡ false = ground arith in
          rune_miss d xs i last_index byte rest parts other
          ∙ split_loop-byte_loop d xs (suc i) last_index _ rest parts ascii more
          ∙ sym (loop_miss d xs i last_index byte rest parts miss)
    ]
