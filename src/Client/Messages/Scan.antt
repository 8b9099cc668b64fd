-- ===== src/Client/Messages/Scan.antt =====
-- The loop of `splitMessages` of Client/client/client.go as a scan that carries the current part.
use distributed_matchmaking.Base.{
  joined, ℕ, suc, ◌+◌, ◌-◌, ◌<◌, ◌≡◌, refl, sym, ap, ◌∙◌, List, [], ◌∷◌, ◌++◌, true, false,
  Bool-cases, inl, inr, ◌==◌, ==_iff, Str, take, drop, length, length-append, All, All-append,
  Lacks, take-prefix, drop-prefix, arith,
}
use distributed_matchmaking.Client.Messages.{split_messages}
use distributed_matchmaking.Client.Messages.ByteLoop.{
  byte_loop, loop_hit, loop_miss, split_loop-byte_loop,
}
use distributed_matchmaking.Client.Runes.{HighFirst}
use mathlib.Core.List.{append_assoc, append-nil}

-- The same scan with the current part in place of indices.
unfoldable pub scan : ℕ → Str → Str → List Str × Str
scan d current [] = ([], current)
scan d current (char ∷ rest) = elim (char == d) [
  | true ↦ (current ∷ (scan d [] rest).0, (scan d [] rest).1)
  | false ↦ scan d (current ++ char ∷ []) rest
]

pub scan_hit :
    (d char : ℕ) (current rest : Str)
    → (char == d) ≡ true
    → scan d current (char ∷ rest) ≡ (current ∷ (scan d [] rest).0, (scan d [] rest).1)
unfolding scan
scan_hit d char current rest e = rw (e, scan)

scan_miss :
    (d char : ℕ) (current rest : Str)
    → (char == d) ≡ false
    → scan d current (char ∷ rest) ≡ scan d (current ++ char ∷ []) rest
unfolding scan
scan_miss d char current rest e = rw (e, scan)

current_part :
    (done current rest : Str) (n : ℕ)
    → n ≡ length done + length current
    → take (n - length done) (drop (length done) (done ++ (current ++ rest))) ≡ current
current_part done current rest n e =
    let k : n - length done ≡ length current = omega arith in
    rw (k, drop-prefix (length done) done (current ++ rest) refl)
      (take-prefix (length current) current rest refl)

shifted :
    (done current rest : Str) (char : ℕ)
    → done ++ (current ++ char ∷ rest) ≡ (done ++ (current ++ char ∷ [])) ++ rest
shifted done current rest char = simp append_assoc refl

loop-scan :
    (d : ℕ) (xs done current rest : Str) (i : ℕ) (parts : List Str)
    → xs ≡ done ++ (current ++ rest)
    → i ≡ length done + length current
    → let found = byte_loop d xs i (length done) rest parts in
      (found.0 ≡ parts ++ (scan d current rest).0) × (drop found.1 xs ≡ (scan d current rest).1)
loop-scan d xs done current [] i parts e n =
    unfold byte_loop scan in
    (
      sym (append-nil parts),
      rw (e, drop-prefix (length done) done (current ++ []) refl) (append-nil current),
    )
loop-scan d xs done current (char ∷ rest) i parts e n = elim (Bool-cases (char == d)) [
  | inl hit ↦
      let done' = done ++ (current ++ char ∷ []) in
      let size : length done' ≡ suc i =
        omega
          (arith, length-append done (current ++ char ∷ []), length-append current (char ∷ [])) in
      let part : take (i - length done) (drop (length done) xs) ≡ current =
        rw e (current_part done current (char ∷ rest) i n) in
      let (p, q) =
        loop-scan d xs done' [] rest (length done') (parts ++ current ∷ [])
          (e ∙ shifted done current rest char) (omega arith) in
      rw (loop_hit d xs i (length done) char rest parts hit, scan_hit d char current rest hit, part)
        (rw (← size) p ∙ append_assoc parts (current ∷ []) (scan d [] rest).0, rw (← size) q)
  | inr miss ↦
      rw (loop_miss d xs i (length done) char rest parts miss, scan_miss d char current rest miss)
        (loop-scan d xs done (current ++ char ∷ []) rest (suc i) parts
          (e ∙ ap (λ ys. done ++ ys) (shifted [] current rest char))
          (omega (arith, length-append current (char ∷ []))))
]

pub split_messages-scan : (d : ℕ) (xs : Str) → d < 0x80 → split_messages xs d ≡ scan d [] xs
unfolding split_messages
split_messages-scan d xs ascii =
    let (p, q) = loop-scan d xs [] [] xs 0 [] refl refl in
    rw (split_loop-byte_loop d xs 0 0 0 xs [] ascii (unfold HighFirst in tt)) (λ i. (p i, q i))

pub scan-joined :
    (d : ℕ) (current xs : Str)
    → joined d (scan d current xs).0 ++ (scan d current xs).1 ≡ current ++ xs
unfolding scan joined
scan-joined d current [] = sym (append-nil current)
scan-joined d current (char ∷ rest) = elim (Bool-cases (char == d)) [
  | inl hit ↦ rw (scan_hit d char current rest hit) (
      append_assoc current (d ∷ joined d (scan d [] rest).0) (scan d [] rest).1
      ∙ rw (scan-joined d [] rest, (==_iff char d).0 hit) refl)
  | inr miss ↦
      rw (scan_miss d char current rest miss)
        (scan-joined d (current ++ char ∷ []) rest ∙ append_assoc current (char ∷ []) rest)
]

pub scan-append :
    (d : ℕ) (current xs ys : Str)
    → scan d current (xs ++ ys) ≡ (
      (scan d current xs).0 ++ (scan d (scan d current xs).1 ys).0,
      (scan d (scan d current xs).1 ys).1,
    )
unfolding scan
scan-append d current [] ys = refl
scan-append d current (char ∷ xs) ys = elim (Bool-cases (char == d)) [
  | inl hit ↦
      let ih = scan-append d [] xs ys in
      rw (scan_hit d char current (xs ++ ys) hit, scan_hit d char current xs hit, ih) refl
  | inr miss ↦
      rw (scan_miss d char current (xs ++ ys) miss, scan_miss d char current xs miss)
        (scan-append d (current ++ char ∷ []) xs ys)
]

pub scan-Lacks :
    (d : ℕ) (current xs : Str)
    → Lacks d current
    → All (Lacks d) (scan d current xs).0 × Lacks d (scan d current xs).1
unfolding scan Lacks
scan-Lacks d current [] h = (tt, h)
scan-Lacks d current (char ∷ rest) h = elim (Bool-cases (char == d)) [
  | inl hit ↦
      let (p, q) = scan-Lacks d [] rest tt in rw (scan_hit d char current rest hit) ((h, p), q)
  | inr miss ↦
      rw (scan_miss d char current rest miss) (
        scan-Lacks d (current ++ char ∷ []) rest (All-append _ current (char ∷ []) (h, (miss, tt))))
]

pub scan_unbroken :
    (d : ℕ) (current xs ys : Str)
    → Lacks d xs
    → scan d current (xs ++ ys) ≡ scan d (current ++ xs) ys
unfolding Lacks
scan_unbroken d current [] ys h = rw (append-nil current) refl
scan_unbroken d current (char ∷ xs) ys (miss, h) =
    scan_miss d char current (xs ++ ys) miss
    ∙ scan_unbroken d (current ++ char ∷ []) xs ys h
    ∙ ap (λ zs. scan d zs ys) (append_assoc current (char ∷ []) xs)
