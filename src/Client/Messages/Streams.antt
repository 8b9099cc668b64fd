-- ===== src/Client/Messages/Streams.antt =====
-- `splitMessages` of Client/client/client.go on a text, and on a stream that comes in chunks.
use distributed_matchmaking.Base.{
  joined, ℕ, ◌<◌, ◌≡◌, arith, refl, sym, ap, ◌∙◌, List, [], ◌∷◌, ◌++◌, Str, All, Lacks, concat,
}
use distributed_matchmaking.Client.Messages.{newline, split_messages, receive_messages}
use mathlib.Core.List.{append_assoc}
use distributed_matchmaking.Client.Messages.Scan.{
  scan, scan-joined, scan-append, scan-Lacks, scan_unbroken, split_messages-scan,
}

split_messages-joined :
    (d : ℕ) (xs : Str)
    → d < 0x80
    → (joined d (split_messages xs d).0 ++ (split_messages xs d).1 ≡ xs)
      × All (Lacks d) (split_messages xs d).0
      × Lacks d (split_messages xs d).1
split_messages-joined d xs ascii =
    let (parts, left) = scan-Lacks d [] xs (unfold Lacks in tt) in
    rw (split_messages-scan d xs ascii) (scan-joined d [] xs, parts, left)

-- For a delimiter of ASCII, with each part ended by a delimiter again, the parts of splitMessages
-- followed by what it leaves are the text, and neither a part nor what is left has a delimiter in
-- it.
pub split_messages_lem :
    (d : ℕ) (xs : Str)
    → d < 0x80
    → (joined d (split_messages xs d).0 ++ (split_messages xs d).1 ≡ xs)
      × All (Lacks d) (split_messages xs d).0
      × Lacks d (split_messages xs d).1
split_messages_lem d xs ascii = split_messages-joined d xs ascii

receive_cons :
    (incomplete chunk : Str) (chunks : List Str)
    → let (messages, incomplete') = split_messages (incomplete ++ chunk) newline in
      let (more, left) = receive_messages incomplete' chunks in
      receive_messages incomplete (chunk ∷ chunks) ≡ (messages ++ more, left)
unfolding receive_messages
receive_cons incomplete chunk chunks = refl

-- What is kept back can be split together with what follows.
split_messages-append :
    (d : ℕ) (xs ys : Str)
    → d < 0x80
    → let (parts, left) = split_messages xs d in
      split_messages (xs ++ ys) d
      ≡ (parts ++ (split_messages (left ++ ys) d).0, (split_messages (left ++ ys) d).1)
split_messages-append d xs ys ascii =
    let (_, left) = scan-Lacks d [] xs (unfold Lacks in tt) in
    rw
      (
        split_messages-scan d xs ascii,
        split_messages-scan d (xs ++ ys) ascii,
        split_messages-scan d ((scan d [] xs).1 ++ ys) ascii,
        scan_unbroken d [] (scan d [] xs).1 ys left,
      )
      (scan-append d [] xs ys)

-- However the network cuts a stream into chunks, the messages that the client shows and what it
-- keeps back are those that splitMessages makes of the whole stream, if what it kept back before
-- has no newline in it.
pub receive_messages-split_messages :
    (incomplete : Str) (chunks : List Str)
    → Lacks newline incomplete
    → receive_messages incomplete chunks ≡ split_messages (incomplete ++ concat chunks) newline
unfolding concat
receive_messages-split_messages incomplete [] h =
    unfold receive_messages in
    sym (
      split_messages-scan newline (incomplete ++ []) (omega arith)
      ∙ scan_unbroken newline [] incomplete [] h
      ∙ unfold scan in refl)
receive_messages-split_messages incomplete (chunk ∷ chunks) h =
    let (_, _, left) = split_messages-joined newline (incomplete ++ chunk) (omega arith) in
    let ih =
      receive_messages-split_messages (split_messages (incomplete ++ chunk) newline).1 chunks
        left in
    receive_cons incomplete chunk chunks
    ∙ rw ih
        (sym (split_messages-append newline (incomplete ++ chunk) (concat chunks) (omega arith)))
    ∙ ap (λ ys. split_messages ys newline) (append_assoc incomplete chunk (concat chunks))
