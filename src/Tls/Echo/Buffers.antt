-- ===== src/Tls/Echo/Buffers.antt =====
-- The buffer of 1024 bytes of TLS/client.go and TLS/server.go, and what is typed.
use distributed_matchmaking.Base.{
  ℕ, zero, suc, ◌≤◌, ◌<◌, ◌≡◌, refl, ap, ◌∙◌, List, [], ◌∷◌, ◌++◌, some, false, arith,
  All-replicate, All-take, All-drop, All-append, Str, bytes, str_eq, length, take, drop,
  length-append, length-take, length-drop, length-replicate, take-whole, take-append,
}
use distributed_matchmaking.Tls.Bytes.{IsByte}
use distributed_matchmaking.Tls.Cipher.RoundTrip.{AreBytes}
use distributed_matchmaking.Tls.Connection.{copy_into}
use distributed_matchmaking.Tls.Echo.{fresh_buffer, without_last}
use mathlib.Core.List.{append-nil}

-- A message in a buffer of 1024 bytes: what does not fit is cut off, and zeros fill the rest.
unfoldable pub padded : Str → Str
padded message = copy_into fresh_buffer message

length-copy_into : (buffer content : List ℕ) → length (copy_into buffer content) ≡ length buffer
unfolding copy_into
length-copy_into buffer content = omega (
  arith,
  length-append (take (length buffer) content) (drop (length content) buffer),
  length-take (length buffer) content,
  length-drop (length content) buffer,
)

drop_all : (xs : List ℕ) (n : ℕ) → length xs ≤ n → drop n xs ≡ []
drop_all [] zero h = refl
drop_all [] (suc n) h = refl
drop_all (x ∷ xs) zero h = elim h [ ]
drop_all (x ∷ xs) (suc n) h = drop_all xs n (omega arith)

copy_into-full :
    (buffer content : List ℕ) → length content ≡ length buffer → copy_into buffer content ≡ content
unfolding copy_into
copy_into-full buffer content e =
    rw
      (
        drop_all buffer (length content) (omega arith),
        take-whole content (length buffer) (omega arith),
        append-nil content,
      )
      refl

pub length-padded : (message : Str) → length (padded message) ≡ 1024
unfolding padded fresh_buffer
length-padded message = length-copy_into (fresh_buffer) message ∙ length-replicate {A = ℕ} 1024 0

pub take-padded : (message : Str) → take (length fresh_buffer) (padded message) ≡ padded message
unfolding padded
take-padded message =
    take-whole (padded message) (length fresh_buffer)
      (omega (arith, length-copy_into fresh_buffer message))

pub padded-padded : (message : Str) → padded (padded message) ≡ padded message
unfolding padded
padded-padded message =
    copy_into-full fresh_buffer (padded message) (length-copy_into fresh_buffer message)

pub padded-AreBytes : (message : Str) → AreBytes message → AreBytes (padded message)
unfolding padded fresh_buffer copy_into
padded-AreBytes message h =
    All-append IsByte (take (length fresh_buffer) message) (drop (length message) fresh_buffer) (
      All-take IsByte (length fresh_buffer) message h,
      All-drop IsByte (length message) fresh_buffer (All-replicate IsByte 1024 0 (omega arith)),
    )

pub without_last_lem : (message : Str) → without_last (message ++ 0x0A ∷ []) ≡ some message
unfolding without_last
without_last_lem [] = refl
without_last_lem (x ∷ xs) =
    let one_more : length (xs ++ 0x0A ∷ []) ≡ suc (length xs) =
      omega (arith, length-append xs (0x0A ∷ [])) in
    ap (λ n. some (take n (x ∷ (xs ++ 0x0A ∷ [])))) one_more
    ∙ ap some (take-append (x ∷ xs) (0x0A ∷ []))

-- What the client can send: bytes that fit into a record, and that do not end the loop.
abbrev pub Sendable : Str → Type 0
Sendable message =
    AreBytes message × (length message < 65000) × (str_eq message (bytes "exit") ≡ false)

-- The lines that are typed for messages, each with its newline, and `exit`.
unfoldable pub typed : List Str → List Str
typed [] = (bytes "exit" ++ 0x0A ∷ []) ∷ []
typed (message ∷ messages) = (message ++ 0x0A ∷ []) ∷ typed messages
