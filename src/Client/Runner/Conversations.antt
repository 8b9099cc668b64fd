-- ===== src/Client/Runner/Conversations.antt =====
-- What `chatPage` of Client/runner/client_runner.go shows of what a chat server sends.
use distributed_matchmaking.Base.{
  ℕ, ◌≡◌, refl, sym, ap, arith, ◌∙◌, List, [], ◌∷◌, ◌++◌, map, false, if◌then◌else◌, Str, bytes,
  str_eq, ok, Lacks, All, All-append, concat, ◌==◌, joined, ==_iff,
}
use distributed_matchmaking.Server.Chat.{chat_line}
use distributed_matchmaking.Client.Messages.{newline, receive_messages}
use distributed_matchmaking.Client.Messages.Scan.{
  scan, scan_hit, scan_unbroken, split_messages-scan,
}
use distributed_matchmaking.Client.Messages.Streams.{receive_messages-split_messages}
use distributed_matchmaking.Client.Runner.Pages.{
  has_prefix, shown_line, chat_text, shows, chat_page,
}
use mathlib.Core.List.{append_assoc, append-nil}

scan-joined_lines :
    (d : ℕ) (lines : List Str) → All (Lacks d) lines → scan d [] (joined d lines) ≡ (lines, [])
unfolding joined
scan-joined_lines d [] all = unfold scan in refl
scan-joined_lines d (line ∷ lines) (h, more) =
    scan_unbroken d [] line (d ∷ joined d lines) h
    ∙ scan_hit d d line (joined d lines) ((==_iff d d).1 refl)
    ∙ rw (scan-joined_lines d lines more) refl

chat_text-concat :
    (user_name text : Str) (messages : List Str)
    → chat_text user_name text messages ≡ text ++ concat (map (shown_line user_name) messages)
unfolding chat_text concat
chat_text-concat user_name text [] = sym (append-nil text)
chat_text-concat user_name text (message ∷ messages) =
    chat_text-concat user_name (text ++ shown_line user_name message) messages
    ∙ append_assoc text (shown_line user_name message)
        (concat (map (shown_line user_name) messages))

started :
    (user_name : Str) (messages : List Str)
    → chat_page user_name (bytes "START_CHAT" ∷ messages)
      ≡ ok (shows (chat_text user_name [] messages))
unfolding chat_page str_eq
started user_name messages = refl

-- When the chat has started, whatever whole lines a chat server sends, and however the network cuts
-- them into chunks, the client shows these lines, each once and in order, and keeps nothing back.
chat_page-lines :
    (user_name : Str) (lines chunks : List Str)
    → All (Lacks newline) lines
    → concat chunks ≡ joined newline lines
    → let (messages, left) = receive_messages [] chunks in
      (chat_page user_name (bytes "START_CHAT" ∷ messages)
        ≡ ok (shows (concat (map (shown_line user_name) lines))))
      × (left ≡ [])
chat_page-lines user_name lines chunks all whole =
    let split : receive_messages [] chunks ≡ (lines, []) =
      receive_messages-split_messages [] chunks (unfold Lacks in tt)
      ∙ rw whole (
          split_messages-scan newline (joined newline lines) (omega arith)
          ∙ scan-joined_lines newline lines all) in
    rw split (
      started user_name lines ∙ ap (λ text. ok (shows text)) (chat_text-concat user_name [] lines),
      refl,
    )

-- What is said: who, and the text that `SendMessage` gets.
abbrev pub Said : Type 0
Said = Str × Str

-- What the chat server sends of it: `SendMessage` ends the text by a newline, and the server ends
-- the line by another.
unfoldable pub broadcasts : List Said → List Str
broadcasts [] = []
broadcasts ((username, message) ∷ said) =
    chat_line username (message ++ newline ∷ []) ∷ broadcasts said

unfoldable pub said_line : Str → Str → Str
said_line username message = username ++ (bytes ": " ++ message)

-- A line that begins with the client's own name is yellow, every other is green.
unfoldable pub colour : Str → Str → Str
colour user_name line = if has_prefix user_name line then bytes "[yellow]" else bytes "[green]"

-- The conversation as the client is to see it: each message under the name of who said it, with an
-- empty line behind it.
unfoldable pub conversation : Str → List Said → Str
unfolding colour
conversation user_name [] = []
conversation user_name ((username, message) ∷ said) =
    colour user_name (username ++ (bytes ": " ++ message))
    ++ (username
        ++ (bytes ": "
            ++ (message
                ++ (bytes "[white]\n"
                    ++ (colour user_name []
                        ++ (bytes "[white]\n" ++ conversation user_name said))))))

said_lines : List Said → List Str
said_lines [] = []
said_lines ((username, message) ∷ said) = said_line username message ∷ [] ∷ said_lines said

chat_line-joined :
    (username message : Str) (rest : Str)
    → chat_line username (message ++ newline ∷ []) ++ rest
      ≡ said_line username message ++ (newline ∷ newline ∷ rest)
unfolding chat_line said_line
chat_line-joined username message rest = simp append_assoc refl

concat-broadcasts : (said : List Said) → concat (broadcasts said) ≡ joined newline (said_lines said)
unfolding concat broadcasts joined said_lines
concat-broadcasts [] = refl
concat-broadcasts ((username, message) ∷ said) =
    chat_line-joined username message (concat (broadcasts said))
    ∙ ap (λ rest. said_line username message ++ (newline ∷ newline ∷ rest)) (concat-broadcasts said)

-- Neither the name nor the text has a newline.
abbrev pub OneLine : Said → Type 0
OneLine said = Lacks newline said.0 × Lacks newline said.1

said_line-Lacks :
    (username message : Str)
    → Lacks newline username
    → Lacks newline message
    → Lacks newline (said_line username message)
unfolding said_line Lacks
said_line-Lacks username message h k =
    All-append (λ c. (c == newline) ≡ false) username (bytes ": " ++ message) (h, (refl, (refl, k)))

said_lines-Lacks : (said : List Said) → All OneLine said → All (Lacks newline) (said_lines said)
unfolding said_lines
said_lines-Lacks [] all = tt
said_lines-Lacks ((username, message) ∷ said) ((h, k), more) =
    (said_line-Lacks username message h k, (unfold Lacks in tt, said_lines-Lacks said more))

shown_message :
    (user_name username message rest : Str)
    → shown_line user_name (said_line username message) ++ (shown_line user_name [] ++ rest)
      ≡ colour user_name (username ++ (bytes ": " ++ message))
        ++ (username
            ++ (bytes ": "
                ++ (message
                    ++ (bytes "[white]\n"
                        ++ (colour user_name [] ++ (bytes "[white]\n" ++ rest))))))
unfolding shown_line said_line colour
shown_message user_name username message rest = simp append_assoc refl

shown-conversation :
    (user_name : Str) (said : List Said)
    → concat (map (shown_line user_name) (said_lines said)) ≡ conversation user_name said
unfolding concat said_lines conversation
shown-conversation user_name [] = refl
shown-conversation user_name ((username, message) ∷ said) =
    ap
      (λ rest.
        shown_line user_name (said_line username message) ++ (shown_line user_name [] ++ rest))
      (shown-conversation user_name said)
    ∙ shown_message user_name username message (conversation user_name said)

-- When the chat has started, whatever is said in the room, in names and texts without a newline
-- that reach the server one by one, and however the network cuts what the server sends into chunks,
-- the client shows every message, once and in order, each under the name of who said it, in yellow
-- if its line begins with the client's own name and else in green, and with an empty line behind
-- it, and keeps nothing back.
pub chat_page-conversation :
    (user_name : Str) (said : List Said) (chunks : List Str)
    → All OneLine said
    → concat chunks ≡ concat (broadcasts said)
    → let (messages, left) = receive_messages [] chunks in
      (chat_page user_name (bytes "START_CHAT" ∷ messages)
        ≡ ok (shows (conversation user_name said)))
      × (left ≡ [])
chat_page-conversation user_name said chunks all whole = rw (← shown-conversation user_name said) (
    chat_page-lines user_name (said_lines said) chunks (said_lines-Lacks said all)
      (whole ∙ concat-broadcasts said))
