-- ===== src/Server/Chat/Lines.antt =====
-- What the server makes of the first line of a client.
use distributed_matchmaking.Base.{
  ℕ, ◌≡◌, refl, ap, map, ◌∙◌, List, [], ◌∷◌, ◌++◌, some, none, arith, Str, Lacks, concat, All,
  trim_space,
}
use distributed_matchmaking.Server.Chat.{
  join, broadcast, cut_at, read_string, listen, handle_client,
}
use mathlib.Core.List.{append_assoc}

-- Cutting behind a part that lacks the byte.
cut_at_found : (d : ℕ) (xs ys : Str) → Lacks d xs → cut_at d (xs ++ d ∷ ys) ≡ some (xs, ys)
unfolding cut_at Lacks
cut_at_found d [] ys h = ground arith
cut_at_found d (x ∷ xs) ys (miss, h) = rw (miss, cut_at, cut_at_found d xs ys h)

cut_at_missing : (d : ℕ) (xs : Str) → Lacks d xs → cut_at d xs ≡ none
unfolding cut_at Lacks
cut_at_missing d [] h = refl
cut_at_missing d (x ∷ xs) (miss, h) = rw (miss, cut_at, cut_at_missing d xs h)

-- The line is found however it is cut into chunks, and what stands behind it in its last chunk
-- is gone.
read_string_lem :
    (line : Str) (before : List Str) (last behind : Str) (chunks : List Str)
    → All (Lacks 0x0A) before
    → Lacks 0x0A last
    → read_string line (before ++ (last ++ 0x0A ∷ behind) ∷ chunks)
      ≡ some (line ++ (concat before ++ (last ++ 0x0A ∷ [])), chunks)
unfolding read_string concat
read_string_lem line [] last behind chunks h k = rw (cut_at_found 0x0A last behind k, read_string)
read_string_lem line (chunk ∷ before) last behind chunks (h, hs) k =
    rw (cut_at_missing 0x0A chunk h, read_string)
      (read_string_lem (line ++ chunk) before last behind chunks hs k ∙ simp append_assoc refl)

-- The texts that are not empty.
unfoldable pub nonempty : List Str → List Str
nonempty [] = []
nonempty ([] ∷ texts) = nonempty texts
nonempty ((c ∷ cs) ∷ texts) = (c ∷ cs) ∷ nonempty texts

listen-nonempty :
    (username room_id : Str) (chunks : List Str)
    → listen username room_id chunks ≡ map (broadcast username room_id) (nonempty chunks)
unfolding listen nonempty
listen-nonempty username room_id [] = refl
listen-nonempty username room_id ([] ∷ chunks) = listen-nonempty username room_id chunks
listen-nonempty username room_id ((c ∷ cs) ∷ chunks) =
    ap (λ ops. broadcast username room_id (c ∷ cs) ∷ ops) (listen-nonempty username room_id chunks)

pub handle_client_line :
    (conn : ℕ) (username room_id : Str) (before : List Str) (last behind : Str) (chunks : List Str)
    → All (Lacks 0x0A) before
    → Lacks 0x0A last
    → Lacks 0x23 username
    → trim_space (concat before ++ (last ++ 0x0A ∷ [])) ≡ username ++ 0x23 ∷ room_id
    → handle_client conn (before ++ (last ++ 0x0A ∷ behind) ∷ chunks)
      ≡ join conn room_id ∷ listen username room_id chunks
unfolding handle_client
handle_client_line conn username room_id before last behind chunks h k hash trimmed = rw (
  read_string_lem [] before last behind chunks h k,
  handle_client,
  trimmed,
  cut_at_found 0x23 username room_id hash,
)

-- A client whose first line, cut into chunks in any way, reads `username#roomId` between its
-- white space, with no `#` in the username, joins that room, and then what each of its later reads
-- returns is broadcast in that room under that name, once and in order, except empty texts. What
-- arrives in one read with the end of the line is never broadcast.
pub handle_client_lem :
    (conn : ℕ) (username room_id : Str) (before : List Str) (last behind : Str) (chunks : List Str)
    → All (Lacks 0x0A) before
    → Lacks 0x0A last
    → Lacks 0x23 username
    → trim_space (concat before ++ (last ++ 0x0A ∷ [])) ≡ username ++ 0x23 ∷ room_id
    → handle_client conn (before ++ (last ++ 0x0A ∷ behind) ∷ chunks)
      ≡ join conn room_id ∷ map (broadcast username room_id) (nonempty chunks)
handle_client_lem conn username room_id before last behind chunks h k hash trimmed =
    handle_client_line conn username room_id before last behind chunks h k hash trimmed
    ∙ ap (λ ops. join conn room_id ∷ ops) (listen-nonempty username room_id chunks)
