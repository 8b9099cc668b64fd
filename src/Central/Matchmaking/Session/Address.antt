-- ===== src/Central/Matchmaking/Session/Address.antt =====
-- The client's IP in the address of its connection.
use distributed_matchmaking.Base.{
  ℕ, ◌≡◌, refl, ◌∙◌, sym, [], ◌∷◌, ◌++◌, true, false, Bool-cases, inl, inr, ◌==◌, if◌then◌else◌,
  arith, Str, Lacks,
}
use distributed_matchmaking.Central.Matchmaking.Session.{
  before_first, contains, trim_left, trim_right, client_ip,
}

before_first_lem : (d : ℕ) (xs ys : Str) → Lacks d xs → before_first d (xs ++ d ∷ ys) ≡ xs
unfolding before_first Lacks
before_first_lem d [] ys h = ground arith
before_first_lem d (x ∷ xs) ys (miss, h) = rw (miss, before_first, before_first_lem d xs ys h)

contains-Lacks : (d : ℕ) (xs : Str) → Lacks d xs → contains d xs ≡ false
unfolding contains Lacks
contains-Lacks d [] h = refl
contains-Lacks d (x ∷ xs) (miss, h) = rw (miss, contains, contains-Lacks d xs h)

contains-append : (d : ℕ) (xs ys : Str) → Lacks d xs → contains d (xs ++ ys) ≡ contains d ys
unfolding contains Lacks
contains-append d [] ys h = refl
contains-append d (x ∷ xs) ys (miss, h) = rw (miss, contains, contains-append d xs ys h)

trim_left-Lacks : (d : ℕ) (xs : Str) → Lacks d xs → trim_left d xs ≡ xs
unfolding trim_left Lacks
trim_left-Lacks d [] h = refl
trim_left-Lacks d (x ∷ xs) (miss, h) = rw (miss, trim_left)

trim_right-Lacks : (d : ℕ) (xs : Str) → Lacks d xs → trim_right d xs ≡ xs
unfolding trim_right Lacks
trim_right-Lacks d [] h = refl
trim_right-Lacks d (x ∷ []) (miss, h) = rw (miss, trim_right)
trim_right-Lacks d (x ∷ y ∷ xs) (miss, h) = rw (trim_right-Lacks d (y ∷ xs) h, trim_right)

contains_hit : (d x : ℕ) (xs : Str) → (x == d) ≡ true → contains d (x ∷ xs) ≡ true
unfolding contains
contains_hit d x xs hit = rw (hit, contains)

contains_miss : (d x : ℕ) (xs : Str) → (x == d) ≡ false → contains d (x ∷ xs) ≡ contains d xs
unfolding contains
contains_miss d x xs miss = rw (miss, contains)

contains-false : (d : ℕ) (xs : Str) → contains d xs ≡ false → Lacks d xs
unfolding contains Lacks
contains-false d [] h = tt
contains-false d (x ∷ xs) h = elim (Bool-cases (x == d)) [
  | inl hit ↦ absurd (ground (arith, contains_hit d x xs hit, h))
  | inr miss ↦ (miss, contains-false d xs (sym (contains_miss d x xs miss) ∙ h))
]

-- What `net.JoinHostPort` makes of the two, which is how `conn.RemoteAddr().String()` writes them.
unfoldable pub join_host_port : Str → Str → Str
join_host_port host port =
    if contains 0x3A host then 0x5B ∷ host ++ 0x5D ∷ 0x3A ∷ port else host ++ 0x3A ∷ port

bracketed :
    (host port : Str)
    → Lacks 0x5B host
    → Lacks 0x5D host
    → client_ip (0x5B ∷ host ++ 0x5D ∷ 0x3A ∷ port) ≡ host
unfolding client_ip
bracketed host port no_open no_close =
    let front = before_first_lem 0x5D host (0x3A ∷ port) no_close in
    rw (front, trim_left-Lacks 0x5B host no_open) (trim_right-Lacks 0x5B host no_open)

bare :
    (host port : Str)
    → Lacks 0x5B host
    → Lacks 0x5B port
    → Lacks 0x3A host
    → client_ip (host ++ 0x3A ∷ port) ≡ host
unfolding client_ip
bare host port no_open open_port plain =
    let none_here : contains 0x5B (host ++ 0x3A ∷ port) ≡ false =
      contains-append 0x5B host (0x3A ∷ port) no_open
      ∙ contains-Lacks 0x5B (0x3A ∷ port) (unfold Lacks in (refl, unfold Lacks in open_port)) in
    rw (none_here, client_ip) (before_first_lem 0x3A host port plain)

-- From the address of a connection, with or without the brackets of an IPv6 address, the handler
-- takes the IP, if neither the IP nor the port has a bracket in it.
pub client_ip-join_host_port :
    (host port : Str)
    → Lacks 0x5B host
    → Lacks 0x5D host
    → Lacks 0x5B port
    → client_ip (join_host_port host port) ≡ host
unfolding join_host_port
client_ip-join_host_port host port no_open no_close open_port =
    elim (Bool-cases (contains 0x3A host)) [
      | inl colon ↦ rw (colon, join_host_port) (bracketed host port no_open no_close)
      | inr plain ↦
          rw (plain, join_host_port)
            (bare host port no_open open_port (contains-false 0x3A host plain))
    ]
