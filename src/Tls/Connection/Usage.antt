-- ===== src/Tls/Connection/Usage.antt =====
-- How many bytes of the connection a call of TLS/tls uses up.
use distributed_matchmaking.Base.{
  ap, ℕ, ◌+◌, ◌≤◌, ◌≡◌, ◌≢◌, Option, some, none, Bool, true, false, arith, length, length-drop,
}
use distributed_matchmaking.Base.Actions.{
  Outcome, value, error, panic, after, ◌>>=◌, or_panic, check, pure,
}
use distributed_matchmaking.Tls.Connection.{
  TlsConnection, TlsError, Tls, out_of_fuel, read_full, read_tls_content, parse_header,
}

the_error : {A : Type 0} → TlsError → Outcome TlsError A → TlsError
the_error d (error e) = e
the_error d _ = d

error-injective :
    {A : Type 0} {e f : TlsError} → ◌≡◌ {A = Outcome TlsError A} (error e) (error f) → e ≡ f
unfolding the_error
error-injective {e = e} q = ap (the_error e) q

module _ {C K : Type 0} where
  -- Of `n` bytes the call has used `k` and returned, or it has failed but not run out of fuel.
  unfoldable pub Uses : {A : Type 0} → ℕ → ℕ → Outcome TlsError A × TlsConnection C K → Type 0
  Uses k n (value a, c) = length c.incoming + k ≤ n
  Uses k n (error e, c) = e ≢ out_of_fuel
  Uses k n (panic, c) = Unit

  after-Uses :
      {A B : Type 0} (f : A → Tls C K B) (r : Outcome TlsError A) (c : TlsConnection C K)
      (j k n : ℕ)
      → Uses j n (r, c)
      → ((a : A) (d : TlsConnection C K) → length d.incoming + j ≤ n → Uses k n (f a d))
      → Uses k n (after f r c)
  unfolding Uses
  after-Uses f (value a) c j k n h g = g a c h
  after-Uses f (error e) c j k n h g = h
  after-Uses f panic c j k n h g = tt

  pub bind-Uses :
      {A B : Type 0} (m : Tls C K A) (f : A → Tls C K B) (c : TlsConnection C K) (j k n : ℕ)
      → Uses j n (m c)
      → ((a : A) (d : TlsConnection C K) → length d.incoming + j ≤ n → Uses k n (f a d))
      → Uses k n ((m >>= f) c)
  bind-Uses m f c j k n h g = after-Uses f (m c).0 (m c).1 j k n h g

  pub value-Uses :
      {A : Type 0} (a : A) (c : TlsConnection C K) (j k n : ℕ)
      → length c.incoming + (j + k) ≤ n
      → Uses k n (value a, c)
  unfolding Uses
  value-Uses a c j k n h = omega arith

  pub Uses-weaken :
      {A : Type 0} (r : Outcome TlsError A) (c : TlsConnection C K) (m n : ℕ)
      → m ≤ n
      → Uses 0 m (r, c)
      → Uses 0 n (r, c)
  unfolding Uses
  Uses-weaken (value a) c m n le h = omega arith
  Uses-weaken (error e) c m n le h = h
  Uses-weaken panic c m n le h = tt

  pub round-Uses :
      (done : Bool) (more : Tls C K (Unit {0})) (c : TlsConnection C K) (n : ℕ)
      → length c.incoming ≤ n
      → Uses 0 n (more c)
      → Uses 0 n ((elim done as (λ _. Tls C K (Unit {0})) [ true ↦ pure tt | false ↦ more ]) c)
  unfolding Uses
  round-Uses true more c n h u = omega arith
  round-Uses false more c n h u = u

  pub ends-Uses :
      {A : Type 0} (r : Outcome TlsError A) (c : TlsConnection C K) (n : ℕ)
      → Uses 0 n (r, c)
      → r ≢ error out_of_fuel
  unfolding Uses
  ends-Uses (value a) c n h = ground arith
  ends-Uses (error e) c n h = λ q. h (error-injective q)
  ends-Uses panic c n h = ground arith

  pub or_panic-Uses :
      {A : Type 0} (x : Option A) (c : TlsConnection C K) (k n : ℕ)
      → length c.incoming + k ≤ n
      → Uses k n (or_panic x c)
  unfolding Uses
  or_panic-Uses none c k n h = tt
  or_panic-Uses (some a) c k n h = h

  pub check-Uses :
      (test : Bool) (e : TlsError) (c : TlsConnection C K) (k n : ℕ)
      → e ≢ out_of_fuel
      → length c.incoming + k ≤ n
      → Uses k n (check test e c)
  unfolding Uses
  check-Uses true e c k n ne h = h
  check-Uses false e c k n ne h = ne

  read_full-Uses :
      (size : ℕ) (c : TlsConnection C K) (k n : ℕ)
      → length c.incoming + k ≤ n
      → Uses (size + k) n (read_full size c)
  unfolding read_full Uses
  read_full-Uses size c k n h = ground (arith, length-drop size c.incoming)

  pub read_tls_content-Uses :
      (c : TlsConnection C K) (n : ℕ) → length c.incoming ≤ n → Uses 5 n (read_tls_content c)
  unfolding read_tls_content
  read_tls_content-Uses c n h =
      bind-Uses (read_full 5) _ c 5 5 n (read_full-Uses 5 c 0 n (omega arith)) (λ header d hd.
        bind-Uses (or_panic (parse_header header)) _ d 5 5 n
          (or_panic-Uses (parse_header header) d 5 n hd)
          (λ (t, version, length_bytes, size) e he.
            bind-Uses (read_full size) _ e (size + 5) 5 n (read_full-Uses size e 5 n he)
              (λ payload f hf. value-Uses _ f size 5 n hf)))
