-- ===== src/Fnet/TcpClient/Retry.antt =====
-- fnet/tcpclient.go: what `Stop` does with the results of its attempts.
use my_cluster.Common.{
  ℕ, zero, suc, ◌+◌, ◌<◌, ◌≡◌, refl, ap, ◌∙◌, Bool, false, ◌||◌, [], ◌∷◌, ◌++◌, Option, none, some,
  append_assoc, if◌then◌else◌, ◌==◌, arith, Bool-cases, inl, inr,
}
use my_cluster.Fnet.TcpClient.{
  TcpClient, connection_lost, read_thread, reconnected, or_later, dial_again, re_connection,
  after_dial, start, stop,
}

-- The attempts from `i` on all fail, or one is the first that does not.
abbrev pub AllFail : (ℕ → Option ℕ) → ℕ → ℕ → Type 0
AllFail dial i zero = Unit
AllFail dial i (suc n) = (dial i ≡ none) × AllFail dial (i + 1) n

dial_again-fails : (dial : ℕ → Option ℕ) (i n : ℕ) → AllFail dial i n → dial_again dial i n ≡ none
unfolding dial_again
dial_again-fails dial i zero h = refl
dial_again-fails dial i (suc n) h =
    ap (λ o. or_later o (dial_again dial (i + 1) n)) h.0 ∙ dial_again-fails dial (i + 1) n h.1

dial_again-first :
    (dial : ℕ → Option ℕ) (i k n conn : ℕ)
    → AllFail dial i k
    → dial (i + k) ≡ some conn
    → k < n
    → dial_again dial i n ≡ some conn
unfolding dial_again
dial_again-first dial i k zero conn a e h = absurd (omega arith)
dial_again-first dial i zero (suc n) conn a e h =
    let same : i + 0 ≡ i = omega arith in
    ap (λ o. or_later o (dial_again dial (i + 1) n)) (rw same at e)
dial_again-first dial i (suc k) (suc n) conn a e h =
    let same : i + suc k ≡ i + 1 + k = omega arith in
    ap (λ o. or_later o (dial_again dial (i + 1) n)) a.0
    ∙ dial_again-first dial (i + 1) k n conn a.1 (rw same at e) (omega arith)

connected :
    (c : TcpClient) (conn : ℕ)
    → ((after_dial c (some conn)).conn ≡ conn)
      × ((after_dial c (some conn)).started
          ≡ c.started ++ (read_thread ∷ (if c.has_reconn_cb then reconnected ∷ [] else [])))
unfolding after_dial start
connected c conn = elim (Bool-cases c.has_reconn_cb) [
  | inl e ↦ rw e (refl, simp append_assoc)
  | inr e ↦ rw e (refl, refl)
]

-- A client that may retry takes the connection of its first attempt that succeeds, if that is among
-- the first `max_retry`: it starts its read loop on it and then its callback, if it has one.
pub stop_reconnects :
    (dial : ℕ → Option ℕ) (c : TcpClient) (k conn : ℕ)
    → AllFail dial 1 k
    → dial (1 + k) ≡ some conn
    → k < c.max_retry
    → ((stop false false dial c).conn ≡ conn)
      × ((stop false false dial c).started
          ≡ c.started ++ (read_thread ∷ (if c.has_reconn_cb then reconnected ∷ [] else [])))
unfolding stop re_connection
stop_reconnects dial c k conn a e h =
    let retries : (c.max_retry == 0) ≡ false = ground (arith, h) in
    rw (retries, dial_again-first dial 1 k c.max_retry conn a e h) (connected c conn)

-- A client whose attempts all fail goes silent: neither the callback for a lost connection nor any
-- other call is started. With no attempts to make, or when forced, it reports the loss once.
pub stop_fails :
    (dial : ℕ → Option ℕ) (c : TcpClient) (is_close is_force : Bool)
    → AllFail dial 1 c.max_retry
    → stop is_close is_force dial c ≡ (
        if c.max_retry == 0 || (is_close || is_force)
        then record c { started = c.started ++ connection_lost ∷ [] }
        else c)
unfolding stop re_connection after_dial
stop_fails dial c is_close is_force a =
    ap
      (λ o.
        if c.max_retry == 0 || (is_close || is_force)
        then record c { started = c.started ++ connection_lost ∷ [] }
        else after_dial c o)
      (dial_again-fails dial 1 c.max_retry a)
