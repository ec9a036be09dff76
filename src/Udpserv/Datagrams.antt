-- ===== src/Udpserv/Datagrams.antt =====
-- udpserv/serv.go: what becomes of the datagrams.
use my_cluster.Common.{
  true, ℕ, zero, suc, ◌≤◌, ◌≡◌, refl, ap, ap₂, sym, ◌∙◌, List, [], ◌∷◌, ◌++◌, some, length, take,
  drop, take_append, append_assoc, append-nil, arith,
}
use my_cluster.Wire.{Bytes}
use my_cluster.Udpserv.{
  UdpServ, SendReq, Turn, exit_signal, takes_first, write_first, send_turn, datagram, overwrite,
  read_turn, receive,
}

take-take_append : (n : ℕ) (xs ys : Bytes) → n ≤ length xs → take n (xs ++ ys) ≡ take n xs
take-take_append zero xs ys h = refl
take-take_append (suc n) [] ys h = absurd (omega arith)
take-take_append (suc n) (x ∷ xs) ys h = ap (◌∷◌ x) (take-take_append n xs ys (omega arith))

length-take_mono :
    (n : ℕ) (xs ys : Bytes) → length xs ≤ length ys → length (take n xs) ≤ length (take n ys)
length-take_mono zero xs ys h = omega arith
length-take_mono (suc n) [] ys h = omega arith
length-take_mono (suc n) (x ∷ xs) [] h = absurd (omega arith)
length-take_mono (suc n) (x ∷ xs) (y ∷ ys) h =
    let rest = length-take_mono n xs ys (omega arith) in omega (arith, rest)

-- On a server that runs, two datagrams are read, from an empty channel, before the worker takes the
-- first, which is not longer than the second: of each at most 1024 bytes are read. The handler gets,
-- under the address of the first, as many bytes as were read of it, which are the beginning of the
-- second, and then the second under its own.
pub receive-overwritten :
    (a1 a2 : ℕ) (d1 d2 : Bytes) (s : UdpServ)
    → s.data_chan ≡ []
    → s.running ≡ true
    → length d1 ≤ length d2
    → (receive (receive (read_turn (datagram a2 d2) (read_turn (datagram a1 d1) s)))).received
      ≡ (s.received ++ (some a1, take (length (take 1024 d1)) (take 1024 d2)) ∷ [])
        ++ (some a2, take 1024 d2) ∷ []
unfolding receive read_turn
receive-overwritten a1 a2 d1 d2 s e on h =
    let r1 = take 1024 d1 in
    let r2 = take 1024 d2 in
    let both = overwrite r2 (overwrite r1 s.buffer) in
    let rest = drop (length r2) (overwrite r1 s.buffer) in
    rw (e, on)
      (ap₂ (λ (b1 b2 : Bytes). (s.received ++ (some a1, b1) ∷ []) ++ (some a2, b2) ∷ [])
        (take-take_append (length r1) r2 rest (length-take_mono 1024 d1 d2 h))
        (take_append r2 rest))

-- The turns in which the sending goroutine takes a request.
abbrev pub turns_taken : List Turn → ℕ
turns_taken [] = 0
turns_taken (exit_signal ∷ ts) = turns_taken ts
turns_taken (takes_first ∷ ts) = suc (turns_taken ts)

abbrev pub send_turns : List Turn → UdpServ → UdpServ
send_turns [] s = s
send_turns (t ∷ ts) s = send_turns ts (send_turn t s)

take-nil : (n : ℕ) → take {A = SendReq} n [] ≡ []
take-nil zero = refl
take-nil (suc n) = refl

write_first-written :
    (n : ℕ) (reqs : List SendReq) (s : UdpServ)
    → s.send_chan ≡ reqs
    → (write_first reqs s).written ++ take n (write_first reqs s).send_chan
      ≡ s.written ++ take (suc n) reqs
write_first-written n [] s e =
    ap (λ (reqs : List SendReq). s.written ++ reqs) (ap (take n) e ∙ take-nil n)
write_first-written n (req ∷ reqs) s e = append_assoc s.written (req ∷ []) (take n reqs)

-- In any turns of the sending goroutine it writes, in order, as many of the waiting requests as
-- there are turns in which it takes one; exit signals, before or between them, make no difference.
pub send_turns-written :
    (ts : List Turn) (s : UdpServ)
    → (send_turns ts s).written ≡ s.written ++ take (turns_taken ts) s.send_chan
unfolding send_turn
send_turns-written [] s = sym (append-nil s.written)
send_turns-written (exit_signal ∷ ts) s = send_turns-written ts s
send_turns-written (takes_first ∷ ts) s =
    send_turns-written ts (send_turn takes_first s)
    ∙ write_first-written (turns_taken ts) s.send_chan s refl
