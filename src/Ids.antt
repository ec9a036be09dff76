-- ===== src/Ids.antt =====
-- utils/uuidfactory.go and `initSessIdPool` of fserver/server.go: two generators of 32-bit numbers.
-- A goroutine feeds them to a channel, so the numbers are received in the order they are made.
pub mod Keys
use my_cluster.Common.{
  ℕ, zero, suc, ◌+◌, ◌-◌, ◌*◌, ◌%◌, ◌^◌, ◌<◌, ◌≡◌, ◌≢◌, refl, arith, ltb, ◌==◌, if◌then◌else◌,
}

abbrev pub max_uint32 : ℕ
max_uint32 = 4294967295

-- The body of the loop of `startGen`, on the `uint32` that was made last.
unfoldable pub next_uuid : ℕ → ℕ
next_uuid id_gen = if ltb max_uint32 ((id_gen + 1) % 2 ^ 32) then 1 else (id_gen + 1) % 2 ^ 32

-- The `n`th number received, from 0; the generator starts from 0.
unfoldable pub uuid : ℕ → ℕ
uuid zero = next_uuid 0
uuid (suc n) = next_uuid (uuid n)

-- The body of the loop of `initSessIdPool` after `ct` was sent.
unfoldable pub next_session : ℕ → ℕ
next_session ct = if (ct + 1) % 2 ^ 32 == max_uint32 then 1 else (ct + 1) % 2 ^ 32

unfoldable pub session : ℕ → ℕ
session zero = 1
session (suc n) = next_session (session n)

uuid-mod : (n : ℕ) → uuid n ≡ (n + 1) % 2 ^ 32
unfolding uuid next_uuid
uuid-mod zero = refl
uuid-mod (suc n) = ground (arith, uuid-mod n)

session-mod : (n : ℕ) → session n ≡ n % (max_uint32 - 1) + 1
unfolding session next_session
session-mod zero = refl
session-mod (suc n) = ground (arith, session-mod n)

-- Of any 2 ^ 32 numbers that a generator of keys gives in a row, no two are the same.
pub uuid_distinct : (i j : ℕ) → i < j → j < i + 2 ^ 32 → uuid i ≢ uuid j
uuid_distinct i j a b e = omega (arith, e, uuid-mod i, uuid-mod j)

-- The numbers are never reset to 1, as the test for the greatest `uint32` cannot hold: each is the
-- one before it plus one, modulo 2 ^ 32, so that 0 is given in every round.
pub uuid_wraps :
    (n : ℕ) → (uuid (suc n) ≡ (uuid n + 1) % 2 ^ 32) × (uuid (2 ^ 32 * n + max_uint32) ≡ 0)
uuid_wraps n =
    (omega (arith, uuid-mod n, uuid-mod (suc n)), omega (arith, uuid-mod (2 ^ 32 * n + max_uint32)))

-- A session id is neither 0 nor the greatest `uint32`.
pub session_bounds : (i : ℕ) → (0 < session i) × (session i < max_uint32)
session_bounds i = (omega (arith, session-mod i), omega (arith, session-mod i))

-- Of any 2 ^ 32 - 2 session ids in a row no two are the same.
pub session_distinct : (i j : ℕ) → i < j → j < i + (max_uint32 - 1) → session i ≢ session j
session_distinct i j a b e = omega (arith, e, session-mod i, session-mod j)
