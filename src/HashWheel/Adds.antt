-- ===== src/HashWheel/Adds.antt =====
-- timer/hashwheel.go: which timers a chain of wheels holds after one was added.
use my_cluster.Common.{
  ℕ, zero, suc, ◌+◌, ◌*◌, ◌%◌, ◌≤◌, ◌<◌, ◌≡◌, refl, ap, ◌∙◌, Bool, true, false, ◌&&◌, ◌||◌,
  or_assoc, or_swap, List, [], ◌∷◌, none, some, leb, ◌==◌, get_or, set, length, length-set, insert,
  nat_eq, has_key, has_key-insert, arith, Bool-cases, inl, inr,
}
use my_cluster.HashWheel.{
  SafeTimer, Slot, Wheel, find_slot, put, put_ahead, add_here, add_chain, add2wheel_chain,
}

mod_below : (a n : ℕ) → 0 < n → a % n < n
mod_below a n h = omega arith

module _ {C : Type 0} where
  abbrev pub any_slot : ℕ → List (Slot C) → Bool
  any_slot k [] = false
  any_slot k (s ∷ ss) = has_key k s || any_slot k ss

  -- A timer with this id stands in some slot of some wheel.
  abbrev pub holds : ℕ → List (Wheel C) → Bool
  holds k [] = false
  holds k (w ∷ ws) = any_slot k w.timer_queue || holds k ws

  pub record IsWheel (w : Wheel C) : Type 0 where
    pub some_level : 0 < w.level
    pub all_slots : length w.timer_queue ≡ w.level

  abbrev pub AllWheels : List (Wheel C) → Type 0
  AllWheels [] = Unit
  AllWheels (w ∷ ws) = IsWheel w × AllWheels ws

  any_slot-insert :
      (k tid i : ℕ) (t : SafeTimer C) (q : List (Slot C))
      → i < length q
      → any_slot k (set q i (insert tid t (get_or q i []))) ≡ ((tid == k) || any_slot k q)
  any_slot-insert k tid i t [] h = elim h [ ]
  any_slot-insert k tid zero t (s ∷ ss) h =
      ap (λ b. b || any_slot k ss) (has_key-insert tid k t s)
      ∙ or_assoc (tid == k) (has_key k s) (any_slot k ss)
  any_slot-insert k tid (suc i) t (s ∷ ss) h =
      ap (λ b. has_key k s || b) (any_slot-insert k tid i t ss (omega arith))
      ∙ or_swap (has_key k s) (tid == k) (any_slot k ss)

  put-holds :
      (k i tid : ℕ) (t : SafeTimer C) (w : Wheel C)
      → IsWheel w
      → i < w.level
      → IsWheel (put i tid t w)
        × (any_slot k (put i tid t w).timer_queue ≡ ((tid == k) || any_slot k w.timer_queue))
  unfolding put
  put-holds k i tid t w v h = (
    record {
      some_level = v.some_level;
      all_slots =
          length-set w.timer_queue i (insert tid t (get_or w.timer_queue i [])) ∙ v.all_slots;
    },
    any_slot-insert k tid i t w.timer_queue (omega (arith, v.all_slots)),
  )

  put_ahead-holds :
      (k tid i : ℕ) (force : Bool) (t : SafeTimer C) (w : Wheel C)
      → IsWheel w
      → let w' = put_ahead force tid t w (some i) in
        IsWheel w' × (any_slot k w'.timer_queue ≡ ((tid == k) || any_slot k w.timer_queue))
  unfolding put_ahead
  put_ahead-holds k tid i force t w v =
      elim (Bool-cases (((i + w.index) % w.level == w.index) && force)) [
        | inl e ↦ rw e (
            put-holds k ((i + w.index + 1) % w.level) tid t w v
              (mod_below (i + w.index + 1) w.level v.some_level))
        | inr e ↦ rw e (
            put-holds k ((i + w.index) % w.level) tid t w v
              (mod_below (i + w.index) w.level v.some_level))
      ]

find_slot-due :
    (interval now unixts n : ℕ)
    → now ≤ unixts
    → 0 < n
    → (i : ℕ) × (find_slot interval now unixts n ≡ some i)
unfolding find_slot
find_slot-due interval now unixts zero h p = absurd (omega arith)
find_slot-due interval now unixts (suc zero) h p =
    (0, (let ok : leb (now + 0 * interval) unixts ≡ true = ground arith in rw ok refl))
find_slot-due interval now unixts (suc (suc n)) h p =
    elim (Bool-cases (leb (now + suc n * interval) unixts)) [
      | inl e ↦ (suc n, rw e refl)
      | inr e ↦
          let rest = find_slot-due interval now unixts (suc n) h (omega arith) in
          (rest.0, rw e rest.1)
    ]

find_slot-past : (interval now unixts n : ℕ) → unixts < now → find_slot interval now unixts n ≡ none
unfolding find_slot
find_slot-past interval now unixts zero h = refl
find_slot-past interval now unixts (suc n) h =
    let late : leb (now + n * interval) unixts ≡ false = ground arith in
    rw late (find_slot-past interval now unixts n h)

module _ {C : Type 0} where
  add_here-due :
      (k now tid : ℕ) (force : Bool) (t : SafeTimer C) (w : Wheel C)
      → IsWheel w
      → now ≤ t.unixts
      → let w' = add_here force now tid t w in
        IsWheel w' × (any_slot k w'.timer_queue ≡ ((tid == k) || any_slot k w.timer_queue))
  unfolding add_here
  add_here-due k now tid force t w v h =
      let found = find_slot-due w.level_interval now t.unixts w.level h v.some_level in
      rw found.1 (put_ahead-holds k tid found.0 force t w v)

  add_here-past :
      (now tid : ℕ) (force : Bool) (t : SafeTimer C) (w : Wheel C)
      → t.unixts < now
      → add_here force now tid t w ≡ w
  unfolding add_here put_ahead
  add_here-past now tid force t w h =
      ap (put_ahead force tid t w) (find_slot-past w.level_interval now t.unixts w.level h)

  pub add_chain-due :
      (k now tid : ℕ) (force : Bool) (t : SafeTimer C) (ws : List (Wheel C))
      → AllWheels ws
      → 0 < length ws
      → now ≤ t.unixts
      → let us = add_chain force now tid t ws in
        AllWheels us × (0 < length us) × (holds k us ≡ ((tid == k) || holds k ws))
  unfolding add_chain
  add_chain-due k now tid force t [] v p h = elim p [ ]
  add_chain-due k now tid force t (w ∷ []) v p h =
      let one = add_here-due k now tid force t w v.0 h in
      (
        (one.0, tt),
        omega arith,
        ap (λ b. b || false) one.1 ∙ or_assoc (tid == k) (any_slot k w.timer_queue) false,
      )
  add_chain-due k now tid force t (w ∷ w' ∷ ws) v p h =
      let one = add_here-due k now tid force t w v.0 h in
      let below = add_chain-due k now tid false t (w' ∷ ws) v.1 (omega arith) h in
      elim (Bool-cases (leb (now + w.level_interval) t.unixts)) [
        | inl e ↦ rw e (
          (one.0, v.1),
          omega arith,
          ap (λ b. b || holds k (w' ∷ ws)) one.1
              ∙ or_assoc (tid == k) (any_slot k w.timer_queue) (holds k (w' ∷ ws)),
        )
        | inr e ↦ rw e (
          (v.0, below.0),
          omega arith,
          ap (λ b. any_slot k w.timer_queue || b) below.2
              ∙ or_swap (any_slot k w.timer_queue) (tid == k) (holds k (w' ∷ ws)),
        )
      ]

  pub add_chain-past :
      (now tid : ℕ) (force : Bool) (t : SafeTimer C) (ws : List (Wheel C))
      → t.unixts < now
      → add_chain force now tid t ws ≡ ws
  unfolding add_chain
  add_chain-past now tid force t [] h = refl
  add_chain-past now tid force t (w ∷ []) h = ap (λ x. x ∷ []) (add_here-past now tid force t w h)
  add_chain-past now tid force t (w ∷ w' ∷ ws) h =
      let late : leb (now + w.level_interval) t.unixts ≡ false = ground (arith, h) in
      rw late (ap (λ x. w ∷ x) (add_chain-past now tid false t (w' ∷ ws) h))

  -- A timer that is added to a chain of wheels is held by it under its id if its time has not
  -- passed; one whose time has passed is dropped. The other timers are held as before.
  pub add2wheel_chain_lem :
      (k now tid : ℕ) (t : SafeTimer C) (ws : List (Wheel C))
      → AllWheels ws
      → 0 < length ws
      → holds k (add2wheel_chain now tid t ws) ≡ ((leb now t.unixts && (tid == k)) || holds k ws)
  unfolding add2wheel_chain
  add2wheel_chain_lem k now tid t ws v p =
      let named = record t { tid = tid } in
      elim (Bool-cases (leb now t.unixts)) [
        | inl e ↦ rw e (add_chain-due k now tid false named ws v p (ground (arith, e))).2
        | inr e ↦ rw e (ap (holds k) (add_chain-past now tid false named ws (ground (arith, e))))
      ]
