-- ===== src/FastRandom.antt =====
-- include/simpletorrent/FastRandom.h: a linear congruential generator on 64-bit words.
use simpletorrent.Base.{ℕ, ◌+◌, ◌*◌, ◌%◌, ◌^◌, ◌<◌, arith}

-- `state`; the multiplier, the increment and the modulus never change.
abbrev pub multiplier : ℕ
multiplier = 1664525

abbrev pub increment : ℕ
increment = 1013904223

abbrev pub initial_state : ℕ
initial_state = 12345

-- `(a * state + c) % m` with the wrap of `unsigned long`.
unfoldable pub next_state : ℕ → ℕ
next_state state = (multiplier * state + increment) % 2 ^ 64 % 2 ^ 32

-- `operator()(max)`: the new state and the number. The cast to `int` keeps it while
-- `max ≤ 2 ^ 31`: `max` is the number of pieces in the buffer, for which the program has 32 slots.
unfoldable pub draw : ℕ → ℕ → ℕ × ℕ
unfolding next_state
draw max state = (next_state state, next_state state % max)

-- From a state below the modulus nothing wraps, and the remainder drawn is below `max`.
pub draw_bounds :
    (max state : ℕ)
    → 0 < max
    → state < 2 ^ 32
    → (multiplier * state + increment < 2 ^ 64)
      × ((draw max state).0 < 2 ^ 32)
      × ((draw max state).1 < max)
unfolding draw
draw_bounds max state p h = omega arith
