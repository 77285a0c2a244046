-- ===== src/Snake/Tests.antt =====
-- A snake in a corner, and the theorems at it.
use vsop.Base.{ℕ, zero, suc, ◌<◌, refl, [], ◌∷◌, ◌++◌, arith, get_or, replicate}
use vsop.Base.Int.{pos}
use vsop.Snake.{origin, Snake, game}
use vsop.Snake.Field.{IsOnScreen, IsPlaying, game-IsPlaying}

abbrev corner : Snake
corner = record {
  snake = replicate 400 (record { x = pos 79; y = pos 0 });
  snake_len = 2;
  direction = record { x = pos 1; y = pos 0 };
  iterations = 0;
  status = replicate 17 0 ++ 1 ∷ [];
}

corner-IsOnScreen : (i : ℕ) → i < 2 → IsOnScreen (get_or corner.snake i origin)
corner-IsOnScreen zero h = record { x = (refl, omega arith); y = (refl, omega arith) }
corner-IsOnScreen (suc zero) h = record { x = (refl, omega arith); y = (refl, omega arith) }
corner-IsOnScreen (suc (suc i)) h = absurd (omega arith)

corner-IsPlaying : IsPlaying corner
corner-IsPlaying = record {
  cells = refl;
  least = omega arith;
  most = omega arith;
  on_screen = corner-IsOnScreen;
  unit = ((omega arith, omega arith), (omega arith, omega arith));
}

game-IsPlaying_example : IsPlaying (game corner ([] ∷ [] ∷ []))
game-IsPlaying_example = game-IsPlaying ([] ∷ [] ∷ []) corner corner-IsPlaying
