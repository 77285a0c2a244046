-- ===== src/Snake/Moves.antt =====
-- A move shifts the body by one cell behind the head.
use vsop.Base.{
  ℕ, zero, suc, ◌-◌, ◌≤◌, ◌<◌, ◌≡◌, refl, ◌∙◌, ◌⊎◌, inl, inr, ap, List, arith, get_or, set, length,
  get_or-set_self, get_or-set_ne, length-set,
}
use vsop.Snake.{Pos, origin, Snake, shift, step_pos, move_snake}

pub length-shift : (n : ℕ) (cells : List Pos) → length (shift n cells) ≡ length cells
unfolding shift
length-shift zero cells = refl
length-shift (suc n) cells =
    length-shift n (set cells (suc n) (get_or cells n origin))
    ∙ length-set cells (suc n) (get_or cells n origin)

shift-behind :
    (n i : ℕ) (cells : List Pos) → n < i → get_or (shift n cells) i origin ≡ get_or cells i origin
unfolding shift
shift-behind zero i cells h = refl
shift-behind (suc n) i cells h =
    shift-behind n i (set cells (suc n) (get_or cells n origin)) (omega arith)
    ∙ get_or-set_ne cells (suc n) i (get_or cells n origin) origin (omega arith)

split_last : (i n : ℕ) → i < suc n → (i ≡ n) ⊎ (i < n)
split_last i n h = ground arith

-- Cell `i + 1` holds what cell `i` held.
shift-inside :
    (n i : ℕ) (cells : List Pos)
    → n < length cells
    → i < n
    → get_or (shift n cells) (suc i) origin ≡ get_or cells i origin
unfolding shift
shift-inside zero i cells h k = absurd (omega arith)
shift-inside (suc n) i cells h k = elim (split_last i n k) [
  | inl e ↦ rw e (
      shift-behind n (suc n) cells' (omega arith)
      ∙ get_or-set_self cells (suc n) (get_or cells n origin) origin h)
  | inr l ↦
      shift-inside n i cells' (omega (arith, length-set cells (suc n) (get_or cells n origin))) l
      ∙ get_or-set_ne cells (suc n) i (get_or cells n origin) origin (omega arith)
]
  where
    cells' : List Pos
    cells' = set cells (suc n) (get_or cells n origin)

-- A snake of two cells or more, within its array: the head goes one step on in its direction, with
-- the screen's borders joined, and each other cell goes where the one before it was.
pub move_snake_lem :
    (s : Snake)
    → 2 ≤ s.snake_len
    → s.snake_len ≤ length s.snake
    → (get_or (move_snake s).snake 0 origin ≡ step_pos (get_or s.snake 0 origin) s.direction)
      × ((i : ℕ)
          → suc i < s.snake_len
          → get_or (move_snake s).snake (suc i) origin ≡ get_or s.snake i origin)
      × ((i : ℕ) → s.snake_len ≤ i → get_or (move_snake s).snake i origin ≡ get_or s.snake i origin)
unfolding move_snake
move_snake_lem s h k =
    let n = s.snake_len - 1 in
    let cells = shift n s.snake in
    let head = step_pos (get_or cells 1 origin) s.direction in
    let second : get_or cells 1 origin ≡ get_or s.snake 0 origin =
      shift-inside n 0 s.snake (omega arith) (omega arith) in
    (
      get_or-set_self cells 0 head origin (omega (arith, length-shift n s.snake))
          ∙ ap (λ p. step_pos p s.direction) second,
      λ i p.
          get_or-set_ne cells 0 (suc i) head origin (omega arith)
          ∙ shift-inside n i s.snake (omega arith) (omega arith),
      λ i p.
          get_or-set_ne cells 0 i head origin (omega arith)
          ∙ shift-behind n i s.snake (omega arith),
    )

pub move_snake-rest :
    (s : Snake)
    → ((move_snake s).snake_len ≡ s.snake_len)
      × ((move_snake s).direction ≡ s.direction)
      × (length (move_snake s).snake ≡ length s.snake)
unfolding move_snake
move_snake-rest s =
    let n = s.snake_len - 1 in
    let cells = shift n s.snake in
    (
      refl,
      refl,
      length-set cells 0 (step_pos (get_or cells 1 origin) s.direction) ∙ length-shift n s.snake,
    )
