-- ===== src/Snake/Field.antt =====
-- The snake stays on the screen.
use vsop.Base.{
  ℕ, zero, suc, ◌+◌, ◌-◌, ◌%◌, ◌≤◌, ◌<◌, ◌≡◌, refl, ◌≢◌, ◌∙◌, ◌⊎◌, inl, inr, ap, List, [], ◌∷◌,
  false, arith, get_or, set, length, get_or-set_self, get_or-set_ne, length-set,
}
use native.Mathlib.Nat.{mod-lt}
use vsop.Base.Int.{ℤ, pos, negsuc, pos_part, neg_part, eq_ℤ, ◌+ℤ◌}
use vsop.Snake.Moves.{move_snake_lem, move_snake-rest}
use vsop.Snake.{
  Pos, origin, is_origin, add_pos, Snake, next_dir, check, change_dir, rem, step_pos, move_snake,
  enlarge_snake, game_round, game,
}

-- `z` is from 0 to n - 1.
abbrev pub IsBelow : ℕ → ℤ → Type 0
IsBelow n z = (neg_part z ≡ 0) × (pos_part z < n)

pub record IsOnScreen (p : Pos) : Type 0 where
  pub x : IsBelow 80 p.x
  pub y : IsBelow 25 p.y

-- `z` is -1, 0 or 1.
abbrev pub IsUnit : ℤ → Type 0
IsUnit z = (pos_part z ≤ 1) × (neg_part z ≤ 1)

-- The array has its 400 cells, the snake has from 2 to 400, all of them on the screen.
pub record IsPlaying (s : Snake) : Type 0 where
  pub cells : length s.snake ≡ 400
  pub least : 2 ≤ s.snake_len
  pub most : s.snake_len ≤ 400
  pub on_screen : (i : ℕ) → i < s.snake_len → IsOnScreen (get_or s.snake i origin)
  pub unit : IsUnit s.direction.x × IsUnit s.direction.y

add_ℤ-pos : (n : ℕ) (z : ℤ) → neg_part z ≤ n → pos n +ℤ z ≡ pos (n + pos_part z - neg_part z)
add_ℤ-pos n z h = ground arith

rem_pos-IsBelow : (n m : ℕ) (z : ℤ) → 1 < n → z ≡ pos m → IsBelow n (rem z n)
rem_pos-IsBelow n m z h e = rw e (refl, mod-lt m {m = n} (omega arith))

rem-IsBelow :
    (n : ℕ) (p d : ℤ) → 1 < n → IsBelow n p → IsUnit d → IsBelow n (rem (pos n +ℤ p +ℤ d) n)
rem-IsBelow n p d h b u =
    let m = n + pos_part p - neg_part p in
    rem_pos-IsBelow n (m + pos_part d - neg_part d) (pos n +ℤ p +ℤ d) h (
      ap (λ z. z +ℤ d) (add_ℤ-pos n p (omega (arith, b.0)))
      ∙ add_ℤ-pos m d (omega (arith, b.0, u.1)))

step_pos-IsOnScreen :
    (p d : Pos) → IsOnScreen p → IsUnit d.x × IsUnit d.y → IsOnScreen (step_pos p d)
step_pos-IsOnScreen p d h u = record {
  x = rem-IsBelow 80 p.x d.x (omega arith) h.x u.0;
  y = rem-IsBelow 25 p.y d.y (omega arith) h.y u.1;
}

next_dir-IsUnit : (keys : List ℕ) → IsUnit (next_dir keys).x × IsUnit (next_dir keys).y
unfolding next_dir
next_dir-IsUnit keys = ((ground arith, ground arith), (ground arith, ground arith))

check-cases : (n d : Pos) → (check n d ≡ d) ⊎ ((check n d ≡ n) × (is_origin (add_pos n d) ≡ false))
unfolding check
check-cases n d = ground arith

change_dir-IsPlaying : (s : Snake) → IsPlaying s → IsPlaying (change_dir s)
unfolding change_dir
change_dir-IsPlaying s h = record {
  cells = h.cells;
  least = h.least;
  most = h.most;
  on_screen = h.on_screen;
  unit = elim (check-cases (next_dir s.status) s.direction) [
    | inl e ↦ rw e h.unit
    | inr e ↦ rw e.0 (next_dir-IsUnit s.status)
  ];
}

enlarge_snake-more :
    (s : Snake)
    → s.iterations % 16 ≡ 0
    → s.snake_len ≢ 400
    → enlarge_snake s ≡ record s {
      snake = set s.snake s.snake_len (get_or s.snake (s.snake_len - 1) origin);
      snake_len = s.snake_len + 1;
    }
unfolding enlarge_snake
enlarge_snake-more s h k = ground arith

enlarge_snake-same :
    (s : Snake) → (s.iterations % 16 ≢ 0) ⊎ (s.snake_len ≡ 400) → enlarge_snake s ≡ s
unfolding enlarge_snake
enlarge_snake-same s h = ground arith

enlarge_cases :
    (s : Snake)
    → ((s.iterations % 16 ≡ 0) × (s.snake_len ≢ 400))
      ⊎ ((s.iterations % 16 ≢ 0) ⊎ (s.snake_len ≡ 400))
enlarge_cases s = ground arith

last_or_before : (i n : ℕ) → i < n + 1 → (i ≡ n) ⊎ (i < n)
last_or_before i n h = ground arith

enlarge_snake-IsPlaying : (s : Snake) → IsPlaying s → IsPlaying (enlarge_snake s)
enlarge_snake-IsPlaying s h = elim (enlarge_cases s) [
  | inl e ↦ rw (enlarge_snake-more s e.0 e.1) (record {
    cells = length-set s.snake s.snake_len last ∙ h.cells;
    least = omega (arith, h.least);
    most = omega (arith, h.most, e.1);
    on_screen = λ i p. elim (last_or_before i s.snake_len p) [
      | inl q ↦
          rw
            (
              q,
              get_or-set_self s.snake s.snake_len last origin (omega (arith, h.cells, h.most, e.1)),
            )
            (h.on_screen (s.snake_len - 1) (omega (arith, h.least)))
      | inr q ↦ rw (get_or-set_ne s.snake s.snake_len i last origin (omega arith)) (h.on_screen i q)
    ];
    unit = h.unit;
  })
  | inr e ↦ rw (enlarge_snake-same s e) h
]
  where
    last : Pos
    last = get_or s.snake (s.snake_len - 1) origin

first_or_after : (i : ℕ) → (i ≡ 0) ⊎ ((j : ℕ) × (i ≡ suc j))
first_or_after zero = inl refl
first_or_after (suc i) = inr (i, refl)

move_snake-IsPlaying : (s : Snake) → IsPlaying s → IsPlaying (move_snake s)
move_snake-IsPlaying s h =
    let (head, tail, _) = move_snake_lem s h.least (omega (arith, h.most, h.cells)) in
    let (len, dir, cells) = move_snake-rest s in
    record {
      cells = cells ∙ h.cells;
      least = rw len h.least;
      most = rw len h.most;
      on_screen = λ i p. elim (first_or_after i) [
        | inl e ↦
            rw (e, head)
              (step_pos-IsOnScreen (get_or s.snake 0 origin) s.direction
                (h.on_screen 0 (omega (arith, h.least))) h.unit)
        | inr e ↦
            rw (e.1, tail e.0 (omega (arith, p, len, e.1)))
              (h.on_screen e.0 (omega (arith, p, len, e.1)))
      ];
      unit = rw dir h.unit;
    }

-- A round of the game keeps the snake's cells on the screen and within the array, whatever keys
-- come.
pub game-IsPlaying : (rounds : List (List ℕ)) (s : Snake) → IsPlaying s → IsPlaying (game s rounds)
unfolding game game_round
game-IsPlaying [] s h = h
game-IsPlaying (keys ∷ rounds) s h =
    let moved =
      move_snake-IsPlaying (enlarge_snake (change_dir s))
        (enlarge_snake-IsPlaying (change_dir s) (change_dir-IsPlaying s h)) in
    game-IsPlaying rounds (game_round s keys) (record {
      cells = moved.cells;
      least = moved.least;
      most = moved.most;
      on_screen = moved.on_screen;
      unit = moved.unit;
    })

double_ℤ : (z : ℤ) → eq_ℤ (z +ℤ z) (pos 0) ≡ eq_ℤ z (pos 0)
double_ℤ (pos n) = ground arith
double_ℤ (negsuc n) = ground arith

-- `change_dir` never turns the snake back: the new direction is not the opposite of a direction
-- that is not (0, 0).
pub change_dir_lem :
    (s : Snake)
    → is_origin s.direction ≡ false
    → is_origin (add_pos (change_dir s).direction s.direction) ≡ false
unfolding change_dir
change_dir_lem s h = elim (check-cases (next_dir s.status) s.direction) [
  | inl e ↦ rw (e, double_ℤ s.direction.x, double_ℤ s.direction.y) h
  | inr e ↦ rw e.0 e.1
]
