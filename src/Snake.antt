-- ===== src/Snake.antt =====
-- userspace/snake.c: the game that runs on the full-screen driver. A pressed key is a byte of
-- `status` that is not 0, at the key's scan code.
pub mod Field
pub mod Moves
mod Tests
use vsop.Base.{
  ℕ, zero, suc, ◌+◌, ◌-◌, ◌*◌, ◌%◌, ◌^◌, List, [], ◌∷◌, Bool, true, false, not, ◌&&◌, ◌==◌,
  if◌then◌else◌, get_or, set, replicate,
}
use vsop.Base.Int.{ℤ, pos, negsuc, pos_part, neg_part, sub_ℕ, ◌+ℤ◌, ◌-ℤ◌, eq_ℤ}
use vsop.Base.Loops.{iterate}
use vsop.Util.{kmemset}

abbrev pub screen_width : ℕ
screen_width = 80

abbrev pub screen_height : ℕ
screen_height = 25

abbrev pub max_len : ℕ
max_len = 400

-- `struct pos`
pub record Pos : Type 0 where
  pub x : ℤ
  pub y : ℤ

abbrev pub origin : Pos
origin = record { x = pos 0; y = pos 0 }

-- The program's variables, but for the descriptors; `iterations` is the word of the int, whose
-- remainder by 16 is 0 when that of the int is.
pub record Snake : Type 0 where
  pub snake : List Pos
  pub snake_len : ℕ
  pub direction : Pos
  pub iterations : ℕ
  pub status : List ℕ

abbrev pub pressed : List ℕ → ℕ → Bool
pressed status key = not (get_or status key 0 == 0)

-- `next` at the label `check`; the keys are up, down, left and right.
unfoldable pub next_dir : List ℕ → Pos
next_dir status =
    if pressed status 17
    then record { x = pos 0; y = negsuc 0 }
    else (if pressed status 31
        then record { x = pos 0; y = pos 1 }
        else (if pressed status 30
            then record { x = negsuc 0; y = pos 0 }
            else (if pressed status 32 then record { x = pos 1; y = pos 0 } else origin)))

abbrev pub is_origin : Pos → Bool
is_origin p = eq_ℤ p.x (pos 0) && eq_ℤ p.y (pos 0)

abbrev pub add_pos : Pos → Pos → Pos
add_pos p q = record { x = p.x +ℤ q.x; y = p.y +ℤ q.y }

-- `change_dir` from the label `check` on.
unfoldable pub check : Pos → Pos → Pos
check next direction =
    if is_origin next
    then direction
    else (if is_origin (add_pos next direction) then direction else next)

unfoldable pub change_dir : Snake → Snake
unfolding next_dir check
change_dir s = record s { direction = check (next_dir s.status) s.direction }

-- C's remainder, which has the sign of the dividend.
abbrev pub rem : ℤ → ℕ → ℤ
rem (pos n) m = pos (n % m)
rem (negsuc n) m = sub_ℕ 0 (suc n % m)

-- The loop of `move_snake`, from `i = n` down to 1.
unfoldable pub shift : ℕ → List Pos → List Pos
shift zero cells = cells
shift (suc n) cells = shift n (set cells (suc n) (get_or cells n origin))

-- Where the head goes.
abbrev pub step_pos : Pos → Pos → Pos
step_pos p d = record {
  x = rem (pos screen_width +ℤ p.x +ℤ d.x) screen_width;
  y = rem (pos screen_height +ℤ p.y +ℤ d.y) screen_height;
}

unfoldable pub move_snake : Snake → Snake
unfolding shift
move_snake s =
    let cells = shift (s.snake_len - 1) s.snake in
    record s { snake = set cells 0 (step_pos (get_or cells 1 origin) s.direction) }

unfoldable pub enlarge_snake : Snake → Snake
enlarge_snake s =
    if not (s.iterations % 16 == 0)
    then s
    else (if s.snake_len == max_len then s else record s {
      snake = set s.snake s.snake_len (get_or s.snake (s.snake_len - 1) origin);
      snake_len = s.snake_len + 1;
    })

-- The index into `buf`, for a position on the screen.
abbrev pub buf_index : Pos → ℕ
buf_index p = pos_part p.x + pos_part p.y * screen_width

-- `draw_snake`: the buffer it leaves. '.' is 46.
unfoldable pub draw_snake : Snake → List ℕ → List ℕ
unfolding iterate kmemset
draw_snake s buf =
    iterate (λ i b. set b (buf_index (get_or s.snake i origin)) 46) 0 s.snake_len
      (kmemset buf 0 32 (screen_width * screen_height))

-- One round of `main`: the keys it reads at its end, if any, are `keys`.
unfoldable pub game_round : Snake → List ℕ → Snake
unfolding change_dir enlarge_snake move_snake
game_round s keys =
    let s' = move_snake (enlarge_snake (change_dir s)) in
    record s' { status = keys; iterations = (s.iterations + 1) % 2 ^ 32 }

unfoldable pub game : Snake → List (List ℕ) → Snake
unfolding game_round
game s [] = s
game s (keys ∷ more) = game (game_round s keys) more

-- What `main` sets up before its loop, with the first keys; `n` cells of the body stand to the left.
unfoldable pub body : ℕ → List Pos → List Pos
body zero cells = cells
body (suc n) cells =
    let before = body n cells in
    let p = get_or before n origin in
    set before (suc n) (record { x = p.x -ℤ pos 1; y = p.y -ℤ pos 0 })

unfoldable pub main_init : List ℕ → Snake
unfolding body
main_init keys = record {
  snake = body 4 (set (replicate max_len origin) 0 (record { x = pos 20; y = pos 12 }));
  snake_len = 5;
  direction = record { x = pos 1; y = pos 0 };
  iterations = 0;
  status = keys;
}
