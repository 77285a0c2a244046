-- ===== src/Screen/Server.antt =====
-- userspace/srv_screen.c: the screen driver, which has its own copy of the kernel's routines with
-- the cursor's end of line tested by `>=` and the scrolling done as soon as it is due.
use vsop.Base.{
  ℕ, ◌+◌, ◌-◌, ◌*◌, ◌/◌, ◌%◌, ◌≤◌, ◌<◌, ◌≡◌, refl, ◌∙◌, inl, inr, ap, List, [], ◌∷◌, Bool-cases,
  arith, get_or, get_or-set_ne, bit_or, leb, if◌then◌else◌,
}
use vsop.Util.Memory.{kmemset-outside, kmemcpy-outside}
use vsop.Screen.{
  Screen, screen_height, screen_width, blank, clear_line, move_screen, is_printed, put_cell,
  mv_char,
}
use vsop.Screen.Cursor.{put_cell-cursor}

-- The rest of `mv_cur`: the end of the line, and of the screen.
unfoldable pub end_line : Screen → Screen
end_line s =
    if leb screen_width s.cur_x
    then record s {
      cur_y = (s.cur_y + s.cur_x / screen_width) % 256;
      cur_x = s.cur_x % screen_width;
    }
    else s

unfoldable pub end_screen : Screen → Screen
unfolding clear_line move_screen
end_screen s =
    if leb screen_height s.cur_y
    then record (clear_line (move_screen s)) { cur_y = screen_height - 1 }
    else s

unfoldable pub mv_cur : ℕ → Screen → Screen
unfolding mv_char end_line end_screen
mv_cur c s = end_screen (end_line (mv_char c s))

unfoldable pub screen_putchar : ℕ → ℕ → Screen → Screen
unfolding put_cell mv_cur
screen_putchar c style s = mv_cur c (put_cell c style s)

unfoldable pub screen_putstr : List ℕ → Screen → Screen
unfolding screen_putchar
screen_putstr [] s = s
screen_putstr (c ∷ t) s = screen_putstr t (screen_putchar c s.cur_style s)

-- The cursor is on the screen.
pub record IsInside (s : Screen) : Type 0 where
  pub x : s.cur_x < 80
  pub y : s.cur_y < 25

-- `t` is left from `s`: the cursor is inside, and no cell behind the screen has changed.
pub record Keeps (s t : Screen) : Type 0 where
  pub inside : IsInside t
  pub beyond : (j : ℕ) → 2000 ≤ j → get_or t.videomem j 0 ≡ get_or s.videomem j 0

end_line-cursor :
    (c : ℕ) (s : Screen)
    → IsInside s
    → ((end_line (mv_char c s)).cur_x < 80)
      × ((end_line (mv_char c s)).cur_y ≤ 25)
      × ((end_line (mv_char c s)).videomem ≡ s.videomem)
unfolding end_line mv_char
end_line-cursor c s h = (ground (arith, h.x), ground (arith, h.x, h.y), ground arith)

end_screen-cursor : (s : Screen) → s.cur_x < 80 → s.cur_y ≤ 25 → IsInside (end_screen s)
unfolding end_screen clear_line move_screen
end_screen-cursor s h k = record { x = ground arith; y = ground arith }

end_screen-beyond :
    (s : Screen) (j : ℕ) → 2000 ≤ j → get_or (end_screen s).videomem j 0 ≡ get_or s.videomem j 0
unfolding end_screen clear_line move_screen
end_screen-beyond s j h = elim (Bool-cases (leb screen_height s.cur_y)) [
  | inl p ↦ rw p (
      kmemset-outside (move_screen s).videomem 1920 (blank s.cur_style) 80 j 0 (inr (omega arith))
      ∙ kmemcpy-outside s.videomem 0 80 1920 j (inr (omega arith)))
  | inr p ↦ rw p refl
]

put_cell-beyond :
    (c style : ℕ) (s : Screen) (j : ℕ)
    → IsInside s
    → 2000 ≤ j
    → get_or (put_cell c style s).videomem j 0 ≡ get_or s.videomem j 0
unfolding put_cell
put_cell-beyond c style s j h k =
    let place : s.cur_y * 80 + s.cur_x < j = omega (arith, h.x, h.y) in
    elim (Bool-cases (is_printed c)) [
      | inl p ↦ rw p (
          get_or-set_ne s.videomem (s.cur_y * 80 + s.cur_x) j (bit_or (style * 256) c) 0
            (omega (arith, place)))
      | inr p ↦ rw p refl
    ]

screen_putchar-Keeps : (c style : ℕ) (s : Screen) → IsInside s → Keeps s (screen_putchar c style s)
unfolding screen_putchar mv_cur
screen_putchar-Keeps c style s h =
    let s' = put_cell c style s in
    let (x, y) = put_cell-cursor c style s in
    let h' : IsInside s' = record { x = omega (arith, x, h.x); y = omega (arith, y, h.y) } in
    let (left, top, mem) = end_line-cursor c s' h' in
    record {
      inside = end_screen-cursor (end_line (mv_char c s')) left top;
      beyond = λ j p.
          end_screen-beyond (end_line (mv_char c s')) j p
          ∙ ap (λ m. get_or m j 0) mem
          ∙ put_cell-beyond c style s j h p;
    }

-- From a cursor on the screen, the driver's `screen_putstr` leaves it on the screen and writes no
-- memory behind the screen.
pub screen_putstr-Keeps : (t : List ℕ) (s : Screen) → IsInside s → Keeps s (screen_putstr t s)
unfolding screen_putstr
screen_putstr-Keeps [] s h = record { inside = h; beyond = λ j p. refl }
screen_putstr-Keeps (c ∷ t) s h =
    let one = screen_putchar-Keeps c s.cur_style s h in
    let rest = screen_putstr-Keeps t (screen_putchar c s.cur_style s) one.inside in
    record { inside = rest.inside; beyond = λ j p. rest.beyond j p ∙ one.beyond j p }
