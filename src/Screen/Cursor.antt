-- ===== src/Screen/Cursor.antt =====
-- Where the kernel's cursor goes, and which memory the screen writes.
use vsop.Base.{
  ℕ, ◌+◌, ◌*◌, ◌≤◌, ◌<◌, ◌≡◌, refl, ◌≢◌, ◌∙◌, inl, inr, List, [], ◌∷◌, true, Bool-cases, arith,
  get_or, get_or-set_ne, get_or-set_self, length, ap, bit_or, leb,
}
use vsop.Util.Memory.{kmemset-outside, kmemcpy-outside}
use vsop.Screen.{
  Screen, screen_height, blank, clear_line, move_screen, mv_char, mv_wrap, mv_cur, scroll,
  is_printed, put_cell, screen_putchar, screen_putstr,
}

-- The cursor is on the screen, at most one column or one row behind its end.
pub record IsNear (s : Screen) : Type 0 where
  pub x : s.cur_x ≤ 80
  pub y : s.cur_y ≤ 25

-- `t` is left from `s`: the cursor is near, and no cell behind the one that follows the screen has changed.
pub record Leaves (s t : Screen) : Type 0 where
  pub near : IsNear t
  pub beyond : (j : ℕ) → 2000 < j → get_or t.videomem j 0 ≡ get_or s.videomem j 0

mv_cur-IsNear : (c : ℕ) (s : Screen) → s.cur_x ≤ 80 → s.cur_y ≤ 24 → IsNear (mv_cur c s)
unfolding mv_cur mv_char mv_wrap
mv_cur-IsNear c s h k = record { x = ground arith; y = ground arith }

mv_cur-videomem : (c : ℕ) (s : Screen) → (mv_cur c s).videomem ≡ s.videomem
unfolding mv_cur mv_char mv_wrap
mv_cur-videomem c s = ground arith

-- A character that is no line end moves the cursor one cell on.
mv_cur-position :
    (c : ℕ) (s : Screen)
    → s.cur_x ≤ 80
    → s.cur_y ≤ 24
    → c ≢ 10
    → c ≢ 13
    → (mv_cur c s).cur_y * 80 + (mv_cur c s).cur_x ≡ s.cur_y * 80 + s.cur_x + 1
unfolding mv_cur mv_char mv_wrap
mv_cur-position c s h k n r = ground arith

pub put_cell-cursor :
    (c style : ℕ) (s : Screen)
    → ((put_cell c style s).cur_x ≡ s.cur_x) × ((put_cell c style s).cur_y ≡ s.cur_y)
unfolding put_cell
put_cell-cursor c style s = (ground arith, ground arith)

put_cell-beyond :
    (c style : ℕ) (s : Screen) (j : ℕ)
    → s.cur_y * 80 + s.cur_x < j
    → get_or (put_cell c style s).videomem j 0 ≡ get_or s.videomem j 0
unfolding put_cell
put_cell-beyond c style s j h = elim (Bool-cases (is_printed c)) [
  | inl p ↦
      rw p (
        get_or-set_ne s.videomem (s.cur_y * 80 + s.cur_x) j (bit_or (style * 256) c) 0
          (omega arith))
  | inr p ↦ rw p refl
]

scroll-cursor : (s : Screen) → IsNear s → ((scroll s).cur_x ≡ s.cur_x) × ((scroll s).cur_y ≤ 24)
unfolding scroll clear_line move_screen
scroll-cursor s h = (ground arith, ground (arith, h.y))

scroll-beyond :
    (s : Screen) (j : ℕ) → 2000 < j → get_or (scroll s).videomem j 0 ≡ get_or s.videomem j 0
unfolding scroll clear_line move_screen
scroll-beyond s j h = elim (Bool-cases (leb screen_height s.cur_y)) [
  | inl p ↦ rw p (
      kmemset-outside (move_screen s).videomem 1920 (blank s.cur_style) 80 j 0 (inr (omega arith))
      ∙ kmemcpy-outside s.videomem 0 80 1920 j (inr (omega arith)))
  | inr p ↦ rw p refl
]

-- One character keeps the cursor near and the memory behind the screen.
screen_putchar-Leaves : (c style : ℕ) (s : Screen) → IsNear s → Leaves s (screen_putchar c style s)
unfolding screen_putchar
screen_putchar-Leaves c style s h =
    let (x, y) = scroll-cursor s h in
    let (x', y') = put_cell-cursor c style (scroll s) in
    let left : (scroll s).cur_x ≤ 80 = omega (arith, x, h.x) in
    record {
      near =
          mv_cur-IsNear c (put_cell c style (scroll s)) (omega (arith, x', left))
            (omega (arith, y', y));
      beyond = λ j p.
          ap (λ m. get_or m j 0) (mv_cur-videomem c (put_cell c style (scroll s)))
          ∙ put_cell-beyond c style (scroll s) j (omega (arith, left, y, p))
          ∙ scroll-beyond s j p;
    }

Leaves-self : (s : Screen) → IsNear s → Leaves s s
Leaves-self s h = record { near = h; beyond = λ j p. refl }

-- From a cursor that is near, `screen_putstr` leaves it near, and writes no memory behind the one
-- cell that follows the screen.
pub screen_putstr-Leaves : (t : List ℕ) (s : Screen) → IsNear s → Leaves s (screen_putstr t s)
unfolding screen_putstr
screen_putstr-Leaves [] s h = Leaves-self s h
screen_putstr-Leaves (c ∷ t) s h =
    let one = screen_putchar-Leaves c s.cur_style s h in
    let rest = screen_putstr-Leaves t (screen_putchar c s.cur_style s) one.near in
    record { near = rest.near; beyond = λ j p. rest.beyond j p ∙ one.beyond j p }

scroll-idle : (s : Screen) → s.cur_y ≤ 24 → scroll s ≡ s
unfolding scroll
scroll-idle s h = ground arith

put_cell-here :
    (c style : ℕ) (s : Screen)
    → is_printed c ≡ true
    → s.cur_y * 80 + s.cur_x < length s.videomem
    → get_or (put_cell c style s).videomem (s.cur_y * 80 + s.cur_x) 0 ≡ bit_or (style * 256) c
unfolding put_cell
put_cell-here c style s p l =
    rw p (get_or-set_self s.videomem (s.cur_y * 80 + s.cur_x) (bit_or (style * 256) c) 0 l)

-- A printed character stands at the cursor's place, which moves one cell on. In the last row and
-- behind its end that place is the cell behind the screen.
pub screen_putchar-printed :
    (c style : ℕ) (s : Screen)
    → s.cur_x ≤ 80
    → s.cur_y ≤ 24
    → is_printed c ≡ true
    → s.cur_y * 80 + s.cur_x < length s.videomem
    → let t = screen_putchar c style s in
      (t.cur_y * 80 + t.cur_x ≡ s.cur_y * 80 + s.cur_x + 1)
      × (get_or t.videomem (s.cur_y * 80 + s.cur_x) 0 ≡ bit_or (style * 256) c)
unfolding screen_putchar
screen_putchar-printed c style s h k p l =
    let same : scroll s ≡ s = scroll-idle s k in
    let (x, y) = put_cell-cursor c style s in
    rw same (
      mv_cur-position c (put_cell c style s) (omega (arith, x)) (omega (arith, y)) (ground arith)
            (ground arith)
          ∙ rw (x, y) refl,
      ap (λ m. get_or m (s.cur_y * 80 + s.cur_x) 0) (mv_cur-videomem c (put_cell c style s))
          ∙ put_cell-here c style s p l,
    )
