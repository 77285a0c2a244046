-- ===== src/Screen.antt =====
-- kernel/screen.c: the text screen of the kernel. `videomem` is the memory from 0xB8000 on, in cells
-- of 16 bits: 25 rows of 80, and what follows. `move_screen` copies bytes, which on cells is the
-- same. The section around `screen_clear` has no effect on the screen and is left out.
pub mod Cursor
pub mod Server
pub mod Fullscreen
mod Tests
use vsop.Base.{
  ℕ, zero, suc, ◌+◌, ◌-◌, ◌*◌, ◌/◌, ◌%◌, ◌^◌, List, [], ◌∷◌, Bool, ◌&&◌, ltb, leb, ◌==◌,
  if◌then◌else◌, set, bit_and, bit_or,
}
use vsop.Util.{kmemset, kmemcpy}

abbrev pub screen_height : ℕ
screen_height = 25

abbrev pub screen_width : ℕ
screen_width = 80

pub record Screen : Type 0 where
  pub videomem : List ℕ
  pub cur_style : ℕ
  pub cur_x : ℕ
  pub cur_y : ℕ

-- `ret <<= 4; ret |= fg`, in 8 bits.
unfoldable pub screen_getstyle : ℕ → ℕ → ℕ
screen_getstyle bg fg = bit_or (bg * 16 % 256) fg % 256

-- The cell that clears the screen: a space in the colour of the background.
unfoldable pub blank : ℕ → ℕ
unfolding screen_getstyle
blank style = bit_or (screen_getstyle (style / 16) (style / 16) * 256) 32

-- `clear_line`, which clears the last line whatever its argument.
unfoldable pub clear_line : Screen → Screen
unfolding blank
clear_line s = record s {
  videomem =
      kmemset s.videomem (screen_width * (screen_height - 1)) (blank s.cur_style) screen_width;
}

unfoldable pub move_screen : Screen → Screen
move_screen s = record s {
  videomem = kmemcpy s.videomem 0 screen_width (screen_width * (screen_height - 1));
}

-- `mv_cur` up to its `if`: '\r' is 13 and '\n' is 10.
unfoldable pub mv_char : ℕ → Screen → Screen
mv_char c s =
    if c == 13
    then record s { cur_x = 0 }
    else (if c == 10
        then record s { cur_x = 0; cur_y = (s.cur_y + 1) % 256 }
        else record s { cur_x = (s.cur_x + 1) % 256 })

-- `mv_cur` from its `if` on: the test is `>`.
unfoldable pub mv_wrap : Screen → Screen
mv_wrap s =
    if ltb screen_width s.cur_x
    then record s {
      cur_y = (s.cur_y + s.cur_x / screen_width) % 256;
      cur_x = s.cur_x % screen_width;
    }
    else s

unfoldable pub mv_cur : ℕ → Screen → Screen
unfolding mv_char mv_wrap
mv_cur c s = mv_wrap (mv_char c s)

-- `screen_putchar` up to its first `if`.
unfoldable pub scroll : Screen → Screen
unfolding clear_line move_screen
scroll s =
    if leb screen_height s.cur_y
    then record (clear_line (move_screen s)) { cur_y = screen_height - 1 }
    else s

-- `c >= ' '`, for a signed `char`.
abbrev pub is_printed : ℕ → Bool
is_printed c = leb 32 c && ltb c 128

-- The write of `screen_putchar`.
unfoldable pub put_cell : ℕ → ℕ → Screen → Screen
put_cell c style s =
    if is_printed c
    then record s {
      videomem = set s.videomem (s.cur_y * screen_width + s.cur_x) (bit_or (style * 256) c);
    }
    else s

unfoldable pub screen_putchar : ℕ → ℕ → Screen → Screen
unfolding scroll put_cell mv_cur
screen_putchar c style s = mv_cur c (put_cell c style (scroll s))

unfoldable pub screen_putstr : List ℕ → Screen → Screen
unfolding screen_putchar
screen_putstr [] s = s
screen_putstr (c ∷ t) s = screen_putstr t (screen_putchar c s.cur_style s)

unfoldable pub screen_clear : Screen → Screen
unfolding blank
screen_clear s = record s {
  videomem = kmemset s.videomem 0 (blank s.cur_style) (screen_height * screen_width);
  cur_x = 0;
  cur_y = 0;
}

unfoldable pub screen_set_bg : ℕ → Screen → Screen
screen_set_bg color s = record s { cur_style = bit_or (bit_and s.cur_style 15) (color * 16) % 256 }

unfoldable pub screen_set_fg : ℕ → Screen → Screen
screen_set_fg color s = record s { cur_style = bit_or (bit_and s.cur_style 240) color % 256 }
