-- ===== src/Gdt.antt =====
-- kernel/gdt.c: the table of segment descriptors. The task states stand at the addresses `tss + i`,
-- 104 bytes each, in memory from the parameter `tss` on.
pub mod Fields
mod Tests
use vsop.Base.{ℕ, zero, suc, ◌+◌, ◌*◌, ◌/◌, ◌%◌, ◌^◌, List, [], ◌∷◌, get_or, set, bit_and, bit_or}
use vsop.Base.Loops.{iterate}

-- `struct gdt_entry`
pub record GdtEntry : Type 0 where
  pub size_low : ℕ
  pub base_low : ℕ
  pub base_middle : ℕ
  pub access : ℕ
  pub granularity : ℕ
  pub base_high : ℕ

-- What `gdt_set` stores in its entry; `gran & 0xF0` is `|=`-ed into the granularity.
unfoldable pub gdt_entry : ℕ → ℕ → ℕ → ℕ → GdtEntry
gdt_entry base limit access gran = record {
  size_low = bit_and limit 65535;
  base_low = bit_and base 65535;
  base_middle = bit_and (base / 2 ^ 16) 255;
  access = access;
  granularity = bit_or (bit_and (limit / 2 ^ 16) 15) (bit_and gran 240);
  base_high = bit_and (base / 2 ^ 24) 255;
}

unfoldable pub gdt_set : List GdtEntry → ℕ → ℕ → ℕ → ℕ → ℕ → List GdtEntry
unfolding gdt_entry
gdt_set gdt id base limit access gran = set gdt id (gdt_entry base limit access gran)

-- The fields of `struct tss_entry` that the kernel sets.
pub record TssEntry : Type 0 where
  pub esp0 : ℕ
  pub ss0 : ℕ
  pub cs : ℕ
  pub ss : ℕ
  pub ds : ℕ
  pub es : ℕ
  pub fs : ℕ
  pub gs : ℕ

pub record Tables : Type 0 where
  pub gdt : List GdtEntry
  pub tss : List TssEntry

abbrev pub tss_size : ℕ
tss_size = 104

abbrev pub new_tss : TssEntry
new_tss = record {
  esp0 = 3735929054;
  ss0 = 16;
  cs = 11;
  ss = 19;
  ds = 19;
  es = 19;
  fs = 19;
  gs = 19;
}

abbrev pub no_tss : TssEntry
no_tss = record { esp0 = 0; ss0 = 0; cs = 0; ss = 0; ds = 0; es = 0; fs = 0; gs = 0 }

-- `tss_init`, with the address of the array of task states.
unfoldable pub tss_init : ℕ → ℕ → Tables → Tables
unfolding gdt_set
tss_init tss id t = record {
  gdt = gdt_set t.gdt (5 + id) (tss + tss_size * id) (tss + tss_size * (id + 1)) 233 0;
  tss = set t.tss id new_tss;
}

-- The flat segments of `gdt_init`: none, then code and data of the kernel and of the user.
unfoldable pub flat_segments : List GdtEntry → List GdtEntry
unfolding gdt_set
flat_segments gdt =
    let gdt₀ = gdt_set gdt 0 0 0 0 0 in
    let gdt₁ = gdt_set gdt₀ 1 0 4294967295 154 207 in
    let gdt₂ = gdt_set gdt₁ 2 0 4294967295 146 207 in
    let gdt₃ = gdt_set gdt₂ 3 0 4294967295 250 207 in gdt_set gdt₃ 4 0 4294967295 242 207

-- `gdt_init` for `max_cpu` processors, whose task states `kmemset` cleared.
unfoldable pub gdt_init : ℕ → ℕ → Tables → Tables
unfolding flat_segments tss_init iterate
gdt_init max_cpu tss t = iterate (tss_init tss) 0 max_cpu (record t { gdt = flat_segments t.gdt })

unfoldable pub tss_set_stack : Tables → ℕ → ℕ → Tables
tss_set_stack t cpu stack = record t {
  tss = set t.tss cpu (record (get_or t.tss cpu no_tss) { esp0 = stack });
}
