-- ===== src/Descriptors/Tests.antt =====
-- A table with two descriptors in use, and the theorems at it.
use vsop.Base.{ℕ, ◌≡◌, refl, ◌⊎◌, List, [], ◌∷◌, arith, set, if◌then◌else◌, ◌==◌}
use vsop.Base.Int.{pos, negsuc}
use vsop.Stream.{stream_new, stream_write, write_byte, stream_write_length, stream_read_length}
use vsop.Descriptors.{Store, IoStream, iostream, iostream_select, iostream_attach}
use vsop.Descriptors.Laws.{IsPacked, FirstReadable, NoneReadable, iostream_select_lem}

-- Stream 5 holds a byte, all others are new.
store : Store
store p = if p == 5 then (stream_write stream_new (9 ∷ [])).1 else stream_new

abbrev table : List IoStream
table = iostream 3 4 ∷ iostream 5 6 ∷ iostream 0 0 ∷ iostream 0 0 ∷ []

table-IsPacked : IsPacked table
table-IsPacked = omega arith

select_second : iostream_select store table ≡ pos 1
unfolding iostream_select store stream_new stream_write write_byte stream_write_length
    stream_read_length
select_second = refl

attach_third : iostream_attach table 7 8 ≡ (pos 2, set table 2 (iostream 7 8))
unfolding iostream_attach
attach_third = refl

iostream_select_lem_example :
    ((k : ℕ) × (iostream_select store table ≡ pos k) × FirstReadable store table k)
    ⊎ ((iostream_select store table ≡ negsuc 0) × NoneReadable store table)
iostream_select_lem_example = iostream_select_lem store table table-IsPacked
