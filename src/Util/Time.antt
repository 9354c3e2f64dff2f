-- ===== src/Util/Time.antt =====
-- timespec_add_ms of util.c.
use dvpn.Base.{ℕ, ◌+◌, ◌-◌, ◌*◌, ◌/◌, ◌%◌, ltb, if◌then◌else◌}

-- struct timespec
pub record Timespec : Type 0 where
  pub tv_sec : ℕ
  pub tv_nsec : ℕ

-- RAND_MAX of the GNU C library.
abbrev rand_max : ℕ
rand_max = 0x7fff_ffff

abbrev pub carry : Timespec → Timespec
carry ts =
    if ltb ts.tv_nsec 1_000_000_000
    then ts
    else record { tv_sec = ts.tv_sec + 1; tv_nsec = ts.tv_nsec - 1_000_000_000 }

-- `random` is what random() answers; minms is not above maxms.
unfoldable pub timespec_add_ms : ℕ → Timespec → ℕ → ℕ → Timespec
timespec_add_ms random ts minms maxms =
    let ms = minms + (maxms - minms) * random / rand_max in
    carry
      (record { tv_sec = ts.tv_sec + ms / 1000; tv_nsec = ts.tv_nsec + 1_000_000 * (ms % 1000) })
