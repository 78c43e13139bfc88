-- ===== src/Memory/Bios.antt =====
-- `Bios` of memory/bios.cpp: half a megabyte of read-only memory, filled from an image file.
pub mod Boot
use cpp_station.Prelude.{
  ℕ, ◌+◌, ◌*◌, Bool, true, false, Option, none, some, ltb, ◌==◌, if◌then◌else◌,
}
use cpp_station.Outcome.{Outcome, ok, panic, bios_not_loaded, ◌>>=◌}
use cpp_station.Memory.Bytes.{read_byte, join32}

abbrev pub bios_size : ℕ
bios_size = 512 * 1024

pub record Bios : Type 0 where
  pub buffer : ℕ → ℕ
  pub is_valid_image : Bool

-- The constructor, where the allocation succeeds; `garbage` is what `malloc` returns.
unfoldable pub new_bios : (ℕ → ℕ) → Bios
new_bios garbage = record { buffer = garbage; is_valid_image = false }

read : Bios → ℕ → Outcome ℕ
unfolding read_byte
read b i = read_byte bios_size b.buffer i

unfoldable pub load8 : Bios → ℕ → Outcome ℕ
unfolding read
load8 b offset = read b offset

unfoldable pub load32 : Bios → ℕ → Outcome ℕ
unfolding read
load32 b offset = do
  b0 ← read b (offset + 0)
  b1 ← read b (offset + 1)
  b2 ← read b (offset + 2)
  b3 ← read b (offset + 3)
  ok (join32 b0 b1 b2 b3)

-- A file that could be opened: its length, and its bytes.
pub record File : Type 0 where
  pub size : ℕ
  pub bytes : ℕ → ℕ

-- The value of `cpp::result<uint64_t, std::string>`. The text of the error is made of the path and
-- of what the system says of `errno`; here it is one of two cases.
pub data LoadResult : Type 0 where
  loaded : ℕ → LoadResult
  open_failed : ℕ → LoadResult
  not_an_image : LoadResult

-- `none` is a file that cannot be opened. A file of another length is not an error of this
-- function: its length is returned, and nothing is read.
unfoldable pub load_from_file : Option File → ℕ → Bios → LoadResult × Bios
load_from_file none errno b = (if errno == 0 then not_an_image else open_failed errno, b)
load_from_file (some f) errno b =
    if f.size == bios_size
    then (
      loaded f.size,
      record {
        buffer = λ i. if ltb i bios_size then f.bytes i else b.buffer i;
        is_valid_image = true;
      },
    )
    else (loaded f.size, b)

-- The use of it in `Bus::Bus`: `check()` exits with the error, if there is one.
unfoldable pub boot_image : Option File → ℕ → Bios → Outcome Bios
unfolding load_from_file
boot_image file errno b = check (load_from_file file errno b)
  where
    check : LoadResult × Bios → Outcome Bios
    check (loaded n, b') = ok b'
    check (open_failed e, b') = panic bios_not_loaded
    check (not_an_image, b') = panic bios_not_loaded
