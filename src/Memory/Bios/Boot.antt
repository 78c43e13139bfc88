-- ===== src/Memory/Bios/Boot.antt =====
-- What the loads of `Bios` find after the start, whatever the file is.
use cpp_station.Prelude.{
  ℕ, ◌+◌, ◌≡◌, ◌≢◌, ◌⊎◌, inl, inr, refl, true, Bool-cases, none, some, ltb, ◌==◌, if◌then◌else◌,
  arith,
}
use cpp_station.Outcome.{Outcome, ok, panic, fault, bios_not_loaded, ◌>>=◌}
use cpp_station.Memory.Bytes.{join32}
use cpp_station.Memory.Bios.{Bios, File, bios_size, boot_image, load32}

-- The word at an offset of the file, where it has four bytes there.
abbrev pub file_word : File → ℕ → Outcome ℕ
file_word f offset =
    if ltb (offset + 3) bios_size
    then ok (
        join32 (f.bytes (offset + 0)) (f.bytes (offset + 1)) (f.bytes (offset + 2))
          (f.bytes (offset + 3)))
    else fault

load32_image :
    (f : File) (rest : ℕ → ℕ) (offset : ℕ)
    → load32
        (record {
          buffer = λ i. if ltb i bios_size then f.bytes i else rest i;
          is_valid_image = true;
        })
        offset
      ≡ file_word f offset
unfolding load32
load32_image f rest offset = ground arith

-- The loading of the BIOS at the start, for every file: one that cannot be opened stops the
-- emulator; one of the size of the BIOS is there afterwards, each word load giving the bytes of
-- the file, or undefined where it leaves the buffer; one of any other size is no error and leaves
-- the memory as it was.
pub boot_image_lem :
    (b : Bios) (f : File) (errno offset : ℕ)
    → (boot_image none errno b ≡ panic bios_not_loaded)
      × (((f.size ≡ bios_size)
            × ((boot_image (some f) errno b >>= λ b'. load32 b' offset) ≡ file_word f offset))
          ⊎ ((f.size ≢ bios_size) × (boot_image (some f) errno b ≡ ok b)))
unfolding boot_image load32
boot_image_lem b f errno offset = (
  elim (Bool-cases (errno == 0)) [ inl e ↦ rw e refl | inr e ↦ rw e refl ],
  elim (Bool-cases (f.size == bios_size)) [
    | inl e ↦ rw e (inl (ground (arith, e), load32_image f b.buffer offset))
    | inr e ↦ rw e (inr ((λ q. ground (arith, e, q)), refl))
  ],
)
