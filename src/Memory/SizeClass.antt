-- ===== src/Memory/SizeClass.antt =====
-- The size arithmetic of src/runtime/memory_pool.cc. Alignments are powers of two, so that
-- `x & ~(a - 1)` takes from `x` its remainder by `a`.
pub mod Fit
use Prim.Native.Nat.{bit_or}
use storage_engine.Prelude.{
  ℕ, zero, suc, ◌+◌, ◌-◌, ◌*◌, ◌/◌, ◌%◌, Bool, List, [], ◌∷◌, ◌||◌, ◌==◌, leb, ltb, if◌then◌else◌,
  get_or, add_word, sub_word,
}

abbrev pub small_object_max : ℕ
small_object_max = 256

abbrev pub medium_object_max : ℕ
medium_object_max = 4096

abbrev pub block_size : ℕ
block_size = 1024 * 1024

abbrev pub num_size_classes : ℕ
num_size_classes = 6

abbrev size_classes : List ℕ
size_classes = 8 ∷ 16 ∷ 32 ∷ 64 ∷ 128 ∷ 256 ∷ []

-- The source reads the table inside its bounds only.
unfoldable pub class_size : ℕ → ℕ
class_size i = get_or size_classes i 0

-- `s |= s >> k`, the shift given by its power of two.
abbrev smear : ℕ → ℕ → ℕ
smear power s = bit_or s (s / power)

-- `__builtin_ctzll`, undefined at 0.
unfoldable trailing_zeros : ℕ → ℕ → ℕ
trailing_zeros zero s = 0
trailing_zeros (suc bits) s =
    let rest = trailing_zeros bits (s / 2) in if s % 2 == 1 then 0 else rest + 1

unfoldable pub size_class_index : ℕ → ℕ
unfolding trailing_zeros
size_class_index size =
    if leb size 8
    then 0
    else (let s1 = smear 2 (size - 1) in
        let s2 = smear 4 s1 in
        let s3 = smear 16 s2 in
        let s4 = smear 256 s3 in
        let s5 = smear 65536 s4 in
        let s6 = smear 4294967296 s5 in
        let idx = sub_word (trailing_zeros 64 (add_word s6 1)) 3 in
        if ltb idx num_size_classes then idx else num_size_classes)

-- `(x + a - 1) & ~(a - 1)`.
abbrev pub align_up : ℕ → ℕ → ℕ
align_up x a = let y = sub_word (add_word x a) 1 in y - y % a

-- The size an allocation is rounded to.
unfoldable pub alloc_size : ℕ → ℕ → ℕ
alloc_size bytes alignment = if ltb 16 alignment then align_up bytes alignment else bytes
