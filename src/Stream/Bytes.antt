-- ===== src/Stream/Bytes.antt =====
-- `WriteUnsafe` and `ReadUnsafe` of Ipc/MAssIpc_DataStream.h: an integer of `width` bytes, as its
-- bit pattern, in little-endian order.
use mathlib.Core.Path.{subst}
use native.Mathlib.Nat.{pow-suc, mod-eq_of_lt}
use ipc_portable.Common.{
  ℕ, zero, suc, ◌+◌, ◌*◌, ◌/◌, ◌%◌, ◌^◌, ◌<◌, ◌≡◌, refl, ◌∙◌, List, [], ◌∷◌, ◌==◌, if◌then◌else◌,
  length, get_or, All, IsByte, arith, Bool-cases, ap, inl, inr, ==_iff,
}

-- `for( … ) { bytes[i] = (0xFF & t); t >>= 8; }`
unfoldable pub store_loop : ℕ → ℕ → List ℕ
store_loop zero t = []
store_loop (suc rounds) t = (t % 256) ∷ store_loop rounds (t / 256)

unfoldable pub write_unsafe : ℕ → ℕ → List ℕ
write_unsafe width t = if width == 1 then (t % 256) ∷ [] else store_loop width t

-- `t <<= 8; t |= bytes[sizeof(T)-1-i];`, with the index as `rounds`, the number of rounds left
-- after this one. The shifted word ends in eight zero bits, so `|` adds.
unfoldable pub load_loop : ℕ → ℕ → ℕ → List ℕ → ℕ
load_loop width zero t bytes = t
load_loop width (suc rounds) t bytes =
    load_loop width rounds (t * 256 % 256 ^ width + get_or bytes rounds 0) bytes

unfoldable pub read_unsafe : ℕ → List ℕ → ℕ
read_unsafe width bytes = if width == 1 then get_or bytes 0 0 else load_loop width width 0 bytes

pub length-store_loop : (n t : ℕ) → length (store_loop n t) ≡ n
unfolding store_loop
length-store_loop zero t = refl
length-store_loop (suc n) t = ap suc (length-store_loop n (t / 256))

pub length-write_unsafe : (n t : ℕ) → length (write_unsafe n t) ≡ n
unfolding write_unsafe
length-write_unsafe n t = ground (arith, length-store_loop n t)

store_loop-IsByte : (n t : ℕ) → All IsByte (store_loop n t)
unfolding store_loop
store_loop-IsByte zero t = tt
store_loop-IsByte (suc n) t = (omega arith, store_loop-IsByte n (t / 256))

-- The byte at the front is the one that the last round takes.
load_loop-cons :
    (w n t b : ℕ) (bs : List ℕ)
    → load_loop w (suc n) t (b ∷ bs) ≡ load_loop w n t bs * 256 % 256 ^ w + b
unfolding load_loop
load_loop-cons w zero t b bs = refl
load_loop-cons w (suc n) t b bs = load_loop-cons w n (t * 256 % 256 ^ w + get_or bs n 0) b bs

quotient_fits : (n v : ℕ) → v < 256 ^ suc n → v / 256 < 256 ^ n
quotient_fits n v h = let e : 256 ^ suc n ≡ 256 ^ n * 256 = pow-suc 256 n in omega arith

shifted_fits : (v m : ℕ) → v < m → v / 256 * 256 % m + v % 256 ≡ v
shifted_fits v m h = omega (arith, mod-eq_of_lt {n = v / 256 * 256} {m = m} (omega arith))

load_loop-store_loop :
    (w n v : ℕ) → v < 256 ^ n → v < 256 ^ w → load_loop w n 0 (store_loop n v) ≡ v
unfolding store_loop
load_loop-store_loop w zero v h k = unfold load_loop in omega arith
load_loop-store_loop w (suc n) v h k =
    load_loop-cons w n 0 (v % 256) (store_loop n (v / 256))
    ∙ rw (load_loop-store_loop w n (v / 256) (quotient_fits n v h) (omega arith))
        (shifted_fits v (256 ^ w) k)

-- A value that fits its width is read back from the bytes that were written for it.
pub read_unsafe-write_unsafe :
    (width v : ℕ) → v < 256 ^ width → read_unsafe width (write_unsafe width v) ≡ v
unfolding read_unsafe write_unsafe
read_unsafe-write_unsafe w v h = elim (Bool-cases (w == 1)) [
  | inl e ↦ rw e (one_byte ((==_iff w 1).0 e))
  | inr e ↦ rw e (load_loop-store_loop w w v h h)
]
  where
    one_byte : w ≡ 1 → v % 256 ≡ v
    one_byte e = let h' : v < 256 ^ 1 = subst (λ x. v < 256 ^ x) e h in omega arith
