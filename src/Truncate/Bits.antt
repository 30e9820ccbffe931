-- ===== src/Truncate/Bits.antt =====
-- The buffer size of win32/cpp/trunczerotail.cpp.
use ltrdata.Prelude.{
  ℕ, zero, suc, ◌*◌, ◌/◌, ◌^◌, ◌≤◌, ◌<◌, ◌≡◌, refl, ◌⊎◌, inl, inr, arith, ltb, Bool-cases,
}
use ltrdata.Truncate.{size_bits, rembufsiz, shifted, buffer_size}

size_bits_lem :
    (fuel rem : ℕ)
    → 0 < rem
    → rem < 2 * shifted fuel
    → (shifted (size_bits fuel rem) ≤ rem)
      × (rem < 2 * shifted (size_bits fuel rem))
      × (size_bits fuel rem ≤ fuel)
unfolding size_bits
size_bits_lem zero rem some small = (omega arith, small, omega arith)
size_bits_lem (suc fuel) rem some small = elim (Bool-cases (ltb 1 rem)) [
  | inl more ↦
      let (low, high, few) = size_bits_lem fuel (rem / 2) (ground arith) (ground arith) in
      rw (size_bits, more) (omega arith, omega arith, omega arith)
  | inr one ↦ rw (size_bits, one) (ground arith, ground arith, omega arith)
]

-- A power of two above 256 is 512 or a multiple of 1024.
shifted-512 :
    (bits : ℕ)
    → 256 < shifted bits
    → (shifted bits ≡ 512) ⊎ ((half : ℕ) × (shifted bits ≡ 1024 * half))
shifted-512 zero h = absurd (omega arith)
shifted-512 (suc zero) h = absurd (omega arith)
shifted-512 (suc (suc zero)) h = absurd (omega arith)
shifted-512 (suc (suc (suc zero))) h = absurd (omega arith)
shifted-512 (suc (suc (suc (suc zero)))) h = absurd (omega arith)
shifted-512 (suc (suc (suc (suc (suc zero))))) h = absurd (omega arith)
shifted-512 (suc (suc (suc (suc (suc (suc zero)))))) h = absurd (omega arith)
shifted-512 (suc (suc (suc (suc (suc (suc (suc zero))))))) h = absurd (omega arith)
shifted-512 (suc (suc (suc (suc (suc (suc (suc (suc zero)))))))) h = absurd (omega arith)
shifted-512 (suc (suc (suc (suc (suc (suc (suc (suc (suc zero))))))))) h = inl refl
shifted-512 (suc (suc (suc (suc (suc (suc (suc (suc (suc (suc bits)))))))))) h =
    inr (shifted bits, omega arith)

-- Such a power that is not above `bufsiz` with its bit 9 set is not above `bufsiz` either.
fits :
    (bufsiz p : ℕ)
    → (p ≡ 512) ⊎ ((half : ℕ) × (p ≡ 1024 * half))
    → p ≤ rembufsiz bufsiz
    → rembufsiz bufsiz < 2 * p
    → (512 ≤ p) × (512 ≤ bufsiz → (p ≤ bufsiz) × (bufsiz < 2 * p))
fits bufsiz p (inl e) low high = (omega arith, λ h. (omega arith, omega arith))
fits bufsiz p (inr (half, e)) low high = (omega arith, λ h. (omega arith, omega arith))

buffer_size-bits : (bufsiz : ℕ) → buffer_size bufsiz ≡ shifted (size_bits 32 (rembufsiz bufsiz))
unfolding buffer_size
buffer_size-bits bufsiz = refl

-- For a size below 2^32 the buffer has a power of two of bytes, at least 512, and for a size from
-- 512 on it is the greatest one that is not above the size.
pub buffer_size_lem :
    (bufsiz : ℕ)
    → bufsiz < 2 ^ 32
    → (bits : ℕ) × (buffer_size bufsiz ≡ shifted bits)
      × (512 ≤ buffer_size bufsiz)
      × (512 ≤ bufsiz → (buffer_size bufsiz ≤ bufsiz) × (bufsiz < 2 * buffer_size bufsiz))
buffer_size_lem bufsiz small =
    let rem : ℕ = rembufsiz bufsiz in
    let bits : ℕ = size_bits 32 rem in
    let (low, high, few) = size_bits_lem 32 rem (omega arith) (omega arith) in
    let fit = fits bufsiz (shifted bits) (shifted-512 bits (omega arith)) low high in
    let same = buffer_size-bits bufsiz in (bits, same, rw same fit.0, rw same fit.1)
