-- ===== src/VetUtil.antt =====
-- vetutil/vet.go.
use thorflux.Base.{ℕ, ◌+◌, ◌/◌, ◌^◌, u64}
use thorflux.Base.Int.{ℤ, pos, negsuc}

-- 1e18, one VET in wei.
abbrev pub vet : ℕ
vet = 10 ^ 18

-- `Uint64()` keeps the low 64 bits.
unfoldable pub scale_to_vet : ℕ → ℕ
scale_to_vet wei = u64 (wei / vet)

-- The same on a signed big.Int: `Div` is Euclidean, and `Uint64` reads the magnitude.
unfoldable pub scale_to_vet_signed : ℤ → ℕ
unfolding scale_to_vet
scale_to_vet_signed (pos n) = scale_to_vet n
scale_to_vet_signed (negsuc n) = u64 ((n + vet) / vet)

unfoldable pub scale_to_million_vet : ℕ → ℕ
scale_to_million_vet wei = scale_to_vet wei / 1_000_000
