-- ===== src/Plotters/Drawing/Images/Sizes.antt =====
-- The buffer of a drawn image: its length, and when it is large enough for the image.
use native.Mathlib.Omega.{arith}
use nu_jupyter_kernel.Prelude.{ℕ, zero, suc, ◌*◌, ◌%◌, ◌<◌, ◌≤◌, ◌≡◌, refl, length}
use nu_jupyter_kernel.Plotters.Drawing.Images.{buffer_length, zeros, u32_mod}

pub length-zeros : (n : ℕ) → length (zeros n) ≡ n
unfolding zeros
length-zeros zero = refl
length-zeros (suc n) = rw (length-zeros n) refl

-- Three bytes for every pixel, exactly where that fits into 32 bits; otherwise the buffer is shorter.
pub buffer_length_lem :
    (width height : ℕ)
    → (height * width * 3 < u32_mod → buffer_length width height ≡ height * width * 3)
      × (u32_mod ≤ height * width * 3 → buffer_length width height < height * width * 3)
unfolding buffer_length
buffer_length_lem width height = go (height * width)
  where
    go :
        (n : ℕ)
        → (n * 3 < u32_mod → (n % u32_mod) * 3 % u32_mod ≡ n * 3)
          × (u32_mod ≤ n * 3 → (n % u32_mod) * 3 % u32_mod < n * 3)
    go n = (λ h. omega arith, λ h. omega arith)
