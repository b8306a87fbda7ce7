-- ===== src/Base/Copy.antt =====
-- memcpy and memmove into a block of memory.
use Prim.Native.Nat.{ℕ, ◌+◌, ◌≤◌}
use mathlib.Core.Path.{◌≡◌, sym, ap, ◌∙◌}
use mathlib.Core.List.{List, ◌++◌, append_assoc}
use native.Mathlib.Omega.{arith}
use ffmpeg_streaming.Base.Lists.{
  length, take, drop, length-append, length-take, length-drop, take-length_append,
}

module _ {ℓ} {A : Type ℓ} where
  -- memcpy and memmove of `bs` to `buf + i`
  abbrev pub blit : List A → ℕ → List A → List A
  blit buf i bs = take i buf ++ (bs ++ drop (i + length bs) buf)

  pub length-blit :
      (buf bs : List A) (i : ℕ) → i + length bs ≤ length buf → length (blit buf i bs) ≡ length buf
  length-blit buf bs i h = omega (
    arith,
    length-append (take i buf) (bs ++ drop (i + length bs) buf),
    length-append bs (drop (i + length bs) buf),
    length-take i buf,
    length-drop (i + length bs) buf,
  )

  -- Up to the end of the bytes written, a block holds what was before them, and them.
  pub take-blit :
      (buf bs : List A) (i : ℕ)
      → i ≤ length buf
      → take (i + length bs) (blit buf i bs) ≡ take i buf ++ bs
  take-blit buf bs i h =
      ap (λ n. take n (blit buf i bs)) size
      ∙ ap (take (length (take i buf ++ bs)))
          (sym (append_assoc (take i buf) bs (drop (i + length bs) buf)))
      ∙ take-length_append (take i buf ++ bs) (drop (i + length bs) buf)
    where
      size : i + length bs ≡ length (take i buf ++ bs)
      size = omega (arith, length-append (take i buf) bs, length-take i buf)
