-- ===== src/Server/Segment.antt =====
-- ffserver.c: one HLS segment in memory, grown by steps of 4 KiB (hls_write).
use mathlib.Core.Path.{subst}
use ffmpeg_streaming.Base.{
  ◌^◌, ◌<◌, ◌&&◌, ◌||◌, leb, Option, sym, blit, length-blit, take-blit, ℕ, ◌+◌, ◌-◌, ◌*◌, ◌/◌, ◌≤◌,
  ◌≡◌, refl, ◌∙◌, List, [], ◌++◌, Bool, true, false, none, some, arith, ltb, if◌then◌else◌, length,
  take, replicate, ◌⊎◌, inl, inr, Bool-cases, length-append, length-replicate, take-append,
}
use ffmpeg_streaming.Base.Int.{ℤ, pos, negsuc}
use ffmpeg_streaming.Server.{Hls}

-- SEG_INC_SIZE
abbrev pub seg_inc_size : ℕ
seg_inc_size = 4096

-- av_realloc: the bytes that were there, and `more` bytes of any value after them
abbrev extend : List ℕ → ℕ → List ℕ
extend block more = block ++ replicate more 0

-- the steps by which the memory is to grow
abbrev steps : Hls → ℕ → ℕ
steps s size = (s.csize + size - s.msize + seg_inc_size) / seg_inc_size

-- The sizes are ints: a sum goes past the largest one, and what follows is undefined.
abbrev overflows : Hls → ℕ → Bool
overflows s size =
    leb (2 ^ 31) (s.csize + size)
    || (ltb s.msize (s.csize + size)
        && (leb (2 ^ 31) (s.csize + size - s.msize + seg_inc_size)
            || leb (2 ^ 31) (steps s size * seg_inc_size + s.msize)))

-- `hls_write` at its segment. `allocated`: av_realloc succeeds; `none` is a fault.
unfoldable pub append : Bool → Hls → List ℕ → Option (ℤ × Hls)
append allocated s bs = elim s.block [
  | none ↦ some (negsuc 0, s)
  | some block ↦
      let size = length bs in
      if overflows s size
      then none
      else if ltb s.msize (s.csize + size)
      then (if allocated
          then some (
            pos 0,
            record s {
              block = some (blit (extend block (steps s size * seg_inc_size)) s.csize bs);
              msize = s.msize + steps s size * seg_inc_size;
              csize = s.csize + size;
            },
          )
          else some (negsuc 1, s))
      else some (pos 0, record s { block = some (blit block s.csize bs); csize = s.csize + size })
]

-- what the segment holds
abbrev pub contents : Hls → List ℕ
contents s = elim s.block [ none ↦ [] | some block ↦ take s.csize block ]

pub record IsValid (s : Hls) (block : List ℕ) : Type 0 where
  pub here : s.block ≡ some block
  pub storage : length block ≡ s.msize
  pub fits : s.csize ≤ s.msize
  pub int_size : s.msize < 2 ^ 31

take-extend :
    (block : List ℕ) (n more : ℕ) → n ≤ length block → take n (extend block more) ≡ take n block
take-extend block n more h = take-append n block (replicate more 0) h

-- The bytes are appended: the memory holds what the segment holds, and is not smaller than it was.
pub record Appended (s : Hls) (bs : List ℕ) (s' : Hls) : Type 0 where
  pub block : List ℕ
  pub valid : IsValid s' block
  pub bytes : contents s' ≡ contents s ++ bs
  pub size : s'.csize ≡ s.csize + length bs
  pub wider : s.msize ≤ s'.msize
  pub same_flag : s'.flag ≡ s.flag

-- what hls_write does: a fault, a refusal that leaves the segment alone, or the bytes appended
abbrev pub Outcome : Bool → Hls → List ℕ → Type 0
Outcome allocated s bs =
    ((append allocated s bs ≡ none)
      × (s.msize < s.csize + length bs)
      × (2 ^ 31 ≤ s.csize + length bs + seg_inc_size))
    ⊎ ((append allocated s bs ≡ some (negsuc 1, s)) × (allocated ≡ false))
    ⊎ ((s' : Hls) × (append allocated s bs ≡ some (pos 0, s')) × Appended s bs s')

append-in_place :
    (allocated : Bool) (s : Hls) (block bs : List ℕ)
    → IsValid s block
    → overflows s (length bs) ≡ false
    → ltb s.msize (s.csize + length bs) ≡ false
    → Outcome allocated s bs
unfolding append
append-in_place allocated s block bs v o e = inr (
    inr (
      record s { block = some (blit block s.csize bs); csize = s.csize + length bs },
      ground (arith, v.here, o, e),
      record {
        block = blit block s.csize bs;
        valid = record {
          here = refl;
          storage = length-blit block bs s.csize (ground (arith, v.storage, e)) ∙ v.storage;
          fits = ground (arith, e);
          int_size = v.int_size;
        };
        bytes =
            ground (arith, v.here, take-blit block bs s.csize (omega (arith, v.storage, v.fits)));
        size = refl;
        wider = omega arith;
        same_flag = refl;
      },
    ))

append-grown :
    (s : Hls) (block bs : List ℕ)
    → IsValid s block
    → overflows s (length bs) ≡ false
    → ltb s.msize (s.csize + length bs) ≡ true
    → Outcome true s bs
unfolding append
append-grown s block bs v o e = inr (
    inr (
      record s {
        block = some (blit wide s.csize bs);
        msize = s.msize + more;
        csize = s.csize + length bs;
      },
      ground (arith, v.here, o, e),
      record {
        block = blit wide s.csize bs;
        valid = record {
          here = refl;
          storage = length-blit wide bs s.csize (omega (arith, width, enough)) ∙ width;
          fits = enough;
          int_size = ground (arith, o, e);
        };
        bytes = ground (
          arith,
          v.here,
          take-blit wide bs s.csize (omega (arith, width, v.fits)),
          take-extend block s.csize more (omega (arith, v.storage, v.fits)),
        );
        size = refl;
        wider = omega arith;
        same_flag = refl;
      },
    ))
  where
    more : ℕ
    more = steps s (length bs) * seg_inc_size

    wide : List ℕ
    wide = extend block more

    width : length wide ≡ s.msize + more
    width =
        omega (
          arith,
          v.storage,
          length-append block (replicate more 0),
          length-replicate {A = ℕ} more 0,
        )

    enough : s.csize + length bs ≤ s.msize + more
    enough = omega arith

append-overflows :
    (allocated : Bool) (s : Hls) (block bs : List ℕ)
    → IsValid s block
    → overflows s (length bs) ≡ true
    → Outcome allocated s bs
unfolding append
append-overflows allocated s block bs v o =
    inl (ground (arith, v.here, o), ground (arith, o, v.int_size), ground (arith, o, v.int_size))

-- A segment that has its memory is grown where the bytes need it. A fault comes only where they need
-- it, and where the segment would hold nearly 2 GiB.
pub append_lem :
    (allocated : Bool) (s : Hls) (block bs : List ℕ) → IsValid s block → Outcome allocated s bs
unfolding append
append_lem allocated s block bs v = elim (Bool-cases (overflows s (length bs))) [
  | inl o ↦ append-overflows allocated s block bs v o
  | inr o ↦ elim (Bool-cases (ltb s.msize (s.csize + length bs))) [
    | inr e ↦ append-in_place allocated s block bs v o e
    | inl e ↦ elim (Bool-cases allocated) [
      | inr bad ↦ inr (inl (ground (arith, v.here, o, e, bad), bad))
      | inl good ↦ subst (λ a. Outcome a s bs) (sym good) (append-grown s block bs v o e)
    ]
  ]
]
