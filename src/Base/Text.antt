-- ===== src/Base/Text.antt =====
-- Text as bytes.
use Prim.Native.Char.{code}
use Prim.Native.String.{String}
use ffmpeg_streaming.Base.{ℕ, List, [], ◌∷◌}

-- the bytes of a literal in ASCII
abbrev pub codes : String → List ℕ
codes String.[] = []
codes (String.◌∷◌ c s) = code c ∷ codes s
