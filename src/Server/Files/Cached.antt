-- ===== src/Server/Files/Cached.antt =====
-- A file that the client has already.
use ffmpeg_streaming.Base.{
  ℕ, ◌≡◌, refl, List, [], ◌∷◌, ◌++◌, ◌||◌, not, false, arith, take, drop, same_bytes, if◌then◌else◌,
}
use ffmpeg_streaming.Base.Text.{codes}
use ffmpeg_streaming.Server.{HttpContext}
use ffmpeg_streaming.Server.Files.{Opened, etag_of, dir_is_modifed}

tags :
    (xs e : List ℕ)
    → (if same_bytes xs (codes "*")
        then false
        else if same_bytes (take 2 xs) (codes "W/")
        then not (same_bytes (drop 2 xs) (b'"' ∷ e))
        else not (same_bytes xs (b'"' ∷ e)))
      ≡ not (
          same_bytes xs (codes "*")
          || same_bytes xs (b'"' ∷ e)
          || same_bytes xs (codes "W/" ++ b'"' ∷ e))
unfolding same_bytes
tags [] e = refl
tags (x ∷ []) e = ground arith
tags (x ∷ y ∷ xs) e = ground arith

-- A file counts as changed unless If-None-Match was an asterisk, or the file's Etag, by itself or after
-- W/; If-Modified-Since has no part in it.
pub dir_is_modifed_lem :
    (c : HttpContext) (f : Opened)
    → dir_is_modifed c f
      ≡ not (
          same_bytes c.inm (codes "*")
          || same_bytes c.inm (etag_of f)
          || same_bytes c.inm (codes "W/" ++ etag_of f))
unfolding dir_is_modifed etag_of
dir_is_modifed_lem c f = tags c.inm _
