-- ===== src/Server/Listing.antt =====
-- plugin_dir.c: the page of a directory (dir2html, dir_list_local), and a file that is removed
-- (dir_delete_file). The entries are the same on both passes over a directory, and stat knows each.
pub mod Pages
use ffmpeg_streaming.Base.{
  ℕ, ◌+◌, ◌-◌, ◌/◌, List, [], ◌∷◌, ◌++◌, Bool, Option, none, some, ltb, not, true, false,
  if◌then◌else◌, length, take, same_bytes, join, blit, replicate,
}
use ffmpeg_streaming.Base.Text.{codes}
use ffmpeg_streaming.Base.Int.{negsuc}
use ffmpeg_streaming.Server.{HttpContext}
use ffmpeg_streaming.Server.Response.{crlf, decimal}

-- an entry of a directory: its name, and what stat and strftime say of it
pub record Entry : Type 0 where
  pub d_name : List ℕ
  pub is_directory : Bool
  pub st_size : ℕ
  pub modified : List ℕ

-- The file system, and printf of `%.1f`: whether a name is there and is a directory; the entries of a
-- directory, if it opens; whether a name is removed; a number of bytes in units of 2^20 as text;
-- whether av_malloc succeeds.
pub record Disk : Type 0 where
  pub stat : List ℕ → Option Bool
  pub entries : List ℕ → Option (List Entry)
  pub removes : List ℕ → Bool
  pub megabytes : ℕ → List ℕ
  pub allocated : Bool

-- the column of sizes
pub size_text : Disk → Entry → List ℕ
size_text d e =
    if e.is_directory
    then codes "&lt;DIR&gt;"
    else if ltb e.st_size 1024
    then decimal 20 e.st_size
    else if ltb e.st_size 1048576
    then decimal 20 (e.st_size / 1024 + 1) ++ codes "k"
    else d.megabytes e.st_size ++ codes "M"

-- one row of the table
pub row : Disk → List ℕ → Entry → List ℕ
unfolding size_text
row d uri e =
    codes "<tr><td><a href="
    ++ (b'"'
        ∷ (uri
            ++ (e.d_name
                ++ (b'"'
                    ∷ (b'>'
                        ∷ (e.d_name
                            ++ ((if e.is_directory then codes "/" else [])
                                ++ (codes "</a></td><td>&nbsp;"
                                    ++ (e.modified
                                        ++ (codes "</td><td>&nbsp;&nbsp;"
                                            ++ (size_text d e
                                                ++ (codes "</td></tr>" ++ 10 ∷ []))))))))))))

-- the loop over the entries: what each snprintf prints
pub rows : Disk → List ℕ → List Entry → List (List ℕ)
unfolding row
rows d uri [] = []
rows d uri (e ∷ es) =
    if same_bytes e.d_name (codes ".") then rows d uri es else row d uri e ∷ rows d uri es

pub page_head : List ℕ → List ℕ
page_head uri =
    codes "<html><head><title>Index of "
    ++ (uri
        ++ (codes "</title><style>th {text-align: left;}</style></head><body><h1>Index of "
            ++ (uri
                ++ (codes "</h1><pre><table cellpadding="
                    ++ (b'"'
                        ∷ (b'0'
                            ∷ (b'"'
                                ∷ (b'>'
                                    ∷ (10
                                        ∷ (codes
                                              "<tr><th>Name</th><th>Modified</th><th>Size</th></tr><tr><td colspan="
                                            ++ (b'"'
                                                ∷ (b'3'
                                                    ∷ (b'"'
                                                        ∷ (codes "><hr></td></tr>"
                                                            ++ 10 ∷ []))))))))))))))

pub page_foot : List ℕ
page_foot = codes "</table></body></html>"

-- what the calls of snprintf in `dir2html` print; nothing where the directory does not open
unfoldable pub pieces : Disk → List ℕ → List ℕ → List (List ℕ)
unfolding page_head rows page_foot
pieces d path uri = elim (d.entries path) [
  | none ↦ []
  | some es ↦ page_head uri ∷ (rows d uri es ++ (page_foot ++ 10 ∷ []) ∷ [])
]

-- the text of a page, whose length `dir2html` returns
unfoldable pub dir2html : Disk → List ℕ → List ℕ → List ℕ
unfolding pieces
dir2html d path uri = join (pieces d path uri)

-- snprintf at an offset of a buffer: as much of the text as leaves room for a 0, and the 0; nothing where
-- there is no room
unfoldable pub print_at : List ℕ → ℕ → List ℕ → List ℕ
print_at buf ret text =
    if ltb ret (length buf) then blit buf ret (take (length buf - ret - 1) text ++ 0 ∷ []) else buf

-- the calls of snprintf in `dir2html`, each at the sum of what the calls before it return
unfoldable pub print_all : List ℕ → ℕ → List (List ℕ) → List ℕ
unfolding print_at
print_all buf ret [] = buf
print_all buf ret (text ∷ texts) = print_all (print_at buf ret text) (ret + length text) texts

-- what `dir2html` leaves in memory of `len` bytes, which at first are of any value
unfoldable pub in_buffer : ℕ → List (List ℕ) → List ℕ
unfolding print_all
in_buffer len texts = print_all (replicate len 255) 0 texts

-- the directory that a name stands for, with its address
unfoldable pub listed : Disk → List ℕ → Option (List ℕ × List ℕ)
listed d url = elim (d.stat url) [
  | none ↦ if same_bytes url (codes "index.html") then some (codes ".", codes "/") else none
  | some is_directory ↦
      if is_directory then some (url, take 4095 (b'/' ∷ (url ++ codes "/"))) else none
]

-- the header of a page of `len` bytes
pub list_head : ℕ → List ℕ
list_head len =
    codes "HTTP/1.1 200 OK"
    ++ (crlf
        ++ (codes "Connection: close"
            ++ (crlf
                ++ (codes "Content-Type: text/html; charset=utf-8"
                    ++ (crlf
                        ++ (codes "Content-Length: " ++ (decimal 20 len ++ (crlf ++ crlf))))))))

-- `dir_list_local`: the connection with the page, if there is one
unfoldable pub dir_list_local : Disk → HttpContext → HttpContext × Bool
unfolding dir2html pieces in_buffer listed list_head
dir_list_local d c = elim (listed d c.url) [
  | none ↦ (c, false)
  | some p ↦
      if not d.allocated
      then (record c { pending = [] }, false)
      else let text = dir2html d p.0 p.1 in
        (
          record c {
            pending =
                list_head (length text)
                ++ (if c.only_header then [] else in_buffer (length text) (pieces d p.0 p.1));
            http_error = 200;
            local_fd = negsuc 0;
          },
          true,
        )
]

-- `dir_delete_file`: the status, and whether it calls remove
pub dir_delete_file : Disk → List ℕ → ℕ × Bool
dir_delete_file d url = elim (d.stat url) [
  | none ↦ (404, false)
  | some is_directory ↦ (if d.removes url then 200 else 400, true)
]
