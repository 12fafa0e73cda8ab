-- ===== src/Http/File.antt =====
-- `private_file` of bench/src/http.c on POSIX: the temporary file that holds what curl must be told but
-- its command line must not show.
use cross_platform_benchmark.Prelude.{
  ℕ, Bool, [], ◌∷◌, ◌++◌, Option, none, some, Bytes, codes, leb, length, if◌then◌else◌,
}

-- What the environment and the file system answer: $TMPDIR, the bytes that `mkstemp` puts in the place
-- of the X's of its template, if it makes the file, and whether `fdopen` opens it.
pub record Files : Type 0 where
  pub tmpdir : Option Bytes
  pub made : Option Bytes
  pub opens : Bool

-- A file at a path; no file, and the text of the failure; or a file that was made and removed again.
pub data File : Type 0 where
  opened : Bytes → File
  refused : Bytes → File
  undone : Bytes → File

abbrev pub temp_dir : Option Bytes → Bytes
temp_dir none = codes "/tmp"
temp_dir (some []) = codes "/tmp"
temp_dir (some (c ∷ s)) = c ∷ s

abbrev made_file : Bytes → Bool → Option Bytes → File
made_file start opens none = refused (codes "cannot create a temporary file for curl")
made_file start opens (some letters) =
    if opens then opened (start ++ letters) else undone (codes "cannot open the temporary file")

unfoldable pub private_file : Files → ℕ → File
private_file fs cap =
    let start = temp_dir fs.tmpdir ++ codes "/cpcpub." in
    if leb cap (length (start ++ codes "XXXXXX"))
    then refused (codes "$TMPDIR is too long a path for the curl fallback")
    else made_file start fs.opens fs.made
