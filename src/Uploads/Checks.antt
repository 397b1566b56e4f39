-- ===== src/Uploads/Checks.antt =====
-- upload/service.py: the checks of a request, and the file name that a staged file gets.
use bhiv_masterdb_ingestion.Prelude.{
  ℕ, Bool, not, List, [], ◌∷◌, length, take, ◌==◌, leb, if◌then◌else◌, ◌&&◌, ◌||◌,
}
use bhiv_masterdb_ingestion.Prelude.Text.{Text, codes, elem_text, lower, strip, is_empty, occurs_in}

abbrev pub allowed_content_types : List Text
allowed_content_types =
    codes "text/csv"
    ∷ codes "application/json"
    ∷ codes "application/vnd.openxmlformats-officedocument.spreadsheetml.sheet"
    ∷ codes "application/pdf"
    ∷ codes "text/plain"
    ∷ codes "image/png"
    ∷ codes "image/jpeg"
    ∷ codes "image/gif"
    ∷ codes "application/zip"
    ∷ []

-- `os.path.basename`: what follows the last "/".
unfoldable pub basename_from : Text → Text → Text
basename_from found [] = found
basename_from found (c ∷ s) = basename_from (if c == 47 then s else found) s

-- The pattern `[\w\-.,]`; the word characters of `re` are an argument.
abbrev pub is_plain : (ℕ → Bool) → ℕ → Bool
is_plain is_word c = is_word c || (c == 45 || (c == 46 || c == 44))

unfoldable pub replace_others : (ℕ → Bool) → Text → Text
replace_others is_word [] = []
replace_others is_word (c ∷ s) = (if is_plain is_word c then c else 95) ∷ replace_others is_word s

unfoldable pub sanitize_filename : (ℕ → Bool) → Text → Text
unfolding basename_from replace_others
sanitize_filename is_word filename =
    take 255 (replace_others is_word (basename_from filename filename))

unfoldable pub validate_filename : Text → Bool
validate_filename filename =
    not (is_empty filename || is_empty (strip filename))
    && (leb (length filename) 255
        && not (
            occurs_in (codes "..") filename
            || (occurs_in (codes "/") filename || occurs_in (codes "\\") filename)))

unfoldable pub validate_content_type : Text → Bool
validate_content_type content_type = elem_text (lower content_type) allowed_content_types

unfoldable pub validate_file_size : ℕ → ℕ → Bool
validate_file_size max_file_size_bytes file_size =
    leb file_size max_file_size_bytes && leb 1 file_size
