-- ===== src/Fetch/Tables.antt =====
-- vk_fetch_s.h and vk_enum.h: what the functions give for the tables of HTTP.
use mnvkd.Base.{ℕ, true, none, List, ap, ◌∙◌, refl, ◌≡◌, strcasecmp}
use mnvkd.Enum.{or_size}
use mnvkd.Enum.Search.{is_sorted, lookup_row, string_to-lookup_row}
use mnvkd.Fetch.Methods.{methods}
use mnvkd.Fetch.Headers.{http_headers, x_method_override, int_to_http_header, string_to_http_header}

http_headers_sorted : is_sorted http_headers ≡ true
unfolding strcasecmp
http_headers_sorted = refl

pub methods_sorted : is_sorted methods ≡ true
unfolding strcasecmp
methods_sorted = refl

-- A name that no row of the table of headers has, but for case, is read as the method override: the
-- size of the table is the number of that value.
pub unknown_header :
    (key : List ℕ)
    → lookup_row http_headers key ≡ none
    → string_to_http_header key ≡ x_method_override
unfolding string_to_http_header
unknown_header key h =
    string_to-lookup_row int_to_http_header http_headers key http_headers_sorted
    ∙ ap (or_size int_to_http_header 32) h
