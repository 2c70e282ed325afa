-- ===== src/Classic/Tcmalloc/PageMap/Tests.antt =====
-- Two pages that share an entry, and a span of three pages.
use my_malloc.Prelude.{◌+◌, ◌%◌, ◌^◌, ◌≡◌, arith, word, if◌then◌else◌, ◌==◌}
use my_malloc.Classic.Tcmalloc.PageMap.{empty, get, set, map_span}
use my_malloc.Classic.Tcmalloc.PageMap.Lookup.{pages, get-set, get-map_span}

-- 4 GiB apart
get-set_example :
    get 7 (set (7 + 2 ^ 19) 5 empty)
    ≡ (if (7 + 2 ^ 19) % pages == 7 % pages then 5 else get 7 empty)
get-set_example = get-set 7 (7 + 2 ^ 19) 5 empty

get-map_span_example :
    (get ((100 + 2) % word) (map_span 5 100 3 empty) ≡ 5)
    × (get 103 (map_span 5 100 3 empty) ≡ get 103 empty)
get-map_span_example =
    get-map_span 5 100 3 2 103 empty (omega arith) (omega arith) (λ j lt e. absurd (omega arith))
