-- ===== src/Classic/Ptmalloc/Coalesce/Tests.antt =====
-- Merging of classic/ptmalloc/coalesce.cpp on concrete chunks.
use my_malloc.Prelude.{true, ◌==◌, if◌then◌else◌}
use my_malloc.Classic.Ptmalloc.Coalesce.{Arena}

-- Two chunks of 64 bytes; the second one, at 4160, is in a fastbin.
abbrev two : Arena
two = record {
  bins = record {
    at = 65536;
    fast = λ i. if i == 0 then 4160 else 0;
    links = record { fd = λ a. 0; bk = λ a. 0 };
    binmap = λ i. 0;
  };
  chunks = λ a. record { prev_size = 0; size = 65 };
  top = 8192;
  last_remainder = 0;
  attached_threads = 1;
  system_mem = 0;
  max_system_mem = 0;
  is_main = true;
}
