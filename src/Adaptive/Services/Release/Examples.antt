-- ===== src/Adaptive/Services/Release/Examples.antt =====
-- A state with one live block of 112 bytes in the first place of a pool page, for the tests.
use my_malloc.Prelude.{put, [], ◌∷◌}
use my_malloc.Adaptive.Types.{AdaptiveHeader, size_class, throughput_cache, adaptive_magic}
use my_malloc.Adaptive.Runtime.{initial}
use my_malloc.Adaptive.Services.State.{
  Services, initial_services, zero_header, zero_page, flag_pooled,
}

abbrev pub live_header : AdaptiveHeader
live_header = record zero_header {
  magic = adaptive_magic;
  storage = size_class;
  mode_id = throughput_cache;
  flags = flag_pooled;
  requested = 100;
  usable = 112;
  mapped_size = 65536;
  region_base = 0x100000;
  owner_page = 0x100000;
  owner_thread = 7;
}

abbrev pub one_live : Services
one_live = record (initial_services initial) {
  headers = put (λ a. zero_header) 0x100040 live_header;
  registry = 0x100040 ∷ [];
  page_table = put (λ i. 0) 256 0x100000;
  small_pages = put (λ c. []) 6 (0x100000 ∷ []);
  pages =
      put (λ a. zero_page) 0x100000
        (record zero_page {
          storage = size_class;
          class_index = 6;
          block_usable = 112;
          mapped_size = 65536;
          live_count = 1;
        });
}
