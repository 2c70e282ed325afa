-- ===== src/Adaptive/Services/Release/Tests.antt =====
-- A block of a pool page is freed into the thread cache; it is then no longer found.
use my_malloc.Prelude.{◌≡◌, refl, false, none, some, [], ◌∷◌, arith}
use my_malloc.Adaptive.Types.{ReleaseDecision, cache, size_class}
use my_malloc.Adaptive.Services.Headers.{header_from_user, user_from_header}
use my_malloc.Adaptive.Services.Pages.{pool_head_for}
use my_malloc.Adaptive.Services.Release.Examples.{one_live}
use my_malloc.Adaptive.Services.Release.{deallocate}
use my_malloc.Adaptive.Services.Release.DoubleFree.{header_from_user-deallocate}

abbrev to_cache : ReleaseDecision
to_cache = record {
  action = cache;
  poison = false;
  check_redzone = false;
  quarantined = false;
  use_remote_queue = false;
  empty_keep_limit = 2;
  tcache_small_limit = 64;
  tcache_medium_limit = 16;
}

known : pool_head_for size_class 6 one_live ≡ some (0x100000 ∷ [])
unfolding pool_head_for
known = refl

header_from_user-deallocate_example :
    (header_from_user (user_from_header 0x100040) (deallocate 7 0x100040 to_cache one_live)).1
    ≡ none
header_from_user-deallocate_example =
    header_from_user-deallocate 7 0x100040 to_cache one_live (0x100000 ∷ [])
      (λ e. absurd (omega arith)) refl (λ e. absurd (omega arith)) known
