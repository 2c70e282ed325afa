-- ===== src/Adaptive/Telemetry/Tests.antt =====
-- A mapped page, three allocations of two modes, and a free.
use my_malloc.Prelude.{ℕ, true, false, List, [], ◌∷◌}
use my_malloc.Adaptive.Types.{
  ModeId, balanced, hardened_debug, unnamed_mode, size_class, adaptive_magic, AdaptiveHeader,
  AllocationResult,
}
use my_malloc.Adaptive.Telemetry.{zero_stats}
use my_malloc.Adaptive.Telemetry.Balance.{
  Event, allocated, freed, mapped, report_all, count_all, no_bytes, Accounts, report_all-Accounts,
  zero_stats-Accounts,
}

abbrev result_of : ℕ → AllocationResult
result_of usable = record {
  user_ptr = 4208;
  header = 4096;
  storage = size_class;
  requested = usable;
  usable = usable;
  mapped_size = 65536;
  newly_mapped_size = 0;
  from_cache = true;
  used_mmap = false;
  slow_path = false;
}

abbrev header_of : ℕ → ModeId → AdaptiveHeader
header_of usable mode = record {
  magic = adaptive_magic;
  storage = size_class;
  mode_id = mode;
  flags = 2;
  config_version = 1;
  requested = usable;
  usable = usable;
  mapped_size = 65536;
  region_base = 4096;
  owner_page = 4096;
  owner_thread = 7;
  alloc_epoch = 1;
  debug_cookie = 0;
}

abbrev day : List Event
day =
    mapped balanced 65536
    ∷ allocated (result_of 32) balanced
    ∷ allocated (result_of 64) hardened_debug
    ∷ allocated (result_of 16) (unnamed_mode 3)
    ∷ freed 7 (header_of 64 hardened_debug)
    ∷ []

report_all-Accounts_example : Accounts (report_all day zero_stats) (count_all day no_bytes)
report_all-Accounts_example = report_all-Accounts day zero_stats no_bytes zero_stats-Accounts
