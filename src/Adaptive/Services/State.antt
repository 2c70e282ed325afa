-- ===== src/Adaptive/Services/State.antt =====
-- The state of src/adaptive_services.cpp. Memory is typed: the headers, the page records and the user
-- bytes are maps from addresses. A chain through registry_next or next is the list of its addresses,
-- head first. The mutexes and the atomics are left out: each function is one atomic step.
use my_malloc.Prelude.{put, ℕ, ◌/◌, ◌%◌, Bool, false, List, [], ◌∷◌, ◌==◌, if◌then◌else◌}
use my_malloc.Adaptive.Types.{
  balanced, ModeId, StorageId, AdaptiveHeader, no_storage, AllocationResult,
}
use my_malloc.Adaptive.Runtime.{Runtime}
use my_malloc.Adaptive.Telemetry.{AdaptiveStats, zero_stats}

pub record AdaptivePage : Type 0 where
  pub storage : StorageId
  pub mode_id : ModeId
  pub config_version : ℕ
  pub class_index : ℕ
  pub block_usable : ℕ
  pub block_stride : ℕ
  pub mapped_size : ℕ
  pub capacity : ℕ
  pub live_count : ℕ
  pub free_list : List ℕ

-- count is a uint16_t of its own, not computed from the list.
pub record TcacheBin : Type 0 where
  pub head : List ℕ
  pub count : ℕ

pub record AdaptiveThreadCache : Type 0 where
  pub small : ℕ → TcacheBin
  pub medium : ℕ → TcacheBin

pub record RemoteQueueBucket : Type 0 where
  pub owner_thread : ℕ
  pub head : List ℕ

pub record ExtentCache : Type 0 where
  pub head : List ℕ
  pub count : ℕ

-- A mapping of the operating system.
pub record Region : Type 0 where
  pub base : ℕ
  pub size : ℕ

pub record Services : Type 0 where
  pub runtime : Runtime
  pub stats : AdaptiveStats
  pub registry : List ℕ
  pub small_pages : ℕ → List ℕ
  pub medium_pages : ℕ → List ℕ
  pub page_table : ℕ → ℕ
  pub remote_pending : ℕ
  pub remote_queues : ℕ → RemoteQueueBucket
  pub large_extent_cache : ExtentCache
  -- t_thread_cache of the thread with a token
  pub thread_cache : ℕ → AdaptiveThreadCache
  pub headers : ℕ → AdaptiveHeader
  pub pages : ℕ → AdaptivePage
  pub bytes : ℕ → ℕ
  -- the mappings in force
  pub regions : List Region

abbrev pub flag_memalign : ℕ
flag_memalign = 1

abbrev pub flag_pooled : ℕ
flag_pooled = 2

abbrev pub flag_redzone : ℕ
flag_redzone = 4

-- `flags & flag`, for one bit.
abbrev pub has_flag : (flags flag : ℕ) → Bool
has_flag flags flag = flags / flag % 2 == 1

abbrev pub set_header : ℕ → AdaptiveHeader → Services → Services
set_header a h s = record s { headers = put s.headers a h }

abbrev pub set_page : ℕ → AdaptivePage → Services → Services
set_page a p s = record s { pages = put s.pages a p }

abbrev pub count_event : (AdaptiveStats → AdaptiveStats) → Services → Services
count_event f s = record s { stats = f s.stats }

-- The chain without the first occurrence of an address.
unfoldable pub unlink : ℕ → List ℕ → List ℕ
unlink a [] = []
unlink a (x ∷ xs) = if x == a then xs else x ∷ unlink a xs

-- A header that goes into a free chain: the writes that push_tcache, enqueue_remote_free,
-- push_large_extent_cache and deallocate make to it.
abbrev pub retired_header : (owner_thread : ℕ) → AdaptiveHeader → AdaptiveHeader
retired_header owner_thread h = record h { magic = 0; requested = 0; owner_thread = owner_thread }

pub fail_result : AllocationResult
fail_result = record {
  user_ptr = 0;
  header = 0;
  storage = no_storage;
  requested = 0;
  usable = 0;
  mapped_size = 0;
  newly_mapped_size = 0;
  from_cache = false;
  used_mmap = false;
  slow_path = false;
}

-- Zeroed memory, read as a header and as a page record.
abbrev pub zero_header : AdaptiveHeader
zero_header = record {
  magic = 0;
  storage = no_storage;
  mode_id = balanced;
  flags = 0;
  config_version = 0;
  requested = 0;
  usable = 0;
  mapped_size = 0;
  region_base = 0;
  owner_page = 0;
  owner_thread = 0;
  alloc_epoch = 0;
  debug_cookie = 0;
}

abbrev pub zero_page : AdaptivePage
zero_page = record {
  storage = no_storage;
  mode_id = balanced;
  config_version = 0;
  class_index = 0;
  block_usable = 0;
  block_stride = 0;
  mapped_size = 0;
  capacity = 0;
  live_count = 0;
  free_list = [];
}

abbrev pub empty_bin : TcacheBin
empty_bin = record { head = []; count = 0 }

-- The initial values, with a runtime.
abbrev pub initial_services : Runtime → Services
initial_services runtime = record {
  runtime = runtime;
  stats = zero_stats;
  registry = [];
  small_pages = λ c. [];
  medium_pages = λ c. [];
  page_table = λ i. 0;
  remote_pending = 0;
  remote_queues = λ i. record { owner_thread = 0; head = [] };
  large_extent_cache = record { head = []; count = 0 };
  thread_cache = λ t. record { small = λ c. empty_bin; medium = λ c. empty_bin };
  headers = λ a. zero_header;
  pages = λ a. zero_page;
  bytes = λ a. 0;
  regions = [];
}
