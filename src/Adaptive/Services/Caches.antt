-- ===== src/Adaptive/Services/Caches.antt =====
-- src/adaptive_services.cpp: the thread caches, the queues of remote frees, and the cache of large
-- extents. `token` names the calling thread, whose t_thread_cache is used.
use my_malloc.Prelude.{
  put, ℕ, zero, suc, ◌+◌, ◌-◌, ◌*◌, ◌/◌, ◌%◌, ◌^◌, bit_xor, Bool, true, false, not, ◌&&◌, ◌||◌,
  Option, none, some, List, [], ◌∷◌, ltb, leb, ◌==◌, if◌then◌else◌, word,
}
use my_malloc.Adaptive.Types.{
  StorageId, size_class, span, direct_map, AdaptiveHeader, AllocationRequest,
}
use my_malloc.Adaptive.Telemetry.{wrap_add}
use my_malloc.Adaptive.Services.Sizes.{adaptive_small_class_count, adaptive_medium_class_count}
use my_malloc.Adaptive.Services.State.{
  Services, TcacheBin, set_header, set_page, has_flag, flag_pooled, retired_header,
}

abbrev pub adaptive_remote_queue_buckets : ℕ
adaptive_remote_queue_buckets = 256

abbrev pub adaptive_remote_drain_limit : ℕ
adaptive_remote_drain_limit = 64

abbrev pub adaptive_large_extent_cache_limit : ℕ
adaptive_large_extent_cache_limit = 8

abbrev pub adaptive_large_extent_cache_max : ℕ
adaptive_large_extent_cache_max = 2 * 1024 * 1024

unfoldable pub tcache_bin_for :
    (token : ℕ) → StorageId → (class_index : ℕ) → Services → Option TcacheBin
tcache_bin_for token size_class c s =
    if ltb c adaptive_small_class_count then some ((s.thread_cache token).small c) else none
tcache_bin_for token span c s =
    if ltb c adaptive_medium_class_count then some ((s.thread_cache token).medium c) else none
tcache_bin_for token _ c s = none

-- The write to the bin that tcache_bin_for returns.
unfoldable pub set_bin :
    (token : ℕ) → StorageId → (class_index : ℕ) → TcacheBin → Services → Services
set_bin token size_class c bin s =
    let t = s.thread_cache token in
    record s { thread_cache = put s.thread_cache token (record t { small = put t.small c bin }) }
set_bin token span c bin s =
    let t = s.thread_cache token in
    record s { thread_cache = put s.thread_cache token (record t { medium = put t.medium c bin }) }
set_bin token _ c bin s = s

unfoldable pub tcache_limit_for : StorageId → (small_limit medium_limit : ℕ) → ℕ
tcache_limit_for size_class small_limit medium_limit =
    if ltb 65535 small_limit then 65535 else small_limit
tcache_limit_for span small_limit medium_limit =
    if ltb 65535 medium_limit then 65535 else medium_limit
tcache_limit_for _ small_limit medium_limit = 0

abbrev pub push_bin : ℕ → TcacheBin → TcacheBin
push_bin hdr bin = record { head = hdr ∷ bin.head; count = (bin.count + 1) % 2 ^ 16 }

unfoldable pub push_tcache :
    (token : ℕ) → (hdr : ℕ) → (small_limit medium_limit : ℕ) → Services → Option Services
push_tcache token hdr small_limit medium_limit s =
    let h = s.headers hdr in
    let page = s.pages h.owner_page in
    if hdr == 0 || not (has_flag h.flags flag_pooled) || h.owner_page == 0
    then none
    else elim (tcache_bin_for token page.storage page.class_index s) [
      | none ↦ none
      | some bin ↦
          if leb (tcache_limit_for page.storage small_limit medium_limit) bin.count
          then none
          else some (
              set_bin token page.storage page.class_index (push_bin hdr bin)
                (set_header hdr (retired_header 0 h) s))
    ]

-- With the chain and the count of the bin.
pop_bin :
    (token : ℕ)
    → StorageId
    → (class_index : ℕ) → (head : List ℕ) → (count : ℕ) → Services
    → Option (ℕ × Services)
pop_bin token id c [] n s = none
pop_bin token id c (hdr ∷ rest) n s =
    some (hdr, set_bin token id c (record { head = rest; count = (n + 65535) % 2 ^ 16 }) s)

unfoldable pub pop_tcache :
    (token : ℕ) → StorageId → (class_index : ℕ) → Services → Option (ℕ × Services)
unfolding pop_bin
pop_tcache token storage c s = elim (tcache_bin_for token storage c s) [
  | none ↦ none
  | some bin ↦ pop_bin token storage c bin.head bin.count s
]

-- The variables of the loop of refill_tcache_locked.
record Refill : Type 0 where
  free_list : List ℕ
  bin : TcacheBin
  live_count : ℕ
  headers : ℕ → AdaptiveHeader

refill_loop : (limit batch_size moved : ℕ) → (free_list : List ℕ) → Refill → Refill
refill_loop limit batch_size moved [] r = record r { free_list = [] }
refill_loop limit batch_size moved (hdr ∷ rest) r =
    if ltb r.bin.count limit && ltb ((moved + 1) % 2 ^ 32) batch_size
    then refill_loop limit batch_size (moved + 1) rest (record {
      free_list = rest;
      bin = push_bin hdr r.bin;
      live_count = (r.live_count + 1) % 2 ^ 32;
      headers = put r.headers hdr (record (r.headers hdr) { owner_thread = 0 });
    })
    else record r { free_list = hdr ∷ rest }

-- The page is not null.
unfoldable pub refill_tcache_locked :
    (token page : ℕ) → StorageId → (class_index : ℕ) → AllocationRequest → Services → Services
unfolding refill_loop
refill_tcache_locked token page storage c req s =
    let limit = tcache_limit_for storage req.tcache_small_limit req.tcache_medium_limit in
    let p = s.pages page in
    if not req.prefer_thread_cache || leb req.batch_size 1
    then s
    else elim (tcache_bin_for token storage c s) [
      | none ↦ s
      | some bin ↦
          if limit == 0
          then s
          else let r = refill_loop limit req.batch_size 0 p.free_list (record {
            free_list = p.free_list;
            bin = bin;
            live_count = p.live_count;
            headers = s.headers;
          }) in
            set_bin token storage c r.bin (
              set_page page (record p { free_list = r.free_list; live_count = r.live_count })
                (record s { headers = r.headers }))
    ]

pub remote_bucket_index : (owner_thread : ℕ) → ℕ
remote_bucket_index owner_thread =
    bit_xor (bit_xor owner_thread (owner_thread / 2 ^ 17)) (owner_thread / 2 ^ 33)
    % adaptive_remote_queue_buckets

-- The first of `left` buckets from `bucket` on with which a test succeeds.
pub find_bucket : (ℕ → Bool) → (bucket left : ℕ) → Option ℕ
find_bucket test bucket zero = none
find_bucket test bucket (suc left) =
    if test (bucket % adaptive_remote_queue_buckets)
    then some (bucket % adaptive_remote_queue_buckets)
    else find_bucket test (bucket + 1) left

-- A bucket without an owner, or of the given one.
abbrev pub may_hold : (owner_thread : ℕ) → Services → ℕ → Bool
may_hold owner_thread s i =
    let owner = (s.remote_queues i).owner_thread in owner == 0 || owner == owner_thread

unfoldable pub enqueue_remote_free : (hdr : ℕ) → Services → Option Services
unfolding remote_bucket_index find_bucket
enqueue_remote_free hdr s =
    let h = s.headers hdr in
    if hdr == 0 || not (has_flag h.flags flag_pooled)
    then none
    else elim (find_bucket (may_hold h.owner_thread s) (remote_bucket_index h.owner_thread)
        adaptive_remote_queue_buckets) [
          | none ↦ none
          | some i ↦ some (record (set_header hdr (retired_header h.owner_thread h) s) {
            remote_queues =
                put s.remote_queues i
                  (record { owner_thread = h.owner_thread; head = hdr ∷ (s.remote_queues i).head });
            remote_pending = wrap_add s.remote_pending 1;
          })
        ]

-- The chain that is left, and the state; at most 64 rounds.
drain_loop :
    (token small_limit medium_limit : ℕ)
    → (rounds : ℕ) → (list : List ℕ) → Services
    → List ℕ × Services
drain_loop token small_limit medium_limit zero list s = (list, s)
drain_loop token small_limit medium_limit (suc rounds) [] s = ([], s)
drain_loop token small_limit medium_limit (suc rounds) (hdr ∷ next) s =
    elim (push_tcache token hdr small_limit medium_limit s) [
      | none ↦ (hdr ∷ next, s)
      | some s' ↦
          drain_loop token small_limit medium_limit rounds next
            (record s' { remote_pending = s'.remote_pending - 1 })
    ]

abbrev has_blocks : List ℕ → Bool
has_blocks [] = false
has_blocks (x ∷ xs) = true

unfoldable pub drain_remote_frees_for :
    (token owner_thread small_limit medium_limit : ℕ) → Services → Services
unfolding drain_loop remote_bucket_index find_bucket
drain_remote_frees_for token owner_thread small_limit medium_limit s =
    let test = λ (i : ℕ).
      let bucket = s.remote_queues i in
      bucket.owner_thread == owner_thread && has_blocks bucket.head in
    if owner_thread == 0
    then s
    else elim (find_bucket test (remote_bucket_index owner_thread) adaptive_remote_queue_buckets) [
      | none ↦ s
      | some i ↦
          let bucket = s.remote_queues i in
          let (list, s') =
            drain_loop token small_limit medium_limit adaptive_remote_drain_limit bucket.head s in
          record s' { remote_queues = put s'.remote_queues i (record bucket { head = list }) }
    ]

-- The first extent of the chain that fits without waste, and the chain without it.
find_extent : (headers : ℕ → AdaptiveHeader) → (mapped_needed : ℕ) → List ℕ → Option (ℕ × List ℕ)
find_extent headers mapped_needed [] = none
find_extent headers mapped_needed (hdr ∷ rest) =
    let size = (headers hdr).mapped_size in
    let later = find_extent headers mapped_needed rest in
    if leb mapped_needed size && leb size (mapped_needed * 2)
    then some (hdr, rest)
    else elim later [ none ↦ none | some (x, xs) ↦ some (x, hdr ∷ xs) ]

unfoldable pub pop_large_extent_cache : (mapped_needed : ℕ) → Services → Option (ℕ × Services)
unfolding find_extent
pop_large_extent_cache mapped_needed s =
    let extents = s.large_extent_cache in
    if mapped_needed == 0 || ltb adaptive_large_extent_cache_max mapped_needed
    then none
    else elim (find_extent s.headers mapped_needed extents.head) [
      | none ↦ none
      | some (hdr, rest) ↦ some (
        hdr,
        record s {
          large_extent_cache = record { head = rest; count = (extents.count + (word - 1)) % word };
        },
      )
    ]

abbrev pub is_direct_map : StorageId → Bool
is_direct_map direct_map = true
is_direct_map _ = false

unfoldable pub push_large_extent_cache : (hdr : ℕ) → Services → Option Services
push_large_extent_cache hdr s =
    let h = s.headers hdr in
    let extents = s.large_extent_cache in
    if hdr == 0 || not (is_direct_map h.storage)
    then none
    else if h.mapped_size == 0 || ltb adaptive_large_extent_cache_max h.mapped_size
    then none
    else if leb adaptive_large_extent_cache_limit extents.count
    then none
    else some (record (set_header hdr (retired_header 0 h) s) {
      large_extent_cache = record { head = hdr ∷ extents.head; count = wrap_add extents.count 1 };
    })
