-- ===== src/Adaptive/ModelTable.antt =====
-- include/my_ptmalloc/generated_selector_model.h: the trained cost model, one stump a row.
use my_malloc.Prelude.{ℕ, List, [], ◌∷◌, ◌++◌}
use my_malloc.Adaptive.Doubles.{Literal, decimal, minus}

pub data Feature : Type 0 where
  large_bytes_ratio : Feature
  remote_free_ratio : Feature
  mapped_live_ratio : Feature
  slow_path_ratio : Feature
  size_entropy : Feature
  internal_frag_ratio : Feature
  cache_hit_rate : Feature
  safety_error_rate : Feature
  log_alloc_calls : Feature
  log_live_bytes : Feature

pub record Tree : Type 0 where
  pub mode : ℕ
  pub feature : Feature
  pub threshold : Literal
  pub left_value : Literal
  pub right_value : Literal

abbrev stump : ℕ → Feature → (threshold left right : Literal) → Tree
stump m f threshold left right = record {
  mode = m;
  feature = f;
  threshold = threshold;
  left_value = left;
  right_value = right;
}

abbrev pub switch_cost : Literal
switch_cost = decimal 101525439468 13

abbrev pub bias : List Literal
bias =
    decimal 280339903849 12
    ∷ decimal 29428866545 11
    ∷ decimal 285576343935 12
    ∷ decimal 303699426589 12
    ∷ decimal 282038940822 12
    ∷ decimal 296176714338 12
    ∷ decimal 298555930478 12
    ∷ decimal 10 0
    ∷ []

-- The rows of mode 0, in order.
unfoldable pub trees_0 : List Tree
trees_0 =
    stump 0 slow_path_ratio (decimal 94 2) (minus 376149267183 13) (decimal 143478131863 12)
    ∷ stump 0 slow_path_ratio (decimal 94 2) (minus 244497023669 13) (decimal 932607857107 13)
    ∷ stump 0 slow_path_ratio (decimal 48 3) (minus 296103304308 13) (decimal 279023310681 13)
    ∷ stump 0 slow_path_ratio (decimal 94 2) (minus 122385013959 13) (decimal 508536948381 13)
    ∷ stump 0 mapped_live_ratio (decimal 537515 2) (minus 103469311174 13) (decimal 47406332905 12)
    ∷ stump 0 slow_path_ratio (decimal 94 2) (minus 770254041756 14) (decimal 366763275358 13)
    ∷ stump 0 mapped_live_ratio (decimal 537515 2) (minus 661838337743 14) (decimal 335100055344 13)
    ∷ stump 0 size_entropy (decimal 1724 3) (decimal 156339630823 13) (minus 127330202054 13)
    ∷ stump 0 mapped_live_ratio (decimal 4776399 3) (minus 855195859882 14)
        (decimal 149327944958 13)
    ∷ stump 0 size_entropy (decimal 947 3) (decimal 223591736067 13) (minus 608432683145 14)
    ∷ []

-- The rows of mode 1, in order.
unfoldable pub trees_1 : List Tree
trees_1 =
    stump 1 slow_path_ratio (decimal 94 2) (minus 205354729895 13) (decimal 143524807261 12)
    ∷ stump 1 internal_frag_ratio (decimal 0 0) (minus 384100360534 13) (decimal 556143080914 13)
    ∷ stump 1 internal_frag_ratio (decimal 0 0) (minus 249665234347 13) (decimal 361493002594 13)
    ∷ stump 1 slow_path_ratio (decimal 94 2) (minus 926594787021 14) (decimal 611738617969 13)
    ∷ stump 1 slow_path_ratio (decimal 94 2) (minus 602286611563 14) (decimal 39763010168 12)
    ∷ stump 1 internal_frag_ratio (decimal 0 0) (minus 108771553375 13) (decimal 152884667028 13)
    ∷ stump 1 slow_path_ratio (decimal 48 3) (minus 825550549522 14) (decimal 115179760579 13)
    ∷ stump 1 internal_frag_ratio (decimal 0 0) (minus 591090368196 14) (decimal 821311791772 14)
    ∷ stump 1 cache_hit_rate (decimal 220415537489 12) (decimal 169047402786 13)
        (minus 19250119748 13)
    ∷ stump 1 internal_frag_ratio (decimal 4 3) (minus 265997947511 14) (decimal 125724653761 13)
    ∷ []

-- The rows of mode 2, in order.
unfoldable pub trees_2 : List Tree
trees_2 =
    stump 2 slow_path_ratio (decimal 94 2) (minus 316008115865 13) (decimal 145881275706 12)
    ∷ stump 2 slow_path_ratio (decimal 48 3) (minus 391999582746 13) (decimal 427931657066 13)
    ∷ stump 2 slow_path_ratio (decimal 94 2) (minus 163864065996 13) (decimal 798452212114 13)
    ∷ stump 2 slow_path_ratio (decimal 94 2) (minus 106511642897 13) (decimal 518993937874 13)
    ∷ stump 2 mapped_live_ratio (decimal 537515 2) (minus 920301135317 14) (decimal 474131333509 13)
    ∷ stump 2 slow_path_ratio (decimal 94 2) (minus 700481125578 14) (decimal 369556599354 13)
    ∷ stump 2 mapped_live_ratio (decimal 4776399 3) (minus 108558760998 13)
        (decimal 189671178527 13)
    ∷ stump 2 mapped_live_ratio (decimal 537515 2) (minus 479585992998 14) (decimal 266317293692 13)
    ∷ stump 2 slow_path_ratio (decimal 94 2) (minus 438764504274 14) (decimal 249326406195 13)
    ∷ stump 2 internal_frag_ratio (decimal 184 3) (decimal 27636925859 13) (minus 266929581273 13)
    ∷ []

-- The rows of mode 3, in order.
unfoldable pub trees_3 : List Tree
trees_3 =
    stump 3 mapped_live_ratio (decimal 124121 3) (minus 411574236635 13) (decimal 217730812269 13)
    ∷ stump 3 mapped_live_ratio (decimal 124121 3) (minus 267523253813 13) (decimal 141525027975 13)
    ∷ stump 3 cache_hit_rate (decimal 686127744511 12) (decimal 249304030508 13)
        (minus 241101133783 14)
    ∷ stump 3 slow_path_ratio (decimal 48 3) (minus 436788290321 14) (decimal 14015089577 12)
    ∷ stump 3 size_entropy (decimal 2839 3) (decimal 477836792603 14) (minus 231826662427 13)
    ∷ stump 3 mapped_live_ratio (decimal 124121 3) (minus 166888272876 13) (decimal 451187187 11)
    ∷ stump 3 large_bytes_ratio (decimal 599 3) (minus 203783603922 14) (decimal 13244647474 12)
    ∷ stump 3 size_entropy (decimal 2839 3) (decimal 246006846556 14) (minus 180741932904 13)
    ∷ stump 3 slow_path_ratio (decimal 48 3) (minus 438342798862 14) (decimal 679499321147 14)
    ∷ stump 3 internal_frag_ratio (decimal 4 3) (minus 189188123848 14) (decimal 101853128906 13)
    ∷ []

-- The rows of mode 4, in order.
unfoldable pub trees_4 : List Tree
trees_4 =
    stump 4 slow_path_ratio (decimal 94 2) (minus 306939230118 13) (decimal 114440031376 12)
    ∷ stump 4 slow_path_ratio (decimal 94 2) (minus 199510499577 13) (decimal 743860203946 13)
    ∷ stump 4 slow_path_ratio (decimal 48 3) (minus 255383842776 13) (decimal 242317851773 13)
    ∷ stump 4 internal_frag_ratio (decimal 184 3) (decimal 325954145439 14) (minus 577798886644 13)
    ∷ stump 4 slow_path_ratio (decimal 94 2) (minus 852917177538 14) (decimal 387289489354 13)
    ∷ stump 4 size_entropy (decimal 947 3) (decimal 273408739635 13) (minus 851999270804 14)
    ∷ stump 4 slow_path_ratio (decimal 48 3) (minus 112395043359 13) (decimal 132331826061 13)
    ∷ stump 4 size_entropy (decimal 1724 3) (decimal 111082636422 13) (minus 918569902954 14)
    ∷ stump 4 mapped_live_ratio (decimal 537515 2) (minus 481016684427 14) (decimal 266392976912 13)
    ∷ stump 4 mapped_live_ratio (decimal 124121 3) (decimal 216670386399 13) (minus 385185763888 14)
    ∷ []

-- The rows of mode 5, in order.
unfoldable pub trees_5 : List Tree
trees_5 =
    stump 5 slow_path_ratio (decimal 94 2) (minus 197028792094 13) (decimal 152406403909 12)
    ∷ stump 5 slow_path_ratio (decimal 94 2) (minus 128068714861 13) (decimal 990641625407 13)
    ∷ stump 5 slow_path_ratio (decimal 48 3) (minus 220623696362 13) (decimal 342314618001 13)
    ∷ stump 5 internal_frag_ratio (decimal 0 0) (minus 174226876572 13) (decimal 263599800283 13)
    ∷ stump 5 slow_path_ratio (decimal 94 2) (minus 618028797751 14) (decimal 431847010115 13)
    ∷ stump 5 mapped_live_ratio (decimal 537515 2) (minus 491922106541 14) (decimal 334822589377 13)
    ∷ stump 5 slow_path_ratio (decimal 94 2) (minus 4535546146 12) (decimal 297917830304 13)
    ∷ stump 5 mapped_live_ratio (decimal 537515 2) (minus 361248007671 14) (decimal 233509094606 13)
    ∷ stump 5 slow_path_ratio (decimal 94 2) (minus 325660135773 14) (decimal 206290269966 13)
    ∷ stump 5 size_entropy (decimal 947 3) (decimal 143127367946 13) (minus 357149427227 14)
    ∷ []

-- The rows of mode 6, in order.
unfoldable pub trees_6 : List Tree
trees_6 =
    stump 6 mapped_live_ratio (decimal 124121 3) (minus 428340149452 13) (decimal 157517303709 13)
    ∷ stump 6 size_entropy (decimal 947 3) (minus 231033679175 13) (decimal 120091200204 13)
    ∷ stump 6 mapped_live_ratio (decimal 124121 3) (minus 197559309432 13) (decimal 693153268652 14)
    ∷ stump 6 internal_frag_ratio (decimal 0 0) (decimal 10903070102 12) (minus 980688601453 14)
    ∷ stump 6 mapped_live_ratio (decimal 124121 3) (minus 166574296488 13) (decimal 431366403094 14)
    ∷ stump 6 internal_frag_ratio (decimal 0 0) (decimal 741218385244 14) (minus 788425832027 14)
    ∷ stump 6 large_bytes_ratio (decimal 599 3) (minus 246695509692 14) (decimal 129265430632 13)
    ∷ stump 6 mapped_live_ratio (decimal 124121 3) (minus 125581593361 13) (decimal 25152421043 13)
    ∷ stump 6 internal_frag_ratio (decimal 0 0) (decimal 477301058852 14) (minus 581513390527 14)
    ∷ stump 6 mapped_live_ratio (decimal 124121 3) (minus 983335727448 14) (decimal 181727894823 14)
    ∷ []

unfoldable pub trees : List Tree
unfolding trees_0 trees_1 trees_2 trees_3 trees_4 trees_5 trees_6
trees = trees_0 ++ trees_1 ++ trees_2 ++ trees_3 ++ trees_4 ++ trees_5 ++ trees_6
